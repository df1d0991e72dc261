-- ===== src/Classify/Verdict.antt =====
-- What the verdict on a server, and the numbers that it declares, rest on.
use mcp_mux.Base.{
  ℤ, pos, negsuc, ℕ, ◌≤◌, String, ◌≡◌, refl, ◌⊎◌, inl, inr, true, false, not, Option, none, some,
  List, [], ◌∷◌, arith, string_key, nat_key, Bool-cases,
}
use mcp_mux.Supervisor.Scalar.{Raw}
use mcp_mux.Classify.{
  Reader, classify_tools, any_of, is_isolation_pattern, matching, verdict, capped,
  parse_tool_timeout, parse_drain_timeout, parse_idle_timeout, parse_progress_interval, shared,
  isolated, unmarshal_xmux,
}

module _ (reader : Reader) where
  matching-none :
      (names : List Raw)
      → any_of (is_isolation_pattern reader) names ≡ false
      → matching reader names ≡ []
  unfolding matching any_of
  matching-none [] h = refl
  matching-none (x ∷ xs) h = ground (arith, matching-none xs)

  verdict-some :
      (names : List Raw)
      → any_of (is_isolation_pattern reader) names ≡ true
      → (verdict (matching reader names)).0 ≡ isolated
  unfolding matching any_of
  verdict-some [] h = absurd (ground arith)
  verdict-some (x ∷ xs) h = elim (Bool-cases (is_isolation_pattern reader x)) [
    | inl e ↦ rw e refl
    | inr e ↦ rw e (verdict-some xs (ground arith))
  ]

  matching-all :
      (names : List Raw)
      → any_of (λ x. not (is_isolation_pattern reader x)) (matching reader names) ≡ false
  unfolding matching any_of
  matching-all [] = refl
  matching-all (x ∷ xs) = ground (arith, matching-all xs)

-- Where the list of tools decodes, the server is isolated exactly if some tool's name matches a
-- pattern of isolation, each name that is reported matches one, and a server that is not isolated
-- is shared with nothing reported.
pub classify_tools-isolated :
    (reader : Reader) (response : Raw) (names : List Raw)
    → reader.tools response ≡ some names
    → ((any_of (is_isolation_pattern reader) names ≡ true)
        × ((classify_tools reader response).0 ≡ isolated)
        × (any_of (λ x. not (is_isolation_pattern reader x)) (classify_tools reader response).1
            ≡ false))
      ⊎ ((any_of (is_isolation_pattern reader) names ≡ false)
          × (classify_tools reader response ≡ (shared, [])))
unfolding classify_tools
classify_tools-isolated reader response names e =
    elim (Bool-cases (any_of (is_isolation_pattern reader) names)) [
      | inl h ↦ inl (
        h,
        rw e (verdict-some reader names h),
        rw e (all_match (matching reader names) (matching-all reader names)),
      )
      | inr h ↦ inr (h, rw (e, matching-none reader names h) refl)
    ]
  where
    all_match :
        (l : List Raw)
        → any_of (λ x. not (is_isolation_pattern reader x)) l ≡ false
        → any_of (λ x. not (is_isolation_pattern reader x)) (verdict l).1 ≡ false
    all_match [] h = h
    all_match (x ∷ xs) h = h

capped-bounds : (cap : ℕ) (o : Option ℤ) → capped cap o ≤ cap
capped-bounds cap none = omega arith
capped-bounds cap (some (pos n)) = ground arith
capped-bounds cap (some (negsuc n)) = omega arith

-- Whatever a server declares, its tool timeout is at most an hour, its drain timeout five minutes,
-- its idle timeout a day, and its progress interval a minute.
pub parse_timeouts_bounds :
    (reader : Reader) (response : Raw)
    → (parse_tool_timeout reader response ≤ 3600)
      × (parse_drain_timeout reader response ≤ 300)
      × (parse_idle_timeout reader response ≤ 86400)
      × (parse_progress_interval reader response ≤ 60)
unfolding parse_tool_timeout parse_drain_timeout parse_idle_timeout parse_progress_interval
parse_timeouts_bounds reader response =
    let declared = λ (name : String). unmarshal_xmux reader response (reader.number name) in
    (
      capped-bounds 3600 (declared "toolTimeout"),
      capped-bounds 300 (declared "drainTimeout"),
      capped-bounds 86400 (declared "idleTimeout"),
      capped-bounds 60 (declared "progressInterval"),
    )
