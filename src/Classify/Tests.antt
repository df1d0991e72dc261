-- ===== src/Classify/Tests.antt =====
-- The verdict on a server with one tool.
use mcp_mux.Base.{
  pos, ◌≤◌, ◌≡◌, refl, ◌⊎◌, true, false, not, none, some, [], ◌∷◌, string_key, nat_key,
}
use mcp_mux.Supervisor.Scalar.{Raw}
use mcp_mux.Classify.{
  Reader, classify_tools, any_of, is_isolation_pattern, parse_tool_timeout, parse_drain_timeout,
  parse_idle_timeout, parse_progress_interval, shared, isolated,
}
use mcp_mux.Classify.Verdict.{classify_tools-isolated, parse_timeouts_bounds}

abbrev tab_open : Raw
tab_open = b't' ∷ b'a' ∷ b'b' ∷ b'_' ∷ b'x' ∷ []

-- The block declares a day and a second for each number.
abbrev demo : Reader
demo = record {
  lower = λ text. text;
  tools = λ _. some (tab_open ∷ []);
  capabilities = λ _. some (record { xmux = 123 ∷ []; experimental = [] });
  sharing = λ _. some "shared";
  persistent = λ _. none;
  number = λ _ _. some (pos 86401);
}

classify_tools-isolated_example :
    ((any_of (is_isolation_pattern demo) (tab_open ∷ []) ≡ true)
      × ((classify_tools demo []).0 ≡ isolated)
      × (any_of (λ x. not (is_isolation_pattern demo x)) (classify_tools demo []).1 ≡ false))
    ⊎ ((any_of (is_isolation_pattern demo) (tab_open ∷ []) ≡ false)
        × (classify_tools demo [] ≡ (shared, [])))
classify_tools-isolated_example = classify_tools-isolated demo [] (tab_open ∷ []) refl

parse_timeouts_bounds_example :
    (parse_tool_timeout demo [] ≤ 3600)
    × (parse_drain_timeout demo [] ≤ 300)
    × (parse_idle_timeout demo [] ≤ 86400)
    × (parse_progress_interval demo [] ≤ 60)
parse_timeouts_bounds_example = parse_timeouts_bounds demo []
