-- ===== src/Session/Admission/Tokens.antt =====
-- What a reservation is good for.
use mcp_mux.Base.{
  ℕ, ◌≡◌, ◌≢◌, String, Bool, true, false, none, some, if◌then◌else◌, same, arith, string_key,
  nat_key, maybe, not, ◌&&◌,
}
use mcp_mux.Map.{get}
use mcp_mux.Map.Laws.{get-delete, get-retain}
use mcp_mux.Session.State.{Env, SessionRef, Heap, Manager}
use mcp_mux.Session.Admission.{
  bind, remove_pending_for_owner_except, lookup_pending_for_owner, stays_except,
}

module _ (token owner_key : String) (r : SessionRef) (now : ℕ) (h : Heap) (m : Manager) where
  -- What binding a token leaves: the heap, the manager, and whether it was accepted.
  abbrev bind_result : Heap × Manager × Bool
  bind_result = bind token owner_key r now h m

  -- A token is good for one session: once it was accepted, no owner and no session binds it again,
  -- and the attempt changes nothing.
  pub bind_once :
      (owner_key' : String) (r' : SessionRef) (now' : ℕ) (h' : Heap)
      → bind_result.2 ≡ true
      → bind token owner_key' r' now' h' bind_result.1 ≡ (h', bind_result.1, false)
  unfolding bind
  bind_once owner_key' r' now' h' e = ground (arith, get-delete token token m.pending)

  -- A refused bind changes neither the sessions nor the manager.
  pub bind_refused : bind_result.2 ≡ false → (bind_result.0 ≡ h) × (bind_result.1 ≡ m)
  unfolding bind
  bind_refused e = ground arith

  -- Where authorisation finds a context for the token and the owner, binding accepts the token and
  -- gives the session that context's directory and environment.
  pub lookup-bind :
      (cwd : String) (env : Env)
      → lookup_pending_for_owner token owner_key m ≡ some (cwd, env)
      → (bind_result.2 ≡ true) × ((bind_result.0 r).cwd ≡ cwd) × ((bind_result.0 r).env ≡ env)
  unfolding bind lookup_pending_for_owner
  lookup-bind cwd env e = ground arith

-- Revoking the reservations of an owner that is named takes those of the owner but the kept token,
-- and no other.
pub get-remove_pending :
    (owner_key keep_token j : String) (m : Manager)
    → owner_key ≢ ""
    → get j (remove_pending_for_owner_except owner_key keep_token m).0.pending
      ≡ maybe none
          (λ ps. if same ps.owner_key owner_key && not (same j keep_token) then none else some ps)
          (get j m.pending)
unfolding remove_pending_for_owner_except
get-remove_pending owner_key keep_token j m e =
    ground (arith, get-retain (stays_except owner_key keep_token) j m.pending)
