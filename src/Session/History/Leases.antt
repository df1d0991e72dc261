-- ===== src/Session/History/Leases.antt =====
-- How long a consumed token may be refreshed.
use mcp_mux.Base.{
  ℕ, ◌≡◌, String, not, none, some, arith, string_key, nat_key, if◌then◌else◌, ◌==◌, maybe,
}
use mcp_mux.Map.{get}
use mcp_mux.Map.Laws.{get-retain, get-update_all}
use mcp_mux.Session.State.{
  Heap, Context, BoundHistory, Manager, bound_expired, older_than, bound_token_ttl,
}
use mcp_mux.Session.History.{remove_session, lookup_history, sweep_expired_bound, detach_entry}

-- A disconnect starts the lease anew: a token bound to the removed session can be refreshed from
-- then on for exactly the time to live, whatever happened to it and to the sessions' fields before.
pub lookup_history-remove_session :
    (session_id now later : ℕ) (h : Heap) (m : Manager) (ctx : Context) (token : String)
    (hist : BoundHistory)
    → get session_id m.sessions ≡ some ctx
    → get token m.bound ≡ some hist
    → hist.session ≡ some ctx.session
    → lookup_history token later h (remove_session session_id now m) ≡ (
        if older_than bound_token_ttl later now
        then none
        else some (hist.owner_key, hist.cwd, hist.env))
unfolding lookup_history remove_session bound_expired
lookup_history-remove_session session_id now later h m ctx token hist c e s =
    ground (arith, get-update_all (detach_entry ctx.session now) token m.bound)

-- Removing a session forgets its requests in flight, and no other session's.
pub inflight-remove_session :
    (session_id now : ℕ) (m : Manager) (id : String)
    → get id (remove_session session_id now m).inflight
      ≡ maybe none (λ sid. if sid == session_id then none else some sid) (get id m.inflight)
unfolding remove_session
inflight-remove_session session_id now m id =
    ground (arith, get-retain (λ id sid. not (sid == session_id)) id m.inflight)

-- A sweep of the histories is invisible to reconnecting clients: what they look up at the time of
-- the sweep is what they would have found without it.
pub lookup_history-sweep :
    (token : String) (now : ℕ) (h : Heap) (m : Manager)
    → lookup_history token now h (sweep_expired_bound now h m).0 ≡ lookup_history token now h m
unfolding lookup_history sweep_expired_bound bound_expired
lookup_history-sweep token now h m =
    ground (arith, get-retain (λ token hist. not (bound_expired h m hist now)) token m.bound)
