-- ===== src/Session/History/Binding.antt =====
-- What the accept loop does with a token: Bind, then RegisterSession.
use mcp_mux.Base.{ℕ, ◌≡◌, refl, String, true, Option, none, some, arith, string_key, nat_key}
use mcp_mux.Map.{get, Map}
use mcp_mux.Map.Laws.{get-put, get-update_all}
use mcp_mux.Session.State.{
  SessionRef, Heap, PendingSession, Manager, bound_expired, BoundHistory, Context,
}
use mcp_mux.Session.Admission.{bind, admits}
use mcp_mux.Session.History.{register_session, lookup_history, detach_previous, detach_entry}

-- Taking the histories of another session that had the ID leaves those of the session alone.
detach_previous-kept :
    (r : SessionRef) (now : ℕ) (previous : Option Context) (bound : Map String BoundHistory)
    (token : String) (hist : BoundHistory)
    → get token bound ≡ some hist
    → hist.session ≡ some r
    → get token (detach_previous r now previous bound) ≡ some hist
detach_previous-kept r now none bound token hist e s = e
detach_previous-kept r now (some ctx) bound token hist e s =
    ground (arith, get-update_all (detach_entry ctx.session now) token bound)

lookup_history-register_session :
    (token cwd : String) (r : SessionRef) (now later : ℕ) (h : Heap) (m : Manager)
    (hist : BoundHistory)
    → get token m.bound ≡ some hist
    → hist.session ≡ some r
    → lookup_history token later h (register_session r cwd now h m)
      ≡ some (hist.owner_key, hist.cwd, hist.env)
unfolding lookup_history register_session bound_expired
lookup_history-register_session token cwd r now later h m hist e s = ground (
  arith,
  detach_previous-kept r now (get (h r).id m.sessions) m.bound token hist,
  get-put (h r).id (h r).id (record { session = r; cwd = cwd; env = none }) m.sessions,
)

bind-bound :
    (token owner_key : String) (r : SessionRef) (now : ℕ) (h : Heap) (m : Manager)
    (ps : PendingSession)
    → get token m.pending ≡ some ps
    → admits owner_key ps ≡ true
    → ((bind token owner_key r now h m).2 ≡ true)
      × (get token (bind token owner_key r now h m).1.bound
          ≡ some (record {
            owner_key = owner_key;
            cwd = ps.cwd;
            env = ps.env;
            bound_at = now;
            last_used = now;
            session = some r;
          }))
unfolding bind
bind-bound token owner_key r now h m ps e a = ground (
  arith,
  get-put token token
      (record {
        owner_key = owner_key;
        cwd = ps.cwd;
        env = ps.env;
        bound_at = now;
        last_used = now;
        session = some r;
      })
      m.bound,
)

-- Where a pending reservation admits an owner, a session's bind for that owner is accepted, and
-- once the session is registered the token stays good for that owner, with the reservation's
-- directory and environment, at any later time: the time to live does not pass while the session is
-- registered, whichever session had the ID before.
pub lookup_history-register_session-bind :
    (token owner_key cwd : String) (r : SessionRef) (now then_ later : ℕ) (h : Heap) (m : Manager)
    (ps : PendingSession)
    → get token m.pending ≡ some ps
    → admits owner_key ps ≡ true
    → let (h', m', accepted) = bind token owner_key r now h m in
      (accepted ≡ true)
      × (lookup_history token later h' (register_session r cwd then_ h' m')
          ≡ some (owner_key, ps.cwd, ps.env))
unfolding bind
lookup_history-register_session-bind token owner_key cwd r now then_ later h m ps e a =
    let bound = bind token owner_key r now h m in
    let owned = bind-bound token owner_key r now h m ps e a in
    (
      owned.0,
      lookup_history-register_session token cwd r then_ later bound.0 bound.1 _ owned.1 refl,
    )
