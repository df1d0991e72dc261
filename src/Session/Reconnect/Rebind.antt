-- ===== src/Session/Reconnect/Rebind.antt =====
-- A reconnect and the bind that follows it.
use mcp_mux.Base.{ℕ, String, ◌≡◌, inl, inr, Bool, true, Option, some, arith, string_key, nat_key}
use mcp_mux.Map.{get}
use mcp_mux.Map.Laws.{get-put}
use mcp_mux.Session.State.{SessionRef, Heap, BoundHistory, PendingSession, Manager}
use mcp_mux.Session.Admission.{bind, lookup_pending_for_owner}
use mcp_mux.Session.Admission.Tokens.{lookup-bind}
use mcp_mux.Session.Reconnect.{
  ok, Reservation, Between, reconnect_begin, reconnect_finish, reconnect_abort, Result-cases,
  register_reconnect,
}

begin_pending :
    (prev : String) (fresh : Option String) (now : ℕ) (h : Heap) (m : Manager) (res : Reservation)
    (hist : BoundHistory)
    → (reconnect_begin prev fresh now h m).1 ≡ ok res
    → get prev m.bound ≡ some hist
    → get res.token (reconnect_begin prev fresh now h m).0.pending
      ≡ some (record {
        owner_key = hist.owner_key;
        cwd = hist.cwd;
        env = hist.env;
        created_at = now;
        source_session = hist.session;
      })
unfolding reconnect_begin
begin_pending prev fresh now h m res hist e found =
    ground (arith, get-put res.token res.token reservation m.pending)
  where
    reservation : PendingSession
    reservation = record {
      owner_key = hist.owner_key;
      cwd = hist.cwd;
      env = hist.env;
      created_at = now;
      source_session = hist.session;
    }

finish_pending :
    (prev : String) (res : Reservation) (now : ℕ) (h : Heap) (m : Manager) (token : String)
    → (reconnect_finish prev res now h m).1 ≡ ok token
    → (token ≡ res.token) × ((reconnect_finish prev res now h m).0.pending ≡ m.pending)
unfolding reconnect_finish
finish_pending prev res now h m token e = ground arith

module _ (prev : String) (owner_alive : String → Bool) (fresh : Option String) (b : Between)
    (now : ℕ) (h : Heap) (m : Manager) (token : String) (hist : BoundHistory) where
  lookup-register_reconnect :
      get prev m.bound ≡ some hist
      → get token (b.others (reconnect_begin prev fresh now h m).0).pending
        ≡ get token (reconnect_begin prev fresh now h m).0.pending
      → (register_reconnect prev owner_alive fresh b now h m).1 ≡ ok token
      → lookup_pending_for_owner token hist.owner_key
          (register_reconnect prev owner_alive fresh b now h m).0
        ≡ some (hist.cwd, hist.env)
  unfolding register_reconnect lookup_pending_for_owner reconnect_abort
  lookup-register_reconnect found kept e =
      elim (Result-cases (reconnect_begin prev fresh now h m).1) [
        | inl (error, q) ↦ absurd (ground arith)
        | inr (res, q) ↦ ground (
          arith,
          begin_pending prev fresh now h m res hist q found,
          finish_pending prev res b.later b.heap (b.others (reconnect_begin prev fresh now h m).0)
              token,
        )
      ]

  -- A client that reconnects gets back where it was: if a reconnect for a token with a history
  -- succeeds and nobody else touches the fresh token's reservation meanwhile, binding the fresh
  -- token for the history's owner is accepted, at any later time and for any session, and gives the
  -- session the history's directory and environment.
  pub bind-register_reconnect :
      (r : SessionRef) (later : ℕ) (h' : Heap)
      → get prev m.bound ≡ some hist
      → get token (b.others (reconnect_begin prev fresh now h m).0).pending
        ≡ get token (reconnect_begin prev fresh now h m).0.pending
      → (register_reconnect prev owner_alive fresh b now h m).1 ≡ ok token
      → let bound =
          bind token hist.owner_key r later h'
            (register_reconnect prev owner_alive fresh b now h m).0 in
        (bound.2 ≡ true) × ((bound.0 r).cwd ≡ hist.cwd) × ((bound.0 r).env ≡ hist.env)
  bind-register_reconnect r later h' found kept e =
      lookup-bind token hist.owner_key r later h'
        (register_reconnect prev owner_alive fresh b now h m).0 hist.cwd hist.env
        (lookup-register_reconnect found kept e)
