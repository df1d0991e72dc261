-- ===== src/Session/Tests.antt =====
-- The theorems about the session manager at concrete states.
use mcp_mux.Base.{
  ℕ, ◌≤◌, String, ◌≡◌, refl, ◌≢◌, true, false, none, some, [], ◌∷◌, arith, string_key, nat_key,
  eq_iff, String-discrete, ℕ_discrete,
}
use mcp_mux.Map.{get, put, delete}
use mcp_mux.Session.State.{
  Heap, Context, PendingSession, BoundHistory, Manager, new_manager, bound_is_live, bound_expired,
}
use mcp_mux.Session.Admission.{bind, lookup_pending_for_owner, is_pre_registered}
use mcp_mux.Session.Admission.Tokens.{bind_once, lookup-bind}
use mcp_mux.Session.History.{
  register_session, remove_session, lookup_history, sweep_expired_bound, import_bound_history,
  export_bound_history,
}
use mcp_mux.Session.History.Binding.{lookup_history-register_session-bind}
use mcp_mux.Session.History.Leases.{lookup_history-remove_session, lookup_history-sweep}
use mcp_mux.Session.History.Snapshot.{lookup_history-import-export}
use mcp_mux.Session.Reconnect.{
  ok, err, owner_gone, Between, reconnect_begin, reconnect_finish, reconnect_abort,
  register_reconnect,
}
use mcp_mux.Session.Reconnect.Rollback.{register_reconnect_ok, register_reconnect_rollback}
use mcp_mux.Session.Reconnect.Rebind.{bind-register_reconnect}
use mcp_mux.Session.Inflight.{track_request, callback_session, last_active_of}
use mcp_mux.Session.World.{World, Reach, starts, goes, tracks}
use mcp_mux.Session.World.Invariant.{IsValid, Reach-IsValid, Reach-callback_session}

-- Session 7, at address 1.
abbrev shims : Heap
shims r = record { id = 7; cwd = ""; env = none }

abbrev reservation : PendingSession
reservation = record {
  owner_key = "owner";
  cwd = "/work";
  env = none;
  created_at = 5;
  source_session = none;
}

abbrev waiting : Manager
waiting = record new_manager { pending = ("t1", reservation) ∷ [] }

abbrev bound_entry : BoundHistory
bound_entry = record {
  owner_key = "owner";
  cwd = "/work";
  env = none;
  bound_at = 6;
  last_used = 6;
  session = some 1;
}

abbrev session_context : Context
session_context = record { session = 1; cwd = "/work"; env = none }

-- Session 7 is registered, was bound by t1 and has a request in flight.
abbrev connected : Manager
connected = record {
  sessions = (7, session_context) ∷ [];
  inflight = ("s7:n:1", 7) ∷ [];
  pending = [];
  bound = ("t1", bound_entry) ∷ [];
  last_active = (7, 8) ∷ [];
}

found_reservation : get "t1" waiting.pending ≡ some reservation
unfolding get String-discrete
found_reservation = refl

lookup_history-register_session-bind_example :
    lookup_history "t1" 9_000_000_000_000 (bind "t1" "owner" 1 6 shims waiting).0 (
      register_session 1 "/work" 7
        (bind "t1" "owner" 1 6 shims waiting).0
        (bind "t1" "owner" 1 6 shims waiting).1)
    ≡ some ("owner", "/work", none)
unfolding String-discrete
lookup_history-register_session-bind_example =
    (lookup_history-register_session-bind "t1" "owner" "/work" 1 6 7 9_000_000_000_000 shims waiting
      reservation found_reservation refl).1

accepted : (bind "t1" "owner" 1 6 shims waiting).2 ≡ true
unfolding bind get String-discrete
accepted = refl

bind_once_example :
    bind "t1" "other" 2 9 shims (bind "t1" "owner" 1 6 shims waiting).1
    ≡ (shims, (bind "t1" "owner" 1 6 shims waiting).1, false)
bind_once_example = bind_once "t1" "owner" 1 6 shims waiting "other" 2 9 shims accepted

lookup-bind_example : ((bind "t1" "owner" 1 6 shims waiting).0 1).cwd ≡ "/work"
unfolding lookup_pending_for_owner get String-discrete
lookup-bind_example = (lookup-bind "t1" "owner" 1 6 shims waiting "/work" none refl).1

owner_named : ◌≢◌ {A = String} "owner" ""
owner_named = ground (arith, eq_iff "owner" "")

token_named : ◌≢◌ {A = String} "t1" ""
token_named = ground (arith, eq_iff "t1" "")

found_context : get 7 connected.sessions ≡ some session_context
unfolding get ℕ_discrete
found_context = refl

found_history : get "t1" connected.bound ≡ some bound_entry
unfolding get String-discrete
found_history = refl

lookup_history-remove_session_example :
    lookup_history "t1" 1_800_000_000_100 shims (remove_session 7 100 connected)
    ≡ some ("owner", "/work", none)
lookup_history-remove_session_example =
    lookup_history-remove_session 7 100 1_800_000_000_100 shims connected session_context "t1"
      bound_entry found_context found_history refl

lookup_history-sweep_example :
    lookup_history "t1" 100 shims (sweep_expired_bound 100 shims connected).0
    ≡ lookup_history "t1" 100 shims connected
lookup_history-sweep_example = lookup_history-sweep "t1" 100 shims connected

live_history : bound_is_live shims connected bound_entry ≡ true
unfolding bound_is_live get ℕ_discrete
live_history = refl

lookup_history-import-export_example :
    lookup_history "t1" 200 shims
      (import_bound_history 200 (export_bound_history 100 shims connected) new_manager).0
    ≡ some ("owner", "/work", none)
unfolding get
lookup_history-import-export_example =
    lookup_history-import-export 100 200 shims connected "t1" shims new_manager bound_entry
      (refl, tt) found_history live_history token_named owner_named (omega arith) refl

-- Nothing runs between the critical sections.
abbrev quiet : Between
quiet = record { later = 120; heap = shims; others = λ m. m }

-- The owner is removed between them.
abbrev revoking : Between
revoking = record { later = 120; heap = shims; others = λ m. record m { pending = [] } }

reconnected :
    (register_reconnect "t1" (λ owner. true) (some "t2") quiet 110 shims connected).1 ≡ ok "t2"
unfolding register_reconnect reconnect_begin reconnect_finish bound_expired get put delete
    String-discrete ℕ_discrete
reconnected = refl

register_reconnect_ok_example :
    let outcome = register_reconnect "t1" (λ owner. true) (some "t2") quiet 110 shims connected in
    is_pre_registered "t2" outcome.0 ≡ true
register_reconnect_ok_example =
    (register_reconnect_ok "t1" (λ owner. true) (some "t2") quiet 110 shims connected "t2"
      reconnected).6

refused :
    (register_reconnect "t1" (λ owner. false) (some "t2") quiet 110 shims connected).1
    ≡ err owner_gone
unfolding register_reconnect reconnect_begin reconnect_abort bound_expired get put delete
    String-discrete ℕ_discrete
refused = refl

register_reconnect_rollback_example :
    let outcome = register_reconnect "t1" (λ owner. false) (some "t2") quiet 110 shims connected in
    get "t2" outcome.0.pending ≡ none
unfolding get
register_reconnect_rollback_example =
    register_reconnect_rollback "t1" (λ owner. false) (some "t2") quiet 110 shims connected "t2"
      owner_gone refl refl refused

bind-register_reconnect_example :
    let outcome = register_reconnect "t1" (λ owner. true) (some "t2") quiet 110 shims connected in
    ((bind "t2" "owner" 4 130 shims outcome.0).0 4).cwd ≡ "/work"
bind-register_reconnect_example =
    (bind-register_reconnect "t1" (λ owner. true) (some "t2") quiet 110 shims connected "t2"
      bound_entry 4 130 shims found_history refl reconnected).1

-- A manager on which session 7 has sent a request.
abbrev busy : World
busy = record { heap = shims; manager = track_request "s7:n:1" 7 8 new_manager }

busy_reached : Reach busy
busy_reached = goes (starts shims) (tracks "s7:n:1" 7 8 (omega arith))

Reach-IsValid_example : IsValid busy.manager
Reach-IsValid_example = Reach-IsValid busy_reached

busy_request : get "s7:n:1" busy.manager.inflight ≡ some 7
unfolding track_request get put delete String-discrete
busy_request = refl

Reach-callback_session_example :
    (sid : ℕ) × (callback_session busy.manager ≡ some sid)
    × ((id' : String) × (get id' busy.manager.inflight ≡ some sid))
    × (last_active_of 7 busy.manager ≤ last_active_of sid busy.manager)
Reach-callback_session_example = Reach-callback_session "s7:n:1" 7 busy_reached busy_request
