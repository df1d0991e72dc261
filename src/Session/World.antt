-- ===== src/Session/World.antt =====
-- The manager under any interleaving of its methods, each critical section of the lock one step.
-- The clock of a step is its own; the sessions' fields may change at any time.
pub mod Invariant
use mcp_mux.Base.{ℕ, ◌<◌, String, Bool, Option, List}
use mcp_mux.Session.State.{Env, SessionRef, Heap, BoundHistorySnapshot, Manager, new_manager}
use mcp_mux.Session.Admission.{
  pre_register_for_owner, remove_pending_for_owner_except, remove_pending_for_owner_except_session,
  remove_pending_for_owner_token, sweep_expired_pending, bind,
}
use mcp_mux.Session.History.{
  register_session, remove_session, sweep_expired_bound, remove_bound_for_owner,
  remove_bound_for_owner_except_session, import_bound_history,
}
use mcp_mux.Session.Reconnect.{Reservation, reconnect_begin, reconnect_abort, reconnect_finish}
use mcp_mux.Session.Inflight.{track_request, complete_request, drain_inflight}

pub record World : Type 0 where
  pub heap : Heap
  pub manager : Manager

-- A method that leaves the heap alone.
abbrev pub after : World → Manager → World
after w m = record w { manager = m }

abbrev bound_world : Heap × Manager × Bool → World
bound_world r = record { heap = r.0; manager = r.1 }

pub data Step (w : World) : World → Type 0 where
  writes : (h : Heap) → Step w (record w { heap = h })
  registers :
      (r : SessionRef) (cwd : String) (now : ℕ)
      → Step w (after w (register_session r cwd now w.heap w.manager))
  removes : (session_id now : ℕ) → Step w (after w (remove_session session_id now w.manager))
  pre_registers :
      (token owner_key cwd : String) (env : Env) (now : ℕ)
      → Step w (after w (pre_register_for_owner token owner_key cwd env now w.manager))
  revokes :
      (owner_key keep_token : String)
      → Step w (after w (remove_pending_for_owner_except owner_key keep_token w.manager).0)
  revokes_others :
      (owner_key : String) (keep : Option SessionRef)
      → Step w (after w (remove_pending_for_owner_except_session owner_key keep w.manager).0)
  revokes_token :
      (owner_key token : String)
      → Step w (after w (remove_pending_for_owner_token owner_key token w.manager).0)
  sweeps_pending : (now : ℕ) → Step w (after w (sweep_expired_pending now w.manager).0)
  binds :
      (token owner_key : String) (r : SessionRef) (now : ℕ)
      → Step w (bound_world (bind token owner_key r now w.heap w.manager))
  sweeps_bound : (now : ℕ) → Step w (after w (sweep_expired_bound now w.heap w.manager).0)
  forgets : (owner_key : String) → Step w (after w (remove_bound_for_owner owner_key w.manager).0)
  forgets_others :
      (owner_key : String) (keep : Option SessionRef)
      → Step w (after w (remove_bound_for_owner_except_session owner_key keep w.manager).0)
  imports :
      (now : ℕ) (entries : List BoundHistorySnapshot)
      → Step w (after w (import_bound_history now entries w.manager).0)
  reserves :
      (prev : String) (fresh : Option String) (now : ℕ)
      → Step w (after w (reconnect_begin prev fresh now w.heap w.manager).0)
  rolls_back : (res : Reservation) → Step w (after w (reconnect_abort res w.manager).0)
  renews :
      (prev : String) (res : Reservation) (now : ℕ)
      → Step w (after w (reconnect_finish prev res now w.heap w.manager).0)
  tracks :
      (remapped_id : String) (session_id now : ℕ)
      → 0 < now
      → Step w (after w (track_request remapped_id session_id now w.manager))
  completes : (remapped_id : String) → Step w (after w (complete_request remapped_id w.manager))
  drains : Step w (after w (drain_inflight w.manager).0)

pub data Reach : World → Type 0 where
  starts : (h : Heap) → Reach (record { heap = h; manager = new_manager })
  goes : {w v : World} → Reach w → Step w v → Reach v
