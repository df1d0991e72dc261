-- ===== src/Session/World/Invariant.antt =====
-- What holds of the manager under every interleaving.
use mcp_mux.Base.{
  ℕ, ◌≤◌, ◌<◌, ◌≡◌, String, false, not, ◌&&◌, Option-cases, inl, inr, some, arith, string_key,
  nat_key, same, ◌==◌, eq_dec, if◌then◌else◌, List, [], ◌∷◌, ◌+◌,
}
use mcp_mux.Map.{Map, get, put, delete, retain}
use mcp_mux.Map.Laws.{get-delete, get-put, get-retain}
use mcp_mux.Map.Distinct.{
  IsDistinct, delete-IsDistinct, put-IsDistinct, retain-IsDistinct, update_all-IsDistinct,
}
use mcp_mux.Session.State.{BoundHistorySnapshot, Manager, BoundHistory}
use mcp_mux.Session.Admission.{
  not_kept, pre_register_for_owner, remove_pending_for_owner_except,
  remove_pending_for_owner_except_session, remove_pending_for_owner_token, sweep_expired_pending,
  bind,
}
use mcp_mux.Session.History.{
  register_session, remove_session, sweep_expired_bound, remove_bound_for_owner,
  remove_bound_for_owner_except_session, import_bound_history, import_entries, import_skips,
  history_from, detach_entry,
}
use mcp_mux.Session.Reconnect.{reconnect_begin, reconnect_abort, reconnect_finish}
use mcp_mux.Session.Inflight.{
  last_active_of, track_request, complete_request, drain_inflight, callback_session,
}
use mcp_mux.Session.Inflight.Callback.{callback_session_most_recent, callback_session-ne-none}
use mcp_mux.Session.World.{
  World, Step, registers, removes, binds, sweeps_bound, forgets, forgets_others, imports, reserves,
  renews, tracks, completes, drains, Reach, starts, goes,
}

-- Every request in flight belongs to a session that is known to have been active.
pub record IsTracked (inflight : Map String ℕ) (last_active : Map ℕ ℕ) : Type 0 where
  pub at :
      (id : String) (s : ℕ)
      → get id inflight ≡ some s
      → (t : ℕ) × (get s last_active ≡ some t) × (0 < t)

same-IsTracked :
    {inflight inflight' : Map String ℕ} {last_active last_active' : Map ℕ ℕ}
    → inflight' ≡ inflight
    → last_active' ≡ last_active
    → IsTracked inflight last_active
    → IsTracked inflight' last_active'
same-IsTracked p q h = rw (p, q) h

pub record IsValid (m : Manager) : Type 0 where
  pub distinct_bound : IsDistinct m.bound
  pub distinct_inflight : IsDistinct m.inflight
  pub tracked : IsTracked m.inflight m.last_active

import_entries-IsDistinct :
    (now : ℕ) (entries : List BoundHistorySnapshot) (bound : Map String BoundHistory) (n : ℕ)
    → IsDistinct bound
    → IsDistinct (import_entries now entries bound n).0
unfolding import_entries
import_entries-IsDistinct now [] bound n d = d
import_entries-IsDistinct now (e ∷ entries) bound n d =
    import_entries-IsDistinct now entries
      (if import_skips now e then bound else put e.token (history_from e) bound)
      (if import_skips now e then n else n + 1)
      (ground (arith, put-IsDistinct e.token (history_from e) bound d))

Step-IsDistinct_bound :
    {w v : World} → Step w v → IsDistinct w.manager.bound → IsDistinct v.manager.bound
unfolding register_session remove_session pre_register_for_owner remove_pending_for_owner_except
    remove_pending_for_owner_except_session remove_pending_for_owner_token sweep_expired_pending
    bind sweep_expired_bound remove_bound_for_owner remove_bound_for_owner_except_session
    import_bound_history reconnect_begin reconnect_abort reconnect_finish track_request
    complete_request drain_inflight
Step-IsDistinct_bound {w} (registers r cwd now) d =
    elim (Option-cases (get (w.heap r).id w.manager.sessions)) [
      | inl e ↦ rw e d
      | inr (ctx, e) ↦
          rw e
            (ground (arith, update_all-IsDistinct (detach_entry ctx.session now) w.manager.bound d))
    ]
Step-IsDistinct_bound {w} (removes session_id now) d =
    elim (Option-cases (get session_id w.manager.sessions)) [
      | inl e ↦ rw e d
      | inr (ctx, e) ↦ rw e (update_all-IsDistinct (detach_entry ctx.session now) w.manager.bound d)
    ]
Step-IsDistinct_bound {w} (binds token owner_key r now) d = grind (arith, put-IsDistinct)
Step-IsDistinct_bound {w} (sweeps_bound now) d = retain-IsDistinct _ w.manager.bound d
Step-IsDistinct_bound {w} (forgets owner_key) d =
    ground (
      arith,
      retain-IsDistinct (λ token hist. not (same hist.owner_key owner_key)) w.manager.bound d,
    )
Step-IsDistinct_bound {w} (forgets_others owner_key keep) d = ground (
  arith,
  retain-IsDistinct
      (λ token hist. not (same hist.owner_key owner_key && not_kept keep hist.session))
      w.manager.bound d,
)
Step-IsDistinct_bound {w} (imports now entries) d =
    import_entries-IsDistinct now entries w.manager.bound 0 d
Step-IsDistinct_bound {w} (reserves prev fresh now) d =
    ground (arith, delete-IsDistinct prev w.manager.bound d)
Step-IsDistinct_bound {w} (renews prev res now) d = grind (arith, put-IsDistinct, delete-IsDistinct)
Step-IsDistinct_bound _ d = ground arith

Step-IsDistinct_inflight :
    {w v : World} → Step w v → IsDistinct w.manager.inflight → IsDistinct v.manager.inflight
unfolding register_session remove_session pre_register_for_owner remove_pending_for_owner_except
    remove_pending_for_owner_except_session remove_pending_for_owner_token sweep_expired_pending
    bind sweep_expired_bound remove_bound_for_owner remove_bound_for_owner_except_session
    import_bound_history reconnect_begin reconnect_abort reconnect_finish track_request
    complete_request drain_inflight
Step-IsDistinct_inflight {w} (removes session_id now) d = retain-IsDistinct _ w.manager.inflight d
Step-IsDistinct_inflight {w} (tracks remapped_id session_id now pos) d =
    put-IsDistinct remapped_id session_id w.manager.inflight d
Step-IsDistinct_inflight {w} (completes remapped_id) d =
    delete-IsDistinct remapped_id w.manager.inflight d
Step-IsDistinct_inflight _ d = ground arith

removes-IsTracked :
    (session_id : ℕ) (inflight : Map String ℕ) (last_active : Map ℕ ℕ)
    → IsTracked inflight last_active
    → IsTracked
        (retain (λ id sid. not (sid == session_id)) inflight)
        (delete session_id last_active)
removes-IsTracked session_id inflight last_active h = record {
  at = λ id s e.
      let kept : (get id inflight ≡ some s) × ((s == session_id) ≡ false) =
        ground (arith, get-retain (λ id sid. not (sid == session_id)) id inflight) in
      let (t, found, pos) = h.at id s kept.0 in
      (t, ground (arith, get-delete session_id s last_active), pos);
}

tracks-IsTracked :
    (remapped_id : String) (session_id now : ℕ) (inflight : Map String ℕ) (last_active : Map ℕ ℕ)
    → 0 < now
    → IsTracked inflight last_active
    → IsTracked (put remapped_id session_id inflight) (put session_id now last_active)
tracks-IsTracked remapped_id session_id now inflight last_active pos h = record {
  at = λ id s e. elim (eq_dec session_id s) [
    | yes same_session ↦ (now, ground (arith, get-put session_id s now last_active), pos)
    | no other ↦
        let old : get id inflight ≡ some s =
          ground (arith, get-put remapped_id id session_id inflight) in
        let (t, found, p) = h.at id s old in
        (t, ground (arith, get-put session_id s now last_active), p)
  ];
}

completes-IsTracked :
    (remapped_id : String) (inflight : Map String ℕ) (last_active : Map ℕ ℕ)
    → IsTracked inflight last_active
    → IsTracked (delete remapped_id inflight) last_active
completes-IsTracked remapped_id inflight last_active h = record {
  at = λ id s e. h.at id s (ground (arith, get-delete remapped_id id inflight));
}

drained-IsTracked : (last_active : Map ℕ ℕ) → IsTracked [] last_active
unfolding get
drained-IsTracked last_active = record { at = λ id s e. ground arith }

-- What a step does to the requests in flight.
Step-IsTracked :
    {w v : World}
    → Step w v
    → IsTracked w.manager.inflight w.manager.last_active
    → IsTracked v.manager.inflight v.manager.last_active
unfolding register_session remove_session pre_register_for_owner remove_pending_for_owner_except
    remove_pending_for_owner_except_session remove_pending_for_owner_token sweep_expired_pending
    bind sweep_expired_bound remove_bound_for_owner remove_bound_for_owner_except_session
    import_bound_history reconnect_begin reconnect_abort reconnect_finish track_request
    complete_request drain_inflight
Step-IsTracked {w} (removes session_id now) h =
    removes-IsTracked session_id w.manager.inflight w.manager.last_active h
Step-IsTracked {w} (tracks remapped_id session_id now pos) h =
    tracks-IsTracked remapped_id session_id now w.manager.inflight w.manager.last_active pos h
Step-IsTracked {w} (completes remapped_id) h =
    completes-IsTracked remapped_id w.manager.inflight w.manager.last_active h
Step-IsTracked {w} drains h = drained-IsTracked w.manager.last_active
Step-IsTracked {w} _ h = same-IsTracked (ground arith) (ground arith) h

-- In every reachable state the histories and the requests in flight are maps, and each request in
-- flight belongs to a session whose last activity is known.
pub Reach-IsValid : {w : World} → Reach w → IsValid w.manager
unfolding get
Reach-IsValid (starts h) = record {
  distinct_bound = tt;
  distinct_inflight = tt;
  tracked = drained-IsTracked [];
}
Reach-IsValid (goes r s) =
    let v = Reach-IsValid r in
    record {
      distinct_bound = Step-IsDistinct_bound s v.distinct_bound;
      distinct_inflight = Step-IsDistinct_inflight s v.distinct_inflight;
      tracked = Step-IsTracked s v.tracked;
    }

-- In every reachable state with a request in flight, a callback goes to a session that has one, and
-- no session that has one was active more recently than it.
pub Reach-callback_session :
    {w : World} (id : String) (s : ℕ)
    → Reach w
    → get id w.manager.inflight ≡ some s
    → (sid : ℕ) × (callback_session w.manager ≡ some sid)
      × ((id' : String) × (get id' w.manager.inflight ≡ some sid))
      × (last_active_of s w.manager ≤ last_active_of sid w.manager)
Reach-callback_session {w} id s r e = elim (Option-cases (callback_session w.manager)) [
  | inl nobody ↦ absurd (callback_session-ne-none w.manager id s e nobody)
  | inr (sid, p) ↦
      let v = Reach-IsValid r in
      let (t, found, pos) = v.tracked.at id s e in
      let (busy, most) =
        callback_session_most_recent w.manager sid id s v.distinct_inflight p e (ground arith) in
      (sid, p, busy, most)
]
