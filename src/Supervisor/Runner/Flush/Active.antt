-- ===== src/Supervisor/Runner/Flush/Active.antt =====
-- The handling of a host frame by an active runner puts nothing on the queue, unless it halts.
use mcp_mux.Base.{
  ◌≤◌, ◌≡◌, refl, inl, inr, Bool, true, false, not, ◌&&◌, ◌||◌, Option, none, some, arith, same,
  string_key, nat_key, if◌then◌else◌, Option-cases, is_some,
}
use mcp_mux.Map.{get}
use mcp_mux.Supervisor.Scalar.{scalar_key, ScalarValue, ScalarKey}
use mcp_mux.Supervisor.Records.{ParsedFrame, RequestRecord, TaskMeta, ProgressMeta}
use mcp_mux.Supervisor.Queue.{
  len, PendingFrame, PendingQueue, take_first, asks, is_initialization_ping, remove_request,
}
use mcp_mux.Supervisor.Queue.Bounds.{take_first-total}
use mcp_mux.Supervisor.Registry.{Outcome, ok, err}
use mcp_mux.Supervisor.Registry.Complete.{complete, can_complete, cancel}
use mcp_mux.Supervisor.Registry.Tasks.{update_task}
use mcp_mux.Supervisor.Registry.Progress.{accept_progress}
use mcp_mux.Supervisor.Runner.{
  Runner, is_active, is_replaying, is_quiescing, is_awaiting_exit, forward, Generation, Environment,
}
use mcp_mux.Supervisor.Runner.Lifecycle.{
  Flow, terminate, fully_written, write_child, with_host, with_child, on_host, on_child, own_record,
  may_cancel,
}
use mcp_mux.Supervisor.Runner.Delivery.{
  is_response, was_not_written, deliver_host_first, forward_to_child,
}
use mcp_mux.Supervisor.Runner.ModernHost.{remove_modern_request}
use mcp_mux.Supervisor.Runner.Host.{
  handle_host_response, child_record, answer_child, respond, cancel_record, cancel_target,
  handle_host_cancellation, progress_of, handle_host_progress, status_of, handle_host_task_status,
  is_task_status, if_active, route_host,
}
use mcp_mux.Supervisor.Runner.Flush.Settles.{
  Settles, same_view, rest, settle, either, option-Settles, go_on-Settles, replace-Settles,
  write_child-Settles, tell_child-Settles, deliver_host_first-Settles, result-Settles,
}

-- It has a child, and is active.
abbrev pub is_running : Runner → Bool
is_running r = is_some r.current && is_active r.state

remove-len : (key : ScalarKey) (q : PendingQueue) → len (remove_request key q).0 ≤ len q
unfolding remove_request len
remove-len key q = elim (Option-cases (take_first (asks key) q.items)) [
  | inl e ↦ ground arith
  | inr (x, e) ↦ ground (arith, take_first-total (asks key) q.items x.0 x.1 e)
]

pub remove_modern-len :
    (key : ScalarKey) (q : PendingQueue) → len (remove_modern_request key q).0 ≤ len q
unfolding remove_modern_request len
remove_modern-len key q = elim (Option-cases (take_first (asks key) q.items)) [
  | inl e ↦ ground arith
  | inr (x, e) ↦ ground (arith, take_first-total (asks key) q.items x.0 x.1 e)
]

module _ (env : Environment) where
  -- The outcome of a registry method.
  on_host-Settles :
      {A : Type 0} (o : Outcome A) (r : Runner) (k : A → Runner → Flow)
      → ((a : A) (s : Runner) → (k a s).0 ≡ s)
      → Settles r (on_host o r k).0
  unfolding terminate
  on_host-Settles (g, ok a) r k p =
      rw (p a (with_host g r)) (same_view refl refl refl (omega arith))
  on_host-Settles (g, err e) r k p = record {
    halts = λ h. ground arith;
    shrinks = inl (ground arith);
  }

  on_child-Settles :
      {A : Type 0} (o : Outcome A) (r : Runner) (k : A → Runner → Flow)
      → ((a : A) (s : Runner) → (k a s).0 ≡ s)
      → Settles r (on_child o r k).0
  unfolding terminate
  on_child-Settles (g, ok a) r k p =
      rw (p a (with_child g r)) (same_view refl refl refl (omega arith))
  on_child-Settles (g, err e) r k p = record {
    halts = λ h. ground arith;
    shrinks = inl (ground arith);
  }

  pub forward_to_child-Settles :
      (frame : ParsedFrame) (r : Runner) → Settles r (forward_to_child env frame r)
  forward_to_child-Settles frame r = tell_child-Settles env (forward frame.raw) r

  pub if-Settles :
      {r : Runner} (b : Bool) (f g : Flow)
      → Settles r f.0
      → Settles r g.0
      → Settles r (if b then f else g).0
  if-Settles true f g p q = p
  if-Settles false f g p q = q

  answer_child-Settles :
      (x : RequestRecord) (frame : ParsedFrame) (r : Runner)
      → Settles r (answer_child env x frame r)
  answer_child-Settles x frame r =
      let w = write_child env (forward frame.raw) r in
      settle (write_child-Settles env (forward frame.raw) r) (
        go_on-Settles
          (if◌then◌else◌ {A = Flow} (was_not_written w.1) (w.0, true)
            (on_child (complete env.json x frame w.0.child) w.0 λ _ s. (s, true)))
          _
          (if-Settles (was_not_written w.1) _ _ (rest w.0)
            (on_child-Settles (complete env.json x frame w.0.child) w.0 _ λ _ s. refl))
          λ s _. either (fully_written (w.1, w.2)) (λ _. rest s) λ _. replace-Settles env s)

  respond-Settles :
      (frame : ParsedFrame) (o : Option RequestRecord) (r : Runner)
      → Settles r (respond env frame o r)
  respond-Settles frame none r = rest r
  respond-Settles frame (some x) r =
      result-Settles (can_complete env.json x frame r.child) _ _
        (λ e.
          go_on-Settles (on_child (cancel x r.child) r λ _ s. (s, true)) _
            (on_child-Settles (cancel x r.child) r _ λ _ s. refl) λ s _. tell_child-Settles env _ s)
        λ _. answer_child-Settles x frame r

  cancel_record-Settles :
      (item : PendingFrame) (x : RequestRecord) (r : Runner)
      → is_active r.state ≡ true
      → Settles r (cancel_record env item x r)
  cancel_record-Settles item x r now =
      either (not (may_cancel x)) (λ _. rest r)
        λ _.
          either (is_quiescing r.state) (λ h. absurd (ground arith))
            λ _.
              either (not (is_active r.state)) (λ _. rest r)
                λ _.
                  go_on-Settles (on_host (cancel x r.host) r λ _ s. (s, true)) _
                    (on_host-Settles (cancel x r.host) r _ λ _ s. refl)
                    λ s _. forward_to_child-Settles item.frame s

  cancel_target-Settles :
      (item : PendingFrame) (o : Option ScalarValue) (r : Runner)
      → is_active r.state ≡ true
      → Settles r (cancel_target env item o r)
  cancel_target-Settles item none r now = rest r
  cancel_target-Settles item (some target) r now =
      either (remove_request target.key r.pending).1
        (λ _. same_view refl refl refl (remove-len target.key r.pending))
        λ _.
          option-Settles (own_record r.current (get target.key r.host.requests)) _ _ (rest r)
            λ x. cancel_record-Settles item x r now

  progress_of-Settles :
      (frame : ParsedFrame) (m : Option ProgressMeta) (g : Option Generation) (r : Runner)
      → Settles r (progress_of env frame m g r)
  progress_of-Settles frame none g r = rest r
  progress_of-Settles frame (some m) none r = rest r
  progress_of-Settles frame (some m) (some g) r =
      either (accept_progress m g.id r.child).1
        (λ _. settle (same_view refl refl refl (omega arith)) (forward_to_child-Settles frame _))
        λ _. rest r

  status_of-Settles :
      (frame : ParsedFrame) (m : Option TaskMeta) (g : Option Generation) (r : Runner)
      → Settles r (status_of env frame m g r)
  status_of-Settles frame none g r = rest r
  status_of-Settles frame (some m) none r = rest r
  status_of-Settles frame (some m) (some g) r =
      go_on-Settles (on_child (update_task m g.id r.child) r λ handled s. (s, handled)) _
        (on_child-Settles (update_task m g.id r.child) r _ λ _ s. refl)
        λ s _. forward_to_child-Settles frame s

  if_active-Settles :
      (item : PendingFrame) (handle : Runner → Runner) (r : Runner)
      → is_active r.state ≡ true
      → Settles r (handle r)
      → Settles r (if_active env item handle r)
  if_active-Settles item handle r now p =
      either (is_active r.state) (λ _. p) λ h. absurd (ground arith)

  pub deliver-Settles :
      (item : PendingFrame) (r : Runner)
      → is_running r ≡ true
      → Settles r (deliver_host_first env item r)
  deliver-Settles item r now = deliver_host_first-Settles env item r (ground arith)

  pub route_host-Settles :
      (item : PendingFrame) (r : Runner) → is_running r ≡ true → Settles r (route_host env item r)
  unfolding handle_host_response handle_host_cancellation handle_host_progress
      handle_host_task_status
  route_host-Settles item r now =
      let active_now : is_active r.state ≡ true = ground arith in
      let err = item.frame.utility_err in
      either (is_response item.frame)
        (λ _.
          either (is_active r.state || is_replaying r.state || is_awaiting_exit r.state)
            (λ _. respond-Settles item.frame (child_record item.frame r) r)
            λ h. absurd (ground arith))
        λ _.
          either (same item.frame.method "notifications/cancelled")
            (λ _.
              either err (λ _. rest r)
                λ _. cancel_target-Settles item item.frame.cancellation r active_now)
            λ _.
              either (same item.frame.method "notifications/progress")
                (λ _. if_active-Settles item (handle_host_progress env item.frame) r active_now (
                  either err (λ _. rest r)
                    λ _. progress_of-Settles item.frame item.frame.progress r.current r))
                λ _.
                  either (is_task_status item.frame)
                    (λ _.
                      if_active-Settles item (handle_host_task_status env item.frame) r active_now (
                        either err (λ _. rest r)
                          λ _. status_of-Settles item.frame item.frame.task_status r.current r))
                    λ _.
                      either
                        (is_active r.state
                          || is_replaying r.state && is_initialization_ping item.frame)
                        (λ _. deliver-Settles item r now) λ h. absurd (ground arith)
