-- ===== src/Supervisor/Runner/Sound/Host.antt =====
-- The routing of host frames keeps the runner sound.
use mcp_mux.Base.{
  refl, inl, inr, true, false, not, ◌&&◌, Option, none, some, same, string_key, nat_key,
  if◌then◌else◌, Option-cases,
}
use mcp_mux.Supervisor.Records.{ParsedFrame, RequestRecord, TaskMeta, ProgressMeta}
use mcp_mux.Supervisor.Scalar.{scalar_key, ScalarValue, ScalarKey}
use mcp_mux.Map.{get}
use mcp_mux.Supervisor.Queue.{PendingFrame, take_first, asks, remove_request, PendingQueue}
use mcp_mux.Supervisor.Queue.Bounds.{IsBounded, take_out-IsBounded, remove-IsBounded}
use mcp_mux.Supervisor.Registry.{Error, Outcome}
use mcp_mux.Supervisor.Registry.Complete.{complete, can_complete, cancel}
use mcp_mux.Supervisor.Registry.Tasks.{update_task}
use mcp_mux.Supervisor.Registry.Progress.{accept_progress}
use mcp_mux.Supervisor.Runner.{Runner, is_active, is_quiescing, forward, Generation, Environment}
use mcp_mux.Supervisor.Runner.Lifecycle.{
  Flow, fully_written, write_child, with_host, with_child, on_host, on_child, own_record,
  may_cancel,
}
use mcp_mux.Supervisor.Runner.Delivery.{is_response, is_notification, was_not_written}
use mcp_mux.Supervisor.Runner.ModernHost.{handle_modern_host, remove_modern_request, modern_cancel}
use mcp_mux.Supervisor.Runner.Host.{
  child_record, answer_child, refuse_child, respond, handle_host_response, cancel_record,
  cancel_target, handle_host_cancellation, progress_of, handle_host_progress, status_of,
  handle_host_task_status,
}
use mcp_mux.Supervisor.Runner.Sound.{
  Follows, stay, follow, branch, go_on-Follows, calm, option-Follows, result-Follows,
}
use mcp_mux.Supervisor.Runner.Sound.Lifecycle.{on_host-Follows, on_child-Follows, if-Follows}
use mcp_mux.Supervisor.Runner.Sound.Replace.{
  tell_child-Follows, replace_current-Follows, write_child-Follows,
}
use mcp_mux.Supervisor.Runner.Sound.Delivery.{
  put_pending-Follows, enqueue_host-Follows, deliver_host_first-Follows, forward_to_child-Follows,
}

module _ (env : Environment) where
  -- The outcome of a registry method only, with its error.
  pub done_host-Follows :
      {A : Type 0} (o : Outcome A) (r : Runner) → Follows env r (on_host o r λ _ s. (s, true)).0
  done_host-Follows o r = on_host-Follows env o r _ λ _ g. stay env (with_host g r)

  done_child-Follows :
      {A : Type 0} (o : Outcome A) (r : Runner) → Follows env r (on_child o r λ _ s. (s, true)).0
  done_child-Follows o r = on_child-Follows env o r _ λ _ g. stay env (with_child g r)

  answer_child-Follows :
      (x : RequestRecord) (frame : ParsedFrame) (r : Runner)
      → Follows env r (answer_child env x frame r)
  answer_child-Follows x frame r =
      let w = write_child env (forward frame.raw) r in
      follow env (write_child-Follows env (forward frame.raw) r) (
        go_on-Follows env
          (if◌then◌else◌ {A = Flow} (was_not_written w.1) (w.0, true)
            (on_child (complete env.json x frame w.0.child) w.0 λ _ s. (s, true)))
          _
          (if-Follows env (was_not_written w.1) _ _ (stay env w.0)
            (done_child-Follows (complete env.json x frame w.0.child) w.0))
          λ s. branch env (fully_written (w.1, w.2)) (stay env s) (replace_current-Follows env s))

  refuse_child-Follows :
      (x : RequestRecord) (frame : ParsedFrame) (e : Error) (r : Runner)
      → Follows env r (refuse_child env x frame e r)
  refuse_child-Follows x frame e r =
      go_on-Follows env (on_child (cancel x r.child) r λ _ s. (s, true)) _
        (done_child-Follows (cancel x r.child) r) (tell_child-Follows env _)

  respond-Follows :
      (frame : ParsedFrame) (o : Option RequestRecord) (r : Runner)
      → Follows env r (respond env frame o r)
  respond-Follows frame none r = stay env r
  respond-Follows frame (some x) r =
      result-Follows env (can_complete env.json x frame r.child) _ _
        (λ e. refuse_child-Follows x frame e r) (λ _. answer_child-Follows x frame r)

  pub handle_host_response-Follows :
      (frame : ParsedFrame) (r : Runner) → Follows env r (handle_host_response env frame r)
  unfolding handle_host_response
  handle_host_response-Follows frame r = respond-Follows frame (child_record frame r) r

  cancel_record-Follows :
      (item : PendingFrame) (x : RequestRecord) (r : Runner)
      → Follows env r (cancel_record env item x r)
  cancel_record-Follows item x r = branch env (not (may_cancel x)) (stay env r) (
      branch env (is_quiescing r.state) (enqueue_host-Follows env item true r) (
        branch env (not (is_active r.state)) (stay env r) (
          go_on-Follows env (on_host (cancel x r.host) r λ _ s. (s, true)) _
            (done_host-Follows (cancel x r.host) r) (forward_to_child-Follows env item.frame))))

  cancel_target-Follows :
      (item : PendingFrame) (o : Option ScalarValue) (r : Runner)
      → Follows env r (cancel_target env item o r)
  cancel_target-Follows item none r = stay env r
  cancel_target-Follows item (some target) r =
      branch env (remove_request target.key r.pending).1
        (put_pending-Follows env _ r
          (remove-IsBounded env.pending_frame_limit env.pending_byte_limit target.key r.pending))
        (option-Follows env (own_record r.current (get target.key r.host.requests)) _ _ (stay env r)
          λ x. cancel_record-Follows item x r)

  pub handle_host_cancellation-Follows :
      (item : PendingFrame) (r : Runner) → Follows env r (handle_host_cancellation env item r)
  unfolding handle_host_cancellation
  handle_host_cancellation-Follows item r =
      branch env item.frame.utility_err (stay env r)
        (cancel_target-Follows item item.frame.cancellation r)

  progress_of-Follows :
      (frame : ParsedFrame) (m : Option ProgressMeta) (g : Option Generation) (r : Runner)
      → Follows env r (progress_of env frame m g r)
  progress_of-Follows frame none g r = stay env r
  progress_of-Follows frame (some m) none r = stay env r
  progress_of-Follows frame (some m) (some g) r =
      branch env (accept_progress m g.id r.child).1
        (follow env (calm env refl) (forward_to_child-Follows env frame _)) (stay env r)

  pub handle_host_progress-Follows :
      (frame : ParsedFrame) (r : Runner) → Follows env r (handle_host_progress env frame r)
  unfolding handle_host_progress
  handle_host_progress-Follows frame r =
      branch env frame.utility_err (stay env r)
        (progress_of-Follows frame frame.progress r.current r)

  status_of-Follows :
      (frame : ParsedFrame) (m : Option TaskMeta) (g : Option Generation) (r : Runner)
      → Follows env r (status_of env frame m g r)
  status_of-Follows frame none g r = stay env r
  status_of-Follows frame (some m) none r = stay env r
  status_of-Follows frame (some m) (some g) r =
      go_on-Follows env (on_child (update_task m g.id r.child) r λ handled s. (s, handled)) _
        (on_child-Follows env (update_task m g.id r.child) r _ λ _ g'. stay env (with_child g' r))
        (forward_to_child-Follows env frame)

  pub handle_host_task_status-Follows :
      (frame : ParsedFrame) (r : Runner) → Follows env r (handle_host_task_status env frame r)
  unfolding handle_host_task_status
  handle_host_task_status-Follows frame r =
      branch env frame.utility_err (stay env r)
        (status_of-Follows frame frame.task_status r.current r)

  remove_modern-IsBounded :
      (key : ScalarKey) (q : PendingQueue)
      → IsBounded env.pending_frame_limit env.pending_byte_limit q
      → IsBounded env.pending_frame_limit env.pending_byte_limit (remove_modern_request key q).0
  unfolding remove_modern_request
  remove_modern-IsBounded key q v = elim (Option-cases (take_first (asks key) q.items)) [
    | inl e ↦ rw e v
    | inr (x, e) ↦
        rw e (
          take_out-IsBounded env.pending_frame_limit env.pending_byte_limit (asks key) q x.0 x.1 v
            e)
  ]

  modern_cancel-Follows :
      (item : PendingFrame) (o : Option ScalarValue) (r : Runner)
      → Follows env r (modern_cancel env item o r)
  modern_cancel-Follows item none r = stay env r
  modern_cancel-Follows item (some target) r =
      branch env (remove_modern_request target.key r.pending).1
        (put_pending-Follows env _ r (remove_modern-IsBounded target.key r.pending))
        (option-Follows env (own_record r.current (get target.key r.host.requests)) _ _ (stay env r)
          λ x. branch env (is_quiescing r.state) (enqueue_host-Follows env item true r) (
            branch env (not (is_active r.state)) (stay env r)
              (follow env (calm env refl) (forward_to_child-Follows env item.frame _))))

  pub handle_modern_host-Follows :
      (item : PendingFrame) (r : Runner) → Follows env r (handle_modern_host env item r)
  unfolding handle_modern_host
  handle_modern_host-Follows item r = branch env (is_response item.frame) (stay env r) (
      branch env
        (same item.frame.method "notifications/cancelled" && is_notification item.frame.kind)
        (modern_cancel-Follows item item.frame.cancellation r)
        (branch env
          (same item.frame.method "notifications/progress" && is_notification item.frame.kind)
          (stay env r)
          (branch env (is_active r.state) (deliver_host_first-Follows env item r)
            (enqueue_host-Follows env item false r))))
