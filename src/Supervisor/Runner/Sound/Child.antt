-- ===== src/Supervisor/Runner/Sound/Child.antt =====
-- The routing of the child's frames keeps the runner sound.
use mcp_mux.Base.{
  refl, true, false, not, ◌&&◌, ◌||◌, Option, none, some, same, string_key, nat_key, is_some,
}
use mcp_mux.Map.{get}
use mcp_mux.Supervisor.Records.{ParsedFrame, TaskMeta, ProgressMeta, RequestRecord, is_result}
use mcp_mux.Supervisor.Scalar.{scalar_key, ScalarValue, ScalarKey}
use mcp_mux.Supervisor.Queue.{is_request, is_initialization_ping}
use mcp_mux.Supervisor.Registry.Register.{can_register}
use mcp_mux.Supervisor.Registry.Complete.{complete, can_complete}
use mcp_mux.Supervisor.Registry.Tasks.{update_task}
use mcp_mux.Supervisor.Registry.Progress.{accept_progress}
use mcp_mux.Supervisor.Runner.{
  Runner, is_active, is_quiescing, is_awaiting_exit, is_none, Complaint, forward, Generation,
  Environment,
}
use mcp_mux.Supervisor.Runner.Lifecycle.{
  go_on, tell_host, with_host, on_host, own_record, may_cancel, finish_modern_request,
}
use mcp_mux.Supervisor.Runner.Validate.{same_id, settle_augmented}
use mcp_mux.Supervisor.Runner.Delivery.{is_response}
use mcp_mux.Supervisor.Runner.Child.{
  handle_child_request, forward_to_host, host_record, stop_replay, settle_initialize,
  complete_initial_initialize, complete_host, answer_host, handle_child_response,
  reject_child_request, register_child, task_operation_complaint, admit_child, check_child,
  retire_told, handle_child_cancellation, progress_to_host, handle_child_progress, status_to_host,
  handle_child_task_status, finish_told, subscription, modern_notification, route_modern,
  handle_modern_child,
}
use mcp_mux.Supervisor.Runner.Sound.{
  Follows, stay, follow, branch, go_on-Follows, calm, option-Follows, result-Follows,
}
use mcp_mux.Supervisor.Runner.Sound.Lifecycle.{tell_host-Follows, on_host-Follows}
use mcp_mux.Supervisor.Runner.Sound.Replace.{replace_current-Follows, tell_child-Follows}
use mcp_mux.Supervisor.Runner.Sound.Host.{done_host-Follows}

module _ (env : Environment) where
  pub forward_to_host-Follows :
      (frame : ParsedFrame) (r : Runner) → Follows env r (forward_to_host env frame r)
  forward_to_host-Follows frame r = tell_host-Follows env (forward frame.raw) r

  -- A frame goes to the host, and what follows changes nothing that counts.
  told_then :
      (frame : ParsedFrame) (k : Runner → Runner) (r : Runner)
      → ((s : Runner) → Follows env s (k s))
      → Follows env r (go_on (tell_host env (forward frame.raw) r) k)
  told_then frame k r p =
      go_on-Follows env (tell_host env (forward frame.raw) r) k
        (tell_host-Follows env (forward frame.raw) r) p

  pub settle_initialize-Follows :
      (frame : ParsedFrame) (r : Runner) → Follows env r (settle_initialize frame r)
  settle_initialize-Follows frame r =
      branch env (is_result frame.kind) (calm env refl) (calm env refl)

  complete_initial_initialize-Follows :
      (frame : ParsedFrame) (r : Runner) → Follows env r (complete_initial_initialize env frame r)
  unfolding complete_initial_initialize
  complete_initial_initialize-Follows frame r = branch env (not r.handshake.awaiting) (stay env r) (
      follow env (calm env refl) (
        told_then frame (settle_initialize frame) (stop_replay r)
          (settle_initialize-Follows frame)))

  answer_host-Follows :
      (frame : ParsedFrame) (o : Option RequestRecord) (r : Runner)
      → Follows env r (answer_host env frame o r)
  answer_host-Follows frame none r = stay env r
  answer_host-Follows frame (some x) r =
      result-Follows env (can_complete env.json x frame r.host) _ _
        (λ _. replace_current-Follows env r)
        (λ _.
          told_then frame (complete_host env x frame) r
            λ s. done_host-Follows env (complete env.json x frame s.host) s)

  pub handle_child_response-Follows :
      (frame : ParsedFrame) (r : Runner) → Follows env r (handle_child_response env frame r)
  unfolding handle_child_response
  handle_child_response-Follows frame r =
      branch env (is_none frame.id || is_none r.current) (stay env r) (
        branch env (r.handshake.awaiting && same_id frame.id r.handshake.id)
          (complete_initial_initialize-Follows frame r)
          (answer_host-Follows frame (host_record frame.id r) r))

  reject_child_request-Follows :
      (frame : ParsedFrame) (c : Complaint) (r : Runner)
      → Follows env r (reject_child_request env frame c r)
  reject_child_request-Follows frame c r =
      option-Follows env frame.id _ _ (stay env r)
        λ id. branch env (is_none r.current) (stay env r) (tell_child-Follows env _ r)

  register_child-Follows :
      (g : Option Generation) (id : Option ScalarValue) (frame : ParsedFrame) (r : Runner)
      → Follows env r (register_child g id frame r)
  register_child-Follows none id frame r = stay env r
  register_child-Follows (some g) none frame r = stay env r
  register_child-Follows (some g) (some id) frame r = calm env refl

  admit_child-Follows : (frame : ParsedFrame) (r : Runner) → Follows env r (admit_child env frame r)
  admit_child-Follows frame r =
      result-Follows env (can_register frame r.child) _ _ (λ _. replace_current-Follows env r)
        (λ _.
          told_then frame (register_child r.current frame.id frame) r
            (register_child-Follows r.current frame.id frame))

  check_child-Follows : (frame : ParsedFrame) (r : Runner) → Follows env r (check_child env frame r)
  check_child-Follows frame r =
      branch env frame.utility_err (reject_child_request-Follows frame _ r) (
        option-Follows env (task_operation_complaint frame r.current r.child) _ _
          (admit_child-Follows frame r) λ c. reject_child_request-Follows frame c r)

  pub handle_child_request-Follows :
      (frame : ParsedFrame) (r : Runner) → Follows env r (handle_child_request env frame r)
  unfolding handle_child_request
  handle_child_request-Follows frame r =
      branch env
        (is_none r.current
          || is_none r.handshake.initialized
            && (is_none r.handshake.request || not (is_initialization_ping frame)))
        (replace_current-Follows env r)
        (check_child-Follows (settle_augmented env r.handshake.request false frame) r)

  retire_told-Follows :
      (frame : ParsedFrame) (o : Option RequestRecord) (r : Runner)
      → Follows env r (retire_told env frame o r)
  retire_told-Follows frame none r = stay env r
  retire_told-Follows frame (some x) r =
      branch env (not (may_cancel x)) (stay env r) (told_then frame _ r λ s. calm env refl)

  pub handle_child_cancellation-Follows :
      (frame : ParsedFrame) (r : Runner) → Follows env r (handle_child_cancellation env frame r)
  unfolding handle_child_cancellation
  handle_child_cancellation-Follows frame r = branch env frame.utility_err (stay env r) (
      option-Follows env frame.cancellation _ _ (stay env r)
        λ id. retire_told-Follows frame (own_record r.current (get id.key r.child.requests)) r)

  progress_to_host-Follows :
      (frame : ParsedFrame) (m : Option ProgressMeta) (g : Option Generation) (r : Runner)
      → Follows env r (progress_to_host env frame m g r)
  progress_to_host-Follows frame none g r = stay env r
  progress_to_host-Follows frame (some m) none r = stay env r
  progress_to_host-Follows frame (some m) (some g) r =
      branch env (accept_progress m g.id r.host).1
        (follow env (calm env refl) (forward_to_host-Follows frame _)) (stay env r)

  pub handle_child_progress-Follows :
      (frame : ParsedFrame) (r : Runner) → Follows env r (handle_child_progress env frame r)
  unfolding handle_child_progress
  handle_child_progress-Follows frame r =
      branch env frame.utility_err (stay env r)
        (progress_to_host-Follows frame frame.progress r.current r)

  status_to_host-Follows :
      (frame : ParsedFrame) (m : Option TaskMeta) (g : Option Generation) (r : Runner)
      → Follows env r (status_to_host env frame m g r)
  status_to_host-Follows frame none g r = stay env r
  status_to_host-Follows frame (some m) none r = stay env r
  status_to_host-Follows frame (some m) (some g) r =
      go_on-Follows env (on_host (update_task m g.id r.host) r λ handled s. (s, handled)) _
        (on_host-Follows env (update_task m g.id r.host) r _ λ _ g'. stay env (with_host g' r))
        (forward_to_host-Follows frame)

  pub handle_child_task_status-Follows :
      (frame : ParsedFrame) (r : Runner) → Follows env r (handle_child_task_status env frame r)
  unfolding handle_child_task_status
  handle_child_task_status-Follows frame r =
      branch env frame.utility_err (stay env r)
        (status_to_host-Follows frame frame.task_status r.current r)

  finish_told-Follows :
      (frame : ParsedFrame) (o : Option RequestRecord) (r : Runner)
      → Follows env r (finish_told env frame o r)
  finish_told-Follows frame none r = stay env r
  finish_told-Follows frame (some x) r =
      told_then frame (finish_modern_request x) r λ s. calm env refl

  modern_notification-Follows :
      (frame : ParsedFrame) (o : Option (Option ScalarKey)) (r : Runner)
      → Follows env r (modern_notification env frame o r)
  modern_notification-Follows frame none r = stay env r
  modern_notification-Follows frame (some none) r = forward_to_host-Follows frame r
  modern_notification-Follows frame (some (some key)) r =
      branch env (is_some (subscription (own_record r.current (get key r.host.requests))))
        (forward_to_host-Follows frame r) (stay env r)

  route_modern-Follows :
      (frame : ParsedFrame) (r : Runner) → Follows env r (route_modern env frame r)
  route_modern-Follows frame r = branch env (is_request frame.kind) (stay env r) (
      branch env (is_response frame) (finish_told-Follows frame (host_record frame.id r) r) (
        branch env (same frame.method "notifications/cancelled")
          (finish_told-Follows frame (subscription (host_record frame.cancellation r)) r)
          (branch env (same frame.method "notifications/progress")
            (handle_child_progress-Follows frame r)
            (modern_notification-Follows frame (env.subscription_key frame) r))))

  pub handle_modern_child-Follows :
      (frame : ParsedFrame) (r : Runner) → Follows env r (handle_modern_child env frame r)
  unfolding handle_modern_child
  handle_modern_child-Follows frame r =
      let wired = record frame { raw = frame.wire } in
      branch env (is_awaiting_exit r.state)
        (branch env r.dormancy_invalid (stay env r) (
          follow env (calm env refl)
            (route_modern-Follows wired (record r { dormancy_invalid = true }))))
        (branch env (is_active r.state || is_quiescing r.state) (route_modern-Follows wired r)
          (stay env r))
