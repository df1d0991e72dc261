-- ===== src/Supervisor/Runner/Sound/Events.antt =====
-- Every event keeps the runner sound.
use mcp_mux.Base.{
  ℕ, refl, Bool, not, ◌&&◌, Option, none, some, arith, same, string_key, nat_key, is_some, inl,
}
use mcp_mux.Supervisor.Records.{ParsedFrame, RequestRecord}
use mcp_mux.Supervisor.Queue.{is_request, is_initialization_ping}
use mcp_mux.Supervisor.Registry.Complete.{complete}
use mcp_mux.Supervisor.Runner.{
  Runner, is_active, is_replaying, is_quiescing, is_awaiting_exit, is_ending, is_none,
  protocol_failure, host_eof, caller_canceled, forward, Environment,
}
use mcp_mux.Supervisor.Runner.Lease.{handle_dormant_lease}
use mcp_mux.Supervisor.Runner.Lifecycle.{terminate, go_on_flow, tell_host}
use mcp_mux.Supervisor.Runner.Delivery.{is_response}
use mcp_mux.Supervisor.Runner.Child.{host_record, is_initialization_logging, handle_child_request}
use mcp_mux.Supervisor.Runner.Events.{
  Event, handle_event, mark_invalid, settle_late, late_frame, before_initialized, route_child,
  handle_child_frame, stop_drain, handle_child_output, output_ended, handle_child_exit,
  from_current, if_armed, on_child_event, on_retry_timer, on_start_timer, on_replay_timer,
  on_drain_timer, on_exit_timer, canceled, host_frame, host_ended, start_attempt, resolved,
  child_frame, child_output, child_exit, child_proof, retry_timer, start_timer, replay_timer,
  drain_timer, exit_timer, lease_timer, tick,
}
use mcp_mux.Supervisor.Runner.Sound.{
  Follows, stay, follow, branch, go_on-Follows, go_on_flow-Follows, moved, calm,
}
use mcp_mux.Supervisor.Runner.Sound.Lifecycle.{
  terminate-Follows, tell_host-Follows, begin_start-Follows, if-Follows,
}
use mcp_mux.Supervisor.Runner.Sound.Replace.{replace_current-Follows}
use mcp_mux.Supervisor.Runner.Sound.Handshake.{handle_dormant_lease-Follows}
use mcp_mux.Supervisor.Runner.Sound.Host.{done_host-Follows}
use mcp_mux.Supervisor.Runner.Sound.Flush.{handle_host_event-Follows}
use mcp_mux.Supervisor.Runner.Sound.Child.{
  forward_to_host-Follows, handle_child_response-Follows, handle_child_request-Follows,
  handle_child_cancellation-Follows, handle_child_progress-Follows,
  handle_child_task_status-Follows, handle_modern_child-Follows,
}
use mcp_mux.Supervisor.Runner.Sound.Replay.{handle_replay_frame-Follows}
use mcp_mux.Supervisor.Runner.Sound.Dormancy.{
  handle_child_control-Follows, maybe_complete_dormancy-Follows,
}
use mcp_mux.Supervisor.Runner.Sound.Start.{
  handle_start_attempt-Follows, begin_resolve-Follows, handle_resolve-Follows,
}

module _ (env : Environment) where
  settle_late-Follows :
      (frame : ParsedFrame) (o : Option RequestRecord) (r : Runner)
      → Follows env r (settle_late env frame o r).0
  settle_late-Follows frame none r = stay env r
  settle_late-Follows frame (some x) r =
      if-Follows env (is_response frame) _ _
        (done_host-Follows env (complete env.json x frame r.host) r) (stay env r)

  late_frame-Follows : (frame : ParsedFrame) (r : Runner) → Follows env r (late_frame env frame r)
  late_frame-Follows frame r =
      let told = tell_host env (forward frame.raw) r in
      branch env r.dormancy_invalid (stay env r) (
        branch env (is_request frame.kind)
          (follow env (handle_child_request-Follows env frame r) (
            branch env (is_awaiting_exit (handle_child_request env frame r).state) (calm env refl)
              (stay env _)))
          (go_on-Follows env (go_on_flow told λ s. settle_late env frame (host_record frame.id s) s)
            mark_invalid
            (go_on_flow-Follows env told (λ s. settle_late env frame (host_record frame.id s) s)
              (tell_host-Follows env (forward frame.raw) r)
              λ s. settle_late-Follows frame (host_record frame.id s) s)
            λ s. calm env refl))

  before_initialized-Follows :
      (frame : ParsedFrame) (r : Runner) → Follows env r (before_initialized env frame r)
  before_initialized-Follows frame r =
      branch env (is_response frame) (handle_child_response-Follows env frame r) (
        branch env (is_some r.handshake.request && is_initialization_ping frame)
          (handle_child_request-Follows env frame r)
          (branch env (is_some r.handshake.request && is_initialization_logging frame)
            (forward_to_host-Follows env frame r)
            (branch env (is_request frame.kind) (replace_current-Follows env r) (stay env r))))

  route_child-Follows : (frame : ParsedFrame) (r : Runner) → Follows env r (route_child env frame r)
  route_child-Follows frame r =
      branch env (is_response frame) (handle_child_response-Follows env frame r) (
        branch env (is_request frame.kind) (handle_child_request-Follows env frame r) (
          branch env (same frame.method "notifications/cancelled")
            (handle_child_cancellation-Follows env frame r)
            (branch env (same frame.method "notifications/progress")
              (handle_child_progress-Follows env frame r)
              (branch env (same frame.method "notifications/tasks/status")
                (handle_child_task_status-Follows env frame r)
                (forward_to_host-Follows env frame r)))))

  handle_child_frame-Follows :
      (frame : ParsedFrame) (r : Runner) → Follows env r (handle_child_frame env frame r)
  unfolding handle_child_frame
  handle_child_frame-Follows frame r = branch env (is_none r.current) (stay env r) (
      branch env frame.reserved (handle_child_control-Follows env frame r) (
        branch env env.modern (handle_modern_child-Follows env frame r) (
          branch env (is_replaying r.state) (handle_replay_frame-Follows env frame r) (
            branch env (is_awaiting_exit r.state) (late_frame-Follows frame r) (
              branch env (not (is_active r.state) && not (is_quiescing r.state)) (stay env r) (
                branch env (is_none r.handshake.initialized) (before_initialized-Follows frame r)
                  (route_child-Follows frame r)))))))

  handle_child_output-Follows :
      (eof : Bool) (r : Runner) → Follows env r (handle_child_output env eof r)
  unfolding handle_child_output
  handle_child_output-Follows eof r = follow env (calm env refl) (
      branch env (is_awaiting_exit r.state)
        (branch env eof (maybe_complete_dormancy-Follows env (stop_drain r))
          (follow env (calm env refl) (replace_current-Follows env (mark_invalid (stop_drain r)))))
        (branch env (is_ending r.state) (stay env (stop_drain r))
          (replace_current-Follows env (stop_drain r))))

  handle_child_exit-Follows : (r : Runner) → Follows env r (handle_child_exit env r)
  unfolding handle_child_exit
  handle_child_exit-Follows r =
      branch env (is_awaiting_exit r.state) (maybe_complete_dormancy-Follows env r) (
        branch env (is_ending r.state) (stay env r)
          (branch env (output_ended env r.current) (replace_current-Follows env r) (calm env refl)))

  on_child_event-Follows :
      (generation : ℕ) (handle : Runner → Runner) (r : Runner)
      → Follows env r (handle r)
      → Follows env r (on_child_event generation handle r)
  on_child_event-Follows generation handle r p =
      branch env (from_current generation r.current) p (stay env r)

  if_armed-Follows :
      (armed : Bool) (handle : Runner → Runner) (r : Runner)
      → Follows env r (handle r)
      → Follows env r (if_armed armed handle r)
  if_armed-Follows armed handle r p = branch env armed p (stay env r)

  on_start_timer-Follows : (r : Runner) → Follows env r (on_start_timer r)
  on_start_timer-Follows r =
      follow env
        (moved env
          (λ s. record {
            bounded = s.bounded;
            alone = λ h. absurd (ground arith);
            latest = s.latest;
            manned = s.manned;
          })
          refl (omega arith) refl (λ g e. inl e))
        (terminate-Follows env protocol_failure _)

  on_drain_timer-Follows : (r : Runner) → Follows env r (on_drain_timer env r)
  on_drain_timer-Follows r = follow env (calm env refl) (
      branch env (is_some r.current) (replace_current-Follows env (stop_drain r))
        (stay env (stop_drain r)))

  pub handle_event-Follows : (event : Event) (r : Runner) → Follows env r (handle_event env event r)
  unfolding handle_event
  handle_event-Follows canceled r = terminate-Follows env caller_canceled r
  handle_event-Follows (host_frame sequence arrived frame) r =
      handle_host_event-Follows env sequence arrived frame r
  handle_event-Follows host_ended r = terminate-Follows env host_eof r
  handle_event-Follows (start_attempt attempt requested s error) r =
      handle_start_attempt-Follows env attempt requested s error r
  handle_event-Follows (resolved attempt ref failed) r =
      handle_resolve-Follows env attempt ref failed r
  handle_event-Follows (child_frame generation frame) r =
      on_child_event-Follows generation (handle_child_frame env frame) r
        (handle_child_frame-Follows frame r)
  handle_event-Follows (child_output generation eof) r =
      on_child_event-Follows generation (handle_child_output env eof) r
        (handle_child_output-Follows eof r)
  handle_event-Follows (child_exit generation) r =
      on_child_event-Follows generation (handle_child_exit env) r (handle_child_exit-Follows r)
  handle_event-Follows (child_proof generation) r =
      on_child_event-Follows generation (terminate protocol_failure) r
        (terminate-Follows env protocol_failure r)
  handle_event-Follows retry_timer r =
      if_armed-Follows r.timers.retry on_retry_timer r
        (follow env (calm env refl) (begin_start-Follows env _))
  handle_event-Follows start_timer r =
      if_armed-Follows r.timers.start on_start_timer r (on_start_timer-Follows r)
  handle_event-Follows replay_timer r =
      if_armed-Follows r.timers.replay (on_replay_timer env) r
        (follow env (calm env refl) (replace_current-Follows env _))
  handle_event-Follows drain_timer r =
      if_armed-Follows r.timers.drain (on_drain_timer env) r (on_drain_timer-Follows r)
  handle_event-Follows exit_timer r =
      if_armed-Follows r.timers.dormant_exit (on_exit_timer env) r
        (follow env (calm env refl) (replace_current-Follows env _))
  handle_event-Follows lease_timer r =
      if_armed-Follows r.timers.lease (handle_dormant_lease env) r
        (handle_dormant_lease-Follows env r)
  handle_event-Follows tick r = begin_resolve-Follows env r
