-- ===== src/Supervisor/Runner/Sound/Handshake.antt =====
-- The handshake of the host and the lease of a dormant runner keep the runner sound.
use mcp_mux.Base.{
  String, refl, false, not, ◌&&◌, ◌||◌, same, string_key, nat_key, ltb, ◌==◌, is_some,
}
use mcp_mux.Supervisor.Records.{ParsedFrame}
use mcp_mux.Supervisor.Queue.{PendingFrame, is_request, is_initialization_ping}
use mcp_mux.Supervisor.Runner.{
  Runner, is_active, is_replaying, is_dormant, is_none, dormant_commit, forward, Environment,
}
use mcp_mux.Supervisor.Runner.Lifecycle.{tell_child}
use mcp_mux.Supervisor.Runner.Delivery.{is_response}
use mcp_mux.Supervisor.Runner.HostLifecycle.{
  handle_host_lifecycle, arm_replay, write_initial_initialize, accept_initialize, before_initialize,
  route_initialization_host_ping, gate, is_initialized_frame, accept_initialized,
}
use mcp_mux.Supervisor.Runner.Lease.{
  handle_dormant_lease, finish_dormant_lease, frame_in_time, resume_dormant_lease_after_host,
}
use mcp_mux.Supervisor.Runner.Sound.{Follows, stay, follow, branch, go_on-Follows, calm}
use mcp_mux.Supervisor.Runner.Sound.Lifecycle.{terminate-Follows, begin_start-Follows, if-Follows}
use mcp_mux.Supervisor.Runner.Sound.Replace.{tell_child-Follows}
use mcp_mux.Supervisor.Runner.Sound.Delivery.{
  reject_host_request-Follows, reject_request-Follows, enqueue_host-Follows,
  deliver_host_first-Follows, forward_to_child-Follows,
}

module _ (env : Environment) where
  finish_dormant_lease-Follows : (r : Runner) → Follows env r (finish_dormant_lease env r)
  finish_dormant_lease-Follows r =
      branch env (ltb env.now r.lease_deadline) (calm env refl)
        (terminate-Follows env dormant_commit r)

  pub resume_dormant_lease_after_host-Follows :
      (r : Runner) → Follows env r (resume_dormant_lease_after_host env r)
  unfolding resume_dormant_lease_after_host
  resume_dormant_lease_after_host-Follows r =
      branch env
        (is_some r.terminal
          || not (is_dormant r.state)
          || r.timers.lease
          || env.dormant_lease == 0
          || frame_in_time env r)
        (stay env r) (finish_dormant_lease-Follows r)

  pub handle_dormant_lease-Follows : (r : Runner) → Follows env r (handle_dormant_lease env r)
  unfolding handle_dormant_lease
  handle_dormant_lease-Follows r =
      branch env (not (is_dormant r.state) || not r.timers.lease) (stay env r) (
        follow env (calm env refl)
          (branch env (frame_in_time env r) (stay env _) (finish_dormant_lease-Follows _)))

  -- The handshake.
  write_initial_initialize-Follows :
      (frame : ParsedFrame) (r : Runner) → Follows env r (write_initial_initialize env frame r)
  write_initial_initialize-Follows frame r =
      go_on-Follows env (tell_child env (forward frame.raw) r) arm_replay
        (tell_child-Follows env (forward frame.raw) r) λ s. calm env refl

  accept_initialize-Follows :
      (frame : ParsedFrame) (r : Runner) → Follows env r (accept_initialize env frame r)
  accept_initialize-Follows frame r = follow env (calm env refl) (
      branch env (is_some r.current && is_active r.state) (write_initial_initialize-Follows frame _)
        (branch env (is_none r.current) (follow env (calm env refl) (begin_start-Follows env _))
          (stay env _)))

  before_initialize-Follows :
      (frame : ParsedFrame) (r : Runner) → Follows env r (before_initialize env frame r)
  before_initialize-Follows frame r =
      branch env (not (is_request frame.kind && same frame.method "initialize"))
        (reject_request-Follows env frame _ _ r)
        (branch env frame.utility_err (reject_host_request-Follows env frame _ _ r)
          (accept_initialize-Follows frame r))

  ping-Follows :
      (item : PendingFrame) (r : Runner) → Follows env r (route_initialization_host_ping env item r)
  ping-Follows item r =
      branch env (is_active r.state || is_replaying r.state) (deliver_host_first-Follows env item r)
        (enqueue_host-Follows env item false r)

  gate-Follows :
      (item : PendingFrame) (message : String) (r : Runner)
      → Follows env r (gate env item message r).0
  gate-Follows item message r = if-Follows env (is_response item.frame) _ _ (stay env r) (
      if-Follows env (is_initialization_ping item.frame) _ _ (ping-Follows item r)
        (reject_request-Follows env item.frame _ message r))

  accept_initialized-Follows :
      (frame : ParsedFrame) (r : Runner) → Follows env r (accept_initialized env frame r)
  accept_initialized-Follows frame r = follow env (calm env refl) (
      branch env (is_some r.current && is_active r.state) (forward_to_child-Follows env frame _)
        (stay env _))

  pub handle_host_lifecycle-Follows :
      (item : PendingFrame) (r : Runner) → Follows env r (handle_host_lifecycle env item r).0
  unfolding handle_host_lifecycle
  handle_host_lifecycle-Follows item r =
      if-Follows env (is_none r.handshake.request) _ _ (before_initialize-Follows item.frame r) (
        if-Follows env r.handshake.awaiting _ _ (gate-Follows item _ r) (
          if-Follows env r.handshake.failed _ _ (reject_request-Follows env item.frame _ _ r) (
            if-Follows env (is_none r.handshake.initialized) _ _
              (if-Follows env (is_initialized_frame item.frame) _ _
                (accept_initialized-Follows item.frame r) (gate-Follows item _ r))
              (if-Follows env (is_initialized_frame item.frame) _ _ (stay env r) (
                if-Follows env (is_request item.frame.kind && same item.frame.method "initialize") _
                  _ (reject_host_request-Follows env item.frame _ _ r) (stay env r))))))
