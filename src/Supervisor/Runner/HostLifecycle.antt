-- ===== src/Supervisor/Runner/HostLifecycle.antt =====
-- muxcore/supervisor/routing.go: the host's initialize handshake.
use mcp_mux.Base.{
  String, Bool, true, false, not, ◌&&◌, ◌||◌, some, same, string_key, nat_key, if◌then◌else◌,
  is_some,
}
use mcp_mux.Supervisor.Scalar.{scalar_key}
use mcp_mux.Supervisor.Records.{ParsedFrame}
use mcp_mux.Supervisor.Queue.{PendingFrame, is_request, is_initialization_ping}
use mcp_mux.Supervisor.Runner.{
  Runner, Environment, is_active, is_replaying, is_none, invalid_request, invalid_params, text,
  forward, Handshake,
}
use mcp_mux.Supervisor.Runner.Lifecycle.{tell_child, begin_start, Flow, go_on}
use mcp_mux.Supervisor.Runner.Delivery.{
  is_response, deliver_host_first, enqueue_host, reject_host_request, is_notification,
  forward_to_child, reject_request,
}

abbrev pub with_handshake : Handshake → Runner → Runner
with_handshake h r = record r { handshake = h }

abbrev pub arm_replay : Runner → Runner
arm_replay r = record r { timers = record r.timers { replay = true } }

-- Both failing outcomes replace the child.
abbrev pub write_initial_initialize : Environment → ParsedFrame → Runner → Runner
write_initial_initialize env frame r = go_on (tell_child env (forward frame.raw) r) arm_replay

abbrev pub accept_initialize : Environment → ParsedFrame → Runner → Runner
accept_initialize env frame r =
    let r' =
      with_handshake
        (record r.handshake { request = some frame.raw; id = frame.id; awaiting = true }) r in
    if is_some r.current && is_active r.state
    then write_initial_initialize env frame r'
    else if is_none r.current
    then begin_start (record r' { timers = record r'.timers { lease = false } })
    else r'

abbrev pub before_initialize : Environment → ParsedFrame → Runner → Runner
before_initialize env frame r =
    if not (is_request frame.kind && same frame.method "initialize")
    then reject_request env frame invalid_request "initialize must be the first request" r
    else if frame.utility_err
    then reject_host_request env frame invalid_params (text "invalid initialize metadata") r
    else accept_initialize env frame r

abbrev pub route_initialization_host_ping : Environment → PendingFrame → Runner → Runner
route_initialization_host_ping env item r =
    if is_active r.state || is_replaying r.state
    then deliver_host_first env item r
    else enqueue_host env item false r

-- A response passes; a ping is routed; any other request is refused.
abbrev pub gate : Environment → PendingFrame → String → Runner → Flow
gate env item message r =
    if is_response item.frame
    then (r, false)
    else if is_initialization_ping item.frame
    then (route_initialization_host_ping env item r, true)
    else (reject_request env item.frame invalid_request message r, true)

abbrev pub is_initialized_frame : ParsedFrame → Bool
is_initialized_frame frame =
    is_notification frame.kind && same frame.method "notifications/initialized"

abbrev pub accept_initialized : Environment → ParsedFrame → Runner → Runner
accept_initialized env frame r =
    let r' = with_handshake (record r.handshake { initialized = some frame.raw }) r in
    if is_some r.current && is_active r.state then forward_to_child env frame r' else r'

-- `true` says that the frame is dealt with.
unfoldable pub handle_host_lifecycle : Environment → PendingFrame → Runner → Flow
unfolding deliver_host_first enqueue_host reject_host_request tell_child begin_start
handle_host_lifecycle env item r =
    if is_none r.handshake.request
    then (before_initialize env item.frame r, true)
    else if r.handshake.awaiting
    then gate env item "initialize response is still pending" r
    else if r.handshake.failed
    then (reject_request env item.frame invalid_request "initialization failed" r, true)
    else if is_none r.handshake.initialized
    then (if is_initialized_frame item.frame
        then (accept_initialized env item.frame r, true)
        else gate env item "notifications/initialized is required" r)
    else if is_initialized_frame item.frame
    then (r, true)
    else if is_request item.frame.kind && same item.frame.method "initialize"
    then (
      reject_host_request env item.frame invalid_request (text "initialize already completed") r,
      true,
    )
    else (r, false)
