-- ===== src/Supervisor/Runner/Events.antt =====
-- muxcore/supervisor/run.go, routing.go and finalization.go: the events of the loop, and the loop.
use mcp_mux.Supervisor.Records.{ParsedFrame, RequestRecord}
use mcp_mux.Supervisor.Scalar.{scalar_key}
use mcp_mux.Base.{
  ℕ, ◌+◌, String, Bool, true, false, not, ◌&&◌, ◌||◌, Option, none, some, List, [], ◌∷◌, same,
  string_key, nat_key, ◌==◌, if◌then◌else◌, is_some,
}
use mcp_mux.Supervisor.Runner.{
  Runner, no_timers, new_runner, is_active, is_replaying, is_quiescing, is_awaiting_exit, is_ending,
  is_none, stopping, terminal_state, protocol_failure, host_eof, caller_canceled, forward,
  Generation, Environment,
}
use mcp_mux.Supervisor.Runner.Lifecycle.{
  terminate, Flow, go_on, go_on_flow, tell_host, begin_start, finalize_current, on_host,
  replace_current,
}
use mcp_mux.Supervisor.Runner.Delivery.{is_response}
use mcp_mux.Supervisor.Runner.Lease.{handle_dormant_lease}
use mcp_mux.Supervisor.Runner.Host.{HostFrame, handle_host_event}
use mcp_mux.Supervisor.Runner.Child.{
  handle_child_response, host_record, is_initialization_logging, forward_to_host,
  handle_child_request, handle_child_cancellation, handle_child_progress, handle_child_task_status,
  handle_modern_child,
}
use mcp_mux.Supervisor.Runner.Replay.{handle_replay_frame}
use mcp_mux.Supervisor.Runner.Dormancy.{handle_child_control, maybe_complete_dormancy}
use mcp_mux.Supervisor.Runner.Start.{
  StartResult, handle_start_attempt, begin_resolve, handle_resolve,
}
use mcp_mux.Supervisor.Registry.Complete.{complete}
use mcp_mux.Supervisor.Registry.Retire.{retire_generation_checked}
use mcp_mux.Supervisor.Queue.{clear, is_request, is_initialization_ping}

abbrev pub mark_invalid : Runner → Runner
mark_invalid r = record r { dormancy_invalid = true }

abbrev pub settle_late : Environment → ParsedFrame → Option RequestRecord → Runner → Flow
settle_late env frame none r = (r, true)
settle_late env frame (some record_) r =
    if is_response frame
    then on_host (complete env.json record_ frame r.host) r (λ _ r'. (r', true))
    else (r, true)

-- A frame after the child agreed to go.
abbrev pub late_frame : Environment → ParsedFrame → Runner → Runner
late_frame env frame r =
    if r.dormancy_invalid
    then r
    else if is_request frame.kind
    then (let r' = handle_child_request env frame r in
        if is_awaiting_exit r'.state then mark_invalid r' else r')
    else go_on
        (go_on_flow (tell_host env (forward frame.raw) r)
          λ r'. settle_late env frame (host_record frame.id r') r')
        mark_invalid

abbrev pub before_initialized : Environment → ParsedFrame → Runner → Runner
before_initialized env frame r =
    if is_response frame
    then handle_child_response env frame r
    else if is_some r.handshake.request && is_initialization_ping frame
    then handle_child_request env frame r
    else if is_some r.handshake.request && is_initialization_logging frame
    then forward_to_host env frame r
    else if is_request frame.kind
    then replace_current env r
    else r

abbrev pub route_child : Environment → ParsedFrame → Runner → Runner
route_child env frame r =
    if is_response frame
    then handle_child_response env frame r
    else if is_request frame.kind
    then handle_child_request env frame r
    else if same frame.method "notifications/cancelled"
    then handle_child_cancellation env frame r
    else if same frame.method "notifications/progress"
    then handle_child_progress env frame r
    else if same frame.method "notifications/tasks/status"
    then handle_child_task_status env frame r
    else forward_to_host env frame r

abbrev route_plain_child : Environment → ParsedFrame → Runner → Runner
route_plain_child env frame r =
    if is_replaying r.state
    then handle_replay_frame env frame r
    else if is_awaiting_exit r.state
    then late_frame env frame r
    else if not (is_active r.state) && not (is_quiescing r.state)
    then r
    else if is_none r.handshake.initialized
    then before_initialized env frame r
    else route_child env frame r

unfoldable pub handle_child_frame : Environment → ParsedFrame → Runner → Runner
unfolding handle_child_control handle_modern_child handle_replay_frame handle_child_request
    handle_child_response handle_child_cancellation handle_child_progress handle_child_task_status
    tell_host replace_current
handle_child_frame env frame r =
    if is_none r.current
    then r
    else if frame.reserved
    then handle_child_control env frame r
    else if env.modern
    then handle_modern_child env frame r
    else route_plain_child env frame r

abbrev pub stop_drain : Runner → Runner
stop_drain r = record r { timers = record r.timers { drain = false } }

-- `eof` is a regular end of the output.
unfoldable pub handle_child_output : Environment → Bool → Runner → Runner
unfolding maybe_complete_dormancy replace_current
handle_child_output env eof r =
    let r' = stop_drain r in
    if is_awaiting_exit r'.state
    then (if eof then maybe_complete_dormancy env r' else replace_current env (mark_invalid r'))
    else if is_ending r'.state
    then r'
    else replace_current env r'

abbrev pub output_ended : Environment → Option Generation → Bool
output_ended env none = false
output_ended env (some g) = env.output_eof g.id || env.output_error g.id

unfoldable pub handle_child_exit : Environment → Runner → Runner
unfolding maybe_complete_dormancy replace_current
handle_child_exit env r =
    if is_awaiting_exit r.state
    then maybe_complete_dormancy env r
    else if is_ending r.state
    then r
    else if output_ended env r.current
    then replace_current env r
    else record r { timers = record r.timers { drain = true } }

pub data Event : Type 0 where
  canceled : Event
  host_frame : ℕ → ℕ → HostFrame → Event
  host_ended : Event
  start_attempt : ℕ → String → StartResult → Option Bool → Event
  resolved : ℕ → String → Bool → Event
  child_frame : ℕ → ParsedFrame → Event
  child_output : ℕ → Bool → Event
  child_exit : ℕ → Event
  child_proof : ℕ → Event
  retry_timer start_timer replay_timer drain_timer exit_timer lease_timer tick : Event

abbrev pub from_current : ℕ → Option Generation → Bool
from_current generation none = false
from_current generation (some g) = generation == g.id

-- The channel of a timer that is not armed is nil, and never ready.
abbrev pub if_armed : Bool → (Runner → Runner) → Runner → Runner
if_armed armed handle r = if armed then handle r else r

abbrev pub on_child_event : ℕ → (Runner → Runner) → Runner → Runner
on_child_event generation handle r = if from_current generation r.current then handle r else r

abbrev pub on_retry_timer : Runner → Runner
on_retry_timer r = begin_start (record r { timers = record r.timers { retry = false } })

abbrev pub on_start_timer : Runner → Runner
on_start_timer r = terminate protocol_failure (record r {
  timers = record r.timers { start = false };
  starting = false;
  start_id = r.start_id + 1;
})

abbrev pub on_replay_timer : Environment → Runner → Runner
on_replay_timer env r =
    replace_current env (record r { timers = record r.timers { replay = false } })

abbrev pub on_drain_timer : Environment → Runner → Runner
on_drain_timer env r =
    let r' = stop_drain r in if is_some r'.current then replace_current env r' else r'

abbrev pub on_exit_timer : Environment → Runner → Runner
on_exit_timer env r =
    replace_current env (record r { timers = record r.timers { dormant_exit = false } })

unfoldable pub handle_event : Environment → Event → Runner → Runner
unfolding handle_host_event handle_start_attempt handle_resolve handle_child_frame
    handle_child_output handle_child_exit begin_start terminate replace_current handle_dormant_lease
    begin_resolve
handle_event env canceled r = terminate caller_canceled r
handle_event env (host_frame sequence arrived frame) r =
    handle_host_event env sequence arrived frame r
handle_event env host_ended r = terminate host_eof r
handle_event env (start_attempt attempt requested s error) r =
    handle_start_attempt env attempt requested s error r
handle_event env (resolved attempt ref failed) r = handle_resolve env attempt ref failed r
handle_event env (child_frame generation frame) r =
    on_child_event generation (handle_child_frame env frame) r
handle_event env (child_output generation eof) r =
    on_child_event generation (handle_child_output env eof) r
handle_event env (child_exit generation) r = on_child_event generation (handle_child_exit env) r
handle_event env (child_proof generation) r =
    on_child_event generation (terminate protocol_failure) r
handle_event env retry_timer r = if_armed r.timers.retry on_retry_timer r
handle_event env start_timer r = if_armed r.timers.start on_start_timer r
handle_event env replay_timer r = if_armed r.timers.replay (on_replay_timer env) r
handle_event env drain_timer r = if_armed r.timers.drain (on_drain_timer env) r
handle_event env exit_timer r = if_armed r.timers.dormant_exit (on_exit_timer env) r
handle_event env lease_timer r = if_armed r.timers.lease (handle_dormant_lease env) r
handle_event env tick r = begin_resolve r

-- The loop of `Run`: each event comes with the surroundings it meets.
unfoldable pub run_loop : List (Environment × Event) → Runner → Runner
unfolding handle_event
run_loop [] r = r
run_loop ((env, event) ∷ events) r =
    if is_some r.terminal then r else run_loop events (handle_event env event r)

abbrev retire_last : Environment → Option Generation → Runner → Runner
retire_last env none r = r
retire_last env (some g) r =
    let host = (retire_generation_checked g.id r.host).0 in
    let child = (retire_generation_checked g.id r.child).0 in
    (finalize_current env (record r { host = host; child = child })).0

-- The final error is left out.
unfoldable pub shutdown : Environment → Runner → Runner
unfolding retire_generation_checked finalize_current clear
shutdown env r =
    let r1 = retire_last env r.current (record r { timers = no_timers; state = stopping }) in
    record r1 { pending = clear r1.pending; state = terminal_state }

-- `Run`, for the events that its loop receives.
unfoldable pub run : List (Environment × Event) → Environment → Runner
unfolding run_loop begin_start new_runner shutdown
run events env = shutdown env (run_loop events (begin_start new_runner))
