-- ===== src/Supervisor/Runner/Replay.antt =====
-- muxcore/supervisor/replay.go: a replacement engine is brought to where its predecessor was.
use mcp_mux.Base.{
  ℕ, ◌+◌, Bool, true, false, not, ◌&&◌, ◌||◌, Option, none, some, List, [], ◌∷◌, ◌++◌, map,
  string_key, nat_key, ltb, leb, if◌then◌else◌, is_some, length,
}
use mcp_mux.Supervisor.Scalar.{Raw}
use mcp_mux.Supervisor.Records.{ParsedFrame, is_result}
use mcp_mux.Supervisor.Registry.{clear_transition_tombstones, clear_retired_correlations}
use mcp_mux.Supervisor.Queue.{is_initialization_ping}
use mcp_mux.Supervisor.Runner.{
  Runner, Environment, is_replaying, is_none, replaying, active, Message, forward, list_changed,
}
use mcp_mux.Supervisor.Runner.Lifecycle.{
  tell_host, tell_child, replace_current, Flow, go_on, go_on_flow,
}
use mcp_mux.Supervisor.Runner.Validate.{same_id}
use mcp_mux.Supervisor.Runner.Delivery.{is_response}
use mcp_mux.Supervisor.Runner.Flush.{flush_pending, flush_replay_pings}
use mcp_mux.Supervisor.Runner.Child.{
  handle_child_request, handle_child_response, is_initialization_logging, forward_to_host,
  host_record, stop_replay, settle_initialize,
}

abbrev pub no_prelude : Runner → Runner
no_prelude r = record r { prelude = []; prelude_bytes = 0 }

abbrev pub replay_with : Environment → Option Raw → Runner → Runner
replay_with env none r = replace_current env r
replay_with env (some request) r =
    let r' = record (no_prelude r) { state = replaying } in
    go_on (tell_child env (forward request) r')
      λ r''. flush_replay_pings env (record r'' { timers = record r''.timers { replay = true } })

unfoldable pub begin_replay : Environment → Runner → Runner
unfolding replace_current tell_child flush_replay_pings
begin_replay env r =
    if is_none r.current || is_none r.handshake.id
    then replace_current env r
    else replay_with env r.handshake.request r

unfoldable pub tell_all : Environment → List Message → Runner → Flow
unfolding tell_host
tell_all env [] r = (r, true)
tell_all env (message ∷ messages) r =
    let more = λ (r' : Runner). tell_all env messages r' in
    go_on_flow (tell_host env message r) more

abbrev pub tell_initialized : Environment → Option Raw → Runner → Flow
tell_initialized env none r = (r, true)
tell_initialized env (some initialized) r = tell_child env (forward initialized) r

abbrev pub answer_initialize : Environment → ParsedFrame → Runner → Flow
answer_initialize env response r =
    if not r.handshake.awaiting
    then (r, true)
    else go_on_flow (tell_host env (forward response.raw) r)
        λ r'. (settle_initialize response r', true)

unfoldable pub list_changes : Environment → Option Raw → List ℕ → List Message
list_changes env response [] = []
list_changes env response (kind ∷ kinds) =
    let rest = list_changes env response kinds in
    if env.supports_list_changed response kind then list_changed kind ∷ rest else rest

abbrev pub announce : Environment → ParsedFrame → Runner → Flow
announce env response r =
    if is_none r.handshake.initialized || not (is_result response.kind)
    then (r, true)
    else tell_all env (list_changes env r.handshake.response env.replacement_notifications) r

-- The child's retired correlations stay: its requests may still be answered by the host.
abbrev pub become_active : Runner → Runner
become_active r = record r {
  host = clear_retired_correlations (clear_transition_tombstones r.host);
  child = clear_transition_tombstones r.child;
  state = active;
}

abbrev pub replay_done : Environment → ParsedFrame → Runner → Flow
replay_done env response r = go_on_flow (tell_initialized env r.handshake.initialized r) λ r1.
    go_on_flow (tell_all env (map forward r1.prelude) r1)
      λ r2. go_on_flow (answer_initialize env response (no_prelude r2)) (announce env response)

unfoldable pub complete_replay : Environment → ParsedFrame → Runner → Runner
unfolding tell_child tell_all tell_host list_changes flush_pending
complete_replay env response r =
    let r' = stop_replay r in
    if is_none r'.current
    then r'
    else go_on (replay_done env response r') λ r''. flush_pending env (become_active r'')

abbrev pub contract_broken : Environment → ParsedFrame → Option Raw → Bool
contract_broken env frame none = false
contract_broken env frame (some original) =
    not (is_result frame.kind && env.same_initialize_contract original frame)

abbrev pub replay_response : Environment → ParsedFrame → Runner → Runner
replay_response env frame r =
    if is_some (host_record frame.id r)
    then handle_child_response env frame r
    else if not (same_id frame.id r.handshake.id)
    then replace_current env r
    else if contract_broken env frame r.handshake.response
    then replace_current env r
    else complete_replay env frame r

-- `size > limit - bytes`, which is negative once there is more.
abbrev pub prelude_full : Environment → ParsedFrame → Runner → Bool
prelude_full env frame r =
    leb env.pending_frame_limit (length r.prelude)
    || ltb env.pending_byte_limit (length frame.raw + 1 + r.prelude_bytes)

abbrev pub keep_prelude : Environment → ParsedFrame → Runner → Runner
keep_prelude env frame r = if prelude_full env frame r then replace_current env r else record r {
  prelude = r.prelude ++ frame.raw ∷ [];
  prelude_bytes = r.prelude_bytes + (length frame.raw + 1);
}

unfoldable pub handle_replay_frame : Environment → ParsedFrame → Runner → Runner
unfolding replace_current handle_child_request handle_child_response complete_replay tell_host
handle_replay_frame env frame r =
    if is_none r.current || not (is_replaying r.state)
    then r
    else if is_initialization_ping frame
    then handle_child_request env frame r
    else if is_response frame
    then replay_response env frame r
    else if not (is_initialization_logging frame) || frame.utility_err
    then replace_current env r
    else if r.handshake.awaiting
    then forward_to_host env frame r
    else keep_prelude env frame r
