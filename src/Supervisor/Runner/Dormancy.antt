-- ===== src/Supervisor/Runner/Dormancy.antt =====
-- muxcore/supervisor/routing.go, protocol.go, finalization.go: the child asks to go dormant, is told
-- to commit, and goes. Its exit and the end of its output complete the dormancy.
use mcp_mux.Base.{
  ℕ, ◌+◌, String, Bool, true, false, not, ◌&&◌, ◌||◌, Option, none, some, same, string_key, nat_key,
  ltb, ◌==◌, if◌then◌else◌, is_some, length,
}
use mcp_mux.Map.{size}
use Prim.Native.String.{◌++◌ as join}
use mcp_mux.Supervisor.Records.{ParsedFrame}
use mcp_mux.Supervisor.Registry.{DirectionRegistry}
use mcp_mux.Supervisor.Queue.{len}
use mcp_mux.Supervisor.Runner.{
  Runner, Environment, is_active, is_quiescing, is_awaiting_exit, is_none, active, quiescing,
  awaiting_dormant_exit, finalizing, dormant, Control, dormant_ready, commit_dormant, dormant_ack,
  dormant_nack, control, Generation,
}
use mcp_mux.Supervisor.Runner.Lifecycle.{
  tell_child, replace_current, begin_start, retire_current, commit_quiescing_cancellations, go_on,
  discard_pending,
}
use mcp_mux.Supervisor.Runner.Delivery.{is_notification}
use mcp_mux.Supervisor.Runner.Flush.{flush_pending}

unfoldable pub registry_idle : DirectionRegistry → Bool
registry_idle g =
    size g.requests == 0 && size g.tokens == 0 && size g.tasks == 0 && size g.terminal_tasks == 0

unfoldable pub safe_to_commit_dormant : Runner → Bool
unfolding registry_idle len
safe_to_commit_dormant r =
    is_some r.current && len r.pending == 0 && registry_idle r.host && registry_idle r.child

abbrev prefixed : String → String
prefixed name = join "$/mcp-mux/launcher/" name

unfoldable pub control_of_parsed_frame : ParsedFrame → Option Control
control_of_parsed_frame frame =
    if not frame.reserved || not (is_notification frame.kind) || ltb 0 (length frame.params)
    then none
    else if same frame.method (prefixed "dormant-ready")
    then some dormant_ready
    else if same frame.method (prefixed "commit-dormant")
    then some commit_dormant
    else if same frame.method (prefixed "dormant-ack")
    then some dormant_ack
    else if same frame.method (prefixed "dormant-nack")
    then some dormant_nack
    else none

abbrev dormant_exit_code : ℕ
dormant_exit_code = 75

abbrev pub arm_dormant_lease : Environment → Runner → Runner
arm_dormant_lease env r = if env.dormant_lease == 0 then r else record r {
  lease_deadline = env.now + env.dormant_lease;
  timers = record r.timers { lease = true };
}

abbrev pub go_dormant : Environment → Runner → Runner
go_dormant env r =
    if ltb 0 (len r.pending) || ltb r.dormant_transition_start env.host_sequence
    then begin_start r
    else arm_dormant_lease env (record r { state = dormant })

abbrev invalidate : Environment → Runner → Runner
invalidate env r = replace_current env (record r { dormancy_invalid = true })

-- The child exited with the reserved code, without an error, and sent nothing more.
abbrev pub clean_exit : Option (ℕ × Bool) → Bool → Bool
clean_exit none invalid = false
clean_exit (some (code, failed)) invalid = code == dormant_exit_code && not failed && not invalid

abbrev pub complete_dormancy : Environment → Generation → Runner → Runner
complete_dormancy env g r =
    if is_none (env.child_exit g.id) || not (env.output_eof g.id)
    then (if env.output_error g.id then invalidate env r else r)
    else if not (clean_exit (env.child_exit g.id) r.dormancy_invalid)
    then replace_current env r
    else go_on
        (retire_current env g
          (record r { timers = record r.timers { dormant_exit = false }; state = finalizing }))
        (go_dormant env)

abbrev pub maybe_for : Environment → Option Generation → Runner → Runner
maybe_for env none r = r
maybe_for env (some g) r = if is_awaiting_exit r.state then complete_dormancy env g r else r

unfoldable pub maybe_complete_dormancy : Environment → Runner → Runner
unfolding replace_current retire_current begin_start len
maybe_complete_dormancy env r = maybe_for env r.current r

abbrev pub commit : Environment → Runner → Runner
commit env r =
    go_on
      (tell_child env (control commit_dormant)
        (record r { dormant_transition_start = env.host_sequence; state = quiescing }))
      λ r'. record r' { timers = record r'.timers { dormant_exit = true } }

abbrev pub on_ready : Environment → Runner → Runner
on_ready env r =
    if not (is_active r.state)
      || not env.modern && (r.handshake.awaiting || is_none r.handshake.initialized)
    then replace_current env r
    else if safe_to_commit_dormant r
    then commit env r
    else r

abbrev pub on_nack : Environment → Runner → Runner
on_nack env r =
    if not (is_quiescing r.state)
    then replace_current env r
    else flush_pending env
        (record r { timers = record r.timers { dormant_exit = false }; state = active })

abbrev pub await_exit : Environment → Runner → Runner
await_exit env r = maybe_complete_dormancy env (record (discard_pending r) {
  state = awaiting_dormant_exit;
  timers = record r.timers { dormant_exit = true };
})

abbrev pub on_ack : Environment → Runner → Runner
on_ack env r =
    if not (is_quiescing r.state)
    then replace_current env r
    else go_on
        (commit_quiescing_cancellations env
          (record r { timers = record r.timers { drain = false } }))
        (await_exit env)

abbrev pub on_control : Environment → Option Control → Runner → Runner
on_control env (some dormant_ready) r = on_ready env r
on_control env (some dormant_nack) r = on_nack env r
on_control env (some dormant_ack) r = on_ack env r
on_control env _ r = replace_current env r

abbrev pub is_verified : Environment → Option Generation → Bool
is_verified env none = false
is_verified env (some g) = g.has_admission && env.verified g.id

unfoldable pub handle_child_control : Environment → ParsedFrame → Runner → Runner
unfolding replace_current tell_child flush_pending commit_quiescing_cancellations
    maybe_complete_dormancy safe_to_commit_dormant control_of_parsed_frame
handle_child_control env frame r =
    if is_verified env r.current then on_control env (control_of_parsed_frame frame) r else r
