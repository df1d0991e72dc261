-- ===== src/Supervisor/Runner/Start.antt =====
-- muxcore/supervisor/run.go and generation.go: an attempt to start an engine ends, and the engine
-- that should run is looked up again.
use mcp_mux.Base.{
  ℕ, ◌+◌, String, Bool, true, false, not, ◌&&◌, ◌||◌, Option, none, some, same, string_key, nat_key,
  ◌==◌, if◌then◌else◌, is_some,
}
use mcp_mux.Supervisor.Registry.{
  clear_transition_tombstones, clear_retired_correlations, DirectionRegistry,
}
use mcp_mux.Supervisor.Runner.{
  Runner, is_active, is_none, active, protocol_failure, Generation, Environment,
}
use mcp_mux.Supervisor.Runner.Lifecycle.{terminate, schedule_retry, replace_current}
use mcp_mux.Supervisor.Runner.Flush.{flush_pending}
use mcp_mux.Supervisor.Runner.Replay.{begin_replay}

-- What a start returned, and how its child and admission end if they are given up: `proven` is a
-- terminal result within the timeout that does not leave the process tree open.
pub record StartResult : Type 0 where
  pub child : Bool
  pub streams : Bool
  pub actual : String
  pub fallback : Bool
  pub admission : Bool
  pub stop_failed : Bool
  pub proven : Bool
  pub admission_closes : Bool

abbrev pub start_result_has_authority : StartResult → Bool
start_result_has_authority s = s.child || s.admission

-- `false` is an error.
unfoldable pub cleanup_invalid_start : StartResult → Bool
cleanup_invalid_start s =
    (not s.child || not s.stop_failed && s.proven) && (not s.admission || s.admission_closes)

unfoldable pub new_generation : ℕ → String → StartResult → Option Generation
new_generation id requested s =
    if same requested ""
      || not s.child
      || same s.actual ""
      || not (same s.actual requested) && not s.fallback
      || not s.streams
    then none
    else some (record { id = id; requested = requested; has_admission = s.admission })

abbrev pub give_up : StartResult → Runner → Runner
give_up s r = if cleanup_invalid_start s then schedule_retry r else terminate protocol_failure r

abbrev pub failed_start : Bool → StartResult → Runner → Runner
failed_start unproven s r =
    if start_result_has_authority s && not (cleanup_invalid_start s)
    then terminate protocol_failure r
    else if unproven && not s.child
    then terminate protocol_failure r
    else schedule_retry r

abbrev clear_all : DirectionRegistry → DirectionRegistry
clear_all g = clear_retired_correlations (clear_transition_tombstones g)

abbrev pub activate : Environment → Runner → Runner
activate env r = flush_pending env (record r { state = active })

abbrev pub adopt : Environment → Generation → Runner → Runner
adopt env g r =
    let r' = record r { generation = g.id; current = some g; dormancy_invalid = false } in
    if env.modern
    then activate env (record r' { host = clear_all r'.host; child = clear_all r'.child })
    else if is_some r'.handshake.request
    then begin_replay env r'
    else activate env r'

abbrev pub started : Environment → String → StartResult → Runner → Runner
started env requested s r = elim (new_generation (r.generation + 1) requested s) [
  | none ↦ give_up s r
  | some g ↦ adopt env g r
]

abbrev pub attempt_over : Runner → Runner
attempt_over r = record r { timers = record r.timers { start = false }; starting = false }

-- The error, if there is one, says whether the rollback of the start is unproven.
abbrev pub finish_attempt : Environment → String → StartResult → Option Bool → Runner → Runner
finish_attempt env requested s (some unproven) r = failed_start unproven s r
finish_attempt env requested s none r = started env requested s r

unfoldable pub handle_start_attempt :
    Environment → ℕ → String → StartResult → Option Bool → Runner → Runner
unfolding terminate schedule_retry flush_pending begin_replay cleanup_invalid_start new_generation
handle_start_attempt env attempt requested s error r =
    if not (attempt == r.start_id) || not r.starting || is_some r.terminal
    then (if start_result_has_authority s && not (cleanup_invalid_start s)
        then terminate protocol_failure r
        else r)
    else finish_attempt env requested s error (attempt_over r)

unfoldable pub begin_resolve : Runner → Runner
begin_resolve r =
    if is_some r.terminal || r.resolving || is_none r.current || not (is_active r.state)
    then r
    else record r { resolving = true; resolve_id = r.resolve_id + 1 }

abbrev pub switch_engine : Environment → String → Option Generation → Runner → Runner
switch_engine env ref none r = r
switch_engine env ref (some g) r =
    if same ref "" || same ref g.requested then r else replace_current env r

unfoldable pub handle_resolve : Environment → ℕ → String → Bool → Runner → Runner
unfolding replace_current
handle_resolve env attempt ref failed r =
    if not (attempt == r.resolve_id) || not r.resolving || is_some r.terminal
    then r
    else let r' = record r { resolving = false } in
      if failed then r' else switch_engine env ref r'.current r'
