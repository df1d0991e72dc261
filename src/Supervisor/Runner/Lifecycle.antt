-- ===== src/Supervisor/Runner/Lifecycle.antt =====
-- muxcore/supervisor/run.go, finalization.go and write.go: writing, starting, and replacing the
-- current generation.
use mcp_mux.Base.{
  ◌+◌, Bool, true, false, not, ◌&&◌, ◌||◌, Option, none, some, List, [], ◌∷◌, ◌++◌, string_key,
  nat_key, ◌==◌, if◌then◌else◌, is_some, length,
}
use mcp_mux.Supervisor.Scalar.{scalar_key, ScalarValue}
use mcp_mux.Map.{get, delete}
use mcp_mux.Supervisor.Records.{RequestRecord}
use mcp_mux.Supervisor.Registry.{Outcome, DirectionRegistry, ok, err}
use mcp_mux.Supervisor.Registry.Complete.{cancel, remove_token}
use mcp_mux.Supervisor.Registry.Retire.{retire_generation_checked}
use mcp_mux.Supervisor.Queue.{PendingFrame, discard_same_generation_only}
use mcp_mux.Supervisor.Runner.{
  Runner, Environment, write_frame, is_none, starting_up, finalizing, Reason, protocol_failure,
  host_output_failure, internal, text, Message, local_error, WriteOutcome, not_written, delivered,
  Ending, Generation,
}

unfoldable pub terminate : Reason → Runner → Runner
terminate reason r = if is_some r.terminal then r else record r { terminal = some reason }

-- A method that may stop the handler: `true` goes on.
abbrev pub Flow : Type 0
Flow = Runner × Bool

abbrev pub go_on : Flow → (Runner → Runner) → Runner
go_on (r, true) k = k r
go_on (r, false) k = r

abbrev pub go_on_flow : Flow → (Runner → Flow) → Flow
go_on_flow (r, true) k = k r
go_on_flow (r, false) k = (r, false)

abbrev pub fully_written : WriteOutcome × Bool → Bool
fully_written (delivered, false) = true
fully_written _ = false

unfoldable pub write_host : Environment → Message → Runner → Flow
write_host env message r =
    let w = write_frame (env.size message) (env.host_writer (length r.host_log) message) in
    (record r { host_log = r.host_log ++ (message, w.0) ∷ [] }, fully_written w)

-- `if err := writeHost(…); err != nil { terminate(…); return }`
unfoldable pub tell_host : Environment → Message → Runner → Flow
unfolding write_host terminate
tell_host env message r =
    let (r', fine) = write_host env message r in
    if fine then (r', true) else (terminate host_output_failure r', false)

abbrev pub write_to :
    Environment → Message → Option Generation → Runner → Runner × WriteOutcome × Bool
write_to env message none r = (r, not_written, true)
write_to env message (some g) r =
    let w = write_frame (env.size message) (env.child_writer (length r.child_log) message) in
    (record r { child_log = r.child_log ++ (g.id, message, w.0) ∷ [] }, w.0, w.1)

-- The outcome, and whether there was an error. Without a child nothing is written.
unfoldable pub write_child : Environment → Message → Runner → Runner × WriteOutcome × Bool
write_child env message r = write_to env message r.current r

unfoldable pub begin_start : Runner → Runner
begin_start r = if is_some r.terminal || r.starting || is_some r.current then r else record r {
  timers = record r.timers { retry = false; start = true };
  starting = true;
  start_id = r.start_id + 1;
  state = starting_up;
}

unfoldable pub schedule_retry : Runner → Runner
schedule_retry r =
    if is_some r.terminal || is_some r.current || r.timers.retry
    then r
    else record r { timers = record r.timers { retry = true }; state = starting_up }

-- The process tree, the output pump and the reaper of the generation are done with.
abbrev pub is_retired : Ending → Bool
is_retired e =
    (e.exited || not e.stop_failed && e.exits)
    && not e.unproven
    && (e.drains || e.drains_closed)
    && e.reaped

abbrev pub finalize_found : Environment → Option Generation → Runner → Flow
finalize_found env none r = (r, true)
finalize_found env (some g) r =
    if not (is_retired (env.ending g.id))
    then (r, false)
    else (record r { current = none }, not g.has_admission || (env.ending g.id).admission_closes)

-- `false` is an error.
unfoldable pub finalize_current : Environment → Runner → Flow
finalize_current env r = finalize_found env r.current r

abbrev pub with_host : DirectionRegistry → Runner → Runner
with_host g r = record r { host = g }

abbrev pub with_child : DirectionRegistry → Runner → Runner
with_child g r = record r { child = g }

-- `if err != nil { terminate(ReasonProtocolFailure, err); return }` on a method of the registry.
abbrev pub on_host : {A : Type 0} → Outcome A → Runner → (A → Runner → Flow) → Flow
on_host (g, ok a) r k = k a (with_host g r)
on_host (g, err e) r k = (terminate protocol_failure (with_host g r), false)

abbrev pub on_child : {A : Type 0} → Outcome A → Runner → (A → Runner → Flow) → Flow
on_child (g, ok a) r k = k a (with_child g r)
on_child (g, err e) r k = (terminate protocol_failure (with_child g r), false)

-- The record, where it belongs to the generation.
abbrev pub own_record : Option Generation → Option RequestRecord → Option RequestRecord
own_record (some g) (some r) = if r.generation == g.id then some r else none
own_record _ _ = none

abbrev pub may_cancel : RequestRecord → Bool
may_cancel r = not r.initialize && not r.task_augmented

abbrev drop_modern_request : RequestRecord → DirectionRegistry → DirectionRegistry
drop_modern_request record_ g =
    remove_token record_ (record g { requests = delete record_.id.key g.requests })

abbrev pub finish_modern_request : RequestRecord → Runner → Runner
finish_modern_request record_ r = with_host (drop_modern_request record_ r.host) r

abbrev pub commit_record : Environment → Option RequestRecord → Runner → Flow
commit_record env none r = (r, true)
commit_record env (some record_) r =
    if not (may_cancel record_)
    then (r, true)
    else if env.modern
    then (finish_modern_request record_ r, true)
    else on_host (cancel record_ r.host) r λ _ r'. (r', true)

abbrev pub commit_id : Environment → Option ScalarValue → Runner → Flow
commit_id env none r = (r, true)
commit_id env (some id) r = commit_record env (own_record r.current (get id.key r.host.requests)) r

abbrev commit_item : Environment → PendingFrame → Runner → Flow
commit_item env item r =
    if not item.same_generation_only then (r, true) else commit_id env item.frame.cancellation r

unfoldable pub commit_items : Environment → List PendingFrame → Runner → Flow
commit_items env [] r = (r, true)
commit_items env (item ∷ items) r =
    let rest = λ (r' : Runner). commit_items env items r' in
    go_on_flow (commit_item env item r) rest

-- The error terminates the runner wherever it is called.
unfoldable pub commit_quiescing_cancellations : Environment → Runner → Flow
unfolding commit_items
commit_quiescing_cancellations env r =
    if is_none r.current then (r, true) else commit_items env r.pending.items r

-- The host is told of each request that went down with its generation.
unfoldable pub answer_lost : Environment → List RequestRecord → Runner → Flow
answer_lost env [] r = (r, true)
answer_lost env (lost ∷ rest) r =
    let more = λ (r' : Runner). answer_lost env rest r' in
    go_on_flow
      (tell_host env
        (local_error (some lost.id.raw) internal
          (text "mcp-mux engine restarted, request lost during launcher reconnect"))
        r)
      more

abbrev pub finalize_or_terminate : Environment → Runner → Flow
finalize_or_terminate env r =
    let (r', fine) = finalize_current env r in
    if fine then (r', true) else (terminate protocol_failure r', false)

-- What `replaceCurrent` and `maybeCompleteDormancy` share: the requests of the generation are
-- retired on both sides, the lost ones are answered, and its child is finalized.
unfoldable pub retire_current : Environment → Generation → Runner → Flow
unfolding terminate answer_lost finalize_current
retire_current env g r = on_host (retire_generation_checked g.id r.host) r λ lost r1.
    on_child (retire_generation_checked g.id r1.child) r1
      λ _ r2. go_on_flow (answer_lost env lost r2) (finalize_or_terminate env)

abbrev pub begin_finalizing : Runner → Runner
begin_finalizing r = record r {
  timers = record r.timers { replay = false; dormant_exit = false; drain = false; lease = false };
  resolving = false;
  resolve_id = r.resolve_id + 1;
  state = finalizing;
}

abbrev pub discard_pending : Runner → Runner
discard_pending r = record r { pending = discard_same_generation_only r.pending }

abbrev pub replace_generation : Environment → Option Generation → Runner → Runner
replace_generation env none r = begin_start r
replace_generation env (some g) r =
    go_on (commit_quiescing_cancellations env (begin_finalizing r))
      λ r1. go_on (retire_current env g (discard_pending r1)) begin_start

-- The reason is observed only.
unfoldable pub replace_current : Environment → Runner → Runner
unfolding begin_start commit_quiescing_cancellations retire_current
replace_current env r = if is_some r.terminal then r else replace_generation env r.current r

abbrev pub or_replace : Environment → Runner × WriteOutcome × Bool → Flow
or_replace env (r, outcome, failed) =
    if fully_written (outcome, failed) then (r, true) else (replace_current env r, false)

-- `outcome, err := writeChild(…); if outcome != writeDelivered || err != nil { replaceCurrent(…) }`
unfoldable pub tell_child : Environment → Message → Runner → Flow
unfolding write_child replace_current
tell_child env message r = or_replace env (write_child env message r)
