-- ===== src/Supervisor/Registry/Retired.antt =====
-- muxcore/supervisor/correlation.go: responses and statuses that reach a retired generation.
use mcp_mux.Base.{
  String, Bool, true, false, not, ◌||◌, Option, none, some, [], ◌∷◌, same, string_key, nat_key,
  if◌then◌else◌,
}
use mcp_mux.Map.{get, put, delete, has}
use mcp_mux.Supervisor.Scalar.{
  ScalarKey, ScalarValue, scalar_key, tombstone_request, tombstone_task, task_tombstone_key,
}
use mcp_mux.Supervisor.Records.{
  Json, is_error, is_result, TaskMeta, ParsedFrame, RequestRecord, TaskRecord, is_open,
}
use mcp_mux.Supervisor.Registry.{
  ambiguous_task, collides_task, unknown_task, nonterminal_after_terminal, invalid_task_result,
  needs_create_task, status_not_working, active_and_retired, terminal_and_retired,
  retired_and_fenced, active_and_fenced, terminal_and_fenced, Result, ok, err, ◌>>◌, reject,
  DirectionRegistry, Outcome, and_then, is_fenced, fence_many, fence_one,
}
use mcp_mux.Supervisor.Registry.Register.{can_bind_task}
use mcp_mux.Supervisor.Registry.Tasks.{
  Operation, not_operation, operation, broken, task_operation_response,
  validate_finalized_task_status, checked, record_finalized, with_token_entry,
}
use mcp_mux.Supervisor.Registry.Complete.{fence_request, bound_task}
use mcp_mux.Supervisor.Fences
use mcp_mux.Supervisor.Tombstones

abbrev pub drop_retired_token : Option ScalarKey → DirectionRegistry → DirectionRegistry
drop_retired_token none g = g
drop_retired_token (some token) g = record g { retired_tokens = delete token g.retired_tokens }

abbrev pub token_key : Option ScalarValue → Option ScalarKey
token_key none = none
token_key (some token) = some token.key

abbrev pub drop_retired_request : RequestRecord → DirectionRegistry → DirectionRegistry
drop_retired_request r g =
    drop_retired_token (token_key r.progress_token)
      (record g { retired_requests = delete r.id.key g.retired_requests })

unfoldable pub release_retired_request : RequestRecord → DirectionRegistry → Outcome (Unit {0})
release_retired_request r g =
    and_then (fence_request r true g) λ _ g'. (drop_retired_request r g', ok tt)

pub data RetiredTask : Type 0 where
  retired : TaskRecord → RetiredTask
  terminal_fenced : RetiredTask

abbrev pub retired_of : Option TaskRecord → Bool → Bool → Bool → Bool → Result RetiredTask
retired_of none active terminal fenced transitioned =
    if active || terminal || transitioned
    then err collides_task
    else if fenced
    then ok terminal_fenced
    else err unknown_task
retired_of (some task) active terminal fenced transitioned =
    if active || terminal || fenced || transitioned then err ambiguous_task else ok (retired task)

unfoldable pub retired_task_for_operation : RequestRecord → DirectionRegistry → Result RetiredTask
retired_task_for_operation r g =
    retired_of (get r.task_id g.retired_tasks) (has r.task_id g.tasks)
      (has r.task_id g.terminal_tasks)
      (Fences.contains tombstone_task (task_tombstone_key r.task_id) g.persistent_fences)
      (Tombstones.contains tombstone_task (task_tombstone_key r.task_id) g.tombstones)

abbrev pub keep_finalized : String → String → DirectionRegistry → DirectionRegistry
keep_finalized id status g = if same status "" then g else record_finalized id status g

unfoldable pub release_retired_task_operation :
    RequestRecord → TaskRecord → String → DirectionRegistry → Outcome (Unit {0})
release_retired_task_operation r task finalized_status g =
    and_then
      (fence_many
        (with_token_entry task.progress_token (
          with_token_entry (token_key r.progress_token) (
            record { role = tombstone_request; key = r.id.key }
            ∷ record { role = tombstone_task; key = task_tombstone_key task.id }
            ∷ [])))
        g)
      λ _ g'.
        let g'' = drop_retired_request r (keep_finalized task.id finalized_status g') in
        (
          drop_retired_token task.progress_token
              (record g'' { retired_tasks = delete task.id g''.retired_tasks }),
          ok tt,
        )

-- The response was consumed.
abbrev pub consumed : Outcome (Unit {0}) → Outcome Bool
consumed o = and_then o λ _ g. (g, ok true)

abbrev pub set_retired_status : String → TaskRecord → String → DirectionRegistry → DirectionRegistry
set_retired_status id task status g = record g {
  retired_tasks = put id (record task { status = status }) g.retired_tasks;
}

abbrev pub answer_open : RequestRecord → RetiredTask → TaskMeta → DirectionRegistry → Outcome Bool
answer_open r terminal_fenced meta g = (g, err nonterminal_after_terminal)
answer_open r (retired task) meta g =
    and_then (release_retired_request r g)
      λ _ g'. (set_retired_status r.task_id task meta.status g', ok true)

-- The final status is recorded before the request is released.
abbrev pub answer_fenced : RequestRecord → TaskMeta → DirectionRegistry → Outcome Bool
answer_fenced r meta g =
    if same r.method "tasks/result"
    then consumed (release_retired_request r g)
    else checked (validate_finalized_task_status r.task_id meta.status g) g
        λ g'. consumed (release_retired_request r (record_finalized r.task_id meta.status g'))

abbrev pub answer_final : RequestRecord → RetiredTask → TaskMeta → DirectionRegistry → Outcome Bool
answer_final r terminal_fenced meta g = answer_fenced r meta g
answer_final r (retired task) meta g = consumed (
    release_retired_task_operation r task (if same r.method "tasks/result" then "" else meta.status)
      g)

abbrev pub answer_operation :
    RequestRecord → Option TaskMeta → Result RetiredTask → DirectionRegistry → Outcome Bool
answer_operation r meta (err e) g = (g, err e)
answer_operation r none (ok task) g = consumed (release_retired_request r g)
answer_operation r (some meta) (ok task) g =
    if is_open meta.status then answer_open r task meta g else answer_final r task meta g

-- A task made by a retired generation is kept as a retired one.
abbrev pub adopt : RequestRecord → TaskMeta → DirectionRegistry → Outcome Bool
adopt r meta g = checked (can_bind_task meta.id g) g λ g'.
    and_then (fence_one tombstone_request r.id.key g') λ _ g''. (
      record g'' {
        retired_requests = delete r.id.key g''.retired_requests;
        retired_tasks = put meta.id (bound_task r meta) g''.retired_tasks;
      },
      ok true,
    )

abbrev pub answer_create :
    RequestRecord → ParsedFrame → Option TaskMeta → DirectionRegistry → Outcome Bool
answer_create r response none g = (g, err needs_create_task)
answer_create r response (some meta) g =
    if not (is_result response.kind)
    then (g, err needs_create_task)
    else if not (same meta.status "working")
    then (g, err status_not_working)
    else adopt r meta g

abbrev pub answer_as : Operation → RequestRecord → ParsedFrame → DirectionRegistry → Outcome Bool
answer_as (broken e) r response g = (g, err e)
answer_as (operation meta) r response g = answer_operation r meta (retired_task_for_operation r g) g
answer_as not_operation r response g =
    if not r.task_augmented || is_error response.kind
    then consumed (release_retired_request r g)
    else if response.utility_err
    then (g, err invalid_task_result)
    else answer_create r response response.task_result g

abbrev pub answer_found :
    Json → ParsedFrame → Option RequestRecord → DirectionRegistry → Outcome Bool
answer_found json response none g = (g, ok false)
answer_found json response (some r) g =
    answer_as (task_operation_response json r response) r response g

abbrev pub answer_id : Json → ParsedFrame → Option ScalarValue → DirectionRegistry → Outcome Bool
answer_id json response none g = (g, ok false)
answer_id json response (some id) g = answer_found json response (get id.key g.retired_requests) g

unfoldable pub consume_retired_response : Json → ParsedFrame → DirectionRegistry → Outcome Bool
consume_retired_response json response g = answer_id json response response.id g

abbrev pub status_fenced : TaskMeta → DirectionRegistry → Outcome Bool
status_fenced meta g =
    if not (Fences.contains tombstone_task (task_tombstone_key meta.id) g.persistent_fences)
    then (g, ok false)
    else checked
        (reject (has meta.id g.tasks) active_and_fenced
          >> (reject (has meta.id g.terminal_tasks) terminal_and_fenced
              >> validate_finalized_task_status meta.id meta.status g))
        g λ g'. (record_finalized meta.id meta.status g', ok true)

abbrev pub end_retired : TaskMeta → TaskRecord → DirectionRegistry → Outcome Bool
end_retired meta task g =
    and_then
      (fence_many
        (with_token_entry task.progress_token
          (record { role = tombstone_task; key = task_tombstone_key meta.id } ∷ []))
        g)
      λ _ g'.
        let g'' = record_finalized meta.id meta.status g' in
        (
          drop_retired_token task.progress_token
              (record g'' { retired_tasks = delete meta.id g''.retired_tasks }),
          ok true,
        )

abbrev pub status_found : TaskMeta → Option TaskRecord → DirectionRegistry → Outcome Bool
status_found meta none g = status_fenced meta g
status_found meta (some task) g =
    checked
      (reject (has meta.id g.tasks) active_and_retired
        >> (reject (has meta.id g.terminal_tasks) terminal_and_retired
            >> reject (is_fenced tombstone_task (task_tombstone_key meta.id) g) retired_and_fenced))
      g
      λ g'.
        if is_open meta.status
        then (
          record g' {
            retired_tasks = put meta.id (record task { status = meta.status }) g'.retired_tasks;
          },
          ok true,
        )
        else end_retired meta task g'

unfoldable pub consume_retired_task_status : TaskMeta → DirectionRegistry → Outcome Bool
consume_retired_task_status meta g = status_found meta (get meta.id g.retired_tasks) g
