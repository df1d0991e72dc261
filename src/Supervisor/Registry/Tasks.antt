-- ===== src/Supervisor/Registry/Tasks.antt =====
-- muxcore/supervisor/correlation.go: tasks: what a response to a task operation says, and how the
-- status of a task moves.
use mcp_mux.Base.{
  ℕ, String, Bool, true, false, not, ◌&&◌, ◌||◌, Option, none, some, List, [], ◌∷◌, ◌++◌, same,
  string_key, nat_key, leb, ◌==◌, if◌then◌else◌, is_some,
}
use mcp_mux.Map.{get, put, delete, has, size}
use mcp_mux.Supervisor.Scalar.{
  ScalarKey, scalar_key, TombstoneKey, tombstone_token, tombstone_task, task_tombstone_key,
}
use mcp_mux.Supervisor.Records.{
  Json, FrameKind, frame_error, frame_result, TaskMeta, ParsedFrame, RequestRecord, TaskRecord,
  is_open, parse_task_meta, terminal_task_limit,
}
use mcp_mux.Supervisor.Registry.{
  Error, ambiguous_task, collides_task, unknown_task, nonterminal_after_terminal,
  terminal_status_changed, terminal_limit, bad_operation, active_and_terminal, current_and_retired,
  Result, ok, err, ◌>>◌, reject, DirectionRegistry, Outcome, and_then, fence_many, fence_one,
}
use mcp_mux.Supervisor.Fences
use mcp_mux.Supervisor.Tombstones

-- What a response means for the task that its request names, if it names one.
pub data Operation : Type 0 where
  not_operation : Operation
  operation : Option TaskMeta → Operation
  broken : Error → Operation

abbrev task_state : String → String → Option TaskMeta → Operation
task_state method id none = broken bad_operation
task_state method id (some meta) =
    if not (same meta.id id)
    then broken bad_operation
    else if same method "tasks/cancel" && not (same meta.status "cancelled")
    then broken bad_operation
    else operation (some meta)

abbrev reply_of : Operation → FrameKind → Operation
reply_of result frame_error = operation none
reply_of result frame_result = result
reply_of result _ = broken bad_operation

unfoldable pub task_operation_response : Json → RequestRecord → ParsedFrame → Operation
task_operation_response json r response =
    if same r.task_id ""
    then not_operation
    else if same r.method "tasks/get" || same r.method "tasks/cancel"
    then reply_of (task_state r.method r.task_id (parse_task_meta json response.result))
        response.kind
    else if same r.method "tasks/result"
    then reply_of (operation (some (record { id = r.task_id; status = "completed" }))) response.kind
    else not_operation

pub data CurrentTask : Type 0 where
  active : TaskRecord → CurrentTask
  terminal : TaskRecord → CurrentTask
  finalized : CurrentTask

abbrev current_of :
    ℕ → Option TaskRecord → Option TaskRecord → Bool → Bool → Bool → Result CurrentTask
current_of generation (some task) ended retired fenced transitioned =
    if not (task.generation == generation) || is_some ended || retired || fenced || transitioned
    then err ambiguous_task
    else ok (active task)
current_of generation none (some task) retired fenced transitioned =
    if not (task.generation == generation) || retired || fenced || transitioned
    then err ambiguous_task
    else ok (terminal task)
current_of generation none none retired fenced transitioned =
    if retired || transitioned
    then err collides_task
    else if fenced
    then ok finalized
    else err unknown_task

unfoldable pub current_task_for_operation : RequestRecord → DirectionRegistry → Result CurrentTask
current_task_for_operation r g =
    current_of r.generation (get r.task_id g.tasks) (get r.task_id g.terminal_tasks)
      (has r.task_id g.retired_tasks)
      (Fences.contains tombstone_task (task_tombstone_key r.task_id) g.persistent_fences)
      (Tombstones.contains tombstone_task (task_tombstone_key r.task_id) g.tombstones)

abbrev known_status : Option String → String → Result (Unit {0})
known_status none status = ok tt
known_status (some known) status = reject (not (same known status)) terminal_status_changed

unfoldable pub validate_finalized_task_status :
    String → String → DirectionRegistry → Result (Unit {0})
validate_finalized_task_status id status g = do
  reject (is_open status) nonterminal_after_terminal
  known_status (get id g.finalized_task_statuses) status

-- A check of the state, and on with the state as it is.
abbrev pub checked :
    {A : Type 0}
    → Result (Unit {0})
    → DirectionRegistry
    → (DirectionRegistry → Outcome A)
    → Outcome A
checked (ok _) g k = k g
checked (err e) g k = (g, err e)

abbrev pub record_finalized : String → String → DirectionRegistry → DirectionRegistry
record_finalized id status g = record g {
  finalized_task_statuses = put id status g.finalized_task_statuses;
}

abbrev pub fence_token : Option ScalarKey → DirectionRegistry → Outcome (Unit {0})
fence_token none g = (g, ok tt)
fence_token (some token) g = fence_one tombstone_token token g

abbrev pub without_token : Option ScalarKey → DirectionRegistry → DirectionRegistry
without_token none g = g
without_token (some token) g = record g { tokens = delete token g.tokens }

-- The active task ends: its token is fenced and freed, and it moves to the terminal tasks.
abbrev pub end_task : TaskMeta → TaskRecord → DirectionRegistry → Outcome Bool
end_task meta task g =
    if leb terminal_task_limit (size g.terminal_tasks)
    then (g, err terminal_limit)
    else and_then (fence_token task.progress_token g) λ _ g'. (
      record (without_token task.progress_token g') {
        tasks = delete meta.id g'.tasks;
        terminal_tasks = put meta.id (record task { status = meta.status }) g'.terminal_tasks;
      },
      ok true,
    )

abbrev pub update_active : TaskMeta → ℕ → TaskRecord → DirectionRegistry → Outcome Bool
update_active meta generation task g =
    if not (task.generation == generation)
    then (g, ok false)
    else if is_open meta.status
    then (record g { tasks = put meta.id (record task { status = meta.status }) g.tasks }, ok true)
    else end_task meta task g

abbrev pub update_terminal : TaskMeta → ℕ → TaskRecord → DirectionRegistry → Outcome Bool
update_terminal meta generation task g =
    if not (task.generation == generation)
    then (g, ok false)
    else if is_open meta.status
    then (g, err nonterminal_after_terminal)
    else if not (same task.status meta.status)
    then (g, err terminal_status_changed)
    else (g, ok true)

abbrev pub update_finalized : TaskMeta → DirectionRegistry → Outcome Bool
update_finalized meta g =
    if not (Fences.contains tombstone_task (task_tombstone_key meta.id) g.persistent_fences)
    then (g, ok false)
    else checked (validate_finalized_task_status meta.id meta.status g) g
        λ g'. (record_finalized meta.id meta.status g', ok true)

abbrev pub update_found :
    TaskMeta → ℕ → Option TaskRecord → Option TaskRecord → DirectionRegistry → Outcome Bool
update_found meta generation (some task) (some other) g = (g, err active_and_terminal)
update_found meta generation (some task) none g = update_active meta generation task g
update_found meta generation none (some task) g = update_terminal meta generation task g
update_found meta generation none none g = update_finalized meta g

unfoldable pub update_task : TaskMeta → ℕ → DirectionRegistry → Outcome Bool
update_task meta generation g =
    update_found meta generation (get meta.id g.tasks) (get meta.id g.terminal_tasks) g

-- The keys to fence with a task, and its token.
abbrev pub with_token_entry : Option ScalarKey → List TombstoneKey → List TombstoneKey
with_token_entry none entries = entries
with_token_entry (some token) entries =
    entries ++ record { role = tombstone_token; key = token } ∷ []

abbrev pub keep_status : String → Option TaskRecord → DirectionRegistry → DirectionRegistry
keep_status id none g = g
keep_status id (some task) g = record_finalized id task.status g

abbrev pub finalize_known :
    String → ℕ → TaskRecord → Option TaskRecord → DirectionRegistry → Outcome Bool
finalize_known id generation task ended g =
    if not (task.generation == generation)
    then (g, ok false)
    else and_then
        (fence_many
          (with_token_entry task.progress_token
            (record { role = tombstone_task; key = task_tombstone_key id } ∷ []))
          g)
        λ _ g'.
          let kept = keep_status id ended g' in
          (
            without_token task.progress_token (record kept {
              tasks = delete id kept.tasks;
              terminal_tasks = delete id kept.terminal_tasks;
            }),
            ok true,
          )

abbrev pub finalize_found :
    String → ℕ → Option TaskRecord → Option TaskRecord → DirectionRegistry → Outcome Bool
finalize_found id generation (some task) (some other) g = (g, err active_and_terminal)
finalize_found id generation (some task) none g =
    if has id g.retired_tasks
    then (g, err current_and_retired)
    else finalize_known id generation task none g
finalize_found id generation none (some task) g =
    if has id g.retired_tasks
    then (g, err current_and_retired)
    else finalize_known id generation task (some task) g
finalize_found id generation none none g =
    if has id g.retired_tasks
    then (g, err current_and_retired)
    else (g, ok (Fences.contains tombstone_task (task_tombstone_key id) g.persistent_fences))

unfoldable pub finalize_task : String → ℕ → DirectionRegistry → Outcome Bool
finalize_task id generation g =
    finalize_found id generation (get id g.tasks) (get id g.terminal_tasks) g
