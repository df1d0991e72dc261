-- ===== src/Supervisor/Registry/Complete.antt =====
-- muxcore/supervisor/correlation.go: completion and cancellation of a request.
use mcp_mux.Base.{
  Bool, true, false, not, ◌&&◌, ◌||◌, Option, none, some, List, [], ◌∷◌, same, string_key, nat_key,
  leb, if◌then◌else◌, is_some,
}
use mcp_mux.Map.{put, delete, size}
use mcp_mux.Supervisor.Scalar.{
  ScalarKey, ScalarValue, scalar_key, TombstoneKey, tombstone_request, tombstone_token,
}
use mcp_mux.Supervisor.Records.{
  Json, is_error, is_result, TaskMeta, ParsedFrame, RequestRecord, TaskRecord, task_related,
  is_open, terminal_task_limit,
}
use mcp_mux.Supervisor.Registry.{
  unknown_task, nonterminal_after_terminal, terminal_status_changed, terminal_limit,
  invalid_task_result, needs_create_task, status_not_working, Result, ok, err, ◌>>=◌, ◌>>◌, reject,
  DirectionRegistry, Outcome, and_then, fence_many, entomb,
}
use mcp_mux.Supervisor.Registry.Register.{can_bind_task}
use mcp_mux.Supervisor.Registry.Tasks.{
  Operation, not_operation, operation, broken, task_operation_response, CurrentTask, active,
  terminal, finalized, current_task_for_operation, validate_finalized_task_status, without_token,
  update_task, finalize_task,
}

abbrev can_end : RequestRecord → TaskMeta → CurrentTask → DirectionRegistry → Result (Unit {0})
can_end r meta (active task) g =
    reject (leb terminal_task_limit (size g.terminal_tasks)) terminal_limit
can_end r meta (terminal task) g =
    reject (not (same task.status meta.status)) terminal_status_changed
can_end r meta finalized g = validate_finalized_task_status r.task_id meta.status g

abbrev is_active : CurrentTask → Bool
is_active (active task) = true
is_active _ = false

abbrev can_answer :
    RequestRecord → Option TaskMeta → CurrentTask → DirectionRegistry → Result (Unit {0})
can_answer r none state g = ok tt
can_answer r (some meta) state g = do
  reject (is_open meta.status && not (is_active state)) nonterminal_after_terminal
  if same r.method "tasks/result" || is_open meta.status then ok tt else can_end r meta state g

abbrev can_create : ParsedFrame → Option TaskMeta → DirectionRegistry → Result (Unit {0})
can_create response none g = err needs_create_task
can_create response (some meta) g =
    if not (is_result response.kind)
    then err needs_create_task
    else if not (same meta.status "working")
    then err status_not_working
    else can_bind_task meta.id g

abbrev can_complete_as :
    Operation → RequestRecord → ParsedFrame → DirectionRegistry → Result (Unit {0})
can_complete_as (broken e) r response g = err e
can_complete_as (operation meta) r response g = do
  state ← current_task_for_operation r g
  can_answer r meta state g
can_complete_as not_operation r response g =
    if not r.task_augmented || is_error response.kind
    then ok tt
    else if response.utility_err
    then err invalid_task_result
    else can_create response response.task_result g

unfoldable pub can_complete :
    Json → RequestRecord → ParsedFrame → DirectionRegistry → Result (Unit {0})
can_complete json r response g =
    can_complete_as (task_operation_response json r response) r response g

abbrev pub token_entry : Bool → Option ScalarValue → List TombstoneKey
token_entry true (some token) = record { role = tombstone_token; key = token.key } ∷ []
token_entry _ _ = []

abbrev pub request_entries : RequestRecord → Bool → List TombstoneKey
request_entries r include_token =
    record { role = tombstone_request; key = r.id.key } ∷ token_entry include_token r.progress_token

abbrev pub entomb_token : Bool → Option ScalarValue → DirectionRegistry → DirectionRegistry
entomb_token true (some token) g = entomb tombstone_token token.key g
entomb_token _ _ g = g

unfoldable pub fence_request : RequestRecord → Bool → DirectionRegistry → Outcome (Unit {0})
fence_request r include_token g =
    if task_related r
    then fence_many (request_entries r include_token) g
    else (entomb_token include_token r.progress_token (entomb tombstone_request r.id.key g), ok tt)

abbrev pub token_key : RequestRecord → Option ScalarKey
token_key r = elim r.progress_token [ none ↦ none | some token ↦ some token.key ]

unfoldable pub remove_token : RequestRecord → DirectionRegistry → DirectionRegistry
remove_token r g = without_token (token_key r) g

abbrev pub forget_request : RequestRecord → DirectionRegistry → DirectionRegistry
forget_request r g = record g { requests = delete r.id.key g.requests }

-- The task that a CreateTaskResult binds to the request.
abbrev pub bound_task : RequestRecord → TaskMeta → TaskRecord
bound_task r meta = record {
  id = meta.id;
  request_id = r.id.key;
  generation = r.generation;
  progress_token = token_key r;
  status = meta.status;
}

abbrev pub require_handled : Outcome Bool → Outcome (Unit {0})
require_handled o = and_then o λ handled g. if handled then (g, ok tt) else (g, err unknown_task)

abbrev pub apply_meta : RequestRecord → Option TaskMeta → DirectionRegistry → Outcome (Unit {0})
apply_meta r none g = (g, ok tt)
apply_meta r (some meta) g = require_handled (
    if same r.method "tasks/result"
    then finalize_task r.task_id r.generation g
    else update_task meta r.generation g)

-- The response creates a task, to which the request's token passes.
abbrev pub created_task : RequestRecord → ParsedFrame → Option TaskMeta
created_task r response = elim response.task_result [
  | none ↦ none
  | some meta ↦
      if r.task_augmented && is_result response.kind && same meta.status "working"
      then some meta
      else none
]

abbrev pub finish : RequestRecord → Option TaskMeta → DirectionRegistry → DirectionRegistry
finish r none g = remove_token r (forget_request r g)
finish r (some meta) g =
    let g' = forget_request r g in record g' { tasks = put meta.id (bound_task r meta) g'.tasks }

abbrev pub complete_as :
    Operation → RequestRecord → ParsedFrame → DirectionRegistry → Outcome (Unit {0})
complete_as (broken e) r response g = (g, err e)
complete_as (operation meta) r response g =
    and_then (fence_request r true g)
      λ _ g'. and_then (apply_meta r meta g') λ _ g''. (finish r none g'', ok tt)
complete_as not_operation r response g =
    and_then (fence_request r (not (is_some (created_task r response))) g)
      λ _ g'. (finish r (created_task r response) g', ok tt)

unfoldable pub complete :
    Json → RequestRecord → ParsedFrame → DirectionRegistry → Outcome (Unit {0})
complete json r response g = complete_as (task_operation_response json r response) r response g

unfoldable pub cancel : RequestRecord → DirectionRegistry → Outcome (Unit {0})
cancel r g = and_then (fence_request r true g) λ _ g'. (remove_token r (forget_request r g'), ok tt)
