-- ===== src/Supervisor/Registry/Register.antt =====
-- muxcore/supervisor/correlation.go: admission of a request.
use mcp_mux.Base.{
  ℕ, ◌+◌, ◌-◌, String, Bool, false, ◌&&◌, ◌||◌, Option, none, some, [], ◌∷◌, same, string_key,
  nat_key, ltb, leb, if◌then◌else◌,
}
use mcp_mux.Map.{Map, put, has, size}
use mcp_mux.Supervisor.Scalar.{
  ScalarKey, ScalarValue, scalar_key, tombstone_request, tombstone_token, tombstone_task,
  task_tombstone_key,
}
use mcp_mux.Supervisor.Records.{
  ParsedFrame, RequestRecord, TokenRecord, active_correlation_limit, retained_correlation_limit,
}
use mcp_mux.Supervisor.Registry.{
  id_missing, id_retired, id_tombstoned, id_duplicate, active_limit, request_limit, task_limit,
  token_retired, token_tombstoned, token_duplicate, token_limit, task_active, task_terminal,
  task_retired, task_tombstoned, Result, ok, err, ◌>>◌, reject, DirectionRegistry, is_fenced,
}

unfoldable pub any_augmented : Map ScalarKey RequestRecord → Bool
any_augmented [] = false
any_augmented ((key, r) ∷ m) = r.task_augmented || any_augmented m

unfoldable pub has_task_lifecycle : DirectionRegistry → Bool
has_task_lifecycle g =
    ltb 0 (size g.tasks) || ltb 0 (size g.terminal_tasks) || any_augmented g.requests

-- One place is kept free for an operation on a task while there may be tasks.
abbrev pub limit_for : ParsedFrame → DirectionRegistry → ℕ
limit_for frame g =
    if same frame.task_operation "" && (frame.task_augmented || has_task_lifecycle g)
    then active_correlation_limit - 1
    else active_correlation_limit

abbrev pub check_token : Option ScalarValue → DirectionRegistry → Result (Unit {0})
check_token none g = ok tt
check_token (some token) g = do
  reject (has token.key g.retired_tokens) token_retired
  reject (is_fenced tombstone_token token.key g) token_tombstoned
  reject (has token.key g.tokens) token_duplicate
  reject (leb retained_correlation_limit (size g.tokens + size g.retired_tokens)) token_limit

abbrev pub check_id : ScalarKey → ParsedFrame → DirectionRegistry → Result (Unit {0})
check_id id frame g = do
  reject (has id g.retired_requests) id_retired
  reject (is_fenced tombstone_request id g) id_tombstoned
  reject (has id g.requests) id_duplicate
  reject (leb (limit_for frame g) (size g.requests + size g.tasks)) active_limit
  reject (leb retained_correlation_limit (size g.requests + size g.retired_requests)) request_limit
  reject
      (frame.task_augmented
        && leb retained_correlation_limit
            (size g.tasks + size g.terminal_tasks + size g.retired_tasks))
      task_limit
  check_token frame.progress_token g

abbrev check_frame : Option ScalarValue → ParsedFrame → DirectionRegistry → Result (Unit {0})
check_frame none frame g = err id_missing
check_frame (some id) frame g = check_id id.key frame g

unfoldable pub can_register : ParsedFrame → DirectionRegistry → Result (Unit {0})
can_register frame g = check_frame frame.id frame g

abbrev pub record_of : ScalarValue → ParsedFrame → ℕ → RequestRecord
record_of id frame generation = record {
  id = id;
  method = frame.method;
  initialize = same frame.method "initialize";
  generation = generation;
  progress_token = frame.progress_token;
  task_augmented = frame.task_augmented;
  task_id = frame.task_id;
}

abbrev pub with_token :
    Option ScalarValue → ScalarKey → ℕ → Map ScalarKey TokenRecord → Map ScalarKey TokenRecord
with_token none id generation tokens = tokens
with_token (some token) id generation tokens =
    put token.key (record { request_id = id; generation = generation; last = none }) tokens

-- The frame's ID is given apart: Go dereferences it.
unfoldable pub register :
    ScalarValue → ParsedFrame → ℕ → DirectionRegistry → DirectionRegistry × RequestRecord
register id frame generation g = (
  record g {
    requests = put id.key (record_of id frame generation) g.requests;
    tokens = with_token frame.progress_token id.key generation g.tokens;
  },
  record_of id frame generation,
)

unfoldable pub can_bind_task : String → DirectionRegistry → Result (Unit {0})
can_bind_task id g = do
  reject (has id g.tasks) task_active
  reject (has id g.terminal_tasks) task_terminal
  reject (has id g.retired_tasks) task_retired
  reject (is_fenced tombstone_task (task_tombstone_key id) g) task_tombstoned
  reject
      (leb retained_correlation_limit (size g.tasks + size g.terminal_tasks + size g.retired_tasks))
      task_limit
