-- ===== src/Supervisor/Runner/Validate.antt =====
-- muxcore/supervisor/routing.go, modern.go: the checks on a request of the host.
use mcp_mux.Base.{
  ℕ, Bool, true, false, not, ◌&&◌, ◌||◌, Option, none, some, same, string_key, nat_key, leb, ◌==◌,
  if◌then◌else◌, is_some,
}
use mcp_mux.Map.{get, size, has}
use mcp_mux.Supervisor.Scalar.{scalar_key, ScalarValue, Raw}
use mcp_mux.Supervisor.Records.{ParsedFrame, TaskRecord, active_correlation_limit}
use mcp_mux.Supervisor.Registry.{DirectionRegistry, ok, err}
use mcp_mux.Supervisor.Registry.Register.{can_register}
use mcp_mux.Supervisor.Queue.{PendingQueue, contains_request, contains_progress_token, is_request}
use mcp_mux.Supervisor.Runner.{
  Runner, Environment, is_replaying, Code, invalid_request, invalid_params, Complaint, text,
  refused, Generation,
}

abbrev pub Rejection : Type 0
Rejection = Code × Complaint

abbrev of_generation : ℕ → Option TaskRecord → Bool
of_generation generation none = false
of_generation generation (some task) = task.generation == generation

abbrev task_complaint : Bool → Bool → Bool → Bool → Option Complaint
task_complaint both live ended cancels =
    if both
    then some (text "taskId belongs to active and terminal tasks")
    else if live
    then none
    else if ended
    then (if cancels then some (text "task is already terminal") else none)
    else some (text "unknown taskId")

unfoldable pub validate_task_operation : DirectionRegistry → ParsedFrame → ℕ → Option Complaint
validate_task_operation g frame generation =
    let live = get frame.task_id g.tasks in
    let ended = get frame.task_id g.terminal_tasks in
    task_complaint (is_some live && is_some ended) (of_generation generation live)
      (of_generation generation ended) (same frame.task_operation "tasks/cancel")

abbrev or_else : Option Rejection → Option Rejection → Option Rejection
or_else none next = next
or_else (some rejection) next = some rejection

abbrev complain_if : Bool → Code → Complaint → Option Rejection
complain_if true code complaint = some (code, complaint)
complain_if false code complaint = none

abbrev with_code : Code → Option Complaint → Option Rejection
with_code code none = none
with_code code (some complaint) = some (code, complaint)

abbrev check_task : ParsedFrame → Option Generation → DirectionRegistry → Option Rejection
check_task frame none g = some (invalid_params, text "unknown taskId")
check_task frame (some generation) g =
    with_code invalid_params (validate_task_operation g frame generation.id)

abbrev check_register : ParsedFrame → DirectionRegistry → Option Rejection
check_register frame g = elim (can_register frame g) [
  | ok _ ↦ none
  | err e ↦ some (invalid_request, refused e)
]

abbrev pub same_id : Option ScalarValue → Option ScalarValue → Bool
same_id (some a) (some b) = same a.key b.key
same_id _ _ = false

abbrev pending_request : Option ScalarValue → PendingQueue → Bool
pending_request none q = false
pending_request (some id) q = contains_request id.key q

abbrev pending_token : Option ScalarValue → PendingQueue → Bool
pending_token none q = false
pending_token (some token) q = contains_progress_token token.key q

abbrev check_pending : ParsedFrame → Runner → Option Rejection
check_pending frame r =
    or_else
      (complain_if (pending_request frame.id r.pending) invalid_request
        (text "duplicate pending request id"))
      (complain_if (pending_token frame.progress_token r.pending) invalid_request
        (text "duplicate pending progress token"))

unfoldable pub validate_plain : ParsedFrame → Runner → Option Rejection
unfolding validate_task_operation
validate_plain frame r =
    or_else (complain_if frame.utility_err invalid_request (text "invalid request metadata")) (
      or_else (if same frame.task_operation "" then none else check_task frame r.current r.host) (
        or_else (check_register frame r.host) (
          or_else
            (complain_if
              (same_id r.handshake.id frame.id && (r.handshake.awaiting || is_replaying r.state))
              invalid_request (text "duplicate active request id"))
            (check_pending frame r))))

abbrev has_token : Option ScalarValue → DirectionRegistry → Bool
has_token none g = false
has_token (some token) g = has token.key g.tokens

abbrev modern_of : Option ScalarValue → ParsedFrame → Runner → Option Rejection
modern_of none frame r = some (invalid_request, text "request id is missing")
modern_of (some id) frame r =
    or_else
      (complain_if (has id.key r.host.requests) invalid_request
        (text "duplicate active request id"))
      (or_else
        (complain_if (leb active_correlation_limit (size r.host.requests)) invalid_request
          (text "active correlation limit reached"))
        (or_else
          (complain_if (contains_request id.key r.pending) invalid_request
            (text "duplicate pending request id"))
          (or_else
            (complain_if (has_token frame.progress_token r.host) invalid_request
              (text "duplicate active progress token"))
            (complain_if (pending_token frame.progress_token r.pending) invalid_request
              (text "duplicate pending progress token")))))

unfoldable pub validate_modern_host_request : ParsedFrame → Runner → Option Rejection
validate_modern_host_request frame r = modern_of frame.id frame r

-- A task that the server does not offer is an ordinary request: Go clears the flag in place.
abbrev pub settle_augmented : Environment → Option Raw → Bool → ParsedFrame → ParsedFrame
settle_augmented env initialize response frame =
    if frame.task_augmented && not (env.task_request_supported initialize response frame.method)
    then record frame { task_augmented = false }
    else frame

abbrev pub settle_host : Environment → ParsedFrame → Runner → ParsedFrame
settle_host env frame r =
    if not (is_request frame.kind) || env.modern
    then frame
    else settle_augmented env r.handshake.response true frame

-- The complaint about the settled frame, if it is a request.
unfoldable pub validate_host_request : Environment → ParsedFrame → Runner → Option Rejection
unfolding validate_plain validate_modern_host_request
validate_host_request env frame r =
    if not (is_request frame.kind)
    then none
    else if env.modern
    then validate_modern_host_request frame r
    else validate_plain frame r
