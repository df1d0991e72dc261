-- ===== src/Supervisor/Records.antt =====
-- muxcore/supervisor/frame.go and correlation.go: what the registry reads of a parsed frame, and
-- the records it keeps. Decoding JSON is the caller's: an object is the map of its fields, and a
-- string its value.
use mcp_mux.Base.{
  ℕ, String, Bool, true, false, not, ◌&&◌, ◌||◌, Option, none, some, same, string_key, nat_key, leb,
  if◌then◌else◌,
}
use Prim.Native.String.{len}
use mcp_mux.Map.{Map, get}
use mcp_mux.Supervisor.Scalar.{Raw, ScalarKey, ScalarValue}
use mcp_mux.Supervisor.Numbers.{Number}

-- `decodeObject` and `parseString`, which wrap encoding/json.
pub record Json : Type 0 where
  pub decode_object : Raw → Option (Map String Raw)
  pub parse_string : Raw → Option String

pub data FrameKind : Type 0 where
  frame_request frame_notification frame_result frame_error : FrameKind

abbrev pub is_error : FrameKind → Bool
is_error frame_error = true
is_error _ = false

abbrev pub is_result : FrameKind → Bool
is_result frame_result = true
is_result _ = false

pub record TaskMeta : Type 0 where
  pub id : String
  pub status : String

-- `cancellationMeta` is its one field, the request's ID.
pub record ProgressMeta : Type 0 where
  pub token : ScalarValue
  pub progress : Number

-- The fields that the registry and the routing read. `utility_err` says whether the error is set.
pub record ParsedFrame : Type 0 where
  pub raw : Raw
  pub wire : Raw
  pub kind : FrameKind
  pub id : Option ScalarValue
  pub method : String
  pub params : Raw
  pub result : Raw
  pub reserved : Bool
  pub progress_token : Option ScalarValue
  pub task_augmented : Bool
  pub cancellation : Option ScalarValue
  pub progress : Option ProgressMeta
  pub task_result : Option TaskMeta
  pub task_status : Option TaskMeta
  pub task_operation : String
  pub task_id : String
  pub utility_err : Bool

pub record RequestRecord : Type 0 where
  pub id : ScalarValue
  pub method : String
  pub initialize : Bool
  pub generation : ℕ
  pub progress_token : Option ScalarValue
  pub task_augmented : Bool
  pub task_id : String

unfoldable pub task_related : RequestRecord → Bool
task_related r = r.task_augmented || not (same r.task_id "")

-- `last` and `hasLast` are one field: `none` where `hasLast` is false.
pub record TokenRecord : Type 0 where
  pub request_id : ScalarKey
  pub generation : ℕ
  pub last : Option Number

pub record TaskRecord : Type 0 where
  pub id : String
  pub request_id : ScalarKey
  pub generation : ℕ
  pub progress_token : Option ScalarKey
  pub status : String

abbrev pub active_correlation_limit : ℕ
active_correlation_limit = 256

abbrev pub retained_correlation_limit : ℕ
retained_correlation_limit = 1280

abbrev pub terminal_task_limit : ℕ
terminal_task_limit = 1024

abbrev pub max_correlation_value_bytes : ℕ
max_correlation_value_bytes = 16384

-- The status of a task that may still change.
abbrev pub is_open : String → Bool
is_open status = same status "working" || same status "input_required"

unfoldable pub valid_task_status : String → Bool
valid_task_status status =
    same status "working"
    || same status "input_required"
    || same status "completed"
    || same status "failed"
    || same status "cancelled"

-- The bytes of a string, in UTF-8.
abbrev valid_task_id : String → Bool
valid_task_id id = not (same id "") && leb (len id) max_correlation_value_bytes

abbrev meta_of : Option String → Option String → Option TaskMeta
meta_of (some id) (some status) =
    if valid_task_id id && valid_task_status status
    then some (record { id = id; status = status })
    else none
meta_of _ _ = none

abbrev string_at : Json → Option Raw → Option String
string_at json none = none
string_at json (some raw) = json.parse_string raw

abbrev meta_in : Json → Option (Map String Raw) → Option TaskMeta
meta_in json none = none
meta_in json (some fields) =
    meta_of (string_at json (get "taskId" fields)) (string_at json (get "status" fields))

-- The errors all abort the caller alike, so they are one.
unfoldable pub parse_task_meta : Json → Raw → Option TaskMeta
unfolding valid_task_status
parse_task_meta json raw = meta_in json (json.decode_object raw)
