-- ===== src/Supervisor/Runner.antt =====
-- muxcore/supervisor/run.go, generation.go and write.go: the state of the event loop that keeps one
-- host transport attached to a sequence of engine generations, and what it asks of its surroundings.
-- Observation callbacks, log lines and the text of the final error are left out. A timer is armed or
-- not; its channel is an event of the loop.
pub mod Lifecycle
pub mod Validate
pub mod Delivery
pub mod HostLifecycle
pub mod ModernHost
pub mod Lease
pub mod Host
pub mod Flush
pub mod Child
pub mod Replay
pub mod Dormancy
pub mod Start
pub mod Events
pub mod Sound
pub mod Reach
pub mod Lost
pub mod Halted
pub mod Idle
use mcp_mux.Base.{
  ℕ, String, Bool, true, false, not, ◌&&◌, Option, none, List, [], string_key, nat_key, ◌==◌,
  if◌then◌else◌, is_some,
}
use mcp_mux.Supervisor.Scalar.{Raw, ScalarKey, ScalarValue}
use mcp_mux.Supervisor.Records.{Json, ParsedFrame, RequestRecord}
use mcp_mux.Supervisor.Registry.{Error, DirectionRegistry, new_direction_registry}
use mcp_mux.Supervisor.Queue.{PendingQueue, new_queue, asks}

pub data State : Type 0 where
  starting_up replaying active quiescing awaiting_dormant_exit finalizing dormant stopping : State
  terminal_state : State

pub data Reason : Type 0 where
  initial crash output_eof write_failure protocol_failure engine_switch dormant_wake : Reason
  dormant_commit dormant_rejected retry host_eof host_output_failure caller_canceled : Reason

pub data Control : Type 0 where
  dormant_ready commit_dormant dormant_ack dormant_nack : Control

pub data Code : Type 0 where
  parse_error invalid_request method_not_found invalid_params internal pending_full : Code

-- The message of a local error: a fixed text, or an error of the registry.
pub data Complaint : Type 0 where
  text : String → Complaint
  refused : Error → Complaint

-- What is written: a frame as it came, an error of the supervisor's own, a private control, or a
-- list-changed notification.
pub data Message : Type 0 where
  forward : Raw → Message
  local_error : Option Raw → Code → Complaint → Message
  control : Control → Message
  list_changed : ℕ → Message

pub data WriteOutcome : Type 0 where
  not_written ambiguous delivered : WriteOutcome

-- What `writer.Write` returns: the bytes written, and whether there was an error.
pub record Transfer : Type 0 where
  pub count : ℕ
  pub failed : Bool

-- `writeFrame`, for a message of `size` bytes with its line break.
abbrev pub write_frame : ℕ → Transfer → WriteOutcome × Bool
write_frame size t =
    if t.count == size
    then (delivered, t.failed)
    else if t.count == 0 && t.failed
    then (not_written, true)
    else (ambiguous, true)

-- How the child of a generation ends once it is asked to.
pub record Ending : Type 0 where
  pub exited : Bool
  pub stop_failed : Bool
  pub exits : Bool
  pub unproven : Bool
  pub drains : Bool
  pub drains_closed : Bool
  pub reaped : Bool
  pub admission_closes : Bool

pub record Generation : Type 0 where
  pub id : ℕ
  pub requested : String
  pub has_admission : Bool

pub record Timers : Type 0 where
  pub start : Bool
  pub retry : Bool
  pub replay : Bool
  pub dormant_exit : Bool
  pub drain : Bool
  pub lease : Bool

-- What is known of the host's initialize handshake.
pub record Handshake : Type 0 where
  pub request : Option Raw
  pub id : Option ScalarValue
  pub awaiting : Bool
  pub response : Option Raw
  pub failed : Bool
  pub initialized : Option Raw

-- `replayResponse` is only ever written, and left out.
pub record Runner : Type 0 where
  pub state : State
  pub generation : ℕ
  pub current : Option Generation
  pub starting : Bool
  pub start_id : ℕ
  pub resolving : Bool
  pub resolve_id : ℕ
  pub timers : Timers
  pub last_host_sequence : ℕ
  pub pending : PendingQueue
  pub host : DirectionRegistry
  pub child : DirectionRegistry
  pub handshake : Handshake
  pub prelude : List Raw
  pub prelude_bytes : ℕ
  pub dormancy_invalid : Bool
  pub dormant_transition_start : ℕ
  pub lease_deadline : ℕ
  pub terminal : Option Reason
  pub host_log : List (Message × WriteOutcome)
  pub child_log : List (ℕ × Message × WriteOutcome)

abbrev pub no_timers : Timers
no_timers = record {
  start = false;
  retry = false;
  replay = false;
  dormant_exit = false;
  drain = false;
  lease = false;
}

abbrev pub no_handshake : Handshake
no_handshake = record {
  request = none;
  id = none;
  awaiting = false;
  response = none;
  failed = false;
  initialized = none;
}

-- The runner that `Run` makes, before it first starts an engine.
unfoldable pub new_runner : Runner
unfolding new_direction_registry
new_runner = record {
  state = starting_up;
  generation = 0;
  current = none;
  starting = false;
  start_id = 0;
  resolving = false;
  resolve_id = 0;
  timers = no_timers;
  last_host_sequence = 0;
  pending = new_queue;
  host = new_direction_registry;
  child = new_direction_registry;
  handshake = no_handshake;
  prelude = [];
  prelude_bytes = 0;
  dormancy_invalid = false;
  dormant_transition_start = 0;
  lease_deadline = 0;
  terminal = none;
  host_log = [];
  child_log = [];
}

-- The configuration and the surroundings. A transport answers the n-th write to it. The functions on initialize frames and on the metadata of modern frames are
-- taken whatever they answer.
pub record Environment : Type 0 where
  pub json : Json
  pub modern : Bool
  pub pending_frame_limit : ℕ
  pub pending_byte_limit : ℕ
  pub dormant_lease : ℕ
  pub replacement_notifications : List ℕ
  pub size : Message → ℕ
  pub host_writer : ℕ → Message → Transfer
  pub child_writer : ℕ → Message → Transfer
  pub verified : ℕ → Bool
  pub ending : ℕ → Ending
  pub child_exit : ℕ → Option (ℕ × Bool)
  pub output_eof : ℕ → Bool
  pub output_error : ℕ → Bool
  pub now : ℕ
  pub host_sequence : ℕ
  pub host_arrived : ℕ
  pub task_request_supported : Option Raw → Bool → String → Bool
  pub supports_list_changed : Option Raw → ℕ → Bool
  pub same_initialize_contract : Raw → ParsedFrame → Bool
  pub subscription_key : ParsedFrame → Option (Option ScalarKey)

abbrev pub is_active : State → Bool
is_active active = true
is_active _ = false

abbrev pub is_replaying : State → Bool
is_replaying replaying = true
is_replaying _ = false

abbrev pub is_quiescing : State → Bool
is_quiescing quiescing = true
is_quiescing _ = false

abbrev pub is_awaiting_exit : State → Bool
is_awaiting_exit awaiting_dormant_exit = true
is_awaiting_exit _ = false

abbrev pub is_dormant : State → Bool
is_dormant dormant = true
is_dormant _ = false

-- Finalizing or stopping.
abbrev pub is_ending : State → Bool
is_ending finalizing = true
is_ending stopping = true
is_ending _ = false

abbrev pub is_none : {A : Type 0} → Option A → Bool
is_none o = not (is_some o)
