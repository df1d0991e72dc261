-- ===== src/Supervisor/RunnerTests.antt =====
-- The theorems about the run loop at concrete runners.
use mcp_mux.Base.{
  ℕ, ◌≤◌, ◌≡◌, refl, true, false, none, some, List, [], ◌∷◌, ◌++◌, string_key, nat_key,
  String-discrete, pos, negsuc,
}
use mcp_mux.Supervisor.Scalar.{
  scalar_key, ScalarKey, ScalarValue, scalar_number, scalar_string, ScalarKey-discrete,
}
use mcp_mux.Supervisor.Records.{ParsedFrame, frame_notification, RequestRecord, ProgressMeta}
use mcp_mux.Supervisor.Queue.{PendingFrame, len}
use mcp_mux.Supervisor.Registry.{DirectionRegistry, new_direction_registry}
use mcp_mux.Supervisor.Registry.Progress.{accept_progress, exceeds, accept_progress_grows}
use mcp_mux.Supervisor.Numbers.{
  Number, negative, positive, split_canonical_number, split_last, compare_int,
  compare_canonical_numbers,
}
use mcp_mux.Supervisor.Numbers.Value.{compare_canonical_numbers-value, scaled, all_digits}
use mcp_mux.Supervisor.Runner.{
  Runner, Environment, Generation, no_handshake, new_runner, is_quiescing, active, Transfer, Ending,
}
use mcp_mux.Supervisor.Runner.Lifecycle.{retire_current, begin_start}
use mcp_mux.Supervisor.Runner.Flush.{flush_pending, flush_round, ping_round, flush_replay_pings}
use mcp_mux.Supervisor.Runner.Flush.Ends.{flush_pending-ends, flush_replay_pings-ends}
use mcp_mux.Supervisor.Runner.Dormancy.{handle_child_control, registry_idle, is_verified}
use mcp_mux.Supervisor.Runner.Start.{StartResult}
use mcp_mux.Supervisor.Runner.Events.{Event, handle_event, start_attempt}
use mcp_mux.Supervisor.Runner.Sound.{IsSound}
use mcp_mux.Supervisor.Runner.Reach.{Reach-IsSound, begun, handled}
use mcp_mux.Supervisor.Runner.Lost.{retire_current-lost, GivesUp}
use mcp_mux.Supervisor.Runner.Idle.{handle_child_control-commits}

abbrev key_one : ScalarKey
key_one = record { kind = scalar_number; value = "1" }

abbrev id_one : ScalarValue
id_one = record { key = key_one; raw = 49 ∷ [] }

abbrev quick : Ending
quick = record {
  exited = true;
  stop_failed = false;
  exits = true;
  unproven = false;
  drains = true;
  drains_closed = false;
  reaped = true;
  admission_closes = true;
}

abbrev whole : Transfer
whole = record { count = 9; failed = false }

-- Every message has nine bytes, and is written at once.
abbrev calm_environment : Environment
calm_environment = record {
  json = record { decode_object = λ _. none; parse_string = λ _. none };
  modern = false;
  pending_frame_limit = 4;
  pending_byte_limit = 100;
  dormant_lease = 0;
  replacement_notifications = [];
  size = λ _. 9;
  host_writer = λ _ _. whole;
  child_writer = λ _ _. whole;
  verified = λ _. true;
  ending = λ _. quick;
  child_exit = λ _. none;
  output_eof = λ _. false;
  output_error = λ _. false;
  now = 0;
  host_sequence = 0;
  host_arrived = 0;
  task_request_supported = λ _ _ _. false;
  supports_list_changed = λ _ _. false;
  same_initialize_contract = λ _ _. true;
  subscription_key = λ _. none;
}

abbrev engine : Generation
engine = record { id = 1; requested = "engine"; has_admission = true }

abbrev call : RequestRecord
call = record {
  id = id_one;
  method = "tools/call";
  initialize = false;
  generation = 1;
  progress_token = none;
  task_augmented = false;
  task_id = "";
}

abbrev ready_frame : ParsedFrame
ready_frame = record {
  raw = 123 ∷ [];
  wire = 123 ∷ [];
  kind = frame_notification;
  id = none;
  method = "$/mcp-mux/launcher/dormant-ready";
  params = [];
  result = [];
  reserved = true;
  progress_token = none;
  task_augmented = false;
  cancellation = none;
  progress = none;
  task_result = none;
  task_status = none;
  task_operation = "";
  task_id = "";
  utility_err = false;
}

-- One engine, with its handshake done and nothing in flight.
abbrev at_rest : Runner
at_rest = record new_runner {
  state = active;
  generation = 1;
  current = some engine;
  handshake = record no_handshake { request = some []; response = some []; initialized = some [] };
}

abbrev with_call : Runner
with_call = record at_rest {
  host = record new_direction_registry { requests = (key_one, call) ∷ [] };
}

abbrev waiting : PendingFrame
waiting = record {
  sequence = 1;
  arrived = 5;
  frame = record ready_frame { method = "notifications/roots/list_changed"; reserved = false };
  same_generation_only = false;
}

abbrev with_queue : Runner
with_queue = record at_rest { pending = record { items = waiting ∷ []; bytes = 2 } }

flush_pending-ends_example :
    flush_round calm_environment (flush_pending calm_environment with_queue) ≡ none
flush_pending-ends_example = flush_pending-ends calm_environment with_queue

flush_replay_pings-ends_example :
    ping_round calm_environment (flush_replay_pings calm_environment with_queue) ≡ none
flush_replay_pings-ends_example = flush_replay_pings-ends calm_environment with_queue

abbrev good_start : StartResult
good_start = record {
  child = true;
  streams = true;
  actual = "engine";
  fallback = false;
  admission = true;
  stop_failed = false;
  proven = true;
  admission_closes = true;
}

abbrev up : Event
up = start_attempt 1 "engine" good_start none

going : (begin_start new_runner).terminal ≡ none
unfolding begin_start new_runner
going = refl

Reach-IsSound_example : IsSound 4 100 (handle_event calm_environment up (begin_start new_runner))
Reach-IsSound_example =
    Reach-IsSound 4 100 (handle_event calm_environment up (begin_start new_runner))
      (handled begun going calm_environment up refl refl)

abbrev first_engine : Generation
first_engine = record { id = 1; requested = "engine"; has_admission = true }

-- Two requests, the later one first in the map.
abbrev key_text : ScalarKey
key_text = record { kind = scalar_string; value = "9" }

abbrev with_calls : Runner
with_calls = record at_rest {
  host = record new_direction_registry {
    requests =
        (key_one, call) ∷ (key_text, record call { id = record { key = key_text; raw = [] } }) ∷ [];
  };
}

retire_current-lost_example :
    GivesUp calm_environment engine with_calls (retire_current calm_environment engine with_calls)
retire_current-lost_example = retire_current-lost calm_environment engine with_calls refl

quiescing_now :
    is_quiescing (handle_child_control calm_environment ready_frame at_rest).state ≡ true
unfolding handle_child_control mcp_mux.Base.String-discrete new_runner
quiescing_now = refl

handle_child_control-commits_example :
    (is_verified calm_environment at_rest.current ≡ true)
    × (len at_rest.pending ≡ 0)
    × (registry_idle at_rest.host ≡ true)
    × (registry_idle at_rest.child ≡ true)
handle_child_control-commits_example =
    handle_child_control-commits calm_environment ready_frame at_rest refl quiescing_now

abbrev with_token : DirectionRegistry
with_token = record new_direction_registry {
  tokens = (key_one, record { request_id = key_one; generation = 1; last = none }) ∷ [];
}

five_splits :
    split_canonical_number (53 ∷ 101 ∷ 48 ∷ [])
    ≡ some (record { sign = positive; digits = 53 ∷ []; exponent = pos 0 })
unfolding split_canonical_number split_last
five_splits = refl

-- "5e0"
abbrev five : Number
five = record {
  text = 53 ∷ 101 ∷ 48 ∷ [];
  split = record { sign = positive; digits = 53 ∷ []; exponent = pos 0 };
  splits = five_splits;
}

abbrev five_done : ProgressMeta
five_done = record { token = id_one; progress = five }

five_done_accepted : (accept_progress five_done 1 with_token).1 ≡ true
unfolding accept_progress mcp_mux.Map.get mcp_mux.Supervisor.Scalar.ScalarKey-discrete
five_done_accepted = refl

accept_progress_grows_example :
    (accept_progress five_done 1 (accept_progress five_done 1 with_token).0).1
    ≡ exceeds (compare_canonical_numbers five_done.progress five_done.progress)
accept_progress_grows_example =
    accept_progress_grows five_done five_done 1 with_token refl five_done_accepted

less_more_splits :
    split_canonical_number (45 ∷ 49 ∷ 50 ∷ 101 ∷ 45 ∷ 49 ∷ [])
    ≡ some (record { sign = negative; digits = 49 ∷ 50 ∷ []; exponent = negsuc 0 })
unfolding split_canonical_number split_last
less_more_splits = refl

less_five_splits :
    split_canonical_number (45 ∷ 53 ∷ 101 ∷ 48 ∷ [])
    ≡ some (record { sign = negative; digits = 53 ∷ []; exponent = pos 0 })
unfolding split_canonical_number split_last
less_five_splits = refl

-- "-12e-1" and "-5e0", -12 and -50 tenths.
abbrev less_more : Number
less_more = record {
  text = 45 ∷ 49 ∷ 50 ∷ 101 ∷ 45 ∷ 49 ∷ [];
  split = record { sign = negative; digits = 49 ∷ 50 ∷ []; exponent = negsuc 0 };
  splits = less_more_splits;
}

abbrev less_five : Number
less_five = record {
  text = 45 ∷ 53 ∷ 101 ∷ 48 ∷ [];
  split = record { sign = negative; digits = 53 ∷ []; exponent = pos 0 };
  splits = less_five_splits;
}

compare_canonical_numbers-value_example :
    compare_canonical_numbers less_more less_five
    ≡ compare_int (scaled less_more.split 0) (scaled less_five.split 1)
unfolding all_digits
compare_canonical_numbers-value_example =
    compare_canonical_numbers-value less_more less_five 0 1 1 refl refl refl refl
