-- ===== src/Supervisor/RetireTests.antt =====
-- The theorems about the retirement of a generation at concrete registries.
use mcp_mux.Base.{
  ℕ, ◌≡◌, refl, true, false, none, some, [], ◌∷◌, string_key, nat_key, String-discrete, elem,
}
use mcp_mux.Map.{get}
use mcp_mux.Supervisor.Scalar.{
  ScalarKey, ScalarValue, scalar_key, scalar_number, ScalarKey-discrete,
}
use mcp_mux.Supervisor.Tombstones.{new_tombstones}
use mcp_mux.Supervisor.Fences.{new_fences, collect, add_all, add_many}
use mcp_mux.Supervisor.Records.{
  Json, ParsedFrame, frame_result, RequestRecord, TaskRecord, task_related,
}
use mcp_mux.Supervisor.Registry.{ok, err, DirectionRegistry, active_and_retired, fence_many}
use mcp_mux.Supervisor.Registry.Retire.{
  retire_generation_checked, retirement, check_limits, check_requests, task_entries,
  terminal_entries, retire_requests,
}
use mcp_mux.Supervisor.Registry.Retired.{consume_retired_response, retired, release_retired_request}
use mcp_mux.Supervisor.Registry.Once.{consume_retired_response_once}
use mcp_mux.Supervisor.Registry.Retirement.{
  IsProper, IsRetired, retire_generation_checked_atomic, retire_generation_checked-IsRetired,
}

abbrev key_one : ScalarKey
key_one = record { kind = scalar_number; value = "1" }

abbrev call : RequestRecord
call = record {
  id = record { key = key_one; raw = 49 ∷ [] };
  method = "tools/call";
  initialize = false;
  generation = 1;
  progress_token = none;
  task_augmented = false;
  task_id = "";
}

-- A task of the generation, and one of the next.
abbrev job : ℕ → TaskRecord
job generation = record {
  id = "job";
  request_id = key_one;
  generation = generation;
  progress_token = none;
  status = "working";
}

abbrev replaced : DirectionRegistry
replaced = record {
  requests = (key_one, call) ∷ [];
  tokens = [];
  tasks = ("job", job 1) ∷ ("new", job 2) ∷ [];
  terminal_tasks = [];
  tombstones = new_tombstones;
  persistent_fences = new_fences;
  retired_requests = [];
  retired_tokens = [];
  retired_tasks = [];
  finalized_task_statuses = [];
}

replaced-IsProper : IsProper replaced
unfolding get String-discrete
replaced-IsProper = record {
  distinct_requests = (refl, tt);
  keyed = (refl, tt);
  distinct_tasks = (refl, (refl, tt));
  distinct_terminals = tt;
}

retires : (retire_generation_checked 1 replaced).1 ≡ ok (call ∷ [])
unfolding retire_generation_checked String-discrete retirement
    mcp_mux.Supervisor.Registry.Retire.check_limits
    mcp_mux.Supervisor.Registry.Retire.check_requests get
    mcp_mux.Supervisor.Registry.Retire.task_entries
    mcp_mux.Supervisor.Registry.Retire.terminal_entries mcp_mux.Supervisor.Registry.fence_many
    mcp_mux.Supervisor.Fences.add_many mcp_mux.Supervisor.Fences.collect
    mcp_mux.Supervisor.Fences.contains mcp_mux.Base.elem mcp_mux.Supervisor.Fences.add_all
    mcp_mux.Supervisor.Fences.add mcp_mux.Supervisor.Registry.Retire.retire_requests
    mcp_mux.Supervisor.Registry.Sort.sort_lost mcp_mux.Supervisor.Registry.Sort.insert_request
retires = refl

retire_generation_checked-IsRetired_example :
    IsRetired 1 replaced (retire_generation_checked 1 replaced).0
retire_generation_checked-IsRetired_example =
    retire_generation_checked-IsRetired 1 replaced (call ∷ []) replaced-IsProper retires

-- The request is retired already.
abbrev twice : DirectionRegistry
twice = record replaced { retired_requests = (key_one, call) ∷ [] }

not_retired : (retire_generation_checked 1 twice).1 ≡ err active_and_retired
unfolding retire_generation_checked String-discrete retirement
    mcp_mux.Supervisor.Registry.Retire.check_limits
    mcp_mux.Supervisor.Registry.Retire.check_requests get
    mcp_mux.Supervisor.Scalar.ScalarKey-discrete
not_retired = refl

retire_generation_checked_atomic_example : (retire_generation_checked 1 twice).0 ≡ twice
retire_generation_checked_atomic_example =
    retire_generation_checked_atomic 1 twice active_and_retired not_retired

abbrev answer : ParsedFrame
answer = record {
  raw = [];
  wire = [];
  kind = frame_result;
  id = some call.id;
  method = "";
  params = [];
  result = [];
  reserved = false;
  progress_token = none;
  task_augmented = false;
  cancellation = none;
  progress = none;
  task_result = none;
  task_status = none;
  task_operation = "";
  task_id = "";
  utility_err = false;
}

abbrev no_json : Json
no_json = record { decode_object = λ _. none; parse_string = λ _. none }

found_retired : get key_one twice.retired_requests ≡ some call
unfolding get String-discrete ScalarKey-discrete
found_retired = refl

consumes : (consume_retired_response no_json answer twice).1 ≡ ok true
unfolding consume_retired_response String-discrete get ScalarKey-discrete
    mcp_mux.Supervisor.Registry.Tasks.task_operation_response
    mcp_mux.Supervisor.Registry.Retired.release_retired_request
    mcp_mux.Supervisor.Registry.Complete.fence_request mcp_mux.Supervisor.Records.task_related
consumes = refl

consume_retired_response_once_example :
    consume_retired_response no_json answer (consume_retired_response no_json answer twice).0
    ≡ ((consume_retired_response no_json answer twice).0, ok false)
consume_retired_response_once_example =
    consume_retired_response_once no_json no_json answer answer twice call.id call.id call true refl
      found_retired refl consumes refl refl
