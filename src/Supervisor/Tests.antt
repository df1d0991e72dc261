-- ===== src/Supervisor/Tests.antt =====
-- The theorems about the supervisor's correlation and queue at concrete states.
use Prim.Native.String.{◌++◌ as join}
use mcp_mux.Base.{
  ◌-◌, ℕ, zero, suc, ◌+◌, ◌≤◌, ◌<◌, String, ◌≡◌, refl, ◌≢◌, ◌⊎◌, true, false, none, some, List, [],
  ◌∷◌, ◌++◌, arith, same, string_key, nat_key, String-discrete, elem,
}
use mcp_mux.Map.{has, Map, get, size}
use mcp_mux.Supervisor.Scalar.{
  scalar_string, scalar_key, TombstoneRole, ScalarKey, scalar_number, tombstone_request,
  tombstone_token, tombstone_task, ScalarValue, TombstoneKey, TombstoneKey-discrete,
  TombstoneRole-discrete,
}
use mcp_mux.Supervisor.Tombstones
use mcp_mux.Supervisor.Tombstones.{new_tombstones, tombstone}
use mcp_mux.Supervisor.Tombstones.Ring.{IsRing, recent, clear-IsRing, recent-add}
use mcp_mux.Supervisor.Fences
use mcp_mux.Supervisor.Fences.{
  PersistentFence, new_fences, limit_reached, persistent_fence_limit, add_many, collect, add_all,
}
use mcp_mux.Supervisor.Fences.Room.{HasRoom, count_of}
use mcp_mux.Supervisor.Fences.Atomic.{add_many_atomic, contains-add_many}
use mcp_mux.Supervisor.Records.{
  Json, ParsedFrame, frame_request, frame_result, RequestRecord, task_related,
}
use mcp_mux.Supervisor.Registry.{
  fence_limit, ok, err, new_direction_registry, DirectionRegistry, fence_many,
}
use mcp_mux.Supervisor.Registry.Register.{can_register}
use mcp_mux.Supervisor.Registry.Complete.{complete, cancel, fence_request}
use mcp_mux.Supervisor.Registry.Reuse.{can_register-cancel, can_register-complete}
use mcp_mux.Supervisor.Queue.{
  PendingFrame, PendingQueue, new_queue, enqueue, push_front_bounded, pop,
  discard_same_generation_only, frame_size, asks, remove_request, any_item,
}
use mcp_mux.Supervisor.Queue
use mcp_mux.Supervisor.Queue.Bounds.{IsBounded, total}
use mcp_mux.Supervisor.Queue.Order.{
  items-discard, enqueue-admits, pop-push_front, pop-enqueue, remove_request_lem, others_of,
}
use mcp_mux.Supervisor.Queue.Runs.{run-IsBounded, run, enqueues, pops}

-- The ID `n`, as JSON spells the number.
abbrev number : String → ScalarKey
number n = record { kind = scalar_number; value = n }

abbrev id_one : ScalarValue
id_one = record { key = number "1"; raw = 49 ∷ [] }

abbrev ping : ParsedFrame
ping = record {
  raw = 123 ∷ 125 ∷ [];
  wire = [];
  kind = frame_request;
  id = some id_one;
  method = "ping";
  params = [];
  result = [];
  reserved = false;
  progress_token = none;
  task_augmented = false;
  cancellation = none;
  progress = none;
  task_result = none;
  task_status = none;
  task_operation = "";
  task_id = "";
  utility_err = false;
}

abbrev answer : ParsedFrame
answer = record ping { kind = frame_result; method = "" }

abbrev ping_record : RequestRecord
ping_record = record {
  id = id_one;
  method = "ping";
  initialize = false;
  generation = 1;
  progress_token = none;
  task_augmented = false;
  task_id = "";
}

-- A request on a task, which is fenced for good.
abbrev task_record : RequestRecord
task_record = record ping_record { task_id = "job" }

abbrev no_json : Json
no_json = record { decode_object = λ _. none; parse_string = λ _. none }

new-IsRing : IsRing new_tombstones
unfolding Tombstones.clear
new-IsRing = clear-IsRing new_tombstones

completed : (complete no_json ping_record answer new_direction_registry).1 ≡ ok tt
unfolding complete new_direction_registry String-discrete
    mcp_mux.Supervisor.Registry.Tasks.task_operation_response
    mcp_mux.Supervisor.Registry.Complete.fence_request mcp_mux.Supervisor.Records.task_related
completed = refl

can_register-complete_example :
    can_register ping (complete no_json ping_record answer new_direction_registry).0 ≢ ok tt
unfolding new_direction_registry Tombstones.contains get
can_register-complete_example =
    can_register-complete no_json ping_record answer new_direction_registry ping id_one new-IsRing
      refl completed refl refl

cancelled : (cancel task_record new_direction_registry).1 ≡ ok tt
unfolding cancel new_direction_registry String-discrete
    mcp_mux.Supervisor.Registry.Complete.fence_request mcp_mux.Supervisor.Records.task_related
    mcp_mux.Supervisor.Registry.fence_many add_many Fences.collect Fences.contains get
    mcp_mux.Base.elem Fences.add_all Fences.add
cancelled = refl

can_register-cancel_example :
    can_register ping (cancel task_record new_direction_registry).0 ≢ ok tt
unfolding new_direction_registry Tombstones.contains get
can_register-cancel_example =
    can_register-cancel task_record new_direction_registry ping id_one new-IsRing refl cancelled
      refl refl

abbrev one_entry : List TombstoneKey
one_entry = tombstone tombstone_request (number "1") ∷ []

added : (Fences.add_many one_entry new_fences).1 ≡ none
unfolding Fences.add_many String-discrete Fences.collect Fences.contains get mcp_mux.Base.elem
    Fences.add_all Fences.add
added = refl

contains-add_many_example :
    Fences.contains tombstone_request (number "1") (Fences.add_many one_entry new_fences).0 ≡ true
unfolding String-discrete Fences.contains get mcp_mux.Base.elem
    mcp_mux.Supervisor.Scalar.TombstoneKey-discrete
contains-add_many_example =
    contains-add_many one_entry new_fences added tombstone_request (number "1")

one_room_at :
    (role : TombstoneRole)
    → size (Fences.values role new_fences) + count_of role one_entry ≤ persistent_fence_limit
unfolding count_of mcp_mux.Supervisor.Scalar.TombstoneRole-discrete
one_room_at tombstone_request = omega arith
one_room_at tombstone_token = omega arith
one_room_at tombstone_task = omega arith

one_room : HasRoom one_entry new_fences
one_room = record { at = one_room_at }

recent-add_example :
    recent (Tombstones.add tombstone_request (number "1") new_tombstones) ≡ one_entry
unfolding recent String-discrete mcp_mux.Base.elem
recent-add_example = recent-add tombstone_request (number "1") new_tombstones new-IsRing

abbrev waiting_ping : PendingFrame
waiting_ping = record { sequence = 1; arrived = 5; frame = ping; same_generation_only = false }

abbrev one_waiting : PendingQueue
one_waiting = record { items = waiting_ping ∷ []; bytes = 3 }

one_waiting-IsBounded : IsBounded 4 100 one_waiting
unfolding total
one_waiting-IsBounded = record { counted = refl; few = omega arith; small = omega arith }

items-discard_example : (Queue.discard_same_generation_only one_waiting).items ≡ waiting_ping ∷ []
unfolding mcp_mux.Supervisor.Queue.Order.others_of
items-discard_example = (items-discard 4 100 one_waiting one_waiting-IsBounded).0

remove_request_lem_example :
    ((first : Queue.Order.IsFirst (number "1") one_waiting) × (same first.item.frame.method
          "initialize"
        ≡ false)
      × (first.item.frame.task_augmented ≡ false)
      × ((Queue.remove_request (number "1") one_waiting).1 ≡ true)
      × ((Queue.remove_request (number "1") one_waiting).0.items ≡ first.front ++ first.back)
      × ((Queue.remove_request (number "1") one_waiting).0.bytes
          ≡ one_waiting.bytes - Queue.frame_size first.item))
    ⊎ ((first : Queue.Order.IsFirst (number "1") one_waiting) × ((same first.item.frame.method
              "initialize"
            ≡ true)
          ⊎ (first.item.frame.task_augmented ≡ true))
        × (Queue.remove_request (number "1") one_waiting ≡ (one_waiting, false)))
    ⊎ ((Queue.any_item (Queue.asks (number "1")) one_waiting.items ≡ false)
        × (Queue.remove_request (number "1") one_waiting ≡ (one_waiting, false)))
remove_request_lem_example = remove_request_lem (number "1") one_waiting

run-IsBounded_example : IsBounded 4 100 (run 4 100 (enqueues waiting_ping ∷ pops ∷ []) new_queue)
run-IsBounded_example = run-IsBounded 4 100 (enqueues waiting_ping ∷ pops ∷ [])

-- A fence of requests that is full: its keys are texts of different lengths.
letters : ℕ → String
letters zero = ""
letters (suc n) = join "a" (letters n)

abbrev filler : ℕ → ScalarKey
filler n = record { kind = scalar_string; value = letters n }

requests_of : ℕ → Map ScalarKey (Unit {0})
requests_of zero = []
requests_of (suc n) = (filler n, tt) ∷ requests_of n

size-requests_of : (n : ℕ) → size (requests_of n) ≡ n
unfolding requests_of
size-requests_of zero = refl
size-requests_of (suc n) = ground (arith, size-requests_of n)

has-requests_of : (n : ℕ) → has (number "1") (requests_of n) ≡ false
unfolding requests_of get
has-requests_of zero = refl
has-requests_of (suc n) = ground (arith, has-requests_of n)

abbrev full_fences : PersistentFence
full_fences = record new_fences { requests = requests_of persistent_fence_limit }

not_added_at :
    (m : Map ScalarKey (Unit {0}))
    → has (number "1") m ≡ false
    → size m ≡ persistent_fence_limit
    → (Fences.add_many one_entry (record new_fences { requests = m })).1
      ≡ some (limit_reached tombstone_request)
unfolding Fences.add_many Fences.collect Fences.contains mcp_mux.Base.elem
not_added_at m new full = ground arith

not_added : (Fences.add_many one_entry full_fences).1 ≡ some (limit_reached tombstone_request)
not_added =
    not_added_at (requests_of persistent_fence_limit) (has-requests_of persistent_fence_limit)
      (size-requests_of persistent_fence_limit)

add_many_atomic_example : (Fences.add_many one_entry full_fences).0 ≡ full_fences
add_many_atomic_example =
    add_many_atomic one_entry full_fences (limit_reached tombstone_request) not_added

abbrev full_registry : DirectionRegistry
full_registry = record {
  requests = (number "1", task_record) ∷ [];
  tokens = [];
  tasks = [];
  terminal_tasks = [];
  tombstones = new_tombstones;
  persistent_fences = full_fences;
  retired_requests = [];
  retired_tokens = [];
  retired_tasks = [];
  finalized_task_statuses = [];
}

not_cancelled :
    (cancel task_record full_registry).1 ≡ err (fence_limit (limit_reached tombstone_request))
unfolding cancel String-discrete mcp_mux.Supervisor.Registry.Complete.fence_request
    mcp_mux.Supervisor.Records.task_related mcp_mux.Supervisor.Registry.fence_many
not_cancelled = ground (arith, not_added)
