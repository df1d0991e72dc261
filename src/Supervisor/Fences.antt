-- ===== src/Supervisor/Fences.antt =====
-- muxcore/supervisor/correlation.go: the persistent fences, a bounded set of keys for each role.
-- A method gives the fences back also where it fails; a loop over the map `pending` takes some
-- order, here that of the entries.
pub mod Room
pub mod Atomic
use mcp_mux.Base.{
  ℕ, ◌+◌, Bool, not, ◌||◌, Option, none, some, List, [], ◌∷◌, map, leb, if◌then◌else◌, set, elem,
}
use mcp_mux.Map.{Map, has, put, size}
use mcp_mux.Supervisor.Scalar.{
  ScalarKey, TombstoneRole, tombstone_request, tombstone_token, tombstone_task, TombstoneKey,
  scalar_key, tombstone_key,
}

abbrev pub persistent_fence_limit : ℕ
persistent_fence_limit = 1024

pub record PersistentFence : Type 0 where
  pub requests : Map ScalarKey (Unit {0})
  pub tokens : Map ScalarKey (Unit {0})
  pub tasks : Map ScalarKey (Unit {0})

abbrev pub new_fences : PersistentFence
new_fences = record { requests = []; tokens = []; tasks = [] }

-- `fence.values[role]`
abbrev pub values : TombstoneRole → PersistentFence → Map ScalarKey (Unit {0})
values tombstone_request f = f.requests
values tombstone_token f = f.tokens
values tombstone_task f = f.tasks

abbrev pub with_values :
    TombstoneRole → Map ScalarKey (Unit {0}) → PersistentFence → PersistentFence
with_values tombstone_request m f = record f { requests = m }
with_values tombstone_token m f = record f { tokens = m }
with_values tombstone_task m f = record f { tasks = m }

unfoldable pub contains : TombstoneRole → ScalarKey → PersistentFence → Bool
contains role key f = has key (values role f)

pub data FenceError : Type 0 where
  limit_reached : TombstoneRole → FenceError

unfoldable pub add :
    TombstoneRole → ScalarKey → PersistentFence → PersistentFence × Option FenceError
add role key f =
    if has key (values role f)
    then (f, none)
    else if leb persistent_fence_limit (size (values role f))
    then (f, some (limit_reached role))
    else (with_values role (put key tt (values role f)) f, none)

-- How many keys of each role are new.
pub record Additions : Type 0 where
  pub requests : ℕ
  pub tokens : ℕ
  pub tasks : ℕ

abbrev pub additions_of : TombstoneRole → Additions → ℕ
additions_of tombstone_request n = n.requests
additions_of tombstone_token n = n.tokens
additions_of tombstone_task n = n.tasks

abbrev pub count : TombstoneRole → Additions → Additions
count tombstone_request n = record n { requests = n.requests + 1 }
count tombstone_token n = record n { tokens = n.tokens + 1 }
count tombstone_task n = record n { tasks = n.tasks + 1 }

-- The entry needs no place: it is there, or has been seen.
abbrev pub is_known : PersistentFence → TombstoneKey → List TombstoneKey → Bool
is_known f e pending = contains e.role e.key f || elem e pending

unfoldable pub collect :
    PersistentFence
    → List TombstoneKey
    → List TombstoneKey
    → Additions
    → List TombstoneKey × Additions
collect f [] pending additions = (pending, additions)
collect f (e ∷ entries) pending additions =
    let known = is_known f e pending in
    collect f entries (if known then pending else e ∷ pending)
      (if known then additions else count e.role additions)

abbrev pub fits : TombstoneRole → Additions → PersistentFence → Bool
fits role additions f =
    leb (size (values role f) + additions_of role additions) persistent_fence_limit

abbrev pub check : Additions → PersistentFence → Option FenceError
check additions f =
    if not (fits tombstone_request additions f)
    then some (limit_reached tombstone_request)
    else if not (fits tombstone_token additions f)
    then some (limit_reached tombstone_token)
    else if not (fits tombstone_task additions f)
    then some (limit_reached tombstone_task)
    else none

-- The first failure ends the loop; what was added stays.
abbrev pub or_stop :
    PersistentFence × Option FenceError
    → (PersistentFence → PersistentFence × Option FenceError)
    → PersistentFence × Option FenceError
or_stop (f, none) k = k f
or_stop (f, some e) k = (f, some e)

unfoldable pub add_all : List TombstoneKey → PersistentFence → PersistentFence × Option FenceError
add_all [] f = (f, none)
add_all (e ∷ pending) f = or_stop (add e.role e.key f) (add_all pending)

abbrev pub admit :
    List TombstoneKey → Option FenceError → PersistentFence → PersistentFence × Option FenceError
admit pending (some e) f = (f, some e)
admit pending none f = add_all pending f

unfoldable pub add_many : List TombstoneKey → PersistentFence → PersistentFence × Option FenceError
add_many entries f =
    let (pending, additions) =
      collect f entries [] (record { requests = 0; tokens = 0; tasks = 0 }) in
    admit pending (check additions f) f

unfoldable pub clear : PersistentFence → PersistentFence
clear f = record { requests = []; tokens = []; tasks = [] }
