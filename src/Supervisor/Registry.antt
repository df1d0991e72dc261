-- ===== src/Supervisor/Registry.antt =====
-- muxcore/supervisor/correlation.go: the registry of one direction of traffic, its errors, and the
-- monad of its methods. A method that fails gives back the state that it leaves.
pub mod Register
pub mod Tasks
pub mod Complete
pub mod Sort
pub mod Retire
pub mod Retired
pub mod Once
pub mod Progress
pub mod RetireSteps
pub mod Retirement
pub mod Fencing
pub mod Reuse
use mcp_mux.Base.{
  ℕ, String, ◌≡◌, refl, ◌⊎◌, inl, inr, Bool, true, false, ◌||◌, Option, none, some, List, [],
  string_key, nat_key,
}
use mcp_mux.Map.{Map, get, put, delete, has, size}
use mcp_mux.Supervisor.Scalar.{
  ScalarKey, TombstoneRole, scalar_key, tombstone_key, tombstone_request, tombstone_token,
  TombstoneKey,
}
use mcp_mux.Supervisor.Tombstones.{TombstoneSet, new_tombstones}
use mcp_mux.Supervisor.Tombstones
use mcp_mux.Supervisor.Fences.{PersistentFence, FenceError, new_fences}
use mcp_mux.Supervisor.Fences
use mcp_mux.Supervisor.Records.{RequestRecord, TokenRecord, TaskRecord}

pub data Error : Type 0 where
  id_missing id_retired id_tombstoned id_duplicate active_limit request_limit task_limit : Error
  token_retired token_tombstoned token_duplicate token_limit : Error
  task_active task_terminal task_retired task_tombstoned : Error
  ambiguous_task collides_task unknown_task : Error
  nonterminal_after_terminal terminal_status_changed terminal_limit : Error
  bad_operation invalid_task_result needs_create_task status_not_working : Error
  active_and_terminal current_and_retired active_and_retired terminal_and_retired : Error
  already_fenced retired_and_fenced active_and_fenced terminal_and_fenced : Error
  fence_limit : FenceError → Error

pub data Result {ℓ} (A : Type ℓ) : Type ℓ where
  ok : A → Result A
  err : Error → Result A

-- A read-only check is a `Result`; `reject` is `if b { return err }`.
infixl 5 ◌>>=◌ ◌>>◌
abbrev pub ◌>>=◌ : {A B : Type 0} → Result A → (A → Result B) → Result B
ok a >>= f = f a
err e >>= f = err e

abbrev pub ◌>>◌ : {B : Type 0} → Result (Unit {0}) → Result B → Result B
m >> k = m >>= λ _. k

abbrev pub reject : Bool → Error → Result (Unit {0})
reject true e = err e
reject false e = ok tt

pub record DirectionRegistry : Type 0 where
  pub requests : Map ScalarKey RequestRecord
  pub tokens : Map ScalarKey TokenRecord
  pub tasks : Map String TaskRecord
  pub terminal_tasks : Map String TaskRecord
  pub tombstones : TombstoneSet
  pub persistent_fences : PersistentFence
  pub retired_requests : Map ScalarKey RequestRecord
  pub retired_tokens : Map ScalarKey (Unit {0})
  pub retired_tasks : Map String TaskRecord
  pub finalized_task_statuses : Map String String

unfoldable pub new_direction_registry : DirectionRegistry
new_direction_registry = record {
  requests = [];
  tokens = [];
  tasks = [];
  terminal_tasks = [];
  tombstones = new_tombstones;
  persistent_fences = new_fences;
  retired_requests = [];
  retired_tokens = [];
  retired_tasks = [];
  finalized_task_statuses = [];
}

pub Result-cases {ℓ} :
    {A : Type ℓ} (r : Result A) → ((e : Error) × (r ≡ err e)) ⊎ ((a : A) × (r ≡ ok a))
Result-cases (ok a) = inr (a, refl)
Result-cases (err e) = inl (e, refl)

-- The new state, and the value or the error. The flag that Go returns beside an error is dropped:
-- every caller looks at the error first.
abbrev pub Outcome : Type 0 → Type 0
Outcome A = DirectionRegistry × Result A

pub Outcome-cases :
    {A : Type 0} (o : Outcome A) → ((e : Error) × (o.1 ≡ err e)) ⊎ ((a : A) × (o.1 ≡ ok a))
Outcome-cases (g, ok a) = inr (a, refl)
Outcome-cases (g, err e) = inl (e, refl)

-- `if err := step; err != nil { return err }`, and on with the state.
abbrev pub and_then : {A B : Type 0} → Outcome A → (A → DirectionRegistry → Outcome B) → Outcome B
and_then (g, ok a) k = k a g
and_then (g, err e) k = (g, err e)

-- The key is fenced off, for now or for good.
abbrev pub is_fenced : TombstoneRole → ScalarKey → DirectionRegistry → Bool
is_fenced role key g =
    Tombstones.contains role key g.tombstones || Fences.contains role key g.persistent_fences

abbrev fence_outcome : DirectionRegistry → PersistentFence × Option FenceError → Outcome (Unit {0})
fence_outcome g (f, none) = (record g { persistent_fences = f }, ok tt)
fence_outcome g (f, some e) = (record g { persistent_fences = f }, err (fence_limit e))

unfoldable pub fence_many : List TombstoneKey → DirectionRegistry → Outcome (Unit {0})
fence_many entries g = fence_outcome g (Fences.add_many entries g.persistent_fences)

unfoldable pub fence_one : TombstoneRole → ScalarKey → DirectionRegistry → Outcome (Unit {0})
fence_one role key g = fence_outcome g (Fences.add role key g.persistent_fences)

unfoldable pub entomb : TombstoneRole → ScalarKey → DirectionRegistry → DirectionRegistry
entomb role key g = record g { tombstones = Tombstones.add role key g.tombstones }

unfoldable pub clear_transition_tombstones : DirectionRegistry → DirectionRegistry
clear_transition_tombstones g = record g { tombstones = Tombstones.clear g.tombstones }

unfoldable pub clear_retired_correlations : DirectionRegistry → DirectionRegistry
clear_retired_correlations g = record g {
  retired_requests = [];
  retired_tokens = [];
  retired_tasks = [];
  finalized_task_statuses = [];
  persistent_fences = Fences.clear g.persistent_fences;
}
