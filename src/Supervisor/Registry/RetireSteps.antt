-- ===== src/Supervisor/Registry/RetireSteps.antt =====
-- What each loop of a retirement does to the maps.
use mcp_mux.Base.{
  ℕ, String, ◌≡◌, refl, inl, inr, ite, not, ◌&&◌, none, some, List, [], ◌∷◌, ◌++◌, arith, eq_dec,
  string_key, nat_key, ◌==◌, if◌then◌else◌, Option-cases, maybe,
}
use mcp_mux.Map.{Map, get, put, delete}
use mcp_mux.Map.Laws.{get-put, get-delete}
use mcp_mux.Map.Distinct.{IsDistinct}
use mcp_mux.Supervisor.Scalar.{ScalarKey, scalar_key, TombstoneKey}
use mcp_mux.Supervisor.Fences
use mcp_mux.Supervisor.Records.{RequestRecord, TaskRecord}
use mcp_mux.Supervisor.Registry.{DirectionRegistry, fence_many}
use mcp_mux.Supervisor.Registry.Retire.{
  retire_request, retire_requests, retire_task, retire_tasks, retire_terminals,
}

pub tasks-retire_task :
    (l i : String) (t : TaskRecord) (g : DirectionRegistry)
    → get i (retire_task l t g).tasks ≡ ite (eq_dec l i) none (get i g.tasks)
unfolding retire_task
tasks-retire_task l i t g = elim (Option-cases t.progress_token) [
  | inl p ↦ ground (arith, get-delete l i g.tasks)
  | inr (token, p) ↦ ground (arith, get-delete l i g.tasks)
]

pub tasks-retire_tasks :
    (generation : ℕ) (i : String) (m : Map String TaskRecord) (g : DirectionRegistry)
    → IsDistinct m
    → get i (retire_tasks generation m g).tasks
      ≡ maybe
          (get i g.tasks)
          (λ t. if t.generation == generation then none else get i g.tasks)
          (get i m)
unfolding retire_tasks get
tasks-retire_tasks generation i [] g d = refl
tasks-retire_tasks generation i ((l, t) ∷ m) g d =
    let ours = t.generation == generation in
    ground (
      arith,
      tasks-retire_tasks generation i m (if ours then retire_task l t g else g),
      tasks-retire_task l i t g,
    )

pub tasks-retire_requests :
    (generation : ℕ) (m : Map ScalarKey RequestRecord) (g : DirectionRegistry)
    (lost : List RequestRecord)
    → ((retire_requests generation m g lost).0.tasks ≡ g.tasks)
      × ((retire_requests generation m g lost).0.terminal_tasks ≡ g.terminal_tasks)
unfolding retire_requests retire_request
tasks-retire_requests generation [] g lost = (refl, refl)
tasks-retire_requests generation ((key, r) ∷ m) g lost =
    let ours = r.generation == generation in
    let next = if ours then retire_request r g else g in
    let lost' = if ours && not r.initialize then lost ++ r ∷ [] else lost in
    elim (Option-cases r.progress_token) [
      | inl p ↦ ground (arith, tasks-retire_requests generation m next lost')
      | inr (token, p) ↦ ground (arith, tasks-retire_requests generation m next lost')
    ]

-- Each request stands under its ID.
abbrev pub IsKeyed : Map ScalarKey RequestRecord → Type 0
IsKeyed [] = Unit
IsKeyed ((key, r) ∷ m) = (r.id.key ≡ key) × IsKeyed m

pub requests-retire_request :
    (i : ScalarKey) (r : RequestRecord) (g : DirectionRegistry)
    → (get i (retire_request r g).requests ≡ ite (eq_dec r.id.key i) none (get i g.requests))
      × (get i (retire_request r g).retired_requests
          ≡ ite (eq_dec r.id.key i) (some r) (get i g.retired_requests))
unfolding retire_request
requests-retire_request i r g = elim (Option-cases r.progress_token) [
  | inl p ↦
      ground (arith, get-delete r.id.key i g.requests, get-put r.id.key i r g.retired_requests)
  | inr (token, p) ↦
      ground (arith, get-delete r.id.key i g.requests, get-put r.id.key i r g.retired_requests)
]

pub requests-retire_requests :
    (generation : ℕ) (i : ScalarKey) (m : Map ScalarKey RequestRecord) (g : DirectionRegistry)
    (lost : List RequestRecord)
    → IsDistinct m
    → IsKeyed m
    → (get i (retire_requests generation m g lost).0.requests
        ≡ maybe
            (get i g.requests)
            (λ r. if r.generation == generation then none else get i g.requests)
            (get i m))
      × (get i (retire_requests generation m g lost).0.retired_requests
          ≡ maybe
              (get i g.retired_requests)
              (λ r. if r.generation == generation then some r else get i g.retired_requests)
              (get i m))
unfolding retire_requests get
requests-retire_requests generation i [] g lost d k = (refl, refl)
requests-retire_requests generation i ((key, r) ∷ m) g lost d k =
    let ours = r.generation == generation in
    let next = if ours then retire_request r g else g in
    let lost' = if ours && not r.initialize then lost ++ r ∷ [] else lost in
    ground
      (arith, requests-retire_requests generation i m next lost', requests-retire_request i r g)

pub requests-retire_tasks :
    (generation : ℕ) (m : Map String TaskRecord) (g : DirectionRegistry)
    → ((retire_tasks generation m g).requests ≡ g.requests)
      × ((retire_tasks generation m g).retired_requests ≡ g.retired_requests)
      × ((retire_tasks generation m g).terminal_tasks ≡ g.terminal_tasks)
unfolding retire_tasks retire_task
requests-retire_tasks generation [] g = (refl, refl, refl)
requests-retire_tasks generation ((id, t) ∷ m) g =
    let next = if t.generation == generation then retire_task id t g else g in
    elim (Option-cases t.progress_token) [
      | inl p ↦ ground (arith, requests-retire_tasks generation m next)
      | inr (token, p) ↦ ground (arith, requests-retire_tasks generation m next)
    ]

abbrev pub terminal_next : ℕ → String → TaskRecord → DirectionRegistry → DirectionRegistry
terminal_next generation id t g =
    if t.generation == generation
    then record g {
      finalized_task_statuses = put id t.status g.finalized_task_statuses;
      terminal_tasks = delete id g.terminal_tasks;
    }
    else g

pub retire_terminals-others :
    (generation : ℕ) (m : Map String TaskRecord) (g : DirectionRegistry)
    → ((retire_terminals generation m g).requests ≡ g.requests)
      × ((retire_terminals generation m g).retired_requests ≡ g.retired_requests)
      × ((retire_terminals generation m g).tasks ≡ g.tasks)
unfolding retire_terminals
retire_terminals-others generation [] g = (refl, refl, refl)
retire_terminals-others generation ((id, t) ∷ m) g =
    ground (arith, retire_terminals-others generation m (terminal_next generation id t g))

pub retire_terminals_lem :
    (generation : ℕ) (i : String) (m : Map String TaskRecord) (g : DirectionRegistry)
    → IsDistinct m
    → get i (retire_terminals generation m g).terminal_tasks
      ≡ maybe
          (get i g.terminal_tasks)
          (λ t. if t.generation == generation then none else get i g.terminal_tasks)
          (get i m)
unfolding retire_terminals get
retire_terminals_lem generation i [] g d = refl
retire_terminals_lem generation i ((id, t) ∷ m) g d = ground (
  arith,
  retire_terminals_lem generation i m (terminal_next generation id t g),
  get-delete id i g.terminal_tasks,
)

pub fence_many-others :
    (es : List TombstoneKey) (g : DirectionRegistry)
    → ((fence_many es g).0.requests ≡ g.requests)
      × ((fence_many es g).0.retired_requests ≡ g.retired_requests)
      × ((fence_many es g).0.tasks ≡ g.tasks)
      × ((fence_many es g).0.terminal_tasks ≡ g.terminal_tasks)
unfolding fence_many
fence_many-others es g = elim (Option-cases (Fences.add_many es g.persistent_fences).1) [
  | inl p ↦ ground arith
  | inr (e, p) ↦ ground arith
]
