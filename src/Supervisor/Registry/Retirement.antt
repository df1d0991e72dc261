-- ===== src/Supervisor/Registry/Retirement.antt =====
-- What the retirement of a generation leaves.
use mcp_mux.Base.{
  ℕ, String, ◌≡◌, sym, subst, ◌∙◌, inl, inr, Option, none, some, List, [], arith, string_key,
  nat_key, ◌==◌, if◌then◌else◌, maybe,
}
use mcp_mux.Map.{get}
use mcp_mux.Map.Distinct.{IsDistinct}
use mcp_mux.Supervisor.Scalar.{ScalarKey, scalar_key, TombstoneKey}
use mcp_mux.Supervisor.Records.{RequestRecord, TaskRecord}
use mcp_mux.Supervisor.Registry.{
  Outcome-cases, Error, ok, err, DirectionRegistry, fence_many, Result-cases,
}
use mcp_mux.Supervisor.Registry.Fencing.{fence_many_atomic}
use mcp_mux.Supervisor.Registry.Retire.{
  retire_generation_checked, retirement, retire_requests, retire_tasks, retire_all,
}
use mcp_mux.Supervisor.Registry.RetireSteps.{
  tasks-retire_tasks, tasks-retire_requests, IsKeyed, requests-retire_requests,
  requests-retire_tasks, retire_terminals-others, retire_terminals_lem, fence_many-others,
}

-- A retirement that fails leaves the registry as it was.
pub retire_generation_checked_atomic :
    (generation : ℕ) (g : DirectionRegistry) (e : Error)
    → (retire_generation_checked generation g).1 ≡ err e
    → (retire_generation_checked generation g).0 ≡ g
unfolding retire_generation_checked
retire_generation_checked_atomic generation g e failed =
    elim (Result-cases (retirement generation g)) [
      | inl (e', p) ↦ rw p
      | inr (entries, p) ↦ elim (Outcome-cases (fence_many entries g)) [
        | inl (e', q) ↦ ground (arith, fence_many_atomic entries g e' q)
        | inr (u, q) ↦ ground arith
      ]
    ]

-- The maps that the retirement goes through are maps.
pub record IsProper (g : DirectionRegistry) : Type 0 where
  pub distinct_requests : IsDistinct g.requests
  pub keyed : IsKeyed g.requests
  pub distinct_tasks : IsDistinct g.tasks
  pub distinct_terminals : IsDistinct g.terminal_tasks

-- An entry of the generation goes, any other stays.
abbrev pub kept_request : ℕ → RequestRecord → Option RequestRecord
kept_request generation r = if r.generation == generation then none else some r

abbrev pub kept_task : ℕ → TaskRecord → Option TaskRecord
kept_task generation t = if t.generation == generation then none else some t

-- What `g'` has for `g` after the generation was retired.
pub record IsRetired (generation : ℕ) (g g' : DirectionRegistry) : Type 0 where
  pub request :
      (i : ScalarKey) → get i g'.requests ≡ maybe none (kept_request generation) (get i g.requests)
  pub retired_request :
      (i : ScalarKey)
      → get i g'.retired_requests
        ≡ maybe
            (get i g.retired_requests)
            (λ r. if r.generation == generation then some r else get i g.retired_requests)
            (get i g.requests)
  pub task : (i : String) → get i g'.tasks ≡ maybe none (kept_task generation) (get i g.tasks)
  pub terminal :
      (i : String)
      → get i g'.terminal_tasks ≡ maybe none (kept_task generation) (get i g.terminal_tasks)

module _ (generation : ℕ) (g : DirectionRegistry) (v : IsProper g) where
  abbrev g1 : DirectionRegistry
  g1 = (retire_requests generation g.requests g []).0

  abbrev g2 : DirectionRegistry
  g2 = retire_tasks generation g1.tasks g1

  g1-tasks : g1.tasks ≡ g.tasks
  g1-tasks = (tasks-retire_requests generation g.requests g []).0

  g2-terminals : g2.terminal_tasks ≡ g.terminal_tasks
  g2-terminals =
      (requests-retire_tasks generation g1.tasks g1).2
      ∙ (tasks-retire_requests generation g.requests g []).1

  retire_all-IsRetired : IsRetired generation g (retire_all generation g).0
  retire_all-IsRetired = record {
    request = λ i. ground (
      arith,
      requests-retire_requests generation i g.requests g [] v.distinct_requests v.keyed,
      requests-retire_tasks generation g1.tasks g1,
      retire_terminals-others generation g2.terminal_tasks g2,
    );
    retired_request = λ i. ground (
      arith,
      requests-retire_requests generation i g.requests g [] v.distinct_requests v.keyed,
      requests-retire_tasks generation g1.tasks g1,
      retire_terminals-others generation g2.terminal_tasks g2,
    );
    task = λ i. ground (
      arith,
      g1-tasks,
      tasks-retire_tasks generation i g1.tasks g1
          (subst (λ m. IsDistinct m) (sym g1-tasks) v.distinct_tasks),
      retire_terminals-others generation g2.terminal_tasks g2,
    );
    terminal = λ i. ground (
      arith,
      g2-terminals,
      retire_terminals_lem generation i g2.terminal_tasks g2
          (subst (λ m. IsDistinct m) (sym g2-terminals) v.distinct_terminals),
    );
  }

module _ (generation : ℕ) (g g' : DirectionRegistry) (requests : g'.requests ≡ g.requests)
    (retired : g'.retired_requests ≡ g.retired_requests) (tasks : g'.tasks ≡ g.tasks)
    (terminals : g'.terminal_tasks ≡ g.terminal_tasks) where
  same-IsProper : IsProper g → IsProper g'
  same-IsProper v = record {
    distinct_requests = subst (λ m. IsDistinct m) (sym requests) v.distinct_requests;
    keyed = subst IsKeyed (sym requests) v.keyed;
    distinct_tasks = subst (λ m. IsDistinct m) (sym tasks) v.distinct_tasks;
    distinct_terminals = subst (λ m. IsDistinct m) (sym terminals) v.distinct_terminals;
  }

  same-IsRetired : (h : DirectionRegistry) → IsRetired generation g' h → IsRetired generation g h
  same-IsRetired h w = record {
    request = λ i. ground (arith, w.request i, requests);
    retired_request = λ i. ground (arith, w.retired_request i, requests, retired);
    task = λ i. ground (arith, w.task i, tasks);
    terminal = λ i. ground (arith, w.terminal i, terminals);
  }

fenced-IsRetired :
    (es : List TombstoneKey) (generation : ℕ) (g : DirectionRegistry)
    → IsProper g
    → IsRetired generation g (retire_all generation (fence_many es g).0).0
fenced-IsRetired es generation g v =
    let (e1, e2, e3, e4) = fence_many-others es g in
    let g' = (fence_many es g).0 in
    same-IsRetired generation g g' e1 e2 e3 e4 (retire_all generation g').0
      (retire_all-IsRetired generation g' (same-IsProper generation g g' e1 e2 e3 e4 v))

-- If the registry's maps are maps and each request stands under its ID, a retirement that succeeds
-- moves exactly the generation's requests to the retired ones, drops exactly its active and
-- terminal tasks, and leaves those of other generations.
pub retire_generation_checked-IsRetired :
    (generation : ℕ) (g : DirectionRegistry) (lost : List RequestRecord)
    → IsProper g
    → (retire_generation_checked generation g).1 ≡ ok lost
    → IsRetired generation g (retire_generation_checked generation g).0
unfolding retire_generation_checked
retire_generation_checked-IsRetired generation g lost v success =
    elim (Result-cases (retirement generation g)) [
      | inl (e, p) ↦ absurd (ground arith)
      | inr (entries, p) ↦ elim (Outcome-cases (fence_many entries g)) [
        | inl (e, q) ↦ absurd (ground arith)
        | inr (u, q) ↦
            let retired : (retire_generation_checked generation g).0
                ≡ (retire_all generation (fence_many entries g).0).0 =
              ground arith in
            subst (IsRetired generation g) (sym retired) (fenced-IsRetired entries generation g v)
      ]
    ]
