-- ===== src/Supervisor/Fences/Atomic.antt =====
-- Fencing several keys at once either succeeds or changes nothing.
use mcp_mux.Base.{
  ◌+◌, ◌≤◌, ◌≡◌, refl, inl, inr, not, ◌&&◌, ◌||◌, none, some, List, [], ◌∷◌, arith, if◌then◌else◌,
  Option-cases, elem,
}
use mcp_mux.Map.{size}
use mcp_mux.Supervisor.Scalar.{
  ScalarKey, TombstoneRole, tombstone_request, tombstone_token, tombstone_task, TombstoneKey,
  scalar_key, tombstone_key,
}
use mcp_mux.Supervisor.Fences.Room.{
  of_key, count_of, count_of_cons, count_of_nil, HasRoom, add_all_ok, contains-add_all,
  size-add_all,
}
use mcp_mux.Supervisor.Fences.{
  persistent_fence_limit, PersistentFence, values, contains, FenceError, Additions, additions_of,
  count, is_known, collect, check, add_many,
}

additions_of-count :
    (role : TombstoneRole) (e : TombstoneKey) (n : Additions)
    → additions_of role (count e.role n)
      ≡ additions_of role n + count_of role (of_key e.role e.key ∷ [])
unfolding count_of
additions_of-count tombstone_request e n = ground arith
additions_of-count tombstone_token e n = ground arith
additions_of-count tombstone_task e n = ground arith

-- The counters count the entries collected.
count-collect :
    (role : TombstoneRole) (f : PersistentFence) (es pending : List TombstoneKey) (n : Additions)
    → additions_of role n ≡ count_of role pending
    → let r = collect f es pending n in additions_of role r.1 ≡ count_of role r.0
unfolding collect
count-collect role f [] pending n h = h
count-collect role f (e ∷ es) pending n h =
    count-collect role f es (if is_known f e pending then pending else e ∷ pending)
      (if is_known f e pending then n else count e.role n)
      (ground (arith, h, additions_of-count role e n, count_of_cons role e pending))

elem-collect :
    (a : TombstoneKey) (f : PersistentFence) (es pending : List TombstoneKey) (n : Additions)
    → elem a (collect f es pending n).0
      ≡ (elem a pending || (elem a es && not (contains a.role a.key f)))
unfolding collect elem
elem-collect a f [] pending n = ground arith
elem-collect a f (e ∷ es) pending n =
    ground
      (arith, elem-collect a f es pending n, elem-collect a f es (e ∷ pending) (count e.role n))

count_of-collect-le :
    (role : TombstoneRole) (f : PersistentFence) (es pending : List TombstoneKey) (n : Additions)
    → count_of role (collect f es pending n).0 ≤ count_of role pending + count_of role es
unfolding collect count_of
count_of-collect-le role f [] pending n = omega arith
count_of-collect-le role f (e ∷ es) pending n = ground (
  arith,
  count_of-collect-le role f es pending n,
  count_of-collect-le role f es (e ∷ pending) (count e.role n),
)

-- What a first pass over the entries leaves to add.
abbrev new_entries : List TombstoneKey → PersistentFence → List TombstoneKey × Additions
new_entries es f = collect f es [] (record { requests = 0; tokens = 0; tasks = 0 })

counted :
    (role : TombstoneRole) (es : List TombstoneKey) (f : PersistentFence)
    → additions_of role (new_entries es f).1 ≡ count_of role (new_entries es f).0
unfolding count_of
counted tombstone_request es f = count-collect tombstone_request f es [] _ refl
counted tombstone_token es f = count-collect tombstone_token f es [] _ refl
counted tombstone_task es f = count-collect tombstone_task f es [] _ refl

check-HasRoom :
    (es : List TombstoneKey) (f : PersistentFence)
    → check (new_entries es f).1 f ≡ none
    → HasRoom (new_entries es f).0 f
check-HasRoom es f ok = record { at = λ role. room role }
  where
    room :
        (role : TombstoneRole)
        → size (values role f) + count_of role (new_entries es f).0 ≤ persistent_fence_limit
    room tombstone_request = ground (arith, counted tombstone_request es f)
    room tombstone_token = ground (arith, counted tombstone_token es f)
    room tombstone_task = ground (arith, counted tombstone_task es f)

-- Fencing several keys at once is all or nothing: where it fails no fence has changed.
pub add_many_atomic :
    (es : List TombstoneKey) (f : PersistentFence) (e : FenceError)
    → (add_many es f).1 ≡ some e
    → (add_many es f).0 ≡ f
unfolding add_many
add_many_atomic es f e failed = elim (Option-cases (check (new_entries es f).1 f)) [
  | inr (e', out) ↦ rw out
  | inl ok ↦ ground (arith, add_all_ok (new_entries es f).0 f (check-HasRoom es f ok))
]

module _ (es : List TombstoneKey) (f : PersistentFence) (ok : (add_many es f).1 ≡ none) where
  checked : check (new_entries es f).1 f ≡ none
  unfolding add_many
  checked = ground arith

  -- Where fencing several keys succeeds, the fenced keys are those of before and the given ones.
  pub contains-add_many :
      (role : TombstoneRole) (key : ScalarKey)
      → contains role key (add_many es f).0 ≡ (contains role key f || elem (of_key role key) es)
  unfolding add_many elem
  contains-add_many role key = rw checked (
      ground (
        arith,
        contains-add_all role key (new_entries es f).0 f (check-HasRoom es f checked),
        elem-collect (of_key role key) f es [] (record { requests = 0; tokens = 0; tasks = 0 }),
      ))

  -- Where fencing several keys succeeds, no role has more fences than the limit.
  pub size-add_many :
      (role : TombstoneRole) → size (values role (add_many es f).0) ≤ persistent_fence_limit
  unfolding add_many
  size-add_many role =
      let room = check-HasRoom es f checked in
      rw checked (omega (arith, room.at role, size-add_all role (new_entries es f).0 f room))

-- Fencing several keys succeeds whenever each role has room for all the entries given for it,
-- counted with repetitions.
pub add_many_ok :
    (es : List TombstoneKey) (f : PersistentFence) → HasRoom es f → (add_many es f).1 ≡ none
unfolding add_many
add_many_ok es f room =
    let ok : check (new_entries es f).1 f ≡ none = ground (
      arith,
      room.at tombstone_request,
      room.at tombstone_token,
      room.at tombstone_task,
      counted tombstone_request es f,
      counted tombstone_token es f,
      counted tombstone_task es f,
      bound tombstone_request,
      bound tombstone_token,
      bound tombstone_task,
    ) in
    ground (arith, ok, add_all_ok (new_entries es f).0 f (check-HasRoom es f ok))
  where
    bound : (role : TombstoneRole) → count_of role (new_entries es f).0 ≤ count_of role es
    bound role = ground (
      arith,
      count_of-collect-le role f es [] (record { requests = 0; tokens = 0; tasks = 0 }),
      count_of_nil role,
    )
