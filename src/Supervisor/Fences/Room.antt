-- ===== src/Supervisor/Fences/Room.antt =====
-- Adding fences one by one where there is room for all of them.
use mcp_mux.Base.{
  ℕ, ◌+◌, ◌≤◌, ◌<◌, ◌≡◌, refl, ite, ◌||◌, none, List, [], ◌∷◌, arith, elem, elem-cons,
}
use mcp_mux.Map.{size}
use mcp_mux.Map.Laws.{get-put, size-put-le}
use mcp_mux.Supervisor.Scalar.{
  ScalarKey, TombstoneRole, TombstoneKey, scalar_key, tombstone_key, TombstoneRole-discrete,
}
use mcp_mux.Supervisor.Fences.{
  persistent_fence_limit, PersistentFence, values, contains, add, add_all,
}

-- The entries of a role.
unfoldable pub count_of : TombstoneRole → List TombstoneKey → ℕ
count_of role [] = 0
count_of role (e ∷ l) =
    let rest = count_of role l in ite (TombstoneRole-discrete e.role role) (rest + 1) rest

abbrev pub of_key : TombstoneRole → ScalarKey → TombstoneKey
of_key role key = record { role = role; key = key }

pub contains-add :
    (role role' : TombstoneRole) (key key' : ScalarKey) (f : PersistentFence)
    → (add role key f).1 ≡ none
    → contains role' key' (add role key f).0
      ≡ (elem (of_key role' key') (of_key role key ∷ []) || contains role' key' f)
unfolding add contains elem
contains-add role role' key key' f e = ground (arith, get-put key key' tt (values role f))

size-add :
    (role role' : TombstoneRole) (key : ScalarKey) (f : PersistentFence)
    → size (values role' (add role key f).0)
      ≤ size (values role' f) + count_of role' (of_key role key ∷ [])
unfolding add count_of
size-add role role' key f = ground (arith, size-put-le key tt (values role f))

add_room :
    (role : TombstoneRole) (key : ScalarKey) (f : PersistentFence)
    → size (values role f) < persistent_fence_limit
    → (add role key f).1 ≡ none
unfolding add
add_room role key f h = ground arith

-- Every role has room for its entries.
pub record HasRoom (pending : List TombstoneKey) (f : PersistentFence) : Type 0 where
  pub at :
      (role : TombstoneRole) → size (values role f) + count_of role pending ≤ persistent_fence_limit

pub count_of_nil : (role : TombstoneRole) → count_of role [] ≡ 0
unfolding count_of
count_of_nil role = refl

pub count_of_cons :
    (role : TombstoneRole) (e : TombstoneKey) (l : List TombstoneKey)
    → count_of role (e ∷ l) ≡ count_of role (of_key e.role e.key ∷ []) + count_of role l
unfolding count_of
count_of_cons role e l = ground arith

count_of_self :
    (e : TombstoneKey) (l : List TombstoneKey) → count_of e.role (e ∷ l) ≡ count_of e.role l + 1
unfolding count_of
count_of_self e l = ground arith

add-HasRoom :
    (e : TombstoneKey) (pending : List TombstoneKey) (f : PersistentFence)
    → HasRoom (e ∷ pending) f
    → ((add e.role e.key f).1 ≡ none) × HasRoom pending (add e.role e.key f).0
add-HasRoom e pending f room = (
  add_room e.role e.key f (omega (arith, room.at e.role, count_of_self e pending)),
  record {
    at = λ role.
        omega (arith, room.at role, count_of_cons role e pending, size-add e.role role e.key f);
  },
)

-- With room for all of them the entries are all added, and nothing else is.
pub add_all_ok :
    (pending : List TombstoneKey) (f : PersistentFence)
    → HasRoom pending f
    → (add_all pending f).1 ≡ none
unfolding add_all
add_all_ok [] f room = refl
add_all_ok (e ∷ pending) f room =
    let (ok, room') = add-HasRoom e pending f room in
    ground (arith, add_all_ok pending (add e.role e.key f).0 room')

pub contains-add_all :
    (role : TombstoneRole) (key : ScalarKey) (pending : List TombstoneKey) (f : PersistentFence)
    → HasRoom pending f
    → contains role key (add_all pending f).0
      ≡ (elem (of_key role key) pending || contains role key f)
unfolding add_all
contains-add_all role key [] f room = unfold elem in refl
contains-add_all role key (e ∷ pending) f room =
    let (ok, room') = add-HasRoom e pending f room in
    ground (
      arith,
      contains-add_all role key pending (add e.role e.key f).0 room',
      contains-add e.role role e.key key f ok,
      elem-cons (of_key role key) e pending,
    )

pub size-add_all :
    (role : TombstoneRole) (pending : List TombstoneKey) (f : PersistentFence)
    → HasRoom pending f
    → size (values role (add_all pending f).0) ≤ size (values role f) + count_of role pending
unfolding add_all
size-add_all role [] f room = omega arith
size-add_all role (e ∷ pending) f room =
    let (ok, room') = add-HasRoom e pending f room in
    ground (
      arith,
      size-add_all role pending (add e.role e.key f).0 room',
      size-add e.role role e.key f,
      count_of_cons role e pending,
    )
