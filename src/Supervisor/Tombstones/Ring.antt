-- ===== src/Supervisor/Tombstones/Ring.antt =====
-- The ring holds the latest tombstones: it refines a list from the oldest to the newest that
-- drops its head when it is full.
use mathlib.Core.List.{append_assoc, append-nil}
use native.Mathlib.Decide.{dec_lt}
use mcp_mux.Base.{
  ℕ, suc, ◌+◌, ◌%◌, ◌≤◌, ◌<◌, ◌≡◌, refl, sym, ap, ◌∙◌, inl, inr, false, some, List, [], ◌∷◌, ◌++◌,
  arith, ltb, if◌then◌else◌, Bool-cases, length, take, drop, set, get_elem?, length-append,
  length-set, take-append-drop, drop-set, take-set, drop-get_elem?, get_elem?_total,
  take_of_length-le, drop_of_length-le, elem, IsSimple, elem-append, append-IsSimple,
  elem_of_get_elem?, elem-set, set-IsSimple, ltb→lt, not-ltb→le,
}
use mcp_mux.Map.{has, put, get}
use mcp_mux.Map.Laws.{get-put, get-delete}
use mcp_mux.Supervisor.Scalar.{ScalarKey, TombstoneRole, TombstoneKey, tombstone_key}
use mcp_mux.Supervisor.Tombstones.{
  TombstoneSet, tombstone, contains, add, evict, insert, clear, tombstone_limit,
}

pub record IsRing (t : TombstoneSet) : Type 0 where
  pub same_keys : (e : TombstoneKey) → has e t.values ≡ elem e t.order
  pub simple : IsSimple t.order
  pub bounded : length t.order ≤ tombstone_limit
  pub next_bounded : t.next < tombstone_limit
  pub next_zero : length t.order < tombstone_limit → t.next ≡ 0

-- From the oldest to the newest.
unfoldable pub recent : TombstoneSet → List TombstoneKey
recent t = drop t.next t.order ++ take t.next t.order

-- The specification: a list of at most `tombstone_limit` keys, the newest last.
abbrev pub add_recent : TombstoneKey → List TombstoneKey → List TombstoneKey
add_recent e l =
    if elem e l
    then l
    else if ltb (length l) tombstone_limit
    then l ++ e ∷ []
    else drop 1 l ++ e ∷ []

elem-recent : (e : TombstoneKey) (t : TombstoneSet) → elem e (recent t) ≡ elem e t.order
unfolding recent
elem-recent e t = ground (
  arith,
  elem-append e (drop t.next t.order) (take t.next t.order),
  elem-append e (take t.next t.order) (drop t.next t.order),
  ap (elem e) (take-append-drop t.next t.order),
)

length-recent : (t : TombstoneSet) → length (recent t) ≡ length t.order
unfolding recent
length-recent t = omega (
  arith,
  length-append (drop t.next t.order) (take t.next t.order),
  length-append (take t.next t.order) (drop t.next t.order),
  ap length (take-append-drop t.next t.order),
)

-- Overwriting the oldest entry of a full ring and moving on drops it and appends the new one.
rotate-set :
    (l : List TombstoneKey) (i : ℕ) (x e : TombstoneKey)
    → get_elem? l i ≡ some x
    → i < length l
    → drop (suc i) (set l i e) ++ take (suc i) (set l i e) ≡ drop 1 (drop i l ++ take i l) ++ e ∷ []
rotate-set l i x e found h =
    rw (drop-set l i e, take-set l i e h, drop-get_elem? l i x found)
      (sym (append_assoc (drop (suc i) l) (take i l) (e ∷ [])))

wrap-set :
    (l : List TombstoneKey) (i : ℕ) (x e : TombstoneKey)
    → get_elem? l i ≡ some x
    → length l ≡ suc i
    → set l i e ++ [] ≡ drop 1 (drop i l ++ take i l) ++ e ∷ []
wrap-set l i x e found h =
    rw
      (
        append-nil (set l i e),
        ← take_of_length-le (set l i e) (suc i) (omega (arith, length-set l i e)),
      )
      (cc (
        take-set l i e (omega arith),
        drop-get_elem? l i x found,
        drop_of_length-le l (suc i) (omega arith),
      ))

full-recent :
    (e x : TombstoneKey) (t : TombstoneSet)
    → length t.order ≡ tombstone_limit
    → t.next < tombstone_limit
    → get_elem? t.order t.next ≡ some x
    → recent (evict e (some x) t) ≡ drop 1 (recent t) ++ e ∷ []
unfolding recent
full-recent e x t full h found = elim (dec_lt (suc t.next) tombstone_limit) [
  | yes room ↦
      let step : (t.next + 1) % tombstone_limit ≡ suc t.next = omega arith in
      rw step (rotate-set t.order t.next x e found (omega arith))
  | no last ↦
      let step : (t.next + 1) % tombstone_limit ≡ 0 = omega arith in
      rw step (wrap-set t.order t.next x e found (omega arith))
]

room-recent :
    (e : TombstoneKey) (t : TombstoneSet)
    → t.next ≡ 0
    → recent (record t { values = put e tt t.values; order = t.order ++ e ∷ [] })
      ≡ recent t ++ e ∷ []
unfolding recent
room-recent e t start = rw start (simp append-nil)

module _ (e : TombstoneKey) (t : TombstoneSet) (v : IsRing t) (new : has e t.values ≡ false) where
  append-IsRing :
      length t.order < tombstone_limit
      → IsRing (record t { values = put e tt t.values; order = t.order ++ e ∷ [] })
  unfolding elem
  append-IsRing h = record {
    same_keys =
        λ a. ground (arith, v.same_keys a, get-put e a tt t.values, elem-append a t.order (e ∷ []));
    simple = append-IsSimple t.order e v.simple (ground (arith, v.same_keys e));
    bounded = omega (arith, length-append t.order (e ∷ []));
    next_bounded = v.next_bounded;
    next_zero = λ _. v.next_zero h;
  }

  evict-IsRing :
      (x : TombstoneKey)
      → length t.order ≡ tombstone_limit
      → get_elem? t.order t.next ≡ some x
      → IsRing (evict e (some x) t)
  evict-IsRing x full found = record {
    same_keys = λ a. ground (
      arith,
      v.same_keys a,
      v.same_keys e,
      elem_of_get_elem? t.order t.next x found,
      get-put e a tt t.values,
      get-delete x a (put e tt t.values),
      elem-set a t.order t.next x e v.simple found,
    );
    simple = set-IsSimple t.order t.next x e v.simple found (ground (arith, v.same_keys e));
    bounded = omega (arith, length-set t.order t.next e);
    next_bounded = omega arith;
    next_zero = λ h. absurd (omega (arith, length-set t.order t.next e));
  }

  insert-IsRing : IsRing (insert e t)
  insert-IsRing = elim (Bool-cases (ltb (length t.order) tombstone_limit)) [
    | inl room ↦ rw room (append-IsRing (ltb→lt _ _ room))
    | inr full ↦
        let h : tombstone_limit ≤ length t.order = not-ltb→le _ _ full in
        let (x, found) = get_elem?_total t.order t.next (omega arith) in
        rw (full, found) (evict-IsRing x (omega arith) found)
  ]

  recent-insert : recent (insert e t) ≡ (
      if ltb (length (recent t)) tombstone_limit
      then recent t ++ e ∷ []
      else drop 1 (recent t) ++ e ∷ [])
  recent-insert = rw (length-recent t) (elim (Bool-cases (ltb (length t.order) tombstone_limit)) [
    | inl room ↦ rw room (room-recent e t (v.next_zero (ltb→lt _ _ room)))
    | inr full ↦
        let h : tombstone_limit ≤ length t.order = not-ltb→le _ _ full in
        let (x, found) = get_elem?_total t.order t.next (omega arith) in
        rw (full, found) (full-recent e x t (omega arith) v.next_bounded found)
  ])

-- Adding a key keeps the tombstone set a ring: the map and the order hold the same keys, none twice
-- and at most the limit, and the next place to overwrite is within the ring and 0 until it is full.
pub add-IsRing :
    (role : TombstoneRole) (key : ScalarKey) (t : TombstoneSet) → IsRing t → IsRing (add role key t)
unfolding add
add-IsRing role key t v = elim (Bool-cases (has (tombstone role key) t.values)) [
  | inl old ↦ rw old v
  | inr new ↦ rw new (insert-IsRing (tombstone role key) t v new)
]

-- On a ring, adding a key is what it is on the list of the latest keys: a key that is there stays
-- in its place, any other is appended, and the oldest goes once the limit is reached.
pub recent-add :
    (role : TombstoneRole) (key : ScalarKey) (t : TombstoneSet)
    → IsRing t
    → recent (add role key t) ≡ add_recent (tombstone role key) (recent t)
unfolding add
recent-add role key t v = elim (Bool-cases (has (tombstone role key) t.values)) [
  | inl old ↦ ground (arith, v.same_keys (tombstone role key), elem-recent (tombstone role key) t)
  | inr new ↦ rw new (
      ground (
        arith,
        v.same_keys (tombstone role key),
        elem-recent (tombstone role key) t,
        recent-insert (tombstone role key) t v new,
      ))
]

-- On a ring, a key is found exactly when it is among the latest keys.
pub contains-recent :
    (role : TombstoneRole) (key : ScalarKey) (t : TombstoneSet)
    → IsRing t
    → contains role key t ≡ elem (tombstone role key) (recent t)
unfolding contains
contains-recent role key t v =
    v.same_keys (tombstone role key) ∙ sym (elem-recent (tombstone role key) t)

pub clear-IsRing : (t : TombstoneSet) → IsRing (clear t)
unfolding clear get elem
clear-IsRing t = record {
  same_keys = λ e. refl;
  simple = tt;
  bounded = omega arith;
  next_bounded = omega arith;
  next_zero = λ _. refl;
}
