-- ===== src/Supervisor/Registry/Sort/Sorted.antt =====
-- The sort of the lost requests gives a sorted permutation.
use Prim.Native.String.{[], ◌∷◌}
use Prim.Native.String.compare.{nil-cons, cons-nil, cons-cons}
use mathlib.Core.List.{Mem, Perm, Pairwise, Pairwise-singleton, forall_mem-cons}
use mathlib.Core.List.Perm
use mcp_mux.Base.{
  ◌≡◌, refl, inl, inr, String, true, false, List, [], ◌∷◌, arith, string_key, nat_key, Bool-cases,
}
use mcp_mux.Supervisor.Scalar.{ScalarKey}
use mcp_mux.Supervisor.Records.{RequestRecord}
use mcp_mux.Supervisor.Registry.Sort.{text_less, key_less, request_less, insert_request, sort_lost}

text_less_trans :
    (a b c : String) → text_less b a ≡ false → text_less c b ≡ false → text_less c a ≡ false
text_less_trans [] [] [] p q = p
text_less_trans [] [] (z ∷ c) p q = q
text_less_trans [] (y ∷ b) [] p q = refl
text_less_trans [] (y ∷ b) (z ∷ c) p q = ground (arith, cons-nil z c)
text_less_trans (x ∷ a) [] [] p q = p
text_less_trans (x ∷ a) (y ∷ b) [] p q = ground (arith, nil-cons y b)
text_less_trans (x ∷ a) [] (z ∷ c) p q = absurd (ground (arith, nil-cons x a))
text_less_trans (x ∷ a) (y ∷ b) (z ∷ c) p q =
    ground (arith, cons-cons y x b a, cons-cons z y c b, cons-cons z x c a, text_less_trans a b c)

key_less_trans :
    (a b c : ScalarKey) → key_less b a ≡ false → key_less c b ≡ false → key_less c a ≡ false
key_less_trans a b c p q = ground (arith, text_less_trans a.value b.value c.value)

text_less_asym : (a b : String) → text_less a b ≡ true → text_less b a ≡ false
text_less_asym [] [] p = refl
text_less_asym [] (y ∷ b) p = ground (arith, cons-nil y b)
text_less_asym (x ∷ a) [] p = absurd (ground (arith, cons-nil x a))
text_less_asym (x ∷ a) (y ∷ b) p =
    ground (arith, cons-cons x y a b, cons-cons y x b a, text_less_asym a b)

key_less_asym : (a b : ScalarKey) → key_less a b ≡ true → key_less b a ≡ false
key_less_asym a b p = ground (arith, text_less_asym a.value b.value)

IsBelow : RequestRecord → List RequestRecord → Type 0
IsBelow x l = (y : RequestRecord) → Mem y l → request_less y x ≡ false

-- No element is less than one before it.
abbrev pub IsSorted : List RequestRecord → Type 0
IsSorted = Pairwise λ a b. request_less b a ≡ false

IsBelow-cons :
    (x y : RequestRecord) (l : List RequestRecord)
    → request_less y x ≡ false
    → IsBelow x l
    → IsBelow x (y ∷ l)
unfolding IsBelow
IsBelow-cons x y l p h =
    (forall_mem-cons {p = λ z. request_less z x ≡ false} (λ z. hlevel)).1 (p, h)

IsBelow-perm : (x : RequestRecord) {l r : List RequestRecord} → Perm l r → IsBelow x r → IsBelow x l
unfolding IsBelow
IsBelow-perm x p h y m = h y ((Perm.mem_iff p).0 m)

insert_request-perm :
    (x : RequestRecord) (l : List RequestRecord) → Perm (insert_request x l) (x ∷ l)
unfolding insert_request
insert_request-perm x [] = Perm.rfl
insert_request-perm x (y ∷ ys) = elim (Bool-cases (request_less y x)) [
  | inl less ↦ rw less (Perm.trans (Perm.cons y (insert_request-perm x ys)) (Perm.swap x y ys))
  | inr more ↦ rw more Perm.rfl
]

insert_request-IsSorted :
    (x : RequestRecord) {l : List RequestRecord} → IsSorted l → IsSorted (insert_request x l)
unfolding insert_request IsBelow
insert_request-IsSorted x Pairwise.nil = Pairwise-singleton _ x
insert_request-IsSorted x (Pairwise.cons {a = y} {l = ys} below s) =
    elim (Bool-cases (request_less y x)) [
      | inl less ↦ rw less (
          Pairwise.cons
            (IsBelow-perm y (insert_request-perm x ys)
              (IsBelow-cons y x ys (key_less_asym y.id.key x.id.key less) below))
            (insert_request-IsSorted x s))
      | inr more ↦ rw more (
          Pairwise.cons
            (IsBelow-cons x y ys more
              λ z m. key_less_trans x.id.key y.id.key z.id.key more (below z m))
            (Pairwise.cons below s))
    ]

pub sort_lost-perm : (l : List RequestRecord) → Perm (sort_lost l) l
unfolding sort_lost
sort_lost-perm [] = Perm.rfl
sort_lost-perm (x ∷ l) =
    Perm.trans (insert_request-perm x (sort_lost l)) (Perm.cons x (sort_lost-perm l))

pub sort_lost-IsSorted : (l : List RequestRecord) → IsSorted (sort_lost l)
unfolding sort_lost
sort_lost-IsSorted [] = Pairwise.nil
sort_lost-IsSorted (x ∷ l) = insert_request-IsSorted x (sort_lost-IsSorted l)
