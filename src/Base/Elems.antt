-- ===== src/Base/Elems.antt =====
-- Membership in a list of keys, as a test, and lists without repetition.
use Prim.Native.Nat.{ℕ, zero, suc}
use mathlib.Core.Path.{◌≡◌, refl}
use mathlib.Core.Logic.{ite}
use mathlib.Core.Bool.{Bool, true, false, ◌||◌}
use mathlib.Core.List.{List, [], ◌∷◌, ◌++◌}
use mathlib.Core.Option.{some}
use native.Mathlib.Omega.{arith}
use mcp_mux.Base.Keys.{Key, eq_dec}
use mcp_mux.Base.Lists.{set, get_elem?}

module _ {ℓ} {A : Type ℓ} ⦃k : Key A⦄ where
  unfoldable pub elem : A → List A → Bool
  elem a [] = false
  elem a (x ∷ xs) = ite (eq_dec x a) true (elem a xs)

  -- No element occurs twice.
  abbrev pub IsSimple : List A → Type 0
  IsSimple [] = Unit
  IsSimple (x ∷ xs) = (elem x xs ≡ false) × IsSimple xs

  pub elem-append : (a : A) (xs ys : List A) → elem a (xs ++ ys) ≡ (elem a xs || elem a ys)
  unfolding elem
  elem-append a [] ys = refl
  elem-append a (x ∷ xs) ys = ground (arith, elem-append a xs ys)

  pub append-IsSimple :
      (xs : List A) (a : A) → IsSimple xs → elem a xs ≡ false → IsSimple (xs ++ a ∷ [])
  unfolding elem
  append-IsSimple [] a s e = (refl, tt)
  append-IsSimple (x ∷ xs) a s e =
      (ground (arith, elem-append x xs (a ∷ [])), append-IsSimple xs a s.1 (ground arith))

  pub elem_of_get_elem? : (xs : List A) (i : ℕ) (x : A) → get_elem? xs i ≡ some x → elem x xs ≡ true
  unfolding elem
  elem_of_get_elem? [] i x e = ground arith
  elem_of_get_elem? (y ∷ xs) zero x e = ground arith
  elem_of_get_elem? (y ∷ xs) (suc i) x e = ground (arith, elem_of_get_elem? xs i x)

  -- Overwriting takes one element out and puts one in.
  pub elem-set :
      (a : A) (xs : List A) (i : ℕ) (x v : A)
      → IsSimple xs
      → get_elem? xs i ≡ some x
      → elem a (set xs i v) ≡ ite (eq_dec v a) true (ite (eq_dec x a) false (elem a xs))
  unfolding elem
  elem-set a [] i x v s e = ground arith
  elem-set a (y ∷ xs) zero x v s e = ground arith
  elem-set a (y ∷ xs) (suc i) x v s e =
      ground (arith, elem-set a xs i x v s.1, elem_of_get_elem? xs i x)

  pub set-IsSimple :
      (xs : List A) (i : ℕ) (x v : A)
      → IsSimple xs
      → get_elem? xs i ≡ some x
      → elem v xs ≡ false
      → IsSimple (set xs i v)
  unfolding elem
  set-IsSimple [] i x v s e n = tt
  set-IsSimple (y ∷ xs) zero x v s e n = (ground arith, s.1)
  set-IsSimple (y ∷ xs) (suc i) x v s e n =
      (ground (arith, elem-set y xs i x v s.1), set-IsSimple xs i x v s.1 e (ground arith))

  pub elem-cons : (a x : A) (xs : List A) → elem a (x ∷ xs) ≡ (elem a (x ∷ []) || elem a xs)
  unfolding elem
  elem-cons a x xs = ground arith

  pub elem_self : (a : A) (xs : List A) → elem a (a ∷ xs) ≡ true
  unfolding elem
  elem_self a xs = ground arith
