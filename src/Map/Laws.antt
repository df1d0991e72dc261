-- ===== src/Map/Laws.antt =====
-- The laws of Go's maps that the clients use: what `get` finds after each change, and the sizes.
use mcp_mux.Base.{
  ◌+◌, ◌≤◌, ◌<◌, ◌≡◌, refl, [], ◌∷◌, none, some, Bool, ite, Key, eq_dec, arith, maybe,
  if◌then◌else◌,
}
use mcp_mux.Map.{Map, get, put, delete, retain, size, update_all}

module _ {K V : Type 0} ⦃k : Key K⦄ where
  pub get-delete : (i j : K) (m : Map K V) → get j (delete i m) ≡ ite (eq_dec i j) none (get j m)
  unfolding get delete
  get-delete i j [] = ground arith
  get-delete i j ((l, v) ∷ m) = ground (arith, get-delete i j m)

  pub get-put :
      (i j : K) (v : V) (m : Map K V) → get j (put i v m) ≡ ite (eq_dec i j) (some v) (get j m)
  unfolding get put
  get-put i j v m = ground (arith, get-delete i j m)

  pub get-retain :
      (p : K → V → Bool) (j : K) (m : Map K V)
      → get j (retain p m) ≡ maybe none (λ v. if p j v then some v else none) (get j m)
  unfolding get retain
  get-retain p j [] = refl
  get-retain p j ((l, v) ∷ m) = ground (arith, get-retain p j m, get-delete l j (retain p m))

  pub get-update_all :
      (f : V → V) (j : K) (m : Map K V)
      → get j (update_all f m) ≡ maybe none (λ v. some (f v)) (get j m)
  unfolding get update_all
  get-update_all f j [] = refl
  get-update_all f j ((l, v) ∷ m) = ground (arith, get-update_all f j m)

  pub size-delete-le : (i : K) (m : Map K V) → size (delete i m) ≤ size m
  unfolding delete
  size-delete-le i [] = omega arith
  size-delete-le i ((l, v) ∷ m) = ground (arith, size-delete-le i m)

  -- A key that is there goes, so the map shrinks.
  pub size-delete-lt : (i : K) (v : V) (m : Map K V) → get i m ≡ some v → size (delete i m) < size m
  unfolding get delete
  size-delete-lt i v [] h = ground arith
  size-delete-lt i v ((l, w) ∷ m) h = ground (arith, size-delete-le i m, size-delete-lt i v m)

  pub size-put-le : (i : K) (v : V) (m : Map K V) → size (put i v m) ≤ size m + 1
  unfolding put
  size-put-le i v m = omega (arith, size-delete-le i m)

  -- Overwriting adds no key.
  pub size-put_old : (i : K) (v w : V) (m : Map K V) → get i m ≡ some w → size (put i v m) ≤ size m
  unfolding put
  size-put_old i v w m h = omega (arith, size-delete-lt i w m h)

  pub size-retain-le : (p : K → V → Bool) (m : Map K V) → size (retain p m) ≤ size m
  unfolding retain
  size-retain-le p [] = omega arith
  size-retain-le p ((l, v) ∷ m) = ground (arith, size-retain-le p m, size-delete-le l (retain p m))

  pub size-update_all : (f : V → V) (m : Map K V) → size (update_all f m) ≡ size m
  unfolding update_all
  size-update_all f [] = refl
  size-update_all f ((l, v) ∷ m) = omega (arith, size-update_all f m)
