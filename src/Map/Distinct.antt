-- ===== src/Map/Distinct.antt =====
-- Maps whose keys are distinct, as every map built by the operations is.
use mcp_mux.Base.{◌+◌, ◌≡◌, refl, [], ◌∷◌, none, Bool, Key, arith}
use mcp_mux.Map.{Map, get, put, delete, retain, dropped, size, update_all}
use mcp_mux.Map.Laws.{get-delete, get-retain, get-update_all}

module _ {K V : Type 0} ⦃k : Key K⦄ where
  abbrev pub IsDistinct : Map K V → Type 0
  IsDistinct [] = Unit
  IsDistinct ((i, v) ∷ m) = (get i m ≡ none) × IsDistinct m

  pub delete-IsDistinct : (i : K) (m : Map K V) → IsDistinct m → IsDistinct (delete i m)
  unfolding delete
  delete-IsDistinct i [] d = tt
  delete-IsDistinct i ((j, v) ∷ m) d = ground (arith, delete-IsDistinct i m d.1, get-delete i j m)

  pub put-IsDistinct : (i : K) (v : V) (m : Map K V) → IsDistinct m → IsDistinct (put i v m)
  unfolding put
  put-IsDistinct i v m d = (ground (arith, get-delete i i m), delete-IsDistinct i m d)

  pub retain-IsDistinct : (p : K → V → Bool) (m : Map K V) → IsDistinct m → IsDistinct (retain p m)
  unfolding retain
  retain-IsDistinct p [] d = tt
  retain-IsDistinct p ((j, v) ∷ m) d =
      ground (arith, retain-IsDistinct p m d.1, get-retain p j m, delete-IsDistinct j (retain p m))

  pub update_all-IsDistinct : (f : V → V) (m : Map K V) → IsDistinct m → IsDistinct (update_all f m)
  unfolding update_all
  update_all-IsDistinct f [] d = tt
  update_all-IsDistinct f ((j, v) ∷ m) d =
      ground (arith, update_all-IsDistinct f m d.1, get-update_all f j m)

  -- Deleting a key that is not there changes nothing.
  pub delete_of_none : (i : K) (m : Map K V) → get i m ≡ none → delete i m ≡ m
  unfolding delete get
  delete_of_none i [] h = refl
  delete_of_none i ((j, v) ∷ m) h = ground (arith, delete_of_none i m)

  -- What a deleting loop counts is what the map loses.
  pub dropped-size :
      (p : K → V → Bool) (m : Map K V) → IsDistinct m → dropped p m + size (retain p m) ≡ size m
  unfolding dropped retain
  dropped-size p [] d = refl
  dropped-size p ((j, v) ∷ m) d =
      ground (arith, dropped-size p m d.1, get-retain p j m, delete_of_none j (retain p m))
