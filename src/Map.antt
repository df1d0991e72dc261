-- ===== src/Map.antt =====
-- Go's `map[K]V` as an association list, newest key first. A range loop visits the entries in some
-- order; here it is the list's, and the laws below do not speak of it.
pub mod Laws
pub mod Distinct
use mcp_mux.Base.{
  ℕ, ◌+◌, List, [], ◌∷◌, Option, none, some, Bool, ite, Key, eq_dec, length, is_some, if◌then◌else◌,
}

abbrev pub Map : Type 0 → Type 0 → Type 0
Map K V = List (K × V)

module _ {K V : Type 0} ⦃k : Key K⦄ where
  -- `v, ok := m[i]`
  unfoldable pub get : K → Map K V → Option V
  get i [] = none
  get i ((j, v) ∷ m) = ite (eq_dec j i) (some v) (get i m)

  -- `delete(m, i)`
  unfoldable pub delete : K → Map K V → Map K V
  delete i [] = []
  delete i ((j, v) ∷ m) = let rest = delete i m in ite (eq_dec j i) rest ((j, v) ∷ rest)

  -- `m[i] = v`
  unfoldable pub put : K → V → Map K V → Map K V
  unfolding delete
  put i v m = (i, v) ∷ delete i m

  -- `for i, v := range m { if !p(i, v) { delete(m, i) } }`
  unfoldable pub retain : (K → V → Bool) → Map K V → Map K V
  unfolding delete
  retain p [] = []
  retain p ((j, v) ∷ m) = let rest = retain p m in if p j v then (j, v) ∷ rest else delete j rest

-- `_, ok := m[i]`
abbrev pub has : {K V : Type 0} ⦃k : Key K⦄ → K → Map K V → Bool
has i m = is_some (get i m)

-- `len(m)`
abbrev pub size : {K V : Type 0} → Map K V → ℕ
size m = length m

-- `for _, v := range m { *v = f(*v) }`
unfoldable pub update_all : {K V : Type 0} → (V → V) → Map K V → Map K V
update_all f [] = []
update_all f ((j, v) ∷ m) = (j, f v) ∷ update_all f m

-- How many entries such a loop deletes.
unfoldable pub dropped : {K V : Type 0} → (K → V → Bool) → Map K V → ℕ
dropped p [] = 0
dropped p ((j, v) ∷ m) = let rest = dropped p m in if p j v then rest else rest + 1
