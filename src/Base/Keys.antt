-- ===== src/Base/Keys.antt =====
-- Keys of Go's maps: types with decidable equality, and Go's `==` on them.
use Prim.Native.Nat.{ℕ}
use Prim.Native.String.{String}
use mathlib.Core.Path.{◌≡◌, refl}
use mathlib.Core.Bool.{Bool, true, false}
use native.Mathlib.Omega.{arith}
use native.Mathlib.Decide.{ℕ_discrete}
use text.Mathlib.Text.{◌==◌}
pub use text.Mathlib.TextEquality.{eq_iff}

pub record Key {ℓ} (K : Type ℓ) : Type ℓ where
  pub dec : Discrete K

abbrev pub eq_dec {ℓ} : {K : Type ℓ} ⦃k : Key K⦄ → Discrete K
eq_dec ⦃k⦄ = k.dec

-- Go's `a == b`.
abbrev pub same {ℓ} : {K : Type ℓ} ⦃k : Key K⦄ → K → K → Bool
same ⦃k⦄ a b = elim (k.dec a b) [ yes _ ↦ true | no _ ↦ false ]

dec_of_eq : (s t : String) (b : Bool) → (s == t) ≡ b → Dec (s ≡ t)
dec_of_eq s t true e = yes ((eq_iff s t).0 e)
dec_of_eq s t false e = no (λ p. ground (arith, eq_iff s t))

unfoldable pub String-discrete : Discrete String
unfolding dec_of_eq
String-discrete s t = dec_of_eq s t (s == t) refl

instance abbrev pub string_key : Key String
string_key = record { dec = String-discrete }

instance abbrev pub nat_key : Key ℕ
nat_key = record { dec = ℕ_discrete }
