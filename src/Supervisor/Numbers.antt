-- ===== src/Supervisor/Numbers.antt =====
-- muxcore/supervisor/correlation.go: the order of canonical JSON numbers, `digits e scale` with an
-- optional sign, or "0". Texts are bytes.
use mcp_mux.Base.{
  ℤ, pos, negsuc, ℕ, zero, suc, ◌+◌, ◌-◌, ◌*◌, ◌≡◌, Bool, false, Option, none, some, [], ◌∷◌,
  string_key, nat_key, ltb, ◌==◌, if◌then◌else◌, length,
}
use Prim.Native.Nat.{compare, Ordering}
use mcp_mux.Supervisor.Scalar.{Raw}
pub mod Value

-- What Go returns as -1, 0 and 1.
abbrev pub opposite : Ordering → Ordering
opposite Ordering.lt = Ordering.gt
opposite Ordering.eq = Ordering.eq
opposite Ordering.gt = Ordering.lt

pub data Sign : Type 0 where
  negative nought positive : Sign

abbrev pub rank : Sign → ℕ
rank negative = 0
rank nought = 1
rank positive = 2

pub record Split : Type 0 where
  pub sign : Sign
  pub digits : Raw
  pub exponent : ℤ

abbrev read_digits : Raw → ℕ → ℕ
read_digits [] acc = acc
read_digits (b ∷ bs) acc = read_digits bs (acc * 10 + (b - 48))

abbrev pub opposite_of : ℕ → ℤ
opposite_of zero = pos 0
opposite_of (suc n) = negsuc n

-- `SetString(text, 10)` on an optional minus and digits.
abbrev read_int : Raw → ℤ
read_int [] = pos 0
read_int (b ∷ bs) =
    if b == b'-' then opposite_of (read_digits bs 0) else pos (read_digits (b ∷ bs) 0)

-- The text before the last `e` and after it.
unfoldable pub split_last : Raw → Option (Raw × Raw)
split_last [] = none
split_last (b ∷ bs) =
    let rest = split_last bs in
    elim rest [
      | some (front, back) ↦ some (b ∷ front, back)
      | none ↦ if b == b'e' then some ([], bs) else none
    ]

-- `none` is a panic: without an `e` the text is cut before its beginning.
abbrev split_signed : Sign → Raw → Option Split
split_signed sign value = elim (split_last value) [
  | none ↦ none
  | some (front, back) ↦ some (record { sign = sign; digits = front; exponent = read_int back })
]

abbrev is_zero : Raw → Bool
is_zero (b ∷ []) = b == b'0'
is_zero _ = false

-- An empty text has no first byte: a panic as well.
abbrev split_first : Raw → Option Split
split_first [] = none
split_first (b ∷ bs) =
    if b == b'-' then split_signed negative bs else split_signed positive (b ∷ bs)

unfoldable pub split_canonical_number : Raw → Option Split
split_canonical_number value =
    if is_zero value
    then some (record { sign = nought; digits = []; exponent = pos 0 })
    else split_first value

-- A text as `canonicalJSONNumber` makes it, on which splitting does not panic. The progress of a
-- notification is one, and so is the last progress of a token.
pub record Number : Type 0 where
  pub text : Raw
  pub split : Split
  pub splits : split_canonical_number text ≡ some split

abbrev pub then_compare : Ordering → Ordering → Ordering
then_compare Ordering.eq next = next
then_compare first next = first

-- The shorter text is read with zeros at its end.
unfoldable pub compare_aligned_digits : Raw → Raw → Ordering
compare_aligned_digits [] [] = Ordering.eq
compare_aligned_digits [] (b ∷ bs) =
    let rest = compare_aligned_digits [] bs in then_compare (compare b'0' b) rest
compare_aligned_digits (a ∷ rest') [] =
    let rest = compare_aligned_digits rest' [] in then_compare (compare a b'0') rest
compare_aligned_digits (a ∷ rest') (b ∷ bs) =
    let rest = compare_aligned_digits rest' bs in then_compare (compare a b) rest

abbrev pub add_length : ℕ → ℤ → ℤ
add_length n (pos m) = pos (n + m)
add_length n (negsuc m) = if ltb m n then pos (n - m - 1) else negsuc (m - n)

abbrev pub compare_int : ℤ → ℤ → Ordering
compare_int (pos m) (pos n) = compare m n
compare_int (pos m) (negsuc n) = Ordering.gt
compare_int (negsuc m) (pos n) = Ordering.lt
compare_int (negsuc m) (negsuc n) = compare n m

abbrev pub magnitude : Split → ℤ
magnitude s = add_length (length s.digits) s.exponent

abbrev pub compare_magnitudes : Split → Split → Ordering
compare_magnitudes left right =
    then_compare (compare_int (magnitude left) (magnitude right))
      (compare_aligned_digits left.digits right.digits)

abbrev pub compare_same_sign : Sign → Split → Split → Ordering
compare_same_sign nought left right = Ordering.eq
compare_same_sign positive left right = compare_magnitudes left right
compare_same_sign negative left right = opposite (compare_magnitudes left right)

abbrev compare_splits : Split → Split → Ordering
compare_splits left right =
    if rank left.sign == rank right.sign
    then compare_same_sign left.sign left right
    else compare (rank left.sign) (rank right.sign)

unfoldable pub compare_canonical_numbers : Number → Number → Ordering
compare_canonical_numbers left right = compare_splits left.split right.split
