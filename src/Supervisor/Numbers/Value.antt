-- ===== src/Supervisor/Numbers/Value.antt =====
-- The comparison is that of the numbers that the texts stand for.
use Prim.Native.Nat.{compare}
use mcp_mux.Base.{
  ℤ, pos, negsuc, ℕ, zero, suc, ◌+◌, ◌-◌, ◌*◌, ◌≤◌, ◌<◌, ◌≡◌, refl, sym, ap, ◌∙◌, Bool, true, false,
  ◌&&◌, [], ◌∷◌, arith, string_key, nat_key, ltb, leb, ◌==◌, if◌then◌else◌, length,
}
use mcp_mux.Supervisor.Scalar.{Raw}
use mcp_mux.Supervisor.Numbers.{
  opposite, rank, compare_same_sign, compare_aligned_digits, compare_int, then_compare, add_length,
  compare_magnitudes, compare_canonical_numbers, opposite_of, Sign, negative, nought, positive,
  Split, Number,
}

-- `n` times the power of ten.
unfoldable pub shift : ℕ → ℕ → ℕ
shift n zero = n
shift n (suc p) = shift n p * 10

-- The digits' number, times the power of ten.
unfoldable pub value : Raw → ℕ → ℕ
value [] p = 0
value (b ∷ bs) p = shift (b - 48) (length bs + p) + value bs p

abbrev pub signed : Sign → ℕ → ℤ
signed nought n = pos 0
signed positive n = pos n
signed negative n = opposite_of n

abbrev pub scaled : Split → ℕ → ℤ
scaled s p = signed s.sign (value s.digits p)

unfoldable pub all_digits : Raw → Bool
all_digits [] = true
all_digits (b ∷ bs) = leb 48 b && leb b 57 && all_digits bs

abbrev leads : Raw → Bool
leads [] = false
leads (b ∷ bs) = ltb 48 b

-- A number that is not zero has decimal digits, the first of which is not zero.
abbrev pub is_decimal : Sign → Raw → Bool
is_decimal nought digits = true
is_decimal _ digits = leads digits && all_digits digits

abbrev pub minus : ℕ → ℕ → ℤ
minus p k = if ltb p k then negsuc (k - p - 1) else pos (p - k)

shift_add : (a b n : ℕ) → shift (a + b) n ≡ shift a n + shift b n
unfolding shift
shift_add a b zero = refl
shift_add a b (suc n) = omega (arith, shift_add a b n)

shift_ten : (n : ℕ) → shift 10 n ≡ shift 1 (suc n)
unfolding shift
shift_ten zero = refl
shift_ten (suc n) = omega (arith, shift_ten n)

shift_gap : (a b n : ℕ) → a < b → shift a n + shift 1 n ≤ shift b n
unfolding shift
shift_gap a b zero h = omega arith
shift_gap a b (suc n) h = omega (arith, shift_gap a b n h)

shift_one : (n : ℕ) → 0 < shift 1 n
unfolding shift
shift_one zero = omega arith
shift_one (suc n) = omega (arith, shift_one n)

shift_zero : (n : ℕ) → shift 0 n ≡ 0
unfolding shift
shift_zero zero = refl
shift_zero (suc n) = omega (arith, shift_zero n)

shift_le : (m n : ℕ) → m ≤ n → shift 1 m ≤ shift 1 n
unfolding shift
shift_le zero n h = shift_one n
shift_le (suc m) zero h = absurd (omega arith)
shift_le (suc m) (suc n) h = omega (arith, shift_le m n (omega arith))

value_small : (l : Raw) (p : ℕ) → all_digits l ≡ true → value l p < shift 1 (length l + p)
unfolding value all_digits
value_small [] p d = ground (arith, shift_one p)
value_small (b ∷ l) p d =
    ground (arith, value_small l p, shift_gap (b - 48) 10 (length l + p), shift_ten (length l + p))

value_large : (l : Raw) (p : ℕ) → leads l ≡ true → shift 1 (length l + p - 1) ≤ value l p
unfolding value
value_large [] p h = absurd (ground arith)
value_large (b ∷ l) p h = ground (arith, shift_gap 0 (b - 48) (length l + p))

compare_first :
    (c d n u v : ℕ)
    → u < shift 1 n
    → v < shift 1 n
    → compare (shift c n + u) (shift d n + v) ≡ then_compare (compare c d) (compare u v)
compare_first c d n u v hu hv = ground (arith, shift_gap c d n, shift_gap d c n)

-- Two texts that reach the same power of ten.
aligned_value :
    (a b : Raw) (p q : ℕ)
    → all_digits a ≡ true
    → all_digits b ≡ true
    → length a + p ≡ length b + q
    → compare_aligned_digits a b ≡ compare (value a p) (value b q)
unfolding compare_aligned_digits value all_digits
aligned_value [] [] p q da db e = refl
aligned_value [] (b ∷ bs) p q da db e = ground (
  arith,
  aligned_value [] bs (length bs + q) q,
  shift_gap 0 (b - 48) (length bs + q),
  shift_one (length bs + q),
  shift_zero (length bs + q),
)
aligned_value (a ∷ l) [] p q da db e = ground (
  arith,
  aligned_value l [] p (length l + p),
  shift_gap 0 (a - 48) (length l + p),
  shift_one (length l + p),
  shift_zero (length l + p),
)
aligned_value (a ∷ l) (b ∷ bs) p q da db e = ground (
  arith,
  aligned_value l bs p q,
  compare_first (a - 48) (b - 48) (length l + p) (value l p) (value bs q),
  value_small l p,
  value_small bs q,
)

add_length-minus : (n p k : ℕ) → add_length n (minus p k) ≡ minus (n + p) k
add_length-minus n p k = ground arith

compare-minus : (m n k : ℕ) → compare_int (minus m k) (minus n k) ≡ compare m n
compare-minus m n k = ground arith

compare_magnitudes-value :
    (s t : Split) (p q k : ℕ)
    → (leads s.digits && all_digits s.digits) ≡ true
    → (leads t.digits && all_digits t.digits) ≡ true
    → s.exponent ≡ minus p k
    → t.exponent ≡ minus q k
    → compare_magnitudes s t ≡ compare (value s.digits p) (value t.digits q)
compare_magnitudes-value s t p q k ds dt es et = ground (
  arith,
  compare-minus (length s.digits + p) (length t.digits + q) k,
  add_length-minus (length s.digits) p k,
  add_length-minus (length t.digits) q k,
  aligned_value s.digits t.digits p q,
  value_small s.digits p,
  value_small t.digits q,
  value_large s.digits p,
  value_large t.digits q,
  shift_le (length s.digits + p) (length t.digits + q - 1),
  shift_le (length t.digits + q) (length s.digits + p - 1),
)

negated : (m n : ℕ) → compare_int (opposite_of m) (opposite_of n) ≡ opposite (compare m n)
negated zero zero = refl
negated zero (suc n) = ground arith
negated (suc m) zero = ground arith
negated (suc m) (suc n) = ground arith

value_positive : (l : Raw) (p : ℕ) → leads l ≡ true → 0 < value l p
value_positive l p h = omega (arith, value_large l p h, shift_one (length l + p - 1))

opposite_positive : (n : ℕ) → 0 < n → opposite_of n ≡ negsuc (n - 1)
opposite_positive zero h = absurd (omega arith)
opposite_positive (suc n) h = ground arith

compare_signs :
    (s t : Sign) (a b : Split) (p q k : ℕ)
    → is_decimal s a.digits ≡ true
    → is_decimal t b.digits ≡ true
    → a.exponent ≡ minus p k
    → b.exponent ≡ minus q k
    → (if rank s == rank t then compare_same_sign s a b else compare (rank s) (rank t))
      ≡ compare_int (signed s (value a.digits p)) (signed t (value b.digits q))
compare_signs nought nought a b p q k da db ea eb = refl
compare_signs nought positive a b p q k da db ea eb = ground (arith, value_positive b.digits q)
compare_signs nought negative a b p q k da db ea eb =
    rw (opposite_positive (value b.digits q) (value_positive b.digits q (ground arith))) refl
compare_signs positive nought a b p q k da db ea eb = ground (arith, value_positive a.digits p)
compare_signs positive positive a b p q k da db ea eb =
    compare_magnitudes-value a b p q k da db ea eb
compare_signs positive negative a b p q k da db ea eb =
    rw (opposite_positive (value b.digits q) (value_positive b.digits q (ground arith))) refl
compare_signs negative nought a b p q k da db ea eb =
    rw (opposite_positive (value a.digits p) (value_positive a.digits p (ground arith))) refl
compare_signs negative positive a b p q k da db ea eb =
    rw (opposite_positive (value a.digits p) (value_positive a.digits p (ground arith))) refl
compare_signs negative negative a b p q k da db ea eb =
    ap opposite (compare_magnitudes-value a b p q k da db ea eb)
    ∙ sym (negated (value a.digits p) (value b.digits q))

-- Comparing two canonical numbers is comparing the integers that they stand for once both are
-- scaled by a power of ten that makes both whole, where a number that is not zero is spelled by
-- decimal digits of which the first is not zero.
pub compare_canonical_numbers-value :
    (a b : Number) (p q k : ℕ)
    → is_decimal a.split.sign a.split.digits ≡ true
    → is_decimal b.split.sign b.split.digits ≡ true
    → a.split.exponent ≡ minus p k
    → b.split.exponent ≡ minus q k
    → compare_canonical_numbers a b ≡ compare_int (scaled a.split p) (scaled b.split q)
unfolding compare_canonical_numbers
compare_canonical_numbers-value a b p q k da db ea eb =
    compare_signs a.split.sign b.split.sign a.split b.split p q k da db ea eb
