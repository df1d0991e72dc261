-- ===== src/Remap/Format.antt =====
-- What the libraries' functions do on plain text, as they are documented.
use mcp_mux.Base.{
  ℤ, pos, negsuc, ℕ, ◌≡◌, refl, Bool, true, false, not, ◌&&◌, none, some, [], ◌∷◌, ◌++◌, arith,
  string_key, nat_key, ltb, leb, ◌==◌,
}
use mcp_mux.Remap.{Go, Raw, quoted, quote, colon, has_byte}

-- A printable ASCII byte that JSON never escapes: not a quote, a backslash, `&`, `<` or `>`.
abbrev pub is_plain : ℕ → Bool
is_plain b =
    leb 32 b
    && ltb b 127
    && not (b == 34)
    && not (b == 92)
    && not (b == 38)
    && not (b == 60)
    && not (b == 62)

unfoldable pub all_plain : Raw → Bool
all_plain [] = true
all_plain (b ∷ bs) = is_plain b && all_plain bs

pub all_plain-append : (s t : Raw) → all_plain (s ++ t) ≡ (all_plain s && all_plain t)
unfolding all_plain
all_plain-append [] t = refl
all_plain-append (b ∷ s) t = ground (arith, all_plain-append s t)

-- Go's int has 64 bits.
abbrev pub is_int : ℤ → Bool
is_int (pos n) = ltb n 9_223_372_036_854_775_808
is_int (negsuc n) = ltb n 9_223_372_036_854_775_808

pub record IsGo (go : Go) : Type 0 where
  -- A plain string is encoded as it stands between quotes, and decoded so.
  pub unmarshal_plain : (s : Raw) → all_plain s ≡ true → go.unmarshal (quoted s) ≡ some s
  pub marshal_plain : (s : Raw) → all_plain s ≡ true → go.marshal s ≡ some (quoted s)
  -- A quote that is not escaped ends the string, and what follows it is no blank.
  pub unmarshal_cut :
      (s t : Raw) → all_plain s ≡ true → go.unmarshal (quoted (s ++ quote ∷ t)) ≡ none
  -- A number is plain and without a colon, and an int is read as it was written.
  pub atoi-itoa : (n : ℤ) → is_int n ≡ true → go.atoi (go.itoa n) ≡ some n
  pub itoa_plain : (n : ℤ) → all_plain (go.itoa n) ≡ true
  pub itoa_no_colon : (n : ℤ) → has_byte colon (go.itoa n) ≡ false
