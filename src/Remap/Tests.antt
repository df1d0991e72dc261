-- ===== src/Remap/Tests.antt =====
-- The theorems about remapped IDs at concrete IDs. The libraries are stood in for by functions that
-- know two escapes and write a number as a tally.
use mcp_mux.Base.{
  ℤ, pos, negsuc, ℕ, zero, suc, ◌≡◌, refl, Bool, true, false, ◌||◌, Option, none, some, [], ◌∷◌,
  ◌++◌, arith, string_key, nat_key, ◌==◌, if◌then◌else◌, length,
}
use mcp_mux.Remap.{
  Go, Raw, quoted, remap, deremap, quote, colon, ok, has_byte, eq_bytes, not_string, err,
}
use mcp_mux.Remap.Format.{IsGo, is_plain, all_plain}
use mcp_mux.Remap.RoundTrip.{deremap-remap, remap-injective, deremap-remap_unescaped}

ends : Raw → Option Raw
ends [] = some []
ends (b ∷ bs) = none

abbrev prepend : ℕ → Option Raw → Option Raw
prepend b none = none
prepend b (some s) = some (b ∷ s)

-- The string up to the closing quote, with `\"` and `\\` as its escapes; the flag says whether a
-- backslash went before.
body : Bool → Raw → Option Raw
unfolding ends
body escaped [] = none
body true (b ∷ bs) =
    let rest = body false bs in if b == quote || b == 92 then prepend b rest else none
body false (b ∷ bs) =
    let rest = body (b == 92) bs in
    if b == quote
    then ends bs
    else if b == 92
    then rest
    else if is_plain b
    then prepend b rest
    else none

unquote : Raw → Option Raw
unfolding body
unquote [] = none
unquote (b ∷ bs) = if b == quote then body false bs else none

body_plain : (s : Raw) → all_plain s ≡ true → body false (s ++ quote ∷ []) ≡ some s
unfolding body ends all_plain
body_plain [] plain = refl
body_plain (b ∷ s) plain = ground (arith, body_plain s)

body_cut : (s t : Raw) → all_plain s ≡ true → body false ((s ++ quote ∷ t) ++ quote ∷ []) ≡ none
unfolding body ends all_plain
body_cut [] [] plain = refl
body_cut [] (b ∷ t) plain = refl
body_cut (b ∷ s) t plain = ground (arith, body_cut s t)

tally : ℕ → Raw
tally zero = []
tally (suc n) = 49 ∷ tally n

length-tally : (n : ℕ) → length (tally n) ≡ n
unfolding tally
length-tally zero = refl
length-tally (suc n) = ground (arith, length-tally n)

tally_plain : (n : ℕ) → all_plain (tally n) ≡ true
unfolding tally all_plain
tally_plain zero = refl
tally_plain (suc n) = tally_plain n

tally_no_colon : (n : ℕ) → has_byte colon (tally n) ≡ false
unfolding tally has_byte
tally_no_colon zero = refl
tally_no_colon (suc n) = tally_no_colon n

abbrev write : ℤ → Raw
write (pos n) = tally n
write (negsuc n) = 45 ∷ tally n

abbrev read : Raw → Option ℤ
read [] = some (pos 0)
read (b ∷ bs) = some (if b == 45 then negsuc (length bs) else pos (suc (length bs)))

read-write : (n : ℤ) → read (write n) ≡ some n
unfolding tally
read-write (pos zero) = refl
read-write (pos (suc n)) = ground (arith, length-tally n)
read-write (negsuc n) = ground (arith, length-tally n)

write_plain : (n : ℤ) → all_plain (write n) ≡ true
unfolding all_plain
write_plain (pos n) = tally_plain n
write_plain (negsuc n) = tally_plain n

write_no_colon : (n : ℤ) → has_byte colon (write n) ≡ false
unfolding has_byte
write_no_colon (pos n) = tally_no_colon n
write_no_colon (negsuc n) = tally_no_colon n

abbrev plain_go : Go
plain_go = record {
  unmarshal = unquote;
  marshal = λ s. if all_plain s then some (quoted s) else none;
  itoa = write;
  atoi = read;
  trim_space = λ s. s;
}

plain_go-IsGo : IsGo plain_go
unfolding unquote
plain_go-IsGo = record {
  unmarshal_plain = body_plain;
  marshal_plain = λ s plain. ground (arith, plain);
  unmarshal_cut = body_cut;
  atoi-itoa = λ n int. read-write n;
  itoa_plain = write_plain;
  itoa_no_colon = write_no_colon;
}

-- The string "a".
abbrev id_a : Raw
id_a = 34 ∷ 97 ∷ 34 ∷ []

deremap-remap_example :
    deremap plain_go (remap plain_go (pos 3) (some id_a))
    ≡ ok (record { session_id = pos 3; original_id = id_a })
unfolding eq_bytes unquote all_plain
deremap-remap_example = (deremap-remap plain_go plain_go-IsGo (pos 3) (some id_a) refl refl).0

-- Sessions that send the same ID get different ones.
remap-injective_example : (pos 3 ≡ pos 3) × (id_a ≡ id_a)
unfolding eq_bytes unquote all_plain
remap-injective_example =
    remap-injective plain_go plain_go-IsGo (pos 3) (pos 3) (some id_a) (some id_a) refl refl refl
      refl refl

-- The string "a\"".
abbrev id_quote : Raw
id_quote = 34 ∷ 97 ∷ 92 ∷ 34 ∷ 34 ∷ []

deremap-remap_unescaped_example :
    deremap plain_go (remap plain_go (pos 3) (some id_quote)) ≡ err not_string
unfolding eq_bytes unquote all_plain
deremap-remap_unescaped_example =
    deremap-remap_unescaped plain_go plain_go-IsGo (pos 3) id_quote (97 ∷ []) [] refl refl refl refl
