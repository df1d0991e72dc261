-- ===== src/Remap/RoundTrip.antt =====
-- The round trip of an ID, and the IDs on which it fails.
use mathlib.Core.List.{append_assoc}
use mcp_mux.Base.{
  ℤ, ◌≡◌, refl, sym, ap, ◌∙◌, true, false, Option, none, some, [], ◌∷◌, ◌++◌, arith, string_key,
  nat_key, if◌then◌else◌,
}
use mcp_mux.Remap.{
  Go, Raw, quoted, remap, quote, colon, null, eq_bytes, marked, starts_with, string_of, payload,
  split_colon, restore, deremap, has_byte, is_remapped, ok, not_string, err, letter_s,
}
use mcp_mux.Remap.Format.{IsGo, is_int, all_plain, all_plain-append}

pub split_colon-append :
    (s t : Raw) → has_byte colon s ≡ false → split_colon (s ++ colon ∷ t) ≡ some (s, t)
unfolding split_colon has_byte
split_colon-append [] t e = refl
split_colon-append (b ∷ s) t e = ground (arith, split_colon-append s t)

has_byte-append : (s t : Raw) → has_byte colon (s ++ colon ∷ t) ≡ true
unfolding has_byte
has_byte-append [] t = refl
has_byte-append (b ∷ s) t = ground (arith, has_byte-append s t)

eq_bytes_sound : (s t : Raw) → eq_bytes s t ≡ true → s ≡ t
unfolding eq_bytes
eq_bytes_sound [] [] e = refl
eq_bytes_sound (a ∷ s) [] e = absurd (ground arith)
eq_bytes_sound [] (b ∷ t) e = absurd (ground arith)
eq_bytes_sound (a ∷ s) (b ∷ t) e = ground (arith, eq_bytes_sound s t)

-- The payload of an ID, null for none.
abbrev pub payload_of : Go → Option Raw → Raw
payload_of go none = null
payload_of go (some raw) = payload go raw

-- The ID as the session's client sent it: null, the string between quotes, or the number's text.
abbrev pub restored : Go → Option Raw → Raw
restored go none = null
restored go (some raw) =
    if eq_bytes raw null
    then null
    else if starts_with quote (go.trim_space raw)
    then quoted (string_of go raw)
    else go.trim_space raw

remap_lem :
    (go : Go) (session_id : ℤ) (id : Option Raw)
    → remap go session_id id ≡ quoted (marked go session_id (payload_of go id))
unfolding remap
remap_lem go session_id none = refl
remap_lem go session_id (some raw) = refl

module _ (go : Go) (v : IsGo go) where
  unmarshal-remap :
      (session_id : ℤ) (id : Option Raw)
      → all_plain (payload_of go id) ≡ true
      → go.unmarshal (remap go session_id id) ≡ some (marked go session_id (payload_of go id))
  unfolding all_plain
  unmarshal-remap session_id id plain =
      ap go.unmarshal (remap_lem go session_id id)
      ∙ v.unmarshal_plain (marked go session_id (payload_of go id)) (
          ground (
            arith,
            v.itoa_plain session_id,
            all_plain-append (go.itoa session_id) (colon ∷ payload_of go id),
          ))

  restore-payload :
      (session_id : ℤ) (id : Option Raw)
      → all_plain (payload_of go id) ≡ true
      → restore go session_id (payload_of go id)
        ≡ ok (record { session_id = session_id; original_id = restored go id })
  unfolding eq_bytes all_plain
  restore-payload session_id none plain = refl
  restore-payload session_id (some raw) plain = ground (arith, v.marshal_plain (string_of go raw))

  -- If the session's number is an int of 64 bits and what a remapped ID carries is plain text,
  -- printable ASCII that JSON never escapes, then deremapping it gives the session and the ID that
  -- its client sent, null, a string or a number, and the remapped ID looks like one.
  pub deremap-remap :
      (session_id : ℤ) (id : Option Raw)
      → is_int session_id ≡ true
      → all_plain (payload_of go id) ≡ true
      → (deremap go (remap go session_id id)
          ≡ ok (record { session_id = session_id; original_id = restored go id }))
        × (is_remapped go (remap go session_id id) ≡ true)
  unfolding deremap is_remapped has_byte
  deremap-remap session_id id int plain = ground (
    arith,
    unmarshal-remap session_id id plain,
    split_colon-append (go.itoa session_id) (payload_of go id) (v.itoa_no_colon session_id),
    v.atoi-itoa session_id int,
    restore-payload session_id id plain,
    has_byte-append (go.itoa session_id) (payload_of go id),
  )

  -- Requests of different sessions do not collide: where the numbers are ints of 64 bits and what
  -- the IDs carry is plain text, equal remapped IDs come from one session and stand for one ID.
  pub remap-injective :
      (session_id session_id' : ℤ) (id id' : Option Raw)
      → is_int session_id ≡ true
      → is_int session_id' ≡ true
      → all_plain (payload_of go id) ≡ true
      → all_plain (payload_of go id') ≡ true
      → remap go session_id id ≡ remap go session_id' id'
      → (session_id ≡ session_id') × (restored go id ≡ restored go id')
  remap-injective session_id session_id' id id' int int' plain plain' e =
      ground
        (arith, deremap-remap session_id id int plain, deremap-remap session_id' id' int' plain')

  unmarshal-marked_cut :
      (session_id : ℤ) (s t : Raw)
      → all_plain s ≡ true
      → go.unmarshal (quoted (marked go session_id (letter_s ∷ colon ∷ s ++ quote ∷ t))) ≡ none
  unfolding all_plain
  unmarshal-marked_cut session_id s t plain =
      ap (λ x. go.unmarshal (quoted (letter_s ∷ x)))
        (sym (append_assoc (go.itoa session_id) (colon ∷ letter_s ∷ colon ∷ s) (quote ∷ t)))
      ∙ v.unmarshal_cut (marked go session_id (letter_s ∷ colon ∷ s)) t (
          ground (
            arith,
            v.itoa_plain session_id,
            all_plain-append (go.itoa session_id) (colon ∷ letter_s ∷ colon ∷ s),
          ))

  -- A string ID that is plain text up to a quote in it is lost: it is remapped without escaping,
  -- and deremapping the result fails.
  pub deremap-remap_unescaped :
      (session_id : ℤ) (raw s t : Raw)
      → eq_bytes raw null ≡ false
      → starts_with quote (go.trim_space raw) ≡ true
      → go.unmarshal raw ≡ some (s ++ quote ∷ t)
      → all_plain s ≡ true
      → deremap go (remap go session_id (some raw)) ≡ err not_string
  unfolding deremap remap
  deremap-remap_unescaped session_id raw s t n q u plain =
      ground (arith, unmarshal-marked_cut session_id s t plain)
