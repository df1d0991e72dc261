-- ===== src/Remap.antt =====
-- muxcore/remap/remap.go: the IDs of requests on a shared upstream. A text is a list of bytes.
-- encoding/json, strconv and strings.TrimSpace are a parameter.
use mcp_mux.Base.{
  ℤ, ℕ, Bool, true, false, not, ◌&&◌, ◌||◌, Option, none, some, List, [], ◌∷◌, ◌++◌, string_key,
  nat_key, ◌==◌, if◌then◌else◌,
}
pub mod Format
pub mod RoundTrip
mod Tests

abbrev pub Raw : Type 0
Raw = List ℕ

-- The functions of the libraries: `json.Unmarshal` into a string and `json.Marshal` of one,
-- `%d` and `strconv.Atoi`, `strings.TrimSpace`.
pub record Go : Type 0 where
  pub unmarshal : Raw → Option Raw
  pub marshal : Raw → Option Raw
  pub itoa : ℤ → Raw
  pub atoi : Raw → Option ℤ
  pub trim_space : Raw → Raw

abbrev pub quote : ℕ
quote = 34

abbrev pub colon : ℕ
colon = 58

-- The letters that mark a number, a string and a session.
abbrev pub letter_n : ℕ
letter_n = 110

abbrev pub letter_s : ℕ
letter_s = 115

abbrev pub null : Raw
null = 110 ∷ 117 ∷ 108 ∷ 108 ∷ []

unfoldable pub eq_bytes : Raw → Raw → Bool
eq_bytes [] [] = true
eq_bytes (a ∷ s) (b ∷ t) = a == b && eq_bytes s t
eq_bytes _ _ = false

abbrev pub quoted : Raw → Raw
quoted s = quote ∷ s ++ quote ∷ []

-- `s%d:` and the rest.
abbrev pub marked : Go → ℤ → Raw → Raw
marked go session_id rest = letter_s ∷ go.itoa session_id ++ colon ∷ rest

abbrev pub starts_with : ℕ → Raw → Bool
starts_with c [] = false
starts_with c (b ∷ bs) = b == c

-- The string of the ID, or its text where it cannot be decoded.
abbrev pub string_of : Go → Raw → Raw
string_of go raw = elim (go.unmarshal raw) [ none ↦ go.trim_space raw | some s ↦ s ]

abbrev pub payload : Go → Raw → Raw
payload go raw =
    if eq_bytes raw null
    then null
    else if starts_with quote (go.trim_space raw)
    then letter_s ∷ colon ∷ string_of go raw
    else letter_n ∷ colon ∷ go.trim_space raw

-- `none` is a nil message.
unfoldable pub remap : Go → ℤ → Option Raw → Raw
remap go session_id none = quoted (marked go session_id null)
remap go session_id (some raw) = quoted (marked go session_id (payload go raw))

pub record DeremapResult : Type 0 where
  pub session_id : ℤ
  pub original_id : Raw

pub data DeremapError : Type 0 where
  not_string missing_prefix malformed_id bad_session malformed_type not_quoted : DeremapError
  unknown_type : DeremapError

pub data Deremapped : Type 0 where
  ok : DeremapResult → Deremapped
  err : DeremapError → Deremapped

-- What stands before the first colon and after it.
unfoldable pub split_colon : Raw → Option (Raw × Raw)
split_colon [] = none
split_colon (b ∷ bs) =
    let rest = split_colon bs in
    if b == colon
    then some ([], bs)
    else elim rest [ none ↦ none | some (front, back) ↦ some (b ∷ front, back) ]

abbrev pub requote : ℤ → Option Raw → Deremapped
requote session_id none = err not_quoted
requote session_id (some text) = ok (record { session_id = session_id; original_id = text })

abbrev pub restore_typed : Go → ℤ → Raw → Deremapped
restore_typed go session_id (t ∷ c ∷ value) =
    if not (c == colon)
    then err malformed_type
    else if t == letter_n
    then ok (record { session_id = session_id; original_id = value })
    else if t == letter_s
    then requote session_id (go.marshal value)
    else err unknown_type
restore_typed go session_id _ = err malformed_type

abbrev pub restore : Go → ℤ → Raw → Deremapped
restore go session_id rest =
    if eq_bytes rest null
    then ok (record { session_id = session_id; original_id = null })
    else restore_typed go session_id rest

abbrev pub restore_session : Go → Option ℤ → Raw → Deremapped
restore_session go none rest = err bad_session
restore_session go (some session_id) rest = restore go session_id rest

abbrev pub restore_split : Go → Option (Raw × Raw) → Deremapped
restore_split go none = err malformed_id
restore_split go (some (session, rest)) = restore_session go (go.atoi session) rest

abbrev pub restore_string : Go → Option Raw → Deremapped
restore_string go none = err not_string
restore_string go (some []) = err missing_prefix
restore_string go (some (b ∷ bs)) =
    if b == letter_s then restore_split go (split_colon bs) else err missing_prefix

unfoldable pub deremap : Go → Raw → Deremapped
deremap go id = restore_string go (go.unmarshal id)

unfoldable pub has_byte : ℕ → Raw → Bool
has_byte c [] = false
has_byte c (b ∷ bs) = b == c || has_byte c bs

abbrev looks_remapped : Option Raw → Bool
looks_remapped none = false
looks_remapped (some s) = starts_with letter_s s && has_byte colon s

unfoldable pub is_remapped : Go → Raw → Bool
is_remapped go id = looks_remapped (go.unmarshal id)
