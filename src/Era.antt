-- ===== src/Era.antt =====
-- muxcore/era: the protocol era, and the check of the first frame of a modern client. Decoding JSON
-- is a parameter; an absent field is an empty text, as a missing key of a Go map is nil.
pub mod Opening
mod Tests
use mcp_mux.Base.{
  ℤ, negsuc, ℕ, ◌-◌, String, Bool, true, false, ◌&&◌, ◌||◌, Option, none, some, [], ◌∷◌, map, same,
  string_key, nat_key, leb, ◌==◌, if◌then◌else◌,
}
use mcp_mux.Map.{Map, get, has}
use mcp_mux.Supervisor.Scalar.{Raw}

pub data ProtocolEra : Type 0 where
  legacy modern_20260728 : ProtocolEra

abbrev pub modern_wire : String
modern_wire = "2026-07-28"

-- `none` is the error; Go's third value of the type is never handed out without it.
unfoldable pub parse_protocol_era : String → Option ProtocolEra
parse_protocol_era text =
    if same text ""
    then some legacy
    else if same text modern_wire
    then some modern_20260728
    else none

unfoldable pub wire : ProtocolEra → String
wire legacy = ""
wire modern_20260728 = modern_wire

pub data AdmissionErrorKind : Type 0 where
  malformed_frame invalid_modern_params unsupported_modern_version : AdmissionErrorKind
  conflicting_era_signals control_era_mismatch unsafe_lifecycle_boundary : AdmissionErrorKind
  contained_upstream_request : AdmissionErrorKind

pub record AdmissionError : Type 0 where
  pub kind : AdmissionErrorKind
  pub id : Option Raw
  pub code : ℤ
  pub requested : String

abbrev pub minus : ℕ → ℤ
minus n = negsuc (n - 1)

abbrev pub admission_error_code : AdmissionErrorKind → ℤ
admission_error_code malformed_frame = minus 32600
admission_error_code invalid_modern_params = minus 32602
admission_error_code unsupported_modern_version = minus 32022
admission_error_code _ = minus 32000

-- What `Decode` with `UseNumber` gives for the whole text: a string, a number's text, or another
-- value.
pub data IdValue : Type 0 where
  id_text : IdValue
  id_number : Raw → IdValue
  id_other : IdValue

-- `document` is `validateUniqueJSONDocument`, a walk over the decoder's tokens: an error, and
-- whether it is a duplicate key. `decode_object` and `decode_string` are `json.Unmarshal`, `none` on
-- an error or a nil map. `blank` says whether `strings.TrimSpace` leaves nothing.
pub record Decoder : Type 0 where
  pub document : Raw → Option Bool
  pub decode_object : Raw → Option (Map String Raw)
  pub decode_string : Raw → Option String
  pub decode_id : Raw → Option IdValue
  pub blank : String → Bool

abbrev pub is_opening_json_whitespace : ℕ → Bool
is_opening_json_whitespace b = b == b' ' || b == 9 || b == 13 || b == 10

unfoldable pub trim_start : Raw → Raw
trim_start [] = []
trim_start (b ∷ bs) =
    let rest = trim_start bs in if is_opening_json_whitespace b then rest else b ∷ bs

unfoldable pub trim_end : Raw → Raw
trim_end [] = []
trim_end (b ∷ bs) = keep_end b (trim_end bs)
  where
    keep_end : ℕ → Raw → Raw
    keep_end b [] = if is_opening_json_whitespace b then [] else b ∷ []
    keep_end b (c ∷ cs) = b ∷ c ∷ cs

unfoldable pub trim_opening_json_whitespace : Raw → Raw
trim_opening_json_whitespace raw = trim_end (trim_start raw)

abbrev starts_object : Raw → Bool
starts_object [] = false
starts_object (b ∷ bs) = b == b'{'

unfoldable pub opening_json_object : Decoder → Raw → Option (Map String Raw)
opening_json_object j raw =
    let trimmed = trim_opening_json_whitespace raw in
    if starts_object trimmed then j.decode_object trimmed else none

abbrev is_null : Raw → Bool
is_null (a ∷ b ∷ c ∷ d ∷ []) = a == b'n' && b == b'u' && c == b'l' && d == b'l'
is_null _ = false

abbrev is_absent : Raw → Bool
is_absent [] = true
is_absent raw = is_null raw

unfoldable pub opening_json_string : Decoder → Raw → Option String
opening_json_string j raw =
    let trimmed = trim_opening_json_whitespace raw in
    if is_absent trimmed then none else j.decode_string trimmed

unfoldable pub all_digits : Raw → Bool
all_digits [] = true
all_digits (b ∷ bs) = let rest = all_digits bs in leb 48 b && leb b 57 && rest

abbrev some_digits : Raw → Bool
some_digits [] = false
some_digits bs = all_digits bs

unfoldable pub is_opening_integer_number : Raw → Bool
is_opening_integer_number [] = false
is_opening_integer_number (b ∷ bs) = if b == b'-' then some_digits bs else all_digits (b ∷ bs)

abbrev id_of : Raw → Option IdValue → Option Raw
id_of raw (some id_text) = some raw
id_of raw (some (id_number text)) = if is_opening_integer_number text then some raw else none
id_of raw _ = none

unfoldable pub opening_request_id : Decoder → Raw → Option Raw
opening_request_id j raw =
    let trimmed = trim_opening_json_whitespace raw in
    if is_absent trimmed then none else id_of raw (j.decode_id trimmed)
