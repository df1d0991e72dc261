-- ===== src/Era/Opening.antt =====
-- muxcore/era/selector.go: the checks on the first frame, in their order.
pub mod Accepted
use Prim.Native.String.{◌++◌ as join}
use mcp_mux.Base.{
  ℤ, ℕ, String, Bool, true, false, not, ◌&&◌, ◌||◌, Option, none, some, [], ◌++◌, same, string_key,
  nat_key, is_some, maybe,
}
use mcp_mux.Map.{Map, get, has}
use mcp_mux.Supervisor.Scalar.{Raw}
use mcp_mux.Era.{
  Decoder, AdmissionError, modern_wire, minus, admission_error_code, opening_json_object,
  opening_json_string, opening_request_id, AdmissionErrorKind, malformed_frame,
  invalid_modern_params, unsupported_modern_version, conflicting_era_signals,
}

pub data Verdict : Type 0 where
  refused : AdmissionError → Verdict
  accepted : Raw → Verdict

abbrev error_of : AdmissionErrorKind → ℤ → Option Raw → String → AdmissionError
error_of kind code id requested = record {
  kind = kind;
  code = code;
  id = id;
  requested = requested;
}

abbrev pub plain_error : AdmissionErrorKind → Option Raw → AdmissionError
plain_error kind id = error_of kind (admission_error_code kind) id ""

abbrev pub parse_failure : AdmissionError
parse_failure = error_of malformed_frame (minus 32700) none ""

abbrev pub require : Bool → AdmissionError → Verdict → Verdict
require true e v = v
require false e v = refused e

abbrev pub need : {A : Type 0} → Option A → AdmissionError → (A → Verdict) → Verdict
need none e k = refused e
need (some a) e k = k a

abbrev pub on_document : Option Bool → Verdict → Verdict
on_document none v = v
on_document (some true) v = refused (plain_error conflicting_era_signals none)
on_document (some false) v = refused parse_failure

abbrev pub field : String → Map String Raw → Raw
field name fields = maybe [] (λ raw. raw) (get name fields)

abbrev pub meta_name : String → String
meta_name name = join "io.modelcontextprotocol/" name

abbrev named : Decoder → Option String → Bool
named j none = false
named j (some text) = not (j.blank text)

abbrev client_fields_fine : Decoder → Option (Map String Raw) → Bool
client_fields_fine j none = false
client_fields_fine j (some client) =
    named j (opening_json_string j (field "name" client))
    && named j (opening_json_string j (field "version" client))

abbrev pub client_info_fine : Decoder → Option Raw → Bool
client_info_fine j none = true
client_info_fine j (some raw) = client_fields_fine j (opening_json_object j raw)

abbrev pub is_two : Option String → Bool
is_two none = false
is_two (some text) = same text "2.0"

abbrev pub check_metadata : Decoder → Raw → Map String Raw → Verdict
check_metadata j id metadata =
    let bad = plain_error invalid_modern_params (some id) in
    need (opening_json_string j (field (meta_name "protocolVersion") metadata)) bad λ version.
      require (not (same version "")) bad (
        require (is_some (opening_json_object j (field (meta_name "clientCapabilities") metadata)))
          bad
          (require (client_info_fine j (get (meta_name "clientInfo") metadata)) bad (
            require (same version modern_wire)
              (error_of unsupported_modern_version (admission_error_code unsupported_modern_version)
                (some id) version)
              (accepted id))))

abbrev pub check_params : Decoder → Raw → Map String Raw → Verdict
check_params j id fields =
    let bad = plain_error invalid_modern_params (some id) in
    need (opening_json_object j (field "params" fields)) bad
      λ params. need (opening_json_object j (field "_meta" params)) bad (check_metadata j id)

abbrev pub opens_legacy : String → Bool
opens_legacy method = same method "initialize" || same method "notifications/initialized"

abbrev pub check_method : Decoder → Raw → Map String Raw → String → Verdict
check_method j id fields method =
    let bad = plain_error malformed_frame none in
    require (not (same method "")) bad (
      require (not (has "result" fields)) bad (
        require (not (has "error" fields)) bad (
          require (not (opens_legacy method)) (plain_error conflicting_era_signals (some id))
            (check_params j id fields))))

abbrev pub check_fields : Decoder → Map String Raw → Verdict
check_fields j fields =
    let bad = plain_error malformed_frame none in
    need (opening_request_id j (field "id" fields)) bad λ id.
      require (is_two (opening_json_string j (field "jsonrpc" fields))) bad
        (need (opening_json_string j (field "method" fields)) bad (check_method j id fields))

unfoldable pub validate_modern_opening : Decoder → Raw → Verdict
unfolding opening_json_object opening_json_string opening_request_id
validate_modern_opening j raw =
    on_document (j.document raw)
      (need (opening_json_object j raw) (plain_error malformed_frame none) (check_fields j))
