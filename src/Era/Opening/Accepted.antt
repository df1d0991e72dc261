-- ===== src/Era/Opening/Accepted.antt =====
-- Which first frames a modern client may send.
use mcp_mux.Base.{
  ℕ, String, ◌≡◌, refl, ap, ◌∙◌, ◌↔◌, Bool, true, false, not, Option, none, some, arith, same,
  string_key, nat_key, eq_iff, String-discrete, is_some,
}
use mcp_mux.Map.{Map, get, has}
use mcp_mux.Supervisor.Scalar.{Raw}
use mcp_mux.Era.{
  Decoder, AdmissionError, modern_wire, opening_json_object, opening_json_string,
  opening_request_id,
}
use mcp_mux.Era.Opening.{
  validate_modern_opening, require, need, on_document, field, client_info_fine, is_two,
  opens_legacy, Verdict, accepted, meta_name,
}

-- A request of the modern protocol: it has an ID, names its method, which does not open the legacy
-- protocol, and carries the metadata of the modern one.
pub record IsModernOpening (j : Decoder) (raw id : Raw) : Type 0 where
  pub fields : Map String Raw
  pub params : Map String Raw
  pub metadata : Map String Raw
  pub method : String
  pub document : j.document raw ≡ none
  pub object : opening_json_object j raw ≡ some fields
  pub request : opening_request_id j (field "id" fields) ≡ some id
  pub jsonrpc : is_two (opening_json_string j (field "jsonrpc" fields)) ≡ true
  pub named_method : opening_json_string j (field "method" fields) ≡ some method
  pub some_method : same method "" ≡ false
  pub no_result : has "result" fields ≡ false
  pub no_error : has "error" fields ≡ false
  pub not_legacy : opens_legacy method ≡ false
  pub with_params : opening_json_object j (field "params" fields) ≡ some params
  pub with_metadata : opening_json_object j (field "_meta" params) ≡ some metadata
  pub version :
      opening_json_string j (field (meta_name "protocolVersion") metadata) ≡ some modern_wire
  pub capabilities :
      is_some (opening_json_object j (field (meta_name "clientCapabilities") metadata)) ≡ true
  pub client : client_info_fine j (get (meta_name "clientInfo") metadata) ≡ true

require-accepted :
    (b : Bool) (e : AdmissionError) (v : Verdict) (id : Raw)
    → require b e v ≡ accepted id
    → (b ≡ true) × (v ≡ accepted id)
require-accepted true e v id h = (refl, h)
require-accepted false e v id h = absurd (ground arith)

need-accepted :
    {A : Type 0} (o : Option A) (e : AdmissionError) (k : A → Verdict) (id : Raw)
    → need o e k ≡ accepted id
    → (a : A) × (o ≡ some a) × (k a ≡ accepted id)
need-accepted none e k id h = absurd (ground arith)
need-accepted (some a) e k id h = (a, refl, h)

on_document-accepted :
    (o : Option Bool) (v : Verdict) (id : Raw)
    → on_document o v ≡ accepted id
    → (o ≡ none) × (v ≡ accepted id)
on_document-accepted none v id h = (refl, h)
on_document-accepted (some true) v id h = absurd (ground arith)
on_document-accepted (some false) v id h = absurd (ground arith)

accepted-IsModernOpening :
    (j : Decoder) (raw id : Raw)
    → validate_modern_opening j raw ≡ accepted id
    → IsModernOpening j raw id
unfolding validate_modern_opening
accepted-IsModernOpening j raw id h =
    let (document, h1) = on_document-accepted (j.document raw) _ id h in
    let (fields, object, h2) = need-accepted (opening_json_object j raw) _ _ id h1 in
    let (id', request, h3) = need-accepted (opening_request_id j (field "id" fields)) _ _ id h2 in
    let (jsonrpc, h4) =
      require-accepted (is_two (opening_json_string j (field "jsonrpc" fields))) _ _ id h3 in
    let (method, named_method, h5) =
      need-accepted (opening_json_string j (field "method" fields)) _ _ id h4 in
    let (some_method, h6) = require-accepted (not (same method "")) _ _ id h5 in
    let (no_result, h7) = require-accepted (not (has "result" fields)) _ _ id h6 in
    let (no_error, h8) = require-accepted (not (has "error" fields)) _ _ id h7 in
    let (not_legacy, h9) = require-accepted (not (opens_legacy method)) _ _ id h8 in
    let (params, with_params, h10) =
      need-accepted (opening_json_object j (field "params" fields)) _ _ id h9 in
    let (metadata, with_metadata, h11) =
      need-accepted (opening_json_object j (field "_meta" params)) _ _ id h10 in
    let (version, with_version, h12) =
      need-accepted (opening_json_string j (field (meta_name "protocolVersion") metadata)) _ _ id
        h11 in
    let (some_version, h13) = require-accepted (not (same version "")) _ _ id h12 in
    let (capabilities, h14) =
      require-accepted
        (is_some (opening_json_object j (field (meta_name "clientCapabilities") metadata))) _ _ id
        h13 in
    let (client, h15) =
      require-accepted (client_info_fine j (get (meta_name "clientInfo") metadata)) _ _ id h14 in
    let (modern, h16) = require-accepted (same version modern_wire) _ _ id h15 in
    let same_id : id' ≡ id = ground arith in
    let same_version : version ≡ modern_wire = ground arith in
    record {
      fields = fields;
      params = params;
      metadata = metadata;
      method = method;
      document = document;
      object = object;
      request = request ∙ ap some same_id;
      jsonrpc = jsonrpc;
      named_method = named_method;
      some_method = ground arith;
      no_result = ground arith;
      no_error = ground arith;
      not_legacy = ground arith;
      with_params = with_params;
      with_metadata = with_metadata;
      version = with_version ∙ ap some same_version;
      capabilities = capabilities;
      client = client;
    }

IsModernOpening-accepted :
    (j : Decoder) (raw id : Raw)
    → IsModernOpening j raw id
    → validate_modern_opening j raw ≡ accepted id
unfolding validate_modern_opening mcp_mux.Base.String-discrete
IsModernOpening-accepted j raw id o =
    rw
      (
        o.document, o.object, o.request, o.jsonrpc, o.named_method, o.some_method, o.no_result,
        o.no_error, o.not_legacy, o.with_params, o.with_metadata, o.version, o.capabilities,
        o.client,
      )
      refl

-- A first frame is accepted, under an ID, exactly where it decodes without a duplicate key to a
-- request with that ID and a method that does not open the legacy protocol, has no result and no
-- error, and its metadata carries the supported version, the client's capabilities, and either no
-- client information or one with a name and a version.
pub validate_modern_opening-accepts :
    (j : Decoder) (raw id : Raw)
    → (validate_modern_opening j raw ≡ accepted id) ↔ IsModernOpening j raw id
validate_modern_opening-accepts j raw id =
    (accepted-IsModernOpening j raw id, IsModernOpening-accepted j raw id)
