-- ===== src/Era/Tests.antt =====
-- The check of the first frame at a concrete decoder.
use mcp_mux.Base.{
  ℕ, String, ◌≡◌, refl, none, some, List, [], ◌∷◌, same, string_key, nat_key, String-discrete, ◌==◌,
  if◌then◌else◌, length,
}
use mcp_mux.Map.{Map, get}
use mcp_mux.Supervisor.Scalar.{Raw}
use mcp_mux.Era.{Decoder, id_text, trim_start, trim_end, trim_opening_json_whitespace}
use mcp_mux.Era.Opening.{validate_modern_opening, accepted}
use mcp_mux.Era.Opening.Accepted.{IsModernOpening, validate_modern_opening-accepts}

-- A text that opens with a brace.
abbrev braced : List ℕ → Raw
braced inner = 123 ∷ inner

abbrev fields : Map String Raw
fields =
    ("id", 55 ∷ [])
    ∷ ("jsonrpc", 49 ∷ [])
    ∷ ("method", 49 ∷ 49 ∷ [])
    ∷ ("params", braced (50 ∷ []))
    ∷ []

abbrev params : Map String Raw
params = ("_meta", braced (51 ∷ 51 ∷ [])) ∷ []

abbrev metadata : Map String Raw
metadata =
    ("io.modelcontextprotocol/protocolVersion", 49 ∷ 49 ∷ 49 ∷ [])
    ∷ ("io.modelcontextprotocol/clientCapabilities", braced (52 ∷ 52 ∷ 52 ∷ []))
    ∷ []

-- Texts are told apart by their length.
abbrev object_of : ℕ → Map String Raw
object_of n = if n == 1 then fields else if n == 2 then params else if n == 3 then metadata else []

abbrev string_of : ℕ → String
string_of n = if n == 1 then "2.0" else if n == 2 then "tools/list" else "2026-07-28"

abbrev demo : Decoder
demo = record {
  document = λ _. none;
  decode_object = λ raw. some (object_of (length raw));
  decode_string = λ raw. some (string_of (length raw));
  decode_id = λ _. some id_text;
  blank = λ text. same text "";
}

passes : validate_modern_opening demo (braced []) ≡ accepted (55 ∷ [])
unfolding validate_modern_opening mcp_mux.Era.trim_opening_json_whitespace mcp_mux.Era.trim_end
    mcp_mux.Era.trim_start mcp_mux.Map.get mcp_mux.Base.String-discrete
passes = refl

validate_modern_opening-accepts_example : IsModernOpening demo (braced []) (55 ∷ [])
validate_modern_opening-accepts_example =
    (validate_modern_opening-accepts demo (braced []) (55 ∷ [])).0 passes
