-- ===== src/Supervisor/Registry/Sort.antt =====
-- muxcore/supervisor/correlation.go: the order in which a retirement returns the lost requests.
-- `sort.Slice` is an insertion sort here. It may order equal elements otherwise, but the requests of
-- a map have different keys.
pub mod Sorted
use Prim.Native.Nat.{Ordering}
use Prim.Native.String.{compare}
use mcp_mux.Base.{
  ℕ, String, Bool, true, false, List, [], ◌∷◌, string_key, nat_key, ltb, ◌==◌, if◌then◌else◌,
}
use mcp_mux.Supervisor.Scalar.{ScalarKey, ScalarKind, scalar_none, scalar_string, scalar_number}
use mcp_mux.Supervisor.Records.{RequestRecord}

-- The number of the constant.
abbrev pub kind_number : ScalarKind → ℕ
kind_number scalar_none = 0
kind_number scalar_string = 1
kind_number scalar_number = 2

abbrev pub is_less : Ordering → Bool
is_less Ordering.lt = true
is_less _ = false

-- Go's `<` on strings goes by the bytes of the texts.
abbrev pub text_less : String → String → Bool
text_less a b = is_less (compare a b)

abbrev pub key_less : ScalarKey → ScalarKey → Bool
key_less a b =
    if kind_number a.kind == kind_number b.kind
    then text_less a.value b.value
    else ltb (kind_number a.kind) (kind_number b.kind)

abbrev pub request_less : RequestRecord → RequestRecord → Bool
request_less a b = key_less a.id.key b.id.key

unfoldable pub insert_request : RequestRecord → List RequestRecord → List RequestRecord
insert_request x [] = x ∷ []
insert_request x (y ∷ ys) =
    let rest = insert_request x ys in if request_less y x then y ∷ rest else x ∷ y ∷ ys

unfoldable pub sort_lost : List RequestRecord → List RequestRecord
sort_lost [] = []
sort_lost (x ∷ xs) = let rest = sort_lost xs in insert_request x rest
