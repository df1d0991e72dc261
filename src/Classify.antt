-- ===== src/Classify.antt =====
-- muxcore/classify: whether a server may be shared, and the numbers it declares in its x-mux
-- capability. Texts of tools are bytes; encoding/json and strings.ToLower are a parameter.
pub mod Verdict
mod Tests
use mcp_mux.Base.{
  ℤ, pos, negsuc, ℕ, zero, String, Bool, true, false, ◌&&◌, ◌||◌, Option, none, some, List, [], ◌∷◌,
  same, string_key, nat_key, ltb, ◌==◌, if◌then◌else◌, length,
}
use mcp_mux.Map.{Map, get}
use mcp_mux.Supervisor.Scalar.{Raw}

pub data SharingMode : Type 0 where
  shared isolated session_aware : SharingMode

pub record Capabilities : Type 0 where
  pub xmux : Raw
  pub experimental : Map String Raw

-- `tools` gives the tools' names and `capabilities` the two places of the x-mux block in a response,
-- `none` where `json.Unmarshal` fails. The others decode a field of the block, with Go's zero for an
-- absent one.
pub record Reader : Type 0 where
  pub lower : Raw → Raw
  pub tools : Raw → Option (List Raw)
  pub capabilities : Raw → Option Capabilities
  pub sharing : Raw → Option String
  pub persistent : Raw → Option Bool
  pub number : String → Raw → Option ℤ

-- `strings.HasPrefix` and `strings.Contains`.
unfoldable pub has_prefix : Raw → Raw → Bool
has_prefix [] text = true
has_prefix (p ∷ ps) [] = false
has_prefix (p ∷ ps) (b ∷ bs) = let rest = has_prefix ps bs in p == b && rest

unfoldable pub contains_text : Raw → Raw → Bool
unfolding has_prefix
contains_text part [] = has_prefix part []
contains_text part (b ∷ bs) = let rest = contains_text part bs in has_prefix part (b ∷ bs) || rest

abbrev pub isolation_prefixes : List Raw
isolation_prefixes =
    (b'b' ∷ b'r' ∷ b'o' ∷ b'w' ∷ b's' ∷ b'e' ∷ b'r' ∷ b'_' ∷ [])
    ∷ (b's' ∷ b'e' ∷ b's' ∷ b's' ∷ b'i' ∷ b'o' ∷ b'n' ∷ b'_' ∷ [])
    ∷ (b'e' ∷ b'd' ∷ b'i' ∷ b't' ∷ b'o' ∷ b'r' ∷ b'_' ∷ [])
    ∷ (b'n' ∷ b'a' ∷ b'v' ∷ b'i' ∷ b'g' ∷ b'a' ∷ b't' ∷ b'e' ∷ [])
    ∷ (b'p' ∷ b'a' ∷ b'g' ∷ b'e' ∷ b'_' ∷ [])
    ∷ (b't' ∷ b'a' ∷ b'b' ∷ b'_' ∷ [])
    ∷ []

abbrev pub isolation_substrings : List Raw
isolation_substrings =
    (b'_' ∷ b'p' ∷ b'r' ∷ b'o' ∷ b'c' ∷ b'e' ∷ b's' ∷ b's' ∷ [])
    ∷ (b'_' ∷ b'd' ∷ b'o' ∷ b'c' ∷ b'u' ∷ b'm' ∷ b'e' ∷ b'n' ∷ b't' ∷ [])
    ∷ (b'_' ∷ b'e' ∷ b'd' ∷ b'i' ∷ b't' ∷ b'o' ∷ b'r' ∷ b'_' ∷ [])
    ∷ (b's' ∷ b'n' ∷ b'a' ∷ b'p' ∷ b's' ∷ b'h' ∷ b'o' ∷ b't' ∷ [])
    ∷ (b'a' ∷ b'c' ∷ b't' ∷ b'i' ∷ b'v' ∷ b'a' ∷ b't' ∷ b'e' ∷ b'_' ∷ b'p' ∷ b'r' ∷ b'o' ∷ b'j'
        ∷ b'e' ∷ b'c' ∷ b't' ∷ [])
    ∷ []

unfoldable pub any_of : (Raw → Bool) → List Raw → Bool
any_of p [] = false
any_of p (x ∷ xs) = let rest = any_of p xs in p x || rest

unfoldable pub is_isolation_pattern : Reader → Raw → Bool
unfolding any_of has_prefix contains_text
is_isolation_pattern reader name =
    let text = reader.lower name in
    any_of (λ prefix. has_prefix prefix text) isolation_prefixes
    || any_of (λ part. contains_text part text) isolation_substrings

unfoldable pub matching : Reader → List Raw → List Raw
matching reader [] = []
matching reader (name ∷ names) =
    let rest = matching reader names in
    if is_isolation_pattern reader name then name ∷ rest else rest

abbrev pub verdict : List Raw → SharingMode × List Raw
verdict [] = (shared, [])
verdict (name ∷ names) = (isolated, name ∷ names)

abbrev classify_names : Reader → Option (List Raw) → SharingMode × List Raw
classify_names reader none = (shared, [])
classify_names reader (some names) = verdict (matching reader names)

unfoldable pub classify_tools : Reader → Raw → SharingMode × List Raw
unfolding matching
classify_tools reader response = classify_names reader (reader.tools response)

abbrev pub block_of : Option Capabilities → Option Raw
block_of none = none
block_of (some c) = if ltb 0 (length c.xmux) then some c.xmux else get "x-mux" c.experimental

abbrev pub and_read : {A : Type 0} → Option Raw → (Raw → Option A) → Option A
and_read none out = none
and_read (some block) out = out block

-- `none` is `false`.
unfoldable pub unmarshal_xmux : {A : Type 0} → Reader → Raw → (Raw → Option A) → Option A
unmarshal_xmux reader response out = and_read (block_of (reader.capabilities response)) out

abbrev mode_of : Option String → Option SharingMode
mode_of none = none
mode_of (some text) =
    if same text "shared"
    then some shared
    else if same text "isolated"
    then some isolated
    else if same text "session-aware"
    then some session_aware
    else none

unfoldable pub classify_capabilities : Reader → Raw → Option SharingMode
unfolding unmarshal_xmux
classify_capabilities reader response = mode_of (unmarshal_xmux reader response reader.sharing)

abbrev or_false : Option Bool → Bool
or_false none = false
or_false (some b) = b

unfoldable pub parse_persistent : Reader → Raw → Bool
unfolding unmarshal_xmux
parse_persistent reader response = or_false (unmarshal_xmux reader response reader.persistent)

abbrev pub capped : ℕ → Option ℤ → ℕ
capped cap none = 0
capped cap (some (negsuc n)) = 0
capped cap (some (pos n)) = if ltb cap n then cap else n

unfoldable pub parse_tool_timeout : Reader → Raw → ℕ
unfolding unmarshal_xmux
parse_tool_timeout reader response =
    capped 3600 (unmarshal_xmux reader response (reader.number "toolTimeout"))

unfoldable pub parse_drain_timeout : Reader → Raw → ℕ
unfolding unmarshal_xmux
parse_drain_timeout reader response =
    capped 300 (unmarshal_xmux reader response (reader.number "drainTimeout"))

unfoldable pub parse_idle_timeout : Reader → Raw → ℕ
unfolding unmarshal_xmux
parse_idle_timeout reader response =
    capped 86400 (unmarshal_xmux reader response (reader.number "idleTimeout"))

unfoldable pub parse_progress_interval : Reader → Raw → ℕ
unfolding unmarshal_xmux
parse_progress_interval reader response =
    capped 60 (unmarshal_xmux reader response (reader.number "progressInterval"))
