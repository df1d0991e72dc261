-- ===== src/Session/Inflight.antt =====
-- muxcore/session/session_manager.go: requests in flight, and which session answers a callback of
-- the server. A range loop over the in-flight map takes some order; here it is the map's.
pub mod Callback
use mcp_mux.Base.{
  ℕ, String, Bool, false, ◌||◌, Option, none, some, if◌then◌else◌, ◌==◌, ltb, List, [], ◌∷◌,
  string_key, nat_key,
}
use mcp_mux.Map.{Map, get, put, delete, size}
use mcp_mux.Session.State.{Context, Manager}

unfoldable pub track_request : String → ℕ → ℕ → Manager → Manager
track_request remapped_id session_id now m = record m {
  inflight = put remapped_id session_id m.inflight;
  last_active = put session_id now m.last_active;
}

unfoldable pub complete_request : String → Manager → Manager
complete_request remapped_id m = record m { inflight = delete remapped_id m.inflight }

pub record InflightEntry : Type 0 where
  pub remapped_id : String
  pub session_id : ℕ

unfoldable pub entries_of : Map String ℕ → List InflightEntry
entries_of [] = []
entries_of ((id, sid) ∷ m) = record { remapped_id = id; session_id = sid } ∷ entries_of m

unfoldable pub drain_inflight : Manager → Manager × List InflightEntry
unfolding entries_of
drain_inflight m = (record m { inflight = [] }, entries_of m.inflight)

-- `seen`, a set of session IDs.
abbrev pub contains : ℕ → List ℕ → Bool
contains sid [] = false
contains sid (s ∷ seen) = s == sid || contains sid seen

unfoldable pub seen_in : Map String ℕ → List ℕ
seen_in [] = []
seen_in ((id, sid) ∷ m) = let seen = seen_in m in if contains sid seen then seen else sid ∷ seen

-- A missing entry reads as Go's zero time.
abbrev pub last_active_of : ℕ → Manager → ℕ
last_active_of sid m = elim (get sid m.last_active) [ none ↦ 0 | some t ↦ t ]

unfoldable pub most_recent : Manager → List ℕ → ℕ → ℕ → ℕ
most_recent m [] best_id best_time = best_id
most_recent m (sid ∷ seen) best_id best_time =
    let later = ltb best_time (last_active_of sid m) in
    most_recent m seen (if later then sid else best_id)
      (if later then last_active_of sid m else best_time)

abbrev pub choose : Manager → List ℕ → Option ℕ
choose m [] = none
choose m (sid ∷ []) = some sid
choose m (sid ∷ s ∷ seen) = some (most_recent m (sid ∷ s ∷ seen) 0 0)

-- The session that the callback goes to, if any.
unfoldable pub callback_session : Manager → Option ℕ
callback_session m = choose m (seen_in m.inflight)

abbrev session_at : Manager → Option ℕ → Option Context
session_at m none = none
session_at m (some sid) = get sid m.sessions

unfoldable pub resolve_callback : Manager → Option Context
resolve_callback m = session_at m (callback_session m)

unfoldable pub get_session : ℕ → Manager → Option Context
get_session session_id m = get session_id m.sessions

unfoldable pub session_count : Manager → ℕ
session_count m = size m.sessions
