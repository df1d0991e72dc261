-- ===== src/Session/Inflight/Callback.antt =====
-- Which session answers a callback of the server.
use mcp_mux.Base.{
  ℕ, ◌≤◌, ◌<◌, ◌≡◌, ◌⊎◌, ◌≢◌, inl, inr, refl, String, true, false, none, some, arith, string_key,
  nat_key, ◌==◌, [], ◌∷◌, List, Bool-cases,
}
use mcp_mux.Map.{Map, get}
use mcp_mux.Map.Distinct.{IsDistinct}
use mcp_mux.Session.State.{Manager}
use mcp_mux.Session.Inflight.{
  choose, contains, seen_in, last_active_of, most_recent, callback_session,
}

contains-seen_in :
    (m : Map String ℕ) (id : String) (sid : ℕ)
    → get id m ≡ some sid
    → contains sid (seen_in m) ≡ true
unfolding get seen_in
contains-seen_in [] id sid h = ground arith
contains-seen_in ((j, s) ∷ m) id sid h = ground (arith, contains-seen_in m id sid)

get_of_contains :
    (m : Map String ℕ) (sid : ℕ)
    → IsDistinct m
    → contains sid (seen_in m) ≡ true
    → (id : String) × (get id m ≡ some sid)
unfolding get seen_in
get_of_contains [] sid d h = ground arith
get_of_contains ((j, s) ∷ m) sid d h = elim (Bool-cases (s == sid)) [
  | inl here ↦ (j, ground arith)
  | inr other ↦ let (id, found) = get_of_contains m sid d.1 (ground arith) in (id, ground arith)
]

module _ (m : Manager) where
  -- The session found is no less recent than the start and than any session seen.
  most_recent_max :
      (seen : List ℕ) (best_id best_time sid : ℕ)
      → best_time ≤ last_active_of best_id m
      → (best_time ≤ last_active_of (most_recent m seen best_id best_time) m)
  unfolding most_recent
  most_recent_max [] best_id best_time sid h = h
  most_recent_max (s ∷ seen) best_id best_time sid h = ground (
    arith,
    most_recent_max seen best_id best_time sid h,
    most_recent_max seen s (last_active_of s m) sid,
  )

  most_recent-ge :
      (seen : List ℕ) (best_id best_time sid : ℕ)
      → best_time ≤ last_active_of best_id m
      → contains sid seen ≡ true
      → last_active_of sid m ≤ last_active_of (most_recent m seen best_id best_time) m
  unfolding most_recent
  most_recent-ge [] best_id best_time sid h c = ground arith
  most_recent-ge (s ∷ seen) best_id best_time sid h c = ground (
    arith,
    most_recent_max seen best_id best_time sid h,
    most_recent_max seen s (last_active_of s m) sid,
    most_recent-ge seen best_id best_time sid h,
    most_recent-ge seen s (last_active_of s m) sid,
  )

  -- It is one of those seen, or it is the start and none seen is more recent.
  most_recent_cases :
      (seen : List ℕ) (best_id best_time sid : ℕ)
      → (contains (most_recent m seen best_id best_time) seen ≡ true)
        ⊎ ((most_recent m seen best_id best_time ≡ best_id)
            × ((contains sid seen ≡ false) ⊎ (last_active_of sid m ≤ best_time)))
  unfolding most_recent
  most_recent_cases [] best_id best_time sid = inr (refl, inl refl)
  most_recent_cases (s ∷ seen) best_id best_time sid = ground (
    arith,
    most_recent_cases seen best_id best_time sid,
    most_recent_cases seen s (last_active_of s m) sid,
  )

choose_most_recent :
    (m : Manager) (seen : List ℕ) (sid s : ℕ)
    → choose m seen ≡ some sid
    → contains s seen ≡ true
    → 0 < last_active_of s m
    → (contains sid seen ≡ true) × (last_active_of s m ≤ last_active_of sid m)
choose_most_recent m [] sid s e c pos = ground arith
choose_most_recent m (a ∷ []) sid s e c pos = ground arith
choose_most_recent m (a ∷ b ∷ seen) sid s e c pos =
    ground (arith, most_recent_cases m (a ∷ b ∷ seen) 0 0 s, most_recent-ge m (a ∷ b ∷ seen) 0 0 s)

choose-none : (m : Manager) (seen : List ℕ) → choose m seen ≡ none → seen ≡ []
choose-none m [] e = refl
choose-none m (a ∷ []) e = ground arith
choose-none m (a ∷ b ∷ seen) e = ground arith

-- If every request in flight was tracked at a positive time, the callback goes to a session with
-- a request in flight, and no session with one was active more recently.
pub callback_session_most_recent :
    (m : Manager) (sid : ℕ) (id : String) (s : ℕ)
    → IsDistinct m.inflight
    → callback_session m ≡ some sid
    → get id m.inflight ≡ some s
    → 0 < last_active_of s m
    → ((id' : String) × (get id' m.inflight ≡ some sid))
      × (last_active_of s m ≤ last_active_of sid m)
unfolding callback_session
callback_session_most_recent m sid id s d e found pos =
    let (seen, most) =
      choose_most_recent m (seen_in m.inflight) sid s e (contains-seen_in m.inflight id s found)
        pos in
    (get_of_contains m.inflight sid d seen, most)

-- While a request is in flight, the callback goes to some session.
pub callback_session-ne-none :
    (m : Manager) (id : String) (s : ℕ) → get id m.inflight ≡ some s → callback_session m ≢ none
unfolding callback_session
callback_session-ne-none m id s found e =
    ground (arith, choose-none m (seen_in m.inflight) e, contains-seen_in m.inflight id s found)
