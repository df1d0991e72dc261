-- ===== src/Session/History/Snapshot.antt =====
-- The history of tokens carried over a daemon restart: export, then import by the successor.
use mcp_mux.Base.{
  ℕ, ◌≡◌, ◌≢◌, refl, String, Bool, true, false, ◌||◌, some, arith, string_key, nat_key,
  if◌then◌else◌, maybe, ◌<◌, [], ◌∷◌, Bool-cases, inl, inr, ◌+◌,
}
use mcp_mux.Map.{Map, get, put}
use mcp_mux.Map.Laws.{get-put}
use mcp_mux.Map.Distinct.{IsDistinct}
use mcp_mux.Session.State.{
  Heap, BoundHistory, Manager, bound_expired, bound_is_live, older_than, bound_token_ttl,
}
use mcp_mux.Session.History.{
  lookup_history, export_bound_history, export_entries, import_entries, import_bound_history,
  export_skips, import_skips, history_from, snapshot_of,
}

module _ (now later : ℕ) (h : Heap) (m : Manager) where
  -- The entry does not survive: it is left out of the snapshot, or is stale when that is read.
  abbrev lost : String → BoundHistory → Bool
  lost token hist =
      export_skips h now m token hist || import_skips later (snapshot_of h now m token hist)

  get-import_entries :
      (token : String) (l bound : Map String BoundHistory) (n : ℕ)
      → IsDistinct l
      → get token (import_entries later (export_entries h now m l) bound n).0
        ≡ maybe
            (get token bound)
            (λ hist.
              if lost token hist
              then get token bound
              else some (history_from (snapshot_of h now m token hist)))
            (get token l)
  unfolding import_entries export_entries get
  get-import_entries token [] bound n d = refl
  get-import_entries token ((j, hist) ∷ l) bound n d =
      elim (Bool-cases (export_skips h now m j hist)) [
        | inl out ↦ rw out (ground (arith, get-import_entries token l bound n d.1))
        | inr exported ↦
            let entry : BoundHistory = history_from (snapshot_of h now m j hist) in
            rw exported (
              ground (
                arith,
                get-import_entries token l bound n d.1,
                get-import_entries token l (put j entry bound) (n + 1) d.1,
                get-put j token entry bound,
              ))
      ]

  -- If the predecessor's history is a map, the successor knows of a token after the import what the
  -- predecessor knew, where the entry was exported and is fresh enough, and what it knew itself
  -- otherwise.
  pub get-import-export :
      (token : String) (m' : Manager)
      → IsDistinct m.bound
      → get token (import_bound_history later (export_bound_history now h m) m').0.bound
        ≡ maybe
            (get token m'.bound)
            (λ hist.
              if lost token hist
              then get token m'.bound
              else some (history_from (snapshot_of h now m token hist)))
            (get token m.bound)
  unfolding import_bound_history export_bound_history
  get-import-export token m' d = get-import_entries token m.bound m'.bound 0 d

  -- If the predecessor's history is a map, a named token of a named owner that is live at the
  -- snapshot can be refreshed at the successor, with its owner, directory and environment, while
  -- the time to live from the snapshot has not passed, whatever the successor held before.
  pub lookup_history-import-export :
      (token : String) (h' : Heap) (m' : Manager) (hist : BoundHistory)
      → IsDistinct m.bound
      → get token m.bound ≡ some hist
      → bound_is_live h m hist ≡ true
      → token ≢ ""
      → hist.owner_key ≢ ""
      → 0 < now
      → older_than bound_token_ttl later now ≡ false
      → lookup_history token later h'
          (import_bound_history later (export_bound_history now h m) m').0
        ≡ some (hist.owner_key, hist.cwd, hist.env)
  unfolding lookup_history bound_expired
  lookup_history-import-export token h' m' hist d e live t o pos fresh =
      ground (arith, get-import-export token m' d)
