-- ===== src/Supervisor/Registry/Fencing.antt =====
-- What the methods fence off, and that fences stay.
use mcp_mux.Base.{
  ◌<◌, ◌≡◌, sym, ap, ◌∙◌, inl, inr, Bool, true, false, ◌||◌, Option, none, some, List, [], ◌∷◌,
  ◌++◌, arith, string_key, nat_key, ltb, if◌then◌else◌, Bool-cases, Option-cases, length, drop,
  elem, elem-append, elem_self,
}
use mcp_mux.Supervisor.Scalar.{
  ScalarKey, ScalarValue, scalar_key, TombstoneRole, TombstoneKey, tombstone_key, tombstone_request,
  tombstone_token,
}
use mcp_mux.Supervisor.Tombstones.{tombstone}
use mcp_mux.Supervisor.Tombstones
use mcp_mux.Supervisor.Tombstones.Ring.{
  IsRing, recent, add_recent, recent-add, contains-recent, add-IsRing,
}
use mcp_mux.Supervisor.Fences.{limit_reached, PersistentFence}
use mcp_mux.Supervisor.Fences
use mcp_mux.Supervisor.Fences.Atomic.{add_many_atomic, contains-add_many}
use mcp_mux.Supervisor.Fences.Room.{of_key}
use mcp_mux.Supervisor.Records.{RequestRecord, task_related}
use mcp_mux.Supervisor.Registry.{Error, ok, err, DirectionRegistry, is_fenced, fence_many, entomb}
use mcp_mux.Supervisor.Registry.Complete.{fence_request, request_entries, token_entry, entomb_token}

elem-drop_one :
    (a : TombstoneKey) (xs : List TombstoneKey)
    → 1 < length (xs ++ a ∷ [])
    → elem a (drop 1 (xs ++ a ∷ [])) ≡ true
elem-drop_one a [] h = absurd (omega arith)
elem-drop_one a (x ∷ xs) h = ground (arith, elem-append a xs (a ∷ []), elem_self a [])

-- The newest key of a full list stays when one more is added.
newest-add_recent :
    (a b : TombstoneKey) (xs : List TombstoneKey) → elem a (add_recent b (xs ++ a ∷ [])) ≡ true
newest-add_recent a b xs = ground (
  arith,
  elem-drop_one a xs,
  elem-append a xs (a ∷ []),
  elem-append a (xs ++ a ∷ []) (b ∷ []),
  elem-append a (drop 1 (xs ++ a ∷ [])) (b ∷ []),
  elem_self a [],
)

abbrev kept_of : List TombstoneKey → List TombstoneKey
kept_of l = if ltb (length l) Tombstones.tombstone_limit then l else drop 1 l

add_recent_new :
    (a : TombstoneKey) (l : List TombstoneKey)
    → elem a l ≡ false
    → add_recent a l ≡ kept_of l ++ a ∷ []
add_recent_new a l new = ground arith

module _ (role : TombstoneRole) (key : ScalarKey) (t : Tombstones.TombstoneSet) (v : IsRing t)
    (new : Tombstones.contains role key t ≡ false) where
  recent-add_new :
      recent (Tombstones.add role key t) ≡ kept_of (recent t) ++ tombstone role key ∷ []
  recent-add_new =
      recent-add role key t v
      ∙ add_recent_new (tombstone role key) (recent t) (sym (contains-recent role key t v) ∙ new)

  -- A key just entombed is found, also when one more key is entombed after it.
  pub contains-add_tombstone : Tombstones.contains role key (Tombstones.add role key t) ≡ true
  contains-add_tombstone =
      contains-recent role key (Tombstones.add role key t) (add-IsRing role key t v)
      ∙ ap (elem (tombstone role key)) recent-add_new
      ∙ ground (
        arith,
        elem-append (tombstone role key) (kept_of (recent t)) (tombstone role key ∷ []),
        elem_self (tombstone role key) [],
      )

  pub contains-add_next :
      (role' : TombstoneRole) (key' : ScalarKey)
      → Tombstones.contains role key (Tombstones.add role' key' (Tombstones.add role key t)) ≡ true
  contains-add_next role' key' =
      contains-recent role key (Tombstones.add role' key' (Tombstones.add role key t))
        (add-IsRing role' key' (Tombstones.add role key t) (add-IsRing role key t v))
      ∙ ap (elem (tombstone role key)) (
          recent-add role' key' (Tombstones.add role key t) (add-IsRing role key t v)
          ∙ ap (add_recent (tombstone role' key')) recent-add_new)
      ∙ newest-add_recent (tombstone role key) (tombstone role' key') (kept_of (recent t))

-- Fencing several keys either fails and changes nothing, or fences exactly those.
pub fence_many_atomic :
    (es : List TombstoneKey) (g : DirectionRegistry) (e : Error)
    → (fence_many es g).1 ≡ err e
    → (fence_many es g).0 ≡ g
unfolding fence_many
fence_many_atomic es g e failed = elim (Option-cases (Fences.add_many es g.persistent_fences).1) [
  | inl p ↦ ground arith
  | inr (e', p) ↦ ground (arith, add_many_atomic es g.persistent_fences e' p)
]

pub is_fenced-fence_many :
    (es : List TombstoneKey) (g : DirectionRegistry) (role : TombstoneRole) (key : ScalarKey)
    → (fence_many es g).1 ≡ ok tt
    → is_fenced role key (fence_many es g).0 ≡ (is_fenced role key g || elem (of_key role key) es)
unfolding fence_many
is_fenced-fence_many es g role key success =
    elim (Option-cases (Fences.add_many es g.persistent_fences).1) [
      | inl p ↦ ground (arith, contains-add_many es g.persistent_fences p role key)
      | inr (e, p) ↦ ground arith
    ]

entombed :
    (r : RequestRecord) (include_token : Bool) (token : Option ScalarValue) (g : DirectionRegistry)
    → IsRing g.tombstones
    → Tombstones.contains tombstone_request r.id.key g.tombstones ≡ false
    → Tombstones.contains tombstone_request r.id.key
        (entomb_token include_token token (entomb tombstone_request r.id.key g)).tombstones
      ≡ true
unfolding entomb
entombed r false token g v new =
    contains-add_tombstone tombstone_request r.id.key g.tombstones v new
entombed r true none g v new = contains-add_tombstone tombstone_request r.id.key g.tombstones v new
entombed r true (some token) g v new =
    contains-add_next tombstone_request r.id.key g.tombstones v new tombstone_token token.key

-- A request that is fenced is fenced by its ID.
pub is_fenced-fence_request :
    (r : RequestRecord) (include_token : Bool) (g : DirectionRegistry)
    → IsRing g.tombstones
    → Tombstones.contains tombstone_request r.id.key g.tombstones ≡ false
    → (fence_request r include_token g).1 ≡ ok tt
    → is_fenced tombstone_request r.id.key (fence_request r include_token g).0 ≡ true
unfolding fence_request
is_fenced-fence_request r include_token g v new success = elim (Bool-cases (task_related r)) [
  | inl related ↦ ground (
    arith,
    is_fenced-fence_many (request_entries r include_token) g tombstone_request r.id.key,
    elem_self (of_key tombstone_request r.id.key) (token_entry include_token r.progress_token),
  )
  | inr plain ↦ ground (arith, entombed r include_token r.progress_token g v new)
]
