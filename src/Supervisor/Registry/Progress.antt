-- ===== src/Supervisor/Registry/Progress.antt =====
-- muxcore/supervisor/correlation.go: the progress of a token grows.
use mcp_mux.Base.{
  ℕ, ◌≡◌, inl, inr, Bool, true, false, ◌&&◌, Option, none, some, arith, string_key, nat_key, ◌==◌,
  if◌then◌else◌, Option-cases,
}
use Prim.Native.Nat.{Ordering}
use mcp_mux.Map.{get, put}
use mcp_mux.Map.Laws.{get-put}
use mcp_mux.Supervisor.Scalar.{scalar_key}
use mcp_mux.Supervisor.Numbers.{compare_canonical_numbers}
use mcp_mux.Supervisor.Records.{ProgressMeta, TokenRecord}
use mcp_mux.Supervisor.Registry.{DirectionRegistry}

abbrev pub exceeds : Ordering → Bool
exceeds Ordering.gt = true
exceeds _ = false

abbrev pub advances : ProgressMeta → TokenRecord → Bool
advances meta token = elim token.last [
  | none ↦ true
  | some last ↦ exceeds (compare_canonical_numbers meta.progress last)
]

abbrev pub accept_found :
    ProgressMeta → ℕ → Option TokenRecord → DirectionRegistry → DirectionRegistry × Bool
accept_found meta generation none g = (g, false)
accept_found meta generation (some token) g =
    if token.generation == generation && advances meta token
    then (
      record g {
        tokens = put meta.token.key (record token { last = some meta.progress }) g.tokens;
      },
      true,
    )
    else (g, false)

unfoldable pub accept_progress : ProgressMeta → ℕ → DirectionRegistry → DirectionRegistry × Bool
accept_progress meta generation g = accept_found meta generation (get meta.token.key g.tokens) g

-- After a progress was accepted for a token, another for the same token and generation is accepted
-- exactly where it is the greater one.
pub accept_progress_grows :
    (meta meta' : ProgressMeta) (generation : ℕ) (g : DirectionRegistry)
    → meta'.token.key ≡ meta.token.key
    → (accept_progress meta generation g).1 ≡ true
    → (accept_progress meta' generation (accept_progress meta generation g).0).1
      ≡ exceeds (compare_canonical_numbers meta'.progress meta.progress)
unfolding accept_progress
accept_progress_grows meta meta' generation g same_key accepted =
    elim (Option-cases (get meta.token.key g.tokens)) [
      | inl e ↦ absurd (ground arith)
      | inr (token, e) ↦ ground (
        arith,
        get-put meta.token.key meta.token.key (record token { last = some meta.progress }) g.tokens,
      )
    ]
