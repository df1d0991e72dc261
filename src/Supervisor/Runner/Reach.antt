-- ===== src/Supervisor/Runner/Reach.antt =====
-- muxcore/supervisor/run.go: the runners that the loop of `Run` comes by.
use mcp_mux.Base.{ℕ, ◌≡◌, refl, sym, subst, none, arith, string_key, nat_key}
use mcp_mux.Supervisor.Queue.Bounds.{total}
use mcp_mux.Supervisor.Runner.{Runner, new_runner, Environment}
use mcp_mux.Supervisor.Runner.Lifecycle.{begin_start}
use mcp_mux.Supervisor.Runner.Events.{Event, handle_event}
use mcp_mux.Supervisor.Runner.Sound.{IsSound}
use mcp_mux.Supervisor.Runner.Sound.Events.{handle_event-Follows}

-- Any event may come, and the surroundings may answer anything; the limits are configured.
pub data Reach (max_frames max_bytes : ℕ) : Runner → Type 0 where
  begun : Reach max_frames max_bytes (begin_start new_runner)
  handled :
      {r : Runner}
      → Reach max_frames max_bytes r
      → r.terminal ≡ none
      → (env : Environment) (event : Event) → env.pending_frame_limit ≡ max_frames
      → env.pending_byte_limit ≡ max_bytes
      → Reach max_frames max_bytes (handle_event env event r)

new_runner-IsSound :
    (max_frames max_bytes : ℕ) → IsSound max_frames max_bytes (begin_start new_runner)
unfolding begin_start new_runner total
new_runner-IsSound max_frames max_bytes = record {
  bounded = record { counted = refl; few = omega arith; small = omega arith };
  alone = λ h. refl;
  latest = λ g e. absurd (ground arith);
  manned = λ h. absurd (ground arith);
}

-- Every runner that the loop comes by, whatever the events and whatever the surroundings answer at
-- each, keeps its queue within the configured limits with the bytes counted exactly, is starting an
-- engine only where none is current, has as its current engine the one with the latest number, and
-- has a current engine whenever it is replaying, active, quiescing or waiting for a dormant exit.
pub Reach-IsSound :
    (max_frames max_bytes : ℕ) (r : Runner)
    → Reach max_frames max_bytes r
    → IsSound max_frames max_bytes r
Reach-IsSound max_frames max_bytes _ begun = new_runner-IsSound max_frames max_bytes
Reach-IsSound max_frames max_bytes _ (handled {r} before going env event frames bytes) =
    let s = Reach-IsSound max_frames max_bytes r before in
    subst (λ n. IsSound n max_bytes (handle_event env event r)) frames
      (subst (λ n. IsSound env.pending_frame_limit n (handle_event env event r)) bytes
        ((handle_event-Follows env event r).sound (
          subst (λ n. IsSound env.pending_frame_limit n r) (sym bytes)
            (subst (λ n. IsSound n max_bytes r) (sym frames) s))))
