-- ===== src/Supervisor/Queue/Runs.antt =====
-- The queue over any sequence of its methods, at fixed limits.
use mcp_mux.Base.{ℕ, refl, List, [], ◌∷◌, arith, string_key, nat_key}
use mcp_mux.Supervisor.Scalar.{ScalarKey}
use mcp_mux.Supervisor.Queue.{
  PendingFrame, PendingQueue, new_queue, enqueue, push_front_bounded, pop,
  pop_first_initialization_ping, remove_request, discard_same_generation_only, clear,
}
use mcp_mux.Supervisor.Queue.Bounds.{
  total, IsBounded, enqueue-IsBounded, push_front-IsBounded, pop-IsBounded, ping-IsBounded,
  remove-IsBounded,
}
use mcp_mux.Supervisor.Queue.Order.{items-discard}

pub data Call : Type 0 where
  enqueues : PendingFrame → Call
  puts_back : PendingFrame → Call
  pops : Call
  pops_ping : Call
  removes : ScalarKey → Call
  discards : Call
  clears : Call

abbrev pub step : ℕ → ℕ → Call → PendingQueue → PendingQueue
step max_frames max_bytes (enqueues item) q = (enqueue item max_frames max_bytes q).0
step max_frames max_bytes (puts_back item) q = (push_front_bounded item max_frames max_bytes q).0
step max_frames max_bytes pops q = (pop q).0
step max_frames max_bytes pops_ping q = (pop_first_initialization_ping q).0
step max_frames max_bytes (removes key) q = (remove_request key q).0
step max_frames max_bytes discards q = discard_same_generation_only q
step max_frames max_bytes clears q = clear q

abbrev pub run : ℕ → ℕ → List Call → PendingQueue → PendingQueue
run max_frames max_bytes [] q = q
run max_frames max_bytes (c ∷ cs) q = run max_frames max_bytes cs (step max_frames max_bytes c q)

module _ (max_frames max_bytes : ℕ) where
  step-IsBounded :
      (c : Call) (q : PendingQueue)
      → IsBounded max_frames max_bytes q
      → IsBounded max_frames max_bytes (step max_frames max_bytes c q)
  unfolding clear total
  step-IsBounded (enqueues item) q v = enqueue-IsBounded max_frames max_bytes item q v
  step-IsBounded (puts_back item) q v = push_front-IsBounded max_frames max_bytes item q v
  step-IsBounded pops q v = pop-IsBounded max_frames max_bytes q v
  step-IsBounded pops_ping q v = ping-IsBounded max_frames max_bytes q v
  step-IsBounded (removes key) q v = remove-IsBounded max_frames max_bytes key q v
  step-IsBounded discards q v = (items-discard max_frames max_bytes q v).1
  step-IsBounded clears q v = record { counted = refl; few = omega arith; small = omega arith }

  run-step :
      (cs : List Call) (q : PendingQueue)
      → IsBounded max_frames max_bytes q
      → IsBounded max_frames max_bytes (run max_frames max_bytes cs q)
  run-step [] q v = v
  run-step (c ∷ cs) q v = run-step cs (step max_frames max_bytes c q) (step-IsBounded c q v)

-- After any sequence of the queue's operations on a new queue, the byte count is the sum of the
-- frames' sizes and neither limit is passed.
pub run-IsBounded :
    (max_frames max_bytes : ℕ) (cs : List Call)
    → IsBounded max_frames max_bytes (run max_frames max_bytes cs new_queue)
unfolding total
run-IsBounded max_frames max_bytes cs =
    run-step max_frames max_bytes cs new_queue
      (record { counted = refl; few = omega arith; small = omega arith })
