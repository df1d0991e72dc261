-- ===== src/Supervisor/Runner/Flush/Ends.antt =====
-- The loops over the queue end by their own test: the fuel is enough.
use mcp_mux.Base.{
  ℕ, zero, suc, ◌<◌, ◌≡◌, refl, ap, subst, ◌∙◌, ◌⊎◌, inl, inr, true, not, ◌&&◌, ◌||◌, Option, none,
  some, arith, string_key, nat_key, Bool-cases, Option-cases, is_some,
}
use mcp_mux.Supervisor.Queue.{
  len, PendingFrame, PendingQueue, pop, pop_first_initialization_ping, take_first,
  is_initialization_ping,
}
use mcp_mux.Supervisor.Queue.Bounds.{take_first-total, take_first_split}
use mcp_mux.Supervisor.Runner.{Runner, Environment, is_active, is_replaying, is_none}
use mcp_mux.Supervisor.Runner.Delivery.{put_pending, can_deliver, deliver_host_first}
use mcp_mux.Supervisor.Runner.Halted.{is_halted}
use mcp_mux.Supervisor.Runner.Flush.Active.{is_running}
use mcp_mux.Supervisor.Runner.Flush.{
  flush_pending, repeat, replay_item, flush_round, ping_round, flush_replay_pings, take_round,
}
use mcp_mux.Supervisor.Runner.Flush.Settles.{Settles, deliver_host_first-Settles}
use mcp_mux.Supervisor.Runner.Flush.Frame.{replay_item-Settles}

some-injective : {A : Type 0} {x y : A} → some x ≡ some y → x ≡ y
some-injective e = ground arith

-- A round either is the last, or leaves fewer frames.
Shortens : (Runner → Option Runner) → Type 0
Shortens round =
    (r s : Runner) → round r ≡ some s → (round s ≡ none) ⊎ (len s.pending < len r.pending)

repeat-last :
    (round : Runner → Option Runner) (n : ℕ) (r : Runner) → round r ≡ none → repeat round n r ≡ r
repeat-last round zero r e = refl
repeat-last round (suc n) r e = ground arith

repeat-ends :
    (round : Runner → Option Runner)
    → Shortens round
    → (n : ℕ) (r : Runner) → len r.pending < n
    → round (repeat round n r) ≡ none
unfolding Shortens
repeat-ends round shorter zero r h = absurd (omega arith)
repeat-ends round shorter (suc n) r h =
    go (round r) refl (λ s less. repeat-ends round shorter n s less)
  where
    go :
        (o : Option Runner)
        → round r ≡ o
        → ((s : Runner) → len s.pending < n → round (repeat round n s) ≡ none)
        → round (elim o as (λ _. Runner) [ none ↦ r | some s ↦ repeat round n s ]) ≡ none
    go none e more = e
    go (some s) e more = elim (shorter r s e) [
      | inl last ↦ ap round (repeat-last round n s last) ∙ last
      | inr less ↦ more s (omega arith)
    ]

pop-len : (q q' : PendingQueue) (item : PendingFrame) → pop q ≡ (q', some item) → len q' < len q
unfolding pop len
pop-len q q' item e = ground arith

ping-len :
    (q q' : PendingQueue) (item : PendingFrame)
    → pop_first_initialization_ping q ≡ (q', some item)
    → (len q' < len q) × (is_initialization_ping item.frame ≡ true)
unfolding pop_first_initialization_ping len
ping-len q q' item e =
    elim (Option-cases (take_first (λ x. is_initialization_ping x.frame) q.items)) [
      | inl none_left ↦ absurd (ground arith)
      | inr (x, found) ↦ ground (
        arith,
        take_first-total (λ x. is_initialization_ping x.frame) q.items x.0 x.1 found,
        take_first_split (λ x. is_initialization_ping x.frame) q.items x.0 x.1 found,
      )
    ]

module _ (env : Environment) where
  halted-flush_round : (s : Runner) → is_halted s ≡ true → flush_round env s ≡ none
  halted-flush_round s h = ground arith

  halted-ping_round : (s : Runner) → is_halted s ≡ true → ping_round env s ≡ none
  halted-ping_round s h = ground arith

  -- A frame was taken, and handling it settled the runner.
  settled :
      (round : Runner → Option Runner) (r s : Runner) (q : PendingQueue)
      → ((t : Runner) → is_halted t ≡ true → round t ≡ none)
      → len q < len r.pending
      → Settles (put_pending q r) s
      → (round s ≡ none) ⊎ (len s.pending < len r.pending)
  settled round r s q last less p = elim p.shrinks [
    | inl h ↦ inl (last s h)
    | inr fewer ↦ inr (omega (arith, less, fewer))
  ]

  flush_taken :
      (r s : Runner) (p : PendingQueue × Option PendingFrame)
      → pop r.pending ≡ p
      → is_running r ≡ true
      → take_round (replay_item env) p r ≡ some s
      → (flush_round env s ≡ none) ⊎ (len s.pending < len r.pending)
  flush_taken r s (q, none) e now taken = absurd (ground arith)
  flush_taken r s (q, some item) e now taken =
      settled (flush_round env) r s q halted-flush_round (pop-len r.pending q item e) (
        subst (λ x. Settles (put_pending q r) x) (some-injective taken)
          (replay_item-Settles env item (put_pending q r) now))

  flush_round-Shortens : Shortens (flush_round env)
  unfolding Shortens
  flush_round-Shortens r s e =
      elim (Bool-cases (is_some r.terminal || is_none r.current || not (is_active r.state))) [
        | inl h ↦ absurd (ground arith)
        | inr h ↦ flush_taken r s (pop r.pending) refl (ground arith) (ground arith)
      ]

  ping_taken :
      (r s : Runner) (p : PendingQueue × Option PendingFrame)
      → pop_first_initialization_ping r.pending ≡ p
      → is_some r.current && is_replaying r.state ≡ true
      → take_round (deliver_host_first env) p r ≡ some s
      → (ping_round env s ≡ none) ⊎ (len s.pending < len r.pending)
  ping_taken r s (q, none) e now taken = absurd (ground arith)
  ping_taken r s (q, some item) e now taken =
      let (less, is_ping) = ping-len r.pending q item e in
      settled (ping_round env) r s q halted-ping_round less (
        subst (λ x. Settles (put_pending q r) x) (some-injective taken)
          (deliver_host_first-Settles env item (put_pending q r) (ready item r q now is_ping)))
    where
      ready :
          (item : PendingFrame) (r : Runner) (q : PendingQueue)
          → is_some r.current && is_replaying r.state ≡ true
          → is_initialization_ping item.frame ≡ true
          → can_deliver item.frame (put_pending q r) ≡ true
      ready item r q now is_ping = ground arith

  ping_round-Shortens : Shortens (ping_round env)
  unfolding Shortens
  ping_round-Shortens r s e =
      elim (Bool-cases (is_some r.terminal || is_none r.current || not (is_replaying r.state))) [
        | inl h ↦ absurd (ground arith)
        | inr h ↦
            ping_taken r s (pop_first_initialization_ping r.pending) refl (ground arith)
              (ground arith)
      ]

-- The loop that hands the queue on ends by its own test, for any runner and surroundings: the
-- rounds that the model allows are enough.
pub flush_pending-ends :
    (env : Environment) (r : Runner) → flush_round env (flush_pending env r) ≡ none
unfolding flush_pending
flush_pending-ends env r =
    repeat-ends (flush_round env) (flush_round-Shortens env) (suc (len r.pending)) r (omega arith)

-- The loop that hands the pings on during a replay ends by its own test, for any runner and
-- surroundings: the rounds that the model allows are enough.
pub flush_replay_pings-ends :
    (env : Environment) (r : Runner) → ping_round env (flush_replay_pings env r) ≡ none
unfolding flush_replay_pings
flush_replay_pings-ends env r =
    repeat-ends (ping_round env) (ping_round-Shortens env) (suc (len r.pending)) r (omega arith)
