-- ===== src/Supervisor/Runner/Halted.antt =====
-- Giving a generation up leaves a state that speaks to no child.
use mcp_mux.Base.{
  ◌≡◌, refl, sym, ap, ◌∙◌, inl, inr, Bool, true, false, not, ◌||◌, none, some, List, arith,
  string_key, nat_key, Option-cases, is_some,
}
use mcp_mux.Supervisor.Records.{RequestRecord}
use mcp_mux.Supervisor.Registry.{Outcome, ok, err}
use mcp_mux.Supervisor.Registry.Retire.{retire_generation_checked}
use mcp_mux.Supervisor.Runner.{Runner, is_none, Generation, Environment}
use mcp_mux.Supervisor.Runner.Lifecycle.{
  terminate, Flow, go_on, go_on_flow, begin_start, finalize_current, with_host, with_child, on_host,
  on_child, commit_quiescing_cancellations, answer_lost, finalize_or_terminate, retire_current,
  begin_finalizing, discard_pending, replace_generation, replace_current,
}
use mcp_mux.Supervisor.Runner.Sound.{needs_child}
use mcp_mux.Supervisor.Runner.Sound.Core.{answer_lost-Keeps, commit_quiescing_cancellations-Keeps}

-- The runner has ended, has no child, or is in a state that speaks to none.
abbrev pub is_halted : Runner → Bool
is_halted r = is_some r.terminal || is_none r.current || not (needs_child r.state)

state-on_host :
    {A : Type 0} (o : Outcome A) (r : Runner) (k : A → Runner → Flow)
    → ((a : A) (s : Runner) → (k a s).0.state ≡ s.state)
    → (on_host o r k).0.state ≡ r.state
unfolding terminate
state-on_host (g, ok a) r k p = p a (with_host g r)
state-on_host (g, err e) r k p = ground arith

state-on_child :
    {A : Type 0} (o : Outcome A) (r : Runner) (k : A → Runner → Flow)
    → ((a : A) (s : Runner) → (k a s).0.state ≡ s.state)
    → (on_child o r k).0.state ≡ r.state
unfolding terminate
state-on_child (g, ok a) r k p = p a (with_child g r)
state-on_child (g, err e) r k p = ground arith

state-go_on_flow :
    (r : Runner) (f : Flow) (k : Runner → Flow)
    → f.0.state ≡ r.state
    → ((s : Runner) → (k s).0.state ≡ s.state)
    → (go_on_flow f k).0.state ≡ r.state
state-go_on_flow r (s, true) k p q = q s ∙ p
state-go_on_flow r (s, false) k p q = p

module _ (env : Environment) where
  state-finalize_or_terminate : (r : Runner) → (finalize_or_terminate env r).0.state ≡ r.state
  unfolding finalize_current terminate
  state-finalize_or_terminate r = elim (Option-cases r.current) [
    | inl e ↦ ground arith
    | inr (g, e) ↦ ground arith
  ]

  state-answer_lost :
      (lost : List RequestRecord) (r : Runner) → (answer_lost env lost r).0.state ≡ r.state
  state-answer_lost lost r = ap (λ c. c.4) (answer_lost-Keeps env lost r).same_core

  state-retire_current : (g : Generation) (r : Runner) → (retire_current env g r).0.state ≡ r.state
  unfolding retire_current
  state-retire_current g r = state-on_host (retire_generation_checked g.id r.host) r _ λ lost r1.
      state-on_child (retire_generation_checked g.id r1.child) r1 _ λ _ r2.
        state-go_on_flow r2 (answer_lost env lost r2) (finalize_or_terminate env)
          (state-answer_lost lost r2) state-finalize_or_terminate

  begin_start-idle :
      (r : Runner) → needs_child r.state ≡ false → needs_child (begin_start r).state ≡ false
  unfolding begin_start
  begin_start-idle r h = ground arith

  go_on-idle :
      (f : Flow) (k : Runner → Runner)
      → needs_child f.0.state ≡ false
      → ((s : Runner) → f ≡ (s, true) → needs_child (k s).state ≡ false)
      → needs_child (go_on f k).state ≡ false
  go_on-idle (s, true) k p q = q s refl
  go_on-idle (s, false) k p q = p

  -- Whatever the outcome, the state that is left needs no child.
  pub replace_generation-idle :
      (g : Generation) (r : Runner) → needs_child (replace_generation env (some g) r).state ≡ false
  replace_generation-idle g r =
      let kept =
        ap (λ c. c.4) (commit_quiescing_cancellations-Keeps env (begin_finalizing r)).same_core in
      go_on-idle (commit_quiescing_cancellations env (begin_finalizing r)) _ (ap needs_child kept)
        λ s e.
          let idle =
            ap needs_child
              (state-retire_current g (discard_pending s) ∙ sym (ap (λ f. f.0.state) e) ∙ kept) in
          go_on-idle (retire_current env g (discard_pending s)) begin_start idle
            λ t e'. begin_start-idle t (ap needs_child (sym (ap (λ f. f.0.state) e')) ∙ idle)

  pub replace_current-halts :
      (r : Runner) → r.terminal ≡ none → is_halted (replace_current env r) ≡ true
  unfolding replace_current begin_start
  replace_current-halts r going = elim (Option-cases r.current) [
    | inl e ↦ ground arith
    | inr (g, e) ↦ ground (arith, replace_generation-idle g r)
  ]
