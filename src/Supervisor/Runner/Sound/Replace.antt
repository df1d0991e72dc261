-- ===== src/Supervisor/Runner/Sound/Replace.antt =====
-- Giving a generation up, and writing to the child, which may lead to it, keep the runner sound.
use mcp_mux.Base.{
  ◌≡◌, refl, sym, ap, ◌∙◌, inl, inr, Bool, true, false, Option, none, some, arith, string_key,
  nat_key, Bool-cases, is_some,
}
use mcp_mux.Supervisor.Registry.Retire.{retire_generation_checked}
use mcp_mux.Supervisor.Queue.Order.{items-discard}
use mcp_mux.Supervisor.Runner.{Runner, Message, WriteOutcome, Generation, Environment}
use mcp_mux.Supervisor.Runner.Lifecycle.{
  Flow, write_child, with_host, with_child, retire_current, begin_finalizing, discard_pending,
  replace_generation, replace_current, tell_child, fully_written, write_to, or_replace, begin_start,
  commit_quiescing_cancellations,
}
use mcp_mux.Supervisor.Runner.Sound.{
  Follows, needs_child, stay, follow, branch, go_on-Follows_from, go_on-Follows,
  go_on_flow-Follows_from, moved, calm,
}
use mcp_mux.Supervisor.Runner.Sound.Core.{
  Keeps, answer_lost-Keeps, commit_quiescing_cancellations-Keeps,
}
use mcp_mux.Supervisor.Runner.Sound.Lifecycle.{
  begin_start-Follows, finalize_or_terminate-Follows, on_host-Follows, on_child-Follows,
  answer_lost-Follows, commit_quiescing_cancellations-Follows, if-Follows,
}

state_after :
    {r s : Runner} {f : Flow} {b : Bool}
    → Keeps r f.0
    → f ≡ (s, true)
    → needs_child r.state ≡ b
    → needs_child s.state ≡ b
state_after k e h = ap needs_child (sym (ap (λ f. f.0.state) e) ∙ ap (λ c. c.4) k.same_core) ∙ h

module _ (env : Environment) where
  pub retire_current-Follows :
      (g : Generation) (r : Runner)
      → needs_child r.state ≡ false
      → Follows env r (retire_current env g r).0
  unfolding retire_current
  retire_current-Follows g r idle =
      on_host-Follows env (retire_generation_checked g.id r.host) r _ λ lost g1.
        on_child-Follows env (retire_generation_checked g.id r.child) (with_host g1 r) _ λ _ g2.
          go_on_flow-Follows_from env _ _
            (answer_lost-Follows env lost (with_child g2 (with_host g1 r)))
            λ s e.
              finalize_or_terminate-Follows env s
                (state_after (answer_lost-Keeps env lost (with_child g2 (with_host g1 r))) e idle)

  pub discard_pending-Follows : (r : Runner) → Follows env r (discard_pending r)
  discard_pending-Follows r =
      moved env
        (λ s. record {
          bounded =
              (items-discard env.pending_frame_limit env.pending_byte_limit r.pending s.bounded).1;
          alone = s.alone;
          latest = s.latest;
          manned = s.manned;
        })
        refl (omega arith) refl (λ g e. inl e)

  -- A state that speaks to no child may be taken at any time.
  pub unmanned :
      {r r' : Runner}
      → needs_child r'.state ≡ false
      → r'.pending ≡ r.pending
      → r'.current ≡ r.current
      → r'.starting ≡ r.starting
      → r'.generation ≡ r.generation
      → r'.terminal ≡ r.terminal
      → r'.host_log ≡ r.host_log
      → Follows env r r'
  unmanned idle pending current starting generation ended log =
      moved env
        (λ s. record {
          bounded = rw pending s.bounded;
          alone = λ h. rw current (s.alone (sym starting ∙ h));
          latest = λ g e. s.latest g (sym current ∙ e) ∙ sym generation;
          manned = λ h. absurd (ground arith);
        })
        ended (omega (arith, generation)) log (λ g e. inl (sym current ∙ e))

  replace_generation-Follows :
      (o : Option Generation) (r : Runner) → Follows env r (replace_generation env o r)
  replace_generation-Follows none r = begin_start-Follows env r
  replace_generation-Follows (some g) r = follow env (unmanned refl refl refl refl refl refl refl) (
      go_on-Follows_from env (commit_quiescing_cancellations env (begin_finalizing r)) _
        (commit_quiescing_cancellations-Follows env (begin_finalizing r))
        λ s e. follow env (discard_pending-Follows s) (
          go_on-Follows env (retire_current env g (discard_pending s)) begin_start
            (retire_current-Follows g (discard_pending s)
              (state_after (commit_quiescing_cancellations-Keeps env (begin_finalizing r)) e refl))
            (begin_start-Follows env)))

  pub replace_current-Follows : (r : Runner) → Follows env r (replace_current env r)
  unfolding replace_current
  replace_current-Follows r =
      branch env (is_some r.terminal) (stay env r) (replace_generation-Follows r.current r)

  write_to-Follows :
      (m : Message) (o : Option Generation) (r : Runner) → Follows env r (write_to env m o r).0
  write_to-Follows m none r = stay env r
  write_to-Follows m (some g) r = calm env refl

  pub write_child-Follows : (m : Message) (r : Runner) → Follows env r (write_child env m r).0
  unfolding write_child
  write_child-Follows m r = write_to-Follows m r.current r

  write_to-Keeps :
      (m : Message) (o : Option Generation) (r : Runner) → Keeps r (write_to env m o r).0
  write_to-Keeps m none r = record { same_core = refl }
  write_to-Keeps m (some g) r = record { same_core = refl }

  pub write_child-Keeps : (m : Message) (r : Runner) → Keeps r (write_child env m r).0
  unfolding write_child
  write_child-Keeps m r = write_to-Keeps m r.current r

  or_replace-Follows :
      {r : Runner} (w : Runner × WriteOutcome × Bool)
      → Follows env r w.0
      → Follows env r (or_replace env w).0
  or_replace-Follows (s, outcome, failed) p =
      if-Follows env (fully_written (outcome, failed)) _ _ p
        (follow env p (replace_current-Follows s))

  pub tell_child-Follows : (m : Message) (r : Runner) → Follows env r (tell_child env m r).0
  unfolding tell_child
  tell_child-Follows m r = or_replace-Follows (write_child env m r) (write_child-Follows m r)

  or_replace-told :
      (w : Runner × WriteOutcome × Bool) (s : Runner) → or_replace env w ≡ (s, true) → s ≡ w.0
  or_replace-told (t, outcome, failed) s e = elim (Bool-cases (fully_written (outcome, failed))) [
    | inl h ↦ ground arith
    | inr h ↦ absurd (ground arith)
  ]

  -- A child that was told everything is still the current one.
  pub tell_child-told : (m : Message) (r s : Runner) → tell_child env m r ≡ (s, true) → Keeps r s
  unfolding tell_child
  tell_child-told m r s e = rw (or_replace-told (write_child env m r) s e) (write_child-Keeps m r)
