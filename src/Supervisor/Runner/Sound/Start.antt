-- ===== src/Supervisor/Runner/Sound/Start.antt =====
-- The end of a start attempt, and a new choice of the engine, keep the runner sound.
use mcp_mux.Base.{
  ℕ, ◌+◌, String, ◌≡◌, refl, Bool, true, false, not, ◌&&◌, ◌||◌, Option, none, some, arith, same,
  string_key, nat_key, ◌==◌, is_some, inl, inr, ◌<◌,
}
use mcp_mux.Supervisor.Runner.{
  Runner, is_active, is_none, active, protocol_failure, Generation, Environment,
}
use mcp_mux.Supervisor.Runner.Start.{
  StartResult, handle_start_attempt, start_result_has_authority, cleanup_invalid_start,
  new_generation, give_up, failed_start, activate, adopt, started, attempt_over, finish_attempt,
  begin_resolve, switch_engine, handle_resolve,
}
use mcp_mux.Supervisor.Runner.Sound.{Follows, stay, follow, branch, moved, calm}
use mcp_mux.Supervisor.Runner.Sound.Lifecycle.{terminate-Follows, schedule_retry-Follows}
use mcp_mux.Supervisor.Runner.Sound.Replace.{replace_current-Follows}
use mcp_mux.Supervisor.Runner.Sound.Flush.{flush_pending-Follows}
use mcp_mux.Supervisor.Runner.Sound.Replay.{manned_state, begin_replay-Follows}

-- A new generation has the number it was given.
new_generation-id :
    (id : ℕ) (requested : String) (s : StartResult) (g : Generation)
    → new_generation id requested s ≡ some g
    → g.id ≡ id
unfolding new_generation
new_generation-id id requested s g e = ground arith

module _ (env : Environment) where
  give_up-Follows : (s : StartResult) (r : Runner) → Follows env r (give_up s r)
  give_up-Follows s r =
      branch env (cleanup_invalid_start s) (schedule_retry-Follows env r)
        (terminate-Follows env protocol_failure r)

  failed_start-Follows :
      (unproven : Bool) (s : StartResult) (r : Runner) → Follows env r (failed_start unproven s r)
  failed_start-Follows unproven s r =
      branch env (start_result_has_authority s && not (cleanup_invalid_start s))
        (terminate-Follows env protocol_failure r)
        (branch env (unproven && not s.child) (terminate-Follows env protocol_failure r)
          (schedule_retry-Follows env r))

  activate-Follows : (r : Runner) → is_some r.current ≡ true → Follows env r (activate env r)
  activate-Follows r present =
      follow env (manned_state env present refl refl refl refl refl refl)
        (flush_pending-Follows env (record r { state = active }))

  -- No engine is being started, and the number is new.
  adopt-Follows :
      (g : Generation) (r : Runner)
      → r.starting ≡ false
      → r.generation < g.id
      → Follows env r (adopt env g r)
  adopt-Follows g r free new =
      follow env
        (moved env
          (λ s. record {
            bounded = s.bounded;
            alone = λ h. absurd (ground arith);
            latest = λ g' e. ground arith;
            manned = λ h. refl;
          })
          refl (omega (arith, new)) refl (λ g' e. inr (ground (arith, new))))
        (branch env env.modern (follow env (calm env refl) (activate-Follows _ refl)) (
          branch env (is_some r.handshake.request) (begin_replay-Follows env _)
            (activate-Follows _ refl)))

  started-Follows :
      (requested : String) (s : StartResult) (r : Runner)
      → r.starting ≡ false
      → Follows env r (started env requested s r)
  started-Follows requested s r free = go (new_generation (r.generation + 1) requested s) refl
    where
      go :
          (o : Option Generation)
          → new_generation (r.generation + 1) requested s ≡ o
          → Follows env r (elim o as (λ _. Runner) [ none ↦ give_up s r | some g ↦ adopt env g r ])
      go none e = give_up-Follows s r
      go (some g) e =
          adopt-Follows g r free
            (omega (arith, new_generation-id (r.generation + 1) requested s g e))

  finish_attempt-Follows :
      (requested : String) (s : StartResult) (error : Option Bool) (r : Runner)
      → r.starting ≡ false
      → Follows env r (finish_attempt env requested s error r)
  finish_attempt-Follows requested s none r free = started-Follows requested s r free
  finish_attempt-Follows requested s (some unproven) r free = failed_start-Follows unproven s r

  attempt_over-Follows : (r : Runner) → Follows env r (attempt_over r)
  attempt_over-Follows r =
      moved env
        (λ s. record {
          bounded = s.bounded;
          alone = λ h. absurd (ground arith);
          latest = s.latest;
          manned = s.manned;
        })
        refl (omega arith) refl (λ g e. inl e)

  pub handle_start_attempt-Follows :
      (attempt : ℕ) (requested : String) (s : StartResult) (error : Option Bool) (r : Runner)
      → Follows env r (handle_start_attempt env attempt requested s error r)
  unfolding handle_start_attempt
  handle_start_attempt-Follows attempt requested s error r =
      branch env (not (attempt == r.start_id) || not r.starting || is_some r.terminal)
        (branch env (start_result_has_authority s && not (cleanup_invalid_start s))
          (terminate-Follows env protocol_failure r) (stay env r))
        (follow env (attempt_over-Follows r)
          (finish_attempt-Follows requested s error (attempt_over r) refl))

  pub begin_resolve-Follows : (r : Runner) → Follows env r (begin_resolve r)
  unfolding begin_resolve
  begin_resolve-Follows r =
      branch env (is_some r.terminal || r.resolving || is_none r.current || not (is_active r.state))
        (stay env r) (calm env refl)

  switch_engine-Follows :
      (ref : String) (o : Option Generation) (r : Runner)
      → Follows env r (switch_engine env ref o r)
  switch_engine-Follows ref none r = stay env r
  switch_engine-Follows ref (some g) r =
      branch env (same ref "" || same ref g.requested) (stay env r) (replace_current-Follows env r)

  pub handle_resolve-Follows :
      (attempt : ℕ) (ref : String) (failed : Bool) (r : Runner)
      → Follows env r (handle_resolve env attempt ref failed r)
  unfolding handle_resolve
  handle_resolve-Follows attempt ref failed r =
      branch env (not (attempt == r.resolve_id) || not r.resolving || is_some r.terminal)
        (stay env r)
        (follow env (calm env refl)
          (branch env failed (stay env _) (switch_engine-Follows ref r.current _)))
