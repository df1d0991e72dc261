-- ===== src/Supervisor/Runner/Sound/Lifecycle.antt =====
-- Writing, starting and replacing the current generation keep the runner sound.
use mcp_mux.Supervisor.Registry.Complete.{cancel}
use mcp_mux.Supervisor.Queue.{PendingFrame}
use mcp_mux.Map.{get}
use mcp_mux.Supervisor.Scalar.{scalar_key, ScalarValue}
use mcp_mux.Base.{
  ◌≡◌, refl, inl, inr, Bool, true, false, not, ◌||◌, Option, none, some, List, [], ◌∷◌, arith,
  string_key, nat_key, if◌then◌else◌, Bool-cases, is_some,
}
use mcp_mux.Supervisor.Runner.{
  Runner, Reason, host_output_failure, Message, Environment, protocol_failure, Generation, is_none,
}
use mcp_mux.Supervisor.Runner.Lifecycle.{
  terminate, Flow, write_host, tell_host, begin_start, schedule_retry, is_retired, finalize_found,
  finalize_current, with_host, with_child, on_host, on_child, answer_lost, finalize_or_terminate,
  own_record, may_cancel, commit_record, commit_id, commit_items, commit_quiescing_cancellations,
}
use mcp_mux.Supervisor.Runner.Sound.{
  Follows, quiet-IsSound, stay, follow, branch_on, needs_child, go_on_flow-Follows, moved, calm,
}
use mcp_mux.Supervisor.Records.{RequestRecord}
use mcp_mux.Supervisor.Registry.{Outcome, ok, err, DirectionRegistry}

module _ (env : Environment) where
  pub terminate-Follows : (reason : Reason) (r : Runner) → Follows env r (terminate reason r)
  unfolding terminate
  terminate-Follows reason r =
      branch_on env (is_some r.terminal) (λ _. stay env r)
        λ going. record {
          sound = quiet-IsSound refl;
          final = λ h. absurd (ground arith);
          later = omega arith;
          fresh = λ g e. inl e;
          told = (stay env r).told;
        }

  write_host-Follows : (m : Message) (r : Runner) → Follows env r (write_host env m r).0
  unfolding write_host
  write_host-Follows m r = record {
    sound = quiet-IsSound refl;
    final = λ h. refl;
    later = omega arith;
    fresh = λ g e. inl e;
    told = (_ ∷ [], refl);
  }

  pub tell_host-Follows : (m : Message) (r : Runner) → Follows env r (tell_host env m r).0
  unfolding tell_host
  tell_host-Follows m r = told (write_host env m r) (write_host-Follows m r)
    where
      told :
          (f : Flow)
          → Follows env r f.0
          → Follows env r
              (if◌then◌else◌ {A = Flow} f.1
                (f.0, true)
                (terminate host_output_failure f.0, false)).0
      told (s, true) p = p
      told (s, false) p = follow env p (terminate-Follows host_output_failure s)

  pub begin_start-Follows : (r : Runner) → Follows env r (begin_start r)
  unfolding begin_start
  begin_start-Follows r =
      branch_on env (is_some r.terminal || r.starting || is_some r.current) (λ _. stay env r)
        λ free.
          moved env
            (λ s. record {
              bounded = s.bounded;
              alone = λ h. ground arith;
              latest = s.latest;
              manned = λ h. absurd (ground arith);
            })
            refl (omega arith) refl (λ g e. inl e)

  pub schedule_retry-Follows : (r : Runner) → Follows env r (schedule_retry r)
  unfolding schedule_retry
  schedule_retry-Follows r =
      branch_on env (is_some r.terminal || is_some r.current || r.timers.retry) (λ _. stay env r)
        λ free.
          moved env
            (λ s. record {
              bounded = s.bounded;
              alone = s.alone;
              latest = s.latest;
              manned = λ h. absurd (ground arith);
            })
            refl (omega arith) refl (λ g e. inl e)

  -- The current generation may go only in a state that needs none.
  finalize_found-Follows :
      (o : Option Generation) (r : Runner)
      → needs_child r.state ≡ false
      → Follows env r (finalize_found env o r).0
  finalize_found-Follows none r idle = stay env r
  finalize_found-Follows (some g) r idle = elim (Bool-cases (is_retired (env.ending g.id))) [
    | inl e ↦ rw e (
        moved env
          (λ s. record {
            bounded = s.bounded;
            alone = λ h. refl;
            latest = λ g' e'. absurd (ground arith);
            manned = λ h. absurd (ground arith);
          })
          refl (omega arith) refl (λ g' e'. absurd (ground arith)))
    | inr e ↦ rw e (stay env r)
  ]

  finalize_current-Follows :
      (r : Runner) → needs_child r.state ≡ false → Follows env r (finalize_current env r).0
  unfolding finalize_current
  finalize_current-Follows r idle = finalize_found-Follows r.current r idle

  pub finalize_or_terminate-Follows :
      (r : Runner) → needs_child r.state ≡ false → Follows env r (finalize_or_terminate env r).0
  finalize_or_terminate-Follows r idle =
      over (finalize_current env r) (finalize_current-Follows r idle)
    where
      over :
          (f : Flow)
          → Follows env r f.0
          → Follows env r
              (if◌then◌else◌ {A = Flow} f.1 (f.0, true) (terminate protocol_failure f.0, false)).0
      over (s, true) p = p
      over (s, false) p = follow env p (terminate-Follows protocol_failure s)

  pub on_host-Follows :
      {A : Type 0} (o : Outcome A) (r : Runner) (k : A → Runner → Flow)
      → ((a : A) (g : DirectionRegistry) → Follows env (with_host g r) (k a (with_host g r)).0)
      → Follows env r (on_host o r k).0
  on_host-Follows (g, ok a) r k p = follow env (calm env refl) (p a g)
  on_host-Follows (g, err e) r k p =
      follow env (calm env refl) (terminate-Follows protocol_failure (with_host g r))

  pub on_child-Follows :
      {A : Type 0} (o : Outcome A) (r : Runner) (k : A → Runner → Flow)
      → ((a : A) (g : DirectionRegistry) → Follows env (with_child g r) (k a (with_child g r)).0)
      → Follows env r (on_child o r k).0
  on_child-Follows (g, ok a) r k p = follow env (calm env refl) (p a g)
  on_child-Follows (g, err e) r k p =
      follow env (calm env refl) (terminate-Follows protocol_failure (with_child g r))

  pub answer_lost-Follows :
      (lost : List RequestRecord) (r : Runner) → Follows env r (answer_lost env lost r).0
  unfolding answer_lost
  answer_lost-Follows [] r = stay env r
  answer_lost-Follows (x ∷ lost) r =
      go_on_flow-Follows env _ _ (tell_host-Follows _ r) (answer_lost-Follows lost)

  pub if-Follows :
      {r : Runner} (b : Bool) (f g : Flow)
      → Follows env r f.0
      → Follows env r g.0
      → Follows env r (if b then f else g).0
  if-Follows true f g p q = p
  if-Follows false f g p q = q

  commit_record-Follows :
      (o : Option RequestRecord) (r : Runner) → Follows env r (commit_record env o r).0
  commit_record-Follows none r = stay env r
  commit_record-Follows (some x) r = if-Follows (not (may_cancel x)) _ _ (stay env r) (
      if-Follows env.modern _ _ (calm env refl)
        (on_host-Follows (cancel x r.host) r _ (λ _ g. stay env (with_host g r))))

  commit_id-Follows : (o : Option ScalarValue) (r : Runner) → Follows env r (commit_id env o r).0
  commit_id-Follows none r = stay env r
  commit_id-Follows (some id) r =
      commit_record-Follows (own_record r.current (get id.key r.host.requests)) r

  commit_items-Follows :
      (items : List PendingFrame) (r : Runner) → Follows env r (commit_items env items r).0
  unfolding commit_items
  commit_items-Follows [] r = stay env r
  commit_items-Follows (item ∷ items) r =
      go_on_flow-Follows env _ _
        (if-Follows (not item.same_generation_only) _ _ (stay env r)
          (commit_id-Follows item.frame.cancellation r))
        (commit_items-Follows items)

  pub commit_quiescing_cancellations-Follows :
      (r : Runner) → Follows env r (commit_quiescing_cancellations env r).0
  unfolding commit_quiescing_cancellations
  commit_quiescing_cancellations-Follows r =
      if-Follows (is_none r.current) _ _ (stay env r) (commit_items-Follows r.pending.items r)
