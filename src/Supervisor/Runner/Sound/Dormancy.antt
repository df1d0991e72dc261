-- ===== src/Supervisor/Runner/Sound/Dormancy.antt =====
-- Going dormant keeps the runner sound.
use mcp_mux.Base.{
  ◌≡◌, refl, sym, ap, ◌∙◌, true, false, not, ◌&&◌, ◌||◌, Option, none, some, arith, string_key,
  nat_key, ltb, ◌==◌, is_some,
}
use mcp_mux.Supervisor.Records.{ParsedFrame}
use mcp_mux.Supervisor.Queue.{len}
use mcp_mux.Supervisor.Runner.{
  Runner, is_active, is_quiescing, is_awaiting_exit, is_none, quiescing, finalizing, dormant,
  Control, dormant_ready, commit_dormant, dormant_ack, dormant_nack, control, Generation,
  Environment,
}
use mcp_mux.Supervisor.Runner.Lifecycle.{commit_quiescing_cancellations, retire_current, tell_child}
use mcp_mux.Supervisor.Runner.Dormancy.{
  handle_child_control, safe_to_commit_dormant, control_of_parsed_frame, arm_dormant_lease,
  go_dormant, clean_exit, complete_dormancy, maybe_for, maybe_complete_dormancy, commit, on_ready,
  on_nack, await_exit, on_ack, on_control, is_verified,
}
use mcp_mux.Supervisor.Runner.Sound.{
  Follows, stay, follow, branch, branch_on, go_on-Follows_from, go_on-Follows, calm,
}
use mcp_mux.Supervisor.Runner.Sound.Core.{commit_quiescing_cancellations-Keeps}
use mcp_mux.Supervisor.Runner.Sound.Lifecycle.{
  begin_start-Follows, commit_quiescing_cancellations-Follows,
}
use mcp_mux.Supervisor.Runner.Sound.Replace.{
  replace_current-Follows, retire_current-Follows, discard_pending-Follows, unmanned,
  tell_child-Follows,
}
use mcp_mux.Supervisor.Runner.Sound.Flush.{flush_pending-Follows}
use mcp_mux.Supervisor.Runner.Sound.Replay.{manned_state}

module _ (env : Environment) where
  arm_dormant_lease-Follows : (r : Runner) → Follows env r (arm_dormant_lease env r)
  arm_dormant_lease-Follows r = branch env (env.dormant_lease == 0) (stay env r) (calm env refl)

  go_dormant-Follows : (r : Runner) → Follows env r (go_dormant env r)
  go_dormant-Follows r =
      branch env (ltb 0 (len r.pending) || ltb r.dormant_transition_start env.host_sequence)
        (begin_start-Follows env r)
        (follow env (unmanned env refl refl refl refl refl refl refl)
          (arm_dormant_lease-Follows (record r { state = dormant })))

  complete_dormancy-Follows :
      (g : Generation) (r : Runner) → Follows env r (complete_dormancy env g r)
  complete_dormancy-Follows g r =
      let r' = record r { timers = record r.timers { dormant_exit = false }; state = finalizing } in
      branch env (is_none (env.child_exit g.id) || not (env.output_eof g.id))
        (branch env (env.output_error g.id)
          (follow env (calm env refl) (replace_current-Follows env _)) (stay env r))
        (branch env (not (clean_exit (env.child_exit g.id) r.dormancy_invalid))
          (replace_current-Follows env r)
          (follow env (unmanned env refl refl refl refl refl refl refl) (
            go_on-Follows env (retire_current env g r') (go_dormant env)
              (retire_current-Follows env g r' refl) go_dormant-Follows)))

  maybe_for-Follows : (o : Option Generation) (r : Runner) → Follows env r (maybe_for env o r)
  maybe_for-Follows none r = stay env r
  maybe_for-Follows (some g) r =
      branch env (is_awaiting_exit r.state) (complete_dormancy-Follows g r) (stay env r)

  pub maybe_complete_dormancy-Follows : (r : Runner) → Follows env r (maybe_complete_dormancy env r)
  unfolding maybe_complete_dormancy
  maybe_complete_dormancy-Follows r = maybe_for-Follows r.current r

  commit-Follows : (r : Runner) → is_some r.current ≡ true → Follows env r (commit env r)
  commit-Follows r present = follow env (manned_state env present refl refl refl refl refl refl) (
      go_on-Follows env
        (tell_child env (control commit_dormant)
          (record r { dormant_transition_start = env.host_sequence; state = quiescing }))
        _ (tell_child-Follows env (control commit_dormant) _) λ s. calm env refl)

  on_ready-Follows : (r : Runner) → Follows env r (on_ready env r)
  unfolding safe_to_commit_dormant
  on_ready-Follows r =
      branch env
        (not (is_active r.state)
          || not env.modern && (r.handshake.awaiting || is_none r.handshake.initialized))
        (replace_current-Follows env r)
        (branch_on env (safe_to_commit_dormant r) (λ h. commit-Follows r (ground arith))
          λ _. stay env r)

  on_nack-Follows : (r : Runner) → is_some r.current ≡ true → Follows env r (on_nack env r)
  on_nack-Follows r present =
      branch env (not (is_quiescing r.state)) (replace_current-Follows env r) (
        follow env (manned_state env present refl refl refl refl refl refl)
          (flush_pending-Follows env _))

  await_exit-Follows : (r : Runner) → is_some r.current ≡ true → Follows env r (await_exit env r)
  await_exit-Follows r present = follow env (discard_pending-Follows env r) (
      follow env (manned_state env present refl refl refl refl refl refl)
        (maybe_complete_dormancy-Follows _))

  on_ack-Follows : (r : Runner) → is_some r.current ≡ true → Follows env r (on_ack env r)
  on_ack-Follows r present =
      let r' = record r { timers = record r.timers { drain = false } } in
      branch env (not (is_quiescing r.state)) (replace_current-Follows env r) (
        follow env (calm env refl) (
          go_on-Follows_from env (commit_quiescing_cancellations env r') (await_exit env)
            (commit_quiescing_cancellations-Follows env r')
            λ s e.
              let k = (commit_quiescing_cancellations-Keeps env r').same_core in
              let here : is_some s.current ≡ true =
                ap is_some (sym (ap (λ f. f.0.current) e) ∙ ap (λ c. c.1) k) ∙ present in
              await_exit-Follows s here))

  on_control-Follows :
      (o : Option Control) (r : Runner)
      → is_some r.current ≡ true
      → Follows env r (on_control env o r)
  on_control-Follows none r present = replace_current-Follows env r
  on_control-Follows (some dormant_ready) r present = on_ready-Follows r
  on_control-Follows (some dormant_nack) r present = on_nack-Follows r present
  on_control-Follows (some dormant_ack) r present = on_ack-Follows r present
  on_control-Follows (some commit_dormant) r present = replace_current-Follows env r

  pub handle_child_control-Follows :
      (frame : ParsedFrame) (r : Runner) → Follows env r (handle_child_control env frame r)
  unfolding handle_child_control
  handle_child_control-Follows frame r =
      branch_on env (is_verified env r.current)
        (λ h. on_control-Follows (control_of_parsed_frame frame) r (present r.current h))
        λ _. stay env r
    where
      present : (o : Option Generation) → is_verified env o ≡ true → is_some o ≡ true
      present none h = absurd (ground arith)
      present (some g) h = refl
