-- ===== src/Supervisor/Runner/Idle.antt =====
-- muxcore/supervisor/routing.go: the child is told to commit only where nothing is in flight.
use mcp_mux.Base.{
  ◌≡◌, inl, inr, true, false, Option, none, some, arith, string_key, nat_key, Option-cases,
}
use mcp_mux.Supervisor.Queue.{len}
use mcp_mux.Supervisor.Records.{ParsedFrame}
use mcp_mux.Supervisor.Runner.{
  Runner, is_quiescing, Control, dormant_ready, commit_dormant, dormant_ack, dormant_nack,
  Environment,
}
use mcp_mux.Supervisor.Runner.Lifecycle.{begin_start, replace_current}
use mcp_mux.Supervisor.Runner.Dormancy.{
  handle_child_control, registry_idle, safe_to_commit_dormant, control_of_parsed_frame, on_control,
  is_verified,
}
use mcp_mux.Supervisor.Runner.Halted.{replace_generation-idle}

module _ (env : Environment) where
  replace_current-quiescing :
      (r : Runner)
      → is_quiescing r.state ≡ false
      → is_quiescing (replace_current env r).state ≡ false
  unfolding replace_current begin_start
  replace_current-quiescing r h = elim (Option-cases r.current) [
    | inl e ↦ ground arith
    | inr (g, e) ↦ ground (arith, replace_generation-idle env g r)
  ]

  on_control-commits :
      (o : Option Control) (r : Runner)
      → is_quiescing r.state ≡ false
      → is_quiescing (on_control env o r).state ≡ true
      → safe_to_commit_dormant r ≡ true
  on_control-commits none r h e = ground (arith, replace_current-quiescing r h)
  on_control-commits (some dormant_ready) r h e = ground (arith, replace_current-quiescing r h)
  on_control-commits (some dormant_nack) r h e = ground (arith, replace_current-quiescing r h)
  on_control-commits (some dormant_ack) r h e = ground (arith, replace_current-quiescing r h)
  on_control-commits (some commit_dormant) r h e = ground (arith, replace_current-quiescing r h)

-- Where a control frame of the child makes the runner quiesce, the child is verified, no host frame
-- waits, and neither direction has a request, a token or a task.
pub handle_child_control-commits :
    (env : Environment) (frame : ParsedFrame) (r : Runner)
    → is_quiescing r.state ≡ false
    → is_quiescing (handle_child_control env frame r).state ≡ true
    → (is_verified env r.current ≡ true)
      × (len r.pending ≡ 0)
      × (registry_idle r.host ≡ true)
      × (registry_idle r.child ≡ true)
unfolding handle_child_control safe_to_commit_dormant len
handle_child_control-commits env frame r h e =
    ground (arith, on_control-commits env (control_of_parsed_frame frame) r h)
