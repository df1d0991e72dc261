-- ===== src/Supervisor/Runner/Lease.antt =====
-- muxcore/supervisor/finalization.go: the lease of a dormant supervisor.
use mcp_mux.Base.{
  Bool, true, false, not, ◌&&◌, ◌||◌, string_key, nat_key, ltb, leb, ◌==◌, if◌then◌else◌, is_some,
}
use mcp_mux.Supervisor.Scalar.{scalar_key}
use mcp_mux.Supervisor.Runner.{Runner, Environment, is_dormant, dormant_commit}
use mcp_mux.Supervisor.Runner.Lifecycle.{terminate}

abbrev pub finish_dormant_lease : Environment → Runner → Runner
finish_dormant_lease env r =
    if ltb env.now r.lease_deadline
    then record r { timers = record r.timers { lease = true } }
    else terminate dormant_commit r

-- A frame of the host is on its way, and came before the lease ran out.
abbrev pub frame_in_time : Environment → Runner → Bool
frame_in_time env r =
    ltb r.last_host_sequence env.host_sequence && leb env.host_arrived r.lease_deadline

unfoldable pub resume_dormant_lease_after_host : Environment → Runner → Runner
unfolding terminate
resume_dormant_lease_after_host env r =
    if is_some r.terminal
      || not (is_dormant r.state)
      || r.timers.lease
      || env.dormant_lease == 0
      || frame_in_time env r
    then r
    else finish_dormant_lease env r

unfoldable pub handle_dormant_lease : Environment → Runner → Runner
unfolding terminate
handle_dormant_lease env r =
    if not (is_dormant r.state) || not r.timers.lease
    then r
    else let r' = record r { timers = record r.timers { lease = false } } in
      if frame_in_time env r then r' else finish_dormant_lease env r'
