-- ===== src/Supervisor/Runner/Flush.antt =====
-- muxcore/supervisor/replay.go: the loops that hand the queued host frames on. A loop has one round
-- more than there are frames.
pub mod Settles
pub mod Active
pub mod Frame
pub mod Ends
use mcp_mux.Base.{
  ℕ, zero, suc, not, ◌||◌, Option, none, some, string_key, nat_key, if◌then◌else◌, is_some,
}
use mcp_mux.Supervisor.Queue.{PendingFrame, PendingQueue, pop, pop_first_initialization_ping, len}
use mcp_mux.Supervisor.Runner.{Runner, Environment, is_active, is_replaying, is_none}
use mcp_mux.Supervisor.Runner.Delivery.{deliver_host_first, put_pending}
use mcp_mux.Supervisor.Runner.Host.{handle_host_event, parsed}

-- A round of a loop, or `none` where the loop ends.
abbrev pub repeat : (Runner → Option Runner) → ℕ → Runner → Runner
repeat round zero r = r
repeat round (suc n) r = elim (round r) [ none ↦ r | some r' ↦ repeat round n r' ]

abbrev pub replay_item : Environment → PendingFrame → Runner → Runner
replay_item env item r = handle_host_event env item.sequence item.arrived (parsed item.frame) r

abbrev pub take_round :
    (PendingFrame → Runner → Runner) → PendingQueue × Option PendingFrame → Runner → Option Runner
take_round handle (q, none) r = none
take_round handle (q, some item) r = some (handle item (put_pending q r))

abbrev pub flush_round : Environment → Runner → Option Runner
flush_round env r =
    if is_some r.terminal || is_none r.current || not (is_active r.state)
    then none
    else take_round (replay_item env) (pop r.pending) r

unfoldable pub flush_pending : Environment → Runner → Runner
unfolding handle_host_event pop len
flush_pending env r = repeat (flush_round env) (suc (len r.pending)) r

abbrev pub ping_round : Environment → Runner → Option Runner
ping_round env r =
    if is_some r.terminal || is_none r.current || not (is_replaying r.state)
    then none
    else take_round (deliver_host_first env) (pop_first_initialization_ping r.pending) r

unfoldable pub flush_replay_pings : Environment → Runner → Runner
unfolding deliver_host_first pop_first_initialization_ping len
flush_replay_pings env r = repeat (ping_round env) (suc (len r.pending)) r
