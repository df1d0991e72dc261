-- ===== src/Supervisor/Runner/Sound/Flush.antt =====
-- Handling a frame of the host, and handing the queue on, keep the runner sound.
use mcp_mux.Base.{
  ℕ, zero, suc, ◌≡◌, refl, Bool, true, false, not, ◌&&◌, ◌||◌, Option, none, some, arith, same,
  string_key, nat_key, ltb, if◌then◌else◌, is_some,
}
use mcp_mux.Supervisor.Records.{ParsedFrame, TaskMeta}
use mcp_mux.Supervisor.Queue.{
  len, PendingFrame, PendingQueue, pop, is_initialization_ping, pop_first_initialization_ping,
}
use mcp_mux.Supervisor.Queue.Bounds.{IsBounded, pop-IsBounded, ping-IsBounded}
use mcp_mux.Supervisor.Registry.Retired.{consume_retired_response, consume_retired_task_status}
use mcp_mux.Supervisor.Runner.{
  Runner, is_active, is_replaying, is_quiescing, is_awaiting_exit, is_none, Environment,
}
use mcp_mux.Supervisor.Runner.Lifecycle.{Flow, go_on, go_on_flow, with_child}
use mcp_mux.Supervisor.Runner.Delivery.{is_response, put_pending, deliver_host_first}
use mcp_mux.Supervisor.Runner.HostLifecycle.{handle_host_lifecycle}
use mcp_mux.Supervisor.Runner.Host.{
  handle_host_event, consume_response, is_task_status, consume_meta, consume_status, if_active,
  route_host, handle_plain_host, handle_host_frame, handle_parsed, later, HostFrame, parsed,
  malformed, handle_host_progress, handle_host_task_status,
}
use mcp_mux.Supervisor.Runner.Flush.{
  flush_pending, repeat, replay_item, take_round, flush_round, ping_round, flush_replay_pings,
}
use mcp_mux.Supervisor.Runner.Sound.{
  Follows, stay, follow, branch, go_on-Follows, go_on_flow-Follows, calm,
}
use mcp_mux.Supervisor.Runner.Sound.Lifecycle.{tell_host-Follows, on_child-Follows, if-Follows}
use mcp_mux.Supervisor.Runner.Sound.Delivery.{
  put_pending-Follows, reject_request-Follows, enqueue_host-Follows, deliver_host_first-Follows,
}
use mcp_mux.Supervisor.Runner.Sound.Handshake.{
  handle_host_lifecycle-Follows, resume_dormant_lease_after_host-Follows,
}
use mcp_mux.Supervisor.Runner.Sound.Host.{
  handle_host_response-Follows, handle_host_cancellation-Follows, handle_host_progress-Follows,
  handle_host_task_status-Follows, handle_modern_host-Follows,
}

module _ (env : Environment) where
  pub consume_response-Follows :
      (frame : ParsedFrame) (r : Runner) → Follows env r (consume_response env frame r).0
  consume_response-Follows frame r =
      if-Follows env (not (is_response frame && is_some frame.id)) _ _ (stay env r) (
        on_child-Follows env (consume_retired_response env.json frame r.child) r _
          λ _ g. stay env (with_child g r))

  pub consume_meta-Follows :
      (frame : ParsedFrame) (o : Option TaskMeta) (r : Runner)
      → Follows env r (consume_meta frame o r).0
  consume_meta-Follows frame none r = stay env r
  consume_meta-Follows frame (some m) r =
      if-Follows env (not (is_task_status frame)) _ _ (stay env r) (
        on_child-Follows env (consume_retired_task_status m r.child) r _
          λ _ g. stay env (with_child g r))

  if_active-Follows :
      (item : PendingFrame) (handle : Runner → Runner) (r : Runner)
      → Follows env r (handle r)
      → Follows env r (if_active env item handle r)
  if_active-Follows item handle r p =
      branch env (is_active r.state) p
        (branch env (is_quiescing r.state) (enqueue_host-Follows env item true r) (stay env r))

  route_host-Follows : (item : PendingFrame) (r : Runner) → Follows env r (route_host env item r)
  route_host-Follows item r =
      branch env (is_response item.frame)
        (branch env (is_active r.state || is_replaying r.state || is_awaiting_exit r.state)
          (handle_host_response-Follows env item.frame r)
          (branch env (is_quiescing r.state) (enqueue_host-Follows env item true r) (stay env r)))
        (branch env (same item.frame.method "notifications/cancelled")
          (handle_host_cancellation-Follows env item r)
          (branch env (same item.frame.method "notifications/progress")
            (if_active-Follows item (handle_host_progress env item.frame) r
              (handle_host_progress-Follows env item.frame r))
            (branch env (is_task_status item.frame)
              (if_active-Follows item (handle_host_task_status env item.frame) r
                (handle_host_task_status-Follows env item.frame r))
              (branch env
                (is_active r.state || is_replaying r.state && is_initialization_ping item.frame)
                (deliver_host_first-Follows env item r) (enqueue_host-Follows env item false r)))))

  route_unhandled-Follows :
      (item : PendingFrame) (f : Flow) {r : Runner}
      → Follows env r f.0
      → Follows env r (
          if f.1
          then f.0
          else go_on
              (go_on_flow (consume_response env item.frame f.0) (consume_status item.frame))
              (route_host env item))
  route_unhandled-Follows item (s, true) p = p
  route_unhandled-Follows item (s, false) p = follow env p (
      go_on-Follows env (go_on_flow (consume_response env item.frame s) (consume_status item.frame))
        (route_host env item)
        (go_on_flow-Follows env (consume_response env item.frame s) (consume_status item.frame)
          (consume_response-Follows item.frame s)
          (consume_meta-Follows item.frame item.frame.task_status))
        (route_host-Follows item))

  handle_plain_host-Follows :
      (item : PendingFrame) (r : Runner) → Follows env r (handle_plain_host env item r)
  unfolding handle_plain_host
  handle_plain_host-Follows item r =
      route_unhandled-Follows item (handle_host_lifecycle env item r)
        (handle_host_lifecycle-Follows env item r)

  handle_host_frame-Follows :
      (item : PendingFrame) (r : Runner) → Follows env r (handle_host_frame env item r)
  handle_host_frame-Follows item r =
      branch env item.frame.reserved (reject_request-Follows env item.frame _ _ r) (
        branch env env.modern (handle_modern_host-Follows env item r)
          (handle_plain_host-Follows item r))

  handle_parsed-Follows :
      (sequence arrived : ℕ) (frame : HostFrame) (r : Runner)
      → Follows env r (handle_parsed env sequence arrived frame r)
  handle_parsed-Follows sequence arrived (malformed json) r = tell_host-Follows env _ r
  handle_parsed-Follows sequence arrived (parsed frame) r = handle_host_frame-Follows _ r

  pub handle_host_event-Follows :
      (sequence arrived : ℕ) (frame : HostFrame) (r : Runner)
      → Follows env r (handle_host_event env sequence arrived frame r)
  unfolding handle_host_event
  handle_host_event-Follows sequence arrived frame r =
      branch env (is_some r.terminal) (stay env r) (
        follow env (branch env (ltb r.last_host_sequence sequence) (calm env refl) (stay env r)) (
          follow env (handle_parsed-Follows sequence arrived frame (later sequence r))
            (resume_dormant_lease_after_host-Follows env _)))

  repeat-Follows :
      (round : Runner → Option Runner)
      → ((r s : Runner) → round r ≡ some s → Follows env r s)
      → (n : ℕ) (r : Runner) → Follows env r (repeat round n r)
  repeat-Follows round step zero r = stay env r
  repeat-Follows round step (suc n) r = go (round r) refl (repeat-Follows round step n)
    where
      go :
          (o : Option Runner)
          → round r ≡ o
          → ((s : Runner) → Follows env s (repeat round n s))
          → Follows env r (elim o as (λ _. Runner) [ none ↦ r | some s ↦ repeat round n s ])
      go none e more = stay env r
      go (some s) e more = follow env (step r s e) (more s)

  take_round-Follows :
      (handle : PendingFrame → Runner → Runner)
      → ((item : PendingFrame) (r : Runner) → Follows env r (handle item r))
      → (t : PendingQueue × Option PendingFrame) (r s : Runner)
      → (IsBounded env.pending_frame_limit env.pending_byte_limit r.pending
          → IsBounded env.pending_frame_limit env.pending_byte_limit t.0)
      → take_round handle t r ≡ some s
      → Follows env r s
  take_round-Follows handle keep (q, none) r s bound e = absurd (ground arith)
  take_round-Follows handle keep (q, some item) r s bound e =
      let e' : handle item (put_pending q r) ≡ s = ground arith in
      rw (← e') (follow env (put_pending-Follows env q r bound) (keep item (put_pending q r)))

  guarded-Follows :
      {r s : Runner} (b : Bool) {o : Option Runner}
      → (if b then none else o) ≡ some s
      → (o ≡ some s → Follows env r s)
      → Follows env r s
  guarded-Follows true e p = absurd (ground arith)
  guarded-Follows false e p = p e

  pub flush_pending-Follows : (r : Runner) → Follows env r (flush_pending env r)
  unfolding flush_pending
  flush_pending-Follows r = repeat-Follows (flush_round env) round (suc (len r.pending)) r
    where
      round : (r s : Runner) → flush_round env r ≡ some s → Follows env r s
      round r s e =
          guarded-Follows (is_some r.terminal || is_none r.current || not (is_active r.state)) e (
            take_round-Follows (replay_item env)
              (λ item t. handle_host_event-Follows item.sequence item.arrived (parsed item.frame) t)
              (pop r.pending) r s
              (pop-IsBounded env.pending_frame_limit env.pending_byte_limit r.pending))

  pub flush_replay_pings-Follows : (r : Runner) → Follows env r (flush_replay_pings env r)
  unfolding flush_replay_pings
  flush_replay_pings-Follows r = repeat-Follows (ping_round env) round (suc (len r.pending)) r
    where
      round : (r s : Runner) → ping_round env r ≡ some s → Follows env r s
      round r s e =
          guarded-Follows (is_some r.terminal || is_none r.current || not (is_replaying r.state)) e
            (take_round-Follows (deliver_host_first env) (deliver_host_first-Follows env)
              (pop_first_initialization_ping r.pending) r s
              (ping-IsBounded env.pending_frame_limit env.pending_byte_limit r.pending))
