-- ===== src/Supervisor/Runner/Flush/Frame.antt =====
-- A host frame that an active runner handles, from the handshake to the lease, settles.
use mcp_mux.Base.{
  ℕ, String, ◌≡◌, refl, sym, ap, subst, ◌∙◌, inl, Bool, true, false, not, ◌&&◌, ◌||◌, Option, none,
  some, arith, same, string_key, nat_key, ltb, ◌==◌, if◌then◌else◌, is_some,
}
use mcp_mux.Map.{get}
use mcp_mux.Supervisor.Scalar.{scalar_key, ScalarValue}
use mcp_mux.Supervisor.Records.{ParsedFrame, TaskMeta}
use mcp_mux.Supervisor.Queue.{PendingFrame, is_request, is_initialization_ping}
use mcp_mux.Supervisor.Registry.Retired.{consume_retired_response, consume_retired_task_status}
use mcp_mux.Supervisor.Runner.{
  Runner, is_active, is_replaying, is_none, forward, Environment, is_quiescing, is_dormant,
}
use mcp_mux.Supervisor.Runner.Lifecycle.{
  Flow, go_on_flow, tell_child, terminate, go_on, own_record, finish_modern_request,
}
use mcp_mux.Supervisor.Runner.Delivery.{is_response, is_notification}
use mcp_mux.Supervisor.Runner.Lease.{resume_dormant_lease_after_host, frame_in_time}
use mcp_mux.Supervisor.Runner.HostLifecycle.{
  handle_host_lifecycle, arm_replay, accept_initialize, before_initialize, gate,
  is_initialized_frame,
}
use mcp_mux.Supervisor.Runner.ModernHost.{handle_modern_host, remove_modern_request, modern_cancel}
use mcp_mux.Supervisor.Runner.Host.{
  handle_host_event, consume_response, consume_status, is_task_status, consume_meta, route_host,
  handle_plain_host, handle_host_frame, later,
}
use mcp_mux.Supervisor.Runner.Flush.Settles.{
  Settles, same_view, rest, settle, either, go_on-Settles, tell_child-Settles,
  reject_host_request-Settles, reject_request-Settles, option-Settles, kept,
}
use mcp_mux.Supervisor.Runner.Flush.{replay_item}
use mcp_mux.Supervisor.Runner.Sound.{Follows, go_on_flow-Follows}
use mcp_mux.Supervisor.Runner.Sound.Core.{Keeps, still, go_on_flow-Keeps, if-Keeps, on_child-Keeps}
use mcp_mux.Supervisor.Runner.Sound.Flush.{consume_meta-Follows, consume_response-Follows}
use mcp_mux.Supervisor.Runner.Flush.Active.{
  is_running, forward_to_child-Settles, if-Settles, deliver-Settles, remove_modern-len,
  route_host-Settles,
}

-- A flow that says `false` has changed nothing.
record Passes (r : Runner) (f : Flow) : Type 0 where
  passes : f.1 ≡ false → f.0 ≡ r

pass : {r : Runner} → Passes r (r, false)
pass = record { passes = λ h. refl }

stop : {r x : Runner} → Passes r (x, true)
stop = record { passes = λ h. absurd (ground arith) }

if-Passes :
    {r : Runner} (b : Bool) (f g : Flow) → Passes r f → Passes r g → Passes r (if b then f else g)
if-Passes true f g p q = p
if-Passes false f g p q = q

module _ (env : Environment) where
  accept_initialize-Settles :
      (frame : ParsedFrame) (r : Runner)
      → is_running r ≡ true
      → Settles r (accept_initialize env frame r)
  accept_initialize-Settles frame r now = settle (same_view refl refl refl (omega arith)) (
      either (is_some r.current && is_active r.state)
        (λ _.
          go_on-Settles (tell_child env (forward frame.raw) _) arm_replay
            (tell_child-Settles env (forward frame.raw) _)
            λ s _. same_view refl refl refl (omega arith))
        λ h. absurd (ground arith))

  before_initialize-Settles :
      (frame : ParsedFrame) (r : Runner)
      → is_running r ≡ true
      → Settles r (before_initialize env frame r)
  before_initialize-Settles frame r now =
      either (not (is_request frame.kind && same frame.method "initialize"))
        (λ _. reject_request-Settles env frame _ _ r)
        λ _.
          either frame.utility_err (λ _. reject_host_request-Settles env frame _ _ r)
            λ _. accept_initialize-Settles frame r now

  gate-Settles :
      (item : PendingFrame) (message : String) (r : Runner)
      → is_running r ≡ true
      → Settles r (gate env item message r).0
  gate-Settles item message r now = if-Settles env (is_response item.frame) _ _ (rest r) (
      if-Settles env (is_initialization_ping item.frame) _ _
        (either (is_active r.state || is_replaying r.state) (λ _. deliver-Settles env item r now)
          λ h. absurd (ground arith))
        (reject_request-Settles env item.frame _ message r))

  handle_host_lifecycle-Settles :
      (item : PendingFrame) (r : Runner)
      → is_running r ≡ true
      → Settles r (handle_host_lifecycle env item r).0
  unfolding handle_host_lifecycle
  handle_host_lifecycle-Settles item r now =
      if-Settles env (is_none r.handshake.request) _ _ (before_initialize-Settles item.frame r now)
        (if-Settles env r.handshake.awaiting _ _ (gate-Settles item _ r now) (
          if-Settles env r.handshake.failed _ _ (reject_request-Settles env item.frame _ _ r) (
            if-Settles env (is_none r.handshake.initialized) _ _
              (if-Settles env (is_initialized_frame item.frame) _ _
                (settle (same_view refl refl refl (omega arith)) (
                  either (is_some r.current && is_active r.state)
                    (λ _. forward_to_child-Settles env item.frame _) λ _. rest _))
                (gate-Settles item _ r now))
              (if-Settles env (is_initialized_frame item.frame) _ _ (rest r) (
                if-Settles env (is_request item.frame.kind && same item.frame.method "initialize") _
                  _ (reject_host_request-Settles env item.frame _ _ r) (rest r))))))

  -- The handshake leaves the runner as it is where it lets a frame pass.
  gate-Passes :
      (item : PendingFrame) (message : String) (r : Runner) → Passes r (gate env item message r)
  gate-Passes item message r =
      if-Passes (is_response item.frame) _ _ pass
        (if-Passes (is_initialization_ping item.frame) _ _ stop stop)

  handle_host_lifecycle-Passes :
      (item : PendingFrame) (r : Runner) → Passes r (handle_host_lifecycle env item r)
  unfolding handle_host_lifecycle
  handle_host_lifecycle-Passes item r = if-Passes (is_none r.handshake.request) _ _ stop (
      if-Passes r.handshake.awaiting _ _ (gate-Passes item _ r) (
        if-Passes r.handshake.failed _ _ stop (
          if-Passes (is_none r.handshake.initialized) _ _
            (if-Passes (is_initialized_frame item.frame) _ _ stop (gate-Passes item _ r))
            (if-Passes (is_initialized_frame item.frame) _ _ stop (
              if-Passes (is_request item.frame.kind && same item.frame.method "initialize") _ _ stop
                pass)))))

  consume_response-Keeps :
      (frame : ParsedFrame) (r : Runner) → Keeps r (consume_response env frame r).0
  consume_response-Keeps frame r =
      if-Keeps (not (is_response frame && is_some frame.id)) _ _ (still refl)
        (on_child-Keeps env (consume_retired_response env.json frame r.child) r _ λ _ s. still refl)

  consume_meta-Keeps :
      (frame : ParsedFrame) (o : Option TaskMeta) (r : Runner) → Keeps r (consume_meta frame o r).0
  consume_meta-Keeps frame none r = still refl
  consume_meta-Keeps frame (some m) r =
      if-Keeps (not (is_task_status frame)) _ _ (still refl)
        (on_child-Keeps env (consume_retired_task_status m r.child) r _ λ _ s. still refl)

  abbrev consume : PendingFrame → Runner → Flow
  consume item r = go_on_flow (consume_response env item.frame r) (consume_status item.frame)

  consume-Keeps : (item : PendingFrame) (r : Runner) → Keeps r (consume item r).0
  consume-Keeps item r =
      go_on_flow-Keeps (consume_response env item.frame r) (consume_status item.frame)
        (consume_response-Keeps item.frame r) (consume_meta-Keeps item.frame item.frame.task_status)

  consume-Follows : (item : PendingFrame) (r : Runner) → Follows env r (consume item r).0
  consume-Follows item r =
      go_on_flow-Follows env (consume_response env item.frame r) (consume_status item.frame)
        (consume_response-Follows env item.frame r)
        (consume_meta-Follows env item.frame item.frame.task_status)

  consumed-running :
      (item : PendingFrame) (r s : Runner)
      → is_running r ≡ true
      → consume item r ≡ (s, true)
      → is_running s ≡ true
  consumed-running item r s now e =
      let k = (consume-Keeps item r).same_core in
      let same_current : s.current ≡ r.current = sym (ap (λ f. f.0.current) e) ∙ ap (λ c. c.1) k in
      let same_state : s.state ≡ r.state = sym (ap (λ f. f.0.state) e) ∙ ap (λ c. c.4) k in
      ground arith

  passed-Settles :
      (item : PendingFrame) (r : Runner)
      → is_running r ≡ true
      → (f : Flow) → Settles r f.0
      → Passes r f
      → Settles r (if f.1 then f.0 else go_on (consume item f.0) (route_host env item))
  passed-Settles item r now (s, true) p q = p
  passed-Settles item r now (s, false) p q =
      let e = q.passes refl in
      settle p (
        go_on-Settles (consume item s) (route_host env item)
          (kept env (consume-Keeps item s) (consume-Follows item s))
          λ t e'.
            route_host-Settles env item t
              (consumed-running item s t (subst (λ x. is_running x ≡ true) (sym e) now) e'))

  handle_plain_host-Settles :
      (item : PendingFrame) (r : Runner)
      → is_running r ≡ true
      → Settles r (handle_plain_host env item r)
  unfolding handle_plain_host
  handle_plain_host-Settles item r now =
      passed-Settles item r now (handle_host_lifecycle env item r)
        (handle_host_lifecycle-Settles item r now) (handle_host_lifecycle-Passes item r)

  modern_cancel-Settles :
      (item : PendingFrame) (o : Option ScalarValue) (r : Runner)
      → is_running r ≡ true
      → Settles r (modern_cancel env item o r)
  modern_cancel-Settles item none r now = rest r
  modern_cancel-Settles item (some target) r now =
      either (remove_modern_request target.key r.pending).1
        (λ _. same_view refl refl refl (remove_modern-len target.key r.pending))
        λ _.
          option-Settles (own_record r.current (get target.key r.host.requests)) _ _ (rest r) λ x.
            either (is_quiescing r.state) (λ h. absurd (ground arith))
              λ _.
                either (not (is_active r.state)) (λ _. rest r)
                  λ _.
                    settle (same_view refl refl refl (omega arith))
                      (forward_to_child-Settles env item.frame (finish_modern_request x r))

  handle_modern_host-Settles :
      (item : PendingFrame) (r : Runner)
      → is_running r ≡ true
      → Settles r (handle_modern_host env item r)
  unfolding handle_modern_host
  handle_modern_host-Settles item r now =
      either (is_response item.frame) (λ _. rest r)
        λ _.
          either
            (same item.frame.method "notifications/cancelled" && is_notification item.frame.kind)
            (λ _. modern_cancel-Settles item item.frame.cancellation r now)
            λ _.
              either
                (same item.frame.method "notifications/progress" && is_notification item.frame.kind)
                (λ _. rest r)
                λ _.
                  either (is_active r.state) (λ _. deliver-Settles env item r now)
                    λ h. absurd (ground arith)

  handle_host_frame-Settles :
      (item : PendingFrame) (r : Runner)
      → is_running r ≡ true
      → Settles r (handle_host_frame env item r)
  handle_host_frame-Settles item r now =
      either item.frame.reserved (λ _. reject_request-Settles env item.frame _ _ r)
        λ _.
          either env.modern (λ _. handle_modern_host-Settles item r now)
            λ _. handle_plain_host-Settles item r now

  resume-Settles : (r : Runner) → Settles r (resume_dormant_lease_after_host env r)
  unfolding resume_dormant_lease_after_host terminate
  resume-Settles r =
      either
        (is_some r.terminal
          || not (is_dormant r.state)
          || r.timers.lease
          || env.dormant_lease == 0
          || frame_in_time env r)
        (λ _. rest r) λ h. record { halts = λ _. ground arith; shrinks = inl (ground arith) }

  pub replay_item-Settles :
      (item : PendingFrame) (r : Runner) → is_running r ≡ true → Settles r (replay_item env item r)
  unfolding handle_host_event
  replay_item-Settles item r now =
      either (is_some r.terminal) (λ _. rest r)
        λ _. settle (later-Settles item.sequence) (
          settle (handle_host_frame-Settles _ (later item.sequence r) (ground arith))
            (resume-Settles _))
    where
      later-Settles : (sequence : ℕ) → Settles r (later sequence r)
      later-Settles sequence =
          either (ltb r.last_host_sequence sequence) (λ _. same_view refl refl refl (omega arith))
            λ _. rest r
