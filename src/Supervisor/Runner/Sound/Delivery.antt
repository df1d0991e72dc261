-- ===== src/Supervisor/Runner/Sound/Delivery.antt =====
-- The delivery of host frames keeps the runner sound.
use mcp_mux.Base.{
  String, refl, Bool, false, not, ◌&&◌, Option, none, some, arith, string_key, nat_key, inl,
}
use mcp_mux.Supervisor.Records.{ParsedFrame}
use mcp_mux.Supervisor.Scalar.{ScalarValue}
use mcp_mux.Supervisor.Queue.{PendingFrame, enqueue, push_front_bounded, is_request, PendingQueue}
use mcp_mux.Supervisor.Queue.Bounds.{enqueue-IsBounded, push_front-IsBounded, IsBounded}
use mcp_mux.Supervisor.Runner.{
  Runner, is_dormant, is_none, Code, Complaint, text, forward, Generation, Environment,
}
use mcp_mux.Supervisor.Runner.Lifecycle.{fully_written, write_child}
use mcp_mux.Supervisor.Runner.Validate.{Rejection, settle_host, validate_host_request}
use mcp_mux.Supervisor.Runner.Delivery.{
  reject_host_request, wake, reject_full, put_pending, unless_rejected, enqueue_host,
  is_notification, retain_after_not_written, register_sent, was_not_written, deliver_valid,
  can_deliver, deliver_host_first, forward_to_child, reject_request, enqueue_valid,
}
use mcp_mux.Supervisor.Runner.Sound.{Follows, stay, follow, branch, moved, calm, option-Follows}
use mcp_mux.Supervisor.Runner.Sound.Lifecycle.{tell_host-Follows, begin_start-Follows}
use mcp_mux.Supervisor.Runner.Sound.Replace.{
  tell_child-Follows, replace_current-Follows, write_child-Follows,
}

module _ (env : Environment) where
  pub put_pending-Follows :
      (q : PendingQueue) (r : Runner)
      → (IsBounded env.pending_frame_limit env.pending_byte_limit r.pending
          → IsBounded env.pending_frame_limit env.pending_byte_limit q)
      → Follows env r (put_pending q r)
  put_pending-Follows q r keep =
      moved env
        (λ s. record {
          bounded = keep s.bounded;
          alone = s.alone;
          latest = s.latest;
          manned = s.manned;
        })
        refl (omega arith) refl (λ g e. inl e)

  pub reject_host_request-Follows :
      (frame : ParsedFrame) (code : Code) (c : Complaint) (r : Runner)
      → Follows env r (reject_host_request env frame code c r)
  unfolding reject_host_request
  reject_host_request-Follows frame code c r =
      option-Follows env frame.id _ _ (stay env r) λ id. tell_host-Follows env _ r

  pub reject_request-Follows :
      (frame : ParsedFrame) (code : Code) (message : String) (r : Runner)
      → Follows env r (reject_request env frame code message r)
  reject_request-Follows frame code message r =
      branch env (is_request frame.kind) (reject_host_request-Follows frame code (text message) r)
        (stay env r)

  unless_rejected-Follows :
      (o : Option Rejection) (frame : ParsedFrame) (r : Runner) (k : Runner → Runner)
      → Follows env r (k r)
      → Follows env r (unless_rejected env o frame r k)
  unless_rejected-Follows none frame r k p = p
  unless_rejected-Follows (some (code, c)) frame r k p = reject_host_request-Follows frame code c r

  wake-Follows : (r : Runner) → Follows env r (wake r)
  wake-Follows r =
      branch env (is_dormant r.state) (follow env (calm env refl) (begin_start-Follows env _))
        (branch env (is_none r.current && not r.starting) (begin_start-Follows env r) (stay env r))

  reject_full-Follows : (frame : ParsedFrame) (r : Runner) → Follows env r (reject_full env frame r)
  reject_full-Follows frame r =
      branch env (is_request frame.kind) (reject_host_request-Follows frame _ _ r) (stay env r)

  pub enqueue_host-Follows :
      (item : PendingFrame) (same_generation_only : Bool) (r : Runner)
      → Follows env r (enqueue_host env item same_generation_only r)
  unfolding enqueue_host
  enqueue_host-Follows item only r =
      let x = record item { frame = settle_host env item.frame r; same_generation_only = only } in
      unless_rejected-Follows (validate_host_request env x.frame r) x.frame r (enqueue_valid env x)
        (branch env (enqueue x env.pending_frame_limit env.pending_byte_limit r.pending).1
          (follow env
            (put_pending-Follows _ r
              (enqueue-IsBounded env.pending_frame_limit env.pending_byte_limit x r.pending))
            (wake-Follows _))
          (reject_full-Follows x.frame r))

  retain_after_not_written-Follows :
      (item : PendingFrame) (r : Runner) → Follows env r (retain_after_not_written env item r)
  unfolding retain_after_not_written
  retain_after_not_written-Follows item r =
      branch env (not (is_request item.frame.kind) && not (is_notification item.frame.kind))
        (stay env r)
        (branch env
          (push_front_bounded item env.pending_frame_limit env.pending_byte_limit r.pending).1
          (put_pending-Follows _ r
            (push_front-IsBounded env.pending_frame_limit env.pending_byte_limit item r.pending))
          (reject_full-Follows item.frame r))

  register_sent-Follows :
      (g : Option Generation) (id : Option ScalarValue) (frame : ParsedFrame) (r : Runner)
      → Follows env r (register_sent env g id frame r)
  register_sent-Follows none id frame r = stay env r
  register_sent-Follows (some g) none frame r = stay env r
  register_sent-Follows (some g) (some id) frame r = calm env refl

  deliver_valid-Follows :
      (item : PendingFrame) (r : Runner) → Follows env r (deliver_valid env item r)
  deliver_valid-Follows item r =
      let w = write_child env (forward item.frame.raw) r in
      let sent =
        branch env (is_request item.frame.kind && not (was_not_written w.1))
          (register_sent-Follows r.current item.frame.id item.frame w.0) (stay env w.0) in
      follow env (write_child-Follows env (forward item.frame.raw) r) (
        follow env sent (
          branch env (fully_written (w.1, w.2)) (stay env _) (
            follow env
              (branch env (was_not_written w.1) (retain_after_not_written-Follows item _)
                (stay env _))
              (replace_current-Follows env _))))

  pub deliver_host_first-Follows :
      (item : PendingFrame) (r : Runner) → Follows env r (deliver_host_first env item r)
  unfolding deliver_host_first
  deliver_host_first-Follows item r =
      let frame = settle_host env item.frame r in
      branch env (not (can_deliver item.frame r)) (enqueue_host-Follows item false r) (
        unless_rejected-Follows (validate_host_request env frame r) frame r
          (deliver_valid env (record item { frame = frame }))
          (deliver_valid-Follows (record item { frame = frame }) r))

  pub forward_to_child-Follows :
      (frame : ParsedFrame) (r : Runner) → Follows env r (forward_to_child env frame r)
  forward_to_child-Follows frame r = tell_child-Follows env (forward frame.raw) r
