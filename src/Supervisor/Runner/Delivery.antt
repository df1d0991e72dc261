-- ===== src/Supervisor/Runner/Delivery.antt =====
-- muxcore/supervisor/routing.go, modern.go: a host frame is checked, and goes to the child, to the
-- queue, or back with an error.
use mcp_mux.Base.{
  ℕ, String, Bool, true, false, not, ◌&&◌, ◌||◌, Option, none, some, string_key, nat_key,
  if◌then◌else◌, is_some,
}
use mcp_mux.Map.{put}
use mcp_mux.Supervisor.Scalar.{scalar_key, ScalarValue}
use mcp_mux.Supervisor.Records.{
  RequestRecord, ParsedFrame, FrameKind, frame_notification, is_error, is_result,
}
use mcp_mux.Supervisor.Registry.{DirectionRegistry}
use mcp_mux.Supervisor.Registry.Register.{register}
use mcp_mux.Supervisor.Queue.{
  PendingFrame, PendingQueue, enqueue, push_front_bounded, is_request, is_initialization_ping,
}
use mcp_mux.Supervisor.Runner.{
  Runner, Environment, is_active, is_replaying, is_dormant, is_none, Code, pending_full, Complaint,
  text, forward, local_error, WriteOutcome, not_written, Generation,
}
use mcp_mux.Supervisor.Runner.Validate.{Rejection, settle_host, validate_host_request}
use mcp_mux.Supervisor.Runner.Lifecycle.{
  tell_child, tell_host, write_child, begin_start, replace_current, fully_written,
}

unfoldable pub reject_host_request : Environment → ParsedFrame → Code → Complaint → Runner → Runner
unfolding tell_host
reject_host_request env frame code complaint r = elim frame.id [
  | none ↦ r
  | some id ↦ (tell_host env (local_error (some id.raw) code complaint) r).0
]

abbrev pub wake : Runner → Runner
wake r =
    if is_dormant r.state
    then begin_start (record r { timers = record r.timers { lease = false } })
    else if is_none r.current && not r.starting
    then begin_start r
    else r

abbrev pub reject_full : Environment → ParsedFrame → Runner → Runner
reject_full env frame r =
    if is_request frame.kind
    then reject_host_request env frame pending_full (text "supervisor pending queue is full") r
    else r

abbrev pub put_pending : PendingQueue → Runner → Runner
put_pending q r = record r { pending = q }

abbrev pub enqueue_valid : Environment → PendingFrame → Runner → Runner
enqueue_valid env item r =
    let (q, admitted) = enqueue item env.pending_frame_limit env.pending_byte_limit r.pending in
    if admitted then wake (put_pending q r) else reject_full env item.frame r

abbrev pub unless_rejected :
    Environment → Option Rejection → ParsedFrame → Runner → (Runner → Runner) → Runner
unless_rejected env none frame r k = k r
unless_rejected env (some (code, complaint)) frame r k =
    reject_host_request env frame code complaint r

unfoldable pub enqueue_host : Environment → PendingFrame → Bool → Runner → Runner
unfolding reject_host_request begin_start validate_host_request
enqueue_host env item same_generation_only r =
    let frame = settle_host env item.frame r in
    unless_rejected env (validate_host_request env frame r) frame r (
      enqueue_valid env
        (record item { frame = frame; same_generation_only = same_generation_only }))

abbrev pub is_notification : FrameKind → Bool
is_notification frame_notification = true
is_notification _ = false

unfoldable pub retain_after_not_written : Environment → PendingFrame → Runner → Runner
unfolding reject_host_request
retain_after_not_written env item r =
    if not (is_request item.frame.kind) && not (is_notification item.frame.kind)
    then r
    else let (q, admitted) =
        push_front_bounded item env.pending_frame_limit env.pending_byte_limit r.pending in
      if admitted then put_pending q r else reject_full env item.frame r

abbrev plain_record : RequestRecord → RequestRecord
plain_record record_ = record record_ { initialize = false; task_augmented = false; task_id = "" }

abbrev pub registered :
    Environment → ScalarValue → ParsedFrame → ℕ → DirectionRegistry → DirectionRegistry
registered env id frame generation g =
    let (g', record_) = register id frame generation g in
    if env.modern
    then record g' { requests = put id.key (plain_record record_) g'.requests }
    else g'

abbrev pub register_sent :
    Environment → Option Generation → Option ScalarValue → ParsedFrame → Runner → Runner
register_sent env (some g) (some id) frame r = record r {
  host = registered env id frame g.id r.host;
}
register_sent env _ _ frame r = r

abbrev pub was_not_written : WriteOutcome → Bool
was_not_written not_written = true
was_not_written _ = false

-- A request is registered once any of its bytes may have reached the child.
abbrev pub deliver_valid : Environment → PendingFrame → Runner → Runner
deliver_valid env item r =
    let (r1, outcome, failed) = write_child env (forward item.frame.raw) r in
    let r2 =
      if is_request item.frame.kind && not (was_not_written outcome)
      then register_sent env r.current item.frame.id item.frame r1
      else r1 in
    if fully_written (outcome, failed)
    then r2
    else replace_current env
        (if was_not_written outcome then retain_after_not_written env item r2 else r2)

abbrev pub can_deliver : ParsedFrame → Runner → Bool
can_deliver frame r =
    is_some r.current && (is_active r.state || is_replaying r.state && is_initialization_ping frame)

unfoldable pub deliver_host_first : Environment → PendingFrame → Runner → Runner
unfolding enqueue_host retain_after_not_written reject_host_request validate_host_request
deliver_host_first env item r =
    if not (can_deliver item.frame r)
    then enqueue_host env item false r
    else let frame = settle_host env item.frame r in
      unless_rejected env (validate_host_request env frame r) frame r
        (deliver_valid env (record item { frame = frame }))

abbrev pub is_response : ParsedFrame → Bool
is_response frame = is_result frame.kind || is_error frame.kind

abbrev pub forward_to_child : Environment → ParsedFrame → Runner → Runner
forward_to_child env frame r = (tell_child env (forward frame.raw) r).0

abbrev pub reject_request : Environment → ParsedFrame → Code → String → Runner → Runner
reject_request env frame code message r =
    if is_request frame.kind then reject_host_request env frame code (text message) r else r
