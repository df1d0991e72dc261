-- ===== src/Supervisor/Runner/Host.antt =====
-- muxcore/supervisor/routing.go, modern.go: the routing of the host's frames.
use mcp_mux.Base.{
  ℕ, Bool, true, false, not, ◌&&◌, ◌||◌, Option, none, some, same, string_key, nat_key, ltb,
  if◌then◌else◌, is_some,
}
use mcp_mux.Map.{get}
use mcp_mux.Supervisor.Scalar.{Raw, scalar_key, ScalarValue}
use mcp_mux.Supervisor.Records.{RequestRecord, ParsedFrame, TaskMeta, ProgressMeta}
use mcp_mux.Supervisor.Registry.{ok, err, Error}
use mcp_mux.Supervisor.Registry.Complete.{can_complete, complete, cancel}
use mcp_mux.Supervisor.Registry.Tasks.{update_task}
use mcp_mux.Supervisor.Registry.Retired.{consume_retired_response, consume_retired_task_status}
use mcp_mux.Supervisor.Registry.Progress.{accept_progress}
use mcp_mux.Supervisor.Queue.{PendingFrame, remove_request, is_initialization_ping}
use mcp_mux.Supervisor.Runner.{
  Runner, Environment, is_active, is_replaying, is_quiescing, is_awaiting_exit, parse_error,
  invalid_request, method_not_found, invalid_params, text, refused, forward, local_error,
  Generation,
}
use mcp_mux.Supervisor.Runner.Lifecycle.{
  tell_host, tell_child, write_child, replace_current, Flow, go_on, go_on_flow, fully_written,
  with_child, on_host, on_child, own_record, may_cancel,
}
use mcp_mux.Supervisor.Runner.Validate.{Rejection}
use mcp_mux.Supervisor.Runner.Delivery.{
  is_response, deliver_host_first, enqueue_host, reject_host_request, put_pending, was_not_written,
  forward_to_child, reject_request,
}
use mcp_mux.Supervisor.Runner.HostLifecycle.{handle_host_lifecycle}
use mcp_mux.Supervisor.Runner.ModernHost.{handle_modern_host}
use mcp_mux.Supervisor.Runner.Lease.{resume_dormant_lease_after_host}

-- The child's request that the response answers, in the current generation.
abbrev pub child_record : ParsedFrame → Runner → Option RequestRecord
child_record frame r = elim frame.id [
  | none ↦ none
  | some id ↦ own_record r.current (get id.key r.child.requests)
]

abbrev pub answer_child : Environment → RequestRecord → ParsedFrame → Runner → Runner
answer_child env record_ frame r =
    let (r1, outcome, failed) = write_child env (forward frame.raw) r in
    let r2 =
      if was_not_written outcome
      then (r1, true)
      else on_child (complete env.json record_ frame r1.child) r1 λ _ r'. (r', true) in
    go_on r2 λ r'. if fully_written (outcome, failed) then r' else replace_current env r'

-- A response that is handled has an ID.
abbrev raw_id : ParsedFrame → Option Raw
raw_id frame = elim frame.id [ none ↦ none | some id ↦ some id.raw ]

abbrev pub refuse_child : Environment → RequestRecord → ParsedFrame → Error → Runner → Runner
refuse_child env record_ frame e r =
    go_on (on_child (cancel record_ r.child) r λ _ r'. (r', true))
      λ r'. (tell_child env (local_error (raw_id frame) invalid_params (refused e)) r').0

abbrev pub respond : Environment → ParsedFrame → Option RequestRecord → Runner → Runner
respond env frame none r = r
respond env frame (some record_) r = elim (can_complete env.json record_ frame r.child) [
  | ok _ ↦ answer_child env record_ frame r
  | err e ↦ refuse_child env record_ frame e r
]

unfoldable pub handle_host_response : Environment → ParsedFrame → Runner → Runner
unfolding write_child replace_current tell_child
handle_host_response env frame r = respond env frame (child_record frame r) r

abbrev pub cancel_record : Environment → PendingFrame → RequestRecord → Runner → Runner
cancel_record env item record_ r =
    if not (may_cancel record_)
    then r
    else if is_quiescing r.state
    then enqueue_host env item true r
    else if not (is_active r.state)
    then r
    else go_on (on_host (cancel record_ r.host) r λ _ r'. (r', true))
        (forward_to_child env item.frame)

abbrev pub cancel_target : Environment → PendingFrame → Option ScalarValue → Runner → Runner
cancel_target env item none r = r
cancel_target env item (some target) r =
    let (q, removed) = remove_request target.key r.pending in
    if removed
    then put_pending q r
    else elim (own_record r.current (get target.key r.host.requests)) [
      | none ↦ r
      | some record_ ↦ cancel_record env item record_ r
    ]

unfoldable pub handle_host_cancellation : Environment → PendingFrame → Runner → Runner
unfolding enqueue_host tell_child
handle_host_cancellation env item r =
    if item.frame.utility_err then r else cancel_target env item item.frame.cancellation r

abbrev pub progress_of :
    Environment → ParsedFrame → Option ProgressMeta → Option Generation → Runner → Runner
progress_of env frame (some meta) (some g) r =
    let (child, accepted) = accept_progress meta g.id r.child in
    if accepted then forward_to_child env frame (with_child child r) else r
progress_of env frame _ _ r = r

unfoldable pub handle_host_progress : Environment → ParsedFrame → Runner → Runner
unfolding tell_child
handle_host_progress env frame r =
    if frame.utility_err then r else progress_of env frame frame.progress r.current r

abbrev pub status_of :
    Environment → ParsedFrame → Option TaskMeta → Option Generation → Runner → Runner
status_of env frame (some meta) (some g) r =
    go_on (on_child (update_task meta g.id r.child) r λ handled r'. (r', handled))
      (forward_to_child env frame)
status_of env frame _ _ r = r

unfoldable pub handle_host_task_status : Environment → ParsedFrame → Runner → Runner
unfolding tell_child
handle_host_task_status env frame r =
    if frame.utility_err then r else status_of env frame frame.task_status r.current r

-- `true` says that a retired request or task was meant; an error terminates.
abbrev pub consume_response : Environment → ParsedFrame → Runner → Flow
consume_response env frame r =
    if not (is_response frame && is_some frame.id)
    then (r, true)
    else on_child (consume_retired_response env.json frame r.child) r
        λ handled r'. (r', not handled)

abbrev pub is_task_status : ParsedFrame → Bool
is_task_status frame = same frame.method "notifications/tasks/status"

abbrev pub consume_meta : ParsedFrame → Option TaskMeta → Runner → Flow
consume_meta frame none r = (r, true)
consume_meta frame (some meta) r =
    if not (is_task_status frame)
    then (r, true)
    else on_child (consume_retired_task_status meta r.child) r (λ handled r'. (r', not handled))

abbrev pub consume_status : ParsedFrame → Runner → Flow
consume_status frame r = consume_meta frame frame.task_status r

-- While quiescing the frame waits for the child's answer, and goes down with its generation.
abbrev pub if_active : Environment → PendingFrame → (Runner → Runner) → Runner → Runner
if_active env item handle r =
    if is_active r.state
    then handle r
    else if is_quiescing r.state
    then enqueue_host env item true r
    else r

abbrev pub route_host : Environment → PendingFrame → Runner → Runner
route_host env item r =
    if is_response item.frame
    then (if is_active r.state || is_replaying r.state || is_awaiting_exit r.state
        then handle_host_response env item.frame r
        else if is_quiescing r.state
        then enqueue_host env item true r
        else r)
    else if same item.frame.method "notifications/cancelled"
    then handle_host_cancellation env item r
    else if same item.frame.method "notifications/progress"
    then if_active env item (handle_host_progress env item.frame) r
    else if is_task_status item.frame
    then if_active env item (handle_host_task_status env item.frame) r
    else if is_active r.state || is_replaying r.state && is_initialization_ping item.frame
    then deliver_host_first env item r
    else enqueue_host env item false r

unfoldable pub handle_plain_host : Environment → PendingFrame → Runner → Runner
unfolding handle_host_lifecycle handle_host_response handle_host_cancellation handle_host_progress
    handle_host_task_status deliver_host_first enqueue_host
handle_plain_host env item r =
    let (r1, handled) = handle_host_lifecycle env item r in
    if handled
    then r1
    else go_on (go_on_flow (consume_response env item.frame r1) (consume_status item.frame))
        (route_host env item)

abbrev pub handle_host_frame : Environment → PendingFrame → Runner → Runner
handle_host_frame env item r =
    if item.frame.reserved
    then reject_request env item.frame method_not_found "method not found" r
    else if env.modern
    then handle_modern_host env item r
    else handle_plain_host env item r

-- A frame, or whether it was malformed JSON.
pub data HostFrame : Type 0 where
  parsed : ParsedFrame → HostFrame
  malformed : Bool → HostFrame

abbrev invalid_frame_response : Bool → Rejection
invalid_frame_response true = (parse_error, text "parse error")
invalid_frame_response false = (invalid_request, text "invalid JSON-RPC frame")

abbrev pub handle_parsed : Environment → ℕ → ℕ → HostFrame → Runner → Runner
handle_parsed env sequence arrived (malformed json) r =
    let (code, complaint) = invalid_frame_response json in
    (tell_host env (local_error none code complaint) r).0
handle_parsed env sequence arrived (parsed frame) r =
    handle_host_frame env
      (record {
        sequence = sequence;
        arrived = arrived;
        frame = frame;
        same_generation_only = false;
      })
      r

abbrev pub later : ℕ → Runner → Runner
later sequence r =
    if ltb r.last_host_sequence sequence then record r { last_host_sequence = sequence } else r

unfoldable pub handle_host_event : Environment → ℕ → ℕ → HostFrame → Runner → Runner
unfolding handle_plain_host handle_modern_host reject_host_request tell_host
    resume_dormant_lease_after_host
handle_host_event env sequence arrived frame r =
    if is_some r.terminal
    then r
    else resume_dormant_lease_after_host env
        (handle_parsed env sequence arrived frame (later sequence r))
