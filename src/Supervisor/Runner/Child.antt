-- ===== src/Supervisor/Runner/Child.antt =====
-- muxcore/supervisor/routing.go, modern.go: the routing of the child's frames.
use mcp_mux.Base.{
  Bool, true, false, not, ◌&&◌, ◌||◌, Option, none, some, same, string_key, nat_key, if◌then◌else◌,
  is_some,
}
use mcp_mux.Map.{get}
use mcp_mux.Supervisor.Scalar.{scalar_key, ScalarValue, ScalarKey}
use mcp_mux.Supervisor.Records.{RequestRecord, ParsedFrame, TaskMeta, ProgressMeta, is_result}
use mcp_mux.Supervisor.Registry.{DirectionRegistry, ok, err}
use mcp_mux.Supervisor.Registry.Register.{can_register, register}
use mcp_mux.Supervisor.Registry.Complete.{can_complete, complete}
use mcp_mux.Supervisor.Registry.Retire.{retire_request}
use mcp_mux.Supervisor.Registry.Tasks.{update_task}
use mcp_mux.Supervisor.Registry.Progress.{accept_progress}
use mcp_mux.Supervisor.Queue.{is_request, is_initialization_ping}
use mcp_mux.Supervisor.Runner.{
  Runner, Environment, is_active, is_quiescing, is_awaiting_exit, is_none, invalid_params,
  Complaint, text, forward, local_error, Generation,
}
use mcp_mux.Supervisor.Runner.Lifecycle.{
  tell_host, tell_child, replace_current, go_on, with_host, with_child, on_host, own_record,
  may_cancel, finish_modern_request,
}
use mcp_mux.Supervisor.Runner.Validate.{settle_augmented, same_id, validate_task_operation}
use mcp_mux.Supervisor.Runner.Delivery.{is_response, is_notification}
use mcp_mux.Supervisor.Runner.HostLifecycle.{with_handshake}

abbrev pub is_initialization_logging : ParsedFrame → Bool
is_initialization_logging frame =
    is_notification frame.kind && same frame.method "notifications/message"

abbrev pub forward_to_host : Environment → ParsedFrame → Runner → Runner
forward_to_host env frame r = (tell_host env (forward frame.raw) r).0

abbrev pub host_record : Option ScalarValue → Runner → Option RequestRecord
host_record none r = none
host_record (some id) r = own_record r.current (get id.key r.host.requests)

abbrev pub stop_replay : Runner → Runner
stop_replay r = record r { timers = record r.timers { replay = false } }

-- The host has its answer to initialize.
abbrev pub settle_initialize : ParsedFrame → Runner → Runner
settle_initialize response r =
    if is_result response.kind
    then with_handshake (record r.handshake { awaiting = false; response = some response.raw }) r
    else with_handshake (record r.handshake { awaiting = false; failed = true }) r

unfoldable pub complete_initial_initialize : Environment → ParsedFrame → Runner → Runner
unfolding tell_host
complete_initial_initialize env response r =
    if not r.handshake.awaiting
    then r
    else go_on (tell_host env (forward response.raw) (stop_replay r)) (settle_initialize response)

abbrev pub complete_host : Environment → RequestRecord → ParsedFrame → Runner → Runner
complete_host env record_ frame r =
    (on_host (complete env.json record_ frame r.host) r λ _ r'. (r', true)).0

abbrev pub answer_host : Environment → ParsedFrame → Option RequestRecord → Runner → Runner
answer_host env frame none r = r
answer_host env frame (some record_) r = elim (can_complete env.json record_ frame r.host) [
  | err e ↦ replace_current env r
  | ok _ ↦ go_on (tell_host env (forward frame.raw) r) (complete_host env record_ frame)
]

unfoldable pub handle_child_response : Environment → ParsedFrame → Runner → Runner
unfolding complete_initial_initialize replace_current tell_host
handle_child_response env frame r =
    if is_none frame.id || is_none r.current
    then r
    else if r.handshake.awaiting && same_id frame.id r.handshake.id
    then complete_initial_initialize env frame r
    else answer_host env frame (host_record frame.id r) r

abbrev pub reject_child_request : Environment → ParsedFrame → Complaint → Runner → Runner
reject_child_request env frame complaint r = elim frame.id [
  | none ↦ r
  | some id ↦
      if is_none r.current
      then r
      else (tell_child env (local_error (some id.raw) invalid_params complaint) r).0
]

abbrev pub register_child : Option Generation → Option ScalarValue → ParsedFrame → Runner → Runner
register_child (some g) (some id) frame r = with_child (register id frame g.id r.child).0 r
register_child _ _ frame r = r

abbrev pub task_operation_complaint :
    ParsedFrame → Option Generation → DirectionRegistry → Option Complaint
task_operation_complaint frame none g = none
task_operation_complaint frame (some generation) g =
    if same frame.task_operation "" then none else validate_task_operation g frame generation.id

abbrev pub admit_child : Environment → ParsedFrame → Runner → Runner
admit_child env frame r = elim (can_register frame r.child) [
  | err e ↦ replace_current env r
  | ok _ ↦ go_on (tell_host env (forward frame.raw) r) (register_child r.current frame.id frame)
]

abbrev pub check_child : Environment → ParsedFrame → Runner → Runner
check_child env frame r =
    if frame.utility_err
    then reject_child_request env frame (text "invalid request metadata") r
    else elim (task_operation_complaint frame r.current r.child) [
      | some complaint ↦ reject_child_request env frame complaint r
      | none ↦ admit_child env frame r
    ]

unfoldable pub handle_child_request : Environment → ParsedFrame → Runner → Runner
unfolding replace_current tell_host tell_child
handle_child_request env frame r =
    if is_none r.current
      || is_none r.handshake.initialized
        && (is_none r.handshake.request || not (is_initialization_ping frame))
    then replace_current env r
    else check_child env (settle_augmented env r.handshake.request false frame) r

abbrev pub retire_told : Environment → ParsedFrame → Option RequestRecord → Runner → Runner
retire_told env frame none r = r
retire_told env frame (some record_) r =
    if not (may_cancel record_)
    then r
    else go_on (tell_host env (forward frame.raw) r)
        λ r'. with_child (retire_request record_ r'.child) r'

unfoldable pub handle_child_cancellation : Environment → ParsedFrame → Runner → Runner
unfolding tell_host
handle_child_cancellation env frame r = if frame.utility_err then r else elim frame.cancellation [
  | none ↦ r
  | some id ↦ retire_told env frame (own_record r.current (get id.key r.child.requests)) r
]

abbrev pub progress_to_host :
    Environment → ParsedFrame → Option ProgressMeta → Option Generation → Runner → Runner
progress_to_host env frame (some meta) (some g) r =
    let (host, accepted) = accept_progress meta g.id r.host in
    if accepted then forward_to_host env frame (with_host host r) else r
progress_to_host env frame _ _ r = r

unfoldable pub handle_child_progress : Environment → ParsedFrame → Runner → Runner
unfolding tell_host
handle_child_progress env frame r =
    if frame.utility_err then r else progress_to_host env frame frame.progress r.current r

abbrev pub status_to_host :
    Environment → ParsedFrame → Option TaskMeta → Option Generation → Runner → Runner
status_to_host env frame (some meta) (some g) r =
    go_on (on_host (update_task meta g.id r.host) r λ handled r'. (r', handled))
      (forward_to_host env frame)
status_to_host env frame _ _ r = r

unfoldable pub handle_child_task_status : Environment → ParsedFrame → Runner → Runner
unfolding tell_host
handle_child_task_status env frame r =
    if frame.utility_err then r else status_to_host env frame frame.task_status r.current r

abbrev pub finish_told : Environment → ParsedFrame → Option RequestRecord → Runner → Runner
finish_told env frame none r = r
finish_told env frame (some record_) r =
    go_on (tell_host env (forward frame.raw) r) (finish_modern_request record_)

-- Only a subscription may be ended or used by the child.
abbrev pub subscription : Option RequestRecord → Option RequestRecord
subscription none = none
subscription (some record_) =
    if same record_.method "subscriptions/listen" then some record_ else none

abbrev pub modern_notification :
    Environment → ParsedFrame → Option (Option ScalarKey) → Runner → Runner
modern_notification env frame none r = r
modern_notification env frame (some none) r = forward_to_host env frame r
modern_notification env frame (some (some key)) r =
    if is_some (subscription (own_record r.current (get key r.host.requests)))
    then forward_to_host env frame r
    else r

abbrev pub route_modern : Environment → ParsedFrame → Runner → Runner
route_modern env frame r =
    if is_request frame.kind
    then r
    else if is_response frame
    then finish_told env frame (host_record frame.id r) r
    else if same frame.method "notifications/cancelled"
    then finish_told env frame (subscription (host_record frame.cancellation r)) r
    else if same frame.method "notifications/progress"
    then handle_child_progress env frame r
    else modern_notification env frame (env.subscription_key frame) r

-- The first frame after the child agreed to go makes its going invalid.
unfoldable pub handle_modern_child : Environment → ParsedFrame → Runner → Runner
unfolding tell_host handle_child_progress
handle_modern_child env frame r =
    let wired = record frame { raw = frame.wire } in
    if is_awaiting_exit r.state
    then (if r.dormancy_invalid
        then r
        else route_modern env wired (record r { dormancy_invalid = true }))
    else if is_active r.state || is_quiescing r.state
    then route_modern env wired r
    else r
