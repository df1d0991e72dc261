-- ===== src/Supervisor/Runner/ModernHost.antt =====
-- muxcore/supervisor/modern.go: the host's frames in the modern protocol, which has no handshake.
use mcp_mux.Base.{
  ◌-◌, Bool, true, false, not, ◌&&◌, Option, none, some, List, same, string_key, nat_key,
  if◌then◌else◌,
}
use mcp_mux.Map.{get}
use mcp_mux.Supervisor.Scalar.{scalar_key, ScalarValue, ScalarKey}
use mcp_mux.Supervisor.Records.{RequestRecord}
use mcp_mux.Supervisor.Queue.{PendingFrame, PendingQueue, take_first, asks, frame_size}
use mcp_mux.Supervisor.Runner.{Runner, Environment, is_active, is_quiescing}
use mcp_mux.Supervisor.Runner.Lifecycle.{tell_child, own_record, finish_modern_request}
use mcp_mux.Supervisor.Runner.Delivery.{
  is_response, deliver_host_first, enqueue_host, put_pending, is_notification, forward_to_child,
}

-- The loop of `removeModernRequest` takes the first request with the ID, whatever it is.
abbrev modern_out : Option (PendingFrame × List PendingFrame) → PendingQueue → PendingQueue × Bool
modern_out none q = (q, false)
modern_out (some (item, others)) q =
    (record { items = others; bytes = q.bytes - frame_size item }, true)

unfoldable pub remove_modern_request : ScalarKey → PendingQueue → PendingQueue × Bool
remove_modern_request key q = modern_out (take_first (asks key) q.items) q

abbrev modern_cancel_record : Environment → PendingFrame → RequestRecord → Runner → Runner
modern_cancel_record env item record_ r =
    if is_quiescing r.state
    then enqueue_host env item true r
    else if not (is_active r.state)
    then r
    else forward_to_child env item.frame (finish_modern_request record_ r)

abbrev pub modern_cancel : Environment → PendingFrame → Option ScalarValue → Runner → Runner
modern_cancel env item none r = r
modern_cancel env item (some target) r =
    let (q, removed) = remove_modern_request target.key r.pending in
    if removed
    then put_pending q r
    else elim (own_record r.current (get target.key r.host.requests)) [
      | none ↦ r
      | some record_ ↦ modern_cancel_record env item record_ r
    ]

unfoldable pub handle_modern_host : Environment → PendingFrame → Runner → Runner
unfolding remove_modern_request enqueue_host tell_child deliver_host_first
handle_modern_host env item r =
    if is_response item.frame
    then r
    else if same item.frame.method "notifications/cancelled" && is_notification item.frame.kind
    then modern_cancel env item item.frame.cancellation r
    else if same item.frame.method "notifications/progress" && is_notification item.frame.kind
    then r
    else if is_active r.state
    then deliver_host_first env item r
    else enqueue_host env item false r
