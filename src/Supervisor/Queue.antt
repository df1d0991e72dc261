-- ===== src/Supervisor/Queue.antt =====
-- muxcore/supervisor/queue.go: host frames that wait for a generation, bounded in frames and bytes.
pub mod Bounds
pub mod Order
pub mod Runs
use mcp_mux.Base.{
  ℕ, ◌+◌, ◌-◌, Bool, true, false, ◌&&◌, ◌||◌, Option, none, some, List, [], ◌∷◌, ◌++◌, same,
  string_key, nat_key, ltb, leb, if◌then◌else◌, length,
}
use mcp_mux.Supervisor.Scalar.{ScalarKey, ScalarValue, scalar_key}
use mcp_mux.Supervisor.Records.{ParsedFrame, FrameKind, frame_request}

pub record PendingFrame : Type 0 where
  pub sequence : ℕ
  pub arrived : ℕ
  pub frame : ParsedFrame
  pub same_generation_only : Bool

pub record PendingQueue : Type 0 where
  pub items : List PendingFrame
  pub bytes : ℕ

abbrev pub new_queue : PendingQueue
new_queue = record { items = []; bytes = 0 }

-- `len(item.frame.raw) + 1`: the frame and its line break.
abbrev pub frame_size : PendingFrame → ℕ
frame_size item = length item.frame.raw + 1

-- `size > maxBytes-queue.bytes`, which is negative once the queue holds more.
abbrev pub is_full : PendingFrame → ℕ → ℕ → PendingQueue → Bool
is_full item max_frames max_bytes q =
    leb max_frames (length q.items) || ltb max_bytes (frame_size item + q.bytes)

unfoldable pub enqueue : PendingFrame → ℕ → ℕ → PendingQueue → PendingQueue × Bool
enqueue item max_frames max_bytes q =
    if is_full item max_frames max_bytes q
    then (q, false)
    else (record { items = q.items ++ item ∷ []; bytes = q.bytes + frame_size item }, true)

unfoldable pub push_front_bounded : PendingFrame → ℕ → ℕ → PendingQueue → PendingQueue × Bool
push_front_bounded item max_frames max_bytes q =
    if is_full item max_frames max_bytes q
    then (q, false)
    else (record { items = item ∷ q.items; bytes = q.bytes + frame_size item }, true)

abbrev pop_items : List PendingFrame → PendingQueue → PendingQueue × Option PendingFrame
pop_items [] q = (q, none)
pop_items (item ∷ rest) q = (record { items = rest; bytes = q.bytes - frame_size item }, some item)

unfoldable pub pop : PendingQueue → PendingQueue × Option PendingFrame
pop q = pop_items q.items q

abbrev pub is_request : FrameKind → Bool
is_request frame_request = true
is_request _ = false

-- `isInitializationPing` of routing.go
abbrev pub is_initialization_ping : ParsedFrame → Bool
is_initialization_ping f = is_request f.kind && same f.method "ping"

-- The first item that passes the test, and the others in their order.
unfoldable pub take_first :
    (PendingFrame → Bool) → List PendingFrame → Option (PendingFrame × List PendingFrame)
take_first p [] = none
take_first p (item ∷ rest) =
    let found = take_first p rest in
    if p item
    then some (item, rest)
    else elim found [ none ↦ none | some (hit, others) ↦ some (hit, item ∷ others) ]

abbrev take_out :
    Option (PendingFrame × List PendingFrame) → PendingQueue → PendingQueue × Option PendingFrame
take_out none q = (q, none)
take_out (some (item, others)) q =
    (record { items = others; bytes = q.bytes - frame_size item }, some item)

unfoldable pub pop_first_initialization_ping : PendingQueue → PendingQueue × Option PendingFrame
pop_first_initialization_ping q =
    take_out (take_first (λ item. is_initialization_ping item.frame) q.items) q

abbrev pub has_key : ScalarKey → Option ScalarValue → Bool
has_key key none = false
has_key key (some v) = same v.key key

abbrev pub asks : ScalarKey → PendingFrame → Bool
asks key item = is_request item.frame.kind && has_key key item.frame.id

-- The first request with the ID decides.
abbrev remove_out : Option (PendingFrame × List PendingFrame) → PendingQueue → PendingQueue × Bool
remove_out none q = (q, false)
remove_out (some (item, others)) q =
    if same item.frame.method "initialize" || item.frame.task_augmented
    then (q, false)
    else (record { items = others; bytes = q.bytes - frame_size item }, true)

unfoldable pub remove_request : ScalarKey → PendingQueue → PendingQueue × Bool
remove_request key q = remove_out (take_first (asks key) q.items) q

unfoldable pub any_item : (PendingFrame → Bool) → List PendingFrame → Bool
any_item p [] = false
any_item p (item ∷ rest) = p item || any_item p rest

unfoldable pub contains_request : ScalarKey → PendingQueue → Bool
contains_request key q = any_item (asks key) q.items

unfoldable pub contains_progress_token : ScalarKey → PendingQueue → Bool
contains_progress_token key q =
    any_item (λ item. is_request item.frame.kind && has_key key item.frame.progress_token) q.items

-- The loop: the items kept, and the bytes left.
unfoldable pub keep_others : List PendingFrame → ℕ → List PendingFrame → List PendingFrame × ℕ
keep_others [] bytes kept = (kept, bytes)
keep_others (item ∷ rest) bytes kept =
    let drops = item.same_generation_only in
    keep_others rest (if drops then bytes - frame_size item else bytes)
      (if drops then kept else kept ++ item ∷ [])

unfoldable pub discard_same_generation_only : PendingQueue → PendingQueue
discard_same_generation_only q =
    let (kept, bytes) = keep_others q.items q.bytes [] in record { items = kept; bytes = bytes }

unfoldable pub clear : PendingQueue → PendingQueue
clear q = record { items = []; bytes = 0 }

unfoldable pub len : PendingQueue → ℕ
len q = length q.items
