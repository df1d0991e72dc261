-- ===== src/Supervisor/Queue/Order.antt =====
-- The queue is first in, first out, and what is taken out of the middle leaves the order alone.
use mathlib.Core.List.{append_assoc, append-nil}
use mcp_mux.Base.{
  ℕ, ◌+◌, ◌-◌, ◌≤◌, ◌<◌, ◌≡◌, refl, sym, ap, ◌⊎◌, inl, inr, Bool, true, false, ◌||◌, none, some,
  List, [], ◌∷◌, ◌++◌, arith, same, string_key, nat_key, if◌then◌else◌, Bool-cases, Option-cases,
  length,
}
use mcp_mux.Supervisor.Scalar.{ScalarKey, scalar_key}
use mcp_mux.Supervisor.Queue.{
  PendingFrame, PendingQueue, frame_size, enqueue, push_front_bounded, pop, take_first, asks,
  remove_request, any_item, keep_others, discard_same_generation_only,
}
use mcp_mux.Supervisor.Queue.Bounds.{total, IsBounded, take_first_split, total-append}

-- The frames that outlive their generation, in their order.
unfoldable pub others_of : List PendingFrame → List PendingFrame
others_of [] = []
others_of (item ∷ rest) =
    let others = others_of rest in if item.same_generation_only then others else item ∷ others

keep_others_items :
    (l : List PendingFrame) (bytes : ℕ) (kept : List PendingFrame)
    → (keep_others l bytes kept).0 ≡ kept ++ others_of l
unfolding keep_others others_of
keep_others_items [] bytes kept = sym (append-nil kept)
keep_others_items (item ∷ l) bytes kept = ground (
  arith,
  keep_others_items l bytes (kept ++ item ∷ []),
  keep_others_items l (bytes - frame_size item) kept,
  append_assoc kept (item ∷ []) (others_of l),
)

keep_others_bytes :
    (l : List PendingFrame) (bytes : ℕ) (kept : List PendingFrame)
    → bytes ≡ total kept + total l
    → (keep_others l bytes kept).1 ≡ total (keep_others l bytes kept).0
unfolding keep_others total
keep_others_bytes [] bytes kept h = omega arith
keep_others_bytes (item ∷ l) bytes kept h = ground (
  arith,
  keep_others_bytes l bytes (kept ++ item ∷ []),
  keep_others_bytes l (bytes - frame_size item) kept,
  total-append kept (item ∷ []),
)

others_of_le :
    (l : List PendingFrame) → (total (others_of l) ≤ total l) × (length (others_of l) ≤ length l)
unfolding others_of total
others_of_le [] = omega arith
others_of_le (item ∷ l) = ground (arith, others_of_le l)

take_first-none :
    (p : PendingFrame → Bool) (l : List PendingFrame) → take_first p l ≡ none → any_item p l ≡ false
unfolding take_first any_item
take_first-none p [] e = refl
take_first-none p (item ∷ l) e = elim (Option-cases (take_first p l)) [
  | inl left ↦ ground (arith, take_first-none p l)
  | inr (r, left) ↦ absurd (ground arith)
]

-- On a queue within its bounds, discarding keeps exactly the frames that are not bound to the
-- generation, in their order, and the queue within its bounds.
pub items-discard :
    (max_frames max_bytes : ℕ) (q : PendingQueue)
    → IsBounded max_frames max_bytes q
    → ((discard_same_generation_only q).items ≡ others_of q.items)
      × IsBounded max_frames max_bytes (discard_same_generation_only q)
unfolding discard_same_generation_only total
items-discard max_frames max_bytes q v =
    let items = keep_others_items q.items q.bytes [] in
    let bytes = keep_others_bytes q.items q.bytes [] (omega (arith, v.counted)) in
    let le = others_of_le q.items in (items, ground (arith, v.counted, ap total items))

-- A frame is admitted exactly when there is room for it in frames and in bytes, and is then last; a
-- queue without room is left as it was.
pub enqueue-admits :
    (item : PendingFrame) (max_frames max_bytes : ℕ) (q : PendingQueue)
    → let r = enqueue item max_frames max_bytes q in
      (((r.1 ≡ true)
          × (r.0.items ≡ q.items ++ item ∷ [])
          × (length q.items < max_frames)
          × (q.bytes + frame_size item ≤ max_bytes))
        ⊎ ((r.1 ≡ false)
            × (r.0 ≡ q)
            × ((max_frames ≤ length q.items) ⊎ (max_bytes < q.bytes + frame_size item))))
unfolding enqueue
enqueue-admits item max_frames max_bytes q = ground arith

-- A frame that was put back at the front is the next to leave, and the queue is then as before.
pub pop-push_front :
    (item : PendingFrame) (max_frames max_bytes : ℕ) (q : PendingQueue)
    → (push_front_bounded item max_frames max_bytes q).1 ≡ true
    → pop (push_front_bounded item max_frames max_bytes q).0 ≡ (q, some item)
unfolding push_front_bounded pop
pop-push_front item max_frames max_bytes q e = ground arith

-- Behind a frame that waits, an admitted frame does not change what is popped next; in an empty
-- queue it is popped itself.
pub pop-enqueue :
    (item : PendingFrame) (max_frames max_bytes : ℕ) (q : PendingQueue)
    → (enqueue item max_frames max_bytes q).1 ≡ true
    → (pop (enqueue item max_frames max_bytes q).0).1
      ≡ (elim (pop q).1 [ none ↦ some item | some first ↦ some first ])
unfolding enqueue pop
pop-enqueue item max_frames max_bytes q e = ground arith

-- The item is the first in the queue that asks under the ID, with what stands around it.
pub record IsFirst (key : ScalarKey) (q : PendingQueue) : Type 0 where
  pub front : List PendingFrame
  pub item : PendingFrame
  pub back : List PendingFrame
  pub stands : q.items ≡ front ++ item ∷ back
  pub before : any_item (asks key) front ≡ false
  pub asked : asks key item ≡ true

-- The first request with an ID is taken out, with its bytes, and true is returned, where it is
-- neither an initialize nor a task; the frames around it keep their order. Where it is one of
-- these, or no request has the ID, false is returned and the queue is left as it was.
pub remove_request_lem :
    (key : ScalarKey) (q : PendingQueue)
    → ((first : IsFirst key q) × (same first.item.frame.method "initialize" ≡ false)
        × (first.item.frame.task_augmented ≡ false)
        × ((remove_request key q).1 ≡ true)
        × ((remove_request key q).0.items ≡ first.front ++ first.back)
        × ((remove_request key q).0.bytes ≡ q.bytes - frame_size first.item))
      ⊎ ((first : IsFirst key q) × ((same first.item.frame.method "initialize" ≡ true)
            ⊎ (first.item.frame.task_augmented ≡ true))
          × (remove_request key q ≡ (q, false)))
      ⊎ ((any_item (asks key) q.items ≡ false) × (remove_request key q ≡ (q, false)))
unfolding remove_request
remove_request_lem key q = elim (Option-cases (take_first (asks key) q.items)) [
  | inl e ↦ inr (inr (take_first-none (asks key) q.items e, rw e refl))
  | inr (r, e) ↦
      let (front, back, split, rest, pass, before) =
        take_first_split (asks key) q.items r.0 r.1 e in
      let first : IsFirst key q = record {
        front = front;
        item = r.0;
        back = back;
        stands = split;
        before = before;
        asked = pass;
      } in
      elim (Bool-cases (same r.0.frame.method "initialize" || r.0.frame.task_augmented)) [
        | inl kept ↦ inr (inl (first, ground arith, rw e (ground arith)))
        | inr free ↦ inl (
          first,
          ground arith,
          ground arith,
          rw e (ground arith),
          rw e (ground arith),
          rw e (ground arith),
        )
      ]
]
