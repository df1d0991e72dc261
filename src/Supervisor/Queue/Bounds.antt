-- ===== src/Supervisor/Queue/Bounds.antt =====
-- The queue counts its bytes, keeps its limits and its order.

use mcp_mux.Base.{
  ℕ, suc, ◌+◌, ◌-◌, ◌≤◌, ◌≡◌, refl, inl, inr, Bool, true, false, some, List, [], ◌∷◌, ◌++◌, arith,
  string_key, nat_key, Bool-cases, Option-cases, length, length-append,
}
use mcp_mux.Supervisor.Scalar.{scalar_key, ScalarKey}
use mcp_mux.Supervisor.Queue.{
  PendingFrame, PendingQueue, frame_size, take_first, any_item, enqueue, push_front_bounded, pop,
  is_initialization_ping, pop_first_initialization_ping, asks, remove_request,
}

-- What the frames take together.
unfoldable pub total : List PendingFrame → ℕ
total [] = 0
total (item ∷ rest) = frame_size item + total rest

-- The bytes are counted exactly, and both limits hold.
pub record IsBounded (max_frames max_bytes : ℕ) (q : PendingQueue) : Type 0 where
  pub counted : q.bytes ≡ total q.items
  pub few : length q.items ≤ max_frames
  pub small : q.bytes ≤ max_bytes

pub total-append : (xs ys : List PendingFrame) → total (xs ++ ys) ≡ total xs + total ys
unfolding total
total-append [] ys = omega arith
total-append (x ∷ xs) ys = omega (arith, total-append xs ys)

-- What `take_first` finds stands where it was found.
pub take_first_split :
    (p : PendingFrame → Bool) (l : List PendingFrame) (item : PendingFrame)
    (others : List PendingFrame)
    → take_first p l ≡ some (item, others)
    → (front back : List PendingFrame) × (l ≡ front ++ item ∷ back)
      × (others ≡ front ++ back)
      × (p item ≡ true)
      × (any_item p front ≡ false)
unfolding take_first any_item
take_first_split p [] item others e = ground arith
take_first_split p (x ∷ l) item others e = elim (Bool-cases (p x)) [
  | inl hit ↦ ([], l, ground arith, ground arith, ground arith, refl)
  | inr miss ↦ elim (Option-cases (take_first p l)) [
    | inl none_left ↦ ground arith
    | inr (r, found) ↦
        let (front, back, split, rest, pass, before) = take_first_split p l r.0 r.1 found in
        (x ∷ front, back, ground arith, ground arith, ground arith, ground arith)
  ]
]

pub take_first-total :
    (p : PendingFrame → Bool) (l : List PendingFrame) (item : PendingFrame)
    (others : List PendingFrame)
    → take_first p l ≡ some (item, others)
    → (total l ≡ frame_size item + total others) × (length l ≡ suc (length others))
unfolding total
take_first-total p l item others e =
    let (front, back, split, rest, pass, before) = take_first_split p l item others e in
    (
      ground (arith, total-append front (item ∷ back), total-append front back),
      ground (arith, length-append front (item ∷ back), length-append front back),
    )

module _ (max_frames max_bytes : ℕ) where
  pub enqueue-IsBounded :
      (item : PendingFrame) (q : PendingQueue)
      → IsBounded max_frames max_bytes q
      → IsBounded max_frames max_bytes (enqueue item max_frames max_bytes q).0
  unfolding enqueue total
  enqueue-IsBounded item q v =
      ground (arith, total-append q.items (item ∷ []), length-append q.items (item ∷ []))

  pub push_front-IsBounded :
      (item : PendingFrame) (q : PendingQueue)
      → IsBounded max_frames max_bytes q
      → IsBounded max_frames max_bytes (push_front_bounded item max_frames max_bytes q).0
  unfolding push_front_bounded total
  push_front-IsBounded item q v = ground arith

  pub pop-IsBounded :
      (q : PendingQueue)
      → IsBounded max_frames max_bytes q
      → IsBounded max_frames max_bytes (pop q).0
  unfolding pop total
  pop-IsBounded q v = ground arith

  pub take_out-IsBounded :
      (p : PendingFrame → Bool) (q : PendingQueue) (item : PendingFrame)
      (others : List PendingFrame)
      → IsBounded max_frames max_bytes q
      → take_first p q.items ≡ some (item, others)
      → IsBounded max_frames max_bytes
          (record { items = others; bytes = q.bytes - frame_size item })
  take_out-IsBounded p q item others v e =
      let (sum, count) = take_first-total p q.items item others e in
      record {
        counted = omega (arith, v.counted);
        few = omega (arith, v.few);
        small = omega (arith, v.small);
      }

  pub ping-IsBounded :
      (q : PendingQueue)
      → IsBounded max_frames max_bytes q
      → IsBounded max_frames max_bytes (pop_first_initialization_ping q).0
  unfolding pop_first_initialization_ping
  ping-IsBounded q v =
      elim (Option-cases (take_first (λ item. is_initialization_ping item.frame) q.items)) [
        | inl e ↦ rw e v
        | inr (r, e) ↦ rw e (take_out-IsBounded _ q r.0 r.1 v e)
      ]

  pub remove-IsBounded :
      (key : ScalarKey) (q : PendingQueue)
      → IsBounded max_frames max_bytes q
      → IsBounded max_frames max_bytes (remove_request key q).0
  unfolding remove_request
  remove-IsBounded key q v = elim (Option-cases (take_first (asks key) q.items)) [
    | inl e ↦ rw e v
    | inr (r, e) ↦ let out = take_out-IsBounded (asks key) q r.0 r.1 v e in rw e (ground arith)
  ]
