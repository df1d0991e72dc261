-- ===== src/Supervisor/Registry/Once.antt =====
-- A response to a retired request is consumed once.
use mcp_mux.Base.{
  String, ◌≡◌, inl, inr, Bool, true, false, Option, none, some, [], ◌∷◌, arith, same, string_key,
  nat_key, if◌then◌else◌, Option-cases,
}
use mcp_mux.Map.{get}
use mcp_mux.Map.Laws.{get-delete}
use mcp_mux.Supervisor.Scalar.{
  tombstone_request, tombstone_task, task_tombstone_key, ScalarValue, scalar_key,
}
use mcp_mux.Supervisor.Records.{Json, ParsedFrame, RequestRecord, TaskRecord, TaskMeta}
use mcp_mux.Supervisor.Registry.{
  ok, err, DirectionRegistry, fence_many, fence_one, Outcome, Outcome-cases, Result,
}
use mcp_mux.Supervisor.Registry.Complete.{fence_request}
use mcp_mux.Supervisor.Registry.Tasks.{
  Operation, task_operation_response, record_finalized, with_token_entry, not_operation, operation,
  broken,
}
use mcp_mux.Supervisor.Registry.Retired.{
  token_key, consume_retired_response, release_retired_request, retired, drop_retired_request,
  release_retired_task_operation, consumed, answer_open, answer_fenced, adopt,
  retired_task_for_operation, keep_finalized, answer_operation, answer_as, RetiredTask,
  terminal_fenced,
}

drop-gone :
    (r : RequestRecord) (g : DirectionRegistry)
    → get r.id.key (drop_retired_request r g).retired_requests ≡ none
drop-gone r g = elim (Option-cases r.progress_token) [
  | inl p ↦ ground (arith, get-delete r.id.key r.id.key g.retired_requests)
  | inr (token, p) ↦ ground (arith, get-delete r.id.key r.id.key g.retired_requests)
]

module _ (r : RequestRecord) where
  -- Where the outcome is a success, nothing is retired under the request's ID.
  abbrev IsGone : Outcome Bool → Type 0
  IsGone o = (b : Bool) → o.1 ≡ ok b → get r.id.key o.0.retired_requests ≡ none

  release-IsGone : (g : DirectionRegistry) → IsGone (consumed (release_retired_request r g))
  unfolding release_retired_request
  release-IsGone g b success = elim (Outcome-cases (fence_request r true g)) [
    | inl (e, p) ↦ ground arith
    | inr (u, p) ↦ ground (arith, drop-gone r (fence_request r true g).0)
  ]

  open-IsGone :
      (task : TaskRecord) (meta : TaskMeta) (g : DirectionRegistry)
      → IsGone (answer_open r (retired task) meta g)
  unfolding release_retired_request
  open-IsGone task meta g b success = elim (Outcome-cases (fence_request r true g)) [
    | inl (e, p) ↦ ground arith
    | inr (u, p) ↦ ground (arith, drop-gone r (fence_request r true g).0)
  ]

  operation-IsGone :
      (task : TaskRecord) (status : String) (g : DirectionRegistry)
      → IsGone (consumed (release_retired_task_operation r task status g))
  unfolding release_retired_task_operation
  operation-IsGone task status g b success =
      let es = with_token_entry task.progress_token (
        with_token_entry (token_key r.progress_token) (
          record { role = tombstone_request; key = r.id.key }
          ∷ record { role = tombstone_task; key = task_tombstone_key task.id }
          ∷ [])) in
      let fenced = (fence_many es g).0 in
      elim (Outcome-cases (fence_many es g)) [
        | inl (e, p) ↦ ground arith
        | inr (u, p) ↦ elim (Option-cases task.progress_token) [
          | inl q ↦ ground (arith, drop-gone r (keep_finalized task.id status fenced))
          | inr (token, q) ↦ ground (arith, drop-gone r (keep_finalized task.id status fenced))
        ]
      ]

  adopt-IsGone : (meta : TaskMeta) (g : DirectionRegistry) → IsGone (adopt r meta g)
  adopt-IsGone meta g b success = elim (Outcome-cases (fence_one tombstone_request r.id.key g)) [
    | inl (e, p) ↦ ground arith
    | inr (u, p) ↦ ground (
      arith,
      get-delete r.id.key r.id.key (fence_one tombstone_request r.id.key g).0.retired_requests,
    )
  ]

  fenced-IsGone : (meta : TaskMeta) (g : DirectionRegistry) → IsGone (answer_fenced r meta g)
  fenced-IsGone meta g b success =
      ground
        (arith, release-IsGone g b, release-IsGone (record_finalized r.task_id meta.status g) b)

  answer_operation-IsGone :
      (meta : Option TaskMeta) (found : Result RetiredTask) (g : DirectionRegistry)
      → IsGone (answer_operation r meta found g)
  answer_operation-IsGone meta (err e) g b success = ground arith
  answer_operation-IsGone none (ok task) g b success = release-IsGone g b success
  answer_operation-IsGone (some meta) (ok (retired task)) g b success = ground (
    arith,
    open-IsGone task meta g b,
    operation-IsGone task (if same r.method "tasks/result" then "" else meta.status) g b,
  )
  answer_operation-IsGone (some meta) (ok terminal_fenced) g b success =
      ground (arith, fenced-IsGone meta g b)

  answer_as-IsGone :
      (o : Operation) (response : ParsedFrame) (g : DirectionRegistry)
      → IsGone (answer_as o r response g)
  answer_as-IsGone (broken e) response g b success = ground arith
  answer_as-IsGone (operation meta) response g b success =
      answer_operation-IsGone meta (retired_task_for_operation r g) g b success
  answer_as-IsGone not_operation response g b success = elim (Option-cases response.task_result) [
    | inl p ↦ ground (arith, release-IsGone g b)
    | inr (meta, p) ↦ ground (arith, release-IsGone g b, adopt-IsGone meta g b)
  ]

-- A response to a retired request is consumed once: where a response to a request that is retired
-- under its own ID was consumed without an error, no response with that ID is consumed from the
-- registry that is left, and the attempt changes nothing.
pub consume_retired_response_once :
    (json json' : Json) (response response' : ParsedFrame) (g : DirectionRegistry)
    (id id' : ScalarValue) (r : RequestRecord) (b : Bool)
    → response.id ≡ some id
    → get id.key g.retired_requests ≡ some r
    → r.id.key ≡ id.key
    → (consume_retired_response json response g).1 ≡ ok b
    → response'.id ≡ some id'
    → id'.key ≡ id.key
    → consume_retired_response json' response' (consume_retired_response json response g).0
      ≡ ((consume_retired_response json response g).0, ok false)
unfolding consume_retired_response
consume_retired_response_once json json' response response' g id id' r b e found keyed success e'
      same_id =
    let gone = answer_as-IsGone r (task_operation_response json r response) response g b in
    ground (arith, gone)
