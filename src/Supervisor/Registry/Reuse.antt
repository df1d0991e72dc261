-- ===== src/Supervisor/Registry/Reuse.antt =====
-- IDs and keys are not used twice: what ends a request fences it off, and fences stay.
use mcp_mux.Base.{
  ℕ, String, ◌≡◌, ◌≢◌, inl, inr, true, false, not, Option, none, some, List, [], ◌∷◌, arith,
  string_key, nat_key, Option-cases, is_some,
}
use mcp_mux.Map.{get}
use mcp_mux.Supervisor.Scalar.{
  ScalarKey, ScalarValue, scalar_key, TombstoneRole, TombstoneKey, tombstone_key, tombstone_request,
  tombstone_token, tombstone_task,
}
use mcp_mux.Supervisor.Tombstones.{tombstone}
use mcp_mux.Supervisor.Tombstones
use mcp_mux.Supervisor.Tombstones.Ring.{IsRing}
use mcp_mux.Supervisor.Fences.{limit_reached, PersistentFence}
use mcp_mux.Supervisor.Fences
use mcp_mux.Supervisor.Records.{Json, ParsedFrame, RequestRecord, TaskMeta, TaskRecord}
use mcp_mux.Supervisor.Registry.{
  Error, ok, err, DirectionRegistry, Outcome-cases, is_fenced, fence_many, fence_one,
}
use mcp_mux.Map.Laws.{get-put}
use mcp_mux.Supervisor.Registry.Fencing.{
  fence_many_atomic, is_fenced-fence_many, is_fenced-fence_request,
}
use mcp_mux.Supervisor.Registry.Register.{can_register}
use mcp_mux.Supervisor.Scalar.{task_tombstone_key}
use mcp_mux.Supervisor.Registry.Tasks.{
  end_task, finalize_known, with_token_entry, Operation, not_operation, operation, broken,
  task_operation_response, update_task, finalize_task,
}
use mcp_mux.Supervisor.Registry.Complete.{
  fence_request, request_entries, apply_meta, complete_as, created_task, finish, remove_token,
  complete, cancel,
}

add-keeps :
    (role role' : TombstoneRole) (key key' : ScalarKey) (f : PersistentFence)
    → Fences.contains role key f ≡ true
    → Fences.contains role key (Fences.add role' key' f).0 ≡ true
unfolding Fences.contains Fences.add
add-keeps role role' key key' f fenced = ground (arith, get-put key' key tt (Fences.values role' f))

fence_one-keeps :
    (role role' : TombstoneRole) (key key' : ScalarKey) (g : DirectionRegistry)
    → is_fenced role key g ≡ true
    → is_fenced role key (fence_one role' key' g).0 ≡ true
unfolding fence_one
fence_one-keeps role role' key key' g fenced =
    ground (arith, add-keeps role role' key key' g.persistent_fences)

fence_many-keeps :
    (role : TombstoneRole) (key : ScalarKey) (es : List TombstoneKey) (g : DirectionRegistry)
    → is_fenced role key g ≡ true
    → is_fenced role key (fence_many es g).0 ≡ true
fence_many-keeps role key es g fenced = elim (Outcome-cases (fence_many es g)) [
  | inl (e, p) ↦ ground (arith, fence_many_atomic es g e p)
  | inr (_, p) ↦ ground (arith, is_fenced-fence_many es g role key p)
]

end_task-keeps :
    (role : TombstoneRole) (key : ScalarKey) (meta : TaskMeta) (task : TaskRecord)
    (g : DirectionRegistry)
    → is_fenced role key g ≡ true
    → is_fenced role key (end_task meta task g).0 ≡ true
end_task-keeps role key meta task g fenced = elim (Option-cases task.progress_token) [
  | inl e ↦ ground arith
  | inr (token, e) ↦ ground (arith, fence_one-keeps role tombstone_token key token g fenced)
]

update_task-keeps :
    (role : TombstoneRole) (key : ScalarKey) (meta : TaskMeta) (generation : ℕ)
    (g : DirectionRegistry)
    → is_fenced role key g ≡ true
    → is_fenced role key (update_task meta generation g).0 ≡ true
unfolding update_task
update_task-keeps role key meta generation g fenced = elim (Option-cases (get meta.id g.tasks)) [
  | inl e ↦ ground arith
  | inr (task, e) ↦ ground (arith, end_task-keeps role key meta task g fenced)
]

finalize_known-keeps :
    (role : TombstoneRole) (key : ScalarKey) (id : String) (generation : ℕ) (task : TaskRecord)
    (ended : Option TaskRecord) (g : DirectionRegistry)
    → is_fenced role key g ≡ true
    → is_fenced role key (finalize_known id generation task ended g).0 ≡ true
finalize_known-keeps role key id generation task ended g fenced = ground (
  arith,
  fence_many-keeps role key
      (with_token_entry task.progress_token
        (record { role = tombstone_task; key = task_tombstone_key id } ∷ []))
      g fenced,
)

finalize_task-keeps :
    (role : TombstoneRole) (key : ScalarKey) (id : String) (generation : ℕ) (g : DirectionRegistry)
    → is_fenced role key g ≡ true
    → is_fenced role key (finalize_task id generation g).0 ≡ true
unfolding finalize_task
finalize_task-keeps role key id generation g fenced = elim (Option-cases (get id g.tasks)) [
  | inr (task, e) ↦ ground (arith, finalize_known-keeps role key id generation task none g fenced)
  | inl e ↦ elim (Option-cases (get id g.terminal_tasks)) [
    | inl e' ↦ ground arith
    | inr (task, e') ↦
        ground (arith, finalize_known-keeps role key id generation task (some task) g fenced)
  ]
]

-- An ID that is fenced off is not admitted.
can_register-fenced :
    (frame : ParsedFrame) (id : ScalarValue) (g : DirectionRegistry)
    → frame.id ≡ some id
    → is_fenced tombstone_request id.key g ≡ true
    → can_register frame g ≢ ok tt
unfolding can_register
can_register-fenced frame id g e fenced = ground arith

is_fenced-finish :
    (r : RequestRecord) (made : Option TaskMeta) (g : DirectionRegistry) (role : TombstoneRole)
    (key : ScalarKey)
    → is_fenced role key (finish r made g) ≡ is_fenced role key g
unfolding remove_token
is_fenced-finish r made g role key = ground arith

is_fenced-cancel :
    (r : RequestRecord) (g : DirectionRegistry)
    → IsRing g.tombstones
    → Tombstones.contains tombstone_request r.id.key g.tombstones ≡ false
    → (cancel r g).1 ≡ ok tt
    → is_fenced tombstone_request r.id.key (cancel r g).0 ≡ true
unfolding cancel
is_fenced-cancel r g v new success = ground (
  arith,
  is_fenced-fence_request r true g v new,
  is_fenced-finish r none (fence_request r true g).0 tombstone_request r.id.key,
)

-- Once a request is cancelled its ID is not admitted again: if the tombstones were a ring without
-- the ID, no frame that carries the ID passes the admission check of the state that is left.
pub can_register-cancel :
    (r : RequestRecord) (g : DirectionRegistry) (frame : ParsedFrame) (id : ScalarValue)
    → IsRing g.tombstones
    → Tombstones.contains tombstone_request r.id.key g.tombstones ≡ false
    → (cancel r g).1 ≡ ok tt
    → frame.id ≡ some id
    → id.key ≡ r.id.key
    → can_register frame (cancel r g).0 ≢ ok tt
can_register-cancel r g frame id v new success e same_id =
    can_register-fenced frame id (cancel r g).0 e
      (ground (arith, is_fenced-cancel r g v new success))

-- A cancellation that fails leaves the registry as it was.
pub cancel_atomic :
    (r : RequestRecord) (g : DirectionRegistry) (e : Error)
    → (cancel r g).1 ≡ err e
    → (cancel r g).0 ≡ g
unfolding cancel fence_request
cancel_atomic r g e failed = ground (arith, fence_many_atomic (request_entries r true) g e)

apply_meta-keeps :
    (r : RequestRecord) (meta : Option TaskMeta) (g : DirectionRegistry) (role : TombstoneRole)
    (key : ScalarKey)
    → is_fenced role key g ≡ true
    → is_fenced role key (apply_meta r meta g).0 ≡ true
apply_meta-keeps r none g role key fenced = fenced
apply_meta-keeps r (some meta) g role key fenced = ground (
  arith,
  finalize_task-keeps role key r.task_id r.generation g fenced,
  update_task-keeps role key meta r.generation g fenced,
)

complete_as-fences :
    (o : Operation) (r : RequestRecord) (response : ParsedFrame) (g : DirectionRegistry)
    → IsRing g.tombstones
    → Tombstones.contains tombstone_request r.id.key g.tombstones ≡ false
    → (complete_as o r response g).1 ≡ ok tt
    → is_fenced tombstone_request r.id.key (complete_as o r response g).0 ≡ true
complete_as-fences (broken e) r response g v new success = ground arith
complete_as-fences (operation meta) r response g v new success = ground (
  arith,
  is_fenced-fence_request r true g v new,
  apply_meta-keeps r meta (fence_request r true g).0 tombstone_request r.id.key,
  is_fenced-finish r none (apply_meta r meta (fence_request r true g).0).0 tombstone_request
      r.id.key,
)
complete_as-fences not_operation r response g v new success =
    let kept = not (is_some (created_task r response)) in
    ground (
      arith,
      is_fenced-fence_request r kept g v new,
      is_fenced-finish r (created_task r response) (fence_request r kept g).0 tombstone_request
          r.id.key,
    )

is_fenced-complete :
    (json : Json) (r : RequestRecord) (response : ParsedFrame) (g : DirectionRegistry)
    → IsRing g.tombstones
    → Tombstones.contains tombstone_request r.id.key g.tombstones ≡ false
    → (complete json r response g).1 ≡ ok tt
    → is_fenced tombstone_request r.id.key (complete json r response g).0 ≡ true
unfolding complete
is_fenced-complete json r response g =
    complete_as-fences (task_operation_response json r response) r response g

-- Once a response has completed a request, be it plain, on a task or one that makes a task, its ID
-- is not admitted again: if the tombstones were a ring without the ID, no frame that carries the ID
-- passes the admission check of the state that is left.
pub can_register-complete :
    (json : Json) (r : RequestRecord) (response : ParsedFrame) (g : DirectionRegistry)
    (frame : ParsedFrame) (id : ScalarValue)
    → IsRing g.tombstones
    → Tombstones.contains tombstone_request r.id.key g.tombstones ≡ false
    → (complete json r response g).1 ≡ ok tt
    → frame.id ≡ some id
    → id.key ≡ r.id.key
    → can_register frame (complete json r response g).0 ≢ ok tt
can_register-complete json r response g frame id v new success e same_id =
    can_register-fenced frame id (complete json r response g).0 e
      (ground (arith, is_fenced-complete json r response g v new success))
