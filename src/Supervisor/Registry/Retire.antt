-- ===== src/Supervisor/Registry/Retire.antt =====
-- muxcore/supervisor/correlation.go: the retirement of a generation. A range loop that deletes goes
-- through the entries that were there, in the order of the map.
use mcp_mux.Base.{
  ℕ, ◌+◌, String, Bool, not, ◌&&◌, Option, none, some, List, [], ◌∷◌, ◌++◌, string_key, nat_key,
  ltb, ◌==◌, if◌then◌else◌,
}
use mcp_mux.Map.{Map, put, delete, has, size}
use mcp_mux.Supervisor.Scalar.{
  ScalarKey, scalar_none, scalar_key, TombstoneKey, tombstone_request, tombstone_task,
  task_tombstone_key,
}
use mcp_mux.Supervisor.Records.{
  RequestRecord, TaskRecord, terminal_task_limit, retained_correlation_limit,
}
use mcp_mux.Supervisor.Registry.{
  terminal_limit, active_and_terminal, active_and_retired, terminal_and_retired, already_fenced,
  request_limit, task_limit, token_limit, Result, ok, err, ◌>>=◌, ◌>>◌, reject, DirectionRegistry,
  Outcome, and_then, is_fenced, fence_many,
}
use mcp_mux.Supervisor.Registry.Sort.{sort_lost}
use mcp_mux.Supervisor.Registry.Tasks.{with_token_entry}

unfoldable pub retire_request : RequestRecord → DirectionRegistry → DirectionRegistry
retire_request r g =
    let g' = record g {
      requests = delete r.id.key g.requests;
      retired_requests = put r.id.key r g.retired_requests;
    } in
    elim r.progress_token [
      | none ↦ g'
      | some token ↦ record g {
        requests = delete r.id.key g.requests;
        retired_requests = put r.id.key r g.retired_requests;
        tokens = delete token.key g.tokens;
        retired_tokens = put token.key tt g.retired_tokens;
      }
    ]

abbrev pub over_limit : ℕ → ℕ → Bool
over_limit limit n = ltb limit n

unfoldable pub check_limits : DirectionRegistry → Result (Unit {0})
check_limits g = do
  reject (over_limit retained_correlation_limit (size g.requests + size g.retired_requests))
      request_limit
  reject (over_limit retained_correlation_limit (size g.tokens + size g.retired_tokens)) token_limit
  reject
      (over_limit retained_correlation_limit
        (size g.tasks + size g.terminal_tasks + size g.retired_tasks))
      task_limit
  reject (over_limit terminal_task_limit (size g.terminal_tasks)) terminal_limit

unfoldable pub check_requests :
    ℕ → Map ScalarKey RequestRecord → DirectionRegistry → Result (Unit {0})
check_requests generation [] g = ok tt
check_requests generation ((key, r) ∷ m) g =
    reject (r.generation == generation && has r.id.key g.retired_requests) active_and_retired
    >> check_requests generation m g

abbrev request_entry : TaskRecord → List TombstoneKey
request_entry task = elim task.request_id.kind [
  | scalar_none ↦ []
  | _ ↦ record { role = tombstone_request; key = task.request_id } ∷ []
]

-- The fences for the tasks of the generation, or what speaks against retiring them.
unfoldable pub task_entries :
    ℕ → Map String TaskRecord → DirectionRegistry → Result (List TombstoneKey)
task_entries generation [] g = ok []
task_entries generation ((id, task) ∷ m) g =
    let rest = task_entries generation m g in
    if not (task.generation == generation)
    then rest
    else (reject (has id g.retired_tasks) active_and_retired
        >> (reject (has id g.terminal_tasks) active_and_terminal
            >> (rest >>= λ entries. ok (request_entry task ++ entries))))

unfoldable pub terminal_entries :
    ℕ → Map String TaskRecord → DirectionRegistry → Result (List TombstoneKey)
terminal_entries generation [] g = ok []
terminal_entries generation ((id, task) ∷ m) g =
    let rest = terminal_entries generation m g in
    if not (task.generation == generation)
    then rest
    else (reject (has id g.tasks) active_and_terminal
        >> (reject (has id g.retired_tasks) terminal_and_retired
            >> (reject (is_fenced tombstone_task (task_tombstone_key id) g) already_fenced
                >> (rest >>= λ entries. ok (
                    with_token_entry task.progress_token
                      (record { role = tombstone_task; key = task_tombstone_key id } ∷ [])
                    ++ entries)))))

-- All that is checked, and the keys to fence.
unfoldable pub retirement : ℕ → DirectionRegistry → Result (List TombstoneKey)
retirement generation g = do
  check_limits g
  check_requests generation g.requests g
  actives ← task_entries generation g.tasks g
  terminals ← terminal_entries generation g.terminal_tasks g
  ok (actives ++ terminals)

unfoldable pub retire_requests :
    ℕ
    → Map ScalarKey RequestRecord
    → DirectionRegistry
    → List RequestRecord
    → DirectionRegistry × List RequestRecord
retire_requests generation [] g lost = (g, lost)
retire_requests generation ((key, r) ∷ m) g lost =
    let ours = r.generation == generation in
    retire_requests generation m (if ours then retire_request r g else g)
      (if ours && not r.initialize then lost ++ r ∷ [] else lost)

abbrev retire_token : Option ScalarKey → DirectionRegistry → DirectionRegistry
retire_token none g = g
retire_token (some token) g = record g {
  tokens = delete token g.tokens;
  retired_tokens = put token tt g.retired_tokens;
}

unfoldable pub retire_task : String → TaskRecord → DirectionRegistry → DirectionRegistry
retire_task id task g =
    retire_token task.progress_token
      (record g { tasks = delete id g.tasks; retired_tasks = put id task g.retired_tasks })

unfoldable pub retire_tasks : ℕ → Map String TaskRecord → DirectionRegistry → DirectionRegistry
retire_tasks generation [] g = g
retire_tasks generation ((id, task) ∷ m) g =
    retire_tasks generation m (if task.generation == generation then retire_task id task g else g)

unfoldable pub retire_terminals : ℕ → Map String TaskRecord → DirectionRegistry → DirectionRegistry
retire_terminals generation [] g = g
retire_terminals generation ((id, task) ∷ m) g = retire_terminals generation m (
    if task.generation == generation
    then record g {
      finalized_task_statuses = put id task.status g.finalized_task_statuses;
      terminal_tasks = delete id g.terminal_tasks;
    }
    else g)

abbrev pub retire_all : ℕ → DirectionRegistry → DirectionRegistry × List RequestRecord
retire_all generation g =
    let (g', lost) = retire_requests generation g.requests g [] in
    let g'' = retire_tasks generation g'.tasks g' in
    (retire_terminals generation g''.terminal_tasks g'', lost)

abbrev retire_with :
    ℕ → DirectionRegistry → Result (List TombstoneKey) → Outcome (List RequestRecord)
retire_with generation g (err e) = (g, err e)
retire_with generation g (ok entries) =
    and_then (fence_many entries g)
      λ _ g'. let (g'', lost) = retire_all generation g' in (g'', ok (sort_lost lost))

unfoldable pub retire_generation_checked : ℕ → DirectionRegistry → Outcome (List RequestRecord)
retire_generation_checked generation g = retire_with generation g (retirement generation g)

-- Shutdown ignores the error: Go's nil list is then empty.
abbrev lost_of : Result (List RequestRecord) → List RequestRecord
lost_of (ok lost) = lost
lost_of (err e) = []

unfoldable pub retire_generation : ℕ → DirectionRegistry → DirectionRegistry × List RequestRecord
retire_generation generation g =
    let (g', r) = retire_generation_checked generation g in (g', lost_of r)
