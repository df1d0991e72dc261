-- ===== src/Session/History.antt =====
-- muxcore/session/session_manager.go: sessions and the history of consumed tokens.
pub mod Binding
pub mod Leases
pub mod Snapshot
use mcp_mux.Base.{
  ℕ, ◌+◌, String, Bool, not, ◌&&◌, ◌||◌, Option, none, some, if◌then◌else◌, ◌==◌, same, List, [],
  ◌∷◌, string_key, nat_key,
}
use mcp_mux.Map.{Map, get, put, delete, retain, dropped, update_all}
use mcp_mux.Session.State.{
  Env, SessionRef, Heap, Context, BoundHistory, BoundHistorySnapshot, Manager, clone_env,
  is_session, older_than, bound_token_ttl, bound_is_live, bound_expired,
}
use mcp_mux.Session.Admission.{not_kept}

-- Inactive history expires from the disconnect, not from the original bind.
abbrev pub detach_entry : SessionRef → ℕ → BoundHistory → BoundHistory
detach_entry r now hist =
    if is_session r hist.session then record hist { session = none; last_used = now } else hist

abbrev pub detach : SessionRef → ℕ → Map String BoundHistory → Map String BoundHistory
detach r now bound = update_all (detach_entry r now) bound

-- Another session that had the ID loses its histories.
abbrev pub detach_previous :
    SessionRef → ℕ → Option Context → Map String BoundHistory → Map String BoundHistory
detach_previous r now none bound = bound
detach_previous r now (some previous) bound =
    if previous.session == r then bound else detach previous.session now bound

unfoldable pub register_session : SessionRef → String → ℕ → Heap → Manager → Manager
register_session r cwd now h m = record m {
  bound = detach_previous r now (get (h r).id m.sessions) m.bound;
  sessions = put (h r).id (record { session = r; cwd = cwd; env = none }) m.sessions;
}

abbrev pub detach_removed : ℕ → Option Context → Map String BoundHistory → Map String BoundHistory
detach_removed now none bound = bound
detach_removed now (some removed) bound = detach removed.session now bound

unfoldable pub remove_session : ℕ → ℕ → Manager → Manager
remove_session session_id now m = record m {
  sessions = delete session_id m.sessions;
  last_active = delete session_id m.last_active;
  bound = detach_removed now (get session_id m.sessions) m.bound;
  inflight = retain (λ id sid. not (sid == session_id)) m.inflight;
}

abbrev pub prune_bound : (String → BoundHistory → Bool) → Manager → Manager × ℕ
prune_bound stays m = (record m { bound = retain stays m.bound }, dropped stays m.bound)

unfoldable pub sweep_expired_bound : ℕ → Heap → Manager → Manager × ℕ
sweep_expired_bound now h m = prune_bound (λ token hist. not (bound_expired h m hist now)) m

unfoldable pub remove_bound_for_owner : String → Manager → Manager × ℕ
remove_bound_for_owner owner_key m =
    if same owner_key ""
    then (m, 0)
    else prune_bound (λ token hist. not (same hist.owner_key owner_key)) m

unfoldable pub remove_bound_for_owner_except_session :
    String → Option SessionRef → Manager → Manager × ℕ
remove_bound_for_owner_except_session owner_key keep m =
    if same owner_key ""
    then (m, 0)
    else prune_bound
        (λ token hist. not (same hist.owner_key owner_key && not_kept keep hist.session)) m

abbrev history_of : Heap → ℕ → Manager → Option BoundHistory → Option (String × String × Env)
history_of h now m none = none
history_of h now m (some hist) =
    if bound_expired h m hist now then none else some (hist.owner_key, hist.cwd, clone_env hist.env)

unfoldable pub lookup_history : String → ℕ → Heap → Manager → Option (String × String × Env)
lookup_history prev now h m = history_of h now m (get prev m.bound)

-- The entry is left out of a snapshot.
abbrev pub export_skips : Heap → ℕ → Manager → String → BoundHistory → Bool
export_skips h now m token hist =
    same token ""
    || same hist.owner_key ""
    || (not (bound_is_live h m hist) && older_than bound_token_ttl now hist.last_used)

-- A live token is exported as used now: the successor cannot see the session.
abbrev pub snapshot_of : Heap → ℕ → Manager → String → BoundHistory → BoundHistorySnapshot
snapshot_of h now m token hist = record {
  token = token;
  owner_key = hist.owner_key;
  cwd = hist.cwd;
  env = clone_env hist.env;
  bound_at = hist.bound_at;
  last_used = if bound_is_live h m hist then now else hist.last_used;
}

unfoldable pub export_entries :
    Heap → ℕ → Manager → Map String BoundHistory → List BoundHistorySnapshot
export_entries h now m [] = []
export_entries h now m ((token, hist) ∷ bound) =
    let rest = export_entries h now m bound in
    if export_skips h now m token hist then rest else snapshot_of h now m token hist ∷ rest

unfoldable pub export_bound_history : ℕ → Heap → Manager → List BoundHistorySnapshot
unfolding export_entries
export_bound_history now h m = export_entries h now m m.bound

-- Entries of old snapshots may lack a time.
abbrev pub last_used_of : BoundHistorySnapshot → ℕ
last_used_of entry = if entry.last_used == 0 then entry.bound_at else entry.last_used

abbrev pub import_skips : ℕ → BoundHistorySnapshot → Bool
import_skips now entry =
    same entry.token ""
    || same entry.owner_key ""
    || (last_used_of entry == 0 || older_than bound_token_ttl now (last_used_of entry))

abbrev pub history_from : BoundHistorySnapshot → BoundHistory
history_from entry = record {
  owner_key = entry.owner_key;
  cwd = entry.cwd;
  env = clone_env entry.env;
  bound_at = if entry.bound_at == 0 then last_used_of entry else entry.bound_at;
  last_used = last_used_of entry;
  session = none;
}

unfoldable pub import_entries :
    ℕ → List BoundHistorySnapshot → Map String BoundHistory → ℕ → Map String BoundHistory × ℕ
import_entries now [] bound imported = (bound, imported)
import_entries now (entry ∷ entries) bound imported =
    let skips = import_skips now entry in
    import_entries now entries (if skips then bound else put entry.token (history_from entry) bound)
      (if skips then imported else imported + 1)

unfoldable pub import_bound_history : ℕ → List BoundHistorySnapshot → Manager → Manager × ℕ
unfolding import_entries
import_bound_history now entries m =
    let (bound, imported) = import_entries now entries m.bound 0 in
    (record m { bound = bound }, imported)
