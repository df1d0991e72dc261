-- ===== src/Session/Admission.antt =====
-- muxcore/session/session_manager.go: reservation of tokens, their consumption by Bind, and the
-- removal of reservations. The methods that take the lock once are one step each.
pub mod Tokens
use mcp_mux.Base.{
  ℕ, String, Bool, true, false, not, ◌&&◌, ◌||◌, Option, none, some, if◌then◌else◌, ◌==◌, same,
  string_key, nat_key,
}
use mcp_mux.Map.{Map, get, put, delete, retain, dropped, has, size}
use mcp_mux.Session.State.{
  Env, SessionRef, Session, Heap, Context, PendingSession, Manager, clone_env, is_session,
  older_than, pending_token_ttl,
}

unfoldable pub pre_register_for_owner : String → String → String → Env → ℕ → Manager → Manager
pre_register_for_owner token owner_key cwd env now m = record m {
  pending =
      put token
        (record {
          owner_key = owner_key;
          cwd = cwd;
          env = clone_env env;
          created_at = now;
          source_session = none;
        })
        m.pending;
}

unfoldable pub pre_register : String → String → Env → ℕ → Manager → Manager
unfolding pre_register_for_owner
pre_register token cwd env now m = pre_register_for_owner token "" cwd env now m

-- The loops that delete reservations: the entries that stay, and how many went.
abbrev pub prune_pending : (String → PendingSession → Bool) → Manager → Manager × ℕ
prune_pending stays m = (record m { pending = retain stays m.pending }, dropped stays m.pending)

abbrev pub stays_except : String → String → String → PendingSession → Bool
stays_except owner_key keep_token token ps =
    not (same ps.owner_key owner_key && not (same token keep_token))

unfoldable pub remove_pending_for_owner_except : String → String → Manager → Manager × ℕ
remove_pending_for_owner_except owner_key keep_token m =
    if same owner_key "" then (m, 0) else prune_pending (stays_except owner_key keep_token) m

unfoldable pub remove_pending_for_owner : String → Manager → Manager × ℕ
unfolding remove_pending_for_owner_except
remove_pending_for_owner owner_key m = remove_pending_for_owner_except owner_key "" m

-- `keep == nil || other != keep`
abbrev pub not_kept : Option SessionRef → Option SessionRef → Bool
not_kept none other = true
not_kept (some keep) other = not (is_session keep other)

unfoldable pub remove_pending_for_owner_except_session :
    String → Option SessionRef → Manager → Manager × ℕ
remove_pending_for_owner_except_session owner_key keep m =
    if same owner_key ""
    then (m, 0)
    else prune_pending
        (λ token ps. not (same ps.owner_key owner_key && not_kept keep ps.source_session)) m

abbrev revoke : String → String → Option PendingSession → Manager → Manager × Bool
revoke owner_key token none m = (m, false)
revoke owner_key token (some ps) m =
    if same ps.owner_key owner_key
    then (record m { pending = delete token m.pending }, true)
    else (m, false)

unfoldable pub remove_pending_for_owner_token : String → String → Manager → Manager × Bool
remove_pending_for_owner_token owner_key token m =
    if same owner_key "" || same token ""
    then (m, false)
    else revoke owner_key token (get token m.pending) m

unfoldable pub is_pre_registered : String → Manager → Bool
is_pre_registered token m = has token m.pending

-- The reservation may be used by this owner: legacy reservations name none.
abbrev pub admits : String → PendingSession → Bool
admits owner_key ps = same ps.owner_key "" || same ps.owner_key owner_key

abbrev pub context_for : String → Option PendingSession → Option (String × Env)
context_for owner_key none = none
context_for owner_key (some ps) =
    if admits owner_key ps then some (ps.cwd, clone_env ps.env) else none

unfoldable pub lookup_pending_for_owner : String → String → Manager → Option (String × Env)
lookup_pending_for_owner token owner_key m = context_for owner_key (get token m.pending)

unfoldable pub sweep_expired_pending : ℕ → Manager → Manager × ℕ
sweep_expired_pending now m =
    prune_pending (λ token ps. not (older_than pending_token_ttl now ps.created_at)) m

unfoldable pub pending_count : Manager → ℕ
pending_count m = size m.pending

abbrev write : SessionRef → Session → Heap → Heap
write r s h q = if q == r then s else h q

abbrev rebind : Option Context → ℕ → String → Env → Map ℕ Context → Map ℕ Context
rebind none id cwd env sessions = sessions
rebind (some ctx) id cwd env sessions = put id (record ctx { cwd = cwd; env = env }) sessions

-- The history of a legacy reservation names the owner that consumed it.
abbrev pub history_owner : String → PendingSession → String
history_owner owner_key ps = if same ps.owner_key "" then owner_key else ps.owner_key

consume : String → String → SessionRef → ℕ → Heap → PendingSession → Manager → Heap × Manager × Bool
consume token owner_key r now h ps m =
    let env = clone_env ps.env in
    (
      write r (record (h r) { cwd = ps.cwd; env = clone_env env }) h,
      record m {
        pending = delete token m.pending;
        bound =
            put token
              (record {
                owner_key = history_owner owner_key ps;
                cwd = ps.cwd;
                env = env;
                bound_at = now;
                last_used = now;
                session = some r;
              })
              m.bound;
        sessions = rebind (get (h r).id m.sessions) (h r).id ps.cwd (clone_env env) m.sessions;
      },
      true,
    )

bind_found :
    String
    → String
    → SessionRef
    → ℕ
    → Heap
    → Option PendingSession
    → Manager
    → Heap × Manager × Bool
unfolding consume
bind_found token owner_key r now h none m = (h, m, false)
bind_found token owner_key r now h (some ps) m =
    if admits owner_key ps then consume token owner_key r now h ps m else (h, m, false)

unfoldable pub bind : String → String → SessionRef → ℕ → Heap → Manager → Heap × Manager × Bool
unfolding bind_found
bind token owner_key r now h m = bind_found token owner_key r now h (get token m.pending) m
