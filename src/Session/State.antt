-- ===== src/Session/State.antt =====
-- muxcore/session/session_manager.go: the manager's state, and what it asks of a history entry.
-- Times are nanoseconds of the clock `now`, 0 for Go's zero time; a session is the address of a
-- `Session`, and the heap gives the fields that the manager reads and writes.
use mcp_mux.Base.{
  ℕ, ◌-◌, String, Bool, false, not, ◌&&◌, Option, none, some, ltb, ◌==◌, [], nat_key,
}
use mcp_mux.Map.{Map, get}

abbrev pub Env : Type 0
Env = Option (Map String String)

abbrev pub SessionRef : Type 0
SessionRef = ℕ

-- The fields of `Session` that the manager reads and writes.
pub record Session : Type 0 where
  pub id : ℕ
  pub cwd : String
  pub env : Env

abbrev pub Heap : Type 0
Heap = SessionRef → Session

-- A context is made by `register_session` alone, so its session is never nil.
pub record Context : Type 0 where
  pub session : SessionRef
  pub cwd : String
  pub env : Env

pub record PendingSession : Type 0 where
  pub owner_key : String
  pub cwd : String
  pub env : Env
  pub created_at : ℕ
  pub source_session : Option SessionRef

pub record BoundHistory : Type 0 where
  pub owner_key : String
  pub cwd : String
  pub env : Env
  pub bound_at : ℕ
  pub last_used : ℕ
  pub session : Option SessionRef

pub record BoundHistorySnapshot : Type 0 where
  pub token : String
  pub owner_key : String
  pub cwd : String
  pub env : Env
  pub bound_at : ℕ
  pub last_used : ℕ

pub record Manager : Type 0 where
  pub sessions : Map ℕ Context
  pub inflight : Map String ℕ
  pub pending : Map String PendingSession
  pub bound : Map String BoundHistory
  pub last_active : Map ℕ ℕ

abbrev pub new_manager : Manager
new_manager = record { sessions = []; inflight = []; pending = []; bound = []; last_active = [] }

abbrev pub pending_token_ttl : ℕ
pending_token_ttl = 120_000_000_000

abbrev pub bound_token_ttl : ℕ
bound_token_ttl = 1_800_000_000_000

-- Maps are values here, so a copy of one is the same value.
abbrev pub clone_env : Env → Env
clone_env env = env

abbrev pub is_session : SessionRef → Option SessionRef → Bool
is_session r none = false
is_session r (some q) = r == q

-- The context found under the session's ID is a context of that very session.
abbrev context_of : SessionRef → Option Context → Bool
context_of r none = false
context_of r (some ctx) = ctx.session == r

abbrev live_session : Heap → Map ℕ Context → Option SessionRef → Bool
live_session h sessions none = false
live_session h sessions (some r) = context_of r (get (h r).id sessions)

unfoldable pub bound_is_live : Heap → Manager → BoundHistory → Bool
bound_is_live h m hist = live_session h m.sessions hist.session

-- `now.Sub(t) > ttl` at a positive `ttl`: a clock that ran backwards gives no age.
abbrev pub older_than : ℕ → ℕ → ℕ → Bool
older_than ttl now t = ltb ttl (now - t)

unfoldable pub bound_expired : Heap → Manager → BoundHistory → ℕ → Bool
unfolding bound_is_live
bound_expired h m hist now =
    not (bound_is_live h m hist) && older_than bound_token_ttl now hist.last_used
