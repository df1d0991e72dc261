-- ===== src/Session/Reconnect.antt =====
-- muxcore/session/session_manager.go: RegisterReconnect. It takes the lock twice, and asks
-- `ownerAlive` between: other methods run there, which the whole call takes as a function of the
-- state. Entropy is the caller's too: `none` is a failed `rand.Read`.
pub mod Rollback
pub mod Rebind
use mcp_mux.Base.{
  ◌≡◌, ◌⊎◌, inl, inr, refl, ℕ, String, Bool, Option, none, some, if◌then◌else◌, string_key,
}
use mcp_mux.Map.{get, put, delete}
use mcp_mux.Session.State.{
  Env, Heap, PendingSession, BoundHistory, Manager, clone_env, bound_expired,
}

pub data Error : Type 0 where
  unknown_token owner_gone no_entropy : Error

pub data Result {ℓ} (A : Type ℓ) : Type ℓ where
  ok : A → Result A
  err : Error → Result A

pub Result-cases {ℓ} :
    {A : Type ℓ} (x : Result A) → ((e : Error) × (x ≡ err e)) ⊎ ((a : A) × (x ≡ ok a))
Result-cases (ok a) = inr (a, refl)
Result-cases (err e) = inl (e, refl)

-- What the first critical section hands on to the second.
pub record Reservation : Type 0 where
  pub token : String
  pub owner_key : String
  pub cwd : String
  pub env : Env

reserve : String → ℕ → BoundHistory → Manager → Manager × Result Reservation
reserve token now hist m = (
  record m {
    pending =
        put token
          (record {
            owner_key = hist.owner_key;
            cwd = hist.cwd;
            env = clone_env (clone_env hist.env);
            created_at = now;
            source_session = hist.session;
          })
          m.pending;
  },
  ok (record {
    token = token;
    owner_key = hist.owner_key;
    cwd = hist.cwd;
    env = clone_env hist.env;
  }),
)

abbrev mint : Option String → ℕ → BoundHistory → Manager → Manager × Result Reservation
mint none now hist m = (m, err no_entropy)
mint (some token) now hist m = reserve token now hist m

-- An expired history is dropped when it is asked for.
abbrev begin_found :
    String → Option String → ℕ → Heap → Option BoundHistory → Manager → Manager × Result Reservation
begin_found prev fresh now h none m = (m, err unknown_token)
begin_found prev fresh now h (some hist) m =
    if bound_expired h m hist now
    then (record m { bound = delete prev m.bound }, err unknown_token)
    else mint fresh now hist m

unfoldable pub reconnect_begin :
    String → Option String → ℕ → Heap → Manager → Manager × Result Reservation
unfolding reserve
reconnect_begin prev fresh now h m = begin_found prev fresh now h (get prev m.bound) m

-- The owner is gone: the reservation is rolled back.
unfoldable pub reconnect_abort : Reservation → Manager → Manager × Result String
reconnect_abort res m = (record m { pending = delete res.token m.pending }, err owner_gone)

renew : String → Reservation → ℕ → BoundHistory → Manager → Manager × Result String
renew prev res now hist m = (
  record m {
    bound =
        put res.token
          (record {
            owner_key = res.owner_key;
            cwd = res.cwd;
            env = clone_env res.env;
            bound_at = now;
            last_used = now;
            session = hist.session;
          })
          (put prev (record hist { last_used = now }) m.bound);
  },
  ok res.token,
)

abbrev finish_found :
    String → Reservation → ℕ → Heap → Option BoundHistory → Manager → Manager × Result String
finish_found prev res now h none m =
    (record m { pending = delete res.token m.pending }, err unknown_token)
finish_found prev res now h (some hist) m =
    if bound_expired h m hist now
    then (
      record m { pending = delete res.token m.pending; bound = delete prev m.bound },
      err unknown_token,
    )
    else renew prev res now hist m

abbrev finish_reserved :
    String → Reservation → ℕ → Heap → Option PendingSession → Manager → Manager × Result String
finish_reserved prev res now h none m = (m, err unknown_token)
finish_reserved prev res now h (some ps) m = finish_found prev res now h (get prev m.bound) m

unfoldable pub reconnect_finish :
    String → Reservation → ℕ → Heap → Manager → Manager × Result String
unfolding renew
reconnect_finish prev res now h m = finish_reserved prev res now h (get res.token m.pending) m

-- What the rest of the world does between the two critical sections: it moves the clock, the heap
-- and the manager's state.
pub record Between : Type 0 where
  pub later : ℕ
  pub heap : Heap
  pub others : Manager → Manager

abbrev pub resume :
    String → (String → Bool) → Between → Manager × Result Reservation → Manager × Result String
resume prev owner_alive b (m, err e) = (m, err e)
resume prev owner_alive b (m, ok res) =
    if owner_alive res.owner_key
    then reconnect_finish prev res b.later b.heap (b.others m)
    else reconnect_abort res (b.others m)

unfoldable pub register_reconnect :
    String
    → (String → Bool)
    → Option String
    → Between
    → ℕ
    → Heap
    → Manager
    → Manager × Result String
register_reconnect prev owner_alive fresh b now h m =
    resume prev owner_alive b (reconnect_begin prev fresh now h m)
