-- ===== src/Session/Reconnect/Rollback.antt =====
-- RegisterReconnect across its two critical sections, whatever runs between them.
use mcp_mux.Base.{
  Option-cases, inl, inr, ℕ, ◌≡◌, String, Bool, true, false, Option, none, some, arith, string_key,
}
use mcp_mux.Map.{get, put}
use mcp_mux.Map.Laws.{get-delete, get-put}
use mcp_mux.Session.State.{Heap, BoundHistory, Manager, bound_expired}
use mcp_mux.Session.Admission.{is_pre_registered}
use mcp_mux.Session.Reconnect.{
  Error, Result, ok, err, Reservation, Between, reconnect_begin, reconnect_finish, reconnect_abort,
  Result-cases, register_reconnect,
}

begin_ok :
    (prev : String) (fresh : Option String) (now : ℕ) (h : Heap) (m : Manager) (res : Reservation)
    → (reconnect_begin prev fresh now h m).1 ≡ ok res
    → (hist : BoundHistory) × (get prev m.bound ≡ some hist)
      × (bound_expired h m hist now ≡ false)
      × (fresh ≡ some res.token)
      × (res.owner_key ≡ hist.owner_key)
      × (res.cwd ≡ hist.cwd)
      × (res.env ≡ hist.env)
unfolding reconnect_begin
begin_ok prev fresh now h m res e = elim (Option-cases (get prev m.bound)) [
  | inl p ↦ ground arith
  | inr (hist, p) ↦ (hist, p, ground arith, ground arith, ground arith, ground arith, ground arith)
]

begin_err :
    (prev : String) (fresh : Option String) (now : ℕ) (h : Heap) (m : Manager) (error : Error)
    → (reconnect_begin prev fresh now h m).1 ≡ err error
    → (reconnect_begin prev fresh now h m).0.pending ≡ m.pending
unfolding reconnect_begin
begin_err prev fresh now h m error e = ground arith

finish_ok :
    (prev : String) (res : Reservation) (now : ℕ) (h : Heap) (m : Manager) (token : String)
    → (reconnect_finish prev res now h m).1 ≡ ok token
    → (hist : BoundHistory) × (get prev m.bound ≡ some hist)
      × (token ≡ res.token)
      × (is_pre_registered token (reconnect_finish prev res now h m).0 ≡ true)
      × (get token (reconnect_finish prev res now h m).0.bound
          ≡ some (record {
            owner_key = res.owner_key;
            cwd = res.cwd;
            env = res.env;
            bound_at = now;
            last_used = now;
            session = hist.session;
          }))
unfolding reconnect_finish is_pre_registered
finish_ok prev res now h m token e = elim (Option-cases (get prev m.bound)) [
  | inl p ↦ ground arith
  | inr (hist, p) ↦ (
    hist,
    p,
    ground arith,
    ground arith,
    ground (
      arith,
      get-put res.token token (renewed hist) (put prev (record hist { last_used = now }) m.bound),
    ),
  )
]
  where
    renewed : BoundHistory → BoundHistory
    renewed hist = record {
      owner_key = res.owner_key;
      cwd = res.cwd;
      env = res.env;
      bound_at = now;
      last_used = now;
      session = hist.session;
    }

finish_err :
    (prev : String) (res : Reservation) (now : ℕ) (h : Heap) (m : Manager) (error : Error)
    → (reconnect_finish prev res now h m).1 ≡ err error
    → get res.token (reconnect_finish prev res now h m).0.pending ≡ none
unfolding reconnect_finish
finish_err prev res now h m error e = ground (arith, get-delete res.token res.token m.pending)

module _ (prev : String) (owner_alive : String → Bool) (fresh : Option String) (b : Between)
    (now : ℕ) (h : Heap) (m : Manager) where
  abbrev outcome : Manager × Result String
  outcome = register_reconnect prev owner_alive fresh b now h m

  -- A reconnect that succeeds names an unexpired history whose owner was found alive; the fresh
  -- token is still reserved at the end, and its own history carries the owner, directory and
  -- environment of the old one and the session that the old one has by then.
  pub register_reconnect_ok :
      (token : String)
      → outcome.1 ≡ ok token
      → (hist hist' : BoundHistory) × (fresh ≡ some token)
        × (get prev m.bound ≡ some hist)
        × (bound_expired h m hist now ≡ false)
        × (owner_alive hist.owner_key ≡ true)
        × (is_pre_registered token outcome.0 ≡ true)
        × (get token outcome.0.bound
            ≡ some (record {
              owner_key = hist.owner_key;
              cwd = hist.cwd;
              env = hist.env;
              bound_at = b.later;
              last_used = b.later;
              session = hist'.session;
            }))
        × (get prev (b.others (reconnect_begin prev fresh now h m).0).bound ≡ some hist')
  unfolding register_reconnect reconnect_abort
  register_reconnect_ok token e = elim (Result-cases (reconnect_begin prev fresh now h m).1) [
    | inl (error, q) ↦ ground arith
    | inr (res, q) ↦
        let (hist, found, unexpired, minted, owner, cwd, env) = begin_ok prev fresh now h m res q in
        let alive : owner_alive res.owner_key ≡ true = ground arith in
        let fin : (reconnect_finish prev res b.later b.heap
              (b.others (reconnect_begin prev fresh now h m).0)).1
            ≡ ok token =
          ground arith in
        let (hist', found', same_token, reserved, history) =
          finish_ok prev res b.later b.heap (b.others (reconnect_begin prev fresh now h m).0) token
            fin in
        (
          hist,
          hist',
          ground arith,
          found,
          unexpired,
          ground arith,
          ground arith,
          ground arith,
          found',
        )
  ]

  -- A reconnect that fails leaves no reservation under the token that it minted, if there was none
  -- before and whatever ran meanwhile.
  pub register_reconnect_rollback :
      (token : String) (error : Error)
      → fresh ≡ some token
      → get token m.pending ≡ none
      → outcome.1 ≡ err error
      → get token outcome.0.pending ≡ none
  unfolding register_reconnect reconnect_abort
  register_reconnect_rollback token error f p e =
      elim (Result-cases (reconnect_begin prev fresh now h m).1) [
        | inl (error', q) ↦ ground (arith, begin_err prev fresh now h m error')
        | inr (res, q) ↦ ground (
          arith,
          begin_ok prev fresh now h m res q,
          get-delete token token (b.others (reconnect_begin prev fresh now h m).0).pending,
          finish_err prev res b.later b.heap (b.others (reconnect_begin prev fresh now h m).0)
              error,
        )
      ]
