-- ===== src/Supervisor/Runner/Flush/Settles.antt =====
-- A frame that is handed on does not come back to the queue, unless the runner halts.
use mcp_mux.Base.{
  ◌≤◌, String, ◌≡◌, refl, ap, ◌⊎◌, inl, inr, Bool, true, false, not, ◌&&◌, Option, none, some,
  arith, string_key, nat_key, if◌then◌else◌, Bool-cases, Option-cases, is_some,
}
use mcp_mux.Supervisor.Scalar.{scalar_key, ScalarValue}
use mcp_mux.Supervisor.Records.{ParsedFrame}
use mcp_mux.Supervisor.Queue.{len, PendingFrame, is_request}
use mcp_mux.Supervisor.Registry.{Result, Error, ok, err}
use mcp_mux.Supervisor.Runner.{
  Runner, Code, Complaint, text, Message, forward, WriteOutcome, Generation, Environment,
}
use mcp_mux.Supervisor.Runner.Lifecycle.{
  Flow, go_on, fully_written, tell_host, write_child, replace_current, or_replace, tell_child,
}
use mcp_mux.Supervisor.Runner.Validate.{Rejection, settle_host, validate_host_request}
use mcp_mux.Supervisor.Runner.Delivery.{
  reject_host_request, unless_rejected, register_sent, was_not_written, deliver_valid, can_deliver,
  deliver_host_first, reject_request,
}
use mcp_mux.Supervisor.Runner.Halted.{is_halted, replace_current-halts}
use mcp_mux.Supervisor.Runner.Sound.{Follows}
use mcp_mux.Supervisor.Runner.Sound.Core.{Keeps, tell_host-Keeps}
use mcp_mux.Supervisor.Runner.Sound.Lifecycle.{tell_host-Follows}
use mcp_mux.Supervisor.Runner.Sound.Replace.{write_child-Keeps, write_child-Follows}

pub record Settles (r r' : Runner) : Type 0 where
  pub halts : is_halted r ≡ true → is_halted r' ≡ true
  pub shrinks : (is_halted r' ≡ true) ⊎ (len r'.pending ≤ len r.pending)

-- Nothing that counts here has changed.
pub same_view :
    {r r' : Runner}
    → r'.terminal ≡ r.terminal
    → r'.current ≡ r.current
    → r'.state ≡ r.state
    → len r'.pending ≤ len r.pending
    → Settles r r'
same_view ended current state fewer = record { halts = λ h. ground arith; shrinks = inr fewer }

pub rest : (r : Runner) → Settles r r
rest r = same_view refl refl refl (omega arith)

pub settle : {r s t : Runner} → Settles r s → Settles s t → Settles r t
settle p q = record {
  halts = λ h. q.halts (p.halts h);
  shrinks = elim q.shrinks [
    | inl h ↦ inl h
    | inr n ↦ elim p.shrinks [ inl h ↦ inl (q.halts h) | inr m ↦ inr (omega arith) ]
  ];
}

halted : {r r' : Runner} → is_halted r' ≡ true → Settles r r'
halted h = record { halts = λ _. h; shrinks = inl h }

pub either :
    {r x y : Runner} (b : Bool)
    → (b ≡ true → Settles r x)
    → (b ≡ false → Settles r y)
    → Settles r (if b then x else y)
either true p q = p refl
either false p q = q refl

pub option-Settles :
    {A : Type 0} {r : Runner} (o : Option A) (x : Runner) (k : A → Runner)
    → Settles r x
    → ((a : A) → Settles r (k a))
    → Settles r (elim o as (λ _. Runner) [ none ↦ x | some a ↦ k a ])
option-Settles none x k p q = p
option-Settles (some a) x k p q = q a

pub result-Settles :
    {A : Type 0} {r : Runner} (o : Result A) (x : Error → Runner) (k : A → Runner)
    → ((e : Error) → Settles r (x e))
    → ((a : A) → Settles r (k a))
    → Settles r (elim o as (λ _. Runner) [ err e ↦ x e | ok a ↦ k a ])
result-Settles (err e) x k p q = p e
result-Settles (ok a) x k p q = q a

pub go_on-Settles :
    {r : Runner} (f : Flow) (k : Runner → Runner)
    → Settles r f.0
    → ((s : Runner) → f ≡ (s, true) → Settles s (k s))
    → Settles r (go_on f k)
go_on-Settles (s, true) k p q = settle p (q s refl)
go_on-Settles (s, false) k p q = p

module _ (env : Environment) where
  -- What keeps the core settles the runner.
  pub kept : {r r' : Runner} → Keeps r r' → Follows env r r' → Settles r r'
  kept {r} {r'} k f =
      let same_len : len r'.pending ≡ len r.pending = ap (λ c. len c.0) k.same_core in
      let same_current : r'.current ≡ r.current = ap (λ c. c.1) k.same_core in
      let same_state : r'.state ≡ r.state = ap (λ c. c.4) k.same_core in
      record {
        halts = λ h. elim (Bool-cases (is_some r.terminal)) [
          | inl t ↦ let e = f.final t in ground arith
          | inr t ↦ ground arith
        ];
        shrinks = inr (omega arith);
      }

  tell_host-Settles : (m : Message) (r : Runner) → Settles r (tell_host env m r).0
  tell_host-Settles m r = kept (tell_host-Keeps env m r) (tell_host-Follows env m r)

  pub replace-Settles : {r : Runner} (s : Runner) → Settles r (replace_current env s)
  unfolding replace_current
  replace-Settles s = elim (Option-cases s.terminal) [
    | inl e ↦ halted (replace_current-halts env s e)
    | inr (reason, e) ↦ halted (ground arith)
  ]

  or_replace-Settles :
      {r : Runner} (w : Runner × WriteOutcome × Bool)
      → Settles r w.0
      → Settles r (or_replace env w).0
  or_replace-Settles (s, outcome, failed) p = elim (Bool-cases (fully_written (outcome, failed))) [
    | inl e ↦ rw e p
    | inr e ↦ rw e (replace-Settles s)
  ]

  pub write_child-Settles : (m : Message) (r : Runner) → Settles r (write_child env m r).0
  write_child-Settles m r = kept (write_child-Keeps env m r) (write_child-Follows env m r)

  pub tell_child-Settles : (m : Message) (r : Runner) → Settles r (tell_child env m r).0
  unfolding tell_child
  tell_child-Settles m r = or_replace-Settles (write_child env m r) (write_child-Settles m r)

  pub reject_host_request-Settles :
      (frame : ParsedFrame) (code : Code) (c : Complaint) (r : Runner)
      → Settles r (reject_host_request env frame code c r)
  unfolding reject_host_request
  reject_host_request-Settles frame code c r =
      option-Settles frame.id _ _ (rest r) λ id. tell_host-Settles _ r

  pub reject_request-Settles :
      (frame : ParsedFrame) (code : Code) (message : String) (r : Runner)
      → Settles r (reject_request env frame code message r)
  reject_request-Settles frame code message r =
      either (is_request frame.kind) (λ _. reject_host_request-Settles frame code (text message) r)
        λ _. rest r

  register_sent-Settles :
      (g : Option Generation) (id : Option ScalarValue) (frame : ParsedFrame) (r : Runner)
      → Settles r (register_sent env g id frame r)
  register_sent-Settles none id frame r = rest r
  register_sent-Settles (some g) none frame r = rest r
  register_sent-Settles (some g) (some id) frame r = same_view refl refl refl (omega arith)

  deliver_valid-Settles : (item : PendingFrame) (r : Runner) → Settles r (deliver_valid env item r)
  deliver_valid-Settles item r =
      let w = write_child env (forward item.frame.raw) r in
      let sent =
        either (is_request item.frame.kind && not (was_not_written w.1))
          (λ _. register_sent-Settles r.current item.frame.id item.frame w.0) (λ _. rest w.0) in
      settle (write_child-Settles (forward item.frame.raw) r)
        (settle sent (either (fully_written (w.1, w.2)) (λ _. rest _) λ _. replace-Settles _))

  unless_rejected-Settles :
      (o : Option Rejection) (frame : ParsedFrame) (r : Runner) (k : Runner → Runner)
      → Settles r (k r)
      → Settles r (unless_rejected env o frame r k)
  unless_rejected-Settles none frame r k p = p
  unless_rejected-Settles (some (code, c)) frame r k p = reject_host_request-Settles frame code c r

  pub deliver_host_first-Settles :
      (item : PendingFrame) (r : Runner)
      → can_deliver item.frame r ≡ true
      → Settles r (deliver_host_first env item r)
  unfolding deliver_host_first
  deliver_host_first-Settles item r can =
      let frame = settle_host env item.frame r in
      either (not (can_deliver item.frame r)) (λ h. absurd (ground arith))
        λ _.
          unless_rejected-Settles (validate_host_request env frame r) frame r
            (deliver_valid env (record item { frame = frame }))
            (deliver_valid-Settles (record item { frame = frame }) r)
