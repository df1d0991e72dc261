-- ===== src/Supervisor/Runner/Sound.antt =====
-- muxcore/supervisor/run.go: what the handlers keep: the queue within its limits, a start only where no engine runs, the latest
-- generation as the current one, and a child in each state that speaks to one.
pub mod Core
pub mod Lifecycle
pub mod Replace
pub mod Delivery
pub mod Handshake
pub mod Host
pub mod Flush
pub mod Child
pub mod Replay
pub mod Dormancy
pub mod Start
pub mod Events
use mathlib.Core.List.{append-nil, append_assoc}
use mcp_mux.Supervisor.Queue.{PendingQueue}
use mcp_mux.Supervisor.Registry.{Result, Error, ok, err}
use mcp_mux.Base.{
  ℕ, ◌≤◌, ◌<◌, ◌≡◌, refl, sym, ap, ◌∙◌, ◌⊎◌, inl, inr, Bool, true, false, Option, none, some, List,
  [], ◌++◌, arith, string_key, nat_key, if◌then◌else◌, is_some,
}
use mcp_mux.Supervisor.Runner.{
  Runner, Environment, State, replaying, active, quiescing, awaiting_dormant_exit, Message,
  WriteOutcome, Generation, Reason,
}
use mcp_mux.Supervisor.Queue.Bounds.{IsBounded}
use mcp_mux.Supervisor.Runner.Lifecycle.{Flow, go_on, go_on_flow}

abbrev pub needs_child : State → Bool
needs_child replaying = true
needs_child active = true
needs_child quiescing = true
needs_child awaiting_dormant_exit = true
needs_child _ = false

pub record IsSound (max_frames max_bytes : ℕ) (r : Runner) : Type 0 where
  pub bounded : IsBounded max_frames max_bytes r.pending
  pub alone : r.starting ≡ true → is_some r.current ≡ false
  pub latest : (g : Generation) → r.current ≡ some g → g.id ≡ r.generation
  pub manned : needs_child r.state ≡ true → is_some r.current ≡ true

abbrev Log : Type 0
Log = List (Message × WriteOutcome)

-- `r'` comes of `r`: what is sound stays so, a generation that comes is newer than all before, the first reason to end stays, and what the host was
-- told stays told.
pub record Follows (env : Environment) (r r' : Runner) : Type 0 where
  pub sound :
      IsSound env.pending_frame_limit env.pending_byte_limit r
      → IsSound env.pending_frame_limit env.pending_byte_limit r'
  pub final : is_some r.terminal ≡ true → r'.terminal ≡ r.terminal
  pub later : r.generation ≤ r'.generation
  pub fresh : (g : Generation) → r'.current ≡ some g → (r.current ≡ some g) ⊎ (r.generation < g.id)
  pub told : (more : Log) × (r'.host_log ≡ r.host_log ++ more)

-- The fields that the invariant reads, and all that `Follows` reads.
abbrev pub core : Runner → PendingQueue × Option Generation × Bool × ℕ × State
core r = (r.pending, r.current, r.starting, r.generation, r.state)

abbrev view : Runner → (PendingQueue × Option Generation × Bool × ℕ × State) × Option Reason × Log
view r = (core r, r.terminal, r.host_log)

pub quiet-IsSound :
    {max_frames max_bytes : ℕ} {r r' : Runner}
    → core r' ≡ core r
    → IsSound max_frames max_bytes r
    → IsSound max_frames max_bytes r'
quiet-IsSound q s = record {
  bounded = rw (ap (λ c. c.0) q) s.bounded;
  alone = λ h. rw (ap (λ c. c.1) q) (s.alone (sym (ap (λ c. c.2) q) ∙ h));
  latest = λ g e. s.latest g (sym (ap (λ c. c.1) q) ∙ e) ∙ sym (ap (λ c. c.3) q);
  manned = λ h. rw (ap (λ c. c.1) q) (s.manned (rw (← ap (λ c. c.4) q) h));
}

module _ (env : Environment) where
  pub stay : (r : Runner) → Follows env r r
  stay r = record {
    sound = λ s. s;
    final = λ h. refl;
    later = omega arith;
    fresh = λ g e. inl e;
    told = ([], sym (append-nil r.host_log));
  }

  pub follow : {r s t : Runner} → Follows env r s → Follows env s t → Follows env r t
  follow {r} {s} {t} p q = record {
    sound = λ h. q.sound (p.sound h);
    final = λ h. let e = p.final h in q.final (rw e h) ∙ e;
    later = omega (arith, p.later, q.later);
    fresh = λ g e. elim (q.fresh g e) [
      | inl e' ↦ p.fresh g e'
      | inr newer ↦ inr (omega (arith, p.later, newer))
    ];
    told =
        let (m, e) = p.told in
        let (n, f) = q.told in (m ++ n, f ∙ ap (λ l. l ++ n) e ∙ append_assoc r.host_log m n);
  }

  pub branch :
      {r x y : Runner} (b : Bool)
      → Follows env r x
      → Follows env r y
      → Follows env r (if b then x else y)
  branch true p q = p
  branch false p q = q

  pub branch_on :
      {r x y : Runner} (b : Bool)
      → (b ≡ true → Follows env r x)
      → (b ≡ false → Follows env r y)
      → Follows env r (if b then x else y)
  branch_on true p q = p refl
  branch_on false p q = q refl

  -- The rest meets the runner that the flow leaves.
  pub go_on-Follows_from :
      {r : Runner} (f : Flow) (k : Runner → Runner)
      → Follows env r f.0
      → ((s : Runner) → f ≡ (s, true) → Follows env s (k s))
      → Follows env r (go_on f k)
  go_on-Follows_from (s, true) k p q = follow p (q s refl)
  go_on-Follows_from (s, false) k p q = p

  pub go_on-Follows :
      {r : Runner} (f : Flow) (k : Runner → Runner)
      → Follows env r f.0
      → ((s : Runner) → Follows env s (k s))
      → Follows env r (go_on f k)
  go_on-Follows f k p q = go_on-Follows_from f k p λ s _. q s

  pub go_on_flow-Follows_from :
      {r : Runner} (f : Flow) (k : Runner → Flow)
      → Follows env r f.0
      → ((s : Runner) → f ≡ (s, true) → Follows env s (k s).0)
      → Follows env r (go_on_flow f k).0
  go_on_flow-Follows_from (s, true) k p q = follow p (q s refl)
  go_on_flow-Follows_from (s, false) k p q = p

  pub go_on_flow-Follows :
      {r : Runner} (f : Flow) (k : Runner → Flow)
      → Follows env r f.0
      → ((s : Runner) → Follows env s (k s).0)
      → Follows env r (go_on_flow f k).0
  go_on_flow-Follows f k p q = go_on_flow-Follows_from f k p λ s _. q s

  -- Neither the end nor the host is concerned.
  pub moved :
      {r r' : Runner}
      → (IsSound env.pending_frame_limit env.pending_byte_limit r
          → IsSound env.pending_frame_limit env.pending_byte_limit r')
      → r'.terminal ≡ r.terminal
      → r.generation ≤ r'.generation
      → r'.host_log ≡ r.host_log
      → ((g : Generation) → r'.current ≡ some g → (r.current ≡ some g) ⊎ (r.generation < g.id))
      → Follows env r r'
  moved {r} {r'} keep ended grows log new = record {
    sound = keep;
    final = λ h. ended;
    later = grows;
    fresh = new;
    told = ([], log ∙ sym (append-nil r.host_log));
  }

  -- Nothing that counts has changed.
  pub calm : {r r' : Runner} → view r' ≡ view r → Follows env r r'
  calm q =
      moved (quiet-IsSound (ap (λ v. v.0) q)) (ap (λ v. v.1) q) (omega (arith, ap (λ v. v.0.3) q))
        (ap (λ v. v.2) q) (λ g e. inl (sym (ap (λ v. v.0.1) q) ∙ e))

  pub option-Follows :
      {A : Type 0} {r : Runner} (o : Option A) (x : Runner) (k : A → Runner)
      → Follows env r x
      → ((a : A) → Follows env r (k a))
      → Follows env r (elim o as (λ _. Runner) [ none ↦ x | some a ↦ k a ])
  option-Follows none x k p q = p
  option-Follows (some a) x k p q = q a

  pub result-Follows :
      {A : Type 0} {r : Runner} (o : Result A) (x : Error → Runner) (k : A → Runner)
      → ((e : Error) → Follows env r (x e))
      → ((a : A) → Follows env r (k a))
      → Follows env r (elim o as (λ _. Runner) [ err e ↦ x e | ok a ↦ k a ])
  result-Follows (err e) x k p q = p e
  result-Follows (ok a) x k p q = q a
