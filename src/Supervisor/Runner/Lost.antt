-- ===== src/Supervisor/Runner/Lost.antt =====
-- muxcore/supervisor/finalization.go: what becomes of the requests of a generation that is given up.
use mathlib.Core.List.{append-nil, append_assoc, Perm}
use mcp_mux.Base.{
  ℕ, ◌≡◌, refl, sym, ap, subst, ◌∙◌, ◌⊎◌, inl, inr, Bool, true, false, not, ◌&&◌, none, some, List,
  [], ◌∷◌, ◌++◌, map, arith, string_key, nat_key, ◌==◌, if◌then◌else◌, is_some, length,
}
use mcp_mux.Supervisor.Scalar.{ScalarKey}
use mcp_mux.Supervisor.Records.{RequestRecord}
use mcp_mux.Supervisor.Registry.{
  DirectionRegistry, Result-cases, Outcome-cases, fence_many, ok, Outcome, err,
}
use mcp_mux.Supervisor.Runner.Lifecycle.{
  terminate, Flow, go_on_flow, fully_written, write_host, tell_host, is_retired, answer_lost,
  finalize_or_terminate, finalize_current, with_host, with_child, on_host, on_child, retire_current,
}
use mcp_mux.Supervisor.Runner.{
  Runner, write_frame, Reason, host_output_failure, internal, text, Message, local_error,
  WriteOutcome, not_written, ambiguous, delivered, Generation, Environment, protocol_failure,
}
use mcp_mux.Supervisor.Registry.Sort.{sort_lost}
use mcp_mux.Supervisor.Registry.Sort.Sorted.{IsSorted, sort_lost-perm, sort_lost-IsSorted}
use mcp_mux.Supervisor.Registry.RetireSteps.{fence_many-others}
use mcp_mux.Supervisor.Registry.Retire.{
  retire_requests, retire_request, retirement, retire_generation_checked,
}

-- The requests of the generation but for the initialize request, in the order of the map.
unfoldable pub lost_requests : ℕ → List (ScalarKey × RequestRecord) → List RequestRecord
lost_requests generation [] = []
lost_requests generation ((key, r) ∷ m) =
    let rest = lost_requests generation m in
    if r.generation == generation && not r.initialize then r ∷ rest else rest

lost-retire_requests :
    (generation : ℕ) (m : List (ScalarKey × RequestRecord)) (g : DirectionRegistry)
    (lost : List RequestRecord)
    → (retire_requests generation m g lost).1 ≡ lost ++ lost_requests generation m
unfolding retire_requests lost_requests
lost-retire_requests generation [] g lost = sym (append-nil lost)
lost-retire_requests generation ((key, r) ∷ m) g lost = ground (
  arith,
  lost-retire_requests generation m (if r.generation == generation then retire_request r g else g)
      (if r.generation == generation && not r.initialize then lost ++ r ∷ [] else lost),
  append_assoc lost (r ∷ []) (lost_requests generation m),
)

retire_generation_checked-lost :
    (generation : ℕ) (g h : DirectionRegistry) (lost : List RequestRecord)
    → retire_generation_checked generation g ≡ (h, ok lost)
    → lost ≡ sort_lost (lost_requests generation g.requests)
unfolding retire_generation_checked
retire_generation_checked-lost generation g h lost e =
    elim (Result-cases (retirement generation g)) [
      | inl (e', p) ↦ absurd (ground arith)
      | inr (entries, p) ↦ elim (Outcome-cases (fence_many entries g)) [
        | inl (e', q) ↦ absurd (ground arith)
        | inr (u, q) ↦ ground (
          arith,
          fence_many-others entries g,
          lost-retire_requests generation (fence_many entries g).0.requests (fence_many entries g).0
              [],
        )
      ]
    ]

abbrev lost_reply : RequestRecord → Message
lost_reply x =
    local_error (some x.id.raw) internal
      (text "mcp-mux engine restarted, request lost during launcher reconnect")

abbrev pub delivery : RequestRecord → Message × WriteOutcome
delivery x = (lost_reply x, delivered)

terminate-ends : (reason : Reason) (r : Runner) → is_some (terminate reason r).terminal ≡ true
unfolding terminate
terminate-ends reason r = ground arith

-- The host was told all of it, and nothing else was done.
record Told (r s : Runner) (log : List (Message × WriteOutcome)) : Type 0 where
  host_log : s.host_log ≡ r.host_log ++ log
  current : s.current ≡ r.current
  host : s.host ≡ r.host
  child : s.child ≡ r.child

-- A flow that tells the host all of it, or ends the runner.
record Tells (r : Runner) (f : Flow) (log : List (Message × WriteOutcome)) : Type 0 where
  told : f.1 ≡ true → Told r f.0 log
  ends : f.1 ≡ false → is_some f.0.terminal ≡ true

go_on_flow-Tells :
    {r : Runner} {xs ys : List (Message × WriteOutcome)} (f : Flow) (k : Runner → Flow)
    → Tells r f xs
    → ((s : Runner) → Tells s (k s) ys)
    → Tells r (go_on_flow f k) (xs ++ ys)
go_on_flow-Tells {r} {xs} {ys} (s, true) k p q = record {
  told = λ h.
      let first = p.told refl in
      let rest = (q s).told h in
      record {
        host_log = rest.host_log ∙ ap (λ l. l ++ ys) first.host_log ∙ append_assoc r.host_log xs ys;
        current = rest.current ∙ first.current;
        host = rest.host ∙ first.host;
        child = rest.child ∙ first.child;
      };
  ends = (q s).ends;
}
go_on_flow-Tells (s, false) k p q = record { told = λ h. absurd (ground arith); ends = p.ends }

module _ (env : Environment) where
  tell_host-Tells : (m : Message) (r : Runner) → Tells r (tell_host env m r) ((m, delivered) ∷ [])
  unfolding tell_host write_host
  tell_host-Tells m r = told (write_frame (env.size m) (env.host_writer (length r.host_log) m))
    where
      told :
          (w : WriteOutcome × Bool)
          → Tells r
              (let s = record r { host_log = r.host_log ++ (m, w.0) ∷ [] } in
                if◌then◌else◌ {A = Flow}
                  (fully_written w)
                  (s, true)
                  (terminate host_output_failure s, false))
              ((m, delivered) ∷ [])
      told (delivered, false) = record {
        told = λ h. record { host_log = refl; current = refl; host = refl; child = refl };
        ends = λ h. absurd (ground arith);
      }
      told (delivered, true) = record {
        told = λ h. absurd (ground arith);
        ends = λ h. terminate-ends host_output_failure _;
      }
      told (ambiguous, failed) = record {
        told = λ h. absurd (ground arith);
        ends = λ h. terminate-ends host_output_failure _;
      }
      told (not_written, failed) = record {
        told = λ h. absurd (ground arith);
        ends = λ h. terminate-ends host_output_failure _;
      }

  answer_lost-Tells :
      (lost : List RequestRecord) (r : Runner)
      → Tells r (answer_lost env lost r) (map delivery lost)
  unfolding answer_lost
  answer_lost-Tells [] r = record {
    told = λ h. record {
      host_log = sym (append-nil r.host_log);
      current = refl;
      host = refl;
      child = refl;
    };
    ends = λ h. absurd (ground arith);
  }
  answer_lost-Tells (x ∷ lost) r =
      go_on_flow-Tells (tell_host env (lost_reply x) r) _ (tell_host-Tells (lost_reply x) r)
        (answer_lost-Tells lost)

-- What is left of the generation once it is given up.
pub record IsGivenUp (env : Environment) (g : Generation) (r s : Runner) : Type 0 where
  pub lost : List RequestRecord
  pub all : Perm lost (lost_requests g.id r.host.requests)
  pub sorted : IsSorted lost
  pub told : s.host_log ≡ r.host_log ++ map delivery lost
  pub current : s.current ≡ none
  pub host : s.host ≡ (retire_generation_checked g.id r.host).0
  pub child : s.child ≡ (retire_generation_checked g.id r.child).0
  pub retired : is_retired (env.ending g.id) ≡ true

-- The flow goes on and the generation is given up, or the runner ends.
abbrev pub GivesUp : Environment → Generation → Runner → Flow → Type 0
GivesUp env g r f =
    ((s : Runner) × (f ≡ (s, true)) × IsGivenUp env g r s) ⊎ (is_some f.0.terminal ≡ true)

module _ (env : Environment) (g : Generation) where
  finalize-cases :
      (t : Runner)
      → t.current ≡ some g
      → ((finalize_or_terminate env t ≡ (record t { current = none }, true))
          × (is_retired (env.ending g.id) ≡ true))
        ⊎ (is_some (finalize_or_terminate env t).0.terminal ≡ true)
  unfolding finalize_current terminate
  finalize-cases t e = ground arith

  abbrev tell_lost : List RequestRecord → Runner → Flow
  tell_lost lost r = go_on_flow (answer_lost env lost r) (finalize_or_terminate env)

  answered :
      (r r2 : Runner) (lost : List RequestRecord)
      → r2.current ≡ some g
      → r2.host_log ≡ r.host_log
      → lost ≡ sort_lost (lost_requests g.id r.host.requests)
      → r2.host ≡ (retire_generation_checked g.id r.host).0
      → r2.child ≡ (retire_generation_checked g.id r.child).0
      → GivesUp env g r (tell_lost lost r2)
  answered r r2 lost here log all host child =
      tell (answer_lost env lost r2) (answer_lost-Tells env lost r2)
    where
      tell :
          (f : Flow)
          → Tells r2 f (map delivery lost)
          → GivesUp env g r (go_on_flow f (finalize_or_terminate env))
      tell (t, false) p = inr (p.ends refl)
      tell (t, true) p = elim (finalize-cases t ((p.told refl).current ∙ here)) [
        | inr ended ↦ inr ended
        | inl (e, proven) ↦ inl (
          record t { current = none },
          e,
          record {
            lost = lost;
            all =
                subst (λ l. Perm l (lost_requests g.id r.host.requests)) (sym all)
                  (sort_lost-perm (lost_requests g.id r.host.requests));
            sorted =
                subst IsSorted (sym all) (sort_lost-IsSorted (lost_requests g.id r.host.requests));
            told = (p.told refl).host_log ∙ ap (λ l. l ++ map delivery lost) log;
            current = refl;
            host = (p.told refl).host ∙ host;
            child = (p.told refl).child ∙ child;
            retired = proven;
          },
        )
      ]

  retire_child :
      (r : Runner) (h : DirectionRegistry) (lost : List RequestRecord)
      → r.current ≡ some g
      → retire_generation_checked g.id r.host ≡ (h, ok lost)
      → (c : Outcome (List RequestRecord)) → retire_generation_checked g.id r.child ≡ c
      → GivesUp env g r (on_child c (with_host h r) λ _ r2. tell_lost lost r2)
  retire_child r h lost here e (c, err x) e' =
      inr (terminate-ends protocol_failure (with_child c (with_host h r)))
  retire_child r h lost here e (c, ok _) e' =
      answered r (with_child c (with_host h r)) lost here refl
        (retire_generation_checked-lost g.id r.host h lost e) (sym (ap (λ o. o.0) e))
        (sym (ap (λ o. o.0) e'))

  retire_host :
      (r : Runner)
      → r.current ≡ some g
      → (o : Outcome (List RequestRecord)) → retire_generation_checked g.id r.host ≡ o
      → GivesUp env g r (
          on_host o r λ lost r1.
            on_child (retire_generation_checked g.id r1.child) r1 λ _ r2. tell_lost lost r2)
  retire_host r here (h, err x) e = inr (terminate-ends protocol_failure (with_host h r))
  retire_host r here (h, ok lost) e =
      retire_child r h lost here e (retire_generation_checked g.id r.child) refl

-- Giving up a generation that is current either ends the runner or goes on, and then the host was
-- told, fully, exactly one error for each of its requests in that generation but the initialize
-- request, in the order of their IDs' kinds and then of the texts, and nothing else, both
-- registries are those that the retirement leaves, the child's end was proved, and no engine is
-- current.
pub retire_current-lost :
    (env : Environment) (g : Generation) (r : Runner)
    → r.current ≡ some g
    → GivesUp env g r (retire_current env g r)
unfolding retire_current
retire_current-lost env g r here =
    retire_host env g r here (retire_generation_checked g.id r.host) refl
