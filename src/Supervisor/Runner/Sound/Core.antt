-- ===== src/Supervisor/Runner/Sound/Core.antt =====
-- Telling the host, and settling what was lost, leave what the invariant reads as it is.
use mcp_mux.Base.{
  ◌≡◌, refl, ◌∙◌, Bool, true, false, not, Option, none, some, List, [], ◌∷◌, arith, string_key,
  nat_key, if◌then◌else◌,
}
use mcp_mux.Map.{get}
use mcp_mux.Supervisor.Scalar.{scalar_key, ScalarValue}
use mcp_mux.Supervisor.Records.{RequestRecord}
use mcp_mux.Supervisor.Queue.{PendingFrame}
use mcp_mux.Supervisor.Registry.{Outcome, ok, err}
use mcp_mux.Supervisor.Registry.Complete.{cancel}
use mcp_mux.Supervisor.Runner.{
  Runner, is_none, Reason, protocol_failure, host_output_failure, Message, Environment,
}
use mcp_mux.Supervisor.Runner.Lifecycle.{
  terminate, Flow, go_on_flow, write_host, tell_host, with_host, on_host, own_record, may_cancel,
  commit_record, commit_items, commit_quiescing_cancellations, answer_lost, commit_id, with_child,
  on_child,
}
use mcp_mux.Supervisor.Runner.Replay.{tell_all}
use mcp_mux.Supervisor.Runner.Sound.{core}

pub record Keeps (r r' : Runner) : Type 0 where
  pub same_core : core r' ≡ core r

pub keep : {r s t : Runner} → Keeps r s → Keeps s t → Keeps r t
keep p q = record { same_core = q.same_core ∙ p.same_core }

-- Other fields may differ.
pub still : {r r' : Runner} → core r' ≡ core r → Keeps r r'
still p = record { same_core = p }

pub go_on_flow-Keeps :
    {r : Runner} (f : Flow) (k : Runner → Flow)
    → Keeps r f.0
    → ((s : Runner) → Keeps s (k s).0)
    → Keeps r (go_on_flow f k).0
go_on_flow-Keeps (s, true) k p q = keep p (q s)
go_on_flow-Keeps (s, false) k p q = p

pub if-Keeps :
    {r : Runner} (b : Bool) (f g : Flow)
    → Keeps r f.0
    → Keeps r g.0
    → Keeps r (if b then f else g).0
if-Keeps true f g p q = p
if-Keeps false f g p q = q

terminate-Keeps : (reason : Reason) (r : Runner) → Keeps r (terminate reason r)
unfolding terminate
terminate-Keeps reason r = record { same_core = ground arith }

-- A write that fails ends the runner, and nothing else.
or_terminate-Keeps :
    {r : Runner} (reason : Reason) (f : Flow)
    → Keeps r f.0
    → Keeps r (if◌then◌else◌ {A = Flow} f.1 (f.0, true) (terminate reason f.0, false)).0
or_terminate-Keeps reason (s, true) p = p
or_terminate-Keeps reason (s, false) p = keep p (terminate-Keeps reason s)

module _ (env : Environment) where
  pub tell_host-Keeps : (m : Message) (r : Runner) → Keeps r (tell_host env m r).0
  unfolding tell_host write_host
  tell_host-Keeps m r = or_terminate-Keeps host_output_failure (write_host env m r) (still refl)

  on_host-Keeps :
      {A : Type 0} (o : Outcome A) (r : Runner) (k : A → Runner → Flow)
      → ((a : A) (s : Runner) → Keeps s (k a s).0)
      → Keeps r (on_host o r k).0
  on_host-Keeps (g, ok a) r k p = keep (still refl) (p a (with_host g r))
  on_host-Keeps (g, err e) r k p =
      keep (still refl) (terminate-Keeps protocol_failure (with_host g r))

  pub on_child-Keeps :
      {A : Type 0} (o : Outcome A) (r : Runner) (k : A → Runner → Flow)
      → ((a : A) (s : Runner) → Keeps s (k a s).0)
      → Keeps r (on_child o r k).0
  on_child-Keeps (g, ok a) r k p = keep (still refl) (p a (with_child g r))
  on_child-Keeps (g, err e) r k p =
      keep (still refl) (terminate-Keeps protocol_failure (with_child g r))

  pub answer_lost-Keeps :
      (lost : List RequestRecord) (r : Runner) → Keeps r (answer_lost env lost r).0
  unfolding answer_lost
  answer_lost-Keeps [] r = still refl
  answer_lost-Keeps (x ∷ lost) r =
      go_on_flow-Keeps _ _ (tell_host-Keeps _ r) (answer_lost-Keeps lost)

  commit_record-Keeps : (o : Option RequestRecord) (r : Runner) → Keeps r (commit_record env o r).0
  commit_record-Keeps none r = still refl
  commit_record-Keeps (some x) r = if-Keeps (not (may_cancel x)) _ _ (still refl) (
      if-Keeps env.modern _ _ (still refl)
        (on_host-Keeps (cancel x r.host) r _ (λ _ s. still refl)))

  commit_id-Keeps : (o : Option ScalarValue) (r : Runner) → Keeps r (commit_id env o r).0
  commit_id-Keeps none r = still refl
  commit_id-Keeps (some id) r =
      commit_record-Keeps (own_record r.current (get id.key r.host.requests)) r

  commit_items-Keeps :
      (items : List PendingFrame) (r : Runner) → Keeps r (commit_items env items r).0
  unfolding commit_items
  commit_items-Keeps [] r = still refl
  commit_items-Keeps (item ∷ items) r =
      go_on_flow-Keeps _ _
        (if-Keeps (not item.same_generation_only) _ _ (still refl)
          (commit_id-Keeps item.frame.cancellation r))
        (commit_items-Keeps items)

  pub commit_quiescing_cancellations-Keeps :
      (r : Runner) → Keeps r (commit_quiescing_cancellations env r).0
  unfolding commit_quiescing_cancellations
  commit_quiescing_cancellations-Keeps r =
      if-Keeps (is_none r.current) _ _ (still refl) (commit_items-Keeps r.pending.items r)

  pub tell_all-Keeps : (ms : List Message) (r : Runner) → Keeps r (tell_all env ms r).0
  unfolding tell_all
  tell_all-Keeps [] r = still refl
  tell_all-Keeps (m ∷ ms) r = go_on_flow-Keeps _ _ (tell_host-Keeps m r) (tell_all-Keeps ms)
