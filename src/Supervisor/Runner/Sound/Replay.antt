-- ===== src/Supervisor/Runner/Sound/Replay.antt =====
-- The replay of a generation keeps the runner sound.
use mcp_mux.Base.{
  ◌≡◌, refl, sym, ap, subst, ◌∙◌, Bool, true, false, not, ◌||◌, Option, none, some, List, [], ◌∷◌,
  map, arith, string_key, nat_key, if◌then◌else◌, is_some, inl,
}
use mcp_mux.Supervisor.Records.{ParsedFrame, is_result}
use mcp_mux.Supervisor.Scalar.{Raw}
use mcp_mux.Supervisor.Queue.{is_initialization_ping}
use mcp_mux.Supervisor.Runner.{
  Runner, is_replaying, is_none, replaying, Message, forward, Environment,
}
use mcp_mux.Supervisor.Runner.Lifecycle.{Flow, go_on_flow, tell_host, tell_child}
use mcp_mux.Supervisor.Runner.Validate.{same_id}
use mcp_mux.Supervisor.Runner.Delivery.{is_response}
use mcp_mux.Supervisor.Runner.Child.{is_initialization_logging, host_record, stop_replay}
use mcp_mux.Supervisor.Runner.Replay.{
  begin_replay, no_prelude, replay_with, tell_all, tell_initialized, answer_initialize, announce,
  become_active, replay_done, complete_replay, contract_broken, replay_response, prelude_full,
  keep_prelude, handle_replay_frame,
}
use mcp_mux.Supervisor.Runner.Sound.{
  Follows, core, stay, follow, branch, branch_on, go_on-Follows_from, go_on-Follows,
  go_on_flow-Follows, moved, calm,
}
use mcp_mux.Supervisor.Runner.Sound.Core.{Keeps, keep, tell_host-Keeps, tell_all-Keeps}
use mcp_mux.Supervisor.Runner.Sound.Lifecycle.{tell_host-Follows, if-Follows}
use mcp_mux.Supervisor.Runner.Sound.Replace.{
  replace_current-Follows, tell_child-Follows, tell_child-told,
}
use mcp_mux.Supervisor.Runner.Sound.Flush.{flush_pending-Follows, flush_replay_pings-Follows}
use mcp_mux.Supervisor.Runner.Sound.Child.{
  handle_child_request-Follows, forward_to_host-Follows, settle_initialize-Follows,
  handle_child_response-Follows,
}

-- A flow that goes on leaves what the invariant reads.
record Sure (r : Runner) (f : Flow) : Type 0 where
  sure : (s : Runner) → f ≡ (s, true) → Keeps r s

Keeps-Sure : {r : Runner} (f : Flow) → Keeps r f.0 → Sure r f
Keeps-Sure {r} f k = record { sure = λ s e. subst (λ t. Keeps r t) (ap (λ f. f.0) e) k }

stay-Sure : {r r' : Runner} → core r' ≡ core r → Sure r (r', true)
stay-Sure {r} {r'} c = Keeps-Sure (r', true) (record { same_core = c })

go_on_flow-Sure :
    {r : Runner} (f : Flow) (k : Runner → Flow)
    → Sure r f
    → ((s : Runner) → Sure s (k s))
    → Sure r (go_on_flow f k)
go_on_flow-Sure (t, true) k p q = record { sure = λ s e. keep (p.sure t refl) ((q t).sure s e) }
go_on_flow-Sure (t, false) k p q = record { sure = λ s e. p.sure s e }

-- What is changed first does not count.
after-Sure : {r t : Runner} {f : Flow} → core t ≡ core r → Sure t f → Sure r f
after-Sure c p = record { sure = λ s e. keep (record { same_core = c }) (p.sure s e) }

if-Sure : {r : Runner} (b : Bool) (f g : Flow) → Sure r f → Sure r g → Sure r (if b then f else g)
if-Sure true f g p q = p
if-Sure false f g p q = q

module _ (env : Environment) where
  -- With a child at hand the runner may take a state that speaks to it.
  pub manned_state :
      {r r' : Runner}
      → is_some r.current ≡ true
      → r'.pending ≡ r.pending
      → r'.current ≡ r.current
      → r'.starting ≡ r.starting
      → r'.generation ≡ r.generation
      → r'.terminal ≡ r.terminal
      → r'.host_log ≡ r.host_log
      → Follows env r r'
  manned_state present pending current starting generation ended log =
      moved env
        (λ s. record {
          bounded = rw pending s.bounded;
          alone = λ h. rw current (s.alone (sym starting ∙ h));
          latest = λ g e. s.latest g (sym current ∙ e) ∙ sym generation;
          manned = λ h. rw current present;
        })
        ended (omega (arith, generation)) log (λ g e. inl (sym current ∙ e))

  replay_with-Follows :
      (o : Option Raw) (r : Runner) → is_some r.current ≡ true → Follows env r (replay_with env o r)
  replay_with-Follows none r present = replace_current-Follows env r
  replay_with-Follows (some request) r present =
      follow env (manned_state present refl refl refl refl refl refl) (
        go_on-Follows env
          (tell_child env (forward request) (record (no_prelude r) { state = replaying })) _
          (tell_child-Follows env (forward request) _)
          λ s. follow env (calm env refl) (flush_replay_pings-Follows env _))

  pub begin_replay-Follows : (r : Runner) → Follows env r (begin_replay env r)
  unfolding begin_replay
  begin_replay-Follows r =
      branch_on env (is_none r.current || is_none r.handshake.id)
        (λ _. replace_current-Follows env r)
        λ h. replay_with-Follows r.handshake.request r (ground arith)

  tell_all-Follows : (ms : List Message) (r : Runner) → Follows env r (tell_all env ms r).0
  unfolding tell_all
  tell_all-Follows [] r = stay env r
  tell_all-Follows (m ∷ ms) r =
      go_on_flow-Follows env (tell_host env m r) _ (tell_host-Follows env m r) (tell_all-Follows ms)

  tell_initialized-Follows :
      (o : Option Raw) (r : Runner) → Follows env r (tell_initialized env o r).0
  tell_initialized-Follows none r = stay env r
  tell_initialized-Follows (some x) r = tell_child-Follows env (forward x) r

  answer_initialize-Follows :
      (frame : ParsedFrame) (r : Runner) → Follows env r (answer_initialize env frame r).0
  answer_initialize-Follows frame r = if-Follows env (not r.handshake.awaiting) _ _ (stay env r) (
      go_on_flow-Follows env (tell_host env (forward frame.raw) r) _
        (tell_host-Follows env (forward frame.raw) r) (settle_initialize-Follows env frame))

  announce-Follows : (frame : ParsedFrame) (r : Runner) → Follows env r (announce env frame r).0
  announce-Follows frame r =
      if-Follows env (is_none r.handshake.initialized || not (is_result frame.kind)) _ _
        (stay env r) (tell_all-Follows _ r)

  replay_done-Follows :
      (frame : ParsedFrame) (r : Runner) → Follows env r (replay_done env frame r).0
  replay_done-Follows frame r =
      go_on_flow-Follows env (tell_initialized env r.handshake.initialized r) _
        (tell_initialized-Follows r.handshake.initialized r)
        λ s.
          go_on_flow-Follows env (tell_all env (map forward s.prelude) s) _
            (tell_all-Follows (map forward s.prelude) s)
            λ t. follow env (calm env refl) (
              go_on_flow-Follows env (answer_initialize env frame (no_prelude t))
                (announce env frame) (answer_initialize-Follows frame (no_prelude t))
                (announce-Follows frame))

  tell_initialized-Sure : (o : Option Raw) (r : Runner) → Sure r (tell_initialized env o r)
  tell_initialized-Sure none r = stay-Sure refl
  tell_initialized-Sure (some x) r = record { sure = tell_child-told env (forward x) r }

  answer_initialize-Sure :
      (frame : ParsedFrame) (r : Runner) → Sure r (answer_initialize env frame r)
  answer_initialize-Sure frame r = if-Sure (not r.handshake.awaiting) _ _ (stay-Sure refl) (
      go_on_flow-Sure (tell_host env (forward frame.raw) r) _
        (Keeps-Sure _ (tell_host-Keeps env (forward frame.raw) r)) λ s. stay-Sure (ground arith))

  announce-Sure : (frame : ParsedFrame) (r : Runner) → Sure r (announce env frame r)
  announce-Sure frame r =
      if-Sure (is_none r.handshake.initialized || not (is_result frame.kind)) _ _ (stay-Sure refl)
        (Keeps-Sure _ (tell_all-Keeps env _ r))

  replay_done-Sure : (frame : ParsedFrame) (r : Runner) → Sure r (replay_done env frame r)
  replay_done-Sure frame r =
      go_on_flow-Sure (tell_initialized env r.handshake.initialized r) _
        (tell_initialized-Sure r.handshake.initialized r)
        λ s.
          go_on_flow-Sure (tell_all env (map forward s.prelude) s) _
            (Keeps-Sure _ (tell_all-Keeps env (map forward s.prelude) s))
            λ t. after-Sure refl (
              go_on_flow-Sure (answer_initialize env frame (no_prelude t)) (announce env frame)
                (answer_initialize-Sure frame (no_prelude t)) (announce-Sure frame))

  complete_replay-Follows :
      (frame : ParsedFrame) (r : Runner) → Follows env r (complete_replay env frame r)
  unfolding complete_replay
  complete_replay-Follows frame r = follow env (calm env refl) (
      branch_on env (is_none r.current) (λ _. stay env (stop_replay r))
        λ present.
          go_on-Follows_from env (replay_done env frame (stop_replay r)) _
            (replay_done-Follows frame (stop_replay r))
            λ s e.
              let k = (replay_done-Sure frame (stop_replay r)).sure s e in
              let here : is_some s.current ≡ true =
                ap (λ c. is_some c.1) k.same_core ∙ (ground arith) in
              follow env (manned_state here refl refl refl refl refl refl)
                (flush_pending-Follows env (become_active s)))

  replay_response-Follows :
      (frame : ParsedFrame) (r : Runner) → Follows env r (replay_response env frame r)
  replay_response-Follows frame r =
      branch env (is_some (host_record frame.id r)) (handle_child_response-Follows env frame r) (
        branch env (not (same_id frame.id r.handshake.id)) (replace_current-Follows env r) (
          branch env (contract_broken env frame r.handshake.response)
            (replace_current-Follows env r) (complete_replay-Follows frame r)))

  keep_prelude-Follows :
      (frame : ParsedFrame) (r : Runner) → Follows env r (keep_prelude env frame r)
  keep_prelude-Follows frame r =
      branch env (prelude_full env frame r) (replace_current-Follows env r) (calm env refl)

  pub handle_replay_frame-Follows :
      (frame : ParsedFrame) (r : Runner) → Follows env r (handle_replay_frame env frame r)
  unfolding handle_replay_frame
  handle_replay_frame-Follows frame r =
      branch env (is_none r.current || not (is_replaying r.state)) (stay env r) (
        branch env (is_initialization_ping frame) (handle_child_request-Follows env frame r) (
          branch env (is_response frame) (replay_response-Follows frame r) (
            branch env (not (is_initialization_logging frame) || frame.utility_err)
              (replace_current-Follows env r)
              (branch env r.handshake.awaiting (forward_to_host-Follows env frame r)
                (keep_prelude-Follows frame r)))))
