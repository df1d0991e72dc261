-- ===== src/Daemon/Eviction.antt =====
-- The reaper's kill gate, shouldEvict of muxcore/daemon/reaper.go. Times are nanoseconds counted
-- from Go's zero time, counts are natural numbers and durations are signed.
use mcp_mux.Base.{
  ℤ, pos, ℕ, zero, Bool, true, false, not, ◌&&◌, string_key, nat_key, ltb, ◌==◌, if◌then◌else◌,
}
use mcp_mux.Daemon.Duration.{shorter, is_positive, sub}
pub mod Gate

-- evictionSample: what the reaper reads of an owner.
pub record EvictionSample : Type 0 where
  pub sessions : ℕ
  pub pending_sessions : ℕ
  pub persistent : Bool
  pub pending_requests : ℕ
  pub active_progress_tokens : ℕ
  pub has_busy_work : Bool
  pub upstream_dead : Bool
  pub cache_ready : Bool
  pub materialization_blocked : Bool
  pub idle_timeout : ℤ
  pub owner_idle_override : ℤ
  pub last_session : ℕ
  pub last_activity : ℕ
  pub isolated_classified : Bool

-- The values of the decision's reason.
pub data Reason : Type 0 where
  no_reason zombie idle idle_isolated : Reason

pub record EvictionDecision : Type 0 where
  pub evict : Bool
  pub elapsed : ℤ
  pub timeout : ℤ
  pub reason : Reason

abbrev pub no_decision : EvictionDecision
no_decision = record { evict = false; elapsed = pos 0; timeout = pos 0; reason = no_reason }

-- The timeout after the source's three assignments.
unfoldable pub effective_timeout : EvictionSample → ℤ → ℤ → ℤ
effective_timeout s daemon_default isolated_idle_timeout =
    let t1 =
      if s.isolated_classified && is_positive isolated_idle_timeout
      then isolated_idle_timeout
      else s.idle_timeout in
    let t2 = if is_positive s.owner_idle_override then s.owner_idle_override else t1 in
    if is_positive t2 then t2 else daemon_default

unfoldable pub idle_since : EvictionSample → ℕ
idle_since s = if ltb s.last_session s.last_activity then s.last_activity else s.last_session

unfoldable pub idle_reason : EvictionSample → ℤ → Reason
idle_reason s isolated_idle_timeout =
    if s.isolated_classified
      && is_positive isolated_idle_timeout
      && not (is_positive s.owner_idle_override)
    then idle_isolated
    else idle

-- The part of shouldEvict below the gates.
unfoldable pub idle_decision : EvictionSample → ℕ → ℤ → ℤ → EvictionDecision
idle_decision s now daemon_default isolated_idle_timeout =
    let timeout = effective_timeout s daemon_default isolated_idle_timeout in
    let elapsed = sub now (idle_since s) in
    if not (is_positive timeout) then no_decision else record {
      evict = shorter timeout elapsed;
      elapsed = elapsed;
      timeout = timeout;
      reason = idle_reason s isolated_idle_timeout;
    }

unfoldable pub should_evict : EvictionSample → ℕ → ℤ → ℤ → EvictionDecision
should_evict s now daemon_default isolated_idle_timeout =
    if ltb 0 s.pending_sessions
    then no_decision
    else if s.materialization_blocked
    then no_decision
    else if s.persistent
    then no_decision
    else if s.upstream_dead && s.sessions == 0 && not s.cache_ready
    then record no_decision { evict = true; reason = zombie }
    else if not (s.sessions == 0)
    then no_decision
    else if ltb 0 s.pending_requests
    then no_decision
    else if ltb 0 s.active_progress_tokens
    then no_decision
    else if s.has_busy_work
    then no_decision
    else idle_decision s now daemon_default isolated_idle_timeout
