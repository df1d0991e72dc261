-- ===== src/Daemon/Eviction/Gate.antt =====
-- What an eviction needs, and which timeout it waits for.
use mcp_mux.Base.{
  ℤ, pos, negsuc, ℕ, ◌≤◌, ◌<◌, ◌≡◌, inl, inr, Bool, true, false, not, ◌&&◌, ◌||◌, Option, none,
  some, List, [], ◌∷◌, arith, string_key, nat_key, ltb, ◌==◌, if◌then◌else◌, Bool-cases,
}
use mcp_mux.Daemon.Duration.{shorter, is_positive, capped, sub}
use mcp_mux.Daemon.Eviction.{
  EvictionSample, effective_timeout, idle_since, idle_decision, should_evict,
}

-- The first positive duration of a list in the order of priority.
abbrev pub first_positive : List ℤ → Option ℤ
first_positive [] = none
first_positive (d ∷ ds) = if is_positive d then some d else first_positive ds

-- The documented order: the server's own timeout, the isolated one where it applies, the entry's
-- and the daemon's. The isolated timeout hides the entry's.
abbrev pub timeouts : EvictionSample → ℤ → ℤ → List ℤ
timeouts s daemon_default isolated_idle_timeout =
    s.owner_idle_override
    ∷ (if s.isolated_classified then isolated_idle_timeout else s.idle_timeout)
    ∷ s.idle_timeout
    ∷ daemon_default
    ∷ []

-- No session is connected or reserved, and nothing protects the owner.
abbrev pub unused : EvictionSample → Bool
unused s =
    s.sessions == 0 && s.pending_sessions == 0 && not s.persistent && not s.materialization_blocked

abbrev pub is_zombie : EvictionSample → Bool
is_zombie s = s.upstream_dead && not s.cache_ready

abbrev pub working : EvictionSample → Bool
working s = ltb 0 s.pending_requests || ltb 0 s.active_progress_tokens || s.has_busy_work

-- More than the timeout went by since the last session and since the last activity.
abbrev pub waited : Option ℤ → EvictionSample → ℕ → Bool
waited none s now = false
waited (some t) s now = shorter t (sub now s.last_session) && shorter t (sub now s.last_activity)

abbrev pub evictable : EvictionSample → ℕ → ℤ → ℤ → Bool
evictable s now daemon_default isolated_idle_timeout =
    unused s
    && (is_zombie s
        || not (working s)
          && waited (first_positive (timeouts s daemon_default isolated_idle_timeout)) s now)

effective_timeout_lem :
    (s : EvictionSample) (d i : ℤ)
    → first_positive (timeouts s d i)
      ≡ (if is_positive (effective_timeout s d i) then some (effective_timeout s d i) else none)
unfolding effective_timeout
effective_timeout_lem s d i = ground arith

capped_mono : (m n t : ℕ) → m ≤ n → t < capped m → t < capped n
capped_mono m n t h lt = ground arith

shorter-sub :
    (t : ℤ) (now a b : ℕ)
    → is_positive t ≡ true
    → a ≤ b
    → shorter t (sub now b) ≡ true
    → shorter t (sub now a) ≡ true
unfolding shorter sub is_positive
shorter-sub (pos t) now a b p h later = ground arith
shorter-sub (negsuc t) now a b p h later = ground arith

shorter-idle_since :
    (t : ℤ) (s : EvictionSample) (now : ℕ)
    → is_positive t ≡ true
    → shorter t (sub now (idle_since s)) ≡ waited (some t) s now
unfolding idle_since
shorter-idle_since t s now p = ground (
  arith,
  shorter-sub t now s.last_session s.last_activity p,
  shorter-sub t now s.last_activity s.last_session p,
)

evict-idle_decision :
    (s : EvictionSample) (now : ℕ) (d i : ℤ)
    → (idle_decision s now d i).evict ≡ waited (first_positive (timeouts s d i)) s now
unfolding idle_decision
evict-idle_decision s now d i = elim (Bool-cases (is_positive (effective_timeout s d i))) [
  | inl p ↦
      ground
        (arith, effective_timeout_lem s d i, shorter-idle_since (effective_timeout s d i) s now p)
  | inr p ↦ ground (arith, effective_timeout_lem s d i)
]

-- An owner is evicted exactly where it has no session and no reservation, is neither persistent nor
-- blocked, and either its upstream is dead without a ready cache, or it does no work and more than
-- the first positive timeout, in the documented order, went by since both its last session and its
-- last activity.
pub evict-should_evict :
    (s : EvictionSample) (now : ℕ) (d i : ℤ) → (should_evict s now d i).evict ≡ evictable s now d i
unfolding should_evict
evict-should_evict s now d i = ground (arith, evict-idle_decision s now d i)
