-- ===== src/Daemon/Tests.antt =====
-- The theorem about the reaper at a concrete owner.
use mcp_mux.Base.{pos, ◌≡◌, true, false, string_key, nat_key}
use mcp_mux.Daemon.Duration.{shorter, is_positive, sub}
use mcp_mux.Daemon.Eviction.{EvictionSample, should_evict}
use mcp_mux.Daemon.Eviction.Gate.{evict-should_evict}

-- An owner without sessions, last used at 100.
abbrev idle_owner : EvictionSample
idle_owner = record {
  sessions = 0;
  pending_sessions = 0;
  persistent = false;
  pending_requests = 0;
  active_progress_tokens = 0;
  has_busy_work = false;
  upstream_dead = false;
  cache_ready = true;
  materialization_blocked = false;
  idle_timeout = pos 600;
  owner_idle_override = pos 0;
  last_session = 40;
  last_activity = 100;
  isolated_classified = false;
}

evict-should_evict_example : (should_evict idle_owner 701 (pos 50) (pos 60)).evict ≡ true
unfolding mcp_mux.Daemon.Duration.is_positive mcp_mux.Daemon.Duration.shorter
    mcp_mux.Daemon.Duration.sub
evict-should_evict_example = evict-should_evict idle_owner 701 (pos 50) (pos 60)
