-- ===== src/Daemon/Duration.antt =====
-- Go's time.Duration, the signed 64-bit count of nanoseconds, and the difference of two times.
use mcp_mux.Base.{
  ℤ, pos, negsuc, ℕ, ◌-◌, Bool, true, false, string_key, nat_key, ltb, leb, if◌then◌else◌,
}

-- The source's `x < y` on durations.
unfoldable pub shorter : ℤ → ℤ → Bool
shorter (pos m) (pos n) = ltb m n
shorter (pos m) (negsuc n) = false
shorter (negsuc m) (pos n) = true
shorter (negsuc m) (negsuc n) = ltb n m

-- The source's `d > 0`.
unfoldable pub is_positive : ℤ → Bool
is_positive (pos m) = ltb 0 m
is_positive (negsuc m) = false

abbrev pub max_duration : ℕ
max_duration = 9223372036854775807

abbrev pub capped : ℕ → ℕ
capped n = if ltb max_duration n then max_duration else n

-- `now.Sub(since)` on times counted from the zero time: it saturates at both ends.
unfoldable pub sub : ℕ → ℕ → ℤ
sub now since =
    if leb since now then pos (capped (now - since)) else negsuc (capped (since - now - 1))
