-- ===== src/Supervisor/Scalar.antt =====
-- muxcore/supervisor/id.go and correlation.go: the keys of correlation, and the roles in which a
-- key is fenced off. A role outside the three has no counterpart here.
use mcp_mux.Base.{ℕ, String, List, Key, String-discrete}

-- `scalar_none` is Go's zero value of the kind.
pub data ScalarKind : Type 0 where
  scalar_none scalar_string scalar_number : ScalarKind

pub record ScalarKey : Type 0 where
  pub kind : ScalarKind
  pub value : String

-- The bytes of a JSON text.
abbrev pub Raw : Type 0
Raw = List ℕ

pub record ScalarValue : Type 0 where
  pub key : ScalarKey
  pub raw : Raw

pub data TombstoneRole : Type 0 where
  tombstone_request tombstone_token tombstone_task : TombstoneRole

pub record TombstoneKey : Type 0 where
  pub role : TombstoneRole
  pub key : ScalarKey

unfoldable pub ScalarKey-discrete : Discrete ScalarKey
unfolding String-discrete
ScalarKey-discrete = hlevel String-discrete

unfoldable pub TombstoneKey-discrete : Discrete TombstoneKey
unfolding String-discrete
TombstoneKey-discrete = hlevel String-discrete

unfoldable pub TombstoneRole-discrete : Discrete TombstoneRole
TombstoneRole-discrete = hlevel

instance abbrev pub scalar_key : Key ScalarKey
scalar_key = record { dec = ScalarKey-discrete }

instance abbrev pub tombstone_key : Key TombstoneKey
tombstone_key = record { dec = TombstoneKey-discrete }

instance abbrev pub role_key : Key TombstoneRole
role_key = record { dec = TombstoneRole-discrete }

abbrev pub task_tombstone_key : String → ScalarKey
task_tombstone_key id = record { kind = scalar_string; value = id }
