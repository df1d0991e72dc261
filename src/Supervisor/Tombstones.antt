-- ===== src/Supervisor/Tombstones.antt =====
-- muxcore/supervisor/correlation.go: the set of the latest tombstones. The order of arrival is a
-- ring once it is full.
pub mod Ring
use mcp_mux.Base.{
  ℕ, suc, ◌+◌, ◌%◌, Option, none, some, Bool, List, [], ◌∷◌, ◌++◌, length, set, get_elem?, ltb,
  if◌then◌else◌,
}
use mcp_mux.Map.{Map, has, put, delete}
use mcp_mux.Supervisor.Scalar.{ScalarKey, TombstoneRole, TombstoneKey, tombstone_key}

abbrev pub tombstone_limit : ℕ
tombstone_limit = 1024

pub record TombstoneSet : Type 0 where
  pub values : Map TombstoneKey (Unit {0})
  pub order : List TombstoneKey
  pub next : ℕ

abbrev pub new_tombstones : TombstoneSet
new_tombstones = record { values = []; order = []; next = 0 }

abbrev pub tombstone : TombstoneRole → ScalarKey → TombstoneKey
tombstone role key = record { role = role; key = key }

unfoldable pub contains : TombstoneRole → ScalarKey → TombstoneSet → Bool
contains role key t = has (tombstone role key) t.values

-- A full ring has the entry that is overwritten; Go panics without it.
abbrev pub evict : TombstoneKey → Option TombstoneKey → TombstoneSet → TombstoneSet
evict entry none t = t
evict entry (some oldest) t = record {
  values = delete oldest (put entry tt t.values);
  order = set t.order t.next entry;
  next = (t.next + 1) % tombstone_limit;
}

abbrev pub insert : TombstoneKey → TombstoneSet → TombstoneSet
insert entry t =
    if ltb (length t.order) tombstone_limit
    then record t { values = put entry tt t.values; order = t.order ++ entry ∷ [] }
    else evict entry (get_elem? t.order t.next) t

unfoldable pub add : TombstoneRole → ScalarKey → TombstoneSet → TombstoneSet
add role key t = if has (tombstone role key) t.values then t else insert (tombstone role key) t

unfoldable pub clear : TombstoneSet → TombstoneSet
clear t = record { values = []; order = []; next = 0 }
