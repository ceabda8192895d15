-- ===== src/UserMap.antt =====
-- dbuser_map.c: the map from a database user to its account and identifier; none is a map that
-- has not been read yet. `locked` is whether the map's lock is acquired.
pub mod Reading
pub mod Words
mod Tests
pub mod RoundTrip
use mysql_governor.Base.{Option, none, some, [], ◌∷◌, if◌then◌else◌, ℤ, Bytes, streq, Table}
use mysql_governor.Data.{bad_lve}

-- UserMap
pub record UserMap : Type 0 where
  pub username : Bytes
  pub account_name : Bytes
  pub uid : ℤ

-- g_hash_table_find with find_uid: the first entry of the traversal whose user is `u`.
unfoldable pub find_uid : Bytes → Table UserMap → Option UserMap
unfolding streq
find_uid u [] = none
find_uid u ((k, um) ∷ m) = if streq um.username u then some um else find_uid u m

unfoldable pub get_uid : Option (Table UserMap) → Bytes → ℤ
unfolding find_uid
get_uid none u = bad_lve
get_uid (some m) u = elim (find_uid u m) [ none ↦ bad_lve | some um ↦ um.uid ]

unfoldable pub get_account : Option (Table UserMap) → Bytes → Option Bytes
unfolding find_uid
get_account none u = none
get_account (some m) u = elim (find_uid u m) [ none ↦ none | some um ↦ some um.account_name ]
