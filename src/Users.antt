-- ===== src/Users.antt =====
-- stats.c and user_account.c: the tables of users and accounts, and the samples of a user. The
-- counters of tid_table.c are the third table. A fault of the ring's operations is none.
pub mod Sample
use mysql_governor.Base.{
  ℕ, suc, ◌+◌, Bool, false, Option, none, some, [], ◌∷◌, ◌++◌, map, ltb, ◌==◌, if◌then◌else◌, pos,
  Bytes, strlcpy, Table, lookup, insert, ◌>>=◌,
}
use mysql_governor.Base.Double.{Double}
use mysql_governor.Data.{norestrict_param2, no_period, Stats, GovernorConfig, username_max_len}
use mysql_governor.Fifo.{
  Fifo, fifo_stats_init, fifo_stats_push, fifo_stats_refresh_last, fifo_stats_avg, reset_stats,
}
use mysql_governor.Account.{UserStats, Account}
use mysql_governor.Overlimit.{config_get_account_limit}
use mysql_governor.UserMap.{UserMap, get_account}

-- Stat_counters
pub record StatCounters (D : Type 0) : Type 0 where
  pub s : Stats D
  pub tm : D

-- The tables `users` and `accounts` of calc_stats.c, `user_account_table` of user_account.c,
-- `user_counters_list` of tid_table.c, and `tick_id` of tick_generator.c.
pub record Tables (D : Type 0) : Type 0 where
  pub users : Table (UserStats D)
  pub accounts : Table (Account D)
  pub user_accounts : Table Bytes
  pub counters : Table (StatCounters D)
  pub tick_id : ℕ

-- COMPARE_MAX_3
unfoldable pub compare_max_3 : ℕ → ℕ → ℕ → ℕ
compare_max_3 x y z = if ltb y x then (if ltb z x then x else z) else if ltb z y then y else z

-- strchr: the index of a byte.
unfoldable pub strchr : Bytes → ℕ → Option ℕ
strchr [] c = none
strchr (x ∷ s) c =
    if x == c then some 0 else elim (strchr s c) [ none ↦ none | some i ↦ some (suc i) ]

-- The part of a user's name before the separator; the whole name without one or at its start.
unfoldable pub prefix_account : ℕ → Bytes → Bytes
unfolding strchr
prefix_account separator username = elim (strchr username separator) [
  | none ↦ strlcpy username username_max_len
  | some i ↦ if i == 0 then strlcpy username username_max_len else strlcpy username (i + 1)
]

-- The account of a user that is not in the table yet.
unfoldable pub account_of : GovernorConfig → Bool → Option (Table UserMap) → Bytes → Bytes
unfolding get_account prefix_account config_get_account_limit
account_of cfg locked map username =
    if (config_get_account_limit cfg (strlcpy username username_max_len)).account_flag
    then elim (if locked then get_account map username else none) [
      | none ↦ prefix_account cfg.separator username
      | some a ↦ strlcpy a username_max_len
    ]
    else strlcpy username username_max_len

module _ {D : Type 0} ⦃dbl : Double D⦄ where
  unfoldable pub init_account : Bytes → Account D
  unfolding reset_stats
  init_account id = record {
    id = id;
    users = [];
    current = reset_stats;
    long_average = reset_stats;
    mid_average = reset_stats;
    short_average = reset_stats;
    restricted = pos 0;
    timeout = pos 0;
    start_count = pos 0;
    info = record { field_restrict = no_period; field_level_restrict = norestrict_param2 };
    need_dbg = false;
  }

  module _ (cfg : GovernorConfig) where
    unfoldable pub init_user_stats : Bytes → Bytes → UserStats D
    unfolding reset_stats fifo_stats_init compare_max_3
    init_user_stats id ac = record {
      id = id;
      account = ac;
      stats = fifo_stats_init (compare_max_3 cfg.interval_long cfg.interval_mid cfg.interval_short);
      long_average = reset_stats;
      mid_average = reset_stats;
      short_average = reset_stats;
      tick = 0;
    }

    -- The three averages, that push_stats and refresh_stats compute anew from the ring.
    unfoldable pub averaged : UserStats D → Fifo D → Option (UserStats D)
    unfolding fifo_stats_avg
    averaged us f = do
      l ← fifo_stats_avg f cfg.interval_long
      m ← fifo_stats_avg f cfg.interval_mid
      s ← fifo_stats_avg f cfg.interval_short
      some (record us { stats = f; long_average = l; mid_average = m; short_average = s })

    unfoldable pub push_stats : Stats D → UserStats D → Option (UserStats D)
    unfolding fifo_stats_push averaged
    push_stats st us = do f ← fifo_stats_push us.stats st; averaged us f

    unfoldable pub refresh_stats : Stats D → UserStats D → Option (UserStats D)
    unfolding fifo_stats_refresh_last averaged
    refresh_stats st us = do f ← fifo_stats_refresh_last us.stats st; averaged us f

    module _ (locked : Bool) (map : Option (Table UserMap)) where
      -- The account's name and the table that holds it.
      unfoldable pub get_user_account : Bytes → Tables D → Bytes × Tables D
      unfolding account_of
      get_user_account username g = elim (lookup username g.user_accounts) [
        | some a ↦ (a, g)
        | none ↦
            let a = account_of cfg locked map username in
            (
              a,
              record g {
                user_accounts = insert (strlcpy username username_max_len) a g.user_accounts;
              },
            )
      ]

      unfoldable pub add_user_stats : Bytes → Tables D → UserStats D × Tables D
      unfolding get_user_account init_account init_user_stats
      add_user_stats username g =
          let (a, g1) = get_user_account username g in
          let id = strlcpy username username_max_len in
          let ac : Account D = elim (lookup a g1.accounts) [
            | none ↦ init_account a
            | some ac ↦ ac
          ] in
          let us = init_user_stats id a in
          (
            us,
            record g1 {
              accounts = insert a (record ac { users = ac.users ++ id ∷ [] }) g1.accounts;
              users = insert id us g1.users;
            },
          )
