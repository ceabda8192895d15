-- ===== src/Restrict/Dbctl.antt =====
-- The operations of calc_stats.c that the command line tool dbctl asks for: to restrict an account,
-- to release one, and to release all. Each is called for every account of the table.
pub mod Orders
mod Tests
use mysql_governor.Base.{
  ℕ, Bool, true, false, ◌||◌, Option, none, some, List, [], ◌∷◌, map, if◌then◌else◌, ℤ, pos, negsuc,
  ◌-ℤ◌, ltb_ℤ, leb_ℤ, eqb_ℤ, int_of_unsigned, Bytes, streq, strneq, Table, lookup, insert,
}
use mysql_governor.Base.Double.{Double}
use mysql_governor.Data.{restrict_mode, current_period, GovernorConfig, username_max_len}
use mysql_governor.Fifo.{reset_stats}
use mysql_governor.Account.{Account, Cause, World, no_unrestrict_yet, time, emit}
use mysql_governor.Overlimit.{config_get_account_limit, is_stat_overlimit}
use mysql_governor.LogDecoder.{prepare_restrict_description, prepare_restrict_description_limit}
use mysql_governor.Commands.{account_restrict, account_unrestrict}
use mysql_governor.UserMap.{UserMap}
use mysql_governor.Users.{Tables, add_user_stats}
use mysql_governor.Restrict.{get_timeout, inc_number_of_restricts, log_description, check_restrict}
use mysql_governor.Restrict.Analyze.{released}

-- DbCtlOptions
pub record DbCtlOptions : Type 0 where
  pub username : Bytes
  pub cpu : ℤ
  pub read : ℤ
  pub write : ℤ
  pub level : ℤ
  pub timeout : ℤ
  pub user_max_connections : ℤ

abbrev all_causes : Cause
all_causes = record { by_cpu = true; by_read = true; by_write = true }

-- The level and the penalty that get_timeout is given: without a level, one step down.
abbrev pub asked : ℤ → ℤ → ℤ × ℤ
asked level restricted =
    if eqb_ℤ level (negsuc 0)
    then (restricted, negsuc 0)
    else (let l : ℤ = level -ℤ pos 1 in (if ltb_ℤ l (pos 0) then pos 0 else l), pos 0)

-- comapre_users_name (username, ac) == 0: one of the account's users is named so.
unfoldable pub comapre_users_name : Bytes → List Bytes → Bool
comapre_users_name username [] = false
comapre_users_name username (u ∷ us) =
    if strneq u username username_max_len then true else comapre_users_name username us

module _ {D : Type 0} ⦃dbl : Double D⦄ where
  -- The account without its restriction and with zero values.
  abbrev pub zeroed : Account D → Account D
  zeroed ac = record ac {
    timeout = pos 0;
    start_count = pos 0;
    restricted = pos 0;
    current = reset_stats;
    long_average = reset_stats;
    mid_average = reset_stats;
    short_average = reset_stats;
    info = released;
  }

module _ {D : Type 0} ⦃dbl : Double D⦄ (clock : ℕ → ℤ) (cfg : GovernorConfig) where
  -- The part of dbctl_restrict_set behind the test that the command is about the account. The
  -- first reading of the clock is not used.
  unfoldable pub restrict_by_command : ℤ → Account D → World → Account D × World
  unfolding ◌-ℤ◌ time get_timeout inc_number_of_restricts log_description
  restrict_by_command level ac w =
      let sl = config_get_account_limit cfg ac.id in
      let cur = is_stat_overlimit (λ l. l.current) ac.current sl in
      let (level0, coeff) = asked level ac.restricted in
      let (now, w1) = time clock w in
      let (level1, period) = get_timeout cfg level0 coeff in
      let level2 : ℤ = if cfg.restrict_mode then level0 else level1 in
      let w2 =
        if cfg.statistic_mode
        then (if leb_ℤ (pos 0) level2 then inc_number_of_restricts ac.id all_causes w1 else w1)
        else w1 in
      let (t, w3) = time clock w2 in
      let ac' : Account D = record ac {
        restricted = if cfg.restrict_mode then pos 1000 else level1;
        timeout = if cfg.restrict_mode then int_of_unsigned cfg.l_unlimit else period;
        start_count = t;
        info = record { field_restrict = current_period; field_level_restrict = cur };
      } in
      let w4 = account_restrict cfg ac' sl w3 in
      (
        ac',
        log_description cfg
            (if cfg.restrict_mode
              then prepare_restrict_description_limit cfg ac' sl
              else prepare_restrict_description cfg ac' sl)
            w4,
      )

  -- One call, for the account at `key`: a user that is not in the table is added, and its account
  -- takes the place of the one at `key`.
  unfoldable pub dbctl_restrict_set :
      Bool → Option (Table UserMap) → DbCtlOptions → Bytes → Tables D → World → Tables D × World
  unfolding restrict_by_command comapre_users_name add_user_stats
  dbctl_restrict_set locked map options key g w =
      let (k, g1) : Bytes × Tables D = elim (lookup options.username g.users) [
        | some us ↦ (key, g)
        | none ↦ let (us, g1) = add_user_stats cfg locked map options.username g in (us.account, g1)
      ] in
      elim (lookup k g1.accounts) [
        | none ↦ (g1, w)
        | some ac ↦
            if strneq ac.id options.username username_max_len
              || comapre_users_name options.username ac.users
            then (
              record g1 {
                accounts = insert k (restrict_by_command options.level ac w).0 g1.accounts;
              },
              (restrict_by_command options.level ac w).1,
            )
            else (g1, w)
      ]

  unfoldable pub dbctl_unrestrict_set : DbCtlOptions → Account D → World → Account D × World
  unfolding check_restrict account_unrestrict emit
  dbctl_unrestrict_set options ac w =
      if streq ac.id options.username
      then (let (over, ac1, w1) = check_restrict clock cfg (zeroed ac) w in
          if over
          then (ac1, emit (no_unrestrict_yet ac1.id ac1.timeout ac1.start_count) w1)
          else (ac1, account_unrestrict cfg ac1 w1))
      else (ac, w)

  unfoldable pub dbctl_unrestrict_all_set : Account D → World → Account D × World
  unfolding account_unrestrict
  dbctl_unrestrict_all_set ac w =
      (zeroed ac, if eqb_ℤ ac.timeout (pos 0) then w else account_unrestrict cfg ac w)
