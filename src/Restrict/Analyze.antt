-- ===== src/Restrict/Analyze.antt =====
-- account_analyze and account_analyze_limit: what one pass over the accounts does with one of them.
use mysql_governor.Base.{
  ℕ, Bool, true, false, not, ◌&&◌, ◌||◌, if◌then◌else◌, ℤ, pos, ◌+ℤ◌, ltb_ℤ, leb_ℤ, eqb_ℤ,
}
use mysql_governor.Base.Double.{Double, hundredths}
use mysql_governor.Data.{
  ModeType, ignore_mode, norestrict_param2, norestrict_param, no_period, RestrictInfo,
  GovernorConfig,
}
use mysql_governor.Account.{
  Account, World, restrict_over, no_unrestrict_yet, penalty_over, time, emit,
}
use mysql_governor.Overlimit.{config_get_account_limit}
use mysql_governor.Commands.{account_unrestrict}
use mysql_governor.Restrict.{check_restrict, check_restrict_limit}

-- `sl->mode != IGNORE_MODE`
abbrev pub is_ignored : ModeType → Bool
is_ignored ignore_mode = true
is_ignored _ = false

abbrev pub released : RestrictInfo
released = record { field_restrict = no_period; field_level_restrict = norestrict_param2 }

module _ {D : Type 0} ⦃dbl : Double D⦄ (clock : ℕ → ℤ) (cfg : GovernorConfig) where
  -- The end of a timeout: the account is checked once more, and released if it is within limits.
  unfoldable pub expire : Account D → World → Account D × World
  unfolding time emit
  expire ac w =
      let (t, w1) = time clock w in
      let ac1 : Account D = record ac {
        timeout = pos 0;
        start_count = t;
        info = record { field_restrict = no_period; field_level_restrict = norestrict_param };
      } in
      let (again, ac2, w2) = check_restrict clock cfg ac1 w1 in
      if again
      then (ac2, emit (no_unrestrict_yet ac2.id ac2.timeout ac2.start_count) w2)
      else (ac2, account_unrestrict cfg ac2 w2)

  -- The part of account_analyze behind its first check.
  unfoldable pub watch : Account D → World → Account D × World
  unfolding time emit
  watch ac w =
      let (now, w1) = time clock w in
      if ltb_ℤ (pos 0) ac.start_count
      then if not (eqb_ℤ ac.timeout (pos 0)) && leb_ℤ (ac.start_count +ℤ ac.timeout) now
        then expire ac w1
        else if leb_ℤ (ac.start_count +ℤ pos cfg.timeout) now && eqb_ℤ ac.timeout (pos 0)
        then (
          record ac { start_count = pos 0; restricted = pos 0; info = released; timeout = pos 0 },
          emit (penalty_over ac.id (pos 0) (pos 0)) w1,
        )
        else (ac, w1)
      else (ac, w1)

  unfoldable pub account_analyze : Account D → World → Account D × World
  account_analyze ac w =
      let (over, ac1, w1) = check_restrict clock cfg ac w in
      if cfg.all_lve || not cfg.use_lve
      then (ac, w)
      else if is_ignored (config_get_account_limit cfg ac.id).mode
      then (ac, w)
      else if eqb_ℤ (pos 0) ac.timeout
      then (if over then (ac1, w1) else watch ac1 w1)
      else watch ac w

  -- The part of account_analyze_limit behind its first check.
  unfoldable pub watch_limit : Account D → World → Account D × World
  unfolding time emit
  watch_limit ac w =
      let (now, w1) = time clock w in
      let (over, ac2, w2) = check_restrict_limit clock cfg ac w1 in
      let (t, w3) = time clock w2 in
      let free : Account D = record ac2 {
        start_count = pos 0;
        restricted = pos 0;
        info = released;
        timeout = pos 0;
      } in
      if ltb_ℤ (pos 0) ac.start_count
      then if over
        then (record ac2 { start_count = t }, w3)
        else if not (eqb_ℤ (pos 0) ac2.timeout) && leb_ℤ (ac2.start_count +ℤ ac2.timeout) now
        then (free, emit (restrict_over ac.id) (account_unrestrict cfg free w2))
        else (ac2, w2)
      else (ac, w1)

  unfoldable pub account_analyze_limit : Account D → World → Account D × World
  account_analyze_limit ac w =
      let (over, ac1, w1) = check_restrict_limit clock cfg ac w in
      if cfg.all_lve || not cfg.use_lve
      then (ac, w)
      else if is_ignored (config_get_account_limit cfg ac.id).mode
      then (ac, w)
      else if eqb_ℤ (pos 0) ac.timeout
      then (if over then (ac1, w1) else watch_limit ac1 w1)
      else watch_limit ac w
