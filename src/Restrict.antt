-- ===== src/Restrict.antt =====
-- calc_stats.c: the decision to restrict an account, in the two modes of the governor. In the
-- period mode an account climbs through four levels of growing timeouts; in the limit mode it is
-- restricted for `l_unlimit` seconds at a time. `clock` is what `time ()` returns, call by call.
pub mod Level
pub mod Check
pub mod Analyze
pub mod LimitMode
pub mod PeriodMode
pub mod Statistics
pub mod Dbctl
mod Tests
use mysql_governor.Base.{
  ℕ, ◌+◌, Bool, true, false, ◌||◌, Option, none, some, if◌then◌else◌, ℤ, pos, ◌+ℤ◌, ltb_ℤ, eqb_ℤ,
  int_of_unsigned, Bytes, lookup, insert,
}
use mysql_governor.Base.Double.{Double}
use mysql_governor.Data.{
  FieldName, cpu_param, read_param, write_param, PeriodName, current_period, short_period,
  mid_period, long_period, StatsCfg, GovernorConfig,
}
use mysql_governor.Account.{
  Account, Description, Cause, StatisticsRestrictInfo, World, restrict_logged, time, emit,
}
use mysql_governor.Overlimit.{config_get_account_limit, is_stat_overlimit, is_over}
use mysql_governor.LogDecoder.{prepare_restrict_description, prepare_restrict_description_limit}
use mysql_governor.Commands.{account_restrict}

-- The clamping of `restrict_level + penalty` to the levels 0 to 3.
unfoldable pub clamp_level : ℤ → ℤ
clamp_level l =
    let l' : ℤ = if ltb_ℤ (pos 3) l then pos 3 else l in if ltb_ℤ l' (pos 0) then pos 0 else l'

-- The switch on the level. The configured timeouts are `unsigned`, the result is an `int`.
unfoldable pub level_timeout : GovernorConfig → ℤ → ℤ
level_timeout cfg l =
    if eqb_ℤ l (pos 0)
    then int_of_unsigned cfg.level1
    else if eqb_ℤ l (pos 1)
    then int_of_unsigned cfg.level2
    else if eqb_ℤ l (pos 2)
    then int_of_unsigned cfg.level3
    else int_of_unsigned cfg.level4

-- The new level, that the source writes through the pointer, and the timeout.
unfoldable pub get_timeout : GovernorConfig → ℤ → ℤ → ℤ × ℤ
unfolding clamp_level level_timeout
get_timeout cfg restrict_level penalty =
    let l : ℤ = clamp_level (restrict_level +ℤ penalty) in (l, level_timeout cfg l)

-- `|=`
abbrev pub join_cause : Cause → Cause → Cause
join_cause a b = record {
  by_cpu = a.by_cpu || b.by_cpu;
  by_read = a.by_read || b.by_read;
  by_write = a.by_write || b.by_write;
}

abbrev pub no_cause : Cause
no_cause = record { by_cpu = false; by_read = false; by_write = false }

unfoldable pub get_cause_of_restrict : FieldName → Cause
get_cause_of_restrict cpu_param = record no_cause { by_cpu = true }
get_cause_of_restrict read_param = record no_cause { by_read = true }
get_cause_of_restrict write_param = record no_cause { by_write = true }
get_cause_of_restrict _ = no_cause

counted : Option StatisticsRestrictInfo → Cause → StatisticsRestrictInfo
counted none cause = record { number_of_restricts = 1; cause_of_restricts = cause }
counted (some i) cause = record {
  number_of_restricts = i.number_of_restricts + 1;
  cause_of_restricts = join_cause i.cause_of_restricts cause;
}

-- IncNumberOfRestricts
unfoldable pub inc_number_of_restricts : Bytes → Cause → World → World
unfolding counted
inc_number_of_restricts username cause w = record w {
  restricts = insert username (counted (lookup username w.restricts) cause) w.restricts;
}

module _ (cfg : GovernorConfig) where
  count_restrict : Bytes → FieldName → World → World
  unfolding inc_number_of_restricts get_cause_of_restrict
  count_restrict id cur w =
      if cfg.statistic_mode then inc_number_of_restricts id (get_cause_of_restrict cur) w else w

  log_description : Description → World → World
  unfolding emit
  log_description d w = elim cfg.restrict_log [ none ↦ w | some _ ↦ emit (restrict_logged d) w ]

module _ {D : Type 0} ⦃dbl : Double D⦄ (cfg : GovernorConfig) where
  restrict_if_new : ℤ → Account D → StatsCfg → World → World
  restrict_if_new old ac sl w = if eqb_ℤ old (pos 0) then account_restrict cfg ac sl w else w

abbrev restricted_by : {D : Type 0} → Account D × World → Bool × Account D × World
restricted_by r = (true, r.0, r.1)

module _ {D : Type 0} ⦃dbl : Double D⦄ (clock : ℕ → ℤ) (cfg : GovernorConfig) where
  -- One of the four like branches of check_restrict, for the period `p` whose average exceeds its
  -- limit in the field `over`; `cur` is the outcome of the test of the current values.
  unfoldable pub enforce :
      ℤ → PeriodName → FieldName → FieldName → StatsCfg → Account D → World → Account D × World
  unfolding time count_restrict restrict_if_new log_description
  enforce now p over cur sl ac w =
      let (level, period) =
        get_timeout cfg ac.restricted
          (if ltb_ℤ now (ac.start_count +ℤ pos cfg.timeout) then pos 1 else pos 0) in
      let (t, w1) = time clock (count_restrict cfg ac.id cur w) in
      let ac' : Account D = record ac {
        restricted = level;
        timeout = period;
        start_count = t;
        info = record { field_restrict = p; field_level_restrict = over };
      } in
      let w2 = restrict_if_new cfg ac.restricted ac' sl w1 in
      (ac', log_description cfg (prepare_restrict_description cfg ac' sl) w2)

  -- One of the four like branches of check_restrict_limit.
  unfoldable pub enforce_limit :
      PeriodName → FieldName → FieldName → StatsCfg → Account D → World → Account D × World
  unfolding time count_restrict restrict_if_new log_description
  enforce_limit p over cur sl ac w =
      let (t, w1) = time clock (count_restrict cfg ac.id cur w) in
      let ac' : Account D = record ac {
        restricted = pos 1000;
        timeout = int_of_unsigned cfg.l_unlimit;
        start_count = t;
        info = record { field_restrict = p; field_level_restrict = over };
      } in
      let w2 = restrict_if_new cfg ac.restricted ac' sl w1 in
      (ac', log_description cfg (prepare_restrict_description_limit cfg ac' sl) w2)

  unfoldable pub check_restrict : Account D → World → Bool × Account D × World
  unfolding time
  check_restrict ac w =
      let sl = config_get_account_limit cfg ac.id in
      let cur = is_stat_overlimit (λ l. l.current) ac.current sl in
      let short = is_stat_overlimit (λ l. l.short) ac.short_average sl in
      let mid = is_stat_overlimit (λ l. l.mid) ac.mid_average sl in
      let long = is_stat_overlimit (λ l. l.long) ac.long_average sl in
      let (now, w1) = time clock w in
      if is_over cur
      then restricted_by (enforce now current_period cur cur sl ac w1)
      else if is_over short
      then restricted_by (enforce now short_period short cur sl ac w1)
      else if is_over mid
      then restricted_by (enforce now mid_period mid cur sl ac w1)
      else if is_over long
      then restricted_by (enforce now long_period long cur sl ac w1)
      else (false, ac, w1)

  unfoldable pub check_restrict_limit : Account D → World → Bool × Account D × World
  unfolding time
  check_restrict_limit ac w =
      let sl = config_get_account_limit cfg ac.id in
      let cur = is_stat_overlimit (λ l. l.current) ac.current sl in
      let short = is_stat_overlimit (λ l. l.short) ac.short_average sl in
      let mid = is_stat_overlimit (λ l. l.mid) ac.mid_average sl in
      let long = is_stat_overlimit (λ l. l.long) ac.long_average sl in
      let (now, w1) = time clock w in
      if is_over cur
      then restricted_by (enforce_limit current_period cur cur sl ac w1)
      else if is_over short
      then restricted_by (enforce_limit short_period short cur sl ac w1)
      else if is_over mid
      then restricted_by (enforce_limit mid_period mid cur sl ac w1)
      else if is_over long
      then restricted_by (enforce_limit long_period long cur sl ac w1)
      else (false, ac, w1)
