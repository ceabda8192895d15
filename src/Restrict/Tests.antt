-- ===== src/Restrict/Tests.antt =====
-- Runs of the restriction code, and its theorems at concrete accounts.
use mysql_governor.Base.{
  ℕ, ◌+◌, ◌≡◌, refl, inl, false, none, some, List, [], ◌∷◌, arith, if◌then◌else◌, replicate, pos,
  ◌+ℤ◌, ◌-ℤ◌, ◌*ℤ◌, div_ℤ, streq, lookup, insert,
}
use mysql_governor.Base.Double.{
  Hundredths, hundredths, div_hundredths, ceil_hundredths, floor_hundredths,
}
use mysql_governor.Data.{cpu_param, current_period, short_period, mid_period, long_period}
use mysql_governor.Fixtures.{
  config, limits, account, calm, world, clock, nobody, busy, quiet, tired,
}
use mysql_governor.Account.{Account, time, emit}
use mysql_governor.Overlimit.{
  config_get_account_limit, is_stat_overlimit, is_over, cpu_over, io_over,
}
use mysql_governor.Overlimit.Violation.{Samples, violation, with_samples}
use mysql_governor.Overlimit.First.{IsFirst, order, is_stat_overlimit-IsFirst}
use mysql_governor.Commands.{account_restrict, account_unrestrict}
use mysql_governor.Commands.Replay.{frozen, Settles}
use mysql_governor.Restrict.{
  get_timeout, enforce, enforce_limit, check_restrict, check_restrict_limit, get_cause_of_restrict,
  inc_number_of_restricts,
}
use mysql_governor.Restrict.Level.{get_timeout_lem}
use mysql_governor.Restrict.Check.{
  Outcome, escalated, limited, check_restrict-Outcome, check_restrict_limit-Outcome,
}
use mysql_governor.Restrict.Analyze.{
  account_analyze, account_analyze_limit, watch, watch_limit, expire,
}
use mysql_governor.Restrict.LimitMode.{LimitStep, account_analyze_limit-LimitStep}
use mysql_governor.Restrict.LimitMode.Frozen
use mysql_governor.Restrict.LimitMode.Frozen.{Agrees, passes-Agrees}
use mysql_governor.Restrict.PeriodMode.{PeriodStep, account_analyze-PeriodStep, paroled}
use mysql_governor.Restrict.PeriodMode.Ladder
use mysql_governor.Restrict.PeriodMode.Ladder.{IsPlaced, passes-IsPlaced}
use mysql_governor.Restrict.PeriodMode.Repeat.{repeat_offender_is_free}

program : Unit {0}
unfolding config_get_account_limit is_stat_overlimit cpu_over io_over account_restrict
    account_unrestrict get_timeout enforce enforce_limit check_restrict check_restrict_limit
    get_cause_of_restrict inc_number_of_restricts account_analyze account_analyze_limit watch
    watch_limit expire time emit violation lookup insert streq frozen ◌+ℤ◌ ◌-ℤ◌ ◌*ℤ◌ div_ℤ
    div_hundredths ceil_hundredths floor_hundredths
program = tt

first_offence : (account_analyze clock config account world).0.timeout ≡ pos 60
unfolding program
first_offence = refl

-- The four restrictions of an account that never rests climb the ladder.
abbrev after : ℕ → List (Samples Hundredths)
after n = replicate n busy

never_rests :
    ((Ladder.passes clock config (after 1) account world).0.restricted ≡ pos 0)
    × ((Ladder.passes clock config (after 1) account world).0.timeout ≡ pos 60)
unfolding program Ladder.passes
never_rests = (refl, refl)

-- The second restriction inside the penalty period is a level up.
abbrev held : Account Hundredths
held = record calm { restricted = pos 1; timeout = pos 900; start_count = pos 90000 }

busy_violation : violation account config.default_limit ≡ some (current_period, cpu_param)
unfolding program
busy_violation = refl

get_timeout_lem_example :
    ((get_timeout config (pos 3) (pos 1)).0 ≡ pos 3)
    × (some (get_timeout config (pos 3) (pos 1)).1 ≡ some (pos 86400))
unfolding program
get_timeout_lem_example = get_timeout_lem config (pos 3) (pos 1)

check_restrict-Outcome_example :
    Outcome clock config
      (escalated clock config account (clock 0) (clock 1))
      (some (current_period, cpu_param))
      account
      world
      (check_restrict clock config account world)
unfolding program
check_restrict-Outcome_example = check_restrict-Outcome clock config account world

check_restrict_limit-Outcome_example :
    Outcome clock config
      (limited clock config account (clock 1))
      (some (current_period, cpu_param))
      account
      world
      (check_restrict_limit clock config account world)
unfolding program
check_restrict_limit-Outcome_example = check_restrict_limit-Outcome clock config account world

tired_account : Account Hundredths
tired_account = with_samples account tired

account_analyze_limit-LimitStep_example :
    LimitStep clock config
      (violation account config.default_limit)
      account
      world
      (account_analyze_limit clock config account world)
unfolding program
account_analyze_limit-LimitStep_example =
    account_analyze_limit-LimitStep clock config account world (refl, refl) (inl refl)

agreed : Agrees config nobody account world
unfolding program
agreed = record { governed = (refl, refl); timed = inl refl; settled = λ u m. refl }

passes-Agrees_example :
    Agrees config nobody
      (Frozen.passes clock config nobody (busy ∷ quiet ∷ busy ∷ []) account world).0
      (Frozen.passes clock config nobody (busy ∷ quiet ∷ busy ∷ []) account world).1
passes-Agrees_example =
    passes-Agrees clock config nobody (λ n. omega arith) (busy ∷ quiet ∷ busy ∷ []) account world
      agreed

account_analyze-PeriodStep_example :
    PeriodStep clock config
      (violation account config.default_limit)
      account
      world
      (account_analyze clock config account world)
unfolding program
account_analyze-PeriodStep_example =
    account_analyze-PeriodStep clock config account world (refl, refl)

placed : IsPlaced config account
unfolding program
placed = record { governed = (refl, refl); low = omega arith; high = omega arith; timed = inl refl }

passes-IsPlaced_example :
    IsPlaced config (Ladder.passes clock config (busy ∷ quiet ∷ busy ∷ []) account world).0
passes-IsPlaced_example =
    passes-IsPlaced clock config (busy ∷ quiet ∷ busy ∷ []) account world placed

-- An account at level 1 whose timeout ends within limits, and that is busy again.
repeat_offender_is_free_example :
    let r = account_analyze clock config held world in
    let r' = account_analyze clock config (with_samples r.0 busy) r.1 in
    (n : ℕ) × (r'.0
      ≡ escalated clock config
          (with_samples (paroled held (clock 1)) busy)
          (clock n)
          (clock (n + 1))
          (current_period, cpu_param))
    × Settles nobody held.users false r'.1.command_list
unfolding program
repeat_offender_is_free_example =
    repeat_offender_is_free clock config nobody held world false busy (refl, refl) refl refl
      (omega arith) refl refl (λ u m. refl)

is_stat_overlimit-IsFirst_example : IsFirst tired_account limits order (
    if is_over (is_stat_overlimit (λ l. l.current) tired_account.current limits)
    then some (current_period, is_stat_overlimit (λ l. l.current) tired_account.current limits)
    else if is_over (is_stat_overlimit (λ l. l.short) tired_account.short_average limits)
    then some (short_period, is_stat_overlimit (λ l. l.short) tired_account.short_average limits)
    else if is_over (is_stat_overlimit (λ l. l.mid) tired_account.mid_average limits)
    then some (mid_period, is_stat_overlimit (λ l. l.mid) tired_account.mid_average limits)
    else if is_over (is_stat_overlimit (λ l. l.long) tired_account.long_average limits)
    then some (long_period, is_stat_overlimit (λ l. l.long) tired_account.long_average limits)
    else none)
is_stat_overlimit-IsFirst_example = is_stat_overlimit-IsFirst tired_account limits
