-- ===== src/Restrict/PeriodMode.antt =====
-- account_analyze: one pass over an account in the period mode, behind the guards.
pub mod Ladder
pub mod Repeat
use mysql_governor.Base.{
  ℕ, ◌+◌, ◌≡◌, refl, ◌∙◌, Bool, true, false, not, ◌&&◌, ◌||◌, Option, none, some, arith,
  if◌then◌else◌, ℤ, pos, ◌+ℤ◌, ltb_ℤ, leb_ℤ, eqb_ℤ,
}
use mysql_governor.Base.Double.{Double}
use mysql_governor.Data.{norestrict_param, no_period, unfreeze, GovernorConfig}
use mysql_governor.Account.{Account, World, time, emit}
use mysql_governor.Overlimit.{config_get_account_limit}
use mysql_governor.Overlimit.Violation.{violation, violation_of_samples}
use mysql_governor.Commands.Queue.{enqueue, freezes, queue-account_unrestrict}
use mysql_governor.Restrict.{check_restrict}
use mysql_governor.Restrict.Check.{
  Violated, requeued, escalated, check_restrict-none, check_restrict-some,
}
use mysql_governor.Restrict.Analyze.{expire, watch, account_analyze}
use mysql_governor.Restrict.LimitMode.{IsGoverned, freed, has_expired}

-- The account whose timeout has ended, before it is checked again.
abbrev pub paroled : {D : Type 0} → Account D → ℤ → Account D
paroled ac start = record ac {
  timeout = pos 0;
  start_count = start;
  info = record { field_restrict = no_period; field_level_restrict = norestrict_param };
}

abbrev pub is_idle : {D : Type 0} → Account D → Bool
is_idle ac = eqb_ℤ (pos 0) ac.timeout

module _ {D : Type 0} ⦃dbl : Double D⦄ (clock : ℕ → ℤ) (cfg : GovernorConfig) where
  -- The penalty period is over at `now`.
  abbrev pub is_forgiven : Account D → ℤ → Bool
  is_forgiven ac now = ltb_ℤ (pos 0) ac.start_count && leb_ℤ (ac.start_count +ℤ pos cfg.timeout) now

  -- What a pass does with an account whose violation is given. The readings of the clock are
  -- numbered from the first.
  abbrev pub PeriodStep : Option Violated → Account D → World → Account D × World → Type 0
  PeriodStep none ac w r =
      (r.0 ≡ (
        if is_idle ac
        then (if is_forgiven ac (clock (w.reads + 1)) then freed ac else ac)
        else if has_expired ac (clock w.reads)
        then paroled ac (clock (w.reads + 1))
        else ac))
      × (r.1.command_list ≡ (
          if not (is_idle ac) && has_expired ac (clock w.reads)
          then enqueue unfreeze ac.users w.command_list
          else w.command_list))
  PeriodStep (some v) ac w r =
      (r.0 ≡ (
        if is_idle ac
        then escalated clock cfg ac (clock w.reads) (clock (w.reads + 1)) v
        else if has_expired ac (clock w.reads)
        then escalated clock cfg (paroled ac (clock (w.reads + 1))) (clock (w.reads + 1 + 1))
            (clock (w.reads + 1 + 1 + 1)) v
        else ac))
      × (r.1.command_list ≡ (
          if is_idle ac || has_expired ac (clock w.reads)
          then requeued cfg ac w.command_list
          else w.command_list))

  abbrev pub violated : Account D → Option Violated
  violated ac = violation ac (config_get_account_limit cfg ac.id)

  expire-none :
      (ac : Account D) (w : World)
      → freezes cfg ≡ true
      → violated ac ≡ none
      → ((expire clock cfg ac w).0 ≡ paroled ac (clock w.reads))
        × ((expire clock cfg ac w).1.command_list ≡ enqueue unfreeze ac.users w.command_list)
  unfolding expire time emit
  expire-none ac w h e =
      let ac1 = paroled ac (clock w.reads) in
      let w1 = record w { reads = w.reads + 1 } in
      let quiet = check_restrict-none clock cfg ac1 w1 (
        violation_of_samples ac (config_get_account_limit cfg ac.id) ac.restricted (pos 0)
          (clock w.reads) ac1.info
        ∙ e) in
      (
        rw quiet refl,
        rw quiet (queue-account_unrestrict cfg ac1 (record w1 { reads = w1.reads + 1 }) h),
      )

  expire-some :
      (ac : Account D) (w : World) {v : Violated}
      → violated ac ≡ some v
      → ((expire clock cfg ac w).0
          ≡ escalated clock cfg
              (paroled ac (clock w.reads))
              (clock (w.reads + 1))
              (clock (w.reads + 1 + 1))
              v)
        × ((expire clock cfg ac w).1.command_list ≡ requeued cfg ac w.command_list)
  unfolding expire time emit
  expire-some ac w e =
      let ac1 = paroled ac (clock w.reads) in
      let w1 = record w { reads = w.reads + 1 } in
      let (over, left, queue) = check_restrict-some clock cfg ac1 w1 (
        violation_of_samples ac (config_get_account_limit cfg ac.id) ac.restricted (pos 0)
          (clock w.reads) ac1.info
        ∙ e) in
      (ground arith, ground arith)

  watch_idle :
      (ac : Account D) (w : World)
      → is_idle ac ≡ true
      → ((watch clock cfg ac w).0 ≡ (if is_forgiven ac (clock w.reads) then freed ac else ac))
        × ((watch clock cfg ac w).1.command_list ≡ w.command_list)
  unfolding watch time emit
  watch_idle ac w idle = (ground arith, ground arith)

  -- A running timeout: only its end leads to an action.
  watch_held :
      (ac : Account D) (w : World)
      → is_idle ac ≡ false
      → watch clock cfg ac w ≡ (
          if has_expired ac (clock w.reads)
          then expire clock cfg ac (record w { reads = w.reads + 1 })
          else (ac, record w { reads = w.reads + 1 }))
  unfolding watch time
  watch_held ac w held = ground arith

  abbrev checked_then_watched : Bool × Account D × World → Account D × World
  checked_then_watched r = if r.0 then (r.1, r.2) else watch clock cfg r.1 r.2

  governed_pass :
      (ac : Account D) (w : World)
      → IsGoverned cfg ac
      → account_analyze clock cfg ac w ≡ (
          if is_idle ac
          then checked_then_watched (check_restrict clock cfg ac w)
          else watch clock cfg ac w)
  unfolding account_analyze
  governed_pass ac w g = ground arith

  -- One pass of the period mode over a governed account. An account with no timeout is escalated
  -- if it violates a limit, and set free once the penalty period has passed. One whose timeout
  -- runs is left alone until it ends: then it is escalated if it still violates a limit, and
  -- otherwise its users are unfrozen while it keeps its level.
  pub account_analyze-PeriodStep :
      (ac : Account D) (w : World)
      → IsGoverned cfg ac
      → PeriodStep (violated ac) ac w (account_analyze clock cfg ac w)
  account_analyze-PeriodStep ac w g =
      rw (governed_pass ac w g) (by_timeout (violated ac) (is_idle ac) refl refl)
    where
      by_timeout :
          (v : Option Violated) (idle : Bool)
          → violated ac ≡ v
          → is_idle ac ≡ idle
          → PeriodStep v ac w (
              if idle
              then checked_then_watched (check_restrict clock cfg ac w)
              else watch clock cfg ac w)
      by_timeout none true e idle =
          let (left, queue) = watch_idle ac (record w { reads = w.reads + 1 }) idle in
          rw (check_restrict-none clock cfg ac w e) (ground arith, ground arith)
      by_timeout (some v) true e idle =
          let (over, left, queue) = check_restrict-some clock cfg ac w e in
          (ground arith, ground arith)
      by_timeout none false e held =
          let (left, queue) = expire-none ac (record w { reads = w.reads + 1 }) g.0 e in
          (ground (arith, watch_held ac w held), ground (arith, watch_held ac w held))
      by_timeout (some v) false e held =
          let (left, queue) = expire-some ac (record w { reads = w.reads + 1 }) e in
          (ground (arith, watch_held ac w held), ground (arith, watch_held ac w held))
