-- ===== src/Restrict/LimitMode.antt =====
-- account_analyze_limit: one pass over an account in the limit mode, behind the guards.
pub mod Frozen
use mysql_governor.Base.{
  ℕ, ◌+◌, ◌≡◌, refl, ◌⊎◌, Bool, true, false, not, ◌&&◌, Option, none, some, arith, if◌then◌else◌, ℤ,
  pos, ◌+ℤ◌, ◌<ℤ◌, ltb_ℤ, leb_ℤ, eqb_ℤ,
}
use mysql_governor.Base.Double.{Double}
use mysql_governor.Data.{unfreeze, GovernorConfig}
use mysql_governor.Account.{Account, World, time, emit}
use mysql_governor.Overlimit.{config_get_account_limit}
use mysql_governor.Overlimit.Violation.{violation}
use mysql_governor.Commands.Queue.{enqueue, freezes, queue-account_unrestrict}
use mysql_governor.Restrict.{check_restrict_limit}
use mysql_governor.Restrict.Check.{
  Violated, requeued, limited, check_restrict_limit-none, check_restrict_limit-some,
}
use mysql_governor.Restrict.Analyze.{is_ignored, released, watch_limit, account_analyze_limit}

-- The governor acts on the account at all.
abbrev pub IsGoverned : {D : Type 0} → GovernorConfig → Account D → Type 0
IsGoverned cfg ac =
    (freezes cfg ≡ true) × (is_ignored (config_get_account_limit cfg ac.id).mode ≡ false)

-- A running timeout has a start.
abbrev pub IsTimed : {D : Type 0} → Account D → Type 0
IsTimed ac = (ac.timeout ≡ pos 0) ⊎ (pos 0 <ℤ ac.start_count)

abbrev pub freed : {D : Type 0} → Account D → Account D
freed ac = record ac { start_count = pos 0; restricted = pos 0; info = released; timeout = pos 0 }

-- The timeout has run out at `now`.
abbrev pub has_expired : {D : Type 0} → Account D → ℤ → Bool
has_expired ac now =
    ltb_ℤ (pos 0) ac.start_count
    && (not (eqb_ℤ (pos 0) ac.timeout) && leb_ℤ (ac.start_count +ℤ ac.timeout) now)

module _ {D : Type 0} ⦃dbl : Double D⦄ (clock : ℕ → ℤ) (cfg : GovernorConfig) where
  -- What a pass does with an account whose violation is given.
  abbrev pub LimitStep : Option Violated → Account D → World → Account D × World → Type 0
  LimitStep none ac w r =
      (r.0 ≡ (if has_expired ac (clock w.reads) then freed ac else ac))
      × (r.1.command_list ≡ (
          if has_expired ac (clock w.reads)
          then enqueue unfreeze ac.users w.command_list
          else w.command_list))
  LimitStep (some v) ac w r =
      (n : ℕ) × (r.0 ≡ limited clock cfg ac (clock n) v)
      × (r.1.command_list ≡ requeued cfg ac w.command_list)

  -- The account's violation, and what a pass leaves.
  abbrev pub violated : Account D → Option Violated
  violated ac = violation ac (config_get_account_limit cfg ac.id)

  watch_limit-none :
      (ac : Account D) (w : World)
      → freezes cfg ≡ true
      → violated ac ≡ none
      → LimitStep none ac w (watch_limit clock cfg ac w)
  unfolding watch_limit time emit
  watch_limit-none ac w h e =
      let w1 = record w { reads = w.reads + 1 } in
      let quiet = check_restrict_limit-none clock cfg ac w1 e in
      let w2 = record w { reads = w.reads + 1 + 1 } in
      (
        rw quiet (ground arith),
        rw quiet (ground (arith, queue-account_unrestrict cfg (freed ac) w2 h)),
      )

  watch_limit-some :
      (ac : Account D) (w : World) {v : Violated}
      → pos 0 <ℤ ac.start_count
      → violated ac ≡ some v
      → LimitStep (some v) ac w (watch_limit clock cfg ac w)
  unfolding watch_limit time
  watch_limit-some ac w h e =
      let w1 = record w { reads = w.reads + 1 } in
      let (over, left, queue) = check_restrict_limit-some clock cfg ac w1 e in
      ((check_restrict_limit clock cfg ac w1).2.reads, ground arith, ground arith)

  -- Behind the guards, a pass is a check of an account with no timeout, then the watch.
  abbrev checked_then_watched : Bool × Account D × World → Account D × World
  checked_then_watched r = if r.0 then (r.1, r.2) else watch_limit clock cfg r.1 r.2

  governed_pass :
      (ac : Account D) (w : World)
      → IsGoverned cfg ac
      → account_analyze_limit clock cfg ac w ≡ (
          if eqb_ℤ (pos 0) ac.timeout
          then checked_then_watched (check_restrict_limit clock cfg ac w)
          else watch_limit clock cfg ac w)
  unfolding account_analyze_limit
  governed_pass ac w g = ground arith

  -- One pass of the limit mode over an account that is governed and timed. Within limits the
  -- account is freed, and its users unfrozen, exactly when its timeout has run out; else nothing
  -- changes. Beyond a limit its timeout starts again, and its users are frozen if it was free.
  pub account_analyze_limit-LimitStep :
      (ac : Account D) (w : World)
      → IsGoverned cfg ac
      → IsTimed ac
      → LimitStep (violated ac) ac w (account_analyze_limit clock cfg ac w)
  account_analyze_limit-LimitStep ac w g t =
      rw (governed_pass ac w g) (by_timeout (violated ac) (eqb_ℤ (pos 0) ac.timeout) refl refl)
    where
      by_timeout :
          (v : Option Violated) (idle : Bool)
          → violated ac ≡ v
          → eqb_ℤ (pos 0) ac.timeout ≡ idle
          → LimitStep v ac w (
              if idle
              then checked_then_watched (check_restrict_limit clock cfg ac w)
              else watch_limit clock cfg ac w)
      by_timeout none false e held = watch_limit-none ac w g.0 e
      by_timeout (some v) false e held = watch_limit-some ac w (ground arith) e
      by_timeout none true e free =
          let w1 = record w { reads = w.reads + 1 } in
          let quiet = watch_limit-none ac w1 g.0 e in
          rw (check_restrict_limit-none clock cfg ac w e) (ground arith, ground arith)
      by_timeout (some v) true e free =
          let (over, left, queue) = check_restrict_limit-some clock cfg ac w e in
          (w.reads + 1, ground arith, ground arith)
