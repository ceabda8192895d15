-- ===== src/Restrict/PeriodMode/Repeat.antt =====
-- account_analyze and check_restrict: an account that violates its limits again inside the
-- penalty period, after its timeout has ended.
use mysql_governor.Base.{
  ℕ, ◌+◌, ◌≡◌, refl, subst, Bool, true, false, none, some, arith, ℤ, pos, ◌<ℤ◌, Bytes,
}
use mysql_governor.Base.Double.{Double, hundredths}
use mysql_governor.Data.{unfreeze, GovernorConfig}
use mysql_governor.Account.{Account, World}
use mysql_governor.Overlimit.Violation.{Samples, with_samples}
use mysql_governor.Commands.Queue.{enqueue}
use mysql_governor.Commands.Replay.{Settles, Settles-enqueue}
use mysql_governor.Restrict.Check.{Violated, escalated}
use mysql_governor.Restrict.Analyze.{account_analyze}
use mysql_governor.Restrict.LimitMode.{IsGoverned, has_expired}
use mysql_governor.Restrict.PeriodMode.{
  is_idle, paroled, PeriodStep, violated, account_analyze-PeriodStep,
}

module _ {D : Type 0} ⦃dbl : Double D⦄ (clock : ℕ → ℤ) (cfg : GovernorConfig)
    (before : Bytes → Bool) where
  -- The end of a timeout within limits: the users are free, the level stays.
  parole :
      (ac : Account D) (w : World) (x : Bool)
      → IsGoverned cfg ac
      → is_idle ac ≡ false
      → has_expired ac (clock w.reads) ≡ true
      → violated clock cfg ac ≡ none
      → Settles before ac.users x w.command_list
      → let r = account_analyze clock cfg ac w in
        (r.0 ≡ paroled ac (clock (w.reads + 1))) × Settles before ac.users false r.1.command_list
  parole ac w x g held over calm s =
      let step =
        subst (λ v. PeriodStep clock cfg v ac w (account_analyze clock cfg ac w)) calm
          (account_analyze-PeriodStep clock cfg ac w g) in
      let settled = Settles-enqueue before ac.users unfreeze false x w.command_list (λ b. refl) s in
      let queue : (account_analyze clock cfg ac w).1.command_list
          ≡ enqueue unfreeze ac.users w.command_list =
        ground arith in
      (ground arith, rw queue settled)

  -- A violation above level 0 with no timeout: the account is escalated, and the queue stays.
  pub reoffence :
      (ac : Account D) (w : World) {v : Violated}
      → IsGoverned cfg ac
      → is_idle ac ≡ true
      → pos 0 <ℤ ac.restricted
      → violated clock cfg ac ≡ some v
      → let r = account_analyze clock cfg ac w in
        (r.0 ≡ escalated clock cfg ac (clock w.reads) (clock (w.reads + 1)) v)
        × (r.1.command_list ≡ w.command_list)
  reoffence ac w {v} g idle level e =
      let step =
        subst (λ o. PeriodStep clock cfg o ac w (account_analyze clock cfg ac w)) e
          (account_analyze-PeriodStep clock cfg ac w g) in
      (ground arith, ground arith)

  -- Let the timeout of an account above level 0 end within limits, and let the next pass find a
  -- violation. Then the account has a new timeout and its violation on record, but all its users
  -- are free, and stay so.
  pub repeat_offender_is_free :
      (ac : Account D) (w : World) (x : Bool) (s : Samples D) {v : Violated}
      → IsGoverned cfg ac
      → is_idle ac ≡ false
      → has_expired ac (clock w.reads) ≡ true
      → pos 0 <ℤ ac.restricted
      → violated clock cfg ac ≡ none
      → violated clock cfg (with_samples (paroled ac (clock (w.reads + 1))) s) ≡ some v
      → Settles before ac.users x w.command_list
      → let r = account_analyze clock cfg ac w in
        let r' = account_analyze clock cfg (with_samples r.0 s) r.1 in
        (n : ℕ) × (r'.0
          ≡ escalated clock cfg
              (with_samples (paroled ac (clock (w.reads + 1))) s)
              (clock n)
              (clock (n + 1))
              v)
        × Settles before ac.users false r'.1.command_list
  repeat_offender_is_free ac w x s {v} g held over level calm again settled =
      let (left, free) = parole ac w x g held over calm settled in
      let r = account_analyze clock cfg ac w in
      let (left', queue) =
        reoffence (with_samples (paroled ac (clock (w.reads + 1))) s) r.1 g refl level again in
      (r.1.reads, rw left left', rw (left, queue) free)
