-- ===== src/Restrict/Check.antt =====
-- What check_restrict and check_restrict_limit do, against the description of the violation.
use mysql_governor.Base.{
  ℕ, ◌+◌, ◌≡◌, refl, ap, subst, Bool, true, false, Option, none, some, arith, if◌then◌else◌, ℤ, pos,
  ◌+ℤ◌, ltb_ℤ, eqb_ℤ, int_of_unsigned, Bytes,
}
use mysql_governor.Base.Double.{Double, hundredths}
use mysql_governor.Data.{
  FieldName, PeriodName, current_period, short_period, mid_period, long_period, StatsCfg, freeze,
  GovernorConfig,
}
use mysql_governor.Account.{Account, Description, World, time, emit}
use mysql_governor.Overlimit.{config_get_account_limit, is_stat_overlimit}
use mysql_governor.Overlimit.Violation.{violation, violation-tests}
use mysql_governor.Commands.Queue.{Queue, enqueue, freezes, queue-account_restrict}
use mysql_governor.Restrict.{
  get_timeout, inc_number_of_restricts, count_restrict, log_description, restrict_if_new, enforce,
  enforce_limit, restricted_by, check_restrict, check_restrict_limit,
}

abbrev pub Violated : Type 0
Violated = PeriodName × FieldName

-- The account whose restriction fields are set anew.
abbrev pub restrict_to : {D : Type 0} → Account D → ℤ × ℤ → ℤ → Violated → Account D
restrict_to ac level start v = record ac {
  restricted = level.0;
  timeout = level.1;
  start_count = start;
  info = record { field_restrict = v.0; field_level_restrict = v.1 };
}

-- The queue after a restriction: only an account at level 0 has its users frozen.
abbrev pub requeued : {D : Type 0} → GovernorConfig → Account D → Queue → Queue
requeued cfg ac q =
    if eqb_ℤ ac.restricted (pos 0)
    then (if freezes cfg then enqueue freeze ac.users q else q)
    else q

module _ (cfg : GovernorConfig) where
  reads-count_restrict :
      (id : Bytes) (cur : FieldName) (w : World) → (count_restrict cfg id cur w).reads ≡ w.reads
  unfolding count_restrict inc_number_of_restricts
  reads-count_restrict id cur w = ground arith

  queue-count_restrict :
      (id : Bytes) (cur : FieldName) (w : World)
      → (count_restrict cfg id cur w).command_list ≡ w.command_list
  unfolding count_restrict inc_number_of_restricts
  queue-count_restrict id cur w = ground arith

  queue-log_description :
      (d : Description) (w : World) → (log_description cfg d w).command_list ≡ w.command_list
  unfolding log_description emit
  queue-log_description d w = ground arith

module _ {D : Type 0} ⦃dbl : Double D⦄ (cfg : GovernorConfig) where
  queue-restrict_if_new :
      (old : ℤ) (ac : Account D) (sl : StatsCfg) (w : World)
      → (restrict_if_new cfg old ac sl w).command_list ≡ (
          if eqb_ℤ old (pos 0)
          then (if freezes cfg then enqueue freeze ac.users w.command_list else w.command_list)
          else w.command_list)
  unfolding restrict_if_new
  queue-restrict_if_new old ac sl w = ground (arith, queue-account_restrict cfg ac sl w)

  -- The end of a branch, behind the counting of the restriction.
  queue_of_branch :
      (id : Bytes) (cur : FieldName) (ac ac' : Account D) (sl : StatsCfg) (d : Description)
      (w w' : World)
      → ac'.users ≡ ac.users
      → w'.command_list ≡ (count_restrict cfg id cur w).command_list
      → (log_description cfg d (restrict_if_new cfg ac.restricted ac' sl w')).command_list
        ≡ requeued cfg ac w.command_list
  queue_of_branch id cur ac ac' sl d w w' same e = ground (
    arith,
    queue-log_description cfg d (restrict_if_new cfg ac.restricted ac' sl w'),
    queue-restrict_if_new ac.restricted ac' sl w',
    queue-count_restrict cfg id cur w,
  )

module _ {D : Type 0} ⦃dbl : Double D⦄ (clock : ℕ → ℤ) (cfg : GovernorConfig) where
  -- The account that a violation leaves, if the first reading is `now` and the second `start`:
  -- inside the penalty period it climbs a level.
  abbrev pub escalated : Account D → ℤ → ℤ → Violated → Account D
  escalated ac now start v =
      restrict_to ac
        (get_timeout cfg ac.restricted
          (if ltb_ℤ now (ac.start_count +ℤ pos cfg.timeout) then pos 1 else pos 0))
        start v

  -- The same in the limit mode.
  abbrev pub limited : Account D → ℤ → Violated → Account D
  limited ac start v = restrict_to ac (pos 1000, int_of_unsigned cfg.l_unlimit) start v

  -- What a check returns where the violation is `found` and leads to the account `target`.
  abbrev pub Outcome :
      (Violated → Account D)
      → Option Violated
      → Account D
      → World
      → Bool × Account D × World
      → Type 0
  Outcome target none ac w r = r ≡ (false, ac, record w { reads = w.reads + 1 })
  Outcome target (some v) ac w r =
      (r.0 ≡ true) × (r.1 ≡ target v) × (r.2.command_list ≡ requeued cfg ac w.command_list)

  -- What one branch of a check does.
  abbrev Enforces :
      (Violated → Account D)
      → Account D
      → World
      → (PeriodName → FieldName → Account D × World)
      → Type 0
  Enforces target ac w run =
      (p : PeriodName) (over : FieldName)
      → ((run p over).0 ≡ target (p, over))
        × ((run p over).1.command_list ≡ requeued cfg ac w.command_list)

  -- The four branches are one after the other.
  cascade :
      (a b c d : Bool) (cur short mid long : FieldName) (target : Violated → Account D)
      (run : PeriodName → FieldName → Account D × World) (ac : Account D) (w : World)
      → Enforces target ac w run
      → Outcome target
          (if a
            then some (current_period, cur)
            else if b
            then some (short_period, short)
            else if c
            then some (mid_period, mid)
            else if d
            then some (long_period, long)
            else none)
          ac
          w
          (if a
            then restricted_by (run current_period cur)
            else if b
            then restricted_by (run short_period short)
            else if c
            then restricted_by (run mid_period mid)
            else if d
            then restricted_by (run long_period long)
            else (false, ac, record w { reads = w.reads + 1 }))
  cascade true _ _ _ cur short mid long target run ac w h =
      let (e, q) = h current_period cur in (refl, e, q)
  cascade false true _ _ cur short mid long target run ac w h =
      let (e, q) = h short_period short in (refl, e, q)
  cascade false false true _ cur short mid long target run ac w h =
      let (e, q) = h mid_period mid in (refl, e, q)
  cascade false false false true cur short mid long target run ac w h =
      let (e, q) = h long_period long in (refl, e, q)
  cascade false false false false cur short mid long target run ac w h = refl

  module _ (cur : FieldName) (sl : StatsCfg) (ac : Account D) (w : World) where
    ticked : World
    ticked = record w { reads = w.reads + 1 }

    enforce-Enforces :
        Enforces
          (escalated ac (clock w.reads) (clock (w.reads + 1)))
          ac
          w
          (λ p over. enforce clock cfg (clock w.reads) p over cur sl ac ticked)
    unfolding enforce time ticked
    enforce-Enforces p over = (
      ap (λ n. escalated ac (clock w.reads) (clock n) (p, over))
          (reads-count_restrict cfg ac.id cur ticked),
      queue_of_branch cfg ac.id cur ac _ sl _ ticked _ refl refl,
    )

    enforce_limit-Enforces :
        Enforces
          (limited ac (clock (w.reads + 1)))
          ac
          w
          (λ p over. enforce_limit clock cfg p over cur sl ac ticked)
    unfolding enforce_limit time ticked
    enforce_limit-Enforces p over = (
      ap (λ n. limited ac (clock n) (p, over)) (reads-count_restrict cfg ac.id cur ticked),
      queue_of_branch cfg ac.id cur ac _ sl _ ticked _ refl refl,
    )

  module _ (ac : Account D) (w : World) where
    -- check_restrict answers whether the account violates a limit. If it does not, account and
    -- queue stay; if it does, the first violation is stored, the account is escalated, and its
    -- users are frozen only if it was at level 0 and the configuration freezes users.
    pub check_restrict-Outcome :
        Outcome
          (escalated ac (clock w.reads) (clock (w.reads + 1)))
          (violation ac (config_get_account_limit cfg ac.id))
          ac
          w
          (check_restrict clock cfg ac w)
    unfolding check_restrict time ticked
    check_restrict-Outcome =
        let sl = config_get_account_limit cfg ac.id in
        let cur = is_stat_overlimit (λ l. l.current) ac.current sl in
        rw (violation-tests ac sl) (
          cascade _ _ _ _ cur _ _ _ _
            (λ p over. enforce clock cfg (clock w.reads) p over cur sl ac (ticked cur sl ac w)) ac w
            (enforce-Enforces cur sl ac w))

    -- check_restrict_limit answers whether the account violates a limit. If it does not, account and
    -- queue stay; if it does, the first violation is stored, the account gets level 1000 and the
    -- configured timeout from now on, and its users are frozen only if it was not restricted and the
    -- configuration freezes users.
    pub check_restrict_limit-Outcome :
        Outcome
          (limited ac (clock (w.reads + 1)))
          (violation ac (config_get_account_limit cfg ac.id))
          ac
          w
          (check_restrict_limit clock cfg ac w)
    unfolding check_restrict_limit time ticked
    check_restrict_limit-Outcome =
        let sl = config_get_account_limit cfg ac.id in
        let cur = is_stat_overlimit (λ l. l.current) ac.current sl in
        rw (violation-tests ac sl) (
          cascade _ _ _ _ cur _ _ _ _
            (λ p over. enforce_limit clock cfg p over cur sl ac (ticked cur sl ac w)) ac w
            (enforce_limit-Enforces cur sl ac w))

    -- The two outcomes, by the violation.
    pub check_restrict-none :
        violation ac (config_get_account_limit cfg ac.id) ≡ none
        → check_restrict clock cfg ac w ≡ (false, ac, record w { reads = w.reads + 1 })
    check_restrict-none e =
        subst
          (λ o.
            Outcome (escalated ac (clock w.reads) (clock (w.reads + 1))) o ac w
              (check_restrict clock cfg ac w))
          e check_restrict-Outcome

    pub check_restrict-some :
        {v : Violated}
        → violation ac (config_get_account_limit cfg ac.id) ≡ some v
        → Outcome
            (escalated ac (clock w.reads) (clock (w.reads + 1)))
            (some v)
            ac
            w
            (check_restrict clock cfg ac w)
    check_restrict-some e =
        subst
          (λ o.
            Outcome (escalated ac (clock w.reads) (clock (w.reads + 1))) o ac w
              (check_restrict clock cfg ac w))
          e check_restrict-Outcome

    pub check_restrict_limit-none :
        violation ac (config_get_account_limit cfg ac.id) ≡ none
        → check_restrict_limit clock cfg ac w ≡ (false, ac, record w { reads = w.reads + 1 })
    check_restrict_limit-none e =
        subst
          (λ o.
            Outcome (limited ac (clock (w.reads + 1))) o ac w (check_restrict_limit clock cfg ac w))
          e check_restrict_limit-Outcome

    pub check_restrict_limit-some :
        {v : Violated}
        → violation ac (config_get_account_limit cfg ac.id) ≡ some v
        → Outcome
            (limited ac (clock (w.reads + 1)))
            (some v)
            ac
            w
            (check_restrict_limit clock cfg ac w)
    check_restrict_limit-some e =
        subst
          (λ o.
            Outcome (limited ac (clock (w.reads + 1))) o ac w (check_restrict_limit clock cfg ac w))
          e check_restrict_limit-Outcome
