-- ===== src/Restrict/Dbctl/Orders.antt =====
-- What the operations of dbctl leave of an account and of its users.
use mysql_governor.Base.{
  ◌+ℤ◌, ltb_ℤ, negsuc, min, pos_part, ◌-ℤ◌, ℕ, ◌+◌, ◌≡◌, refl, ap, ◌∙◌, inl, inr, Bool, true, false,
  not, none, arith, if◌then◌else◌, Bool-cases, ℤ, pos, ◌≤ℤ◌, leb_ℤ, eqb_ℤ, Bytes, streq,
}
use mysql_governor.Base.Double.{Double, hundredths}
use mysql_governor.Data.{
  Stats, no_period, TLong, norestrict_param2, StatsCfg, freeze, unfreeze, GovernorConfig,
}
use mysql_governor.Account.{Account, Description, World, time, emit}
use mysql_governor.Overlimit.{config_get_account_limit, cpu_over, io_over, is_stat_overlimit}
use mysql_governor.Overlimit.Violation.{violation, violation-tests}
use mysql_governor.Fifo.{reset_stats}
use mysql_governor.Commands.{account_unrestrict}
use mysql_governor.Commands.Queue.{
  enqueue, freezes, queue-account_restrict, queue-account_unrestrict,
}
use mysql_governor.Commands.Replay.{Settles, Settles-enqueue}
use mysql_governor.Restrict.{inc_number_of_restricts, log_description}
use mysql_governor.Restrict.Check.{check_restrict-none}
use mysql_governor.Restrict.Level.{next_level, get_timeout_lem}
use mysql_governor.Restrict.Dbctl.{
  DbCtlOptions, asked, zeroed, restrict_by_command, dbctl_unrestrict_set, dbctl_unrestrict_all_set,
}

module _ (cfg : GovernorConfig) where
  queue_of_log :
      (d : Description) (w : World) → (log_description cfg d w).command_list ≡ w.command_list
  unfolding log_description emit
  queue_of_log d w = ground arith

-- A hundredth of a limit that is set is not below 0.
abbrev pub IsAbove : {D : Type 0} → Double D → Type 0
IsAbove dbl =
    (limit : ℤ)
    → pos 0 ≤ℤ limit
    → dbl.less (dbl.div (dbl.of_int limit) (dbl.of_int (pos 100))) (dbl.of_int (pos 0)) ≡ false

-- The level asked for, less 1, and without one the level below the account's own; cut to 0 to 3.
abbrev pub level_by_command : ℤ → ℤ → ℕ
level_by_command level restricted =
    if eqb_ℤ level (negsuc 0)
    then min 3 (pos_part (restricted -ℤ pos 1))
    else min 3 (pos_part (level -ℤ pos 1))

one_below : (l : ℤ) → pos_part (l +ℤ negsuc 0) ≡ pos_part (l -ℤ pos 1)
unfolding ◌+ℤ◌ ◌-ℤ◌
one_below l = ground arith

cut_below : (l : ℤ) → pos_part ((if ltb_ℤ l (pos 0) then pos 0 else l) +ℤ pos 0) ≡ pos_part l
unfolding ◌+ℤ◌
cut_below l = ground arith

level_asked :
    (level restricted : ℤ)
    → next_level (asked level restricted).0 (asked level restricted).1
      ≡ level_by_command level restricted
level_asked level restricted = elim (Bool-cases (eqb_ℤ level (negsuc 0))) [
  | inl e ↦ rw e (ap (min 3) (one_below restricted))
  | inr e ↦ rw e (ap (min 3) (cut_below (level -ℤ pos 1)))
]

idle_io : (limit : ℤ) → io_over (pos 0) limit ≡ false
unfolding io_over
idle_io limit = ground arith

module _ (D : Type 0) ⦃dbl : Double D⦄ (above : IsAbove dbl) where
  idle_cpu : (limit : ℤ) → cpu_over (dbl.of_int (pos 0)) limit ≡ false
  unfolding cpu_over
  idle_cpu limit = elim (Bool-cases (leb_ℤ (pos 0) limit)) [
    | inl e ↦ rw (e, above limit (ground arith)) refl
    | inr e ↦ ground (arith, e)
  ]

  idle :
      (x : TLong → ℤ) (sl : StatsCfg)
      → is_stat_overlimit {D = D} x reset_stats sl ≡ norestrict_param2
  unfolding is_stat_overlimit reset_stats
  idle x sl = rw (idle_cpu (x sl.cpu), idle_io (x sl.read), idle_io (x sl.write)) refl

module _ {D : Type 0} ⦃dbl : Double D⦄ where
  -- The account with no level, timeout, start and reason of a restriction, and with zeros as its values.
  abbrev pub without_restriction : Account D → Account D
  without_restriction ac =
      let zeros : Stats D = record { cpu = dbl.of_int (pos 0); write = pos 0; read = pos 0 } in
      record ac {
        restricted = pos 0;
        timeout = pos 0;
        start_count = pos 0;
        info = record { field_restrict = no_period; field_level_restrict = norestrict_param2 };
        current = zeros;
        short_average = zeros;
        mid_average = zeros;
        long_average = zeros;
      }

  zeroed_lem : (ac : Account D) → zeroed ac ≡ without_restriction ac
  unfolding reset_stats
  zeroed_lem ac = refl

  module _ (above : IsAbove dbl) where
    zeroed_within : (ac : Account D) (sl : StatsCfg) → violation (zeroed ac) sl ≡ none
    zeroed_within ac sl =
        violation-tests (zeroed ac) sl
        ∙ rw
            (
              idle D above (λ l. l.current) sl,
              idle D above (λ l. l.short) sl,
              idle D above (λ l. l.mid) sl,
              idle D above (λ l. l.long) sl,
            )
            refl

    -- If a hundredth of a limit that is set is not below 0, then in a configuration that freezes
    -- users the release of an account by its name leaves it with no level, timeout, start and
    -- reason of a restriction, with zeros as its values, and all its users free: the check behind
    -- it never objects.
    pub dbctl_unrestrict_set-Settles :
        (clock : ℕ → ℤ) (cfg : GovernorConfig) (before : Bytes → Bool) (options : DbCtlOptions)
        (ac : Account D) (w : World) (x : Bool)
        → streq ac.id options.username ≡ true
        → freezes cfg ≡ true
        → Settles before ac.users x w.command_list
        → let r = dbctl_unrestrict_set clock cfg options ac w in
          (r.0 ≡ without_restriction ac) × Settles before ac.users false r.1.command_list
    unfolding dbctl_unrestrict_set
    dbctl_unrestrict_set-Settles clock cfg before options ac w x named on s =
        let w1 = record w { reads = w.reads + 1 } in
        let quiet =
          check_restrict-none clock cfg (zeroed ac) w
            (zeroed_within ac (config_get_account_limit cfg ac.id)) in
        rw (named, quiet)
          (
            zeroed_lem ac,
            rw (queue-account_unrestrict cfg (zeroed ac) w1 on)
                (Settles-enqueue before ac.users unfreeze false x w.command_list (λ b. refl) s),
          )

module _ {D : Type 0} ⦃dbl : Double D⦄ (clock : ℕ → ℤ) (cfg : GovernorConfig)
    (before : Bytes → Bool) where
  queue-restrict_by_command :
      (level : ℤ) (ac : Account D) (w : World)
      → freezes cfg ≡ true
      → (restrict_by_command clock cfg level ac w).1.command_list
        ≡ enqueue freeze ac.users w.command_list
  unfolding restrict_by_command time inc_number_of_restricts
  queue-restrict_by_command level ac w on =
      queue_of_log cfg _ _ ∙ queue-account_restrict cfg _ _ _ ∙ ground (arith, on)

  -- Asked to restrict an account, in a configuration that freezes users, the governor freezes all
  -- of them, whether or not it was restricted; in the limit mode the account gets level 1000, in
  -- the period mode the one asked for less 1, or without one the level below its own, cut to 0 to
  -- 3.
  pub restrict_by_command-Settles :
      (level : ℤ) (ac : Account D) (w : World) (x : Bool)
      → freezes cfg ≡ true
      → Settles before ac.users x w.command_list
      → let r = restrict_by_command clock cfg level ac w in
        Settles before ac.users true r.1.command_list
        × (r.0.restricted
            ≡ (if cfg.restrict_mode then pos 1000 else pos (level_by_command level ac.restricted)))
  unfolding restrict_by_command
  restrict_by_command-Settles level ac w x on s = (
    rw (queue-restrict_by_command level ac w on)
        (Settles-enqueue before ac.users freeze true x w.command_list (λ b. refl) s),
    ap (λ l. if cfg.restrict_mode then pos 1000 else l)
        ((get_timeout_lem cfg (asked level ac.restricted).0 (asked level ac.restricted).1).0
          ∙ ap pos (level_asked level ac.restricted)),
  )

  -- In a configuration that freezes users, let an account's users be frozen if it has a timeout, and
  -- else be free. The release of all accounts leaves
  -- it without level and timeout, and its users free.
  pub dbctl_unrestrict_all_set-Settles :
      (ac : Account D) (w : World)
      → freezes cfg ≡ true
      → Settles before ac.users (not (eqb_ℤ ac.timeout (pos 0))) w.command_list
      → let r = dbctl_unrestrict_all_set clock cfg ac w in
        Settles before ac.users false r.1.command_list
        × (r.0.restricted ≡ pos 0)
        × (r.0.timeout ≡ pos 0)
  unfolding dbctl_unrestrict_all_set
  dbctl_unrestrict_all_set-Settles ac w on s = (by_timeout (eqb_ℤ ac.timeout (pos 0)) s, refl, refl)
    where
      by_timeout :
          (idle : Bool)
          → Settles before ac.users (not idle) w.command_list
          → Settles before ac.users false
              (if idle then w else account_unrestrict cfg ac w).command_list
      by_timeout true s = s
      by_timeout false s =
          rw (queue-account_unrestrict cfg ac w on)
            (Settles-enqueue before ac.users unfreeze false true w.command_list (λ b. refl) s)
