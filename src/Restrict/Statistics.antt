-- ===== src/Restrict/Statistics.antt =====
-- What a restriction leaves in the table of restriction counters, DbGovNumberOfRestricts.
use mysql_governor.Base.{ℕ, ◌+◌, ◌≡◌, Option, none, some, ℤ, Table, lookup}
use mysql_governor.Base.Double.{Double, hundredths}
use mysql_governor.Data.{current_period, GovernorConfig}
use mysql_governor.Account.{Account, Cause, StatisticsRestrictInfo, World}
use mysql_governor.Restrict.{get_cause_of_restrict, no_cause, join_cause}
use mysql_governor.Restrict.Check.{Violated}

-- The bit of a violation: only one of the current values has its own.
abbrev pub cause_of : Violated → Cause
cause_of (current_period, field) = get_cause_of_restrict field
cause_of (_, field) = no_cause

-- The counters of an account after one restriction more.
abbrev pub CountedOnce :
    Cause → Option StatisticsRestrictInfo → Option StatisticsRestrictInfo → Type 0
CountedOnce cause none after =
    after ≡ some (record { number_of_restricts = 1; cause_of_restricts = cause })
CountedOnce cause (some i) after =
    after
    ≡ some (record {
      number_of_restricts = i.number_of_restricts + 1;
      cause_of_restricts = join_cause i.cause_of_restricts cause;
    })

module _ {D : Type 0} ⦃dbl : Double D⦄ (clock : ℕ → ℤ) (cfg : GovernorConfig) where
  -- The counters after a check, by the violation.
  abbrev pub Counts : Option Violated → Account D → World → Table StatisticsRestrictInfo → Type 0
  Counts none ac w after = after ≡ w.restricts
  Counts (some v) ac w after =
      CountedOnce (cause_of v) (lookup ac.id w.restricts) (lookup ac.id after)
