-- ===== src/Overlimit.antt =====
-- The tests of calc_stats.c that compare a sample with an account's limits, and the look-up of
-- those limits in governor_config.c.
pub mod Violation
pub mod First
use mysql_governor.Base.{
  Bool, true, false, ◌&&◌, none, some, if◌then◌else◌, ℤ, pos, ltb_ℤ, leb_ℤ, Bytes, lookup,
}
use mysql_governor.Base.Double.{Double}
use mysql_governor.Data.{
  TLong, FieldName, norestrict_param2, cpu_param, read_param, write_param, StatsCfg, Stats,
  GovernorConfig,
}

-- config_get_account_limit
unfoldable pub config_get_account_limit : GovernorConfig → Bytes → StatsCfg
config_get_account_limit cfg account_id = elim (lookup account_id cfg.account_limits) [
  | none ↦ cfg.default_limit
  | some limits ↦ limits
]

unfoldable pub io_over : ℤ → ℤ → Bool
io_over n limit = ltb_ℤ limit n && leb_ℤ (pos 0) limit

module _ {D : Type 0} ⦃dbl : Double D⦄ where
  -- The limit of the processor is in hundredths of a processor; a negative limit is none.
  unfoldable pub cpu_over : D → ℤ → Bool
  cpu_over cpu limit =
      dbl.less (dbl.div (dbl.of_int limit) (dbl.of_int (pos 100))) cpu && leb_ℤ (pos 0) limit

  -- The macro is_stat_overlimit (x): `x` chooses the period's limit.
  unfoldable pub is_stat_overlimit : (TLong → ℤ) → Stats D → StatsCfg → FieldName
  is_stat_overlimit x st limit =
      if cpu_over st.cpu (x limit.cpu)
      then cpu_param
      else if io_over st.read (x limit.read)
      then read_param
      else if io_over st.write (x limit.write)
      then write_param
      else norestrict_param2

-- `_cur != NORESTRICT_PARAM2`
abbrev pub is_over : FieldName → Bool
is_over norestrict_param2 = false
is_over _ = true
