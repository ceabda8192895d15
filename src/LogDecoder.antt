-- ===== src/LogDecoder.antt =====
-- log-decoder.c: which value and which limit a restriction is about, and the line that the
-- restriction log gets. The text is the list of the values that the format string prints.
use mysql_governor.Base.{
  ◌-◌, ◌%◌, ◌^◌, Bool, Option, none, some, leb, ℤ, pos, negsuc, ◌+ℤ◌, Bytes, codes,
}
use mysql_governor.Base.Double.{Double, hundredths}
use mysql_governor.Data.{
  TLong, FieldName, cpu_param, read_param, write_param, PeriodName, no_period, current_period,
  short_period, mid_period, long_period, StatsCfg, Stats, GovernorConfig,
}
use mysql_governor.Account.{Account, Description, unrestrict, enforced}

-- getLimitValuePeriod
unfoldable pub get_limit_value_period : PeriodName → TLong → ℤ
get_limit_value_period current_period lm = lm.current
get_limit_value_period short_period lm = lm.short
get_limit_value_period mid_period lm = lm.mid
get_limit_value_period long_period lm = lm.long
get_limit_value_period no_period lm = negsuc 0

limit_value : FieldName → PeriodName → StatsCfg → ℤ
unfolding get_limit_value_period
limit_value cpu_param p lm = get_limit_value_period p lm.cpu
limit_value read_param p lm = get_limit_value_period p lm.read
limit_value write_param p lm = get_limit_value_period p lm.write
limit_value _ p lm = negsuc 0

-- getPeriodName
unfoldable pub get_period_name : PeriodName → Bytes
get_period_name current_period = codes "current value"
get_period_name short_period = codes "short av.value"
get_period_name mid_period = codes "middle av.value"
get_period_name long_period = codes "long av.value"
get_period_name no_period = codes "undef"

-- getParamName
unfoldable pub get_param_name : FieldName → Bytes
get_param_name cpu_param = codes "cpu"
get_param_name read_param = codes "read"
get_param_name write_param = codes "write"
get_param_name _ = codes "manual"

-- The cast of a `long long` to `unsigned long long`.
abbrev pub unsigned_of : ℤ → ℤ
unsigned_of (pos n) = pos (n % 2 ^ 64)
unsigned_of (negsuc n) = pos (2 ^ 64 - 1 - n % 2 ^ 64)

module _ {D : Type 0} ⦃dbl : Double D⦄ where
  -- getCurrentRestrictValue, getShortRestrictValue, getMidRestrictValue, getLongRestrictValue: one
  -- text over the sample of the period.
  unfoldable pub get_period_restrict_value : FieldName → Stats D → ℤ
  get_period_restrict_value cpu_param st = dbl.ceil (dbl.mul st.cpu (dbl.of_int (pos 100)))
  get_period_restrict_value read_param st = st.read
  get_period_restrict_value write_param st = st.write
  get_period_restrict_value _ st = negsuc 0

  -- getRestrictDump: the sample of the period, NULL where there is none.
  unfoldable pub get_restrict_dump : PeriodName → Account D → Option (Stats D)
  get_restrict_dump current_period ac = some ac.current
  get_restrict_dump short_period ac = some ac.short_average
  get_restrict_dump mid_period ac = some ac.mid_average
  get_restrict_dump long_period ac = some ac.long_average
  get_restrict_dump no_period ac = none

  restrict_value : PeriodName → Account D → ℤ
  unfolding get_period_restrict_value
  restrict_value current_period ac =
      get_period_restrict_value ac.info.field_level_restrict ac.current
  restrict_value short_period ac =
      get_period_restrict_value ac.info.field_level_restrict ac.short_average
  restrict_value mid_period ac =
      get_period_restrict_value ac.info.field_level_restrict ac.mid_average
  restrict_value long_period ac =
      get_period_restrict_value ac.info.field_level_restrict ac.long_average
  restrict_value no_period ac = negsuc 0

  -- getRestrictValue
  unfoldable pub get_restrict_value : Account D → ℤ
  unfolding restrict_value
  get_restrict_value ac = restrict_value ac.info.field_restrict ac

  -- getLimitValue
  unfoldable pub get_limit_value : Account D → StatsCfg → ℤ
  unfolding limit_value
  get_limit_value ac lm = limit_value ac.info.field_level_restrict ac.info.field_restrict lm

  describe : PeriodName → Account D → StatsCfg → Option ℤ → Bool → Description
  unfolding get_restrict_value get_limit_value get_period_name get_param_name
  describe no_period ac limit level sys = unrestrict sys
  describe p ac limit level sys =
      enforced ac.id (get_period_name p) (get_param_name ac.info.field_level_restrict)
        (unsigned_of (get_restrict_value ac)) (get_limit_value ac limit) level sys

  -- prepareRestrictDescription
  unfoldable pub prepare_restrict_description : GovernorConfig → Account D → StatsCfg → Description
  unfolding describe ◌+ℤ◌
  prepare_restrict_description cfg ac limit =
      describe ac.info.field_restrict ac limit (some (ac.restricted +ℤ pos 1))
        (leb 2 cfg.restrict_format)

  -- prepareRestrictDescriptionLimit
  unfoldable pub prepare_restrict_description_limit :
      GovernorConfig → Account D → StatsCfg → Description
  unfolding describe
  prepare_restrict_description_limit cfg ac limit =
      describe ac.info.field_restrict ac limit none (leb 2 cfg.restrict_format)
