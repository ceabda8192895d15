-- ===== src/Data.antt =====
-- data.h, stats.h and governor_config.h: the enumerations and structures that the components share.
-- A C `int` that is only tested is a Bool, a `char *` that may be NULL is an Option, and an
-- `unsigned` is a number below 2 ^ 32.
use mysql_governor.Base.{ℕ, ◌*◌, Bool, Option, ℤ, pos, Bytes, Table}

-- MODE_TYPE
pub data ModeType : Type 0 where
  test_mode production_mode debug_mode error_mode restrict_mode norestrict_mode ignore_mode
        old_restrict_mode new_restrict_mode :
      ModeType

-- T_LONG
pub record TLong : Type 0 where
  pub current : ℤ
  pub short : ℤ
  pub mid : ℤ
  pub long : ℤ

-- GOVERNORS_FIELD_NAME
pub data FieldName : Type 0 where
  norestrict_param2 cpu_param read_param write_param norestrict_param : FieldName

-- GOVERNORS_PERIOD_NAME
pub data PeriodName : Type 0 where
  no_period current_period short_period mid_period long_period : PeriodName

-- Stats_cfg
pub record StatsCfg : Type 0 where
  pub cpu : TLong
  pub write : TLong
  pub read : TLong
  pub slow : TLong
  pub account_flag : Bool
  pub mode : ModeType

-- Stats
pub record Stats (D : Type 0) : Type 0 where
  pub cpu : D
  pub write : ℤ
  pub read : ℤ

-- restrict_info
pub record RestrictInfo : Type 0 where
  pub field_restrict : PeriodName
  pub field_level_restrict : FieldName

-- command_t
pub data CommandType : Type 0 where
  exit freeze unfreeze slow_query : CommandType

-- Command: `restrict_level` and `id` are never set.
pub record Command : Type 0 where
  pub username : Bytes
  pub command : CommandType

-- struct governor_config, without the two fields for a training that nothing reads.
pub record GovernorConfig : Type 0 where
  pub db_login : Bytes
  pub db_password : Bytes
  pub host : Bytes
  pub log : Bytes
  pub default_limit : StatsCfg
  pub account_limits : Table StatsCfg
  pub log_mode : ModeType
  pub restrict_log : Option Bytes
  pub restrict_format : ℕ
  pub separator : ℕ
  pub level1 : ℕ
  pub level2 : ℕ
  pub level3 : ℕ
  pub level4 : ℕ
  pub timeout : ℕ
  pub interval_short : ℕ
  pub interval_mid : ℕ
  pub interval_long : ℕ
  pub exec_script : Option Bytes
  pub use_lve : Bool
  pub statistic_mode : Bool
  pub logqueries_use : ℕ
  pub daemon_monitor : Bool
  pub max_user_connections : ℤ
  pub killuser : Bool
  pub is_gpl : Bool
  pub separate_lve : Bool
  pub all_lve : Bool
  pub slow_queries : Bool
  pub restrict_mode : Bool
  pub l_unlimit : ℕ
  pub slow_queries_log : Option Bytes
  pub debug_user : Option Bytes
  pub save_statistic_uid : Bool

-- USERNAMEMAXLEN
abbrev pub username_max_len : ℕ
username_max_len = 16 * 4

-- BAD_LVE
abbrev pub bad_lve : ℤ
bad_lve = pos 3
