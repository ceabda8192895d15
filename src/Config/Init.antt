-- ===== src/Config/Init.antt =====
-- governor_config.c: config_init, section by section, and save_duplicate_config. What parseConfigData
-- answers, the root element of the parsed file, is an argument.
pub mod Sound
pub mod Defaults
pub mod Reading
pub mod Accounts
use mysql_governor.Base.{
  ℕ, Bool, true, false, not, ◌||◌, Option, none, some, [], ◌∷◌, if◌then◌else◌, ℤ, pos, ltb_ℤ, Bytes,
  codes, strcaseeq, Table,
}
use mysql_governor.Data.{ModeType, error_mode, restrict_mode, StatsCfg, GovernorConfig}
use mysql_governor.Base.Number.{atoi, unsigned_of_int}
use mysql_governor.Config.Result.{
  cannot_read, no_log, no_intervals, no_restrict, no_connector, no_default, Result, returns,
  required, ◌>>=◌,
}
use mysql_governor.Xml.{Node, get_elem_attr, children_of, find_element_with_name, remove_below}
use mysql_governor.Config.Period.{parse_period}
use mysql_governor.Config.Modes.{mode_type_str_to_enum, get_restrict_format}
use mysql_governor.Config.Limits.{System, all_zero, set_limits, add_users_of}

-- The attribute of an element that may be absent.
unfoldable pub attr_of : Option Node → Bytes → Option Bytes
attr_of none name = none
attr_of (some tmp_xml) name = get_elem_attr tmp_xml name

-- `ptr && !strcasecmp (ptr, s)`
unfoldable pub says : Option Bytes → Bytes → Bool
says none s = false
says (some ptr) s = strcaseeq ptr s

abbrev string_or : Bytes → Option Bytes → Bytes
string_or other none = other
string_or other (some ptr) = ptr

unfoldable pub number_or : ℕ → Option Bytes → ℕ
unfolding atoi
number_or other none = other
number_or other (some ptr) = unsigned_of_int (atoi ptr)

unfoldable pub period_or : Bytes → Option Bytes → Result ℕ
unfolding parse_period
period_or other none = parse_period other
period_or other (some ptr) = parse_period ptr

abbrev pub log_mode_of : Option Bytes → Result ModeType
log_mode_of none = returns error_mode
log_mode_of (some ptr) = mode_type_str_to_enum ptr

-- `use` of the element `lve`
pub record LveFlags : Type 0 where
  pub use_lve : Bool
  pub all_lve : Bool
  pub separate_lve : Bool

unfoldable pub lve_flags : Option Bytes → LveFlags
unfolding says
lve_flags ptr =
    let single = says ptr (codes "On") || says ptr (codes "Single") in
    let ab_users = says ptr (codes "AbUsers") in
    let all = says ptr (codes "All") in
    record { use_lve = single || ab_users || all; all_lve = all; separate_lve = ab_users || all }

-- `use` of the element `logqueries`
unfoldable pub logqueries_of : Option Bytes → ℕ
unfolding says
logqueries_of ptr = if says ptr (codes "Before") then 2 else if says ptr (codes "On") then 1 else 0

unfoldable pub connections_of : Option Bytes → ℤ
unfolding atoi
connections_of none = pos 30
connections_of (some ptr) = let n = atoi ptr in if ltb_ℤ n (pos 0) then pos 30 else n

unfoldable pub separator_of : Option Bytes → ℕ
separator_of none = b'_'
separator_of (some []) = 0
separator_of (some (c ∷ s)) = c

-- The script has to be there and not to be a directory.
unfoldable pub script_of : System → Option Bytes → Option Bytes
script_of system none = none
script_of system (some []) = none
script_of system (some (c ∷ s)) = elim (system.stat (c ∷ s)) [
  | none ↦ none
  | some is_directory ↦ if is_directory then none else some (c ∷ s)
]

-- The limits that calloc leaves, with the mode of the restriction.
abbrev no_limits : StatsCfg
no_limits = record {
  cpu = all_zero;
  write = all_zero;
  read = all_zero;
  slow = all_zero;
  account_flag = false;
  mode = restrict_mode;
}

unfoldable pub read_default_limit : System → Node → Result StatsCfg
unfolding set_limits
read_default_limit system tmp_xml = do
  l ← set_limits system tmp_xml no_limits
  returns (record l { account_flag = true; mode = restrict_mode })

-- check_liblve: 0 if the library can be loaded.
abbrev check_liblve : System → Bool
check_liblve system = not system.liblve

-- The elements that have to be there, and what is read with a chance to stop.
pub record Parts : Type 0 where
  pub log_xml : Node
  pub log_mode : ModeType
  pub intervals : Node
  pub l_unlimit : ℕ
  pub restrict : Node
  pub level1 : ℕ
  pub level2 : ℕ
  pub level3 : ℕ
  pub level4 : ℕ
  pub timeout : ℕ
  pub connector : Node
  pub default_limit : StatsCfg
  pub account_limits : Table StatsCfg

-- The steps of config_init that can stop, in their order.
unfoldable pub read_parts : System → Node → Result Parts
unfolding attr_of period_or read_default_limit add_users_of find_element_with_name
    mode_type_str_to_enum parse_period
read_parts system root = do
  log_xml ← required no_log (find_element_with_name root (codes "log"))
  log_mode ← log_mode_of (get_elem_attr log_xml (codes "mode"))
  intervals ← required no_intervals (find_element_with_name root (codes "intervals"))
  let mode_xml = find_element_with_name root (codes "restrict_mode")
  l_unlimit ← period_or (codes "60s") (attr_of mode_xml (codes "unlimit"))
  restrict ← required no_restrict (find_element_with_name root (codes "restrict"))
  level1 ← period_or (codes "60s") (get_elem_attr restrict (codes "level1"))
  level2 ← period_or (codes "15m") (get_elem_attr restrict (codes "level2"))
  level3 ← period_or (codes "1h") (get_elem_attr restrict (codes "level3"))
  level4 ← period_or (codes "1d") (get_elem_attr restrict (codes "level4"))
  timeout ← period_or (codes "1h") (get_elem_attr restrict (codes "timeout"))
  connector ← required no_connector (find_element_with_name root (codes "connector"))
  default_xml ← required no_default (find_element_with_name root (codes "default"))
  default_limit ← read_default_limit system default_xml
  account_limits ← add_users_of system default_limit (children_of root) []
  returns (record {
    log_xml = log_xml;
    log_mode = log_mode;
    intervals = intervals;
    l_unlimit = l_unlimit;
    restrict = restrict;
    level1 = level1;
    level2 = level2;
    level3 = level3;
    level4 = level4;
    timeout = timeout;
    connector = connector;
    default_limit = default_limit;
    account_limits = account_limits;
  })

-- The configuration that config_init fills.
unfoldable pub fill : System → Node → Parts → GovernorConfig
unfolding attr_of number_or lve_flags logqueries_of connections_of script_of separator_of says
    find_element_with_name get_restrict_format
fill system root parts =
    let lve = lve_flags (attr_of (find_element_with_name root (codes "lve")) (codes "use")) in
    let statistic = find_element_with_name root (codes "statistic") in
    let logqueries = find_element_with_name root (codes "logqueries") in
    let daemon = find_element_with_name root (codes "daemon") in
    let slow_xml = find_element_with_name root (codes "slow_queries") in
    let mode_xml = find_element_with_name root (codes "restrict_mode") in
    record {
      db_login = string_or [] (get_elem_attr parts.connector (codes "login"));
      db_password = string_or [] (get_elem_attr parts.connector (codes "password"));
      host = string_or [] (get_elem_attr parts.connector (codes "host"));
      log = string_or [] (get_elem_attr parts.log_xml (codes "file"));
      default_limit = parts.default_limit;
      account_limits = parts.account_limits;
      log_mode = parts.log_mode;
      restrict_log = get_elem_attr parts.restrict (codes "log");
      restrict_format = get_restrict_format (get_elem_attr parts.restrict (codes "format"));
      separator = separator_of (get_elem_attr parts.connector (codes "prefix_separator"));
      level1 = parts.level1;
      level2 = parts.level2;
      level3 = parts.level3;
      level4 = parts.level4;
      timeout = parts.timeout;
      interval_short = number_or 5 (get_elem_attr parts.intervals (codes "short"));
      interval_mid = number_or 15 (get_elem_attr parts.intervals (codes "mid"));
      interval_long = number_or 30 (get_elem_attr parts.intervals (codes "long"));
      exec_script = script_of system (get_elem_attr parts.restrict (codes "script"));
      use_lve = lve.use_lve;
      statistic_mode = not (says (attr_of statistic (codes "mode")) (codes "Off"));
      logqueries_use = logqueries_of (attr_of logqueries (codes "use"));
      daemon_monitor = not (says (attr_of daemon (codes "monitor")) (codes "Off"));
      max_user_connections =
          connections_of (get_elem_attr parts.restrict (codes "user_max_connections"));
      killuser = says (get_elem_attr parts.restrict (codes "killuser")) (codes "on");
      is_gpl = check_liblve system;
      separate_lve = lve.separate_lve;
      all_lve = lve.all_lve;
      slow_queries = says (attr_of slow_xml (codes "run")) (codes "On");
      restrict_mode = not (says (attr_of mode_xml (codes "use")) (codes "period"));
      l_unlimit = parts.l_unlimit;
      slow_queries_log = attr_of slow_xml (codes "log");
      debug_user = attr_of (find_element_with_name root (codes "debug_user")) (codes "name");
      save_statistic_uid = says (attr_of statistic (codes "save_uid")) (codes "On");
    }

-- What config_init leaves: the configuration, and the tree that save_duplicate_config saves.
pub record Initialised : Type 0 where
  pub cfg : GovernorConfig
  pub duplicate : Node

unfoldable pub config_init : System → Option Node → Result Initialised
unfolding read_parts fill remove_below
config_init system xml = do
  root ← required cannot_read xml
  parts ← read_parts system root
  returns
      (record { cfg = fill system root parts; duplicate = remove_below (codes "connector") root })

-- reread_config: the file is read again, into a new configuration.
unfoldable pub reread_config : System → Option Node → Result GovernorConfig
unfolding config_init
reread_config system xml = do r ← config_init system xml; returns r.cfg
