-- ===== src/Fixtures.antt =====
-- Concrete configurations, accounts and samples for the tests.
use mysql_governor.Base.{
  ℕ, ◌+◌, ◌*◌, Bool, true, false, none, some, [], ◌∷◌, ℤ, pos, negsuc, Bytes, codes,
}
use mysql_governor.Base.Double.{Hundredths, hundredths}
use mysql_governor.Data.{
  error_mode, restrict_mode, TLong, norestrict_param2, no_period, StatsCfg, Stats, GovernorConfig,
}
use mysql_governor.Account.{Account, World}
use mysql_governor.Overlimit.Violation.{Samples}

abbrev none_set : TLong
none_set = record { current = negsuc 0; short = negsuc 0; mid = negsuc 0; long = negsuc 0 }

-- One and a half processors at once, one on the average.
abbrev pub limits : StatsCfg
limits = record {
  cpu = record { current = pos 150; short = pos 100; mid = pos 100; long = pos 100 };
  write = none_set;
  read = record none_set { current = pos 1000 };
  slow = none_set;
  account_flag = true;
  mode = restrict_mode;
}

abbrev pub config : GovernorConfig
config = record {
  db_login = codes "root";
  db_password = codes "secret";
  host = codes "localhost";
  log = codes "/var/log/dbgovernor.log";
  default_limit = limits;
  account_limits = [];
  log_mode = error_mode;
  restrict_log = none;
  restrict_format = 2;
  separator = b'_';
  level1 = 60;
  level2 = 900;
  level3 = 3600;
  level4 = 86400;
  timeout = 3600;
  interval_short = 5;
  interval_mid = 15;
  interval_long = 30;
  exec_script = none;
  use_lve = true;
  statistic_mode = true;
  logqueries_use = 0;
  daemon_monitor = true;
  max_user_connections = pos 30;
  killuser = false;
  is_gpl = false;
  separate_lve = false;
  all_lve = false;
  slow_queries = false;
  restrict_mode = true;
  l_unlimit = 60;
  slow_queries_log = none;
  debug_user = none;
  save_statistic_uid = false;
}

abbrev pub load : ℤ → Stats Hundredths
load cpu = record { cpu = cpu; write = pos 0; read = pos 0 }

abbrev pub quiet : Samples Hundredths
quiet = record {
  current = load (pos 0);
  short_average = load (pos 0);
  mid_average = load (pos 0);
  long_average = load (pos 0);
}

-- Two processors at once; and, by contrast, too high an average.
abbrev pub busy : Samples Hundredths
busy = record quiet { current = load (pos 200) }

abbrev pub tired : Samples Hundredths
tired = record quiet { short_average = load (pos 120) }

abbrev pub user : Bytes
user = codes "shop_db"

abbrev pub account : Account Hundredths
account = record {
  id = codes "shop";
  users = user ∷ [];
  current = load (pos 200);
  long_average = load (pos 0);
  mid_average = load (pos 0);
  short_average = load (pos 0);
  restricted = pos 0;
  timeout = pos 0;
  start_count = pos 0;
  info = record { field_restrict = no_period; field_level_restrict = norestrict_param2 };
  need_dbg = false;
}

abbrev pub calm : Account Hundredths
calm = record account { current = load (pos 0) }

abbrev pub world : World
world = record { reads = 0; restricts = []; command_list = some (none ∷ []); events = [] }

-- A minute passes between two readings.
abbrev pub clock : ℕ → ℤ
clock n = pos (100000 + 60 * n)

abbrev pub nobody : Bytes → Bool
nobody u = false
