-- ===== src/Config/Init/Defaults.antt =====
-- The configuration of a file that gives only the elements that have to be there.
use mysql_governor.Base.{◌*◌, ◌≡◌, refl, true, false, not, none, some, [], pos, Bytes, codes}
use mysql_governor.Data.{error_mode, restrict_mode, StatsCfg, GovernorConfig}
use mysql_governor.Config.Result.{returns}
use mysql_governor.Xml.{
  attribute_in, Node, Nodes, node, nil, get_next_child, find_element_with_name, remove_below,
  children_of,
}
use mysql_governor.Config.Children.{each_child-none}
use mysql_governor.Config.Period.{parse_period}
use mysql_governor.Config.Modes.{get_restrict_format}
use mysql_governor.Config.Limits.{
  System, set_limits, set_stats_limit, add_users_of, add_user, all_zero,
}
use mysql_governor.Config.Init.{
  period_or, no_limits, read_default_limit, read_parts, fill, config_init, attr_of, number_or,
  lve_flags, logqueries_of, connections_of, script_of, separator_of, says,
}

-- An element that is there, with no attribute.
abbrev Bare : Node → Bytes → Nodes → Type 0
Bare root name children = find_element_with_name root name ≡ some (node name [] children)

abbrev Absent : Node → Bytes → Type 0
Absent root name = find_element_with_name root name ≡ none

-- The five elements are there and bare, the others are not, and there are neither limits nor users.
pub record IsMinimal (root : Node) : Type 0 where
  pub inside : Nodes
  pub has_log : Bare root (codes "log") nil
  pub has_intervals : Bare root (codes "intervals") nil
  pub has_restrict : Bare root (codes "restrict") nil
  pub has_connector : Bare root (codes "connector") nil
  pub has_default : Bare root (codes "default") inside
  pub no_limit : get_next_child (codes "limit") inside ≡ none
  pub no_user : get_next_child (codes "user") (children_of root) ≡ none
  pub no_lve : Absent root (codes "lve")
  pub no_statistic : Absent root (codes "statistic")
  pub no_debug_user : Absent root (codes "debug_user")
  pub no_logqueries : Absent root (codes "logqueries")
  pub no_daemon : Absent root (codes "daemon")
  pub no_slow_queries : Absent root (codes "slow_queries")
  pub no_restrict_mode : Absent root (codes "restrict_mode")

abbrev pub default_config : System → GovernorConfig
default_config system = record {
  db_login = [];
  db_password = [];
  host = [];
  log = [];
  default_limit = record {
    cpu = all_zero;
    write = all_zero;
    read = all_zero;
    slow = all_zero;
    account_flag = true;
    mode = restrict_mode;
  };
  account_limits = [];
  log_mode = error_mode;
  restrict_log = none;
  restrict_format = 2;
  separator = b'_';
  level1 = 60;
  level2 = 15 * 60;
  level3 = 60 * 60;
  level4 = 24 * 60 * 60;
  timeout = 60 * 60;
  interval_short = 5;
  interval_mid = 15;
  interval_long = 30;
  exec_script = none;
  use_lve = false;
  statistic_mode = true;
  logqueries_use = 0;
  daemon_monitor = true;
  max_user_connections = pos 30;
  killuser = false;
  is_gpl = not system.liblve;
  separate_lve = false;
  all_lve = false;
  slow_queries = false;
  restrict_mode = true;
  l_unlimit = 60;
  slow_queries_log = none;
  debug_user = none;
  save_statistic_uid = false;
}

limits_of_none :
    (system : System) (inside : Nodes)
    → get_next_child (codes "limit") inside ≡ none
    → read_default_limit system (node (codes "default") [] inside)
      ≡ returns (record no_limits { account_flag = true })
unfolding read_default_limit set_limits
limits_of_none system inside e =
    rw (each_child-none (set_stats_limit system) (codes "limit") inside no_limits e) refl

users_of_none :
    (system : System) (d : StatsCfg) (top : Nodes)
    → get_next_child (codes "user") top ≡ none
    → add_users_of system d top [] ≡ returns []
unfolding add_users_of
users_of_none system d top e = each_child-none (add_user system d) (codes "user") top [] e

-- A file that has just the five elements that have to be there, without attributes, limits and
-- users, is read, and gives the configuration of the defaults in the code: among them averages
-- over 5, 15 and 30 samples, the levels of 1 minute, 15 minutes, 1 hour and 1 day, and 30
-- connections.
pub config_init-minimal :
    (system : System) (root : Node)
    → IsMinimal root
    → config_init system (some root)
      ≡ returns (record {
        cfg = default_config system;
        duplicate = remove_below (codes "connector") root;
      })
unfolding config_init read_parts fill attr_of attribute_in period_or parse_period number_or
    lve_flags logqueries_of connections_of separator_of script_of says get_restrict_format
config_init-minimal system root h =
    rw
      (
        h.has_log,
        h.has_intervals,
        h.no_restrict_mode,
        h.has_restrict,
        h.has_connector,
        h.has_default,
        limits_of_none system h.inside h.no_limit,
      )
      (rw
        (users_of_none system (record no_limits { account_flag = true }) (children_of root)
          h.no_user)
        (rw
          (
            h.no_lve, h.no_statistic, h.no_debug_user, h.no_logqueries, h.no_daemon,
            h.no_slow_queries,
          )
          refl))
