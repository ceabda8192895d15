-- ===== src/Config/Tests.antt =====
-- A configuration file, and the theorems on the configuration applied to it.
use mysql_governor.Base.{
  ◌≤◌, ◌≡◌, refl, ◌≢◌, true, false, Option, none, some, List, [], ◌∷◌, arith, if◌then◌else◌, pos,
  negsuc, Bytes, codes, streq, strcaseeq, insert,
}
use mysql_governor.Data.{
  test_mode, restrict_mode, ignore_mode, old_restrict_mode, StatsCfg, GovernorConfig,
}
use mysql_governor.Config.Result.{Stop, invalid_mode, returns, stops}
use mysql_governor.Xml.{
  Node, Nodes, node, nil, cons, children_of, find_element_with_name, find_in_with_attr,
  remove_below, attribute_in, get_next_child,
}
use mysql_governor.Xml.Search.{
  count_named, find_element_with_name-first_named, below, first_named, preorder,
}
use mysql_governor.Xml.Removal.{count_below}
use mysql_governor.Overlimit.{config_get_account_limit}
use mysql_governor.Config.Period.{parse_period}
use mysql_governor.Config.Period.RoundTrip.{print_period, parse-print_period}
use mysql_governor.Config.Modes.{
  is_readable, mode_type_str_to_enum, mode_type_enum_to_str,
  mode_type_str_to_enum-mode_type_enum_to_str,
}
use mysql_governor.Config.Limits.{System, all_zero, config_add_work_user}
use mysql_governor.Config.Limits.Users.{entry_of}
use mysql_governor.Config.Init.{Initialised, config_init, reread_config}
use mysql_governor.Config.Init.Sound.{IsSound, config_init-IsSound}
use mysql_governor.Config.Init.Defaults.{IsMinimal, default_config, config_init-minimal}
use mysql_governor.Config.Init.Reading.{connector, section_name, config_init-missing}
use mysql_governor.Config.Init.Accounts.{
  Limited, config_get_account_limit-config_init, duplicate_lem, work_user_is_lost,
}
use Prim.Native.String.{String}
use mysql_governor.Base.Number.{atoi}

abbrev attr : String → String → Bytes × Option Bytes
attr name value = (codes name, some (codes value))

abbrev machine : System
machine = record { atof = atoi; stat = λ path. some false; liblve = true }

abbrev siblings : List Node → Nodes
siblings [] = nil
siblings (n ∷ ns) = cons n (siblings ns)

abbrev cpu_150 : Node
cpu_150 =
    node (codes "limit") (attr "name" "cpu" ∷ attr "current" "150" ∷ attr "short" "100" ∷ []) nil

abbrev cpu_300 : Node
cpu_300 = node (codes "limit") (attr "name" "cpu" ∷ attr "current" "300" ∷ []) nil

abbrev slow_30s : Node
slow_30s = node (codes "limit") (attr "name" "slow" ∷ attr "current" "30s" ∷ []) nil

abbrev alice : Node
alice =
    node (codes "user") (attr "name" "alice" ∷ attr "mode" "IGNORE" ∷ []) (siblings (cpu_300 ∷ []))

abbrev file : Node
file = node (codes "governor") [] (
    siblings (
      node (codes "log") (attr "file" "/var/log/dbgovernor.log" ∷ attr "mode" "TEST" ∷ []) nil
      ∷ node (codes "intervals") (attr "short" "5" ∷ []) nil
      ∷ node (codes "lve") (attr "use" "abusers" ∷ []) nil
      ∷ node (codes "restrict")
          (attr "level1" "2m30s" ∷ attr "user_max_connections" "-1" ∷ attr "format" "SHORT" ∷ [])
          nil
      ∷ node (codes "connector") (attr "login" "root" ∷ attr "password" "secret" ∷ []) nil
      ∷ node (codes "default") [] (siblings (cpu_150 ∷ slow_30s ∷ []))
      ∷ alice
      ∷ []))

abbrev bare : String → Node
bare name = node (codes name) [] nil

abbrev minimal : Node
minimal = node (codes "governor") [] (
    siblings
      (bare "log" ∷ bare "intervals" ∷ bare "restrict" ∷ bare "connector" ∷ bare "default" ∷ []))

abbrev limits_by_default : StatsCfg
limits_by_default = record {
  cpu = record { current = pos 150; short = pos 100; mid = negsuc 0; long = negsuc 0 };
  write = all_zero;
  read = all_zero;
  slow = record { current = pos 30; short = negsuc 0; mid = negsuc 0; long = negsuc 0 };
  account_flag = true;
  mode = restrict_mode;
}

abbrev config_of_file : GovernorConfig
config_of_file = record (default_config machine) {
  db_login = codes "root";
  db_password = codes "secret";
  log = codes "/var/log/dbgovernor.log";
  log_mode = test_mode;
  default_limit = limits_by_default;
  account_limits =
      (
        codes "alice",
        record limits_by_default {
          cpu = record { current = pos 300; short = negsuc 0; mid = negsuc 0; long = negsuc 0 };
          mode = ignore_mode;
        },
      )
      ∷ [];
  restrict_format = 0;
  level1 = 150;
  use_lve = true;
  separate_lve = true;
}

abbrev read_file : Initialised
read_file = record { cfg = config_of_file; duplicate = remove_below (codes "connector") file }

file_is_read : config_init machine (some file) ≡ returns read_file
unfolding config_init streq attribute_in strcaseeq insert
file_is_read = refl

config_init-IsSound_example : IsSound config_of_file
config_init-IsSound_example = config_init-IsSound machine (some file) read_file file_is_read

config_get_account_limit-config_init_example :
    Limited machine config_of_file (codes "alice") (entry_of (codes "alice") (children_of file))
config_get_account_limit-config_init_example =
    config_get_account_limit-config_init machine file read_file (codes "alice") file_is_read

-- The element of alice decides.
entry_of-alice : entry_of (codes "alice") (children_of file) ≡ some alice
unfolding entry_of streq attribute_in
entry_of-alice = refl

one_connector : count_below (codes "connector") file ≤ 1
unfolding preorder count_named streq
one_connector = omega arith

duplicate_example : find_element_with_name read_file.duplicate (codes "connector") ≡ none
duplicate_example = duplicate_lem machine file read_file file_is_read one_connector

root_has_no_entry : entry_of (codes "root") (children_of file) ≡ none
unfolding entry_of streq attribute_in
root_has_no_entry = refl

root_is_a_name : codes "root" ≢ []
root_is_a_name h = ground arith

no_connector_there : find_element_with_name alice (section_name connector) ≡ none
unfolding find_element_with_name section_name streq
no_connector_there = refl

minimal-IsMinimal : IsMinimal minimal
unfolding find_element_with_name get_next_child streq
minimal-IsMinimal = record {
  inside = nil;
  has_log = refl;
  has_intervals = refl;
  has_restrict = refl;
  has_connector = refl;
  has_default = refl;
  no_limit = refl;
  no_user = refl;
  no_lve = refl;
  no_statistic = refl;
  no_debug_user = refl;
  no_logqueries = refl;
  no_daemon = refl;
  no_slow_queries = refl;
  no_restrict_mode = refl;
}

work_user_is_lost_example :
    ((config_get_account_limit
        (config_add_work_user (some (codes "root")) config_of_file)
        (codes "root")).mode
      ≡ ignore_mode)
    × (reread_config machine (some file) ≡ returns config_of_file)
    × ((config_get_account_limit config_of_file (codes "root")).mode ≡ restrict_mode)
work_user_is_lost_example =
    work_user_is_lost machine file read_file (codes "root") file_is_read root_has_no_entry
      root_is_a_name

config_init-missing_example : (e : Stop) × (config_init machine (some alice) ≡ stops e)
config_init-missing_example = config_init-missing machine alice connector no_connector_there

config_init-minimal_example :
    config_init machine (some minimal)
    ≡ returns (record {
      cfg = default_config machine;
      duplicate = remove_below (codes "connector") minimal;
    })
config_init-minimal_example = config_init-minimal machine minimal minimal-IsMinimal

parse-print_period_example : parse_period (print_period 2 10 30 45) ≡ returns 210645
parse-print_period_example = parse-print_period 2 10 30 45 (omega arith)

modes_example :
    mode_type_str_to_enum (mode_type_enum_to_str old_restrict_mode)
    ≡ (if is_readable old_restrict_mode then returns old_restrict_mode else stops invalid_mode)
modes_example = mode_type_str_to_enum-mode_type_enum_to_str old_restrict_mode

find_element_with_name-first_named_example :
    find_element_with_name file (codes "limit") ≡ first_named (codes "limit") (below file)
find_element_with_name-first_named_example = find_element_with_name-first_named (codes "limit") file

-- Below a child, the search by an attribute takes any element of the name.
wrong_limit :
    find_in_with_attr (codes "limit") (codes "name") (codes "slow") (children_of file)
    ≡ some cpu_150
unfolding find_in_with_attr streq attribute_in
wrong_limit = refl
