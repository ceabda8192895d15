-- ===== src/Config/Limits.antt =====
-- governor_config.c: the limits of an account, by default and of its own.
pub mod Users
pub mod Written
pub mod Inherited
pub mod Own
pub mod WorkUser
use mysql_governor.Base.{
  Bool, true, false, Option, none, some, [], ◌∷◌, if◌then◌else◌, ℤ, pos, negsuc, Bytes, codes,
  streq, Table, lookup, insert,
}
use mysql_governor.Data.{ModeType, restrict_mode, ignore_mode, TLong, StatsCfg, GovernorConfig}
use mysql_governor.Config.Result.{
  no_current, no_user_name, two_user_names, null_string, Result, returns, stops, required, ◌>>=◌,
}
use mysql_governor.Xml.{Node, Nodes, get_elem_attr, children_of}
use mysql_governor.Config.Period.{parse_period}
use mysql_governor.Config.Modes.{mode_type_str_to_enum}
use mysql_governor.Config.Children.{each_child}

-- What the reading takes from the system: `(long) atof (s)`, stat (whether the path is a directory;
-- none if it fails), and whether liblve.so.0 can be loaded.
pub record System : Type 0 where
  pub atof : Bytes → ℤ
  pub stat : Bytes → Option Bool
  pub liblve : Bool

-- _set_val, on the limit that `value` replaces.
abbrev pub set_val : TLong → Bytes → Bytes → TLong → Option TLong
set_val limit ptr name value = if streq ptr name then some value else none

-- The chain of calls of _set_val: the first name that fits takes the value; an unknown one is only
-- reported.
unfoldable pub set_named : Bytes → TLong → StatsCfg → StatsCfg
set_named ptr value st = elim (set_val st.cpu ptr (codes "cpu") value) [
  | some v ↦ record st { cpu = v }
  | none ↦ elim (set_val st.write ptr (codes "write") value) [
    | some v ↦ record st { write = v }
    | none ↦ elim (set_val st.read ptr (codes "read") value) [
      | some v ↦ record st { read = v }
      | none ↦ elim (set_val st.slow ptr (codes "slow") value) [
        | some v ↦ record st { slow = v }
        | none ↦ st
      ]
    ]
  ]
]

-- The name of a `user` element.
unfoldable pub account_name : Option Bytes → Option Bytes → Result Bytes
account_name none none = stops no_user_name
account_name (some account) (some mysql_name) = stops two_user_names
account_name (some account) none = returns account
account_name none (some mysql_name) = returns mysql_name

abbrev pub is_account : Option Bytes → Bool
is_account none = false
is_account (some account) = true

abbrev pub mode_or_restrict : Option Bytes → Result ModeType
mode_or_restrict none = returns restrict_mode
mode_or_restrict (some s) = mode_type_str_to_enum s

module _ (system : System) where
  -- The value of a period: -1 if the attribute is absent.
  abbrev pub period_value : Option Bytes → ℤ
  period_value none = negsuc 0
  period_value (some s) = system.atof s

  unfoldable pub limit_values : Node → Bytes → Bytes → Result TLong
  unfolding parse_period
  limit_values inner_xml ptr val_ptr =
      if streq ptr (codes "slow")
      then (do
        seconds ← parse_period val_ptr
        returns
            (record { current = pos seconds; short = negsuc 0; mid = negsuc 0; long = negsuc 0 }))
      else returns (record {
        current = system.atof val_ptr;
        short = period_value (get_elem_attr inner_xml (codes "short"));
        mid = period_value (get_elem_attr inner_xml (codes "mid"));
        long = period_value (get_elem_attr inner_xml (codes "long"));
      })

  unfoldable pub set_stats_limit : Node → StatsCfg → Result StatsCfg
  unfolding limit_values set_named
  set_stats_limit inner_xml st = do
    val_ptr ← required no_current (get_elem_attr inner_xml (codes "current"))
    ptr ← required null_string (get_elem_attr inner_xml (codes "name"))
    value ← limit_values inner_xml ptr val_ptr
    returns (set_named ptr value st)

  -- The loop over the `limit` children.
  unfoldable pub set_limits : Node → StatsCfg → Result StatsCfg
  unfolding set_stats_limit each_child
  set_limits tmp_xml st = each_child set_stats_limit (codes "limit") (children_of tmp_xml) st

  unfoldable pub user_limits : StatsCfg → Node → Result StatsCfg
  unfolding set_limits mode_type_str_to_enum
  user_limits default_limit tmp_xml = do
    mode ← mode_or_restrict (get_elem_attr tmp_xml (codes "mode"))
    set_limits tmp_xml (record default_limit {
      account_flag = is_account (get_elem_attr tmp_xml (codes "name"));
      mode = mode;
    })

  -- One round of the loop over the `user` elements, on the table of the accounts' limits.
  unfoldable pub add_user : StatsCfg → Node → Table StatsCfg → Result (Table StatsCfg)
  unfolding account_name user_limits
  add_user default_limit tmp_xml account_limits = do
    name ←
        account_name (get_elem_attr tmp_xml (codes "name"))
          (get_elem_attr tmp_xml (codes "mysql_name"))
    l ← user_limits default_limit tmp_xml
    returns (insert name l account_limits)

  unfoldable pub add_users_of : StatsCfg → Nodes → Table StatsCfg → Result (Table StatsCfg)
  unfolding add_user each_child
  add_users_of default_limit top account_limits =
      each_child (add_user default_limit) (codes "user") top account_limits

-- config_add_work_user: `sizeof (Stats)` bytes of the default limits are copied, three numbers of the
-- first four. The rest of `l` is 0.
abbrev pub all_zero : TLong
all_zero = record { current = pos 0; short = pos 0; mid = pos 0; long = pos 0 }

unfoldable pub work_user_limits : StatsCfg → StatsCfg
work_user_limits default_limit = record {
  cpu = record default_limit.cpu { long = pos 0 };
  write = all_zero;
  read = all_zero;
  slow = all_zero;
  account_flag = false;
  mode = ignore_mode;
}

unfoldable pub config_add_work_user : Option Bytes → GovernorConfig → GovernorConfig
unfolding work_user_limits
config_add_work_user none cfg = cfg
config_add_work_user (some []) cfg = cfg
config_add_work_user (some (c ∷ s)) cfg = elim (lookup (c ∷ s) cfg.account_limits) [
  | none ↦ record cfg {
    account_limits = insert (c ∷ s) (work_user_limits cfg.default_limit) cfg.account_limits;
  }
  | some ptr ↦ cfg
]
