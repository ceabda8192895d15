-- ===== src/Config/Init/Accounts.antt =====
-- The limits that an account has by the configuration of a file.
use mysql_governor.Base.{
  ◌≤◌, ◌≡◌, refl, ap, ◌∙◌, subst, ◌≢◌, Option, none, some, [], Bytes, codes, streq_self, lookup,
}
use mysql_governor.Data.{restrict_mode, ignore_mode, StatsCfg, GovernorConfig}
use mysql_governor.Config.Result.{returns, Returns-eq}
use mysql_governor.Xml.{Node, children_of, find_element_with_name}
use mysql_governor.Overlimit.{config_get_account_limit}
use mysql_governor.Config.Limits.{System, config_add_work_user, work_user_limits}
use mysql_governor.Config.Limits.Users.{entry_of, EntryBy, add_users_of-entry_of}
use mysql_governor.Xml.Removal.{count_below, count-remove_below, find-below_zero}
use mysql_governor.Config.Limits.WorkUser.{config_get_account_limit-config_add_work_user}
use mysql_governor.Config.Init.Sound.{config_init-IsSound}
use mysql_governor.Config.Limits.Own.{IsUserLimits, user_limits-IsUserLimits}
use mysql_governor.Config.Children.Last.{Decided}
use mysql_governor.Config.Init.{fill, Initialised, config_init, reread_config}
use mysql_governor.Config.Init.Reading.{Behind, config_init-IsReading}

-- By its last element in the file, or by default.
abbrev pub Limited : System → GovernorConfig → Bytes → Option Node → Type 0
Limited system cfg k none = config_get_account_limit cfg k ≡ cfg.default_limit
Limited system cfg k (some n) =
    IsUserLimits system cfg.default_limit n (config_get_account_limit cfg k)

look_up-none :
    (cfg : GovernorConfig) (k : Bytes)
    → lookup k cfg.account_limits ≡ none
    → config_get_account_limit cfg k ≡ cfg.default_limit
unfolding config_get_account_limit
look_up-none cfg k h = rw (h, config_get_account_limit) refl

look_up-some :
    (cfg : GovernorConfig) (k : Bytes) (l : StatsCfg)
    → lookup k cfg.account_limits ≡ some l
    → config_get_account_limit cfg k ≡ l
unfolding config_get_account_limit
look_up-some cfg k l h = rw (h, config_get_account_limit) refl

limits_by_table :
    (system : System) (cfg : GovernorConfig) (k : Bytes) (n : Option Node)
    → Decided (EntryBy system cfg.default_limit) n none (lookup k cfg.account_limits)
    → Limited system cfg k n
limits_by_table system cfg k none h = look_up-none cfg k h
limits_by_table system cfg k (some n) h =
    rw (look_up-some cfg k h.0 h.2) (user_limits-IsUserLimits system cfg.default_limit n h.0 h.1)

-- The table of the accounts' limits of the configuration is that of the file.
table_of_file :
    (system : System) (root : Node) (r : Initialised) (k : Bytes)
    → Behind system root r
    → Decided
        (EntryBy system r.cfg.default_limit)
        (entry_of k (children_of root))
        none
        (lookup k r.cfg.account_limits)
unfolding fill lookup
table_of_file system root r k (parts, h, e, _) = rw e (
    Returns-eq
      (λ t.
        Decided (EntryBy system parts.default_limit) (entry_of k (children_of root)) none
          (lookup k t))
      _ parts.account_limits
      (add_users_of-entry_of system parts.default_limit k (children_of root) []) h.reads_users)

-- After a configuration file has been read, the limits looked up for a name are the default limits
-- if the file has no user element of that name; otherwise each number is that of the last limit
-- child for its resource in the last such element, or the default if there is none, and mode and
-- kind of the account are those of the element.
pub config_get_account_limit-config_init :
    (system : System) (root : Node) (r : Initialised) (k : Bytes)
    → config_init system (some root) ≡ returns r
    → Limited system r.cfg k (entry_of k (children_of root))
config_get_account_limit-config_init system root r k e =
    limits_by_table system r.cfg k (entry_of k (children_of root)) (
      table_of_file system root r k
        (Returns-eq (Behind system root) _ r (config_init-IsReading system root) e))

-- The tree that is saved has no connector, if the file has only one.
pub duplicate_lem :
    (system : System) (root : Node) (r : Initialised)
    → config_init system (some root) ≡ returns r
    → count_below (codes "connector") root ≤ 1
    → find_element_with_name r.duplicate (codes "connector") ≡ none
duplicate_lem system root r e h =
    rw (Returns-eq (Behind system root) _ r (config_init-IsReading system root) e).3
      ((find-below_zero (codes "connector") _).1 (count-remove_below (codes "connector") root h))

reread_lem :
    (system : System) (xml : Option Node) (r : Initialised)
    → config_init system xml ≡ returns r
    → reread_config system xml ≡ returns r.cfg
unfolding reread_config
reread_lem system xml r e = rw e refl

own_limits :
    (name : Bytes) (cfg : GovernorConfig)
    → name ≢ []
    → lookup name cfg.account_limits ≡ none
    → config_get_account_limit (config_add_work_user (some name) cfg) name
      ≡ work_user_limits cfg.default_limit
own_limits name cfg h e =
    config_get_account_limit-config_add_work_user name name cfg h ∙ rw (e, streq_self name) refl

work_user_limits-ignored : (d : StatsCfg) → (work_user_limits d).mode ≡ ignore_mode
unfolding work_user_limits
work_user_limits-ignored d = refl

-- The governor's own user is ignored at first, and restricted after the file is read again.
pub work_user_is_lost :
    (system : System) (root : Node) (r : Initialised) (name : Bytes)
    → config_init system (some root) ≡ returns r
    → entry_of name (children_of root) ≡ none
    → name ≢ []
    → ((config_get_account_limit (config_add_work_user (some name) r.cfg) name).mode ≡ ignore_mode)
      × (reread_config system (some root) ≡ returns r.cfg)
      × ((config_get_account_limit r.cfg name).mode ≡ restrict_mode)
work_user_is_lost system root r name e none_of h = (
  ap (λ l. l.mode) (own_limits name r.cfg h not_there)
      ∙ work_user_limits-ignored r.cfg.default_limit,
  reread_lem system (some root) r e,
  ap (λ l. l.mode) (look_up-none r.cfg name not_there)
      ∙ (config_init-IsSound system (some root) r e).mode,
)
  where
    not_there : lookup name r.cfg.account_limits ≡ none
    not_there =
        subst
          (λ o.
            Decided (EntryBy system r.cfg.default_limit) o none (lookup name r.cfg.account_limits))
          none_of
          (table_of_file system root r name
            (Returns-eq (Behind system root) _ r (config_init-IsReading system root) e))
