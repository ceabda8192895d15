-- ===== src/Config/Limits/WorkUser.antt =====
-- The governor's own user of the database server.
use mysql_governor.Base.{
  ◌≡◌, refl, ◌≢◌, inl, inr, Option, none, some, [], ◌∷◌, if◌then◌else◌, Bool-cases, Option-cases,
  Bytes, streq, lookup, insert, lookup-insert,
}
use mysql_governor.Data.{StatsCfg, GovernorConfig}
use mysql_governor.Overlimit.{config_get_account_limit}
use mysql_governor.Config.Limits.{work_user_limits, config_add_work_user}

abbrev by_entry : GovernorConfig → Bytes → Option StatsCfg → Bytes → StatsCfg
by_entry cfg name none k =
    if streq name k then work_user_limits cfg.default_limit else config_get_account_limit cfg k
by_entry cfg name (some l) k = config_get_account_limit cfg k

inserted_limit :
    (cfg : GovernorConfig) (name k : Bytes) (l : StatsCfg)
    → config_get_account_limit (record cfg { account_limits = insert name l cfg.account_limits }) k
      ≡ (if streq name k then l else config_get_account_limit cfg k)
unfolding config_get_account_limit
inserted_limit cfg name k l = elim (Bool-cases (streq name k)) [
  | inl e ↦ rw (lookup-insert name k l cfg.account_limits, e, config_get_account_limit) refl
  | inr e ↦ rw (lookup-insert name k l cfg.account_limits, e, config_get_account_limit) refl
]

add_entry :
    (name : Bytes) (cfg : GovernorConfig)
    → name ≢ []
    → config_add_work_user (some name) cfg ≡ elim (lookup name cfg.account_limits) [
      | none ↦ record cfg {
        account_limits = insert name (work_user_limits cfg.default_limit) cfg.account_limits;
      }
      | some l ↦ cfg
    ]
unfolding config_add_work_user
add_entry [] cfg h = absurd (h refl)
add_entry (c ∷ s) cfg h = refl

-- Unless the table has an entry for it, the user gets limits of its own; nothing else changes.
pub config_get_account_limit-config_add_work_user :
    (name k : Bytes) (cfg : GovernorConfig)
    → name ≢ []
    → config_get_account_limit (config_add_work_user (some name) cfg) k
      ≡ by_entry cfg name (lookup name cfg.account_limits) k
config_get_account_limit-config_add_work_user name k cfg h =
    rw (add_entry name cfg h) (elim (Option-cases (lookup name cfg.account_limits)) [
      | inl e ↦ rw e (inserted_limit cfg name k (work_user_limits cfg.default_limit))
      | inr e ↦ rw e.1 refl
    ])
