-- ===== src/Commands.antt =====
-- commands.c: the queue of FREEZE and UNFREEZE commands that restricting and unrestricting an
-- account fills. `g_malloc` does not return NULL.
pub mod Queue
pub mod Replay
pub mod Send
mod Tests
use mysql_governor.Base.{
  Bool, not, ◌&&◌, ◌||◌, Option, none, some, List, [], ◌∷◌, ◌++◌, ◌==◌, if◌then◌else◌, pos, ◌+ℤ◌,
  Bytes, strlcpy,
}
use mysql_governor.Base.Double.{Double}
use mysql_governor.Data.{StatsCfg, CommandType, freeze, unfreeze, GovernorConfig, username_max_len}
use mysql_governor.Account.{Account, World, log_queries, script, emit}
use mysql_governor.LogDecoder.{get_period_name, get_param_name, get_restrict_value, get_limit_value}

-- One command at the end of the queue, if there is a queue.
unfoldable pub append_command : CommandType → Bytes → World → World
append_command c user w = elim w.command_list [
  | none ↦ w
  | some l ↦ record w {
    command_list =
        some (l ++ some (record { username = strlcpy user username_max_len; command = c }) ∷ []);
  }
]

-- The loop of account_unrestrict over the account's users.
unfoldable pub unfreeze_users : List Bytes → World → World
unfolding append_command
unfreeze_users [] w = w
unfreeze_users (u ∷ us) w = unfreeze_users us (append_command unfreeze u w)

-- With `before`, the queries of a user are logged when its command is queued.
freeze_user : Bool → Bytes → World → World
unfolding append_command emit
freeze_user before u w = elim w.command_list [
  | none ↦ w
  | some _ ↦
      if before
      then emit (log_queries (strlcpy u username_max_len)) (append_command freeze u w)
      else append_command freeze u w
]

-- The loop of account_restrict over the account's users.
unfoldable pub freeze_users : Bool → List Bytes → World → World
unfolding freeze_user
freeze_users before [] w = w
freeze_users before (u ∷ us) w = freeze_users before us (freeze_user before u w)

module _ {D : Type 0} where
  unfoldable pub account_unrestrict : GovernorConfig → Account D → World → World
  unfolding unfreeze_users
  account_unrestrict cfg ac w =
      if cfg.is_gpl
      then w
      else if cfg.all_lve
      then w
      else if not cfg.use_lve && not cfg.separate_lve
      then w
      else unfreeze_users ac.users w

module _ {D : Type 0} ⦃dbl : Double D⦄ where
  run_script : Option Bytes → Account D → StatsCfg → World → World
  unfolding emit ◌+ℤ◌ get_period_name get_param_name get_restrict_value get_limit_value
  run_script none ac limit w = w
  run_script (some path) ac limit w =
      emit
        (script path ac.id (get_period_name ac.info.field_restrict)
          (get_param_name ac.info.field_level_restrict) (get_restrict_value ac)
          (get_limit_value ac limit) (ac.restricted +ℤ pos 1))
        w

  unfoldable pub account_restrict : GovernorConfig → Account D → StatsCfg → World → World
  unfolding freeze_users run_script
  account_restrict cfg ac limit w =
      if cfg.is_gpl
      then w
      else if cfg.all_lve || not cfg.use_lve
      then w
      else run_script cfg.exec_script ac limit (freeze_users (cfg.logqueries_use == 2) ac.users w)
