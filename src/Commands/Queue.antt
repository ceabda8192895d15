-- ===== src/Commands/Queue.antt =====
-- What account_restrict and account_unrestrict leave in the command queue.
use mysql_governor.Base.{
  ◌≡◌, refl, sym, ap, ◌∙◌, Bool, true, not, ◌&&◌, Option, none, some, List, [], ◌∷◌, ◌++◌, arith,
  ◌==◌, if◌then◌else◌, Bytes, strlcpy,
}
use mysql_governor.Base.Double.{Double, hundredths}
use mysql_governor.Data.{
  StatsCfg, CommandType, freeze, unfreeze, Command, GovernorConfig, username_max_len,
}
use mathlib.Core.List.{append_assoc, append-nil}
use mysql_governor.Account.{Account, World, emit}
use mysql_governor.Commands.{
  append_command, unfreeze_users, freeze_user, freeze_users, account_unrestrict, run_script,
  account_restrict,
}

abbrev pub Queue : Type 0
Queue = Option (List (Option Command))

abbrev pub commands_for : CommandType → List Bytes → List (Option Command)
commands_for c [] = []
commands_for c (u ∷ us) =
    some (record { username = strlcpy u username_max_len; command = c }) ∷ commands_for c us

-- One command for each of the users, in order, at the end of a queue that is there.
abbrev pub enqueue : CommandType → List Bytes → Queue → Queue
enqueue c us none = none
enqueue c us (some l) = some (l ++ commands_for c us)

-- The configuration lets the governor freeze and unfreeze users.
abbrev pub freezes : GovernorConfig → Bool
freezes cfg = not cfg.is_gpl && (not cfg.all_lve && cfg.use_lve)

enqueue_one :
    (c : CommandType) (u : Bytes) (us : List Bytes) (q : Queue)
    → enqueue c us (enqueue c (u ∷ []) q) ≡ enqueue c (u ∷ us) q
enqueue_one c u us none = refl
enqueue_one c u us (some l) = ap some (append_assoc l _ (commands_for c us))

enqueue-nil : (c : CommandType) (q : Queue) → enqueue c [] q ≡ q
enqueue-nil c none = refl
enqueue-nil c (some l) = ap some (append-nil l)

queue-append_command :
    (c : CommandType) (u : Bytes) (w : World)
    → (append_command c u w).command_list ≡ enqueue c (u ∷ []) w.command_list
unfolding append_command
queue-append_command c u w = ground arith

queue-freeze_user :
    (before : Bool) (u : Bytes) (w : World)
    → (freeze_user before u w).command_list ≡ enqueue freeze (u ∷ []) w.command_list
unfolding freeze_user append_command emit
queue-freeze_user before u w = ground arith

queue-unfreeze_users :
    (us : List Bytes) (w : World)
    → (unfreeze_users us w).command_list ≡ enqueue unfreeze us w.command_list
unfolding unfreeze_users
queue-unfreeze_users [] w = sym (enqueue-nil unfreeze w.command_list)
queue-unfreeze_users (u ∷ us) w =
    queue-unfreeze_users us (append_command unfreeze u w)
    ∙ ap (enqueue unfreeze us) (queue-append_command unfreeze u w)
    ∙ enqueue_one unfreeze u us w.command_list

queue-freeze_users :
    (before : Bool) (us : List Bytes) (w : World)
    → (freeze_users before us w).command_list ≡ enqueue freeze us w.command_list
unfolding freeze_users
queue-freeze_users before [] w = sym (enqueue-nil freeze w.command_list)
queue-freeze_users before (u ∷ us) w =
    queue-freeze_users before us (freeze_user before u w)
    ∙ ap (enqueue freeze us) (queue-freeze_user before u w)
    ∙ enqueue_one freeze u us w.command_list

restricts-freeze_users :
    (before : Bool) (us : List Bytes) (w : World)
    → (freeze_users before us w).restricts ≡ w.restricts
unfolding freeze_users freeze_user append_command emit
restricts-freeze_users before [] w = refl
restricts-freeze_users before (u ∷ us) w =
    restricts-freeze_users before us (freeze_user before u w) ∙ one
  where
    one : (freeze_user before u w).restricts ≡ w.restricts
    one = ground arith

module _ {D : Type 0} ⦃dbl : Double D⦄ (cfg : GovernorConfig) where
  queue-run_script :
      (path : Option Bytes) (ac : Account D) (sl : StatsCfg) (w : World)
      → (run_script path ac sl w).command_list ≡ w.command_list
  unfolding run_script emit
  queue-run_script none ac sl w = refl
  queue-run_script (some path) ac sl w = refl

  pub queue-account_restrict :
      (ac : Account D) (sl : StatsCfg) (w : World)
      → (account_restrict cfg ac sl w).command_list
        ≡ (if freezes cfg then enqueue freeze ac.users w.command_list else w.command_list)
  unfolding account_restrict
  queue-account_restrict ac sl w =
      let w' = freeze_users (cfg.logqueries_use == 2) ac.users w in
      ground (
        arith,
        queue-run_script cfg.exec_script ac sl w',
        queue-freeze_users (cfg.logqueries_use == 2) ac.users w,
      )

  -- The counters of restrictions are not its business.
  pub restricts-account_restrict :
      (ac : Account D) (sl : StatsCfg) (w : World)
      → (account_restrict cfg ac sl w).restricts ≡ w.restricts
  unfolding account_restrict run_script emit
  restricts-account_restrict ac sl w =
      ground (arith, restricts-freeze_users (cfg.logqueries_use == 2) ac.users w)

module _ {D : Type 0} (cfg : GovernorConfig) where
  pub queue-account_unrestrict :
      (ac : Account D) (w : World)
      → freezes cfg ≡ true
      → (account_unrestrict cfg ac w).command_list ≡ enqueue unfreeze ac.users w.command_list
  unfolding account_unrestrict
  queue-account_unrestrict ac w h = ground (arith, queue-unfreeze_users ac.users w)
