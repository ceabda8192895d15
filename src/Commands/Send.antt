-- ===== src/Commands/Send.antt =====
-- commands.c: the sending of the queued commands, by a thread of its own: the list in shared memory,
-- the limits of the server's users, and the flag that keeps a second thread from starting.
pub mod Delivery
pub mod Lists
pub mod Cycle
use mysql_governor.Base.{
  ℕ, ◌+◌, Bool, true, false, not, ◌&&◌, Option, none, some, List, [], ◌∷◌, ◌++◌, ltb, ◌==◌,
  if◌then◌else◌, length, ℤ, pos, ltb_ℤ, eqb_ℤ, Bytes, strlcpy,
}
use mysql_governor.Base.Number.{unsigned_of_int}
use mysql_governor.Data.{
  ModeType, debug_mode, CommandType, freeze, unfreeze, Command, GovernorConfig, username_max_len,
}
use mysql_governor.BadList.{BadList, add_user_to_list, delete_user_from_list}
use mysql_governor.Commands.Queue.{Queue}

-- What goes to the server and to the logs.
pub data Sent : Type 0 where
  -- update_user_limit_no_flush
  user_limit : Bytes → ℕ → Sent
  -- flush_user_priv
  flush_user_priv : Sent
  -- log_user_queries
  log_user_queries : Bytes → Sent
  cant_add_user cant_delete_user : Bytes → Sent

-- The static variables, with the list in shared memory.
pub record Sending : Type 0 where
  pub command_list : Queue
  pub command_list_send : Queue
  pub is_send_command_cycle : Bool
  pub is_any_flush : Bool
  pub bad_list : Option BadList
  pub sent : List Sent

-- What a call finds: what get_uid answers, and whether sem_wait succeeds.
pub record Host : Type 0 where
  pub mapped : Bytes → Option ℤ
  pub waits : Bool

unfoldable pub put_out : Sent → Sending → Sending
put_out e st = record st { sent = st.sent ++ e ∷ [] }

abbrev is_debug : ModeType → Bool
is_debug debug_mode = true
is_debug other = false

-- `if (data_cfg.max_user_connections) …`, with the new limit of the user.
unfoldable pub limit_user : GovernorConfig → Bytes → ℤ → Sending → Sending
unfolding put_out
limit_user cfg username n st =
    if eqb_ℤ cfg.max_user_connections (pos 0)
    then st
    else record (put_out (user_limit username (unsigned_of_int n)) st) { is_any_flush = true }

unfoldable pub report : GovernorConfig → Sent → Sending → Sending
unfolding put_out
report cfg e st = if is_debug cfg.log_mode then put_out e st else st

abbrev pub to_send : Queue → List (Option Command)
to_send none = []
to_send (some l) = l

module _ (max_items_in_table : ℕ) (cfg : GovernorConfig) where
  -- The branch FREEZE with use_lve.
  unfoldable pub freeze_in_list : Host → Bytes → Sending → Sending
  unfolding add_user_to_list limit_user report
  freeze_in_list host username st =
      let (r, l) =
        add_user_to_list max_items_in_table host.waits (host.mapped username) username cfg.all_lve
          st.bad_list in
      let st1 = record st { bad_list = l } in
      if ltb_ℤ r (pos 0)
      then report cfg (cant_add_user username) st1
      else limit_user cfg username cfg.max_user_connections st1

  -- The branch UNFREEZE with use_lve.
  unfoldable pub unfreeze_in_list : Host → Bytes → Sending → Sending
  unfolding delete_user_from_list limit_user report
  unfreeze_in_list host username st =
      let (r, l) = delete_user_from_list (λ i. host.waits) username st.bad_list in
      let st1 = record st { bad_list = l } in
      limit_user cfg username (pos 0)
        (if ltb_ℤ r (pos 0) then report cfg (cant_delete_user username) st1 else st1)

  unfoldable pub send_command : Host → CommandType → Bytes → Sending → Sending
  unfolding freeze_in_list unfreeze_in_list limit_user put_out
  send_command host freeze username st =
      let st1 = if cfg.use_lve then freeze_in_list host username st else st in
      if cfg.logqueries_use == 1 then put_out (log_user_queries username) st1 else st1
  send_command host unfreeze username st =
      if cfg.use_lve then unfreeze_in_list host username st else limit_user cfg username (pos 0) st
  send_command host other username st = st

  unfoldable pub send_commands : Host → Option Command → Sending → Sending
  unfolding send_command
  send_commands host none st = st
  send_commands host (some cmd) st = send_command host cmd.command cmd.username st

  -- g_list_foreach (command_list_send, send_commands, NULL), one host for each call.
  unfoldable pub send_each : (ℕ → Host) → ℕ → List (Option Command) → Sending → Sending
  unfolding send_commands
  send_each hosts i [] st = st
  send_each hosts i (c ∷ cs) st = send_each hosts (i + 1) cs (send_commands (hosts i) c st)

  unfoldable pub send_commands_cycle_in : (ℕ → Host) → Sending → Sending
  unfolding send_each put_out
  send_commands_cycle_in hosts st =
      let st1 =
        send_each hosts 0 (to_send st.command_list_send) (record st { is_any_flush = false }) in
      let st2 =
        if not (eqb_ℤ cfg.max_user_connections (pos 0)) && st1.is_any_flush
        then put_out flush_user_priv st1
        else st1 in
      record st2 { is_any_flush = false; is_send_command_cycle = false }

-- copy_commands, for each command of the list: a command whose name fits its buffer is copied.
unfoldable pub copy_commands : List (Option Command) → List (Option Command)
copy_commands [] = []
copy_commands (none ∷ l) = copy_commands l
copy_commands (some cmd ∷ l) =
    some (record { username = strlcpy cmd.username username_max_len; command = cmd.command })
    ∷ copy_commands l

-- reinit_command_list and reinit_command_list_send: one node that holds NULL.
abbrev pub new_list : Queue
new_list = some (none ∷ [])

unfoldable pub send_command_copy_list : Sending → Sending
unfolding copy_commands
send_command_copy_list st = record st {
  command_list = new_list;
  command_list_send = some (none ∷ copy_commands (to_send st.command_list));
}

-- send_commands_cycle: whether it starts the thread, and the state.
unfoldable pub send_commands_cycle : GovernorConfig → Sending → Bool × Sending
unfolding send_command_copy_list
send_commands_cycle cfg st =
    if cfg.is_gpl
    then (false, st)
    else if st.is_send_command_cycle
    then (false, st)
    else start (send_command_copy_list (record st { is_send_command_cycle = true }))
  where
    start : Sending → Bool × Sending
    start st1 =
        if ltb 0 (length (to_send st1.command_list_send))
        then (true, st1)
        else (false, record st1 { is_send_command_cycle = false })
