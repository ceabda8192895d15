-- ===== src/Commands/Send/Lists.antt =====
-- What the sending does to the lists of commands, of both threads.
use mysql_governor.Base.{
  Bool-either, ℕ, suc, ◌+◌, ◌≡◌, refl, ap, ◌∙◌, Bool, true, false, not, ◌&&◌, Option, none, some,
  List, [], ◌∷◌, ◌++◌, arith, if◌then◌else◌, ℤ, pos, eqb_ℤ, Bytes,
}
use mysql_governor.Data.{CommandType, exit, freeze, unfreeze, slow_query, Command, GovernorConfig}
use mysql_governor.BadList.Distinct.{stored_name}
use mysql_governor.Commands.Replay.{frozen}
use mysql_governor.Commands.Send.{
  send_commands, send_command, freeze_in_list, unfreeze_in_list, limit_user, report, Sent, Sending,
  Host, send_each, send_commands_cycle_in, copy_commands, to_send, put_out, flush_user_priv,
}
use mysql_governor.Commands.Send.Delivery.{Orders, count}

-- The commands that the sending thread has still to send.
abbrev pub pending : Sending → List (Option Command)
pending st = if st.is_send_command_cycle then to_send st.command_list_send else []

pub count-append : (l m : List (Option Command)) → count (l ++ m) ≡ count l + count m
count-append [] m = omega arith
count-append (none ∷ l) m = count-append l m
count-append (some c ∷ l) m = omega (arith, count-append l m)

pub Orders-append : (l m : List (Option Command)) → Orders l → Orders m → Orders (l ++ m)
Orders-append [] m h k = k
Orders-append (none ∷ l) m h k = Orders-append l m h k
Orders-append (some c ∷ l) m (f, o, h) k = (f, o, Orders-append l m h k)

pub count-copy_commands : (l : List (Option Command)) → count (copy_commands l) ≡ count l
unfolding copy_commands
count-copy_commands [] = refl
count-copy_commands (none ∷ l) = count-copy_commands l
count-copy_commands (some c ∷ l) = ap suc (count-copy_commands l)

pub Orders-copy_commands : (l : List (Option Command)) → Orders l → Orders (copy_commands l)
unfolding copy_commands
Orders-copy_commands [] h = tt
Orders-copy_commands (none ∷ l) h = Orders-copy_commands l h
Orders-copy_commands (some c ∷ l) (f, o, h) =
    (rw (stored_name c.username f) f, o, Orders-copy_commands l h)

pub frozen-copy_commands :
    (l : List (Option Command)) (v : Bytes) (b : Bool)
    → Orders l
    → frozen (copy_commands l) v b ≡ frozen l v b
unfolding copy_commands frozen
frozen-copy_commands [] v b h = refl
frozen-copy_commands (none ∷ l) v b h = frozen-copy_commands l v b h
frozen-copy_commands (some c ∷ l) v b (f, o, h) =
    rw (stored_name c.username f) (frozen-copy_commands l v _ h)

pub some_injective : {A : Type 0} {o : Option A} (a b : A) → o ≡ some a → o ≡ some b → a ≡ b
some_injective a b e f = ground arith

-- What the thread sends leaves the queue of the governor's thread.
module _ (max : ℕ) (cfg : GovernorConfig) where
  queue-limit_user :
      (u : Bytes) (n : ℤ) (st : Sending) → (limit_user cfg u n st).command_list ≡ st.command_list
  unfolding limit_user put_out
  queue-limit_user u n st = ground arith

  queue-report : (e : Sent) (st : Sending) → (report cfg e st).command_list ≡ st.command_list
  unfolding report put_out
  queue-report e st = ground arith

  queue-freeze_in_list :
      (host : Host) (u : Bytes) (st : Sending)
      → (freeze_in_list max cfg host u st).command_list ≡ st.command_list
  unfolding freeze_in_list
  queue-freeze_in_list host u st =
      Bool-either {A = Sending} (λ s. s.command_list ≡ st.command_list) _ (queue-report _ _)
        (queue-limit_user u _ _)

  queue-unfreeze_in_list :
      (host : Host) (u : Bytes) (st : Sending)
      → (unfreeze_in_list max cfg host u st).command_list ≡ st.command_list
  unfolding unfreeze_in_list
  queue-unfreeze_in_list host u st =
      queue-limit_user u (pos 0) _
      ∙ Bool-either {A = Sending} (λ s. s.command_list ≡ st.command_list) _ (queue-report _ _) refl

  queue-send_command :
      (host : Host) (c : CommandType) (u : Bytes) (st : Sending)
      → (send_command max cfg host c u st).command_list ≡ st.command_list
  unfolding send_command put_out
  queue-send_command host freeze u st = ground (arith, queue-freeze_in_list host u st)
  queue-send_command host unfreeze u st =
      ground (arith, queue-unfreeze_in_list host u st, queue-limit_user u (pos 0) st)
  queue-send_command host exit u st = refl
  queue-send_command host slow_query u st = refl

  queue-send_commands :
      (host : Host) (c : Option Command) (st : Sending)
      → (send_commands max cfg host c st).command_list ≡ st.command_list
  unfolding send_commands
  queue-send_commands host none st = refl
  queue-send_commands host (some c) st = queue-send_command host c.command c.username st

  queue-send_each :
      (hosts : ℕ → Host) (i : ℕ) (cs : List (Option Command)) (st : Sending)
      → (send_each max cfg hosts i cs st).command_list ≡ st.command_list
  unfolding send_each
  queue-send_each hosts i [] st = refl
  queue-send_each hosts i (c ∷ cs) st =
      queue-send_each hosts (i + 1) cs (send_commands max cfg (hosts i) c st)
      ∙ queue-send_commands (hosts i) c st

  -- What the thread leaves, in the parts that matter to the queue and to the list.
  abbrev pub thread_end : (ℕ → Host) → Sending → Sending
  thread_end hosts st =
      send_each max cfg hosts 0 (to_send st.command_list_send) (record st { is_any_flush = false })

  pub parts-send_commands_cycle_in :
      (hosts : ℕ → Host) (st : Sending)
      → let r = send_commands_cycle_in max cfg hosts st in
        (r.command_list ≡ st.command_list)
        × (r.bad_list ≡ (thread_end hosts st).bad_list)
        × (r.is_send_command_cycle ≡ false)
  unfolding send_commands_cycle_in put_out
  parts-send_commands_cycle_in hosts st =
      flushed (not (eqb_ℤ cfg.max_user_connections (pos 0)) && (thread_end hosts st).is_any_flush)
    where
      flushed :
          (b : Bool)
          → let r =
              (if b then put_out flush_user_priv (thread_end hosts st) else thread_end hosts st) in
            (r.command_list ≡ st.command_list)
            × (r.bad_list ≡ (thread_end hosts st).bad_list)
            × (false ≡ false)
      flushed true = (queue-send_each hosts 0 (to_send st.command_list_send) _, refl, refl)
      flushed false = (queue-send_each hosts 0 (to_send st.command_list_send) _, refl, refl)
