-- ===== src/Commands/Tests.antt =====
-- A run of the two threads, and the theorem on cycles applied to it.
use mysql_governor.Base.{
  ℕ, ◌≡◌, refl, true, false, Option, none, some, List, [], ◌∷◌, ◌++◌, arith, replicate, pos, Bytes,
  codes, streq,
}
use mysql_governor.Data.{CommandType, freeze, unfreeze, Command}
use Prim.Native.String.{String}
use mysql_governor.BadList.{BadList}
use mysql_governor.BadList.Listed.{listed, present}
use mysql_governor.BadList.Distinct.{Fits}
use mysql_governor.Commands.Replay.{frozen}
use mysql_governor.Commands.Send.{Sending, Host, send_commands_cycle, send_commands_cycle_in}
use mysql_governor.Commands.Send.Cycle.{
  Run, start, goes_on, queues, cycles, delivers, IsInitial, cycle-frozen,
}
use mysql_governor.Fixtures.{config}

abbrev bob_listed : BadList
bob_listed = record {
  numbers = 1;
  items =
      record { username = codes "bob"; uid = pos 7 }
      ∷ replicate 7 (record { username = []; uid = pos 0 });
}

abbrev host : ℕ → Host
host i = record { mapped = λ u. none; waits = true }

abbrev at_rest : Sending
at_rest = record {
  command_list = some (none ∷ []);
  command_list_send = none;
  is_send_command_cycle = false;
  is_any_flush = false;
  bad_list = some bob_listed;
  sent = [];
}

abbrev order : CommandType → String → Option Command
order c u = some (record { username = codes u; command = c })

abbrev freeze_alice : List (Option Command)
freeze_alice = order freeze "alice" ∷ []

abbrev unfreeze_bob : List (Option Command)
unfreeze_bob = order unfreeze "bob" ∷ []

abbrev queued : Sending
queued = record at_rest { command_list = some (none ∷ freeze_alice) }

abbrev busy : Sending
busy = (send_commands_cycle config queued).1

abbrev sent_once : Sending
sent_once = send_commands_cycle_in 8 config host busy

abbrev queued_again : Sending
queued_again = record sent_once { command_list = some (none ∷ unfreeze_bob) }

history : Run 8 config (((([] ++ freeze_alice) ++ []) ++ []) ++ unfreeze_bob) at_rest queued_again
unfolding send_commands_cycle send_commands_cycle_in streq
history =
    goes_on
      (goes_on
        (goes_on
          (goes_on (start at_rest)
            (queues at_rest (none ∷ []) freeze_alice refl (omega arith, tt, tt)))
          (cycles queued))
        (delivers busy host (λ j. refl) refl))
      (queues sent_once (none ∷ []) unfreeze_bob refl (omega arith, tt, tt))

at_rest-IsInitial : IsInitial 8 bob_listed at_rest
unfolding present
at_rest-IsInitial = record {
  idle = refl;
  no_command = refl;
  has_list = refl;
  fits = record { storage = refl; room = omega arith };
  distinct = (omega arith, refl, tt);
}

sent_once_idle : queued_again.is_send_command_cycle ≡ false
unfolding send_commands_cycle_in
sent_once_idle = refl

cycle-frozen_example :
    (l : BadList) × ((send_commands_cycle_in 8 config host
        (send_commands_cycle config queued_again).1).bad_list
      ≡ some l)
    × ((v : Bytes)
        → Fits v
        → present v (listed l)
          ≡ frozen (freeze_alice ++ unfreeze_bob) v (present v (listed bob_listed)))
cycle-frozen_example =
    cycle-frozen 8 config bob_listed (freeze_alice ++ unfreeze_bob) at_rest queued_again host refl
      refl at_rest-IsInitial history (omega arith) sent_once_idle (λ j. refl)
