-- ===== src/Server/Tests.antt =====
-- Messages and events, and the theorems on them at concrete data.
use mysql_governor.Base.{
  ℕ, zero, suc, ◌≡◌, refl, true, false, Option, none, some, List, [], ◌∷◌, map, ℤ, pos, codes,
}
use mysql_governor.Base.Double.{Hundredths, hundredths}
use mysql_governor.TidTable.{ClientData}
use mysql_governor.Server.{Received, message, would_block, Pollfd, Server, Net, poll_loop, rounds}
use mysql_governor.Server.Loop.{Ended, poll_loop-Ended}

abbrev first : ClientData
first = record {
  type = pos 0;
  tid = pos 17;
  pid = pos 9;
  username = codes "alice";
  cpu = pos 5;
  write = pos 100;
  read = pos 200;
  update_time = pos 1000;
  naoseconds = pos 0;
}

abbrev last : ClientData
last = record first { type = pos 1; write = pos 400; read = pos 260 }

abbrev blocked_twice : ℕ → Received
blocked_twice zero = would_block
blocked_twice (suc zero) = would_block
blocked_twice other = message first

abbrev quiet_fd : ℤ → Pollfd
quiet_fd fd = record {
  fd = fd;
  pollin = false;
  pollnval = false;
  pollhup = false;
  pollrdhup = false;
  pollerr = false;
}

abbrev three : Server Hundredths
three = record {
  before = [];
  rest =
      record (quiet_fd (pos 3)) { pollin = true }
      ∷ record (quiet_fd (pos 4)) { pollhup = true }
      ∷ record (quiet_fd (pos 5)) { pollin = true }
      ∷ [];
  ret = 3;
  threads = [];
  counters = [];
  cleanups = [];
  handled = 0;
}

abbrev net : Net Hundredths
net = record {
  socket = pos 3;
  accepts = λ j. some (quiet_fd (pos 6));
  receives = λ j. blocked_twice;
  fcntl_fails = λ j. false;
  now = λ j. pos 100050;
  visits = λ j fd threads. threads;
}

poll_loop-Ended_example : (s' : Server Hundredths) × (poll_loop net three ≡ some s') × Ended s'
poll_loop-Ended_example = poll_loop-Ended net three

-- The end of the second connection makes the loop pass over the third, whose event is left.
abbrev fds_after : Option (Server Hundredths) → List ℤ
fds_after none = []
fds_after (some s) = map (λ p. p.fd) s.before

abbrev ret_after : Option (Server Hundredths) → ℕ
ret_after none = 0
ret_after (some s) = s.ret

passed_over :
    (fds_after (poll_loop net three) ≡ pos 3 ∷ pos 5 ∷ pos 6 ∷ [])
    × (ret_after (poll_loop net three) ≡ 1)
unfolding poll_loop rounds
passed_over = (refl, refl)
