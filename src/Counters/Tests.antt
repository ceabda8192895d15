-- ===== src/Counters/Tests.antt =====
-- Runs of the counters, and their theorem at one user.
use mysql_governor.Base.{
  ◌≡◌, refl, [], ◌∷◌, arith, if◌then◌else◌, pos, ◌+ℤ◌, ◌-ℤ◌, ◌*ℤ◌, div_ℤ, streq, Table, lookup,
  insert,
}
use mysql_governor.Base.Double.{Hundredths, hundredths, div_hundredths, floor_hundredths}
use mysql_governor.Fixtures.{user}
use mysql_governor.TidTable.{TidData}
use mysql_governor.Users.{StatCounters}
use mysql_governor.Counters.{
  increment_counters, clac_stats_difference_inner_add_to_counters, transfers,
  transfers-increment_counters,
}

abbrev counters : Table (StatCounters Hundredths)
counters =
    (user, record { s = record { cpu = pos 0; write = pos 4; read = pos 6 }; tm = pos 100 }) ∷ []

abbrev thread : TidData
thread = record {
  username = user;
  cpu = pos 10;
  read = pos 30;
  write = pos 8;
  update_time = pos 1;
  naoseconds = pos 0;
  pid = pos 300;
  fd = pos 4;
}

-- Two seconds later: half of the growth of 20 is added, and a counter that fell adds nothing.
half :
    transfers (
      lookup user (
        clac_stats_difference_inner_add_to_counters
          (pos 10)
          (pos 50)
          (pos 2)
          thread
          (pos 100)
          (pos 300)
          counters))
    ≡ (pos 16, pos 4)
unfolding clac_stats_difference_inner_add_to_counters lookup insert streq ◌+ℤ◌ ◌-ℤ◌ ◌*ℤ◌ div_ℤ
    div_hundredths floor_hundredths
half = refl

transfers-increment_counters_example :
    transfers (lookup user (increment_counters user (pos 1) (pos 2) (pos 3) (pos 100) counters)) ≡ (
      if streq user user
      then (
        (transfers (lookup user counters)).0 +ℤ pos 2,
        (transfers (lookup user counters)).1 +ℤ pos 3,
      )
      else transfers (lookup user counters))
transfers-increment_counters_example =
    transfers-increment_counters user user (pos 1) (pos 2) (pos 3) (pos 100) counters (omega arith)
