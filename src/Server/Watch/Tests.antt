-- ===== src/Server/Watch/Tests.antt =====
-- The check of three threads: one that can be measured, one that is gone, and one that is recent.
use mysql_governor.Base.{
  ◌≡◌, refl, none, some, List, [], ◌∷◌, map, if◌then◌else◌, drop, ℤ, pos, ◌+ℤ◌, ◌*ℤ◌, eqb_ℤ, codes,
}
use mysql_governor.Base.Double.{Hundredths, hundredths, div_hundredths}
use mysql_governor.TidTable.{ClientData, Threads, lookup_tid, reported}
use mysql_governor.Server.Watch.{Watch, Clock, monitor_data_from_client}
use mysql_governor.Server.Watch.Watched.{watched, lookup_tid-monitor_data_from_client}

abbrev report : ℤ → ClientData
report sec = record {
  type = pos 0;
  tid = pos 17;
  pid = pos 9;
  username = codes "alice";
  cpu = pos 5;
  write = pos 100;
  read = pos 200;
  update_time = sec;
  naoseconds = pos 0;
}

abbrev threads : Threads
threads =
    (pos 17, reported (report (pos 1000)) (pos 3) (pos 5) (pos 200) (pos 100))
    ∷ (pos 18, reported (report (pos 1001)) (pos 3) (pos 5) (pos 200) (pos 100))
    ∷ (pos 19, reported (report (pos 1003)) (pos 4) (pos 5) (pos 200) (pos 100))
    ∷ []

abbrev clock : Clock Hundredths
clock = record {
  tv_sec = pos 1004;
  tv_nsec = pos 0;
  measures = λ k x.
      if eqb_ℤ k (pos 18)
      then none
      else some (record { cpu = pos 9; write = pos 150; read = pos 210 });
  now = λ k. pos 100400;
}

abbrev no_counters : Watch Hundredths
no_counters = record { counters = []; bad_tid_list = none }

abbrev ids : Threads → List ℤ
ids t = map (λ p. p.0) t

thread_is_removed :
    ids (monitor_data_from_client clock threads no_counters).0 ≡ pos 17 ∷ pos 19 ∷ []
unfolding monitor_data_from_client ◌*ℤ◌ ◌+ℤ◌ div_hundredths
thread_is_removed = refl

absent :
    (lookup_tid (pos 17) (drop 1 threads) ≡ none)
    × (lookup_tid (pos 18) (drop 2 threads) ≡ none)
    × (lookup_tid (pos 19) (drop 3 threads) ≡ none)
unfolding lookup_tid
absent = (refl, refl, refl)

lookup_tid-monitor_data_from_client_example :
    ((k : ℤ)
      → lookup_tid k (monitor_data_from_client clock threads no_counters).0
        ≡ watched clock k (lookup_tid k threads))
    × ((monitor_data_from_client clock threads no_counters).1.bad_tid_list ≡ none)
lookup_tid-monitor_data_from_client_example =
    lookup_tid-monitor_data_from_client clock threads no_counters
      (absent.0, (absent.1, (absent.2, tt))) refl
