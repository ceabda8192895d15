-- ===== src/TidTable/Tests.antt =====
-- Runs of the table of threads, and its theorems at a table of two threads.
use mysql_governor.Base.{drop, ◌≡◌, refl, none, some, [], ◌∷◌, if◌then◌else◌, ℤ, pos, streq}
use mysql_governor.Fixtures.{user}
use mysql_governor.TidTable.{
  ClientData, TidData, Threads, lookup_tid, add_new_tid_data, get_tid_data, remove_tid_data_by_fd,
  get_cnt_threads,
}
use mysql_governor.TidTable.Entries.{
  merged, report_all, Grown, unless_of, is_visited, report_all-Grown,
  get_tid_data-remove_tid_data_by_fd,
}

abbrev report : ℤ → ℤ → ClientData
report tid cpu = record {
  type = pos 0;
  tid = tid;
  pid = pos 300;
  username = user;
  cpu = cpu;
  write = pos 5;
  read = pos 7;
  update_time = pos 1000;
  naoseconds = pos 0;
}

abbrev entry : ℤ → TidData
entry cpu = merged none (report (pos 1) cpu) (pos 4)

abbrev two_threads : Threads
two_threads = (pos 1, entry (pos 10)) ∷ (pos 2, record (entry (pos 20)) { fd = pos 5 }) ∷ []

-- A report with a smaller counter keeps the larger one.
kept :
    get_tid_data (pos 1) (add_new_tid_data (report (pos 1) (pos 3)) (pos 4) two_threads)
    ≡ some (entry (pos 10))
unfolding get_tid_data add_new_tid_data
kept = refl

counted : get_cnt_threads user two_threads ≡ 2
unfolding get_cnt_threads streq
counted = refl

report_all-Grown_example :
    (y : TidData) × (get_tid_data (pos 1) (
        report_all
          ((report (pos 1) (pos 3), pos 4) ∷ (report (pos 2) (pos 30), pos 5) ∷ [])
          two_threads)
      ≡ some y)
    × Grown (entry (pos 10)) y
unfolding get_tid_data
report_all-Grown_example =
    report_all-Grown ((report (pos 1) (pos 3), pos 4) ∷ (report (pos 2) (pos 30), pos 5) ∷ [])
      (pos 1) two_threads (entry (pos 10)) refl

-- A traversal that misses the first entry.
abbrev all_but_first : ℤ → Threads → Threads
all_but_first fd threads = drop 1 threads

get_tid_data-remove_tid_data_by_fd_example :
    get_tid_data (pos 2) (remove_tid_data_by_fd all_but_first (pos 5) two_threads) ≡ (
      if is_visited (pos 2) (all_but_first (pos 5) two_threads)
      then unless_of (pos 5) (get_tid_data (pos 2) two_threads)
      else get_tid_data (pos 2) two_threads)
unfolding lookup_tid
get_tid_data-remove_tid_data_by_fd_example =
    get_tid_data-remove_tid_data_by_fd all_but_first (pos 5) (pos 2) two_threads (refl, (refl, tt))
      (refl, tt)

-- The entry of a thread of the descriptor that is missed stays.
missed_stays :
    get_tid_data (pos 1) (remove_tid_data_by_fd all_but_first (pos 4) two_threads)
    ≡ some (entry (pos 10))
unfolding get_tid_data remove_tid_data_by_fd
missed_stays = refl
