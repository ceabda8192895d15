-- ===== src/Server/Watch.antt =====
-- governor_server.c and tid_table.c: the check, between messages, of the threads that run a query.
pub mod Watched
mod Tests
use mysql_governor.Base.{
  Bool, Option, none, some, List, [], ◌∷◌, ◌++◌, if◌then◌else◌, ℤ, pos, Table,
}
use mysql_governor.Base.Double.{Double}
use mysql_governor.TidTable.{TidData, Threads, remove_tid_data}
use mysql_governor.Users.{StatCounters}
use mysql_governor.Counters.{clac_stats_difference_inner_add_to_counters}
use mysql_governor.Server.{time_of}

-- What get_proc_time and get_io_stat answer for a thread.
pub record Measured : Type 0 where
  pub cpu : ℤ
  pub write : ℤ
  pub read : ℤ

-- bad_tid_list, a GList whose first node, from g_list_alloc, holds NULL.
abbrev pub BadTids : Type 0
BadTids = Option (List (Option ℤ))

unfoldable pub add_tid_to_bad_list : ℤ → BadTids → BadTids
add_tid_to_bad_list pid none = some (none ∷ some pid ∷ [])
add_tid_to_bad_list pid (some l) = some (l ++ some pid ∷ [])

-- remove_tid_bad_from_list, and remove_tid_data_inner for each node.
unfoldable pub remove_each : List (Option ℤ) → Threads → Threads
unfolding remove_tid_data
remove_each [] threads = threads
remove_each (none ∷ l) threads = remove_each l threads
remove_each (some pid ∷ l) threads = remove_each l (remove_tid_data pid threads)

unfoldable pub remove_tid_bad_from_list : BadTids → Threads → Threads
unfolding remove_each
remove_tid_bad_from_list none threads = threads
remove_tid_bad_from_list (some l) threads = remove_each l threads

-- The counters of the users and the list of bad threads.
pub record Watch (D : Type 0) : Type 0 where
  pub counters : Table (StatCounters D)
  pub bad_tid_list : BadTids

-- The system: the time of the check, what is measured of a thread, none where it is gone, and the time
-- when its counters are charged.
pub record Clock (D : Type 0) : Type 0 where
  pub tv_sec : ℤ
  pub tv_nsec : ℤ
  pub measures : ℤ → TidData → Option Measured
  pub now : ℤ → D

-- The entry with the values that were measured.
abbrev pub measured : ℤ → ℤ → Measured → TidData → TidData
measured tv_sec tv_nsec m item = record item {
  cpu = m.cpu;
  read = m.read;
  write = m.write;
  update_time = tv_sec;
  naoseconds = tv_nsec;
}

module _ {D : Type 0} ⦃dbl : Double D⦄ (clock : Clock D) where
  -- More than a second has passed since the entry was written.
  abbrev pub is_due : TidData → Bool
  is_due item = dbl.less (dbl.of_int (pos 1)) (
      dbl.sub
        (dbl.add (dbl.of_int clock.tv_sec)
          (dbl.div (dbl.of_int clock.tv_nsec) (dbl.of_int (pos 1000000000))))
        (time_of item))

  -- What chek_user_perf does with a thread that is due.
  unfoldable pub charge_thread : ℤ → TidData → Option Measured → Watch D → TidData × Watch D
  unfolding add_tid_to_bad_list clac_stats_difference_inner_add_to_counters
  charge_thread kkey item none w =
      (item, record w { bad_tid_list = add_tid_to_bad_list kkey w.bad_tid_list })
  charge_thread kkey item (some m) w = (
    measured clock.tv_sec clock.tv_nsec m item,
    record w {
      counters =
          clac_stats_difference_inner_add_to_counters m.cpu m.read m.write item (time_of item)
            (clock.now kkey) w.counters;
    },
  )

  unfoldable pub chek_user_perf : ℤ → TidData → Watch D → TidData × Watch D
  unfolding charge_thread
  chek_user_perf kkey item w =
      if is_due item then charge_thread kkey item (clock.measures kkey item) w else (item, w)

  -- g_hash_table_foreach (threads_list, chek_user_perf, …)
  unfoldable pub each_thread : Threads → Watch D → Threads × Watch D
  unfolding chek_user_perf
  each_thread [] w = ([], w)
  each_thread ((kkey, item) ∷ t) w =
      let (item1, w1) = chek_user_perf kkey item w in
      let (t1, w2) = each_thread t w1 in ((kkey, item1) ∷ t1, w2)

  -- proceed_tid_data, with remove_tid_bad_list at its end.
  unfoldable pub monitor_data_from_client : Threads → Watch D → Threads × Watch D
  unfolding each_thread remove_tid_bad_from_list
  monitor_data_from_client threads w =
      let (t1, w1) = each_thread threads w in
      (remove_tid_bad_from_list w1.bad_tid_list t1, record w1 { bad_tid_list = none })
