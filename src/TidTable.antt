-- ===== src/TidTable.antt =====
-- tid_table.c: the threads of the server that run a query, with the counters that they reported
-- last. The table is the list of its entries in the order of a traversal.
pub mod Entries
mod Tests
use mysql_governor.Base.{
  ℕ, ◌+◌, Option, none, some, List, [], ◌∷◌, if◌then◌else◌, length, ℤ, ltb_ℤ, eqb_ℤ, Bytes, streq,
  strlcpy,
}
use mysql_governor.Data.{username_max_len}

-- client_data
pub record ClientData : Type 0 where
  pub type : ℤ
  pub tid : ℤ
  pub pid : ℤ
  pub username : Bytes
  pub cpu : ℤ
  pub write : ℤ
  pub read : ℤ
  pub update_time : ℤ
  pub naoseconds : ℤ

-- tid_table
pub record TidData : Type 0 where
  pub username : Bytes
  pub cpu : ℤ
  pub read : ℤ
  pub write : ℤ
  pub update_time : ℤ
  pub naoseconds : ℤ
  pub pid : ℤ
  pub fd : ℤ

abbrev pub Threads : Type 0
Threads = List (ℤ × TidData)

unfoldable pub lookup_tid : ℤ → Threads → Option TidData
lookup_tid k [] = none
lookup_tid k ((j, x) ∷ t) = if eqb_ℤ j k then some x else lookup_tid k t

unfoldable pub insert_tid : ℤ → TidData → Threads → Threads
insert_tid k y [] = (k, y) ∷ []
insert_tid k y ((j, x) ∷ t) = if eqb_ℤ j k then (j, y) ∷ t else (j, x) ∷ insert_tid k y t

-- remove_tid_data
unfoldable pub remove_tid_data : ℤ → Threads → Threads
remove_tid_data k [] = []
remove_tid_data k ((j, x) ∷ t) = if eqb_ℤ j k then t else (j, x) ∷ remove_tid_data k t

-- LOAD_NEW_TID_STATS
unfoldable pub load_new_tid_stats : ℤ → ℤ → ℤ
load_new_tid_stats reported kept = if ltb_ℤ reported kept then kept else reported

-- The entry of a report, with the counters `cpu`, `read` and `write`.
abbrev pub reported : ClientData → ℤ → ℤ → ℤ → ℤ → TidData
reported tbl fd cpu read write = record {
  username = strlcpy tbl.username username_max_len;
  cpu = cpu;
  read = read;
  write = write;
  update_time = tbl.update_time;
  naoseconds = tbl.naoseconds;
  pid = tbl.pid;
  fd = fd;
}

-- The entry of the report, given the thread's earlier entry.
unfoldable pub new_data : ClientData → ℤ → Option TidData → TidData
unfolding load_new_tid_stats
new_data tbl fd none = reported tbl fd tbl.cpu tbl.read tbl.write
new_data tbl fd (some item) =
    reported tbl fd (load_new_tid_stats tbl.cpu item.cpu) (load_new_tid_stats tbl.read item.read)
      (load_new_tid_stats tbl.write item.write)

unfoldable pub add_new_tid_data : ClientData → ℤ → Threads → Threads
unfolding lookup_tid insert_tid new_data
add_new_tid_data tbl fd threads =
    insert_tid tbl.tid (new_data tbl fd (lookup_tid tbl.tid threads)) threads

-- add_new_tid_data2: the time of the entry is that of the call, here its seconds and nanoseconds.
unfoldable pub add_new_tid_data2 : ℤ → ℤ → ℤ → TidData → Threads → Threads
unfolding lookup_tid insert_tid load_new_tid_stats
add_new_tid_data2 tv_sec tv_nsec tid tbl threads =
    let entry : TidData = record tbl {
      username = strlcpy tbl.username username_max_len;
      update_time = tv_sec;
      naoseconds = tv_nsec;
    } in
    elim (lookup_tid tid threads) [
      | none ↦ insert_tid tid entry threads
      | some item ↦
          insert_tid tid
            (record entry {
              cpu = load_new_tid_stats tbl.cpu item.cpu;
              read = load_new_tid_stats tbl.read item.read;
              write = load_new_tid_stats tbl.write item.write;
            })
            threads
    ]

-- What get_tid_data copies into its buffer, if there is an entry.
unfoldable pub get_tid_data : ℤ → Threads → Option TidData
unfolding lookup_tid
get_tid_data tid threads = lookup_tid tid threads

unfoldable pub func_remove : ℤ → TidData → ℤ → Threads → Threads
unfolding remove_tid_data
func_remove key item fd threads = if eqb_ℤ item.fd fd then remove_tid_data key threads else threads

-- The calls of func_remove by g_hash_table_foreach, for the entries `visited`.
unfoldable pub remove_visited : ℤ → Threads → Threads → Threads
unfolding func_remove
remove_visited fd [] threads = threads
remove_visited fd ((key, item) ∷ visited) threads =
    remove_visited fd visited (func_remove key item fd threads)

-- `visits` are the entries that g_hash_table_foreach visits. They are GLib's: its documentation
-- forbids a callback that removes entries and does not say what a traversal then visits.
unfoldable pub remove_tid_data_by_fd : (ℤ → Threads → Threads) → ℤ → Threads → Threads
unfolding remove_visited
remove_tid_data_by_fd visits fd threads = remove_visited fd (visits fd threads) threads

unfoldable pub get_tid_size : Threads → ℕ
get_tid_size threads = length threads

-- The traversal with func_calc_threads.
unfoldable pub calc_threads : Bytes → Threads → ℕ
calc_threads username [] = 0
calc_threads username ((k, item) ∷ rest) =
    let n = calc_threads username rest in if streq item.username username then n + 1 else n

-- get_cnt_threads, for a name shorter than the 63 bytes of which strncpy copies the NUL.
unfoldable pub get_cnt_threads : Bytes → Threads → ℕ
unfolding calc_threads
get_cnt_threads username threads = calc_threads username threads
