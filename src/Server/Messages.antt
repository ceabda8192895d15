-- ===== src/Server/Messages.antt =====
-- What the two messages of a query leave.
use mysql_governor.Base.{◌≡◌, false, none, if◌then◌else◌, ℤ, pos, eqb_ℤ}
use mysql_governor.Base.Double.{Double, hundredths}
use mysql_governor.TidTable.{ClientData, TidData, insert_tid, get_tid_data, reported}
use mysql_governor.Counters.{growth, rate}
use mysql_governor.Server.{Server, handle_message}

module _ {D : Type 0} ⦃dbl : Double D⦄ where
  -- What a query is charged of one counter, by its values at the start and at the end.
  abbrev pub charge : D → D → ℤ → ℤ → ℤ
  charge old_tm new_tm start end =
      if dbl.less old_tm new_tm then rate (dbl.sub new_tm old_tm) (growth end start) else pos 0

  -- The state when the first message of a query has been handled, for a thread with no entry.
  abbrev begun : ClientData → ℤ → Server D → Server D
  begun first fd s = record s {
    threads = insert_tid first.tid (reported first fd first.cpu first.read first.write) s.threads;
  }

  -- The two messages of a query.
  abbrev pub query : (first_tm last_tm : D) → (first last : ClientData) → ℤ → Server D → Server D
  query first_tm last_tm first last fd s =
      handle_message last_tm last fd (handle_message first_tm first fd s)

  module _ (first_tm last_tm : D) (first last : ClientData) (fd : ℤ) (s : Server D)
      (starts : first.type ≡ pos 0) (ends : eqb_ℤ last.type (pos 0) ≡ false)
      (same_thread : last.tid ≡ first.tid) (new : get_tid_data first.tid s.threads ≡ none) where
    entry : TidData
    entry = reported first fd first.cpu first.read first.write
