-- ===== src/Server.antt =====
-- governor_server.c: the connections of the server's threads, the messages that they send, and the
-- loop over the descriptors that poll reports. What the system answers is an argument.
pub mod Messages
pub mod Receive
pub mod Loop
pub mod Watch
mod Tests
use mysql_governor.Base.{
  ℕ, zero, suc, ◌+◌, ◌-◌, Bool, true, false, ◌&&◌, ◌||◌, Option, none, some, List, [], ◌∷◌, ◌++◌,
  ◌==◌, if◌then◌else◌, length, ℤ, pos, negsuc, eqb_ℤ, Table,
}
use mysql_governor.Base.Double.{Double}
use mysql_governor.TidTable.{
  ClientData, TidData, Threads, add_new_tid_data, get_tid_data, remove_tid_data,
  remove_tid_data_by_fd,
}
use mysql_governor.Users.{StatCounters}
use mysql_governor.Counters.{clac_stats_difference_inner_add_to_counters}

-- What a call of recv answers: a message, 0 at the end of the connection, EWOULDBLOCK, or another
-- error.
pub data Received : Type 0 where
  message : ClientData → Received
  closed would_block failed : Received

abbrev pub blocks : Received → Bool
blocks would_block = true
blocks other = false

-- The loop of recv_wrapper; `i` numbers the calls of recv. The outcome is none where the fuel is not
-- enough.
unfoldable pub recv_loop : (ℕ → Received) → (fuel trys i : ℕ) → Option Received
recv_loop attempts zero trys i = none
recv_loop attempts (suc fuel) trys i =
    let rest = recv_loop attempts fuel (trys + 1) (i + 1) in
    if blocks (attempts i)
    then if trys + 1 == 100 then some (attempts i) else rest
    else some (attempts i)

abbrev pub recv_fuel : ℕ
recv_fuel = 100

unfoldable pub recv_wrapper : (ℕ → Received) → Option Received
unfolding recv_loop
recv_wrapper attempts = recv_loop attempts recv_fuel 0 0

-- struct pollfd, with the bits of `revents` that are tested.
pub record Pollfd : Type 0 where
  pub fd : ℤ
  pub pollin : Bool
  pub pollnval : Bool
  pub pollhup : Bool
  pub pollrdhup : Bool
  pub pollerr : Bool

abbrev pub has_event : Pollfd → Bool
has_event p = p.pollin || (p.pollnval || (p.pollhup || (p.pollrdhup || p.pollerr)))

-- cleanup (shut, s, …)
pub record Cleanup : Type 0 where
  pub shut : Bool
  pub socket : ℤ

-- The descriptors before and from index `i` on, the events that are left, the tables, the closed
-- descriptors, and how many events have been handled.
pub record Server (D : Type 0) : Type 0 where
  pub before : List Pollfd
  pub rest : List Pollfd
  pub ret : ℕ
  pub threads : Threads
  pub counters : Table (StatCounters D)
  pub cleanups : List Cleanup
  pub handled : ℕ

-- The system, at each handled event: what accept makes of the new element, whose `revents` nobody
-- sets, or its failure; what recv answers; whether fcntl fails; the time; and
-- the entries that g_hash_table_foreach visits when func_remove removes some of them.
pub record Net (D : Type 0) : Type 0 where
  pub socket : ℤ
  pub accepts : ℕ → Option Pollfd
  pub receives : ℕ → ℕ → Received
  pub fcntl_fails : ℕ → Bool
  pub now : ℕ → D
  pub visits : ℕ → ℤ → Threads → Threads

module _ {D : Type 0} ⦃dbl : Double D⦄ where
  -- The time of an entry, in seconds.
  abbrev pub time_of : TidData → D
  time_of tbl =
      dbl.add (dbl.of_int tbl.update_time)
        (dbl.div (dbl.of_int tbl.naoseconds) (dbl.of_int (pos 1000000000)))

  -- The end of a query, given the entry of its thread.
  unfoldable pub finish : D → ClientData → Option TidData → Server D → Server D
  unfolding clac_stats_difference_inner_add_to_counters remove_tid_data
  finish now m none s = s
  finish now m (some tbl) s = record s {
    counters =
        clac_stats_difference_inner_add_to_counters m.cpu m.read m.write tbl (time_of tbl) now
          s.counters;
    threads = remove_tid_data m.tid s.threads;
  }

  -- A message from a descriptor.
  unfoldable pub handle_message : D → ClientData → ℤ → Server D → Server D
  unfolding add_new_tid_data get_tid_data finish
  handle_message now m fd s =
      if eqb_ℤ m.type (pos 0)
      then record s { threads = add_new_tid_data m fd s.threads }
      else finish now m (get_tid_data m.tid s.threads) s

  -- The descriptor stays, and the loop goes on behind it.
  abbrev pub keep : Pollfd → List Pollfd → Server D → Server D
  keep p rest s = record s { before = s.before ++ p ∷ []; rest = rest }

  -- The next element moves to index `i`, and the loop goes on behind it.
  unfoldable pub skip : List Pollfd → Server D → Server D
  skip [] s = record s { rest = [] }
  skip (q ∷ rest) s = keep q rest s

  -- The entries of the descriptor's threads and the descriptor are removed.
  unfoldable pub drop_fd :
      (ℤ → Threads → Threads) → Option Bool → Pollfd → List Pollfd → Server D → Server D
  unfolding remove_tid_data_by_fd skip
  drop_fd visits none p rest s =
      skip rest (record s { threads = remove_tid_data_by_fd visits p.fd s.threads })
  drop_fd visits (some shut) p rest s = skip rest (record s {
    threads = remove_tid_data_by_fd visits p.fd s.threads;
    cleanups = s.cleanups ++ record { shut = shut; socket = p.fd } ∷ [];
  })

  unfoldable pub accept_one : Option Pollfd → Pollfd → List Pollfd → Server D → Server D
  accept_one none p rest s =
      keep p rest
        (record s { cleanups = s.cleanups ++ record { shut = false; socket = negsuc 0 } ∷ [] })
  accept_one (some q) p rest s = keep p (rest ++ q ∷ []) s

  -- What was received from a descriptor; none is not reached.
  unfoldable pub read_one :
      (ℤ → Threads → Threads)
      → D
      → Bool
      → Option Received
      → Pollfd
      → List Pollfd
      → Server D
      → Server D
  unfolding handle_message drop_fd
  read_one visits now fails none p rest s = s
  read_one visits now fails (some (message m)) p rest s =
      if fails
      then drop_fd visits (some false) p rest s
      else keep p rest (handle_message now m p.fd s)
  read_one visits now fails (some closed) p rest s = drop_fd visits (some true) p rest s
  read_one visits now fails (some other) p rest s = drop_fd visits (some false) p rest s

  -- The body of the loop for a descriptor with an event.
  unfoldable pub handle : Net D → Pollfd → List Pollfd → Server D → Server D
  unfolding accept_one drop_fd read_one recv_wrapper
  handle net p rest s =
      let j = s.handled in
      let s1 = record s { ret = s.ret - 1; handled = s.handled + 1 } in
      if eqb_ℤ p.fd net.socket && p.pollin
      then accept_one (net.accepts j) p rest s1
      else if p.pollnval
      then drop_fd (net.visits j) none p rest s1
      else if p.pollhup
      then drop_fd (net.visits j) (some false) p rest s1
      else if p.pollrdhup
      then drop_fd (net.visits j) (some true) p rest s1
      else if p.pollerr
      then drop_fd (net.visits j) (some false) p rest s1
      else read_one (net.visits j) (net.now j) (net.fcntl_fails j) (recv_wrapper (net.receives j)) p
          rest s1

  -- One round of the loop, with the descriptor at index `i`.
  abbrev pub visit : Net D → Pollfd → List Pollfd → Server D → Server D
  visit net p rest s = if has_event p then handle net p rest s else keep p rest s

  -- The loop over the descriptors, while events and descriptors are left; none where the fuel is not
  -- enough.
  unfoldable pub rounds : Net D → (fuel ret : ℕ) → List Pollfd → Server D → Option (Server D)
  unfolding handle
  rounds net fuel zero rest s = some s
  rounds net fuel (suc n) [] s = some s
  rounds net zero (suc n) (p ∷ rest) s = none
  rounds net (suc fuel) (suc n) (p ∷ rest) s =
      let s1 = visit net p rest s in rounds net fuel s1.ret s1.rest s1

  unfoldable pub poll_loop : Net D → Server D → Option (Server D)
  unfolding rounds
  poll_loop net s = rounds net (length s.rest + s.ret) s.ret s.rest s
