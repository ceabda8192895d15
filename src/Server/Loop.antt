-- ===== src/Server/Loop.antt =====
-- The loop over the descriptors ends.
use mysql_governor.Base.{
  Bool-either, ℕ, zero, suc, ◌+◌, ◌-◌, ◌≤◌, ◌<◌, ◌≡◌, refl, sym, subst, ◌⊎◌, inl, inr, Bool, true,
  false, ◌&&◌, Option, none, some, List, [], ◌∷◌, arith, if◌then◌else◌, length, length-append, ℤ,
  eqb_ℤ,
}
use mysql_governor.Base.Double.{Double, hundredths}
use mysql_governor.TidTable.{ClientData, TidData, get_tid_data}
use mysql_governor.Server.Receive.{first_answer, recv_wrapper-first_answer}
use mysql_governor.TidTable.{Threads}
use mysql_governor.Server.{
  message, closed, would_block, failed, finish, recv_wrapper, Pollfd, Server, Net, Received, handle,
  visit, rounds, poll_loop, skip, drop_fd, accept_one, read_one, handle_message, has_event, keep,
}

module _ {D : Type 0} ⦃dbl : Double D⦄ where
  -- What is left to do: descriptors and events.
  abbrev measure : Server D → ℕ
  measure s = length s.rest + s.ret

  -- At most `n` are left.
  abbrev Sized : ℕ → Server D → Type 0
  Sized n s = measure s ≤ n

  skip-Sized : (rest : List Pollfd) (s : Server D) → Sized (length rest + s.ret) (skip rest s)
  unfolding skip
  skip-Sized [] s = omega arith
  skip-Sized (q ∷ rest) s = omega arith

  drop_fd-Sized :
      (visits : ℤ → Threads → Threads) (shut : Option Bool) (p : Pollfd) (rest : List Pollfd)
      (s : Server D)
      → Sized (length rest + s.ret) (drop_fd visits shut p rest s)
  unfolding drop_fd
  drop_fd-Sized visits none p rest s = skip-Sized rest _
  drop_fd-Sized visits (some shut) p rest s = skip-Sized rest _

  accept_one-Sized :
      (o : Option Pollfd) (p : Pollfd) (rest : List Pollfd) (s : Server D)
      → Sized (length rest + 1 + s.ret) (accept_one o p rest s)
  unfolding accept_one
  accept_one-Sized none p rest s = omega arith
  accept_one-Sized (some q) p rest s = omega (arith, length-append rest (q ∷ []))

  ret-finish :
      (now : D) (m : ClientData) (o : Option TidData) (s : Server D)
      → (finish now m o s).ret ≡ s.ret
  unfolding finish
  ret-finish now m none s = refl
  ret-finish now m (some tbl) s = refl

  ret-handle_message :
      (now : D) (m : ClientData) (fd : ℤ) (s : Server D) → (handle_message now m fd s).ret ≡ s.ret
  unfolding handle_message
  ret-handle_message now m fd s = ground (arith, ret-finish now m (get_tid_data m.tid s.threads) s)

  read_one-Sized :
      (visits : ℤ → Threads → Threads) (now : D) (fails : Bool) (o : Received) (p : Pollfd)
      (rest : List Pollfd) (s : Server D)
      → Sized (length rest + s.ret) (read_one visits now fails (some o) p rest s)
  unfolding read_one
  read_one-Sized visits now true (message c) p rest s = drop_fd-Sized visits (some false) p rest s
  read_one-Sized visits now false (message c) p rest s =
      omega (arith, ret-handle_message now c p.fd s)
  read_one-Sized visits now fails closed p rest s = drop_fd-Sized visits (some true) p rest s
  read_one-Sized visits now fails would_block p rest s = drop_fd-Sized visits (some false) p rest s
  read_one-Sized visits now fails failed p rest s = drop_fd-Sized visits (some false) p rest s

  handle-Sized :
      (net : Net D) (p : Pollfd) (rest : List Pollfd) (s : Server D)
      → 0 < s.ret
      → Sized (length rest + s.ret) (handle net p rest s)
  unfolding handle
  handle-Sized net p rest s h = Bool-either P (eqb_ℤ p.fd net.socket && p.pollin) accepted (
      Bool-either P p.pollnval (dropped none) (
        Bool-either P p.pollhup (dropped (some false)) (
          Bool-either P p.pollrdhup (dropped (some true))
            (Bool-either P p.pollerr (dropped (some false)) received))))
    where
      s1 : Server D
      s1 = record s { ret = s.ret - 1; handled = s.handled + 1 }

      P : Server D → Type 0
      P = Sized (length rest + s.ret)

      fewer : (t : Server D) → Sized (length rest + (s.ret - 1)) t → P t
      fewer t ht = omega (arith, h, ht)

      one_more : (t : Server D) → Sized (length rest + 1 + (s.ret - 1)) t → P t
      one_more t ht = omega (arith, h, ht)

      accepted : P (accept_one (net.accepts s.handled) p rest s1)
      accepted =
          one_more (accept_one (net.accepts s.handled) p rest s1)
            (accept_one-Sized (net.accepts s.handled) p rest s1)

      dropped : (shut : Option Bool) → P (drop_fd (net.visits s.handled) shut p rest s1)
      dropped shut =
          fewer (drop_fd (net.visits s.handled) shut p rest s1)
            (drop_fd-Sized (net.visits s.handled) shut p rest s1)

      read_fewer :
          (o : Received)
          → P (
              read_one
                (net.visits s.handled)
                (net.now s.handled)
                (net.fcntl_fails s.handled)
                (some o)
                p
                rest
                s1)
      read_fewer o =
          fewer
            (read_one (net.visits s.handled) (net.now s.handled) (net.fcntl_fails s.handled)
              (some o) p rest s1)
            (read_one-Sized (net.visits s.handled) (net.now s.handled) (net.fcntl_fails s.handled) o
              p rest s1)

      received : P (
          read_one
            (net.visits s.handled)
            (net.now s.handled)
            (net.fcntl_fails s.handled)
            (recv_wrapper (net.receives s.handled))
            p
            rest
            s1)
      received =
          subst
            (λ o. P (
              read_one (net.visits s.handled) (net.now s.handled) (net.fcntl_fails s.handled) o p
                rest s1))
            (sym (recv_wrapper-first_answer (net.receives s.handled)))
            (read_fewer (first_answer (net.receives s.handled) 99 0))

  visit-Sized :
      (net : Net D) (p : Pollfd) (rest : List Pollfd) (s : Server D)
      → 0 < s.ret
      → Sized (length rest + s.ret) (visit net p rest s)
  visit-Sized net p rest s h = either (has_event p)
    where
      either :
          (b : Bool)
          → Sized (length rest + s.ret) (if b then handle net p rest s else keep p rest s)
      either true = handle-Sized net p rest s h
      either false = omega arith

  -- The loop ends when no event or no descriptor is left.
  abbrev pub Ended : Server D → Type 0
  Ended s = (s.ret ≡ 0) ⊎ (s.rest ≡ [])

  rounds-Ended :
      (net : Net D) (fuel ret : ℕ) (rest : List Pollfd) (s : Server D)
      → length rest + ret ≤ fuel
      → ret ≡ s.ret
      → rest ≡ s.rest
      → (s' : Server D) × (rounds net fuel ret rest s ≡ some s') × Ended s'
  unfolding rounds
  rounds-Ended net fuel zero rest s h e f = (s, refl, inl (sym e))
  rounds-Ended net fuel (suc n) [] s h e f = (s, refl, inr (sym f))
  rounds-Ended net zero (suc n) (p ∷ rest) s h e f = absurd (omega arith)
  rounds-Ended net (suc fuel) (suc n) (p ∷ rest) s h e f =
      rounds-Ended net fuel (visit net p rest s).ret (visit net p rest s).rest (visit net p rest s)
        (omega (arith, h, e, visit-Sized net p rest s (omega arith))) refl refl

  -- Whatever the descriptors' events and what the system answers, the loop ends.
  pub poll_loop-Ended :
      (net : Net D) (s : Server D) → (s' : Server D) × (poll_loop net s ≡ some s') × Ended s'
  unfolding poll_loop
  poll_loop-Ended net s =
      rounds-Ended net (length s.rest + s.ret) s.ret s.rest s (omega arith) refl refl
