-- ===== src/Commands/Send/Cycle.antt =====
-- Interleavings of the governor's thread, which queues commands and starts the sending thread, with
-- the sending thread.
use mysql_governor.Base.{
  ℕ, suc, ◌+◌, ◌≤◌, max, ◌≡◌, refl, sym, ap, ◌∙◌, subst, Bool, true, false, ◌||◌, Option, none,
  some, List, [], ◌∷◌, ◌++◌, arith, ltb, if◌then◌else◌, lt→ltb, length, Bytes,
}
use mysql_governor.Data.{Command, GovernorConfig}
use mathlib.Core.List.{append_assoc, append-nil}
use mysql_governor.BadList.{BadList}
use mysql_governor.BadList.Listed.{listed, present}
use mysql_governor.BadList.Ops.{IsFit}
use mysql_governor.BadList.Distinct.{Fits, Distinct}
use mysql_governor.Commands.Replay.{frozen, frozen-append}
use mysql_governor.Commands.Send.{
  Sending, Host, send_commands_cycle, send_commands_cycle_in, send_command_copy_list, copy_commands,
  to_send,
}
use mysql_governor.Commands.Send.Delivery.{IsReady, IsReady-fewer, Orders, count, send_each-Becomes}
use mysql_governor.Commands.Send.Lists.{
  pending, count-append, Orders-append, count-copy_commands, Orders-copy_commands,
  frozen-copy_commands, some_injective, parts-send_commands_cycle_in,
}

module _ (max : ℕ) where
  -- Nothing is lost: what the list will be after the pending and the queued commands is what all
  -- commands made of the list at the start.
  pub record IsKept (first : BadList) (h : List (Option Command)) (st : Sending) : Type 0 where
    pub queue : List (Option Command)
    pub has_queue : st.command_list ≡ some queue
    pub list : BadList
    pub has_list : st.bad_list ≡ some list
    pub queue_orders : Orders queue
    pub pending_orders : Orders (pending st)
    pub ready : IsReady max (first.numbers + count h + 2) (count (pending st) + count queue) list
    pub kept :
        (v : Bytes)
        → Fits v
        → frozen (pending st ++ queue) v (present v (listed list))
          ≡ frozen h v (present v (listed first))

module _ (max : ℕ) (cfg : GovernorConfig) where
  -- What can happen next, with the commands that it adds.
  pub data Step : List (Option Command) → Sending → Sending → Type 0 where
    -- the governor queues commands
    queues :
        (st : Sending) (l cs : List (Option Command))
        → st.command_list ≡ some l
        → Orders cs
        → Step cs st (record st { command_list = some (l ++ cs) })
    -- the governor calls send_commands_cycle
    cycles : (st : Sending) → Step [] st (send_commands_cycle cfg st).1
    -- the thread sends its commands
    delivers :
        (st : Sending) (hosts : ℕ → Host)
        → ((j : ℕ) → (hosts j).waits ≡ true)
        → st.is_send_command_cycle ≡ true
        → Step [] st (send_commands_cycle_in max cfg hosts st)

  -- Any number of steps, with all commands that were queued.
  pub data Run : List (Option Command) → Sending → Sending → Type 0 where
    start : (st : Sending) → Run [] st st
    goes_on :
        {h cs : List (Option Command)} {st st1 st2 : Sending}
        → Run h st st1
        → Step cs st1 st2
        → Run (h ++ cs) st st2

  queues-IsKept :
      (first : BadList) (h cs : List (Option Command)) (st : Sending) (k : IsKept max first h st)
      → Orders cs
      → IsKept max first (h ++ cs) (record st { command_list = some (k.queue ++ cs) })
  queues-IsKept first h cs st k o = record {
    queue = k.queue ++ cs;
    has_queue = refl;
    list = k.list;
    has_list = k.has_list;
    queue_orders = Orders-append k.queue cs k.queue_orders o;
    pending_orders = k.pending_orders;
    ready = record {
      fits = k.ready.fits;
      distinct = k.ready.distinct;
      room = omega (arith, k.ready.room, count-append k.queue cs, count-append h cs);
    };
    kept = λ v hv.
        ap (λ l. frozen l v (present v (listed k.list)))
          (sym (append_assoc (pending st) k.queue cs))
        ∙ frozen-append (pending st ++ k.queue) cs v (present v (listed k.list))
        ∙ ap (frozen cs v) (k.kept v hv)
        ∙ sym (frozen-append h cs v (present v (listed first)));
  }

  -- The state when the thread has been started.
  abbrev started : Sending → Sending
  started st = send_command_copy_list (record st { is_send_command_cycle = true })

  send_commands_cycle-started :
      (st : Sending)
      → (send_commands_cycle cfg st).1
        ≡ (if cfg.is_gpl || st.is_send_command_cycle then st else started st)
  unfolding send_commands_cycle send_command_copy_list
  send_commands_cycle-started st = by cfg.is_gpl st.is_send_command_cycle
    where
      some_node : ltb 0 (suc (length (copy_commands (to_send st.command_list)))) ≡ true
      some_node = lt→ltb 0 _ (omega arith)

      outcome : Bool → Bool → Bool → Bool × Sending
      outcome g c n =
          if g
          then (false, st)
          else if c
          then (false, st)
          else if n
          then (true, started st)
          else (false, record (started st) { is_send_command_cycle = false })

      by :
          (g c : Bool)
          → (outcome g c (ltb 0 (suc (length (copy_commands (to_send st.command_list)))))).1
            ≡ (if g || c then st else started st)
      by true c = refl
      by false true = refl
      by false false = ap (λ n. (outcome false false n).1) some_node

  started-IsKept :
      (first : BadList) (h : List (Option Command)) (st : Sending)
      → st.is_send_command_cycle ≡ false
      → IsKept max first h st
      → IsKept max first h (started st)
  unfolding send_command_copy_list frozen
  started-IsKept first h st c k = record {
    queue = none ∷ [];
    has_queue = refl;
    list = k.list;
    has_list = k.has_list;
    queue_orders = tt;
    pending_orders = Orders-copy_commands (to_send st.command_list) ordered;
    ready =
        IsReady-fewer
          (omega (arith, count-copy_commands (to_send st.command_list), ap count queued)) k.ready;
    kept = λ v hv.
        let b = present v (listed k.list) in
        frozen-append (copy_commands (to_send st.command_list)) (none ∷ []) v b
        ∙ frozen-copy_commands (to_send st.command_list) v b ordered
        ∙ ap (λ l. frozen l v b) queued
        ∙ ap (λ p. frozen (p ++ k.queue) v b) (sym idle)
        ∙ k.kept v hv;
  }
    where
      queued : to_send st.command_list ≡ k.queue
      queued = ap to_send k.has_queue

      ordered : Orders (to_send st.command_list)
      ordered = subst Orders (sym queued) k.queue_orders

      idle : pending st ≡ []
      idle = rw c refl

  started-busy : (st : Sending) → (started st).is_send_command_cycle ≡ true
  unfolding send_command_copy_list
  started-busy st = refl

  started-queue : (st : Sending) → (started st).command_list ≡ some (none ∷ [])
  unfolding send_command_copy_list
  started-queue st = refl

  cycles-IsKept :
      (first : BadList) (h : List (Option Command)) (st : Sending)
      → IsKept max first h st
      → IsKept max first h (send_commands_cycle cfg st).1
  cycles-IsKept first h st k =
      subst (IsKept max first h) (sym (send_commands_cycle-started st))
        (either cfg.is_gpl st.is_send_command_cycle refl)
    where
      either :
          (g c : Bool)
          → st.is_send_command_cycle ≡ c
          → IsKept max first h (if g || c then st else started st)
      either true c e = k
      either false true e = k
      either false false e = started-IsKept first h st e k

  module _ (e : cfg.use_lve ≡ true) where
    delivers-IsKept :
        (first : BadList) (h : List (Option Command)) (st : Sending) (hosts : ℕ → Host)
        → first.numbers + count h + 2 ≤ max
        → ((j : ℕ) → (hosts j).waits ≡ true)
        → st.is_send_command_cycle ≡ true
        → IsKept max first h st
        → IsKept max first h (send_commands_cycle_in max cfg hosts st)
    delivers-IsKept first h st hosts room w c k =
        let (l, el, r, b) =
          send_each-Becomes max cfg (first.numbers + count h + 2) room e hosts 0 (count k.queue)
            (to_send st.command_list_send) (record st { is_any_flush = false }) k.list w
            (subst Orders busy k.pending_orders) k.has_list
            (subst (λ p. IsReady max (first.numbers + count h + 2) (count p + count k.queue) k.list)
              busy k.ready) in
        let (eq, eb, ec) = parts-send_commands_cycle_in max cfg hosts st in
        record {
          queue = k.queue;
          has_queue = eq ∙ k.has_queue;
          list = l;
          has_list = eb ∙ el;
          queue_orders = k.queue_orders;
          pending_orders =
              subst Orders (sym (idle (send_commands_cycle_in max cfg hosts st) ec)) tt;
          ready =
              subst (λ p. IsReady max (first.numbers + count h + 2) (count p + count k.queue) l)
                (sym (idle (send_commands_cycle_in max cfg hosts st) ec))
                (IsReady-fewer (omega arith) r);
          kept = λ v hv.
              ap (λ p. frozen (p ++ k.queue) v (present v (listed l)))
                (idle (send_commands_cycle_in max cfg hosts st) ec)
              ∙ ap (frozen k.queue v) (b v hv)
              ∙ sym (
                  frozen-append (to_send st.command_list_send) k.queue v
                    (present v (listed k.list)))
              ∙ ap (λ p. frozen (p ++ k.queue) v (present v (listed k.list))) (sym busy)
              ∙ k.kept v hv;
        }
      where
        busy : pending st ≡ to_send st.command_list_send
        busy = rw c refl

        idle : (s : Sending) → s.is_send_command_cycle ≡ false → pending s ≡ []
        idle s f = rw f refl

    Step-IsKept :
        (first : BadList) (h cs : List (Option Command)) (st st1 : Sending)
        → Step cs st st1
        → first.numbers + count h + 2 ≤ max
        → IsKept max first h st
        → IsKept max first (h ++ cs) st1
    Step-IsKept first h cs st st1 (queues _ l _ el o) room k =
        subst (λ q. IsKept max first (h ++ cs) (record st { command_list = some (q ++ cs) }))
          (some_injective k.queue l k.has_queue el) (queues-IsKept first h cs st k o)
    Step-IsKept first h cs st st1 (cycles _) room k =
        subst (λ g. IsKept max first g (send_commands_cycle cfg st).1) (sym (append-nil h))
          (cycles-IsKept first h st k)
    Step-IsKept first h cs st st1 (delivers _ hosts w c) room k =
        subst (λ g. IsKept max first g (send_commands_cycle_in max cfg hosts st))
          (sym (append-nil h)) (delivers-IsKept first h st hosts room w c k)

    Run-IsKept :
        (first : BadList) (h : List (Option Command)) (st st1 : Sending)
        → Run h st st1
        → first.numbers + count h + 2 ≤ max
        → IsKept max first [] st
        → IsKept max first h st1
    Run-IsKept first h st st1 (start _) room k = k
    Run-IsKept first h st st2 (goes_on {h = g} {cs = cs} {st1 = st1} r s) room k =
        Step-IsKept first g cs st1 st2 s (omega (arith, room, count-append g cs))
          (Run-IsKept first g st st1 r (omega (arith, room, count-append g cs)) k)

-- At the start the sending thread does not run, no command waits, and the list is in order.
pub record IsInitial (max : ℕ) (first : BadList) (st : Sending) : Type 0 where
  pub idle : st.is_send_command_cycle ≡ false
  pub no_command : st.command_list ≡ some (none ∷ [])
  pub has_list : st.bad_list ≡ some first
  pub fits : IsFit max first
  pub distinct : Distinct (listed first)

initial-IsKept :
    (max : ℕ) (first : BadList) (st : Sending) → IsInitial max first st → IsKept max first [] st
unfolding frozen
initial-IsKept max first st h = record {
  queue = none ∷ [];
  has_queue = h.no_command;
  list = first;
  has_list = h.has_list;
  queue_orders = tt;
  pending_orders = subst Orders (sym nothing) tt;
  ready =
      subst (λ p. IsReady max (first.numbers + 0 + 2) (count p + 0) first) (sym nothing)
        (record { fits = h.fits; distinct = h.distinct; room = omega arith });
  kept = λ v hv. ap (λ p. frozen (p ++ none ∷ []) v (present v (listed first))) nothing;
}
  where
    nothing : pending st ≡ []
    nothing = rw h.idle refl

-- With nothing pending and nothing queued, the list is what the commands say.
drained :
    (max : ℕ) (first : BadList) (h : List (Option Command)) (st : Sending)
    (k : IsKept max first h st)
    → st.is_send_command_cycle ≡ false
    → st.command_list ≡ some (none ∷ [])
    → (v : Bytes) → Fits v
    → present v (listed k.list) ≡ frozen h v (present v (listed first))
unfolding frozen
drained max first h st k c q v hv =
    ap (λ l. frozen l v (present v (listed k.list)))
      (some_injective (none ∷ []) k.queue q k.has_queue)
    ∙ ap (λ p. frozen (p ++ k.queue) v (present v (listed k.list))) (sym nothing)
    ∙ k.kept v hv
  where
    nothing : pending st ≡ []
    nothing = rw c refl

module _ (max : ℕ) (cfg : GovernorConfig) where
  -- Whatever the two threads did before, when the sending thread is idle, the next cycle and its
  -- thread bring the list to what all commands say.
  pub cycle-frozen :
      (first : BadList) (h : List (Option Command)) (st st1 : Sending) (hosts : ℕ → Host)
      → cfg.use_lve ≡ true
      → cfg.is_gpl ≡ false
      → IsInitial max first st
      → Run max cfg h st st1
      → first.numbers + count h + 2 ≤ max
      → st1.is_send_command_cycle ≡ false
      → ((j : ℕ) → (hosts j).waits ≡ true)
      → (l : BadList) × ((send_commands_cycle_in max cfg hosts
            (send_commands_cycle cfg st1).1).bad_list
          ≡ some l)
        × ((v : Bytes) → Fits v → present v (listed l) ≡ frozen h v (present v (listed first)))
  cycle-frozen first h st st1 hosts e g i r room c w =
      let s1 = started max cfg st1 in
      let k =
        started-IsKept max cfg first h st1 c
          (Run-IsKept max cfg e first h st st1 r room (initial-IsKept max first st i)) in
      let d = delivers-IsKept max cfg e first h s1 hosts room w (started-busy max cfg st1) k in
      let (eq, _, ec) = parts-send_commands_cycle_in max cfg hosts s1 in
      subst (λ s. Settled (send_commands_cycle_in max cfg hosts s)) (sym (starts g c))
        (
          d.list,
          d.has_list,
          λ v hv.
              drained max first h (send_commands_cycle_in max cfg hosts s1) d ec
                (eq ∙ started-queue max cfg st1) v hv,
        )
    where
      Settled : Sending → Type 0
      Settled s =
          (l : BadList) × (s.bad_list ≡ some l)
          × ((v : Bytes) → Fits v → present v (listed l) ≡ frozen h v (present v (listed first)))

      starts :
          cfg.is_gpl ≡ false
          → st1.is_send_command_cycle ≡ false
          → (send_commands_cycle cfg st1).1 ≡ started max cfg st1
      starts g c = send_commands_cycle-started max cfg st1 ∙ ground arith
