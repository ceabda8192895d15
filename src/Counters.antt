-- ===== src/Counters.antt =====
-- calc_stats.c and tid_table.c: the counters of the users, which grow by what the threads report.
-- `old_tm` and `new_tm` are the times of the thread's last report and of the call.
mod Tests
use mysql_governor.Base.{
  ◌<◌, ◌≡◌, refl, ap, ◌∙◌, inl, inr, Bool, true, false, Option, none, some, arith, if◌then◌else◌,
  Option-cases, length, take_of_length-le, ℤ, pos, ◌+ℤ◌, ◌-ℤ◌, leb_ℤ, zero_+ℤ, Bytes, streq,
  strlcpy, Table, lookup, insert, lookup-insert,
}
use mysql_governor.Base.Double.{Double}
use mysql_governor.Data.{username_max_len}
use mysql_governor.TidTable.{TidData}
use mysql_governor.Users.{StatCounters}

-- How far a counter grew; one that fell counts as 0.
abbrev pub growth : ℤ → ℤ → ℤ
growth new old = if leb_ℤ old new then new -ℤ old else pos 0

module _ {D : Type 0} ⦃dbl : Double D⦄ where
  unfoldable pub increment_counters :
      Bytes → (cpu read write : ℤ) → D → Table (StatCounters D) → Table (StatCounters D)
  increment_counters username cpu read write tm counters = elim (lookup username counters) [
    | some item ↦
        insert username
          (record item {
            s = record {
              cpu = dbl.add item.s.cpu (dbl.of_int cpu);
              write = item.s.write +ℤ write;
              read = item.s.read +ℤ read;
            };
          })
          counters
    | none ↦
        insert (strlcpy username username_max_len)
          (record { s = record { cpu = dbl.of_int cpu; write = write; read = read }; tm = tm })
          counters
  ]

  -- A counter's growth by the second, for times more than a second apart.
  abbrev pub rate : D → ℤ → ℤ
  rate tm n = if dbl.less (dbl.of_int (pos 1)) tm then dbl.floor (dbl.div (dbl.of_int n) tm) else n

  unfoldable pub clac_stats_difference_inner_add_to_counters :
      (cpu read write : ℤ)
      → TidData
      → (old_tm new_tm : D) → Table (StatCounters D)
      → Table (StatCounters D)
  unfolding increment_counters ◌-ℤ◌
  clac_stats_difference_inner_add_to_counters cpu read write old old_tm new_tm counters =
      let tm = dbl.sub new_tm old_tm in
      if dbl.less old_tm new_tm
      then increment_counters old.username (rate tm (growth cpu old.cpu))
          (rate tm (growth read old.read)) (rate tm (growth write old.write)) old_tm counters
      else increment_counters old.username (pos 0) (pos 0) (pos 0) old_tm counters

  -- Both transfer counters of a user that has an entry.
  abbrev pub transfers : Option (StatCounters D) → ℤ × ℤ
  transfers none = (pos 0, pos 0)
  transfers (some item) = (item.s.read, item.s.write)

  chosen :
      (b : Bool) (new : StatCounters D) (o : Option (StatCounters D)) (x : ℤ × ℤ)
      → transfers (some new) ≡ x
      → transfers (if b then some new else o) ≡ (if b then x else transfers o)
  chosen true new o x h = h
  chosen false new o x h = refl

  -- The read and write counters of the named user, whose name fits its buffer, grow by the given
  -- amounts, from 0 if
  -- it had none; those of no other user change.
  pub transfers-increment_counters :
      (username u : Bytes) (cpu read write : ℤ) (tm : D) (counters : Table (StatCounters D))
      → length username < username_max_len
      → transfers (lookup u (increment_counters username cpu read write tm counters)) ≡ (
          if streq username u
          then (
            (transfers (lookup username counters)).0 +ℤ read,
            (transfers (lookup username counters)).1 +ℤ write,
          )
          else transfers (lookup u counters))
  unfolding increment_counters
  transfers-increment_counters username u cpu read write tm counters short =
      elim (Option-cases (lookup username counters)) [
        | inl e ↦
            let key : strlcpy username username_max_len ≡ username =
              take_of_length-le 63 username (omega arith) in
            let new : StatCounters D = record {
              s = record { cpu = dbl.of_int cpu; write = write; read = read };
              tm = tm;
            } in
            let added : increment_counters username cpu read write tm counters
                ≡ insert username new counters =
              rw (increment_counters, e) (ap (λ k. insert k new counters) key) in
            ap (λ t. transfers (lookup u t)) added
            ∙ ap transfers (lookup-insert username u new counters)
            ∙ chosen (streq username u) new (lookup u counters) _
                (rw (e, zero_+ℤ read, zero_+ℤ write) refl)
        | inr (item, e) ↦
            let new : StatCounters D = record item {
              s = record {
                cpu = dbl.add item.s.cpu (dbl.of_int cpu);
                write = item.s.write +ℤ write;
                read = item.s.read +ℤ read;
              };
            } in
            let grown : increment_counters username cpu read write tm counters
                ≡ insert username new counters =
              rw (increment_counters, e) refl in
            ap (λ t. transfers (lookup u t)) grown
            ∙ ap transfers (lookup-insert username u new counters)
            ∙ chosen (streq username u) new (lookup u counters) _ (rw e refl)
      ]
