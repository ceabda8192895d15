-- ===== src/Server/Watch/Watched.antt =====
-- The check of the threads that run a query, thread by thread.
use mysql_governor.Base.{
  pos, ◌≡◌, refl, sym, ap, ◌∙◌, inl, inr, Bool, true, false, ◌&&◌, ◌||◌, Option, none, some, List,
  [], ◌∷◌, ◌++◌, arith, if◌then◌else◌, Bool-cases, ℤ, eqb_ℤ, eqb_ℤ_iff,
}
use mysql_governor.Base.Double.{Double}
use mysql_governor.TidTable.{TidData, Threads, lookup_tid, remove_tid_data}
use mysql_governor.TidTable.Entries.{
  IsDistinct, lookup_tid_same, lookup_tid-remove, IsDistinct-remove,
}
use mysql_governor.Server.Watch.{
  Measured, BadTids, add_tid_to_bad_list, remove_each, remove_tid_bad_from_list, Watch, Clock,
  charge_thread, chek_user_perf, each_thread, monitor_data_from_client,
}

-- The thread is in the list.
unfoldable pub holds : ℤ → List (Option ℤ) → Bool
holds k [] = false
holds k (none ∷ l) = holds k l
holds k (some j ∷ l) = eqb_ℤ j k || holds k l

unfoldable pub is_bad : ℤ → BadTids → Bool
unfolding holds
is_bad k none = false
is_bad k (some l) = holds k l

holds-append :
    (k j : ℤ) (l : List (Option ℤ)) → holds k (l ++ some j ∷ []) ≡ (eqb_ℤ j k || holds k l)
unfolding holds
holds-append k j [] = refl
holds-append k j (none ∷ l) = holds-append k j l
holds-append k j (some i ∷ l) = ground (arith, holds-append k j l)

is_bad-add :
    (k j : ℤ) (b : BadTids) → is_bad k (add_tid_to_bad_list j b) ≡ (eqb_ℤ j k || is_bad k b)
unfolding is_bad add_tid_to_bad_list holds
is_bad-add k j none = refl
is_bad-add k j (some l) = holds-append k j l

lookup_tid-remove_each :
    (k : ℤ) (l : List (Option ℤ)) (t : Threads)
    → IsDistinct t
    → lookup_tid k (remove_each l t) ≡ (if holds k l then none else lookup_tid k t)
unfolding remove_each holds
lookup_tid-remove_each k [] t d = refl
lookup_tid-remove_each k (none ∷ l) t d = lookup_tid-remove_each k l t d
lookup_tid-remove_each k (some j ∷ l) t d =
    lookup_tid-remove_each k l (remove_tid_data j t) (IsDistinct-remove j t d)
    ∙ ground (arith, lookup_tid-remove j k t d)

lookup_tid-remove_bad :
    (k : ℤ) (b : BadTids) (t : Threads)
    → IsDistinct t
    → lookup_tid k (remove_tid_bad_from_list b t) ≡ (if is_bad k b then none else lookup_tid k t)
unfolding remove_tid_bad_from_list is_bad
lookup_tid-remove_bad k none t d = refl
lookup_tid-remove_bad k (some l) t d = lookup_tid-remove_each k l t d

module _ {D : Type 0} ⦃dbl : Double D⦄ (clock : Clock D) where
  -- The entry with the three counters that were measured, and the time of the check.
  abbrev pub after_check : TidData → Measured → TidData
  after_check x m = record {
    username = x.username;
    cpu = m.cpu;
    read = m.read;
    write = m.write;
    update_time = clock.tv_sec;
    naoseconds = clock.tv_nsec;
    pid = x.pid;
    fd = x.fd;
  }

  abbrev pub if_measured : TidData → Option Measured → Option TidData
  if_measured x none = none
  if_measured x (some m) = some (after_check x m)

  -- A time in seconds.
  abbrev seconds : ℤ → ℤ → D
  seconds sec nsec =
      dbl.add (dbl.of_int sec) (dbl.div (dbl.of_int nsec) (dbl.of_int (pos 1000000000)))

  -- More than a second lies between the entry and the check.
  abbrev pub is_older : TidData → Bool
  is_older x =
      dbl.less (dbl.of_int (pos 1))
        (dbl.sub (seconds clock.tv_sec clock.tv_nsec) (seconds x.update_time x.naoseconds))

  -- What a check leaves of a thread's entry.
  abbrev pub watched : ℤ → Option TidData → Option TidData
  watched k none = none
  watched k (some x) = if is_older x then if_measured x (clock.measures k x) else some x

  -- The entry during the check: that of a thread that could not be measured is still there.
  abbrev during : TidData → Option Measured → TidData
  during x none = x
  during x (some m) = after_check x m

  abbrev updated : ℤ → TidData → TidData
  updated k x = if is_older x then during x (clock.measures k x) else x

  abbrev is_unmeasured : Option Measured → Bool
  is_unmeasured none = true
  is_unmeasured (some m) = false

  abbrev is_gone : ℤ → Option TidData → Bool
  is_gone k none = false
  is_gone k (some x) = is_older x && is_unmeasured (clock.measures k x)

  abbrev updated_entry : ℤ → Option TidData → Option TidData
  updated_entry k none = none
  updated_entry k (some x) = some (updated k x)

  watched-updated :
      (k : ℤ) (o : Option TidData) → (if is_gone k o then none else updated_entry k o) ≡ watched k o
  watched-updated k none = refl
  watched-updated k (some x) = elim (Bool-cases (is_older x)) [
    | inl e ↦ rw e (by_measure (clock.measures k x))
    | inr e ↦ rw e refl
  ]
    where
      by_measure :
          (m : Option Measured)
          → (if is_unmeasured m then none else some (during x m)) ≡ if_measured x m
      by_measure none = refl
      by_measure (some m) = refl

  chek_user_perf-updated :
      (k : ℤ) (x : TidData) (w : Watch D)
      → ((chek_user_perf clock k x w).0 ≡ updated k x)
        × ((j : ℤ)
            → is_bad j (chek_user_perf clock k x w).1.bad_tid_list
              ≡ ((eqb_ℤ k j && is_gone k (some x)) || is_bad j w.bad_tid_list))
  unfolding chek_user_perf charge_thread
  chek_user_perf-updated k x w = elim (Bool-cases (is_older x)) [
    | inl e ↦ rw e (by_measure (clock.measures k x))
    | inr e ↦ rw e (refl, λ j. ground arith)
  ]
    where
      by_measure :
          (m : Option Measured)
          → ((charge_thread clock k x m w).0 ≡ during x m)
            × ((j : ℤ)
                → is_bad j (charge_thread clock k x m w).1.bad_tid_list
                  ≡ ((eqb_ℤ k j && is_unmeasured m) || is_bad j w.bad_tid_list))
      by_measure none = (refl, λ j. is_bad-add j k w.bad_tid_list ∙ ground arith)
      by_measure (some m) = (refl, λ j. ground arith)

  lookup_tid-each_thread :
      (k : ℤ) (t : Threads) (w : Watch D)
      → lookup_tid k (each_thread clock t w).0 ≡ updated_entry k (lookup_tid k t)
  unfolding lookup_tid each_thread
  lookup_tid-each_thread k [] w = refl
  lookup_tid-each_thread k ((i, x) ∷ t) w = elim (Bool-cases (eqb_ℤ i k)) [
    | inl e ↦
        rw e
          (ap some ((chek_user_perf-updated i x w).0 ∙ ap (λ j. updated j x) ((eqb_ℤ_iff i k).0 e)))
    | inr e ↦ rw e (lookup_tid-each_thread k t (chek_user_perf clock i x w).1)
  ]

  IsDistinct-each_thread :
      (t : Threads) (w : Watch D) → IsDistinct t → IsDistinct (each_thread clock t w).0
  unfolding each_thread
  IsDistinct-each_thread [] w d = tt
  IsDistinct-each_thread ((i, x) ∷ t) w d =
      let w1 = (chek_user_perf clock i x w).1 in
      (lookup_tid-each_thread i t w1 ∙ ap (updated_entry i) d.0, IsDistinct-each_thread t w1 d.1)

  is_bad-each_thread :
      (k : ℤ) (t : Threads) (w : Watch D)
      → IsDistinct t
      → is_bad k (each_thread clock t w).1.bad_tid_list
        ≡ (is_gone k (lookup_tid k t) || is_bad k w.bad_tid_list)
  unfolding lookup_tid each_thread
  is_bad-each_thread k [] w d = refl
  is_bad-each_thread k ((i, x) ∷ t) w d =
      let w1 = (chek_user_perf clock i x w).1 in
      let rest = is_bad-each_thread k t w1 d.1 in
      let one = (chek_user_perf-updated i x w).1 k in
      elim (Bool-cases (eqb_ℤ i k)) [
        | inl e ↦
            rest
            ∙ rw (e, sym (lookup_tid_same i k t e) ∙ d.0)
                (one
                  ∙ rw e (
                      ap (λ j. is_gone j (some x) || is_bad k w.bad_tid_list)
                        ((eqb_ℤ_iff i k).0 e)))
        | inr e ↦ rw e (rest ∙ rw (one, e) refl)
      ]

  -- In a table with different keys, with no thread listed as bad, the check leaves each thread
  -- that is not due as it was, gives each that is due, which is older than a second, and can be
  -- measured the three counters measured and the time of the check, removes each that is due and
  -- cannot be measured, adds none, and leaves no thread listed.
  pub lookup_tid-monitor_data_from_client :
      (t : Threads) (w : Watch D)
      → IsDistinct t
      → w.bad_tid_list ≡ none
      → ((k : ℤ) → lookup_tid k (monitor_data_from_client clock t w).0 ≡ watched k (lookup_tid k t))
        × ((monitor_data_from_client clock t w).1.bad_tid_list ≡ none)
  unfolding monitor_data_from_client is_bad
  lookup_tid-monitor_data_from_client t w d b = (
    λ k.
        lookup_tid-remove_bad k (each_thread clock t w).1.bad_tid_list (each_thread clock t w).0
          (IsDistinct-each_thread t w d)
        ∙ rw (is_bad-each_thread k t w d, lookup_tid-each_thread k t w, b)
            (ground (arith, watched-updated k (lookup_tid k t))),
    refl,
  )
