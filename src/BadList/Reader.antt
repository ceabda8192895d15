-- ===== src/BadList/Reader.antt =====
-- The reader's tries to acquire the semaphore, against the search for the first settled try.
use mysql_governor.Base.{
  ℕ, zero, suc, ◌+◌, ◌*◌, ◌≤◌, ◌<◌, ◌≡◌, refl, ap, ◌∙◌, inl, inr, true, false, some, arith, ◌==◌,
  if◌then◌else◌, Bool-cases, length, ℤ, pos, Bytes,
}
use mysql_governor.BadList.{
  BadList, Attempt, acquired, again, failed, Reading, read_loop, tries, is_user_in_bad_list_cleint,
  is_user_in_bad_list_cleint_persistent,
}
use mysql_governor.BadList.Listed.{listed, uid_listed, uid_from-listed}

-- The first try, of `n` from the `i`-th, that is not told to try again.
unfoldable pub settled : (ℕ → Attempt) → ℕ → ℕ → Attempt
settled attempts i zero = again
settled attempts i (suc n) =
    let rest = settled attempts (i + 1) n in
    elim (attempts i) [ acquired ↦ acquired | again ↦ rest | failed ↦ failed ]

-- A reader that acquires the semaphore reports what it found and holds it; any other reports 0.
abbrev pub reading : ℤ → Attempt → Reading
reading uid acquired = record { found = uid; posts = true; held = true }
reading uid _ = record { found = pos 0; posts = true; held = false }

-- With `n` tries left of the 396, the loop's fuel is enough and it reads by the first that settles.
loop-settled :
    (attempts : ℕ → Attempt) (uid : ℤ) (n trys sem_reopen i : ℕ)
    → 0 < trys
    → trys < 100
    → sem_reopen < 4
    → n + (sem_reopen * 99 + trys) ≡ 397
    → read_loop attempts uid n trys sem_reopen i ≡ some (reading uid (settled attempts i n))
unfolding read_loop settled
loop-settled attempts uid zero trys sem_reopen i a b c e = absurd (omega arith)
loop-settled attempts uid (suc n) trys sem_reopen i a b c e =
    by_attempt
      (λ h.
        loop-settled attempts uid n (trys + 1) sem_reopen (i + 1) (omega arith) (ground arith) c
          (omega arith))
      (λ h k.
        loop-settled attempts uid n 1 (sem_reopen + 1) (i + 1) (omega arith) (omega arith)
          (ground arith) (ground arith))
      (attempts i)
  where
    by_attempt :
        ((trys + 1 == 100) ≡ false
          → read_loop attempts uid n (trys + 1) sem_reopen (i + 1)
            ≡ some (reading uid (settled attempts (i + 1) n)))
        → ((trys + 1 == 100) ≡ true
            → (sem_reopen + 1 == 4) ≡ false
            → read_loop attempts uid n 1 (sem_reopen + 1) (i + 1)
              ≡ some (reading uid (settled attempts (i + 1) n)))
        → (o : Attempt)
        → elim o [
          | acquired ↦ some (record { found = uid; posts = true; held = true })
          | again ↦
              if trys + 1 == 100
              then (if sem_reopen + 1 == 4
                  then some (record { found = pos 0; posts = true; held = false })
                  else read_loop attempts uid n 1 (sem_reopen + 1) (i + 1))
              else read_loop attempts uid n (trys + 1) sem_reopen (i + 1)
          | failed ↦ some (record { found = pos 0; posts = true; held = false })
        ]
          ≡ some (
              reading uid (elim o [
                | acquired ↦ acquired
                | again ↦ settled attempts (i + 1) n
                | failed ↦ failed
              ]))
    by_attempt rest reopened acquired = refl
    by_attempt rest reopened failed = refl
    by_attempt rest reopened again = elim (Bool-cases (trys + 1 == 100)) [
      | inr e1 ↦ rw e1 (rest e1)
      | inl e1 ↦ elim (Bool-cases (sem_reopen + 1 == 4)) [
        | inl e2 ↦ rw (e1, e2) (done n (ground arith))
        | inr e2 ↦ rw (e1, e2) (reopened e1 e2)
      ]
    ]
      where
        done :
            (n : ℕ)
            → n ≡ 0
            → some (record { found = pos 0; posts = true; held = false })
              ≡ some (reading uid (settled attempts (i + 1) n))
        done zero e = refl
        done (suc n) e = absurd (omega arith)

tries_total : tries + (0 * 99 + 1) ≡ 397
unfolding tries
tries_total = refl

-- Both readers of a mapped list within its array, with a semaphore that opens, end after at most 396 tries. If the
-- first try that is not refused for the moment acquires, they report the entry of the user, or 0 if
-- there is none; else they report 0 and post a semaphore that they do not hold.
pub reader-settled :
    (attempts : ℕ → Attempt) (u : Bytes) (l : BadList)
    → l.numbers ≤ length l.items
    → let read = reading (uid_listed u (listed l)) (settled attempts 0 tries) in
      (is_user_in_bad_list_cleint true attempts u (some l) ≡ some read)
      × (is_user_in_bad_list_cleint_persistent true attempts u (some l) ≡ some read)
unfolding is_user_in_bad_list_cleint is_user_in_bad_list_cleint_persistent
reader-settled attempts u l h =
    let read =
      ap (λ uid. read_loop attempts uid tries 1 0 0) (uid_from-listed u l 0 l.numbers (omega arith))
      ∙ loop-settled attempts (uid_listed u (listed l)) tries 1 0 0 (omega arith) (omega arith)
          (omega arith) tries_total in
    (read, read)
