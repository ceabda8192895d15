-- ===== src/BadList/Tests.antt =====
-- Runs of the shared list of restricted users, and its theorems at a list of four items.
use mysql_governor.Base.{
  ℕ, zero, suc, ◌≡◌, refl, true, false, none, some, List, [], ◌∷◌, foldl, arith, take, replicate,
  pos, negsuc, Bytes, codes, streq,
}
use mysql_governor.Data.{bad_lve}
use mysql_governor.BadList.{
  BadList, Attempt, acquired, again, tries, cleared, uid_from, read_loop, add_user_to_list,
  is_user_in_bad_list_cleint, is_user_in_bad_list_cleint_persistent,
}
use mysql_governor.BadList.Listed.{listed, uid_listed}
use mysql_governor.BadList.Ops.{Op, add, delete, run, step, apply, IsFit, run-apply}
use mysql_governor.BadList.Distinct.{AllFit, Distinct, run-Distinct}
use mysql_governor.BadList.Reader.{settled, reading, reader-settled}

abbrev ann : Bytes
ann = codes "ann"

abbrev bob : Bytes
bob = codes "bob"

abbrev ops : List Op
ops =
    add ann (some (pos 501)) false true
    ∷ add bob none false true
    ∷ delete ann true
    ∷ add bob none true true
    ∷ []

two_listed :
    run 4 (take 2 ops) (some (cleared 4))
    ≡ some (record {
      numbers = 2;
      items =
          record { username = ann; uid = pos 501 }
          ∷ record { username = bob; uid = bad_lve }
          ∷ replicate 2 (record { username = []; uid = pos 0 });
    })
unfolding run step streq
two_listed = refl

-- The fourth entry is refused.
full :
    (add_user_to_list 3 true none (codes "eve") false (run 3 (take 2 ops) (some (cleared 3)))).0
    ≡ negsuc 1
unfolding run step streq add_user_to_list
full = refl

run-apply_example :
    (l' : BadList) × (run 4 ops (some (cleared 4)) ≡ some l')
    × IsFit 4 l'
    × (listed l' ≡ foldl (λ es o. apply 4 o es) (listed (cleared 4)) ops)
run-apply_example = run-apply 4 ops (cleared 4) (record { storage = refl; room = omega arith })

-- Two tries are told to try again, the third acquires.
abbrev busy_semaphore : ℕ → Attempt
busy_semaphore zero = again
busy_semaphore (suc zero) = again
busy_semaphore _ = acquired

abbrev one_listed : BadList
one_listed = record {
  numbers = 1;
  items = record { username = ann; uid = pos 501 } ∷ record { username = []; uid = pos 0 } ∷ [];
}

reader-settled_example :
    let read = reading (uid_listed ann (listed one_listed)) (settled busy_semaphore 0 tries) in
    (is_user_in_bad_list_cleint true busy_semaphore ann (some one_listed) ≡ some read)
    × (is_user_in_bad_list_cleint_persistent true busy_semaphore ann (some one_listed) ≡ some read)
reader-settled_example = reader-settled busy_semaphore ann one_listed (omega arith)

-- A semaphore that is never free: the reader gives up, and posts it all the same.
gives_up :
    is_user_in_bad_list_cleint true (λ i. again) ann (some one_listed)
    ≡ some (record { found = pos 0; posts = true; held = false })
unfolding is_user_in_bad_list_cleint read_loop uid_from streq tries
gives_up = refl

four_fit : AllFit ops
four_fit = (omega arith, (omega arith, (omega arith, (omega arith, tt))))

run-Distinct_example :
    (l' : BadList) × (run 4 ops (some (cleared 4)) ≡ some l') × Distinct (listed l')
run-Distinct_example =
    run-Distinct 4 ops (cleared 4) (record { storage = refl; room = omega arith }) four_fit tt
