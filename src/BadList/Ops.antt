-- ===== src/BadList/Ops.antt =====
-- Sequences of operations on the shared list, against the same operations on a plain list.
use mysql_governor.Base.{
  ℕ, zero, suc, ◌+◌, ◌-◌, ◌<◌, ◌≡◌, refl, ap, ◌∙◌, ◌≢◌, inl, inr, Bool, true, false, not, ◌&&◌,
  Option, some, List, [], ◌∷◌, ◌++◌, foldl, arith, ◌==◌, if◌then◌else◌, Bool-cases, length,
  length-append, length-set, take, drop, length-take, length-drop, length-replicate, ℤ, pos, negsuc,
  eqb_ℤ, Bytes, strlcpy,
}
use mysql_governor.Data.{username_max_len}
use mysql_governor.BadList.{
  Item, BadList, uid_of, remove_at, matches, cleared, is_user_in_list, append_user, delete_from,
  delete_user_from_list, add_user_to_list, clear_bad_users_list, delete_allusers_from_list,
}
use mysql_governor.BadList.Listed.{
  listed, present, erase, find_from-present, listed-append_user, delete_from-erase,
  delete_from-refused,
}

-- The calls that change the list; `waits` is whether sem_wait succeeds in the call.
pub data Op : Type 0 where
  add : (username : Bytes) (mapped : Option ℤ) (is_all waits : Bool) → Op
  delete : (username : Bytes) (waits : Bool) → Op
  delete_all : (waits : Bool) → Op

module _ (max : ℕ) where
  unfoldable pub step : Op → Option BadList → Option BadList
  unfolding add_user_to_list delete_user_from_list delete_allusers_from_list
  step (add u m all w) l = (add_user_to_list max w m u all l).1
  step (delete u w) l = (delete_user_from_list (λ i. w) u l).1
  step (delete_all w) l = (delete_allusers_from_list max w l).1

  unfoldable pub run : List Op → Option BadList → Option BadList
  unfolding step
  run [] l = l
  run (o ∷ os) l = run os (step o l)

  -- The operations on a list without duplicates: an addition at the end unless the user is there
  -- or the list is full, and removals.
  unfoldable pub apply : Op → List Item → List Item
  unfolding present erase
  apply (add u m all w) es =
      if not (present u es) && (not (length es + 1 == max) && w)
      then es ++ record { username = strlcpy u username_max_len; uid = uid_of m all } ∷ []
      else es
  apply (delete u w) es = if w then erase u es else es
  apply (delete_all w) es = if w then [] else es

  -- No index leaves the array, and the last item is never used.
  pub record IsFit (l : BadList) : Type 0 where
    pub storage : length l.items ≡ max
    pub room : l.numbers < max

  -- What a step leaves of a mapped list.
  abbrev pub Left : Option BadList → List Item → Type 0
  Left l' es = (l : BadList) × (l' ≡ some l) × IsFit l × (listed l ≡ es)

  pub length-listed : (l : BadList) → IsFit l → length (listed l) ≡ l.numbers
  length-listed l f = omega (arith, f.storage, f.room, length-take l.numbers l.items)

  is_user-present :
      (u : Bytes) (l : BadList)
      → IsFit l
      → is_user_in_list (some l) u ≡ (if present u (listed l) then pos 1 else pos 0)
  unfolding is_user_in_list
  is_user-present u l f =
      ap (λ b. if b then pos 1 else pos 0)
        (find_from-present u l 0 l.numbers (omega (arith, f.storage, f.room)))

  append-IsFit :
      (u : Bytes) (uid : ℤ) (l : BadList)
      → IsFit l
      → l.numbers + 1 ≢ max
      → IsFit (append_user u uid l)
  unfolding append_user
  append-IsFit u uid l f h = record {
    storage = length-set l.items l.numbers _ ∙ f.storage;
    room = omega (arith, f.room);
  }

  step-add :
      (u : Bytes) (m : Option ℤ) (all w : Bool) (l : BadList)
      → IsFit l
      → Left (step (add u m all w) (some l)) (apply (add u m all w) (listed l))
  unfolding step add_user_to_list apply
  step-add u m all w l f =
      outcome (present u (listed l)) (l.numbers + 1 == max) w (is_user_in_list (some l) u)
        (length (listed l)) (is_user-present u l f) (length-listed l f) refl
    where
      outcome :
          (found full w : Bool) (r : ℤ) (n : ℕ)
          → r ≡ (if found then pos 1 else pos 0)
          → n ≡ l.numbers
          → (l.numbers + 1 == max) ≡ full
          → Left
              (if◌then◌else◌ {A = ℤ × Option BadList}
                (not (eqb_ℤ r (pos 0)))
                (pos 0, some l)
                (if l.numbers + 1 == max
                  then (negsuc 1, some l)
                  else if w
                  then (pos 0, some (append_user u (uid_of m all) l))
                  else (pos 0, some l))).1
              (if not found && (not (n + 1 == max) && w)
                then listed l
                  ++ record { username = strlcpy u username_max_len; uid = uid_of m all } ∷ []
                else listed l)
      outcome true full w r n er en e = rw er (l, refl, f, refl)
      outcome false true w r n er en e = rw (er, en, e) (l, refl, f, refl)
      outcome false false false r n er en e = rw (er, en, e) (l, refl, f, refl)
      outcome false false true r n er en e =
          rw (er, en, e)
            (
              append_user u (uid_of m all) l,
              refl,
              append-IsFit u (uid_of m all) l f (ground arith),
              listed-append_user u (uid_of m all) l (omega (arith, f.storage, f.room)),
            )

  remove-IsFit : (i : ℕ) (l : BadList) → i < l.numbers → IsFit l → IsFit (remove_at i l)
  unfolding remove_at
  remove-IsFit i l h f = elim (Bool-cases (i == l.numbers - 1)) [
    | inl e ↦ rw e (record { storage = f.storage; room = omega (arith, f.room) })
    | inr e ↦
        let apart : i ≢ l.numbers - 1 = ground arith in
        rw e (record {
          storage = omega (
            arith,
            f.storage,
            f.room,
            length-append (take i l.items)
                (take (l.numbers - i - 1) (drop (i + 1) l.items) ++ drop (l.numbers - 1) l.items),
            length-append (take (l.numbers - i - 1) (drop (i + 1) l.items))
                (drop (l.numbers - 1) l.items),
            length-take i l.items,
            length-take (l.numbers - i - 1) (drop (i + 1) l.items),
            length-drop (i + 1) l.items,
            length-drop (l.numbers - 1) l.items,
            apart,
          );
          room = omega (arith, f.room);
        })
  ]

  delete-IsFit :
      (w : Bool) (u : Bytes) (l : BadList) (index rounds : ℕ)
      → index + rounds ≡ l.numbers
      → IsFit l
      → IsFit (delete_from (λ i. w) u l index rounds).1
  unfolding delete_from
  delete-IsFit w u l index zero e f = f
  delete-IsFit w u l index (suc rounds) e f =
      chosen (matches u l index && w) _ (delete-IsFit w u l (index + 1) rounds (omega arith) f)
    where
      chosen :
          (b : Bool) (r : ℤ × BadList)
          → IsFit r.1
          → IsFit (if◌then◌else◌ {A = ℤ × BadList} b (pos 0, remove_at index l) r).1
      chosen true r g = remove-IsFit index l (omega arith) f
      chosen false r g = g

  pub step-apply : (o : Op) (l : BadList) → IsFit l → Left (step o (some l)) (apply o (listed l))
  unfolding step apply delete_user_from_list delete_allusers_from_list clear_bad_users_list
  step-apply (add u m all w) l f = step-add u m all w l f
  step-apply (delete u true) l f = (
    (delete_from (λ i. true) u l 0 l.numbers).1,
    refl,
    delete-IsFit true u l 0 l.numbers (omega arith) f,
    (delete_from-erase u l (omega (arith, f.storage, f.room)) 0 l.numbers (omega arith)).1,
  )
  step-apply (delete u false) l f = (
    (delete_from (λ i. false) u l 0 l.numbers).1,
    refl,
    delete-IsFit false u l 0 l.numbers (omega arith) f,
    ap (λ r. listed r.1) (delete_from-refused u l (omega (arith, f.storage, f.room)) 0 l.numbers),
  )
  step-apply (delete_all true) l f = (
    cleared max,
    refl,
    record { storage = length-replicate max _; room = omega (arith, f.room) },
    refl,
  )
  step-apply (delete_all false) l f = (l, refl, f, refl)

  -- Over any additions, deletions and clearings, and whichever of them get the semaphore, a list that
  -- is within its array stays so, never uses the last item, and holds what the same operations make
  -- of a plain list.
  pub run-apply :
      (os : List Op) (l : BadList)
      → IsFit l
      → (l' : BadList) × (run os (some l) ≡ some l')
        × IsFit l'
        × (listed l' ≡ foldl (λ es o. apply o es) (listed l) os)
  unfolding run
  run-apply [] l f = (l, refl, f, refl)
  run-apply (o ∷ os) l f =
      let (l1, e1, f1, h1) = step-apply o l f in
      let (l2, e2, f2, h2) = run-apply os l1 f1 in
      (l2, ap (run os) e1 ∙ e2, f2, h2 ∙ ap (λ es. foldl (λ es o. apply o es) es os) h1)
