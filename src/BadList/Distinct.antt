-- ===== src/BadList/Distinct.antt =====
-- The shared list names no user twice; what additions and removals make of who is on it.
use mysql_governor.Base.{
  ℕ, ◌+◌, ◌-◌, ◌<◌, ◌≡◌, refl, sym, ap, ap₂, ◌∙◌, subst, ◌≢◌, inl, inr, Bool, true, false, not,
  ◌&&◌, some, List, [], ◌∷◌, ◌++◌, foldl, arith, ◌==◌, if◌then◌else◌, Bool-cases, length,
  take_of_length-le, Bytes, streq, streq_iff, strlcpy,
}
use mysql_governor.Data.{username_max_len}
use mysql_governor.BadList.{Item, BadList, uid_of}
use mysql_governor.BadList.Ops.{Op, add, delete, delete_all, apply, run, run-apply, IsFit}
use mysql_governor.BadList.Listed.{listed, same, present, erase}

-- A name that fits its buffer.
abbrev pub Fits : Bytes → Type 0
Fits u = length u < username_max_len

abbrev pub Distinct : List Item → Type 0
Distinct [] = Unit
Distinct (x ∷ xs) = Fits x.username × (present x.username xs ≡ false) × Distinct xs

pub same-streq : (x : Item) (u : Bytes) → Fits x.username → Fits u → same x u ≡ streq x.username u
same-streq x u h k =
    ap₂ streq (take_of_length-le username_max_len x.username (omega arith))
      (take_of_length-le username_max_len u (omega arith))

pub present-append :
    (u : Bytes) (xs : List Item) (x : Item)
    → present u (xs ++ x ∷ []) ≡ (if present u xs then true else same x u)
unfolding present
present-append u [] x = ground arith
present-append u (y ∷ xs) x = ground (arith, present-append u xs x)

present-nil : (u : Bytes) → present u [] ≡ false
unfolding present
present-nil u = refl

clash : true ≢ false
clash e = ground arith

present-cons :
    (u : Bytes) (x : Item) (xs : List Item)
    → Fits x.username
    → Fits u
    → present u (x ∷ xs) ≡ (if streq x.username u then true else present u xs)
unfolding present
present-cons u x xs h k = rw (same-streq x u h k) refl

erase-cons :
    (n : Bytes) (x : Item) (xs : List Item)
    → Fits x.username
    → Fits n
    → erase n (x ∷ xs) ≡ (if streq x.username n then xs else x ∷ erase n xs)
unfolding erase
erase-cons n x xs h k = rw (same-streq x n h k) refl

absent_of :
    (u v : Bytes) (xs : List Item) → streq u v ≡ true → present u xs ≡ false → present v xs ≡ false
absent_of u v xs e p = subst (λ w. present w xs ≡ false) ((streq_iff u v).0 e) p

streq_trans : (a b c : Bytes) → streq a b ≡ true → streq a c ≡ streq b c
streq_trans a b c e = ap (λ v. streq v c) ((streq_iff a b).0 e)

streq_apart : (a b c : Bytes) → streq a b ≡ false → streq b c ≡ true → streq a c ≡ false
streq_apart a b c e f = subst (λ v. streq a v ≡ false) ((streq_iff b c).0 f) e

streq_sym : (a b : Bytes) → streq a b ≡ false → streq b a ≡ false
streq_sym a b e = ground (arith, streq_iff a b, streq_iff b a)

pub present-erase :
    (n u : Bytes) (xs : List Item)
    → Fits n
    → Fits u
    → Distinct xs
    → present u (erase n xs) ≡ (if streq n u then false else present u xs)
unfolding erase
present-erase n u [] hn hu d = at_nil (streq n u)
  where
    at_nil : (b : Bool) → present u [] ≡ (if b then false else present u [])
    at_nil true = present-nil u
    at_nil false = refl
present-erase n u (x ∷ xs) hn hu (f, p, d) = elim (Bool-cases (streq x.username n)) [
  | inl e ↦
      rw (erase-cons n x xs f hn, e, present-cons u x xs f hu, streq_trans x.username n u e)
        (first (streq n u) (λ c. absent_of x.username u xs (streq_trans x.username n u e ∙ c) p))
  | inr e ↦
      rw
        (
          erase-cons n x xs f hn,
          e,
          present-cons u x (erase n xs) f hu,
          present-cons u x xs f hu,
          present-erase n u xs hn hu d,
        )
        (later (streq n u) (streq x.username u) (streq_apart x.username n u e))
]
  where
    first :
        (c : Bool)
        → (c ≡ true → present u xs ≡ false)
        → present u xs ≡ (if c then false else if c then true else present u xs)
    first true h = h refl
    first false h = refl

    later :
        (c b : Bool)
        → (c ≡ true → b ≡ false)
        → (if b then true else if c then false else present u xs)
          ≡ (if c then false else if b then true else present u xs)
    later true true h = absurd (clash (h refl))
    later true false h = refl
    later false b h = refl

pub append-Distinct :
    (xs : List Item) (x : Item)
    → Fits x.username
    → Distinct xs
    → present x.username xs ≡ false
    → Distinct (xs ++ x ∷ [])
append-Distinct [] x h d p = (h, present-nil x.username, tt)
append-Distinct (y ∷ xs) x h (f, q, d) p = (
  f,
  present-append y.username xs x
      ∙ rw (q, same-streq x y.username h f) (streq_sym y.username x.username (heads p).0),
  append-Distinct xs x h d (heads p).1,
)
  where
    heads :
        present x.username (y ∷ xs) ≡ false
        → (streq y.username x.username ≡ false) × (present x.username xs ≡ false)
    heads e = ground (arith, present-cons x.username y xs f h)

pub erase-Distinct : (n : Bytes) (xs : List Item) → Fits n → Distinct xs → Distinct (erase n xs)
unfolding erase
erase-Distinct n [] h d = tt
erase-Distinct n (x ∷ xs) h (f, p, d) = elim (Bool-cases (same x n)) [
  | inl e ↦ rw e d
  | inr e ↦ rw e (
    f,
    present-erase n x.username xs h f d ∙ rw p (off (streq n x.username)),
    erase-Distinct n xs h d,
  )
]
  where
    off : (b : Bool) → (if b then false else false) ≡ false
    off true = refl
    off false = refl

-- The name of an operation fits.
abbrev pub OpFits : Op → Type 0
OpFits (add u m all w) = Fits u
OpFits (delete u w) = Fits u
OpFits (delete_all w) = Unit

abbrev pub AllFit : List Op → Type 0
AllFit [] = Unit
AllFit (o ∷ os) = OpFits o × AllFit os

pub stored_name : (u : Bytes) → Fits u → strlcpy u username_max_len ≡ u
stored_name u h = take_of_length-le (username_max_len - 1) u (omega arith)

module _ (max : ℕ) where
  pub apply-Distinct :
      (o : Op) (es : List Item) → OpFits o → Distinct es → Distinct (apply max o es)
  unfolding apply
  apply-Distinct (add u m all w) es h d = elim (Bool-cases (present u es)) [
    | inl e ↦ rw e d
    | inr e ↦ rw e (chosen e (not (length es + 1 == max) && w))
  ]
    where
      chosen :
          present u es ≡ false
          → (b : Bool)
          → Distinct (
              if b
              then es ++ record { username = strlcpy u username_max_len; uid = uid_of m all } ∷ []
              else es)
      chosen e true = append-Distinct es _ (rw (stored_name u h) h) d (rw (stored_name u h) e)
      chosen e false = d
  apply-Distinct (delete u true) es h d = erase-Distinct u es h d
  apply-Distinct (delete u false) es h d = d
  apply-Distinct (delete_all true) es h d = tt
  apply-Distinct (delete_all false) es h d = d

  foldl-Distinct :
      (os : List Op) (es : List Item)
      → AllFit os
      → Distinct es
      → Distinct (foldl (λ xs o. apply max o xs) es os)
  foldl-Distinct [] es h d = d
  foldl-Distinct (o ∷ os) es h d =
      foldl-Distinct os (apply max o es) h.1 (apply-Distinct o es h.0 d)

  -- Over any operations with names that fit, whichever of them get the semaphore, nobody is on the
  -- list twice.
  pub run-Distinct :
      (os : List Op) (l : BadList)
      → IsFit max l
      → AllFit os
      → Distinct (listed l)
      → (l' : BadList) × (run max os (some l) ≡ some l') × Distinct (listed l')
  run-Distinct os l f h d =
      let (l', e, _, same_list) = run-apply max os l f in
      (l', e, subst Distinct (sym same_list) (foldl-Distinct os (listed l) h d))
