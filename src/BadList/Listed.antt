-- ===== src/BadList/Listed.antt =====
-- The shared list as the list of its entries, and what the loops over it compute on that list.
use mysql_governor.Base.{
  ℕ, zero, suc, ◌+◌, ◌-◌, ◌≤◌, ◌<◌, min, ◌≡◌, refl, sym, ap, ap₂, ◌∙◌, inl, inr, Bool, true, false,
  some, List, [], ◌∷◌, ◌++◌, arith, ◌==◌, if◌then◌else◌, Bool-cases, length, get_elem?, set, take,
  drop, take_eq, take-append, take_of_length-le, take-take, get_elem?-some, length-take,
  length-drop, ℤ, pos, negsuc, Bytes, strlcpy, strneq,
}
use mysql_governor.Data.{username_max_len}
use mathlib.Core.List.{append-nil}
use mysql_governor.BadList.{
  Item, BadList, matches, names_user, entry_uid, find_from, uid_from, append_user, remove_at,
  delete_from,
}

abbrev pub listed : BadList → List Item
listed l = take l.numbers l.items

abbrev pub same : Item → Bytes → Bool
same x u = strneq x.username u username_max_len

unfoldable pub present : Bytes → List Item → Bool
present u [] = false
present u (x ∷ xs) = if same x u then true else present u xs

-- Without the first entry of `u`.
unfoldable pub erase : Bytes → List Item → List Item
erase u [] = []
erase u (x ∷ xs) = if same x u then xs else x ∷ erase u xs

unfoldable pub uid_listed : Bytes → List Item → ℤ
uid_listed u [] = pos 0
uid_listed u (x ∷ xs) = if same x u then x.uid else uid_listed u xs

-- A round reads an entry of the array.
next_entry :
    (l : BadList) (index rounds : ℕ)
    → index + suc rounds ≤ length l.items
    → (x : Item) × (get_elem? l.items index ≡ some x)
      × (take (suc rounds) (drop index l.items) ≡ x ∷ take rounds (drop (index + 1) l.items))
next_entry l index rounds h =
    let (x, here, split) = get_elem?-some l.items index (omega arith) in
    let next : suc index ≡ index + 1 = omega arith in
    (x, here, rw split (ap (λ k. x ∷ take rounds (drop k l.items)) next))

matches-same :
    (u : Bytes) (l : BadList) (index : ℕ) {x : Item}
    → get_elem? l.items index ≡ some x
    → matches u l index ≡ same x u
unfolding matches names_user
matches-same u l index here = ap (names_user u) here

pub find_from-present :
    (u : Bytes) (l : BadList) (index rounds : ℕ)
    → index + rounds ≤ length l.items
    → find_from u l index rounds ≡ present u (take rounds (drop index l.items))
unfolding find_from present
find_from-present u l index zero h = refl
find_from-present u l index (suc rounds) h =
    let (x, here, split) = next_entry l index rounds h in
    rw split (
      rw
        (
          find_from,
          matches-same u l index here,
          find_from-present u l (index + 1) rounds (omega arith),
        )
        refl)

pub uid_from-listed :
    (u : Bytes) (l : BadList) (index rounds : ℕ)
    → index + rounds ≤ length l.items
    → uid_from u l index rounds ≡ uid_listed u (take rounds (drop index l.items))
unfolding uid_from entry_uid uid_listed
uid_from-listed u l index zero h = refl
uid_from-listed u l index (suc rounds) h =
    let (x, here, split) = next_entry l index rounds h in
    rw split (
      rw (uid_from, uid_from-listed u l (index + 1) rounds (omega arith))
        (ap (entry_uid u (uid_listed u (take rounds (drop (index + 1) l.items)))) here))

pub listed-append_user :
    (u : Bytes) (uid : ℤ) (l : BadList)
    → l.numbers < length l.items
    → listed (append_user u uid l)
      ≡ listed l ++ record { username = strlcpy u username_max_len; uid = uid } ∷ []
unfolding append_user
listed-append_user u uid l h =
    take_eq (l.numbers + 1) (suc l.numbers) (set l.items l.numbers _) (omega arith)
    ∙ grow l.numbers l.items (record { username = strlcpy u username_max_len; uid = uid }) h
  where
    grow :
        (n : ℕ) (xs : List Item) (x : Item)
        → n < length xs
        → take (suc n) (set xs n x) ≡ take n xs ++ x ∷ []
    grow n [] x h = absurd (omega arith)
    grow zero (y ∷ ys) x h = refl
    grow (suc n) (y ∷ ys) x h = ap (λ zs. y ∷ zs) (grow n ys x (omega arith))

-- What is left of a list without its entry at `index`.
cut_out : ℕ → ℕ → List Item → List Item
cut_out n index xs = take index xs ++ take (n - index - 1) (drop (index + 1) xs)

listed-remove_at :
    (index : ℕ) (l : BadList)
    → index < l.numbers
    → l.numbers ≤ length l.items
    → listed (remove_at index l) ≡ cut_out l.numbers index l.items
unfolding remove_at cut_out
listed-remove_at index l h k = elim (Bool-cases (index == l.numbers - 1)) [
  | inl e ↦ rw e (last index l.numbers l.items (ground arith) h)
  | inr e ↦ rw e (
      take-append (l.numbers - 1) (take index l.items) _
      ∙ ap₂ ◌++◌
          (take_of_length-le (l.numbers - 1) (take index l.items)
            (omega (arith, length-take index l.items)))
          (middle l.numbers index l.items (omega (arith, length-take index l.items)) h k))
]
  where
    last :
        (i n : ℕ) (xs : List Item)
        → i ≡ n - 1
        → i < n
        → take (n - 1) xs ≡ take i xs ++ take (n - i - 1) (drop (i + 1) xs)
    last i n xs e h =
        take_eq (n - 1) i xs (sym e)
        ∙ sym (append-nil (take i xs))
        ∙ ap (λ l. take i xs ++ l) (take_eq 0 (n - i - 1) (drop (i + 1) xs) (omega arith))

    middle :
        (n i : ℕ) (xs : List Item)
        → length (take i xs) ≡ i
        → i < n
        → n ≤ length xs
        → take (n - 1 - length (take i xs)) (take (n - i - 1) (drop (i + 1) xs) ++ drop (n - 1) xs)
          ≡ take (n - i - 1) (drop (i + 1) xs)
    middle n i xs e h k =
        take_eq (n - 1 - length (take i xs)) (n - i - 1) _ (omega arith)
        ∙ take-append (n - i - 1) (take (n - i - 1) (drop (i + 1) xs)) (drop (n - 1) xs)
        ∙ ap₂ ◌++◌
            (take-take (n - i - 1) (n - i - 1) (drop (i + 1) xs)
              ∙ take_eq (min (n - i - 1) (n - i - 1)) (n - i - 1) (drop (i + 1) xs) (omega arith))
            (take_eq (n - i - 1 - length (take (n - i - 1) (drop (i + 1) xs))) 0 (drop (n - 1) xs)
              (omega (arith, length-take (n - i - 1) (drop (i + 1) xs), length-drop (i + 1) xs)))
        ∙ append-nil (take (n - i - 1) (drop (i + 1) xs))

take_through :
    (i : ℕ) (xs ys : List Item) {x : Item}
    → get_elem? xs i ≡ some x
    → take (i + 1) xs ++ ys ≡ take i xs ++ x ∷ ys
take_through i xs ys e =
    ap (λ l. l ++ ys) (take_eq (i + 1) (suc i) xs (omega arith)) ∙ through i xs e
  where
    through :
        (i : ℕ) (xs : List Item) {x : Item}
        → get_elem? xs i ≡ some x
        → take (suc i) xs ++ ys ≡ take i xs ++ x ∷ ys
    through i [] e = ground arith
    through zero (y ∷ xs) e = ground arith
    through (suc i) (y ∷ xs) e = ap (λ l. y ∷ l) (through i xs e)

module _ (u : Bytes) (l : BadList) (k : l.numbers ≤ length l.items) where
  -- The loop of delete_user_from_list with a semaphore that is acquired or refused throughout.
  pub delete_from-erase :
      (index rounds : ℕ)
      → index + rounds ≡ l.numbers
      → let rest = take rounds (drop index l.items) in
        let r = delete_from (λ i. true) u l index rounds in
        (r.0 ≡ (if present u rest then pos 0 else negsuc 1))
        × (listed r.1 ≡ take index l.items ++ erase u rest)
  unfolding delete_from present erase cut_out
  delete_from-erase index zero h =
      (refl, take_eq l.numbers index l.items (omega arith) ∙ sym (append-nil (take index l.items)))
  delete_from-erase index (suc rounds) h =
      let (x, here, split) = next_entry l index rounds (omega arith) in
      let (code, left) = delete_from-erase (index + 1) rounds (omega arith) in
      let cut = listed-remove_at index l (omega arith) k in
      let tail = take rounds (drop (index + 1) l.items) in
      let left_over =
        take_eq (l.numbers - index - 1) rounds (drop (index + 1) l.items) (omega arith) in
      rw (split, matches-same u l index here)
        (elim (Bool-cases (same x u)) [
          | inl e ↦ rw e (refl, cut ∙ ap (λ m. take index l.items ++ m) left_over)
          | inr e ↦ rw e (code, left ∙ take_through index l.items (erase u tail) here)
        ])

  pub delete_from-refused :
      (index rounds : ℕ) → delete_from (λ i. false) u l index rounds ≡ (negsuc 1, l)
  unfolding delete_from
  delete_from-refused index zero = refl
  delete_from-refused index (suc rounds) = ground (arith, delete_from-refused (index + 1) rounds)
