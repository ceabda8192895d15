-- ===== src/Pass/Values.antt =====
-- Tables whose entries all satisfy a predicate, and traversals that change their values.
use mysql_governor.Base.{
  ℕ, ◌<◌, ◌≡◌, refl, ◌∙◌, subst, inl, inr, Bool, true, false, Option, none, some, [], ◌∷◌, arith,
  if◌then◌else◌, Bool-cases, length, Bytes, streq, Table, lookup, insert, lookup-insert,
}
use mathlib.Core.Option.{some-injective}
use mysql_governor.Pass.{map_values}

module _ {V : Type 0} where
  abbrev pub AllValues : (V → Type 0) → Table V → Type 0
  AllValues P [] = Unit {0}
  AllValues P ((k, v) ∷ m) = P v × AllValues P m

  -- The keys are different, as in every hash table, and each fits its buffer.
  abbrev pub IsKeyed : ℕ → Table V → Type 0
  IsKeyed size [] = Unit {0}
  IsKeyed size ((k, v) ∷ m) = (lookup k m ≡ none) × (length k < size) × IsKeyed size m

  pub AllValues-insert :
      (P : V → Type 0) (k : Bytes) (v : V) (m : Table V)
      → P v
      → AllValues P m
      → AllValues P (insert k v m)
  unfolding insert
  AllValues-insert P k v [] p a = (p, tt)
  AllValues-insert P k v ((j, w) ∷ m) p a = elim (Bool-cases (streq j k)) [
    | inl e ↦ rw e (p, a.1)
    | inr e ↦ rw e (a.0, AllValues-insert P k v m p a.1)
  ]

  pub AllValues-lookup :
      (P : V → Type 0) (k : Bytes) (v : V) (m : Table V) → AllValues P m → lookup k m ≡ some v → P v
  unfolding lookup
  AllValues-lookup P k v [] a e = absurd (ground arith)
  AllValues-lookup P k v ((j, w) ∷ m) a e =
      by_test (streq j k) (λ h. AllValues-lookup P k v m a.1 h) e
    where
      by_test :
          (b : Bool)
          → (lookup k m ≡ some v → P v)
          → (if b then some w else lookup k m) ≡ some v
          → P v
      by_test true rest e = subst P (some-injective w v e) a.0
      by_test false rest e = rest e

  pub lookup-insert_twice :
      (k key u : Bytes) (v w : V) (m : Table V)
      → k ≡ key
      → lookup u (insert k v (insert k w m)) ≡ (if streq key u then some v else lookup u m)
  lookup-insert_twice k key u v w m e =
      subst
        (λ key. lookup u (insert k v (insert k w m)) ≡ (if streq key u then some v else lookup u m))
        e (lookup-insert k u v (insert k w m) ∙ twice (streq k u) (lookup-insert k u w m))
    where
      twice :
          (b : Bool) {o : Option V}
          → o ≡ (if b then some w else lookup u m)
          → (if b then some v else o) ≡ (if b then some v else lookup u m)
      twice true h = refl
      twice false h = h

  -- A traversal that succeeds at each value succeeds, and changes each value as the function does.
  pub map_values-lookup :
      (P : V → Type 0) (Q : V → V → Type 0) (f : V → Option V)
      → ((v : V) → P v → (w : V) × (f v ≡ some w) × Q v w)
      → (m : Table V) → AllValues P m
      → (n : Table V) × (map_values f m ≡ some n)
        × ((k : Bytes) (w : V) → lookup k n ≡ some w → (v : V) × (lookup k m ≡ some v) × Q v w)
  unfolding map_values lookup
  map_values-lookup P Q f step [] a = ([], refl, λ k w e. absurd (ground arith))
  map_values-lookup P Q f step ((j, v) ∷ m) a =
      let (w, e, q) = step v a.0 in
      let (n, en, found) = map_values-lookup P Q f step m a.1 in
      ((j, w) ∷ n, rw (map_values, e, en) refl, λ k u h. by_test w q n found k u (streq j k) h)
    where
      by_test :
          (w : V)
          → Q v w
          → (n : Table V)
          → ((k : Bytes) (u : V) → lookup k n ≡ some u → (v : V) × (lookup k m ≡ some v) × Q v u)
          → (k : Bytes) (u : V) (b : Bool) → (if b then some w else lookup k n) ≡ some u
          → (x : V) × ((if b then some v else lookup k m) ≡ some x) × Q x u
      by_test w q n found k u true h = (v, refl, subst (Q v) (some-injective w u h) q)
      by_test w q n found k u false h = found k u h
