-- ===== src/Fifo/Recent.antt =====
-- The ring as what its clients see: the list of the last `size` samples, newest first.
use mysql_governor.Base.{
  ℕ, suc, ◌+◌, ◌-◌, ◌<◌, ◌≡◌, refl, sym, ap, ap₂, ◌∙◌, ◌≢◌, inl, inr, false, Option, none, some,
  List, [], ◌∷◌, ◌++◌, arith, ltb, ◌==◌, Bool-cases, length, get_elem?, set, length-append,
  length-set, take, drop, replicate, drop-set, take-set, take_of_length-le, take-window, rotate-set,
  rotate-set_last, get_elem?-append, get_elem?-drop, get_elem?-take, get_elem?-some, length-take,
  length-drop,
}
use mysql_governor.Base.Double.{Double, hundredths}
use mathlib.Core.List.{append-nil}
use mysql_governor.Data.{Stats}
use mysql_governor.Fifo.{
  Fifo, reset_stats, sum_stats, fifo_stats_init, fifo_stats_push, fifo_stats_get,
  fifo_stats_refresh_last,
}
use mysql_governor.Fifo.Inv.{
  IsValid, slot, pushed, size-pushed, push-pushed, pushed-IsValid, init-IsValid,
}

module _ {D : Type 0} where
  abbrev pub recent : Fifo D → List (Stats D)
  recent f = drop f.first f.ar ++ take f.first f.ar

  pub length-recent : (f : Fifo D) → IsValid f → length (recent f) ≡ f.size
  length-recent f v = omega (
    arith,
    v.storage,
    v.inside,
    length-append (drop f.first f.ar) (take f.first f.ar),
    length-drop f.first f.ar,
    length-take f.first f.ar,
  )

module _ {D : Type 0} ⦃dbl : Double D⦄ where
  -- Index `i` of `fifo_stats_get` is the `i`-th newest sample.
  pub get-recent :
      (f : Fifo D) (i : ℕ) → IsValid f → i < f.size → fifo_stats_get f i ≡ get_elem? (recent f) i
  unfolding fifo_stats_get
  get-recent f i v h =
      let shift : ltb i (f.size - f.first) ≡ false → f.first + i - f.size ≡ i - (f.size - f.first) =
        ground arith in
      ground (
        arith,
        v.storage,
        v.inside,
        shift,
        get_elem?-append (drop f.first f.ar) (take f.first f.ar) i,
        length-drop f.first f.ar,
        get_elem?-drop f.first f.ar i,
        get_elem?-take f.first f.ar (i - (f.size - f.first)),
      )

  recent_at_zero : (xs : List (Stats D)) (k : ℕ) → k ≡ 0 → drop k xs ++ take k xs ≡ xs
  recent_at_zero xs k e = rw e (append-nil xs)

  pub recent-pushed :
      (f : Fifo D) (x : Stats D)
      → IsValid f
      → recent (pushed f x) ≡ x ∷ take (f.size - 1) (recent f)
  unfolding pushed slot
  recent-pushed f x v = elim (Bool-cases (0 == f.first)) [
    | inl e ↦ rw e (
        rotate-set_last f.ar (f.size - 1) x (omega (arith, v.storage, v.inside))
        ∙ ap (λ l. x ∷ take (f.size - 1) l) (sym (recent_at_zero f.ar f.first (ground arith))))
    | inr e ↦ rw e (
        rotate-set f.ar (f.first - 1) f.size x v.storage (omega (arith, v.inside))
        ∙ ap (λ k. x ∷ take (f.size - 1) (drop k f.ar ++ take k f.ar))
            (back f.first (ground arith)))
  ]
    where
      back : (k : ℕ) → k ≢ 0 → suc (k - 1) ≡ k
      back k h = omega arith

  -- A push is accepted, and puts its sample in front of all but the oldest.
  pub push-recent :
      (f : Fifo D) (x : Stats D)
      → IsValid f
      → (g : Fifo D) × (fifo_stats_push f x ≡ some g)
        × IsValid g
        × (g.size ≡ f.size)
        × (recent g ≡ x ∷ take (f.size - 1) (recent f))
  push-recent f x v =
      (pushed f x, push-pushed f x v, pushed-IsValid f x v, size-pushed f x, recent-pushed f x v)

  -- The samples of `xs`, the newest first, pushed oldest first.
  unfoldable pub push_all : Fifo D → List (Stats D) → Option (Fifo D)
  push_all f [] = some f
  push_all f (x ∷ xs) = elim (push_all f xs) [ none ↦ none | some g ↦ fifo_stats_push g x ]

  pub push_all-recent :
      (f : Fifo D) (xs : List (Stats D))
      → IsValid f
      → (g : Fifo D) × (push_all f xs ≡ some g)
        × IsValid g
        × (g.size ≡ f.size)
        × (recent g ≡ take f.size (xs ++ recent f))
  unfolding push_all
  push_all-recent f [] v = (
    f,
    refl,
    v,
    refl,
    sym (take_of_length-le f.size (recent f) (omega (arith, length-recent f v))),
  )
  push_all-recent f (x ∷ xs) v =
      let (g, eg, vg, sg, rg) = push_all-recent f xs v in
      let (h, eh, vh, sh, rh) = push-recent g x vg in
      (
        h,
        rw eg eh,
        vh,
        sh ∙ sg,
        rh ∙ rw (sg, rg) (take-window f.size x (xs ++ recent f) (omega (arith, v.inside))),
      )

  -- After any pushes into a new ring of positive size, all accepted, it holds exactly the newest
  -- `size` of the pushed samples, in order, filled up with zero samples.
  pub push_all-init :
      (size : ℕ) (xs : List (Stats D))
      → 0 < size
      → (g : Fifo D) × (push_all (fifo_stats_init size) xs ≡ some g)
        × IsValid g
        × (g.size ≡ size)
        × (recent g ≡ take size (xs ++ replicate size reset_stats))
  unfolding fifo_stats_init
  push_all-init size xs h =
      let (g, eg, vg, sg, rg) = push_all-recent (fifo_stats_init size) xs (init-IsValid size h) in
      (g, eg, vg, sg, rg ∙ ap (λ l. take size (xs ++ l)) (append-nil (replicate size reset_stats)))

  refresh_at :
      (f : Fifo D) (x old : Stats D)
      → IsValid f
      → get_elem? f.ar f.first ≡ some old
      → (g : Fifo D) × (fifo_stats_refresh_last f x ≡ some g)
        × IsValid g
        × (recent g ≡ sum_stats old x ∷ (drop (suc f.first) f.ar ++ take f.first f.ar))
  unfolding fifo_stats_refresh_last sum_stats
  refresh_at f x old v here = (
    record f { ar = set f.ar f.first (sum_stats old x) },
    rw (here, fifo_stats_refresh_last) refl,
    record { storage = length-set f.ar f.first (sum_stats old x) ∙ v.storage; inside = v.inside },
    ap₂ ◌++◌ (drop-set f.ar f.first (sum_stats old x) (omega (arith, v.storage, v.inside)))
        (take-set f.ar f.first (sum_stats old x)),
  )

  -- A refresh adds to the newest sample and changes no other.
  pub refresh-recent :
      (f : Fifo D) (x : Stats D)
      → IsValid f
      → (g : Fifo D) × (old : Stats D) × (rest : List (Stats D)) × (fifo_stats_refresh_last f x
          ≡ some g)
        × IsValid g
        × (recent f ≡ old ∷ rest)
        × (recent g ≡ sum_stats old x ∷ rest)
  refresh-recent f x v =
      let (old, here, split) = get_elem?-some f.ar f.first (omega (arith, v.storage, v.inside)) in
      let (g, eg, vg, rg) = refresh_at f x old v here in
      (
        g,
        old,
        drop (suc f.first) f.ar ++ take f.first f.ar,
        eg,
        vg,
        ap (λ l. l ++ take f.first f.ar) split,
        rg,
      )
