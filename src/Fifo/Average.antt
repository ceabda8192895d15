-- ===== src/Fifo/Average.antt =====
-- What `fifo_stats_avg` and `fifo_stats_sum` compute: the mean and the sum of the newest samples.
use mysql_governor.Base.{
  false, ◌==◌, pos, ◌+ℤ◌, div_ℤ, ◌↔◌, none, [], ◌∷◌, ℕ, zero, suc, ◌+◌, ◌≤◌, ◌<◌, min, ◌≡◌, refl,
  sym, ap, ◌∙◌, Option, some, List, ◌++◌, foldl, arith, ltb, if◌then◌else◌, length, take, drop,
  replicate, take_of_length-le, take-take, get_elem?-some, length-take,
}
use mysql_governor.Base.Double.{Double, hundredths}
use mysql_governor.Data.{Stats}
use mysql_governor.Fifo.{
  Fifo, fifo_stats_init, reset_stats, sum_stats, fifo_stats_get, sum_from, fifo_stats_sum, divide,
  fifo_stats_avg,
}
use mysql_governor.Fifo.Inv.{IsValid}
use mysql_governor.Fifo.Recent.{recent, length-recent, get-recent, push_all, push_all-init}

module _ {D : Type 0} ⦃dbl : Double D⦄ where
  -- The sums of the three values of a list of samples, from the first on.
  unfoldable pub total : List (Stats D) → Stats D
  total xs = record {
    cpu = foldl (λ s x. dbl.add s x.cpu) (dbl.of_int (pos 0)) xs;
    write = foldl (λ s x. s +ℤ x.write) (pos 0) xs;
    read = foldl (λ s x. s +ℤ x.read) (pos 0) xs;
  }

  foldl-sum_stats :
      (xs : List (Stats D)) (s : Stats D)
      → foldl sum_stats s xs ≡ record {
        cpu = foldl (λ s x. dbl.add s x.cpu) s.cpu xs;
        write = foldl (λ s x. s +ℤ x.write) s.write xs;
        read = foldl (λ s x. s +ℤ x.read) s.read xs;
      }
  unfolding sum_stats
  foldl-sum_stats [] s = refl
  foldl-sum_stats (x ∷ xs) s = foldl-sum_stats xs (sum_stats s x)

  foldl-total : (xs : List (Stats D)) → foldl sum_stats reset_stats xs ≡ total xs
  unfolding total reset_stats
  foldl-total xs = foldl-sum_stats xs reset_stats

  -- The mean of a list of samples, each sum divided by their number; of no samples there is none.
  unfoldable pub mean : List (Stats D) → Option (Stats D)
  mean [] = none
  mean (x ∷ xs) =
      let n = suc (length xs) in
      some (record {
        cpu = dbl.div (total (x ∷ xs)).cpu (dbl.of_int (pos n));
        write = div_ℤ (total (x ∷ xs)).write n;
        read = div_ℤ (total (x ∷ xs)).read n;
      })

  pub divide-mean : (xs : List (Stats D)) → divide (total xs) (length xs) ≡ mean xs
  unfolding divide mean
  divide-mean [] = refl
  divide-mean (x ∷ xs) = rw (some_test (length xs)) refl
    where
      some_test : (n : ℕ) → (0 == suc n) ≡ false
      some_test n = ground arith

  mean_of_none : (xs : List (Stats D)) → (mean xs ≡ none) ↔ (length xs ≡ 0)
  unfolding mean
  mean_of_none [] = (λ _. refl, λ _. refl)
  mean_of_none (x ∷ xs) = (λ h. absurd (ground (arith, h)), λ h. absurd (omega (arith, h)))

  sum_from-step :
      (f : Fifo D) (i n : ℕ) (sum x : Stats D)
      → fifo_stats_get f i ≡ some x
      → sum_from f i (suc n) sum ≡ sum_from f (i + 1) n (sum_stats sum x)
  unfolding sum_from
  sum_from-step f i n sum x e = rw (e, sum_from) refl

  pub sum_from-foldl :
      (f : Fifo D) (i n : ℕ) (sum : Stats D)
      → IsValid f
      → i + n ≤ f.size
      → sum_from f i n sum ≡ some (foldl sum_stats sum (take n (drop i (recent f))))
  unfolding sum_from
  sum_from-foldl f i zero sum v h = refl
  sum_from-foldl f i (suc n) sum v h =
      let (x, here, split) = get_elem?-some (recent f) i (omega (arith, length-recent f v)) in
      sum_from-step f i n sum x (get-recent f i v (omega arith) ∙ here)
      ∙ sum_from-foldl f (i + 1) n (sum_stats sum x) v (omega arith)
      ∙ ap (λ k. some (foldl sum_stats (sum_stats sum x) (take n (drop k (recent f))))) (next i)
      ∙ ap (λ l. some (foldl sum_stats sum (take (suc n) l))) (sym split)
    where
      next : (k : ℕ) → k + 1 ≡ suc k
      next k = omega arith

  take-min :
      (f : Fifo D) (len : ℕ) → IsValid f → take (min f.size len) (recent f) ≡ take len (recent f)
  take-min f len v =
      sym (take-take f.size len (recent f))
      ∙ take_of_length-le f.size (take len (recent f))
          (omega (arith, length-take len (recent f), length-recent f v))

  sum_newest :
      (f : Fifo D) (len : ℕ)
      → IsValid f
      → sum_from f 0 (min f.size len) reset_stats ≡ some (total (take len (recent f)))
  sum_newest f len v =
      sum_from-foldl f 0 (min f.size len) reset_stats v (omega arith)
      ∙ ap (λ l. some (foldl sum_stats reset_stats l)) (take-min f len v)
      ∙ ap some (foldl-total (take len (recent f)))

  -- `fifo_stats_sum` is the sum of the newest `len` samples.
  pub sum-total :
      (f : Fifo D) (len : ℕ) → IsValid f → fifo_stats_sum f len ≡ some (total (take len (recent f)))
  unfolding fifo_stats_sum
  sum-total f len v = sum_newest f len v

  -- On a valid ring fifo_stats_avg answers the mean of the newest len samples, and it faults
  -- exactly when len is 0.
  pub avg-mean :
      (f : Fifo D) (len : ℕ)
      → IsValid f
      → (fifo_stats_avg f len ≡ mean (take len (recent f)))
        × ((fifo_stats_avg f len ≡ none) ↔ (len ≡ 0))
  unfolding fifo_stats_avg
  avg-mean f len v = (average, faults)
    where
      count :
          (size : ℕ) (l : List (Stats D))
          → length l ≡ size
          → (if ltb size len then size else len) ≡ length (take len l)
      count size l e = ground (arith, length-take len l)

      average : fifo_stats_avg f len ≡ mean (take len (recent f))
      average =
          rw (sum_newest f len v, fifo_stats_avg)
            (ap (divide (total (take len (recent f))))
              (count f.size (recent f) (length-recent f v)))
          ∙ divide-mean (take len (recent f))

      size_some : 0 < f.size
      size_some = omega (arith, v.inside)

      few : (length (take len (recent f)) ≡ 0) ↔ (len ≡ 0)
      few = (
        λ h. omega (arith, h, size_some, length-take len (recent f), length-recent f v),
        λ h. omega (arith, h, length-take len (recent f)),
      )

      faults : (fifo_stats_avg f len ≡ none) ↔ (len ≡ 0)
      faults = (
        λ h. few.0 ((mean_of_none (take len (recent f))).0 (sym average ∙ h)),
        λ h. average ∙ (mean_of_none (take len (recent f))).1 (few.1 h),
      )

  -- A ring of positive size that starts with zeros and takes the samples `xs`, the newest first:
  -- every push is accepted, and the average over `len` is the mean of the newest `len` of the
  -- `size` samples that it keeps, where those not yet pushed count as zeros.
  pub average_of_history :
      (size len : ℕ) (xs : List (Stats D))
      → 0 < size
      → (g : Fifo D) × (push_all (fifo_stats_init size) xs ≡ some g)
        × (fifo_stats_avg g len ≡ mean (take (min len size) (xs ++ replicate size reset_stats)))
  average_of_history size len xs h =
      let (g, e, v, s, r) = push_all-init size xs h in
      (
        g,
        e,
        (avg-mean g len v).0
            ∙ ap (λ l. mean (take len l)) r
            ∙ ap mean (take-take len size (xs ++ replicate size reset_stats)),
      )
