-- ===== src/Overlimit/First.antt =====
-- The first limit that an account exceeds, in terms of the order of numbers.
use mysql_governor.Base.{
  ◌≡◌, refl, sym, ap, ◌∙◌, subst, ◌⊎◌, inl, inr, true, false, ◌&&◌, Option, none, some, List, [],
  ◌∷◌, arith, if◌then◌else◌, Bool-cases, drop, ℤ, pos, ◌≤ℤ◌, ◌<ℤ◌, ltb_ℤ, leb_ℤ,
}
use mysql_governor.Base.Double.{Double, hundredths}
use mysql_governor.Data.{
  FieldName, cpu_param, read_param, write_param, PeriodName, current_period, short_period,
  mid_period, long_period, StatsCfg,
}
use mysql_governor.Account.{Account}
use mysql_governor.Overlimit.{cpu_over, io_over, is_stat_overlimit, is_over}
use mysql_governor.Overlimit.Violation.{
  Resource, cpu, read, write, first, limit_of, sample, exceeds, in_period, violation,
  violation-tests,
}

abbrev pub field_of : Resource → FieldName
field_of cpu = cpu_param
field_of read = read_param
field_of write = write_param

-- The periods, and in each the resources.
abbrev pub order : List (PeriodName × Resource)
order =
    (current_period, cpu)
    ∷ (current_period, read)
    ∷ (current_period, write)
    ∷ (short_period, cpu)
    ∷ (short_period, read)
    ∷ (short_period, write)
    ∷ (mid_period, cpu)
    ∷ (mid_period, read)
    ∷ (mid_period, write)
    ∷ (long_period, cpu)
    ∷ (long_period, read)
    ∷ (long_period, write)
    ∷ []

module _ {D : Type 0} ⦃dbl : Double D⦄ (ac : Account D) (sl : StatsCfg) where
  -- The limit is set, and the sample is above it; the limit of the processor is in hundredths.
  abbrev pub Over : PeriodName → Resource → Type 0
  Over p cpu =
      (pos 0 ≤ℤ limit_of p sl.cpu)
      × (dbl.less (dbl.div (dbl.of_int (limit_of p sl.cpu)) (dbl.of_int (pos 100)))
            (sample p ac).cpu
          ≡ true)
  Over p read = (pos 0 ≤ℤ limit_of p sl.read) × (limit_of p sl.read <ℤ (sample p ac).read)
  Over p write = (pos 0 ≤ℤ limit_of p sl.write) × (limit_of p sl.write <ℤ (sample p ac).write)

  -- The outcome is that of the first in the list that is over, and none if there is none.
  abbrev pub IsFirst : List (PeriodName × Resource) → Option (PeriodName × FieldName) → Type 0
  IsFirst [] o = o ≡ none
  IsFirst ((p, r) ∷ t) o = (Over p r × (o ≡ some (p, field_of r))) ⊎ ((¬ Over p r) × IsFirst t o)

  io_decided :
      (n limit : ℤ)
      → ((pos 0 ≤ℤ limit) × (limit <ℤ n) × (io_over n limit ≡ true))
        ⊎ ((¬ ((pos 0 ≤ℤ limit) × (limit <ℤ n))) × (io_over n limit ≡ false))
  unfolding io_over
  io_decided n limit = elim (Bool-cases (ltb_ℤ limit n && leb_ℤ (pos 0) limit)) [
    | inl e ↦ inl (ground arith, ground arith, ground arith)
    | inr e ↦ inr (λ h. absurd (ground (arith, h.0, h.1)), ground arith)
  ]

  exceeds-Over :
      (p : PeriodName) (r : Resource)
      → (Over p r × (exceeds ac sl p r ≡ some (field_of r)))
        ⊎ ((¬ Over p r) × (exceeds ac sl p r ≡ none))
  unfolding exceeds cpu_over
  exceeds-Over p cpu =
      elim (Bool-cases (
        dbl.less (dbl.div (dbl.of_int (limit_of p sl.cpu)) (dbl.of_int (pos 100)))
          (sample p ac).cpu)) [
            | inl e ↦ elim (Bool-cases (leb_ℤ (pos 0) (limit_of p sl.cpu))) [
              | inl l ↦ inl ((ground arith, e), rw (e, l, cpu_over) refl)
              | inr l ↦ inr (λ h. absurd (ground (arith, h.0)), rw (e, l, cpu_over) refl)
            ]
            | inr e ↦ inr (λ h. absurd (ground (arith, e, h.1)), rw (e, cpu_over) refl)
          ]
  exceeds-Over p read = elim (io_decided (sample p ac).read (limit_of p sl.read)) [
    | inl (l, h, e) ↦ inl ((l, h), rw e refl)
    | inr (n, e) ↦ inr (n, rw e refl)
  ]
  exceeds-Over p write = elim (io_decided (sample p ac).write (limit_of p sl.write)) [
    | inl (l, h, e) ↦ inl ((l, h), rw e refl)
    | inr (n, e) ↦ inr (n, rw e refl)
  ]

  abbrev pick :
      PeriodName
      → Option FieldName
      → Option (PeriodName × FieldName)
      → Option (PeriodName × FieldName)
  pick p none o = o
  pick p (some f) o = some (p, f)

  found : List (PeriodName × Resource) → Option (PeriodName × FieldName)
  found [] = none
  found ((p, r) ∷ t) = pick p (exceeds ac sl p r) (found t)

  found-IsFirst : (l : List (PeriodName × Resource)) → IsFirst l (found l)
  unfolding found
  found-IsFirst [] = refl
  found-IsFirst ((p, r) ∷ t) = elim (exceeds-Over p r) [
    | inl (o, e) ↦ inl (o, rw (e, found) refl)
    | inr (n, e) ↦ inr (n, rw (e, found) (found-IsFirst t))
  ]

  -- What the search answers behind a period.
  abbrev behind : PeriodName → Option (PeriodName × FieldName) → Option (PeriodName × FieldName)
  behind p o = elim (in_period ac sl p) [ none ↦ o | some b ↦ some b ]

  in_period-found :
      (p : PeriodName) (rest : List (PeriodName × Resource))
      → behind p (found rest) ≡ found ((p, cpu) ∷ (p, read) ∷ (p, write) ∷ rest)
  unfolding in_period found first
  in_period-found p rest = ground arith

  violation-found : violation ac sl ≡ found order
  unfolding violation first found
  violation-found =
      ap (behind current_period) (
        ap (behind short_period) (
          ap (behind mid_period) (in_period-found long_period [])
          ∙ in_period-found mid_period (drop 9 order))
        ∙ in_period-found short_period (drop 6 order))
      ∙ in_period-found current_period (drop 3 order)

  -- The outcome of the code's tests of the four periods in their order is the first of the twelve pairs, by period and
  -- in each by resource, whose limit is set and whose sample is above it; without such a pair there is none.
  pub is_stat_overlimit-IsFirst :
      let cur = is_stat_overlimit (λ l. l.current) ac.current sl in
      let short = is_stat_overlimit (λ l. l.short) ac.short_average sl in
      let mid = is_stat_overlimit (λ l. l.mid) ac.mid_average sl in
      let long = is_stat_overlimit (λ l. l.long) ac.long_average sl in
      IsFirst order (
        if is_over cur
        then some (current_period, cur)
        else if is_over short
        then some (short_period, short)
        else if is_over mid
        then some (mid_period, mid)
        else if is_over long
        then some (long_period, long)
        else none)
  is_stat_overlimit-IsFirst =
      subst (IsFirst order) (sym violation-found ∙ violation-tests ac sl) (found-IsFirst order)
