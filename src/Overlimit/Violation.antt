-- ===== src/Overlimit/Violation.antt =====
-- The tests as a search over the periods and in each over the resources, by the code's comparisons;
-- First says in terms of numbers what it finds.
use mysql_governor.Base.{◌≡◌, refl, Option, none, some, List, [], ◌∷◌, arith, if◌then◌else◌, ℤ}
use mysql_governor.Base.Double.{Double, hundredths}
use mysql_governor.Data.{
  TLong, FieldName, cpu_param, read_param, write_param, PeriodName, current_period, short_period,
  mid_period, long_period, StatsCfg, Stats, RestrictInfo,
}
use mysql_governor.Account.{Account}
use mysql_governor.Overlimit.{cpu_over, io_over, is_stat_overlimit, is_over}

-- The samples of an account at one pass.
pub record Samples (D : Type 0) : Type 0 where
  pub current : Stats D
  pub short_average : Stats D
  pub mid_average : Stats D
  pub long_average : Stats D

abbrev pub with_samples : {D : Type 0} → Account D → Samples D → Account D
with_samples ac s = record ac {
  current = s.current;
  short_average = s.short_average;
  mid_average = s.mid_average;
  long_average = s.long_average;
}

pub data Resource : Type 0 where
  cpu read write : Resource

-- What a search over a list finds first.
unfoldable pub first {ℓ κ} : {A : Type ℓ} {B : Type κ} → (A → Option B) → List A → Option B
first f [] = none
first f (x ∷ xs) = elim (f x) [ none ↦ first f xs | some b ↦ some b ]

abbrev pub limit_of : PeriodName → TLong → ℤ
limit_of short_period l = l.short
limit_of mid_period l = l.mid
limit_of long_period l = l.long
limit_of _ l = l.current

module _ {D : Type 0} ⦃dbl : Double D⦄ where
  -- The sample of a period, and its limit.
  abbrev pub sample : PeriodName → Account D → Stats D
  sample short_period ac = ac.short_average
  sample mid_period ac = ac.mid_average
  sample long_period ac = ac.long_average
  sample _ ac = ac.current

  unfoldable pub exceeds : Account D → StatsCfg → PeriodName → Resource → Option FieldName
  unfolding cpu_over io_over
  exceeds ac sl p cpu =
      if cpu_over (sample p ac).cpu (limit_of p sl.cpu) then some cpu_param else none
  exceeds ac sl p read =
      if io_over (sample p ac).read (limit_of p sl.read) then some read_param else none
  exceeds ac sl p write =
      if io_over (sample p ac).write (limit_of p sl.write) then some write_param else none

  unfoldable pub in_period : Account D → StatsCfg → PeriodName → Option (PeriodName × FieldName)
  unfolding exceeds first
  in_period ac sl p = elim (first (exceeds ac sl p) (cpu ∷ read ∷ write ∷ [])) [
    | none ↦ none
    | some f ↦ some (p, f)
  ]

  -- One period: the macro's test agrees with the description.
  in_period-macro :
      (ac : Account D) (sl : StatsCfg) (p : PeriodName)
      → in_period ac sl p ≡ (
          if is_over (is_stat_overlimit (limit_of p) (sample p ac) sl)
          then some (p, is_stat_overlimit (limit_of p) (sample p ac) sl)
          else none)
  unfolding in_period is_stat_overlimit
  in_period-macro ac sl p = ground arith

  -- The first limit that the account exceeds.
  unfoldable pub violation : Account D → StatsCfg → Option (PeriodName × FieldName)
  unfolding in_period first
  violation ac sl =
      first (in_period ac sl) (current_period ∷ short_period ∷ mid_period ∷ long_period ∷ [])

  -- The tests of the four periods in the code's order find the violation.
  pub violation-tests :
      (ac : Account D) (sl : StatsCfg)
      → let cur = is_stat_overlimit (λ l. l.current) ac.current sl in
        let short = is_stat_overlimit (λ l. l.short) ac.short_average sl in
        let mid = is_stat_overlimit (λ l. l.mid) ac.mid_average sl in
        let long = is_stat_overlimit (λ l. l.long) ac.long_average sl in
        violation ac sl ≡ (
          if is_over cur
          then some (current_period, cur)
          else if is_over short
          then some (short_period, short)
          else if is_over mid
          then some (mid_period, mid)
          else if is_over long
          then some (long_period, long)
          else none)
  unfolding violation
  violation-tests ac sl = ground (
    arith,
    in_period-macro ac sl current_period,
    in_period-macro ac sl short_period,
    in_period-macro ac sl mid_period,
    in_period-macro ac sl long_period,
  )

  -- A violation is one of the samples: the restriction fields play no part.
  pub violation_of_samples :
      (ac : Account D) (sl : StatsCfg) (restricted timeout start : ℤ) (info : RestrictInfo)
      → violation
          (record ac {
            restricted = restricted;
            timeout = timeout;
            start_count = start;
            info = info;
          })
          sl
        ≡ violation ac sl
  unfolding violation
  violation_of_samples ac sl restricted timeout start info = refl
