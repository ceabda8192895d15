-- ===== src/Restrict/PeriodMode/Ladder.antt =====
-- The levels of the period mode over any number of passes.
use mysql_governor.Base.{
  ℕ, ◌+◌, ◌≡◌, refl, ◌⊎◌, inl, inr, Bool, true, false, Option, none, some, List, [], ◌∷◌, arith,
  if◌then◌else◌, ℤ, pos, ◌+ℤ◌, ◌≤ℤ◌, ltb_ℤ,
}
use mysql_governor.Base.Double.{Double, hundredths}
use mysql_governor.Data.{GovernorConfig}
use mysql_governor.Account.{Account, World}
use mysql_governor.Overlimit.Violation.{Samples, with_samples}
use mysql_governor.Restrict.{clamp_level, level_timeout, get_timeout}
use mysql_governor.Restrict.Check.{Violated, escalated}
use mysql_governor.Restrict.Analyze.{account_analyze}
use mysql_governor.Restrict.LimitMode.{IsGoverned, freed, has_expired}
use mysql_governor.Restrict.PeriodMode.{
  is_idle, is_forgiven, paroled, PeriodStep, violated, account_analyze-PeriodStep,
}

-- The account is governed and stands on the ladder: its level is one of the four, and a timeout that it has is the
-- one of its level.
pub record IsPlaced {D : Type 0} (cfg : GovernorConfig) (ac : Account D) : Type 0 where
  pub governed : IsGoverned cfg ac
  pub low : pos 0 ≤ℤ ac.restricted
  pub high : ac.restricted ≤ℤ pos 3
  pub timed : (ac.timeout ≡ pos 0) ⊎ (ac.timeout ≡ level_timeout cfg ac.restricted)

clamp_level_bounds : (l : ℤ) → (pos 0 ≤ℤ clamp_level l) × (clamp_level l ≤ℤ pos 3)
unfolding clamp_level
clamp_level_bounds l = ground arith

module _ {D : Type 0} ⦃dbl : Double D⦄ (clock : ℕ → ℤ) (cfg : GovernorConfig) where
  -- A pass for each of the samples.
  unfoldable pub passes : List (Samples D) → Account D → World → Account D × World
  passes [] ac w = (ac, w)
  passes (s ∷ ss) ac w =
      let r = account_analyze clock cfg (with_samples ac s) w in passes ss r.0 r.1

  IsPlaced-escalated :
      (ac : Account D) (now start : ℤ) (v : Violated)
      → IsGoverned cfg ac
      → IsPlaced cfg (escalated clock cfg ac now start v)
  unfolding get_timeout
  IsPlaced-escalated ac now start v g =
      let penalty = if ltb_ℤ now (ac.start_count +ℤ pos cfg.timeout) then pos 1 else pos 0 in
      let (low, high) = clamp_level_bounds (ac.restricted +ℤ penalty) in
      record { governed = g; low = low; high = high; timed = inr refl }

  IsPlaced-freed : (ac : Account D) → IsGoverned cfg ac → IsPlaced cfg (freed ac)
  IsPlaced-freed ac g = record {
    governed = g;
    low = omega arith;
    high = omega arith;
    timed = inl refl;
  }

  IsPlaced-paroled :
      (ac : Account D) (start : ℤ) → IsPlaced cfg ac → IsPlaced cfg (paroled ac start)
  IsPlaced-paroled ac start p = record {
    governed = p.governed;
    low = p.low;
    high = p.high;
    timed = inl refl;
  }

  IsPlaced-if :
      (b : Bool) (x y : Account D)
      → IsPlaced cfg x
      → IsPlaced cfg y
      → IsPlaced cfg (if b then x else y)
  IsPlaced-if true x y p q = p
  IsPlaced-if false x y p q = q

  IsPlaced-step :
      (v : Option Violated) (ac : Account D) (w : World) (r : Account D × World)
      → IsPlaced cfg ac
      → PeriodStep clock cfg v ac w r
      → IsPlaced cfg r.0
  IsPlaced-step none ac w r p s = rw s.0 (
      IsPlaced-if (is_idle ac)
        (if is_forgiven clock cfg ac (clock (w.reads + 1)) then freed ac else ac)
        (if has_expired ac (clock w.reads) then paroled ac (clock (w.reads + 1)) else ac)
        (IsPlaced-if (is_forgiven clock cfg ac (clock (w.reads + 1))) (freed ac) ac
          (IsPlaced-freed ac p.governed) p)
        (IsPlaced-if (has_expired ac (clock w.reads)) (paroled ac (clock (w.reads + 1))) ac
          (IsPlaced-paroled ac (clock (w.reads + 1)) p) p))
  IsPlaced-step (some v) ac w r p s = rw s.0 (
      IsPlaced-if (is_idle ac) first (if has_expired ac (clock w.reads) then second else ac)
        (IsPlaced-escalated ac (clock w.reads) (clock (w.reads + 1)) v p.governed)
        (IsPlaced-if (has_expired ac (clock w.reads)) second ac
          (IsPlaced-escalated (paroled ac (clock (w.reads + 1))) (clock (w.reads + 1 + 1))
            (clock (w.reads + 1 + 1 + 1)) v p.governed)
          p))
    where
      first : Account D
      first = escalated clock cfg ac (clock w.reads) (clock (w.reads + 1)) v

      second : Account D
      second =
          escalated clock cfg (paroled ac (clock (w.reads + 1))) (clock (w.reads + 1 + 1))
            (clock (w.reads + 1 + 1 + 1)) v

  -- Over any passes and samples an account that stands on the ladder stays on it.
  pub passes-IsPlaced :
      (ss : List (Samples D)) (ac : Account D) (w : World)
      → IsPlaced cfg ac
      → IsPlaced cfg (passes ss ac w).0
  unfolding passes
  passes-IsPlaced [] ac w p = p
  passes-IsPlaced (s ∷ ss) ac w p =
      let ac1 = with_samples ac s in
      let r = account_analyze clock cfg ac1 w in
      let step = account_analyze-PeriodStep clock cfg ac1 w p.governed in
      passes-IsPlaced ss r.0 r.1 (
        IsPlaced-step (violated clock cfg ac1) ac1 w r
          (record { governed = p.governed; low = p.low; high = p.high; timed = p.timed }) step)
