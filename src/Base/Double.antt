-- ===== src/Base/Double.antt =====
-- IEEE double precision is not part of the program: its operations are an instance argument of
-- the definitions that compute with `double`.
use Prim.Native.Nat.{◌+◌, ◌/◌}
use mathlib.Core.Bool.{Bool}
use mysql_governor.Base.Int.{ℤ, pos, pos_part, neg_part, sub_ℕ, ◌+ℤ◌, ◌-ℤ◌, ◌*ℤ◌, div_ℤ, ltb_ℤ}
use mysql_governor.Base.Tests.{leb, if◌then◌else◌}

pub record Double (D : Type 0) : Type 0 where
  pub add : D → D → D
  pub sub : D → D → D
  pub mul : D → D → D
  pub div : D → D → D
  -- `a < b`
  pub less : D → D → Bool
  -- `(double) n`
  pub of_int : ℤ → D
  -- `(long long) ceil (x)`, `(long long) floor (x)` and `(long long) x`
  pub ceil : D → ℤ
  pub floor : D → ℤ
  pub trunc : D → ℤ

-- Hundredths: a concrete arithmetic on which the definitions run in tests and witnesses.
abbrev pub Hundredths : Type 0
Hundredths = ℤ

unfoldable pub div_hundredths : ℤ → ℤ → ℤ
unfolding ◌*ℤ◌ ◌-ℤ◌ div_ℤ
div_hundredths a b =
    if leb (neg_part b) 0
    then div_ℤ (a *ℤ pos 100) (pos_part b)
    else pos 0 -ℤ div_ℤ (a *ℤ pos 100) (neg_part b)

unfoldable pub ceil_hundredths : ℤ → ℤ
unfolding ◌+ℤ◌ ◌-ℤ◌
ceil_hundredths a = sub_ℕ ((pos_part a + 99) / 100) (neg_part a / 100)

unfoldable pub floor_hundredths : ℤ → ℤ
floor_hundredths a = sub_ℕ (pos_part a / 100) ((neg_part a + 99) / 100)

instance abbrev pub hundredths : Double Hundredths
hundredths = record {
  add = ◌+ℤ◌;
  sub = ◌-ℤ◌;
  mul = λ a b. div_ℤ (a *ℤ b) 100;
  div = div_hundredths;
  less = ltb_ℤ;
  of_int = λ n. n *ℤ pos 100;
  ceil = ceil_hundredths;
  floor = floor_hundredths;
  trunc = λ a. div_ℤ a 100;
}
