-- ===== src/Base/Number.antt =====
-- Numbers in C strings: `isdigit`, `atoi` and the `%u` of `sscanf`, as the C library of a 64-bit
-- system documents them, and decimal notation.
use Prim.Native.Nat.{ℕ, zero, suc, ◌+◌, ◌-◌, ◌*◌, ◌/◌, ◌%◌, ◌^◌, ◌≤◌, ◌<◌, min}
use mathlib.Core.Path.{◌≡◌, refl, ap, ◌∙◌}
use mathlib.Core.Logic.{inl, inr}
use native.Mathlib.Omega.{arith}
use mathlib.Core.Bool.{Bool, true, ◌&&◌, ◌||◌}
use mysql_governor.Base.Lists.{length}
use mathlib.Core.List.{[], ◌∷◌, ◌++◌}
use mysql_governor.Base.Int.{ℤ, pos, negsuc, sub_ℕ, int_of_unsigned}
use mysql_governor.Base.Tests.{ltb, leb, Bool-cases, lt→ltb, tests, ◌==◌, if◌then◌else◌}
use mysql_governor.Base.Text.{Bytes}

-- isdigit and isspace of the C locale
abbrev pub is_digit : ℕ → Bool
is_digit c = leb b'0' c && leb c b'9'

abbrev is_space : ℕ → Bool
is_space c = c == 32 || leb 9 c && leb c 13

-- The value of the digits in front, after those read already.
unfoldable pub digits_from : ℕ → Bytes → ℕ
digits_from n [] = n
digits_from n (c ∷ s) = if is_digit c then digits_from (n * 10 + (c - b'0')) s else n

unfoldable pub skip_spaces : Bytes → Bytes
skip_spaces [] = []
skip_spaces (c ∷ s) = let rest = skip_spaces s in if is_space c then rest else c ∷ s

-- strtol in base 10: cut to the range of `long`.
unfoldable pub signed : Bytes → ℤ
unfolding digits_from
signed [] = pos 0
signed (c ∷ s) =
    if c == b'-'
    then sub_ℕ 0 (min (digits_from 0 s) (2 ^ 63))
    else pos (min (digits_from 0 (if c == b'+' then s else c ∷ s)) (2 ^ 63 - 1))

-- The conversion to an `unsigned`: modulo 2 ^ 32.
abbrev pub unsigned_of_int : ℤ → ℕ
unsigned_of_int (pos n) = n % 2 ^ 32
unsigned_of_int (negsuc n) = 2 ^ 32 - 1 - n % 2 ^ 32

-- atoi: the value of strtol, converted to an `int`.
unfoldable pub atoi : Bytes → ℤ
unfolding skip_spaces signed
atoi s = int_of_unsigned (unsigned_of_int (signed (skip_spaces s)))

-- The digits of a number below 10 ^ k, before `out`.
unfoldable pub put : ℕ → ℕ → Bytes → Bytes
put zero n out = out
put (suc k) n out = let d = b'0' + n % 10 in if ltb n 10 then d ∷ out else put k (n / 10) (d ∷ out)

-- The decimal notation of an `unsigned`, which has at most ten digits.
unfoldable pub decimal : ℕ → Bytes
unfolding put
decimal n = put 10 n []

abbrev pub AllDigits : Bytes → Type 0
AllDigits [] = Unit
AllDigits (c ∷ s) = (is_digit c ≡ true) × AllDigits s

pub put_append : (k n : ℕ) (out s : Bytes) → put k n out ++ s ≡ put k n (out ++ s)
unfolding put
put_append zero n out s = refl
put_append (suc k) n out s = elim (Bool-cases (ltb n 10)) [
  | inl e ↦ rw e refl
  | inr e ↦ rw e (put_append k (n / 10) ((b'0' + n % 10) ∷ out) s)
]

low_digit : (n : ℕ) → is_digit (b'0' + n % 10) ≡ true
low_digit n = ground arith

pub put-AllDigits : (k n : ℕ) (out : Bytes) → AllDigits out → AllDigits (put k n out)
unfolding put
put-AllDigits zero n out h = h
put-AllDigits (suc k) n out h = elim (Bool-cases (ltb n 10)) [
  | inl e ↦ rw e (low_digit n, h)
  | inr e ↦ rw e (put-AllDigits k (n / 10) ((b'0' + n % 10) ∷ out) (low_digit n, h))
]

pub length-put : (k n : ℕ) (out : Bytes) → length (put k n out) ≤ k + length out
unfolding put
length-put zero n out = omega arith
length-put (suc k) n out = ground (arith, length-put k (n / 10) ((b'0' + n % 10) ∷ out))

digits_from-low :
    (a n : ℕ) (out : Bytes)
    → digits_from a ((b'0' + n % 10) ∷ out) ≡ digits_from (a * 10 + n % 10) out
unfolding digits_from
digits_from-low a n out = rw (low_digit n) (ap (λ m. digits_from m out) (omega arith))

pub digits_from-put :
    (k n : ℕ) (out : Bytes) → n < 10 ^ suc k → digits_from 0 (put (suc k) n out) ≡ digits_from n out
unfolding put digits_from
digits_from-put zero n out h =
    rw (lt→ltb n 10 h) (digits_from-low 0 n out ∙ ap (λ m. digits_from m out) (omega arith))
digits_from-put (suc k) n out h = elim (Bool-cases (ltb n 10)) [
  | inl e ↦ rw e (digits_from-low 0 n out ∙ ap (λ m. digits_from m out) (omega (tests, e)))
  | inr e ↦ rw e (
      digits_from-put k (n / 10) ((b'0' + n % 10) ∷ out) (omega arith)
      ∙ digits_from-low (n / 10) n out
      ∙ ap (λ m. digits_from m out) (omega arith))
]
