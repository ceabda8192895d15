-- ===== src/Base/Text.antt =====
-- C strings as the list of their bytes before the terminating NUL.
use Prim.Native.Nat.{ℕ, ◌+◌, ◌-◌}
use Prim.Native.Char.{code}
use Prim.Native.String.{String}
use mathlib.Core.Path.{◌≡◌, refl}
use mathlib.Core.Logic.{◌↔◌}
use mathlib.Core.Bool.{Bool, true, false, ◌&&◌}
use mathlib.Core.List.{List, [], ◌∷◌}
use native.Mathlib.Omega.{arith}
use mysql_governor.Base.Tests.{leb, ◌==◌, if◌then◌else◌}
use mysql_governor.Base.Lists.{take}

abbrev pub Bytes : Type 0
Bytes = List ℕ

-- The bytes of a literal.
abbrev pub codes : String → Bytes
codes String.[] = []
codes (String.◌∷◌ c s) = code c ∷ codes s

-- strcmp (a, b) == 0
unfoldable pub streq : Bytes → Bytes → Bool
streq [] [] = true
streq [] (y ∷ ys) = false
streq (x ∷ xs) [] = false
streq (x ∷ xs) (y ∷ ys) = x == y && streq xs ys

pub streq_sound : (a b : Bytes) → streq a b ≡ true → a ≡ b
unfolding streq
streq_sound [] [] h = refl
streq_sound [] (y ∷ ys) h = ground arith
streq_sound (x ∷ xs) [] h = ground arith
streq_sound (x ∷ xs) (y ∷ ys) h = ground (arith, streq_sound xs ys)

pub streq_self : (a : Bytes) → streq a a ≡ true
unfolding streq
streq_self [] = refl
streq_self (x ∷ xs) = ground (arith, streq_self xs)

pub streq_iff : (a b : Bytes) → (streq a b ≡ true) ↔ (a ≡ b)
streq_iff a b = (streq_sound a b, λ e. ground (arith, streq_self a))

-- strlcpy (dst, src, size): what `dst` holds afterwards.
abbrev pub strlcpy : Bytes → ℕ → Bytes
strlcpy src size = take (size - 1) src

-- strncmp (a, b, n) == 0
abbrev pub strneq : Bytes → Bytes → ℕ → Bool
strneq a b n = streq (take n a) (take n b)

-- tolower of the C locale
abbrev pub to_lower : ℕ → ℕ
to_lower c = if leb b'A' c && leb c b'Z' then c + 32 else c

-- strcasecmp (a, b) == 0
unfoldable pub strcaseeq : Bytes → Bytes → Bool
strcaseeq [] [] = true
strcaseeq [] (y ∷ ys) = false
strcaseeq (x ∷ xs) [] = false
strcaseeq (x ∷ xs) (y ∷ ys) = to_lower x == to_lower y && strcaseeq xs ys
