-- ===== src/Base/Maybe.antt =====
-- Chains of operations that may fault.
use mathlib.Core.Option.{Option, none, some}

-- `abbrev`, so that a chain computes wherever it stands.
infixl 5 ◌>>=◌
abbrev pub ◌>>=◌ {ℓ κ} : {A : Type ℓ} {B : Type κ} → Option A → (A → Option B) → Option B
none >>= f = none
some a >>= f = f a
