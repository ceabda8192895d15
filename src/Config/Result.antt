-- ===== src/Config/Result.antt =====
-- How the reading of the configuration ends early: each call of `exit (-1)` in governor_config.c, by
-- its message, and the call of strcmp on a NULL pointer.
use mysql_governor.Base.{◌≡◌, refl, subst, arith, Option, none, some}

pub data Stop : Type 0 where
  cannot_read no_log no_intervals no_restrict no_connector no_default invalid_mode bad_period
        period_too_large no_current no_user_name two_user_names null_string :
      Stop

pub data Result {ℓ} (A : Type ℓ) : Type ℓ where
  returns : A → Result A
  stops : Stop → Result A

-- `abbrev`, so that a chain computes wherever it stands.
infixl 5 ◌>>=◌
abbrev pub ◌>>=◌ {ℓ κ} : {A : Type ℓ} {B : Type κ} → Result A → (A → Result B) → Result B
returns a >>= f = f a
stops e >>= f = stops e

-- `if (p == NULL) exit (-1)`
abbrev pub required {ℓ} : {A : Type ℓ} → Stop → Option A → Result A
required e none = stops e
required e (some a) = returns a

-- What is returned, if anything is, has the property.
abbrev pub Returns {ℓ κ} : {A : Type ℓ} → Result A → (A → Type κ) → Type κ
Returns (returns a) P = P a
Returns (stops e) P = Unit

-- The rule for one step of a chain.
pub Returns->>= {ℓ κ ι} :
    {A : Type ℓ} {B : Type κ} (P : B → Type ι) (m : Result A) (f : A → Result B)
    → ((a : A) → m ≡ returns a → Returns (f a) P)
    → Returns (m >>= f) P
Returns->>= P (returns a) f h = h a refl
Returns->>= P (stops e) f h = tt

pub Returns-eq {ℓ κ} :
    {A : Type ℓ} (P : A → Type κ) (m : Result A) (a : A) → Returns m P → m ≡ returns a → P a
Returns-eq P m a h e = subst (λ r. Returns r P) e h

pub Returns_weaken {ℓ κ ι} :
    {A : Type ℓ} (P : A → Type κ) (Q : A → Type ι) (m : Result A)
    → ((a : A) → P a → Q a)
    → Returns m P
    → Returns m Q
Returns_weaken P Q (returns a) f h = f a h
Returns_weaken P Q (stops e) f h = tt

pub required-some {ℓ} :
    {A : Type ℓ} (e : Stop) (o : Option A) (a : A) → required e o ≡ returns a → o ≡ some a
required-some e none a h = ground arith
required-some e (some b) a h = ground arith

pub Returns_all {ℓ κ} :
    {A : Type ℓ} (P : A → Type κ) (m : Result A) → ((a : A) → m ≡ returns a → P a) → Returns m P
Returns_all P (returns a) h = h a refl
Returns_all P (stops e) h = tt
