-- ===== src/Restrict/Level.antt =====
-- get_timeout: the ladder of levels.
use mysql_governor.Base.{
  ℕ, zero, suc, ◌≤◌, min, ◌≡◌, refl, some, List, [], ◌∷◌, arith, get_elem?, ℤ, pos, pos_part, ◌+ℤ◌,
  int_of_unsigned,
}
use mysql_governor.Data.{GovernorConfig}
use mathlib.Core.Option
use mysql_governor.Restrict.{clamp_level, level_timeout, get_timeout}

-- The ladder as a list.
abbrev pub ladder : GovernorConfig → List ℕ
ladder cfg = cfg.level1 ∷ cfg.level2 ∷ cfg.level3 ∷ cfg.level4 ∷ []

-- The level that a penalty leads to: negative sums are 0, and 3 is the highest.
abbrev pub next_level : ℤ → ℤ → ℕ
next_level level penalty = min 3 (pos_part (level +ℤ penalty))

clamp_level-min : (l : ℤ) → clamp_level l ≡ pos (min 3 (pos_part l))
unfolding clamp_level
clamp_level-min l = ground arith

level_timeout-ladder :
    (cfg : GovernorConfig) (n : ℕ)
    → n ≤ 3
    → some (level_timeout cfg (pos n))
      ≡ Option.map (λ s. int_of_unsigned s) (get_elem? (ladder cfg) n)
unfolding level_timeout
level_timeout-ladder cfg zero h = refl
level_timeout-ladder cfg (suc zero) h = refl
level_timeout-ladder cfg (suc (suc zero)) h = refl
level_timeout-ladder cfg (suc (suc (suc zero))) h = refl
level_timeout-ladder cfg (suc (suc (suc (suc n)))) h = absurd (omega arith)

-- Whatever the level was and whatever the penalty, the new level is their sum cut to 0 to 3, and
-- the timeout is the entry of the ladder at that level.
pub get_timeout_lem :
    (cfg : GovernorConfig) (level penalty : ℤ)
    → ((get_timeout cfg level penalty).0 ≡ pos (next_level level penalty))
      × (some (get_timeout cfg level penalty).1
          ≡ Option.map (λ s. int_of_unsigned s) (get_elem? (ladder cfg) (next_level level penalty)))
unfolding get_timeout
get_timeout_lem cfg level penalty = (
  clamp_level-min (level +ℤ penalty),
  rw clamp_level-min (level_timeout-ladder cfg (next_level level penalty) (omega arith)),
)
