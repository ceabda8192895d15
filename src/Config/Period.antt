-- ===== src/Config/Period.antt =====
-- governor_config.c: get_seconds and parse_period.
pub mod RoundTrip
pub mod Bound
use mysql_governor.Base.{
  ℕ, ◌+◌, ◌*◌, ◌%◌, ◌^◌, ◌≡◌, refl, ◌||◌, Option, none, some, [], ◌∷◌, ◌++◌, leb, ◌==◌,
  if◌then◌else◌, length, Bytes, codes,
}
use mysql_governor.Base.Number.{is_digit, digits_from, atoi, unsigned_of_int}
use mysql_governor.Config.Result.{
  bad_period, period_too_large, Result, returns, stops, required, ◌>>=◌,
}

-- MAX_VAL_LEN
abbrev pub max_val_len : ℕ
max_val_len = 10

-- sscanf (value, "%u", …) on a string of digits: nothing is read of the empty one.
unfoldable pub read_unsigned : Bytes → Option ℕ
unfolding digits_from
read_unsigned [] = none
read_unsigned (c ∷ s) = some (digits_from 0 (c ∷ s) % 2 ^ 32)

-- The `switch` of get_seconds, on an `unsigned` value.
unfoldable pub in_unit : ℕ → ℕ → ℕ
in_unit unit val =
    if unit == b's' || unit == b'S'
    then val
    else if unit == b'm' || unit == b'M'
    then val * 60 % 2 ^ 32
    else if unit == b'h' || unit == b'H'
    then val * 60 * 60 % 2 ^ 32
    else if unit == b'd' || unit == b'D'
    then val * 60 * 60 * 24 % 2 ^ 32
    else val

unfoldable pub get_seconds : Bytes → ℕ → Result ℕ
unfolding read_unsigned in_unit
get_seconds value unit = do
  val ← required bad_period (read_unsigned value)
  returns (in_unit unit val)

-- The locals of parse_period: the first `pos` bytes of `value`, and `result`.
pub record Scan : Type 0 where
  pub value : Bytes
  pub result : ℕ

-- One round of the loop, on the byte `period[index]`.
unfoldable pub scan_byte : ℕ → Scan → Result Scan
unfolding get_seconds
scan_byte c st =
    if is_digit c
    then (if leb max_val_len (length st.value)
        then stops period_too_large
        else returns (record st { value = st.value ++ c ∷ [] }))
    else do
      seconds ← get_seconds st.value c
      returns (record { value = []; result = (st.result + seconds) % 2 ^ 32 })

unfoldable pub scan_period : Bytes → Scan → Result Scan
unfolding scan_byte
scan_period [] st = returns st
scan_period (c ∷ s) st = do next ← scan_byte c st; scan_period s next

unfoldable pub parse_period : Bytes → Result ℕ
unfolding scan_period atoi
parse_period period = do
  st ← scan_period period (record { value = []; result = 0 })
  returns (if st.result == 0 then unsigned_of_int (atoi period) else st.result)

-- The example of the comment in the source.
hours_and_days : parse_period (codes "2d10h30m45s") ≡ returns 210645
unfolding parse_period
hours_and_days = refl

-- Without a unit after the last number, that number is lost.
lost_rest : (parse_period (codes "1h30") ≡ returns 3600) × (parse_period (codes "30") ≡ returns 30)
unfolding parse_period
lost_rest = (refl, refl)
