-- ===== src/Config/Period/RoundTrip.antt =====
-- Periods that are printed are read back.
use mysql_governor.Base.{
  ℕ, zero, suc, ◌+◌, ◌-◌, ◌*◌, ◌/◌, ◌%◌, ◌^◌, ◌≤◌, ◌<◌, min, ◌≡◌, refl, sym, ap, ◌∙◌, inl, inr,
  true, false, some, [], ◌∷◌, ◌++◌, arith, leb, ◌==◌, ==_iff, Bool-cases, length, length-append,
  pos, int_of_unsigned, Bytes,
}
use mysql_governor.Base.Number.{
  is_digit, digits_from, atoi, skip_spaces, signed, unsigned_of_int, decimal, put, AllDigits,
  put-AllDigits, length-put, digits_from-put,
}
use mysql_governor.Config.Result.{returns}
use mathlib.Core.List.{append_assoc, append-nil}
use mysql_governor.Config.Period.{
  read_unsigned, in_unit, get_seconds, Scan, scan_byte, scan_period, parse_period, max_val_len,
}

-- A number with its unit.
abbrev part : ℕ → ℕ → Bytes → Bytes
part n unit out = decimal n ++ unit ∷ out

-- A period in days, hours, minutes and seconds, in the notation of the source's comment.
unfoldable pub print_period : ℕ → ℕ → ℕ → ℕ → Bytes
print_period d h m s = part d b'd' (part h b'h' (part m b'm' (part s b's' [])))

scan_digit :
    (c : ℕ) (s : Bytes) (st : Scan)
    → is_digit c ≡ true
    → length st.value < max_val_len
    → scan_period (c ∷ s) st ≡ scan_period s (record st { value = st.value ++ c ∷ [] })
unfolding scan_period scan_byte
scan_digit c s st h l = rw h (rw has_room refl)
  where
    has_room : leb max_val_len (length st.value) ≡ false
    has_room = ground arith

scan-digits :
    (ds out : Bytes) (st : Scan)
    → AllDigits ds
    → length st.value + length ds ≤ max_val_len
    → scan_period (ds ++ out) st ≡ scan_period out (record st { value = st.value ++ ds })
scan-digits [] out st h l =
    ap (λ v. scan_period out (record st { value = v })) (sym (append-nil st.value))
scan-digits (c ∷ ds) out st h l =
    scan_digit c (ds ++ out) st h.0 (omega arith)
    ∙ scan-digits ds out (record st { value = st.value ++ c ∷ [] }) h.1
        (omega (arith, length-append st.value (c ∷ [])))
    ∙ ap (λ v. scan_period out (record st { value = v })) (append_assoc st.value (c ∷ []) ds)

put_grows : (k n : ℕ) (out : Bytes) → length out ≤ length (put k n out)
unfolding put
put_grows zero n out = omega arith
put_grows (suc k) n out = ground (arith, put_grows k (n / 10) ((b'0' + n % 10) ∷ out))

read_nonempty : (s : Bytes) → 0 < length s → read_unsigned s ≡ some (digits_from 0 s % 2 ^ 32)
unfolding read_unsigned
read_nonempty [] h = absurd (omega arith)
read_nonempty (c ∷ s) h = refl

some_digit : (k n : ℕ) → 0 < length (put (suc k) n [])
unfolding put
some_digit k n = ground (arith, put_grows k (n / 10) ((b'0' + n % 10) ∷ []))

pub digits_value : (n : ℕ) → n < 2 ^ 32 → digits_from 0 (decimal n) ≡ n
unfolding decimal digits_from
digits_value n l = digits_from-put 9 n [] (omega arith)

read-decimal : (n : ℕ) → n < 2 ^ 32 → read_unsigned (decimal n) ≡ some n
unfolding decimal
read-decimal n l =
    read_nonempty (decimal n) (some_digit 9 n)
    ∙ ap some (ap (λ v. v % 2 ^ 32) (digits_value n l) ∙ omega arith)

pub decimal-AllDigits : (n : ℕ) → AllDigits (decimal n)
unfolding decimal
decimal-AllDigits n = put-AllDigits 10 n [] tt

pub length-decimal : (n : ℕ) → length (decimal n) ≤ max_val_len
unfolding decimal
length-decimal n = length-put 10 n []

scan-decimal :
    (n result : ℕ) (out : Bytes)
    → scan_period (decimal n ++ out) (record { value = []; result = result })
      ≡ scan_period out (record { value = decimal n; result = result })
scan-decimal n result out =
    scan-digits (decimal n) out (record { value = []; result = result }) (decimal-AllDigits n)
      (omega (arith, length-decimal n))

seconds_of_read :
    (value : Bytes) (n unit : ℕ)
    → read_unsigned value ≡ some n
    → get_seconds value unit ≡ returns (in_unit unit n)
unfolding get_seconds
seconds_of_read value n unit e = rw e refl

seconds-decimal :
    (n unit : ℕ) → n < 2 ^ 32 → get_seconds (decimal n) unit ≡ returns (in_unit unit n)
seconds-decimal n unit l = seconds_of_read (decimal n) n unit (read-decimal n l)

scan-unit :
    (value out : Bytes) (unit seconds result : ℕ)
    → is_digit unit ≡ false
    → get_seconds value unit ≡ returns seconds
    → scan_period (unit ∷ out) (record { value = value; result = result })
      ≡ scan_period out (record { value = []; result = (result + seconds) % 2 ^ 32 })
unfolding scan_period scan_byte
scan-unit value out unit seconds result u e = rw u (rw e refl)

scan-part :
    (n unit result : ℕ) (out : Bytes)
    → n < 2 ^ 32
    → is_digit unit ≡ false
    → scan_period (part n unit out) (record { value = []; result = result })
      ≡ scan_period out (record { value = []; result = (result + in_unit unit n) % 2 ^ 32 })
scan-part n unit result out l u =
    scan-decimal n result (unit ∷ out)
    ∙ scan-unit (decimal n) out unit (in_unit unit n) result u (seconds-decimal n unit l)

abbrev total : ℕ → ℕ → ℕ → ℕ → ℕ
total d h m s = d * 86400 + h * 3600 + m * 60 + s

unit_sum :
    (d h m s : ℕ)
    → total d h m s < 2 ^ 32
    → ((((0 + in_unit b'd' d) % 2 ^ 32 + in_unit b'h' h) % 2 ^ 32 + in_unit b'm' m) % 2 ^ 32
          + in_unit b's' s)
        % 2 ^ 32
      ≡ total d h m s
unfolding in_unit
unit_sum d h m s l = omega arith

scan-print :
    (d h m s : ℕ)
    → total d h m s < 2 ^ 32
    → scan_period (print_period d h m s) (record { value = []; result = 0 })
      ≡ returns (record { value = []; result = total d h m s })
unfolding print_period scan_period
scan-print d h m s l =
    scan-part d b'd' 0 (part h b'h' (part m b'm' (part s b's' []))) (omega arith) refl
    ∙ scan-part h b'h' _ (part m b'm' (part s b's' [])) (omega arith) refl
    ∙ scan-part m b'm' _ (part s b's' []) (omega arith) refl
    ∙ scan-part s b's' _ [] (omega arith) refl
    ∙ ap (λ r. returns (record { value = []; result = r })) (unit_sum d h m s l)

zero_period :
    (d h m s : ℕ)
    → d ≡ 0
    → h ≡ 0
    → m ≡ 0
    → s ≡ 0
    → atoi (print_period d h m s) ≡ atoi (print_period 0 0 0 0)
zero_period d h m s ed eh em es = rw ed (rw eh (rw em (rw es refl)))

atoi_zero : atoi (print_period 0 0 0 0) ≡ pos 0
unfolding atoi print_period decimal
atoi_zero = refl

-- The branch in which the loop finds nothing.
parsed_zero :
    (d h m s : ℕ)
    → total d h m s ≡ 0
    → unsigned_of_int (atoi (print_period d h m s)) ≡ total d h m s
parsed_zero d h m s e =
    ap unsigned_of_int
      (zero_period d h m s (omega arith) (omega arith) (omega arith) (omega arith) ∙ atoi_zero)
    ∙ sym e

-- A period in days, hours, minutes and seconds of fewer than 2 ^ 32 seconds, written in decimal
-- with the units d, h, m and s, is parsed as its number of seconds.
pub parse-print_period :
    (d h m s : ℕ)
    → d * 86400 + h * 3600 + m * 60 + s < 2 ^ 32
    → parse_period (print_period d h m s) ≡ returns (d * 86400 + h * 3600 + m * 60 + s)
unfolding parse_period
parse-print_period d h m s l = rw (scan-print d h m s l) (elim (Bool-cases (total d h m s == 0)) [
  | inl e ↦ rw e (ap returns (parsed_zero d h m s ((==_iff (total d h m s) 0).0 e)))
  | inr e ↦ rw e refl
])

pub skip-digits : (s : Bytes) → AllDigits s → skip_spaces s ≡ s
unfolding skip_spaces
skip-digits [] h = refl
skip-digits (c ∷ s) h = ground arith

pub signed-digits : (s : Bytes) → AllDigits s → signed s ≡ pos (min (digits_from 0 s) (2 ^ 63 - 1))
unfolding signed digits_from
signed-digits [] h = refl
signed-digits (c ∷ s) h = rw minus (rw plus refl)
  where
    minus : (c == b'-') ≡ false
    minus = ground arith

    plus : (c == b'+') ≡ false
    plus = ground arith

int_round : (n : ℕ) → n < 2 ^ 32 → unsigned_of_int (int_of_unsigned n) ≡ n
int_round n l = ground arith

atoi-digits :
    (s : Bytes)
    → AllDigits s
    → digits_from 0 s < 2 ^ 32
    → unsigned_of_int (atoi s) ≡ digits_from 0 s
unfolding atoi
atoi-digits s h l =
    rw (skip-digits s h) (rw (signed-digits s h) (int_round _ (omega arith) ∙ omega arith))

scan-plain :
    (n : ℕ)
    → scan_period (decimal n) (record { value = []; result = 0 })
      ≡ returns (record { value = decimal n; result = 0 })
unfolding scan_period
scan-plain n =
    ap (λ p. scan_period p (record { value = []; result = 0 })) (sym (append-nil (decimal n)))
    ∙ scan-decimal n 0 []

pub parse-decimal : (n : ℕ) → n < 2 ^ 32 → parse_period (decimal n) ≡ returns n
unfolding parse_period
parse-decimal n l = rw (scan-plain n) (
    ap returns
      (atoi-digits (decimal n) (decimal-AllDigits n) (rw (digits_value n l) l) ∙ digits_value n l))
