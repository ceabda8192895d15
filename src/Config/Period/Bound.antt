-- ===== src/Config/Period/Bound.antt =====
-- A period is an `unsigned`.
use mysql_governor.Base.{
  ℕ, ◌^◌, ◌<◌, inl, inr, [], ◌∷◌, arith, leb, ◌==◌, if◌then◌else◌, Bool-cases, length, ℤ, pos,
  negsuc, Bytes,
}
use mysql_governor.Base.Number.{is_digit, atoi, unsigned_of_int}
use mysql_governor.Config.Result.{Returns, Returns->>=, Returns-eq}
use mysql_governor.Config.Period.{Scan, get_seconds, scan_byte, scan_period, parse_period}

abbrev Bounded : Scan → Type 0
Bounded st = st.result < 2 ^ 32

scan_byte-Bounded : (c : ℕ) (st : Scan) → Bounded st → Returns (scan_byte c st) Bounded
unfolding scan_byte
scan_byte-Bounded c st h = elim (Bool-cases (is_digit c)) [
  | inl e ↦ elim (Bool-cases (leb 10 (length st.value))) [
    | inl f ↦ rw (e, f) tt
    | inr f ↦ rw (e, f) h
  ]
  | inr e ↦ rw e (Returns->>= Bounded (get_seconds st.value c) _ λ seconds _. omega arith)
]

scan_period-Bounded : (s : Bytes) (st : Scan) → Bounded st → Returns (scan_period s st) Bounded
unfolding scan_period
scan_period-Bounded [] st h = h
scan_period-Bounded (c ∷ s) st h =
    Returns->>= Bounded (scan_byte c st) _
      λ next e. scan_period-Bounded s next (Returns-eq Bounded _ next (scan_byte-Bounded c st h) e)

pub unsigned_lt : (z : ℤ) → unsigned_of_int z < 2 ^ 32
unsigned_lt (pos n) = omega arith
unsigned_lt (negsuc n) = omega arith

pub parse_period-lt : (period : Bytes) → Returns (parse_period period) (λ n. n < 2 ^ 32)
unfolding parse_period
parse_period-lt period =
    Returns->>= (λ n. n < 2 ^ 32) (scan_period period start) _
      λ st e. either st (Returns-eq Bounded _ st (scan_period-Bounded period start (omega arith)) e)
  where
    start : Scan
    start = record { value = []; result = 0 }

    either :
        (st : Scan)
        → Bounded st
        → (if st.result == 0 then unsigned_of_int (atoi period) else st.result) < 2 ^ 32
    either st h = ground (arith, unsigned_lt (atoi period))
