-- ===== src/UserMap/RoundTrip.antt =====
-- The file that maps database users to accounts, written line by line and read back.
use mysql_governor.Base.{
  ℕ, ◌-◌, ◌%◌, ◌^◌, ◌<◌, min, ◌≡◌, refl, sym, ap, ◌∙◌, inl, inr, true, false, Option, none, some,
  List, [], ◌∷◌, ◌++◌, arith, ◌==◌, if◌then◌else◌, Bool-cases, length, length-append,
  take_of_length-le, pos, leb_ℤ, int_of_unsigned, Bytes, streq, streq_iff, Table, lookup, insert,
  lookup-insert,
}
use mysql_governor.Base.Number.{atoi, decimal}
use mathlib.Core.List.{append_assoc}
use mysql_governor.Data.{GovernorConfig, username_max_len}
use mysql_governor.Config.Period.RoundTrip.{
  digits_value, decimal-AllDigits, length-decimal, skip-digits, signed-digits,
}
use mysql_governor.UserMap.{UserMap}
use mysql_governor.UserMap.Reading.{
  fgets_each, new_entry, unless_known, map_line, map_lines, get_map_file,
}
use mysql_governor.UserMap.Words.{
  IsWord, joined, digits-IsWord, trim-word, not_end, zero_test, split_line-joined,
}

-- A line of the file.
pub record Entry : Type 0 where
  pub username : Bytes
  pub account_name : Bytes
  pub uid : ℕ

abbrev pub print_map : List Entry → Bytes
print_map [] = []
print_map (e ∷ es) = joined e.username e.account_name (decimal e.uid) (b'\n' ∷ print_map es)

-- The names are words that fit their buffers, and the identifier is a positive int.
pub record IsFit (e : Entry) : Type 0 where
  pub username_word : IsWord e.username
  pub account_word : IsWord e.account_name
  pub username_some : 0 < length e.username
  pub account_some : 0 < length e.account_name
  pub username_fits : length e.username < username_max_len
  pub account_fits : length e.account_name < username_max_len
  pub uid_some : 0 < e.uid
  pub uid_int : e.uid < 2 ^ 31

abbrev pub AllFit : List Entry → Type 0
AllFit [] = Unit {0}
AllFit (e ∷ es) = IsFit e × AllFit es

int_of_small : (n : ℕ) → n < 2 ^ 31 → int_of_unsigned (min n (2 ^ 63 - 1) % 2 ^ 32) ≡ pos n
int_of_small n l = ground arith

atoi-decimal : (n : ℕ) → n < 2 ^ 31 → atoi (decimal n) ≡ pos n
unfolding atoi
atoi-decimal n l = rw (skip-digits (decimal n) (decimal-AllDigits n)) (
    rw (signed-digits (decimal n) (decimal-AllDigits n))
      (rw (digits_value n (omega arith)) (int_of_small n l)))

-- No byte is the end of a line.
abbrev IsInLine : Bytes → Type 0
IsInLine [] = Unit {0}
IsInLine (c ∷ s) = ((c == b'\n') ≡ false) × IsInLine s

IsInLine-append : (s t : Bytes) → IsWord s → IsInLine t → IsInLine (s ++ t)
IsInLine-append [] t h g = g
IsInLine-append (c ∷ s) t h g = (not_end c h.0, IsInLine-append s t h.1 g)

fgets_each-line :
    (room : ℕ) (line w rest : Bytes)
    → IsInLine w
    → length w < room
    → fgets_each room line (w ++ b'\n' ∷ rest)
      ≡ (line ++ (w ++ b'\n' ∷ [])) ∷ fgets_each 1023 [] rest
unfolding fgets_each
fgets_each-line room line [] rest h l = refl
fgets_each-line room line (c ∷ w) rest h l = rw h.0 (
    rw more (
      fgets_each-line (room - 1) (line ++ c ∷ []) w rest h.1 (omega arith)
      ∙ ap (λ x. x ∷ fgets_each 1023 [] rest) (append_assoc line (c ∷ []) (w ++ b'\n' ∷ []))))
  where
    more : (room == 1) ≡ false
    more = ground arith

joined-append : (u a d s t : Bytes) → joined u a d s ++ t ≡ joined u a d (s ++ t)
joined-append u a d s t =
    append_assoc u (b' ' ∷ (a ++ (b' ' ∷ (d ++ s)))) t
    ∙ ap (λ x. u ++ (b' ' ∷ x))
        (append_assoc a (b' ' ∷ (d ++ s)) t ∙ ap (λ x. a ++ (b' ' ∷ x)) (append_assoc d s t))

abbrev entry_line : Entry → Bytes
entry_line e = joined e.username e.account_name (decimal e.uid) (b'\n' ∷ [])

fgets_each-entry :
    (e : Entry) (rest : Bytes)
    → IsFit e
    → fgets_each 1023 [] (joined e.username e.account_name (decimal e.uid) (b'\n' ∷ rest))
      ≡ entry_line e ∷ fgets_each 1023 [] rest
fgets_each-entry e rest f =
    let u = e.username in
    let a = e.account_name in
    let d = decimal e.uid in
    ap (λ x. fgets_each 1023 [] x) (sym (joined-append u a d [] (b'\n' ∷ rest)))
    ∙ fgets_each-line 1023 [] (joined u a d []) rest in_line short
    ∙ ap (λ x. x ∷ fgets_each 1023 [] rest) (joined-append u a d [] (b'\n' ∷ []))
  where
    short : length (joined e.username e.account_name (decimal e.uid) []) < 1023
    short = omega (
      arith,
      length-append e.username (b' ' ∷ (e.account_name ++ (b' ' ∷ (decimal e.uid ++ [])))),
      length-append e.account_name (b' ' ∷ (decimal e.uid ++ [])),
      length-append (decimal e.uid) [],
      length-decimal e.uid,
      f.username_fits,
      f.account_fits,
    )

    in_line : IsInLine (joined e.username e.account_name (decimal e.uid) [])
    in_line = IsInLine-append e.username _ f.username_word (
      refl,
      IsInLine-append e.account_name _ f.account_word
          (refl, IsInLine-append (decimal e.uid) [] (digits-IsWord _ (decimal-AllDigits e.uid)) tt),
    )

abbrev pub entry_of : Entry → UserMap
entry_of e = record { username = e.username; account_name = e.account_name; uid = pos e.uid }

new_entry-entry_of :
    (data_cfg : GovernorConfig) (e : Entry) (m : Table UserMap)
    → IsFit e
    → data_cfg.separate_lve ≡ true
    → new_entry data_cfg e.username e.account_name (decimal e.uid) m
      ≡ insert e.username (entry_of e) m
unfolding new_entry
new_entry-entry_of data_cfg e m f s = rw s (
    rw (atoi-decimal e.uid f.uid_int) (
      rw
        (
          take_of_length-le 63 e.username (omega (arith, f.username_fits)),
          take_of_length-le 63 e.account_name (omega (arith, f.account_fits)),
          positive e.uid f.uid_some,
        )
        refl))
  where
    positive : (n : ℕ) → 0 < n → leb_ℤ (pos 1) (pos n) ≡ true
    positive n h = ground arith

map_line-entry :
    (data_cfg : GovernorConfig) (e : Entry) (m : Table UserMap)
    → IsFit e
    → data_cfg.separate_lve ≡ true
    → map_line data_cfg (entry_line e) m
      ≡ unless_known (lookup e.username m) m (insert e.username (entry_of e) m)
unfolding map_line
map_line-entry data_cfg e m f s =
    rw
      (split_line-joined e.username e.account_name (decimal e.uid) f.username_word f.account_word
        (digits-IsWord _ (decimal-AllDigits e.uid)) f.username_some f.username_fits f.account_fits
        (omega (arith, length-decimal e.uid)))
      (rw
        (
          trim-word e.username f.username_word,
          trim-word e.account_name f.account_word,
          trim-word (decimal e.uid) (digits-IsWord _ (decimal-AllDigits e.uid)),
        )
        (rw (zero_test (length e.username) f.username_some) (
          rw (zero_test (length e.account_name) f.account_some)
            (ap (unless_known (lookup e.username m) m) (new_entry-entry_of data_cfg e m f s)))))

-- The entry that the first line of a user gives.
abbrev pub first_line : Bytes → List Entry → Option UserMap
first_line u [] = none
first_line u (e ∷ es) = if streq e.username u then some (entry_of e) else first_line u es

abbrev or_else : Option UserMap → Option UserMap → Option UserMap
or_else none p = p
or_else (some um) p = some um

lookup-unless_known :
    (u k : Bytes) (x : UserMap) (m : Table UserMap) (p : Option UserMap)
    → or_else (lookup k (unless_known (lookup u m) m (insert u x m))) p
      ≡ or_else (lookup k m) (if streq u k then some x else p)
lookup-unless_known u k x m p = elim (Bool-cases (streq u k)) [
  | inl h ↦ rw h (same (lookup u m) h (sym (ap (λ z. lookup z m) ((streq_iff u k).0 h))))
  | inr h ↦ rw h (other (lookup u m) h)
]
  where
    same :
        (o : Option UserMap)
        → streq u k ≡ true
        → lookup k m ≡ o
        → or_else (lookup k (unless_known o m (insert u x m))) p ≡ or_else (lookup k m) (some x)
    same none h e = rw e (
        ap (λ q. or_else q p)
          (lookup-insert u k x m ∙ ap (λ b. if b then some x else lookup k m) h))
    same (some y) h e = rw e refl

    other :
        (o : Option UserMap)
        → streq u k ≡ false
        → or_else (lookup k (unless_known o m (insert u x m))) p ≡ or_else (lookup k m) p
    other none h = ap (λ q. or_else q p) (lookup-insert u k x m ∙ rw h refl)
    other (some y) h = refl

or_else-none : (o : Option UserMap) → or_else o none ≡ o
or_else-none none = refl
or_else-none (some y) = refl

lookup-map_lines :
    (data_cfg : GovernorConfig) (es : List Entry) (m : Table UserMap) (k : Bytes)
    → AllFit es
    → data_cfg.separate_lve ≡ true
    → lookup k (map_lines data_cfg (fgets_each 1023 [] (print_map es)) m)
      ≡ or_else (lookup k m) (first_line k es)
unfolding map_lines fgets_each
lookup-map_lines data_cfg [] m k f s = sym (or_else-none (lookup k m))
lookup-map_lines data_cfg (e ∷ es) m k f s =
    let known = unless_known (lookup e.username m) m (insert e.username (entry_of e) m) in
    ap (λ x. lookup k (map_lines data_cfg x m)) (fgets_each-entry e (print_map es) f.0)
    ∙ ap (λ m'. lookup k (map_lines data_cfg (fgets_each 1023 [] (print_map es)) m'))
        (map_line-entry data_cfg e m f.0 s)
    ∙ lookup-map_lines data_cfg es known k f.1 s
    ∙ lookup-unless_known e.username k (entry_of e) m (first_line k es)

-- With separate_lve, a file of lines that fit is read, and each user has the entry that the first of the lines of the
-- user gives, if there is one, and else none.
pub get_map_file-print_map :
    (data_cfg : GovernorConfig) (es : List Entry)
    → AllFit es
    → data_cfg.separate_lve ≡ true
    → ((get_map_file data_cfg (some (print_map es))).1 ≡ 1)
      × ((u : Bytes) → lookup u (get_map_file data_cfg (some (print_map es))).0 ≡ first_line u es)
unfolding get_map_file lookup
get_map_file-print_map data_cfg es f s = (refl, λ u. lookup-map_lines data_cfg es [] u f s)
