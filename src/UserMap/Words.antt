-- ===== src/UserMap/Words.antt =====
-- What the loop over a line of three words puts into the buffers.
use mysql_governor.Base.{
  ℕ, suc, ◌+◌, ◌-◌, ◌<◌, ◌≡◌, refl, sym, ap, ap₂, ◌∙◌, true, false, ◌||◌, [], ◌∷◌, ◌++◌, arith, ltb,
  ◌==◌, lt→ltb, length, Bytes,
}
use mysql_governor.Base.Number.{AllDigits}
use mathlib.Core.List.{append_assoc, append-nil}
use mysql_governor.Data.{username_max_len}
use mysql_governor.UserMap.Reading.{trim, Line, split_step, split_line, new_line}

-- No byte is a space or the end of a line.
abbrev pub IsWord : Bytes → Type 0
IsWord [] = Unit {0}
IsWord (c ∷ s) = ((c == b' ' || c == b'\n') ≡ false) × IsWord s

-- The bytes of a line of three words, before `rest`.
abbrev pub joined : Bytes → Bytes → Bytes → Bytes → Bytes
joined u a d rest = u ++ (b' ' ∷ (a ++ (b' ' ∷ (d ++ rest))))

pub digits-IsWord : (s : Bytes) → AllDigits s → IsWord s
digits-IsWord [] h = tt
digits-IsWord (c ∷ s) h = (ground arith, digits-IsWord s h.1)

pub trim-word : (s : Bytes) → IsWord s → trim s ≡ s
unfolding trim
trim-word [] h = refl
trim-word (c ∷ s) h = rw h.0 (ap (λ t. c ∷ t) (trim-word s h.1))

abbrev next : ℕ → Line → Line
next c st = record (split_step c st) { i = (split_step c st).i + 1 }

-- A word that fits is added to the field that is read, `f` at the number of bytes passed and the bytes written.
split_line-word :
    (f : ℕ → Bytes → Line)
    → ((j c : ℕ) (b : Bytes)
        → (c == b' ' || c == b'\n') ≡ false
        → j < username_max_len - 1
        → next c (f j b) ≡ f (suc j) (b ++ c ∷ []))
    → (j : ℕ) (b w rest : Bytes) → IsWord w
    → j + length w < username_max_len
    → split_line (w ++ rest) (f j b) ≡ split_line rest (f (j + length w) (b ++ w))
unfolding split_line
split_line-word f steps j b [] rest h l =
    ap₂ (λ n y. split_line rest (f n y)) (omega arith) (sym (append-nil b))
split_line-word f steps j b (c ∷ w) rest h l =
    ap (λ st. split_line (w ++ rest) st) (steps j c b h.0 (omega arith))
    ∙ split_line-word f steps (suc j) (b ++ c ∷ []) w rest h.1 (omega arith)
    ∙ ap₂ (λ n y. split_line rest (f n y)) (omega arith) (append_assoc b (c ∷ []) w)

abbrev user_at : ℕ → Bytes → Line
user_at j b = record new_line { i = j; username = b }

abbrev account_at : ℕ → Bytes → ℕ → Bytes → Line
account_at sp u j b = record {
  i = j + (sp + 1);
  split = sp;
  split2 = 0;
  username = u;
  account_name = b;
  uid = [];
}

abbrev pub uid_at : ℕ → ℕ → Bytes → Bytes → ℕ → Bytes → Line
uid_at sp sp2 u a j b = record {
  i = j + (sp2 + 1);
  split = sp;
  split2 = sp2;
  username = u;
  account_name = a;
  uid = b;
}

not_space : (c : ℕ) → (c == b' ' || c == b'\n') ≡ false → (c == b' ') ≡ false
not_space c h = ground arith

pub not_end : (c : ℕ) → (c == b' ' || c == b'\n') ≡ false → (c == b'\n') ≡ false
not_end c h = ground arith

pub zero_test : (n : ℕ) → 0 < n → (n == 0) ≡ false
zero_test n h = ground arith

offset :
    (j n : ℕ) → j < username_max_len - 1 → ltb (j + (n + 1) - n - 1) (username_max_len - 1) ≡ true
offset j n l = ground arith

past : (j n : ℕ) → ltb n (j + (n + 1)) ≡ true
past j n = ground arith

user_step :
    (j c : ℕ) (b : Bytes)
    → (c == b' ' || c == b'\n') ≡ false
    → j < username_max_len - 1
    → next c (user_at j b) ≡ user_at (suc j) (b ++ c ∷ [])
unfolding split_step
user_step j c b h l =
    rw (not_space c h) (rw (lt→ltb j 63 l) (ap (λ n. user_at n (b ++ c ∷ [])) (omega arith)))

account_step :
    (sp : ℕ) (u : Bytes)
    → 0 < sp
    → (j c : ℕ) (b : Bytes) → (c == b' ' || c == b'\n') ≡ false
    → j < username_max_len - 1
    → next c (account_at sp u j b) ≡ account_at sp u (suc j) (b ++ c ∷ [])
unfolding split_step
account_step sp u p j c b h l = rw (zero_test sp p) (
    rw (not_space c h) (
      rw (offset j sp l)
        (ap (λ n. record (account_at sp u j (b ++ c ∷ [])) { i = n }) (omega arith))))

uid_step :
    (sp sp2 : ℕ) (u a : Bytes)
    → 0 < sp
    → 0 < sp2
    → (j c : ℕ) (b : Bytes) → (c == b' ' || c == b'\n') ≡ false
    → j < username_max_len - 1
    → next c (uid_at sp sp2 u a j b) ≡ uid_at sp sp2 u a (suc j) (b ++ c ∷ [])
unfolding split_step
uid_step sp sp2 u a p p2 j c b h l = rw (zero_test sp p) (
    rw (zero_test sp2 p2) (
      rw (not_end c h) (
        rw (past j sp2) (
          rw (offset j sp2 l)
            (ap (λ n. record (uid_at sp sp2 u a j (b ++ c ∷ [])) { i = n }) (omega arith))))))

split_line-words :
    (f : ℕ → Bytes → Line)
    → ((j c : ℕ) (b : Bytes)
        → (c == b' ' || c == b'\n') ≡ false
        → j < username_max_len - 1
        → next c (f j b) ≡ f (suc j) (b ++ c ∷ []))
    → (w rest : Bytes) → IsWord w
    → length w < username_max_len
    → split_line (w ++ rest) (f 0 []) ≡ split_line rest (f (length w) w)
split_line-words f steps w rest h l =
    split_line-word f steps 0 [] w rest h (omega arith)
    ∙ ap (λ n. split_line rest (f n w)) (omega arith)

after_space :
    (n : ℕ) (u rest : Bytes)
    → 0 < n
    → split_line (b' ' ∷ rest) (user_at n u) ≡ split_line rest (account_at n u 0 [])
unfolding split_line split_step
after_space n u rest p =
    ap (λ m. split_line rest (record (account_at n u 0 []) { i = m })) (omega arith)

after_second :
    (n : ℕ) (u : Bytes) (m : ℕ) (a rest : Bytes)
    → 0 < n
    → split_line (b' ' ∷ rest) (account_at n u m a)
      ≡ split_line rest (uid_at n (m + (n + 1)) u a 0 [])
unfolding split_line split_step
after_second n u m a rest p =
    rw (zero_test n p)
      (ap (λ i. split_line rest (record (uid_at n (m + (n + 1)) u a 0 []) { i = i })) (omega arith))

at_end :
    (n k : ℕ) (u a : Bytes) (j : ℕ) (d : Bytes)
    → 0 < n
    → 0 < k
    → split_line (b'\n' ∷ []) (uid_at n k u a j d) ≡ uid_at n k u a (suc j) d
unfolding split_line split_step
at_end n k u a j d p q = rw (zero_test n p) (
    rw (zero_test k q)
      (rw (past j k) (ap (λ i. record (uid_at n k u a j d) { i = i }) (omega arith))))

-- What the loop over a line of three words leaves.
pub split_line-joined :
    (u a d : Bytes)
    → IsWord u
    → IsWord a
    → IsWord d
    → 0 < length u
    → length u < username_max_len
    → length a < username_max_len
    → length d < username_max_len
    → split_line (joined u a d (b'\n' ∷ [])) new_line
      ≡ uid_at (length u) (length a + (length u + 1)) u a (suc (length d)) d
split_line-joined u a d hu ha hd pu lu la ld =
    let n = length u in
    let k = length a + (n + 1) in
    split_line-words user_at user_step u (b' ' ∷ (a ++ (b' ' ∷ (d ++ b'\n' ∷ [])))) hu lu
    ∙ after_space n u (a ++ (b' ' ∷ (d ++ b'\n' ∷ []))) pu
    ∙ split_line-words (account_at n u) (account_step n u pu) a (b' ' ∷ (d ++ b'\n' ∷ [])) ha la
    ∙ after_second n u (length a) a (d ++ b'\n' ∷ []) pu
    ∙ split_line-words (uid_at n k u a) (uid_step n k u a pu (omega arith)) d (b'\n' ∷ []) hd ld
    ∙ at_end n k u a (length d) d pu (omega arith)
