-- ===== src/TidTable/Entries.antt =====
-- What the operations on the table of threads leave of each thread's entry.
use mysql_governor.Base.{
  ◌≡◌, refl, sym, ap, ◌∙◌, inl, inr, Bool, true, false, ◌&&◌, ◌||◌, Option, none, some, List, [],
  ◌∷◌, arith, if◌then◌else◌, Bool-cases, ℤ, ◌≤ℤ◌, leb_ℤ, eqb_ℤ,
}
use mysql_governor.TidTable.{
  ClientData, TidData, Threads, lookup_tid, insert_tid, remove_tid_data, load_new_tid_stats,
  reported, new_data, add_new_tid_data, get_tid_data, func_remove, remove_visited,
  remove_tid_data_by_fd,
}

-- The keys are different, as in every hash table.
abbrev pub IsDistinct : Threads → Type 0
IsDistinct [] = Unit {0}
IsDistinct ((k, x) ∷ t) = (lookup_tid k t ≡ none) × IsDistinct t

lookup_tid-insert :
    (k j : ℤ) (y : TidData) (t : Threads)
    → lookup_tid j (insert_tid k y t) ≡ (if eqb_ℤ k j then some y else lookup_tid j t)
unfolding lookup_tid insert_tid
lookup_tid-insert k j y [] = refl
lookup_tid-insert k j y ((i, x) ∷ t) = ground (arith, lookup_tid-insert k j y t)

pub lookup_tid_same : (k j : ℤ) (t : Threads) → eqb_ℤ k j ≡ true → lookup_tid k t ≡ lookup_tid j t
unfolding lookup_tid
lookup_tid_same k j [] e = refl
lookup_tid_same k j ((i, x) ∷ t) e = ground (arith, lookup_tid_same k j t e)

pub lookup_tid-remove :
    (k j : ℤ) (t : Threads)
    → IsDistinct t
    → lookup_tid j (remove_tid_data k t) ≡ (if eqb_ℤ k j then none else lookup_tid j t)
unfolding lookup_tid remove_tid_data
lookup_tid-remove k j [] d = ground arith
lookup_tid-remove k j ((i, x) ∷ t) d =
    let same = lookup_tid_same i j t in ground (arith, lookup_tid-remove k j t d.1, same, d.0)

-- The larger of two counters.
abbrev pub max_ℤ : ℤ → ℤ → ℤ
max_ℤ a b = if leb_ℤ a b then b else a

load_new-max_ℤ : (a b : ℤ) → load_new_tid_stats a b ≡ max_ℤ b a
unfolding load_new_tid_stats
load_new-max_ℤ a b = ground arith

-- What a report leaves of the thread's earlier entry.
abbrev pub merged : Option TidData → ClientData → ℤ → TidData
merged none tbl fd = reported tbl fd tbl.cpu tbl.read tbl.write
merged (some x) tbl fd =
    reported tbl fd (max_ℤ x.cpu tbl.cpu) (max_ℤ x.read tbl.read) (max_ℤ x.write tbl.write)

new_data-merged :
    (tbl : ClientData) (fd : ℤ) (o : Option TidData) → new_data tbl fd o ≡ merged o tbl fd
unfolding new_data
new_data-merged tbl fd none = refl
new_data-merged tbl fd (some x) =
    rw
      (
        load_new-max_ℤ tbl.cpu x.cpu,
        load_new-max_ℤ tbl.read x.read,
        load_new-max_ℤ tbl.write x.write,
      )
      refl

same_entry : (i k : ℤ) (t : Threads) → eqb_ℤ i k ≡ true → get_tid_data i t ≡ get_tid_data k t
unfolding get_tid_data
same_entry i k t e = lookup_tid_same i k t e

pub get_tid_data-add_new_tid_data :
    (tbl : ClientData) (fd k : ℤ) (t : Threads)
    → get_tid_data k (add_new_tid_data tbl fd t) ≡ (
        if eqb_ℤ tbl.tid k then some (merged (get_tid_data tbl.tid t) tbl fd) else get_tid_data k t)
unfolding get_tid_data add_new_tid_data
get_tid_data-add_new_tid_data tbl fd k t =
    lookup_tid-insert tbl.tid k (new_data tbl fd (lookup_tid tbl.tid t)) t
    ∙ ap (λ y. if eqb_ℤ tbl.tid k then some y else lookup_tid k t)
        (new_data-merged tbl fd (lookup_tid tbl.tid t))

-- The reports, each with its descriptor, in the order in which they come.
unfoldable pub report_all : List (ClientData × ℤ) → Threads → Threads
unfolding add_new_tid_data
report_all [] t = t
report_all ((tbl, fd) ∷ rs) t = report_all rs (add_new_tid_data tbl fd t)

-- No counter of the second entry is below the first's.
abbrev pub Grown : TidData → TidData → Type 0
Grown x y = (x.cpu ≤ℤ y.cpu) × (x.read ≤ℤ y.read) × (x.write ≤ℤ y.write)

-- Over any reports, of whatever threads, the entry of a thread stays, and its counters never fall.
pub report_all-Grown :
    (rs : List (ClientData × ℤ)) (k : ℤ) (t : Threads) (x : TidData)
    → get_tid_data k t ≡ some x
    → (y : TidData) × (get_tid_data k (report_all rs t) ≡ some y) × Grown x y
unfolding report_all
report_all-Grown [] k t x e = (x, e, (omega arith, omega arith, omega arith))
report_all-Grown ((tbl, fd) ∷ rs) k t x e =
    let (z, ez, (c, r, w)) = one in
    let (y, ey, (c', r', w')) = report_all-Grown rs k (add_new_tid_data tbl fd t) z ez in
    (y, ey, (omega arith, omega arith, omega arith))
  where
    one : (z : TidData) × (get_tid_data k (add_new_tid_data tbl fd t) ≡ some z) × Grown x z
    one = elim (Bool-cases (eqb_ℤ tbl.tid k)) [
      | inl h ↦ (
        merged (some x) tbl fd,
        get_tid_data-add_new_tid_data tbl fd k t
            ∙ rw h (ap (λ o. some (merged o tbl fd)) (same_entry tbl.tid k t h ∙ e)),
        (ground arith, ground arith, ground arith),
      )
      | inr h ↦ (
        x,
        get_tid_data-add_new_tid_data tbl fd k t ∙ rw h e,
        (omega arith, omega arith, omega arith),
      )
    ]

pub IsDistinct-remove : (k : ℤ) (t : Threads) → IsDistinct t → IsDistinct (remove_tid_data k t)
unfolding remove_tid_data
IsDistinct-remove k [] d = tt
IsDistinct-remove k ((i, x) ∷ t) d = elim (Bool-cases (eqb_ℤ i k)) [
  | inl e ↦ rw e d.1
  | inr e ↦ rw e (ground (arith, lookup_tid-remove k i t d.1, d.0), IsDistinct-remove k t d.1)
]

-- One of the entries is of thread `k` and descriptor `fd`.
unfoldable pub hit : ℤ → ℤ → Threads → Bool
hit fd k [] = false
hit fd k ((j, x) ∷ es) = (eqb_ℤ x.fd fd && eqb_ℤ j k) || hit fd k es

lookup_tid-remove_visited :
    (fd k : ℤ) (es t : Threads)
    → IsDistinct t
    → lookup_tid k (remove_visited fd es t) ≡ (if hit fd k es then none else lookup_tid k t)
unfolding remove_visited func_remove hit
lookup_tid-remove_visited fd k [] t d = refl
lookup_tid-remove_visited fd k ((j, x) ∷ es) t d = elim (Bool-cases (eqb_ℤ x.fd fd)) [
  | inl e ↦ rw e (
      lookup_tid-remove_visited fd k es (remove_tid_data j t) (IsDistinct-remove j t d)
      ∙ ground (arith, lookup_tid-remove j k t d))
  | inr e ↦ rw e (lookup_tid-remove_visited fd k es t d)
]

-- An entry, if it is not of descriptor `fd`.
abbrev pub unless_of : ℤ → Option TidData → Option TidData
unless_of fd none = none
unless_of fd (some x) = if eqb_ℤ x.fd fd then none else some x

-- What is visited are entries of the table.
abbrev pub AreEntries : Threads → Threads → Type 0
AreEntries [] t = Unit {0}
AreEntries ((j, x) ∷ es) t = (lookup_tid j t ≡ some x) × AreEntries es t

-- Thread `k` is visited.
abbrev pub is_visited : ℤ → Threads → Bool
is_visited k [] = false
is_visited k ((j, x) ∷ es) = eqb_ℤ j k || is_visited k es

hit-is_visited :
    (fd k : ℤ) (es t : Threads)
    → AreEntries es t
    → (if hit fd k es then none else lookup_tid k t)
      ≡ (if is_visited k es then unless_of fd (lookup_tid k t) else lookup_tid k t)
unfolding hit
hit-is_visited fd k [] t h = refl
hit-is_visited fd k ((j, x) ∷ es) t h = elim (Bool-cases (eqb_ℤ j k)) [
  | inl e ↦
      rw (e, at_k e)
        (one (eqb_ℤ x.fd fd) refl (
          sym (ap (λ o. if hit fd k es then none else o) (at_k e))
          ∙ hit-is_visited fd k es t h.1
          ∙ ap (λ o. if is_visited k es then unless_of fd o else o) (at_k e)))
  | inr e ↦ rw e (other (eqb_ℤ x.fd fd) ∙ hit-is_visited fd k es t h.1)
]
  where
    at_k : eqb_ℤ j k ≡ true → lookup_tid k t ≡ some x
    at_k e = sym (lookup_tid_same j k t e) ∙ h.0

    same : (v : Bool) → (if v then some x else some x) ≡ some x
    same true = refl
    same false = refl

    one :
        (b : Bool)
        → eqb_ℤ x.fd fd ≡ b
        → (if hit fd k es then none else some x)
          ≡ (if is_visited k es then unless_of fd (some x) else some x)
        → (if b && true || hit fd k es then none else some x) ≡ (if b then none else some x)
    one true e g = refl
    one false e g = g ∙ rw e (same (is_visited k es))

    other :
        (b : Bool)
        → (if b && false || hit fd k es then none else lookup_tid k t)
          ≡ (if hit fd k es then none else lookup_tid k t)
    other true = refl
    other false = refl

-- In a table with different keys, if g_hash_table_foreach visits only entries of the table at the end of a
-- connection, each thread of its descriptor that is visited loses its entry; every other thread has the entry that it had.
pub get_tid_data-remove_tid_data_by_fd :
    (visits : ℤ → Threads → Threads) (fd k : ℤ) (t : Threads)
    → IsDistinct t
    → AreEntries (visits fd t) t
    → get_tid_data k (remove_tid_data_by_fd visits fd t)
      ≡ (if is_visited k (visits fd t) then unless_of fd (get_tid_data k t) else get_tid_data k t)
unfolding get_tid_data remove_tid_data_by_fd
get_tid_data-remove_tid_data_by_fd visits fd k t d h =
    lookup_tid-remove_visited fd k (visits fd t) t d ∙ hit-is_visited fd k (visits fd t) t h
