-- ===== src/Xml/Removal.antt =====
-- The tree without the first element of a name.
use mysql_governor.Base.{
  ℕ, ◌+◌, ◌≤◌, ◌<◌, ◌≡◌, refl, ◌↔◌, inl, inr, none, some, arith, if◌then◌else◌, Bool-cases,
  Option-cases, Bytes, streq,
}
use mysql_governor.Xml.{
  Node, Nodes, node, nil, cons, name_of, find_in, find_element_with_name, remove_in, remove_below,
}
use mysql_governor.Xml.Search.{
  preorder, below, count_named, count-append, first_named-zero, search_in,
  find_element_with_name-first_named,
}

-- How many elements of a name there are.
abbrev pub count : Bytes → Nodes → ℕ
count name s = count_named name (preorder s)

abbrev pub count_below : Bytes → Node → ℕ
count_below name n = count_named name (below n)

count-nil : (name : Bytes) → count name nil ≡ 0
unfolding preorder count_named
count-nil name = refl

count-cons :
    (name : Bytes) (n : Node) (next : Nodes)
    → count name (cons n next)
      ≡ (if streq (name_of n) name then 1 else 0) + (count_below name n + count name next)
unfolding preorder count_named
count-cons name n next = rw (count-append name (below n) (preorder next)) refl

pub find-count_zero : (name : Bytes) (s : Nodes) → (find_in name s ≡ none) ↔ (count name s ≡ 0)
find-count_zero name s = rw (search_in name s) (first_named-zero name (preorder s))

pub find-below_zero :
    (name : Bytes) (n : Node) → (find_element_with_name n name ≡ none) ↔ (count_below name n ≡ 0)
find-below_zero name n =
    rw (find_element_with_name-first_named name n) (first_named-zero name (below n))

found_below :
    (name : Bytes) (n found : Node)
    → find_element_with_name n name ≡ some found
    → 0 < count_below name n
found_below name n found f = grind (arith, find-below_zero name n)

name_of-remove_below : (name : Bytes) (n : Node) → name_of (remove_below name n) ≡ name_of n
unfolding remove_below
name_of-remove_below name (node m attributes children) = refl

mutual
  unfolding remove_in remove_below below

  pub count-remove_in :
      (name : Bytes) (s : Nodes) → count name s ≤ 1 → count name (remove_in name s) ≡ 0
  count-remove_in name nil h = count-nil name
  count-remove_in name (cons n next) h = elim (Bool-cases (streq (name_of n) name)) [
    | inl e ↦ rw e (ground (arith, count-cons name n next))
    | inr e ↦ elim (Option-cases (find_element_with_name n name)) [
      | inl f ↦
          rw (e, f)
            (ground (
              arith,
              count-cons name n next,
              count-cons name n (remove_in name next),
              (find-below_zero name n).0 f,
              count-remove_in name next,
            ))
      | inr f ↦
          rw (e, f.1)
            (ground (
              arith,
              count-cons name n next,
              count-cons name (remove_below name n) next,
              name_of-remove_below name n,
              found_below name n f.0 f.1,
              count-remove_below name n,
            ))
    ]
  ]

  pub count-remove_below :
      (name : Bytes) (n : Node)
      → count_below name n ≤ 1
      → count_below name (remove_below name n) ≡ 0
  count-remove_below name (node m attributes children) h = count-remove_in name children h
