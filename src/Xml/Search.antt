-- ===== src/Xml/Search.antt =====
-- What the searches of xml.c find, and what the removal of an element leaves.
use mysql_governor.Base.{
  ℕ, ◌+◌, ◌≡◌, refl, ◌↔◌, Option, none, some, List, [], ◌∷◌, ◌++◌, arith, if◌then◌else◌, Bytes,
  streq,
}
use mysql_governor.Xml.{
  Node, Nodes, node, nil, cons, name_of, find_in, find_element_with_name, or_else,
}

-- The nodes of a forest in the order of the document.
unfoldable mutual
  pub preorder : Nodes → List Node
  preorder nil = []
  preorder (cons n next) = n ∷ below n ++ preorder next

  pub below : Node → List Node
  below (node name attributes children) = preorder children

-- The first node of a name in a list.
unfoldable pub first_named : Bytes → List Node → Option Node
first_named name [] = none
first_named name (n ∷ ns) = if streq (name_of n) name then some n else first_named name ns

first_named-append :
    (name : Bytes) (xs ys : List Node)
    → first_named name (xs ++ ys) ≡ or_else (first_named name xs) (first_named name ys)
unfolding first_named
first_named-append name [] ys = refl
first_named-append name (n ∷ xs) ys = ground (arith, first_named-append name xs ys)

mutual
  unfolding find_in find_element_with_name preorder below first_named

  pub search_in : (name : Bytes) (s : Nodes) → find_in name s ≡ first_named name (preorder s)
  search_in name nil = refl
  search_in name (cons n next) =
      rw
        (
          first_named-append name (below n) (preorder next),
          search_in name next,
          search_below name n,
        )
        refl

  search_below :
      (name : Bytes) (n : Node) → find_element_with_name n name ≡ first_named name (below n)
  search_below name (node m attributes children) = search_in name children

-- The search answers the first element of its name in the order of the document.
pub find_element_with_name-first_named :
    (name : Bytes) (n : Node) → find_element_with_name n name ≡ first_named name (below n)
find_element_with_name-first_named name n = search_below name n

unfoldable pub count_named : Bytes → List Node → ℕ
count_named name [] = 0
count_named name (n ∷ ns) = (if streq (name_of n) name then 1 else 0) + count_named name ns

pub count-append :
    (name : Bytes) (xs ys : List Node)
    → count_named name (xs ++ ys) ≡ count_named name xs + count_named name ys
unfolding count_named
count-append name [] ys = omega arith
count-append name (n ∷ xs) ys = ground (arith, count-append name xs ys)

pub first_named-zero :
    (name : Bytes) (ns : List Node) → (first_named name ns ≡ none) ↔ (count_named name ns ≡ 0)
unfolding first_named count_named
first_named-zero name [] = (λ e. refl, λ e. refl)
first_named-zero name (n ∷ ns) = ground (arith, first_named-zero name ns)
