-- ===== src/Config/Children/Last.antt =====
-- Loops over children in which, for one part of the state, the last child of a kind decides.
use mysql_governor.Base.{
  ◌≡◌, refl, sym, ◌∙◌, subst, Bool, true, false, Option, none, some, if◌then◌else◌, Bytes, streq,
}
use mysql_governor.Config.Result.{Result, returns, Returns, Returns->>=, Returns-eq, Returns_weaken}
use mysql_governor.Xml.{Node, Nodes, nil, cons, name_of}
use mysql_governor.Config.Children.{each_child}

abbrev pub later : Option Node → Bool → Node → Option Node
later (some n) b cur = some n
later none true cur = some cur
later none false cur = none

-- The last node of a kind among siblings.
unfoldable pub last_such : (Node → Bool) → Nodes → Option Node
last_such kind nil = none
last_such kind (cons cur next) = later (last_such kind next) (kind cur) cur

-- `part` of the state after the loop is what the deciding node makes it, or what it was.
abbrev pub Decided : {X : Type 0} → (Node → X → Type 0) → Option Node → X → X → Type 0
Decided by none before after = after ≡ before
Decided by (some n) before after = by n after

Decided_later :
    {X : Type 0} (by : Node → X → Type 0) (b : Bool) (cur : Node) (n : Option Node)
    (before mid after : X)
    → Decided by (later none b cur) before mid
    → Decided by n mid after
    → Decided by (later n b cur) before after
Decided_later by true cur none before mid after h g = subst (by cur) (sym g) h
Decided_later by false cur none before mid after h g = g ∙ h
Decided_later by b cur (some n) before mid after h g = g

module _ {S X : Type 0} (body : Node → S → Result S) (child_name : Bytes) (part : S → X)
    (kind : Node → Bool) (by : Node → X → Type 0) where
  abbrev pub step : Node → S → Result S
  step cur st = if streq (name_of cur) child_name then body cur st else returns st

  abbrev pub Decides : S → Option Node → S → Type 0
  Decides st n after = Decided by n (part st) (part after)

  pub each_child-last_such :
      ((cur : Node) (st : S) → Returns (step cur st) (Decides st (later none (kind cur) cur)))
      → (s : Nodes) (st : S)
      → Returns (each_child body child_name s st) (Decides st (last_such kind s))
  unfolding each_child last_such
  each_child-last_such h nil st = refl
  each_child-last_such h (cons cur next) st =
      Returns->>= (Decides st (last_such kind (cons cur next))) (step cur st) _ λ mid em.
        Returns_weaken (Decides mid (last_such kind next)) _ (each_child body child_name next mid)
          (λ after.
            Decided_later by (kind cur) cur (last_such kind next) (part st) (part mid) (part after)
              (Returns-eq (Decides st (later none (kind cur) cur)) (step cur st) mid (h cur st) em))
          (each_child-last_such h next mid)
