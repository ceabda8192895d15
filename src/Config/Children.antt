-- ===== src/Config/Children.antt =====
-- The loops over the children of a name: `for (n = getNextChild (p, s, NULL); n; n = getNextChild
-- (p, s, n))`.
pub mod Last
use mysql_governor.Base.{
  ◌≡◌, refl, inl, inr, Bool, true, false, Option, none, some, if◌then◌else◌, Bool-cases, Bytes,
  streq,
}
use mysql_governor.Config.Result.{Result, returns, Returns, Returns->>=, Returns-eq, ◌>>=◌}
use mysql_governor.Xml.{Node, Nodes, nil, cons, name_of, get_next_child}

module _ {S : Type 0} (body : Node → S → Result S) where
  unfoldable pub each_child : Bytes → Nodes → S → Result S
  each_child child_name nil st = returns st
  each_child child_name (cons cur next) st = do
    after ← if streq (name_of cur) child_name then body cur st else returns st
    each_child child_name next after

  -- One round: the loop takes what get_next_child answers and goes on from there.
  abbrev round : Bytes → Option (Node × Nodes) → S → Result S
  round child_name none st = returns st
  round child_name (some (cur, rest)) st = do after ← body cur st; each_child child_name rest after

  pub each_child-get_next_child :
      (child_name : Bytes) (s : Nodes) (st : S)
      → each_child child_name s st ≡ round child_name (get_next_child child_name s) st
  unfolding each_child get_next_child
  each_child-get_next_child child_name nil st = refl
  each_child-get_next_child child_name (cons cur next) st =
      elim (Bool-cases (streq (name_of cur) child_name)) [
        | inl e ↦ rw e refl
        | inr e ↦ rw e (each_child-get_next_child child_name next st)
      ]

  pub each_child-none :
      (child_name : Bytes) (s : Nodes) (st : S)
      → get_next_child child_name s ≡ none
      → each_child child_name s st ≡ returns st
  each_child-none child_name s st e = rw (each_child-get_next_child child_name s st) (rw e refl)

  -- What every round keeps, the loop keeps.
  pub each_child-Keeps :
      (P : S → Type 0) (child_name : Bytes)
      → ((cur : Node) (st : S) → P st → Returns (body cur st) P)
      → (s : Nodes) (st : S) → P st
      → Returns (each_child child_name s st) P
  unfolding each_child
  each_child-Keeps P child_name h nil st p = p
  each_child-Keeps P child_name h (cons cur next) st p = Returns->>= P round_of _ λ after e.
      each_child-Keeps P child_name h next after
        (Returns-eq P round_of after (kept (streq (name_of cur) child_name)) e)
    where
      round_of : Result S
      round_of = if streq (name_of cur) child_name then body cur st else returns st

      kept : (b : Bool) → Returns (if b then body cur st else returns st) P
      kept true = h cur st p
      kept false = p
