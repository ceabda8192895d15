-- ===== src/Config/Limits/Users.antt =====
-- The table of the limits of the accounts, as the file says it.
use mysql_governor.Base.{
  ◌≡◌, refl, ◌∙◌, inl, inr, Bool, true, false, ◌&&◌, Option, none, some, if◌then◌else◌, Bool-cases,
  Bytes, codes, streq, Table, lookup, insert, lookup-insert,
}
use mysql_governor.Data.{StatsCfg}
use mysql_governor.Config.Result.{Result, returns, stops, Returns, Returns->>=}
use mysql_governor.Xml.{Node, Nodes, name_of, get_elem_attr}
use mysql_governor.Config.Children.Last.{later, last_such, Decided, each_child-last_such}
use mysql_governor.Config.Limits.{System, account_name, user_limits, add_user, add_users_of}

abbrev is_named : Bytes → Result Bytes → Bool
is_named k (returns name) = streq name k
is_named k (stops e) = false

-- Whether an element is a `user` of the name.
unfoldable pub is_entry : Bytes → Node → Bool
unfolding account_name
is_entry k cur =
    streq (name_of cur) (codes "user")
    && is_named k
        (account_name (get_elem_attr cur (codes "name")) (get_elem_attr cur (codes "mysql_name")))

-- The last `user` element of the name.
unfoldable pub entry_of : Bytes → Nodes → Option Node
unfolding is_entry last_such
entry_of k = last_such (is_entry k)

module _ (system : System) (default_limit : StatsCfg) where
  -- The entry of a table for a name that an element makes.
  abbrev pub EntryBy : Node → Option StatsCfg → Type 0
  EntryBy n entry =
      (l : StatsCfg) × (user_limits system default_limit n ≡ returns l) × (entry ≡ some l)

  abbrev Entered : Bytes → Table StatsCfg → Option Node → Table StatsCfg → Type 0
  Entered k before n after = Decided EntryBy n (lookup k before) (lookup k after)

  inserted :
      (k name : Bytes) (cur : Node) (l : StatsCfg) (t : Table StatsCfg)
      → user_limits system default_limit cur ≡ returns l
      → Entered k t (later none (streq name k) cur) (insert name l t)
  inserted k name cur l t el = elim (Bool-cases (streq name k)) [
    | inl e ↦ rw e (l, el, lookup-insert name k l t ∙ rw e refl)
    | inr e ↦ rw e (lookup-insert name k l t ∙ rw e refl)
  ]

  add_user-Entered :
      (k : Bytes) (cur : Node) (t : Table StatsCfg)
      → streq (name_of cur) (codes "user") ≡ true
      → Returns
          (add_user system default_limit cur t)
          (Entered k t (later none (is_entry k cur) cur))
  unfolding add_user is_entry
  add_user-Entered k cur t e =
      Returns->>= P
        (account_name (get_elem_attr cur (codes "name")) (get_elem_attr cur (codes "mysql_name"))) _
        λ name en.
          Returns->>= P (user_limits system default_limit cur) _
            λ l el. rw (e, en) (inserted k name cur l t el)
    where
      P : Table StatsCfg → Type 0
      P = Entered k t (later none (is_entry k cur) cur)

  not_entry :
      (k : Bytes) (cur : Node) → streq (name_of cur) (codes "user") ≡ false → is_entry k cur ≡ false
  unfolding is_entry
  not_entry k cur e = rw e refl

  -- One round of the loop, whatever the element is.
  step-Entered :
      (k : Bytes) (cur : Node) (t : Table StatsCfg)
      → Returns
          (if streq (name_of cur) (codes "user")
            then add_user system default_limit cur t
            else returns t)
          (Entered k t (later none (is_entry k cur) cur))
  step-Entered k cur t = elim (Bool-cases (streq (name_of cur) (codes "user"))) [
    | inl e ↦ rw e (add_user-Entered k cur t e)
    | inr e ↦ rw (e, not_entry k cur e) refl
  ]

  pub add_users_of-entry_of :
      (k : Bytes) (top : Nodes) (t : Table StatsCfg)
      → Returns (add_users_of system default_limit top t) (Entered k t (entry_of k top))
  unfolding add_users_of entry_of
  add_users_of-entry_of k top t =
      each_child-last_such (add_user system default_limit) (codes "user") (lookup k) (is_entry k)
        EntryBy (step-Entered k) top t
