-- ===== src/Config/Limits/Inherited.antt =====
-- Which numbers the limits of a user have: those of its own element, and the rest by default.
use mysql_governor.Base.{
  ◌≡◌, refl, sym, ap, ◌∙◌, inl, inr, Bool, true, false, ◌&&◌, Option, none, some, arith,
  if◌then◌else◌, Bool-cases, Bytes, codes, streq, streq_iff,
}
use mysql_governor.Data.{ModeType, TLong, StatsCfg}
use mysql_governor.Config.Result.{
  no_current, null_string, returns, required, Returns, Returns->>=, Returns-eq, required-some,
}
use mysql_governor.Xml.{Node, Nodes, name_of, get_elem_attr, children_of}
use mysql_governor.Config.Children.Last.{later, last_such, Decided, each_child-last_such}
use mysql_governor.Config.Limits.{System, set_named, limit_values, set_stats_limit, set_limits}
use mysql_governor.Config.Limits.Written.{IsWritten, limit_values-IsWritten}

-- The four limits of an account.
pub data Resource : Type 0 where
  cpu write read slow : Resource

unfoldable pub resource_name : Resource → Bytes
resource_name cpu = codes "cpu"
resource_name write = codes "write"
resource_name read = codes "read"
resource_name slow = codes "slow"

unfoldable pub limit_of : Resource → StatsCfg → TLong
limit_of cpu l = l.cpu
limit_of write l = l.write
limit_of read l = l.read
limit_of slow l = l.slow

-- The limits do not depend on the other two fields.
pub same_limits :
    (r : Resource) (l : StatsCfg) (flag : Bool) (mode : ModeType)
    → limit_of r (record l { account_flag = flag; mode = mode }) ≡ limit_of r l
unfolding limit_of
same_limits cpu l flag mode = refl
same_limits write l flag mode = refl
same_limits read l flag mode = refl
same_limits slow l flag mode = refl

limit_of-set_named :
    (r : Resource) (ptr : Bytes) (value : TLong) (st : StatsCfg)
    → limit_of r (set_named ptr value st)
      ≡ (if streq ptr (resource_name r) then value else limit_of r st)
unfolding limit_of set_named resource_name
limit_of-set_named cpu ptr value st = ground (
  arith,
  streq_iff ptr (codes "cpu"),
  streq_iff ptr (codes "write"),
  streq_iff ptr (codes "read"),
  streq_iff ptr (codes "slow"),
)
limit_of-set_named write ptr value st = ground (
  arith,
  streq_iff ptr (codes "cpu"),
  streq_iff ptr (codes "write"),
  streq_iff ptr (codes "read"),
  streq_iff ptr (codes "slow"),
)
limit_of-set_named read ptr value st = ground (
  arith,
  streq_iff ptr (codes "cpu"),
  streq_iff ptr (codes "write"),
  streq_iff ptr (codes "read"),
  streq_iff ptr (codes "slow"),
)
limit_of-set_named slow ptr value st = ground (
  arith,
  streq_iff ptr (codes "cpu"),
  streq_iff ptr (codes "write"),
  streq_iff ptr (codes "read"),
  streq_iff ptr (codes "slow"),
)

pub set_named-kept :
    (ptr : Bytes) (value : TLong) (st : StatsCfg)
    → ((set_named ptr value st).mode ≡ st.mode)
      × ((set_named ptr value st).account_flag ≡ st.account_flag)
unfolding set_named
set_named-kept ptr value st = ground arith

unfoldable pub is_limit : Resource → Node → Bool
is_limit r cur = streq (name_of cur) (codes "limit") && elim (get_elem_attr cur (codes "name")) [
  | none ↦ false
  | some ptr ↦ streq ptr (resource_name r)
]

-- The last `limit` child for a resource.
unfoldable pub limit_child : Resource → Nodes → Option Node
unfolding last_such is_limit
limit_child r = last_such (is_limit r)

module _ (system : System) where
  -- The values that a `limit` element gives.
  unfoldable pub ValueBy : Node → TLong → Type 0
  ValueBy n value =
      (val_ptr : Bytes) × (ptr : Bytes) × (get_elem_attr n (codes "current") ≡ some val_ptr)
      × (get_elem_attr n (codes "name") ≡ some ptr)
      × IsWritten system n ptr val_ptr value

  abbrev pub LimitBy : Resource → StatsCfg → Option Node → StatsCfg → Type 0
  LimitBy r before n after = Decided ValueBy n (limit_of r before) (limit_of r after)

  set_named-LimitBy :
      (r : Resource) (cur : Node) (st : StatsCfg) (val_ptr ptr : Bytes) (value : TLong)
      → streq (name_of cur) (codes "limit") ≡ true
      → get_elem_attr cur (codes "current") ≡ some val_ptr
      → get_elem_attr cur (codes "name") ≡ some ptr
      → limit_values system cur ptr val_ptr ≡ returns value
      → LimitBy r st (later none (is_limit r cur) cur) (set_named ptr value st)
  unfolding ValueBy is_limit
  set_named-LimitBy r cur st val_ptr ptr value e ev ep el =
      elim (Bool-cases (streq ptr (resource_name r))) [
        | inl f ↦
            rw (e, ep, f)
              (
                val_ptr,
                ptr,
                ev,
                ep,
                Returns-eq (IsWritten system cur ptr val_ptr) _ _
                    (limit_values-IsWritten system cur ptr val_ptr)
                    (el ∙ ap returns (sym (limit_of-set_named r ptr value st ∙ rw f refl))),
              )
        | inr f ↦ rw (e, ep, f) (limit_of-set_named r ptr value st ∙ rw f refl)
      ]

  set_stats_limit-LimitBy :
      (r : Resource) (cur : Node) (st : StatsCfg)
      → streq (name_of cur) (codes "limit") ≡ true
      → Returns (set_stats_limit system cur st) (LimitBy r st (later none (is_limit r cur) cur))
  unfolding set_stats_limit
  set_stats_limit-LimitBy r cur st e =
      Returns->>= P (required no_current (get_elem_attr cur (codes "current"))) _ λ val_ptr ev.
        Returns->>= P (required null_string (get_elem_attr cur (codes "name"))) _ λ ptr ep.
          Returns->>= P (limit_values system cur ptr val_ptr) _ λ value el.
            set_named-LimitBy r cur st val_ptr ptr value e (required-some _ _ _ ev)
              (required-some _ _ _ ep) el
    where
      P : StatsCfg → Type 0
      P = LimitBy r st (later none (is_limit r cur) cur)

  other_child :
      (r : Resource) (cur : Node)
      → streq (name_of cur) (codes "limit") ≡ false
      → is_limit r cur ≡ false
  unfolding is_limit
  other_child r cur e = rw e refl

  step-LimitBy :
      (r : Resource) (cur : Node) (st : StatsCfg)
      → Returns
          (if streq (name_of cur) (codes "limit")
            then set_stats_limit system cur st
            else returns st)
          (LimitBy r st (later none (is_limit r cur) cur))
  step-LimitBy r cur st = elim (Bool-cases (streq (name_of cur) (codes "limit"))) [
    | inl e ↦ rw e (set_stats_limit-LimitBy r cur st e)
    | inr e ↦ rw (e, other_child r cur e) refl
  ]

  pub set_limits-LimitBy :
      (r : Resource) (n : Node) (st : StatsCfg)
      → Returns (set_limits system n st) (LimitBy r st (limit_child r (children_of n)))
  unfolding set_limits limit_child
  set_limits-LimitBy r n st =
      each_child-last_such (set_stats_limit system) (codes "limit") (limit_of r) (is_limit r)
        ValueBy (step-LimitBy r) (children_of n) st
