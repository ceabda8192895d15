-- ===== src/Config/Limits/Own.antt =====
-- The limits, the mode and the kind of an account with an element of its own.
use mysql_governor.Base.{◌≡◌, refl, sym, ap, ◌∙◌, subst, true, false, none, some, Bytes, codes}
use mysql_governor.Config.Modes.{mode_type_str_to_enum}
use mysql_governor.Data.{ModeType, restrict_mode, TLong, StatsCfg}
use mysql_governor.Config.Result.{
  no_current, null_string, Result, stops, returns, required, Returns, Returns->>=, Returns-eq,
  Returns_all,
}
use mysql_governor.Xml.{Node, get_elem_attr, children_of}
use mysql_governor.Config.Children.Last.{Decided}
use mysql_governor.Config.Limits.{
  System, set_named, limit_values, set_stats_limit, set_limits, user_limits, is_account,
  mode_or_restrict,
}
use mysql_governor.Config.Children.{each_child-Keeps}
use mysql_governor.Config.Limits.Inherited.{
  Resource, limit_of, same_limits, set_named-kept, limit_child, ValueBy, LimitBy,
  set_limits-LimitBy,
}

module _ (system : System) where
  limit_kept :
      (cur : Node) (st : StatsCfg) (P : StatsCfg → Type 0)
      → ((ptr : Bytes) (value : TLong) → P (set_named ptr value st))
      → Returns (set_stats_limit system cur st) P
  unfolding set_stats_limit
  limit_kept cur st P h =
      Returns->>= P (required no_current (get_elem_attr cur (codes "current"))) _ λ val_ptr _.
        Returns->>= P (required null_string (get_elem_attr cur (codes "name"))) _
          λ ptr _. Returns->>= P (limit_values system cur ptr val_ptr) _ λ value _. h ptr value

  -- The mode and the kind of the account are not those of a limit.
  set_limits-kept :
      (n : Node) (st : StatsCfg)
      → Returns
          (set_limits system n st)
          (λ l. (l.mode ≡ st.mode) × (l.account_flag ≡ st.account_flag))
  unfolding set_limits
  set_limits-kept n st =
      each_child-Keeps (set_stats_limit system) Kept (codes "limit") round_kept (children_of n) st
        (refl, refl)
    where
      Kept : StatsCfg → Type 0
      Kept l = (l.mode ≡ st.mode) × (l.account_flag ≡ st.account_flag)

      round_kept :
          (cur : Node) (l : StatsCfg) → Kept l → Returns (set_stats_limit system cur l) Kept
      round_kept cur l h = limit_kept cur l Kept (λ ptr value.
          ((set_named-kept ptr value l).0 ∙ h.0, (set_named-kept ptr value l).1 ∙ h.1))

  -- The mode of a result.
  abbrev mode_in : Result ModeType → ModeType
  mode_in (returns m) = m
  mode_in (stops e) = restrict_mode

  -- The limits of an account, as its element and the default limits say them.
  pub record IsUserLimits (default_limit : StatsCfg) (n : Node) (l : StatsCfg) : Type 0 where
    pub limits :
        (r : Resource)
        → Decided
            (ValueBy system)
            (limit_child r (children_of n))
            (limit_of r default_limit)
            (limit_of r l)
    pub of_account :
        (name : Bytes) → get_elem_attr n (codes "name") ≡ some name → l.account_flag ≡ true
    pub of_user : get_elem_attr n (codes "name") ≡ none → l.account_flag ≡ false
    pub mode :
        (s : Bytes)
        → get_elem_attr n (codes "mode") ≡ some s
        → mode_type_str_to_enum s ≡ returns l.mode
    pub no_mode : get_elem_attr n (codes "mode") ≡ none → l.mode ≡ restrict_mode

  pub user_limits-IsUserLimits :
      (default_limit : StatsCfg) (n : Node) (l : StatsCfg)
      → user_limits system default_limit n ≡ returns l
      → IsUserLimits default_limit n l
  unfolding user_limits
  user_limits-IsUserLimits default_limit n l e =
      Returns-eq (IsUserLimits default_limit n) _ l
        (Returns->>= (IsUserLimits default_limit n)
          (mode_or_restrict (get_elem_attr n (codes "mode"))) _
          λ mode em.
            Returns_all (IsUserLimits default_limit n) (set_limits system n (start mode))
              (built mode em))
        e
    where
      start : ModeType → StatsCfg
      start mode = record default_limit {
        account_flag = is_account (get_elem_attr n (codes "name"));
        mode = mode;
      }

      built :
          (mode : ModeType)
          → mode_or_restrict (get_elem_attr n (codes "mode")) ≡ returns mode
          → (after : StatsCfg) → set_limits system n (start mode) ≡ returns after
          → IsUserLimits default_limit n after
      built mode em after ea = record {
        limits = λ r.
            subst
              (λ v. Decided (ValueBy system) (limit_child r (children_of n)) v (limit_of r after))
              (same_limits r default_limit (is_account (get_elem_attr n (codes "name"))) mode)
              (Returns-eq (LimitBy system r (start mode) (limit_child r (children_of n))) _ after
                (set_limits-LimitBy system r n (start mode)) ea);
        of_account = λ name h. flag ∙ rw h refl;
        of_user = λ h. flag ∙ rw h refl;
        mode = λ s h. sym (ap mode_or_restrict h) ∙ restated;
        no_mode = λ h. sym (ap mode_in (sym (ap mode_or_restrict h) ∙ restated));
      }
        where
          both :
              (after.mode ≡ mode)
              × (after.account_flag ≡ is_account (get_elem_attr n (codes "name")))
          both =
              Returns-eq
                (λ m.
                  (m.mode ≡ mode) × (m.account_flag ≡ is_account (get_elem_attr n (codes "name"))))
                _ after (set_limits-kept n (start mode)) ea

          flag : after.account_flag ≡ is_account (get_elem_attr n (codes "name"))
          flag = both.1

          restated : mode_or_restrict (get_elem_attr n (codes "mode")) ≡ returns after.mode
          restated = em ∙ ap returns (sym both.0)
