-- ===== src/Config/Limits/Written.antt =====
-- The numbers that a `limit` element is read as.
use mysql_governor.Base.{
  ℕ, ℤ, pos, negsuc, ◌≡◌, refl, inl, inr, true, false, Option, none, some, arith, Bool-cases, Bytes,
  codes, streq,
}
use mysql_governor.Config.Period.{parse_period}
use mysql_governor.Data.{TLong}
use mysql_governor.Config.Result.{returns, Returns, Returns->>=}
use mysql_governor.Xml.{Node, get_elem_attr}
use mysql_governor.Config.Limits.{System, limit_values, period_value}

module _ (system : System) where
  -- The number of an attribute: -1 where it is absent.
  abbrev number_in : Option Bytes → ℤ
  number_in none = negsuc 0
  number_in (some s) = system.atof s

  -- The four numbers of a `limit` element of the name `ptr` and the current value `val_ptr`: those of
  -- its attributes, or for slow queries a period, with no others.
  pub record IsWritten (n : Node) (ptr val_ptr : Bytes) (value : TLong) : Type 0 where
    pub slow :
        streq ptr (codes "slow") ≡ true
        → (seconds : ℕ) × (parse_period val_ptr ≡ returns seconds)
          × (value.current ≡ pos seconds)
          × (value.short ≡ negsuc 0)
          × (value.mid ≡ negsuc 0)
          × (value.long ≡ negsuc 0)
    pub numbers :
        streq ptr (codes "slow") ≡ false
        → (value.current ≡ system.atof val_ptr)
          × (value.short ≡ number_in (get_elem_attr n (codes "short")))
          × (value.mid ≡ number_in (get_elem_attr n (codes "mid")))
          × (value.long ≡ number_in (get_elem_attr n (codes "long")))

  period_value-number_in : (o : Option Bytes) → period_value system o ≡ number_in o
  period_value-number_in none = refl
  period_value-number_in (some s) = refl

  pub limit_values-IsWritten :
      (n : Node) (ptr val_ptr : Bytes)
      → Returns (limit_values system n ptr val_ptr) (IsWritten n ptr val_ptr)
  unfolding limit_values
  limit_values-IsWritten n ptr val_ptr = elim (Bool-cases (streq ptr (codes "slow"))) [
    | inl e ↦ rw e (
        Returns->>= (IsWritten n ptr val_ptr) (parse_period val_ptr) _ λ seconds es. record {
          slow = λ _. (seconds, es, refl, refl, refl, refl);
          numbers = λ h. absurd (ground (arith, e, h));
        })
    | inr e ↦ rw e (record {
      slow = λ h. absurd (ground (arith, e, h));
      numbers = λ _. (
        refl,
        period_value-number_in (get_elem_attr n (codes "short")),
        period_value-number_in (get_elem_attr n (codes "mid")),
        period_value-number_in (get_elem_attr n (codes "long")),
      );
    })
  ]
