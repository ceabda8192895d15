-- ===== src/Users/Sample.antt =====
-- A sample that a user's ring takes, and the averages that are computed anew with it.
use mysql_governor.Base.{
  sym, ℕ, ◌-◌, ◌<◌, max, ◌≡◌, refl, ◌∙◌, inl, inr, some, ◌∷◌, arith, ◌==◌, Bool-cases, length, take,
  length-take, pos, div_ℤ, Bytes,
}
use mysql_governor.Base.Double.{Double, hundredths}
use mysql_governor.Data.{Stats, GovernorConfig}
use mysql_governor.Fifo.{Fifo, fifo_stats_avg, divide}
use mysql_governor.Fifo.Inv.{IsValid, pushed, push-pushed, pushed-IsValid, init-IsValid}
use mysql_governor.Fifo.Recent.{recent, recent-pushed, length-recent}
use mysql_governor.Fifo.Average.{total, divide-mean, avg-mean}
use mysql_governor.Account.{UserStats}
use mysql_governor.Users.{compare_max_3, averaged, push_stats, init_user_stats}

-- The averages have a divisor.
pub record IsSteady (cfg : GovernorConfig) : Type 0 where
  pub short : 0 < cfg.interval_short
  pub mid : 0 < cfg.interval_mid
  pub long : 0 < cfg.interval_long

pub compare_max_3-max : (x y z : ℕ) → compare_max_3 x y z ≡ max x (max y z)
unfolding compare_max_3
compare_max_3-max x y z = ground arith

module _ {D : Type 0} ⦃dbl : Double D⦄ where
  divide_returns : (sum : Stats D) (n : ℕ) → 0 < n → (s : Stats D) × (divide sum n ≡ some s)
  unfolding divide
  divide_returns sum n h = elim (Bool-cases (0 == n)) [
    | inl e ↦ absurd (ground arith)
    | inr e ↦ (
      record {
        cpu = dbl.div sum.cpu (dbl.of_int (pos n));
        write = div_ℤ sum.write n;
        read = div_ℤ sum.read n;
      },
      rw e refl,
    )
  ]

  avg_returns :
      (f : Fifo D) (len : ℕ) → IsValid f → 0 < len → (s : Stats D) × (fifo_stats_avg f len ≡ some s)
  avg_returns f len v h =
      let newest = take len (recent f) in
      let (s, e) =
        divide_returns (total newest) (length newest)
          (omega (arith, length-take len (recent f), length-recent f v, v.inside)) in
      (s, (avg-mean f len v).0 ∙ sym (divide-mean newest) ∙ e)

  module _ (cfg : GovernorConfig) (steady : IsSteady cfg) where
    averaged_returns :
        (us : UserStats D) (f : Fifo D)
        → IsValid f
        → (us' : UserStats D) × (averaged cfg us f ≡ some us')
          × (us'.stats ≡ f)
          × (us'.tick ≡ us.tick)
    unfolding averaged
    averaged_returns us f v =
        let (l, el) = avg_returns f cfg.interval_long v steady.long in
        let (m, em) = avg_returns f cfg.interval_mid v steady.mid in
        let (s, es) = avg_returns f cfg.interval_short v steady.short in
        (
          record us { stats = f; long_average = l; mid_average = m; short_average = s },
          rw (averaged, el, em, es) refl,
          refl,
          refl,
        )

    -- What a push leaves: the sample in front, in a valid ring of the same size.
    abbrev pub Pushed : Stats D → UserStats D → UserStats D → Type 0
    Pushed st us us' =
        IsValid us'.stats
        × (us'.tick ≡ us.tick)
        × (recent us'.stats ≡ st ∷ take (us.stats.size - 1) (recent us.stats))

    pub push_stats-Pushed :
        (st : Stats D) (us : UserStats D)
        → IsValid us.stats
        → (us' : UserStats D) × (push_stats cfg st us ≡ some us') × Pushed st us us'
    unfolding push_stats
    push_stats-Pushed st us v =
        let (us', e, s, t) =
          averaged_returns us (pushed us.stats st) (pushed-IsValid us.stats st v) in
        (
          us',
          rw (push-pushed us.stats st v) e,
          (rw s (pushed-IsValid us.stats st v), t, rw s (recent-pushed us.stats st v)),
        )

    pub init_user_stats-IsValid :
        (id ac : Bytes) → IsValid (init_user_stats {D = D} cfg id ac).stats
    unfolding init_user_stats
    init_user_stats-IsValid id ac =
        init-IsValid (compare_max_3 cfg.interval_long cfg.interval_mid cfg.interval_short) (
          omega (
            arith,
            compare_max_3-max cfg.interval_long cfg.interval_mid cfg.interval_short,
            steady.long,
          ))
