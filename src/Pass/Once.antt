-- ===== src/Pass/Once.antt =====
-- The traversals of the counters and of the users in a pass: the samples that the rings take.
use mysql_governor.Base.{
  ℕ, ◌≡◌, Bool, true, false, Option, none, some, ◌==◌, ℤ, Bytes, Table, lookup,
}
use mysql_governor.Base.Double.{Double, hundredths}
use mysql_governor.Data.{Stats, GovernorConfig}
use mysql_governor.Fifo.{reset_stats}
use mysql_governor.Account.{UserStats}
use mysql_governor.UserMap.{UserMap}
use mysql_governor.Users.{StatCounters, Tables}
use mysql_governor.Users.Sample.{IsSteady, Pushed}
use mysql_governor.Pass.{sample_of}
use mysql_governor.Pass.Values.{AllValues}
use mysql_governor.Pass.Sampled.{HasRing, Sampled}

module _ {D : Type 0} ⦃dbl : Double D⦄ (cfg : GovernorConfig) (steady : IsSteady cfg)
    (locked : Bool) (map : Option (Table UserMap)) (clk_tck : ℤ) (new_tm : D)
    (reset_at : Bytes → D) where
  abbrev drawn : StatCounters D → Stats D
  drawn item = sample_of cfg locked map clk_tck new_tm reset_at item

  -- A user behind the traversal of the counters: with counters it has a sample, else it is as before.
  abbrev Counted :
      Option (StatCounters D) → Option (UserStats D) → ℕ → Option (UserStats D) → Type 0
  Counted none before t after = after ≡ before
  Counted (some item) before t after =
      (us' : UserStats D) × (after ≡ some us') × Sampled before (drawn item) t us'

  abbrev IsFresh : Table (StatCounters D) → Tables D → Type 0
  IsFresh cs g =
      (k : Bytes) (item : StatCounters D) (us : UserStats D)
      → lookup k cs ≡ some item
      → lookup k g.users ≡ some us
      → (us.tick == g.tick_id) ≡ false

  abbrev AllCounted : Table (StatCounters D) → Tables D → Option (Tables D) → Type 0
  AllCounted cs g r =
      (g' : Tables D) × (r ≡ some g')
      × (g'.tick_id ≡ g.tick_id)
      × AllValues HasRing g'.users
      × ((u : Bytes) → Counted (lookup u cs) (lookup u g.users) g.tick_id (lookup u g'.users))

  -- The sample of a user in the pass: what its counters make of it, and zeros without counters.
  abbrev pub sample_at : Option (StatCounters D) → Stats D
  sample_at none = reset_stats
  sample_at (some item) = drawn item

  -- What tick_empty_users leaves of a user that is, or is not, of the tick.
  abbrev Ticked : ℕ → Bool → UserStats D → UserStats D → Type 0
  Ticked t true us us' = us' ≡ us
  Ticked t false us us' = Pushed cfg steady reset_stats (record us { tick = t }) us'
