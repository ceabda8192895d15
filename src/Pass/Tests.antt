-- ===== src/Pass/Tests.antt =====
-- Runs of a pass over concrete tables.
use mysql_governor.Base.{
  ◌≡◌, refl, true, none, some, [], ◌∷◌, arith, pos, ◌+ℤ◌, ◌-ℤ◌, ◌*ℤ◌, div_ℤ, Bytes, codes, streq,
  lookup,
}
use mysql_governor.Base.Double.{
  Hundredths, hundredths, div_hundredths, ceil_hundredths, floor_hundredths,
}
use mysql_governor.Fixtures.{config, user}
use mysql_governor.Account.{UserStats}
use mysql_governor.Users.{StatCounters, Tables, init_user_stats, init_account, account_of}
use mysql_governor.Users.Sample.{IsSteady}
use mysql_governor.Pass.{clac_stats_difference_inner_from_counter}
use mysql_governor.Pass.Sampled.{Sampled}
use mysql_governor.Pass.Once.{sample_at}

-- Half a minute of counters: 3000 ticks of the processor, at 100 a second.
abbrev counter : StatCounters Hundredths
counter = record { s = record { cpu = pos 300000; write = pos 0; read = pos 600 }; tm = pos 100000 }

abbrev new_user : UserStats Hundredths
new_user = init_user_stats config user (codes "shop")

abbrev tables : Tables Hundredths
tables = record {
  users = (user, new_user) ∷ [];
  accounts = (codes "shop", record (init_account (codes "shop")) { users = user ∷ [] }) ∷ [];
  user_accounts = (user, codes "shop") ∷ [];
  counters = (user, counter) ∷ (codes "blog_db", counter) ∷ [];
  tick_id = 0;
}

abbrev reset_at : Bytes → Hundredths
reset_at u = pos 103000

steady : IsSteady config
steady = record { short = omega arith; mid = omega arith; long = omega arith }

-- The name of the account is the part before the separator.
shop : account_of config true none user ≡ codes "shop"
unfolding account_of streq lookup
shop = refl

drawn :
    sample_at config steady true none (pos 100) (pos 103000) reset_at (some counter)
    ≡ record { cpu = pos 100; write = pos 0; read = pos 20 }
unfolding clac_stats_difference_inner_from_counter ◌+ℤ◌ ◌-ℤ◌ ◌*ℤ◌ div_ℤ div_hundredths
    ceil_hundredths floor_hundredths
drawn = refl
