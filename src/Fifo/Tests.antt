-- ===== src/Fifo/Tests.antt =====
-- Runs of the ring, and its theorems at a ring of three samples.
use mysql_governor.Base.{
  take, ◌↔◌, ℕ, ◌+◌, ◌*◌, ◌≡◌, refl, none, some, List, [], ◌∷◌, arith, pos, ◌+ℤ◌, ◌-ℤ◌, ◌*ℤ◌, div_ℤ,
}
use mysql_governor.Base.Double.{Hundredths, hundredths, div_hundredths}
use mysql_governor.Data.{Stats}
use mysql_governor.Fifo.{
  Fifo, fifo_stats_init, fifo_stats_push, fifo_stats_get, fifo_stats_avg, fifo_stats_refresh_last,
  fifo_stats_sum, reset_stats, sum_stats, divide,
}
use mysql_governor.Fifo.Inv.{IsValid}
use mysql_governor.Fifo.Recent.{recent, push_all, push_all-init, refresh-recent, get-recent}
use mysql_governor.Fifo.Average.{mean, total, avg-mean, average_of_history}

abbrev sample : ℕ → Stats Hundredths
sample n = record { cpu = pos n; write = pos (10 * n); read = pos (n + 1) }

-- Samples 7, 8 and 9, the newest at index 2.
abbrev ring : Fifo Hundredths
ring = record { ar = sample 8 ∷ sample 7 ∷ sample 9 ∷ []; size = 3; first = 2 }

ring-IsValid : IsValid ring
ring-IsValid = record { storage = refl; inside = omega arith }

newest_first : recent ring ≡ sample 9 ∷ sample 8 ∷ sample 7 ∷ []
newest_first = refl

program : Unit {0}
unfolding fifo_stats_init fifo_stats_push fifo_stats_get fifo_stats_avg fifo_stats_refresh_last
    fifo_stats_sum reset_stats sum_stats divide mean total push_all ◌+ℤ◌ ◌-ℤ◌ ◌*ℤ◌ div_ℤ
    div_hundredths
program = tt

average_of_two : fifo_stats_avg ring 2 ≡ some (record { cpu = pos 8; write = pos 85; read = pos 9 })
unfolding program
average_of_two = refl

-- An interval of 0 divides by 0.
average_of_none : fifo_stats_avg ring 0 ≡ none
unfolding program
average_of_none = refl

-- A ring of no samples is written before its start.
push_into_nothing : fifo_stats_push (fifo_stats_init 0) (sample 1) ≡ none
unfolding program
push_into_nothing = refl

avg-mean_example :
    (fifo_stats_avg ring 2 ≡ mean (take 2 (recent ring)))
    × ((fifo_stats_avg ring 2 ≡ none) ↔ (Path ℕ 2 0))
avg-mean_example = avg-mean ring 2 ring-IsValid

get-recent_example : fifo_stats_get ring 1 ≡ some (sample 8)
get-recent_example = get-recent ring 1 ring-IsValid (omega arith)

push_all-init_example :
    (g : Fifo Hundredths) × (push_all (fifo_stats_init 2) (sample 3 ∷ sample 2 ∷ sample 1 ∷ [])
      ≡ some g)
    × IsValid g
    × (g.size ≡ 2)
    × (recent g ≡ sample 3 ∷ sample 2 ∷ [])
push_all-init_example = push_all-init 2 (sample 3 ∷ sample 2 ∷ sample 1 ∷ []) (omega arith)

refresh-recent_example :
    (g : Fifo Hundredths) × (old : Stats Hundredths) × (rest : List (Stats Hundredths))
    × (fifo_stats_refresh_last ring (sample 1) ≡ some g)
    × IsValid g
    × (recent ring ≡ old ∷ rest)
    × (recent g ≡ sum_stats old (sample 1) ∷ rest)
refresh-recent_example = refresh-recent ring (sample 1) ring-IsValid

average_of_history_example :
    (g : Fifo Hundredths) × (push_all (fifo_stats_init 3) (sample 9 ∷ sample 8 ∷ []) ≡ some g)
    × (fifo_stats_avg g 2 ≡ mean (sample 9 ∷ sample 8 ∷ []))
average_of_history_example = average_of_history 3 2 (sample 9 ∷ sample 8 ∷ []) (omega arith)
