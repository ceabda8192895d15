-- ===== src/Fifo.antt =====
-- fifo_stats.c: the ring of the last samples of a user, and the sums of stats.c that it is
-- averaged with. A read or write outside the array, and a division of integers by 0, are faults:
-- the operation returns none. Samples are C structures that are copied in, so the array is a list.
pub mod Inv
pub mod Recent
pub mod Average
mod Tests
use mysql_governor.Base.{
  ℕ, zero, suc, ◌+◌, ◌-◌, min, Option, none, some, List, ltb, leb, ◌==◌, if◌then◌else◌, length,
  get_elem?, set, replicate, pos, ◌+ℤ◌, div_ℤ,
}
use mysql_governor.Base.Double.{Double}
use mysql_governor.Data.{Stats}

-- struct fifo_stats
pub record Fifo (D : Type 0) : Type 0 where
  pub ar : List (Stats D)
  pub size : ℕ
  pub first : ℕ

module _ {D : Type 0} ⦃dbl : Double D⦄ where
  unfoldable pub reset_stats : Stats D
  reset_stats = record { cpu = dbl.of_int (pos 0); write = pos 0; read = pos 0 }

  -- `dest` is the first argument.
  unfoldable pub sum_stats : Stats D → Stats D → Stats D
  sum_stats dest nr = record {
    cpu = dbl.add dest.cpu nr.cpu;
    write = dest.write +ℤ nr.write;
    read = dest.read +ℤ nr.read;
  }

  unfoldable pub fifo_stats_init : ℕ → Fifo D
  fifo_stats_init size = record { ar = replicate size reset_stats; size = size; first = 0 }

  -- `first - 1`, or the last index where that is negative. With no element it is still negative.
  unfoldable pub before_first : Fifo D → Option ℕ
  before_first f =
      if 0 == f.first then (if 0 == f.size then none else some (f.size - 1)) else some (f.first - 1)

  write_at : Fifo D → Stats D → ℕ → Option (Fifo D)
  write_at f x i =
      if ltb i (length f.ar) then some (record f { ar = set f.ar i x; first = i }) else none

  unfoldable pub fifo_stats_push : Fifo D → Stats D → Option (Fifo D)
  unfolding before_first write_at
  fifo_stats_push f x = elim (before_first f) [ none ↦ none | some i ↦ write_at f x i ]

  unfoldable pub fifo_stats_get : Fifo D → ℕ → Option (Stats D)
  fifo_stats_get f i =
      get_elem? f.ar (if leb f.size (f.first + i) then f.first + i - f.size else f.first + i)

  -- The newest sample grows by `x`.
  unfoldable pub fifo_stats_refresh_last : Fifo D → Stats D → Option (Fifo D)
  unfolding sum_stats
  fifo_stats_refresh_last f x = elim (get_elem? f.ar f.first) [
    | none ↦ none
    | some old ↦ some (record f { ar = set f.ar f.first (sum_stats old x) })
  ]

  -- The loop of `fifo_stats_sum` and `fifo_stats_avg` from index `i`, with `rounds` rounds left
  -- before `size` or `length` stops it.
  unfoldable pub sum_from : Fifo D → ℕ → ℕ → Stats D → Option (Stats D)
  sum_from f i zero sum = some sum
  sum_from f i (suc rounds) sum = elim (fifo_stats_get f i) [
    | none ↦ none
    | some tmp ↦ sum_from f (i + 1) rounds (sum_stats sum tmp)
  ]

  unfoldable pub fifo_stats_sum : Fifo D → ℕ → Option (Stats D)
  unfolding sum_from
  fifo_stats_sum f len = sum_from f 0 (min f.size len) reset_stats

  -- The divisions: the one of doubles is the double's, those of integers fault at 0.
  unfoldable pub divide : Stats D → ℕ → Option (Stats D)
  divide sum len =
      if 0 == len
      then none
      else some (record {
        cpu = dbl.div sum.cpu (dbl.of_int (pos len));
        write = div_ℤ sum.write len;
        read = div_ℤ sum.read len;
      })

  unfoldable pub fifo_stats_avg : Fifo D → ℕ → Option (Stats D)
  unfolding sum_from divide
  fifo_stats_avg f len = elim (sum_from f 0 (min f.size len) reset_stats) [
    | none ↦ none
    | some sum ↦ divide sum (if ltb f.size len then f.size else len)
  ]
