-- ===== src/Fifo/Inv.antt =====
-- The ring's representation invariant: no index leaves the array.
use mysql_governor.Base.{
  ℕ, ◌-◌, ◌<◌, ◌≡◌, refl, some, arith, ◌==◌, if◌then◌else◌, length, set, length-set,
  length-replicate,
}
use mysql_governor.Base.Double.{Double, hundredths}
use mysql_governor.Data.{Stats}
use mysql_governor.Fifo.{Fifo, fifo_stats_init, fifo_stats_push}

pub record IsValid {D : Type 0} (f : Fifo D) : Type 0 where
  pub storage : length f.ar ≡ f.size
  pub inside : f.first < f.size

module _ {D : Type 0} ⦃dbl : Double D⦄ where
  pub init-IsValid : (size : ℕ) → 0 < size → IsValid (fifo_stats_init {D = D} size)
  unfolding fifo_stats_init
  init-IsValid size h = record { storage = length-replicate size _; inside = h }

  -- The index that a push writes.
  unfoldable pub slot : Fifo D → ℕ
  slot f = if 0 == f.first then f.size - 1 else f.first - 1

  unfoldable pub pushed : Fifo D → Stats D → Fifo D
  unfolding slot
  pushed f x = record f { ar = set f.ar (slot f) x; first = slot f }

  pub push-pushed : (f : Fifo D) (x : Stats D) → IsValid f → fifo_stats_push f x ≡ some (pushed f x)
  unfolding fifo_stats_push pushed
  push-pushed f x v = ground arith

  pub pushed-IsValid : (f : Fifo D) (x : Stats D) → IsValid f → IsValid (pushed f x)
  unfolding pushed
  pushed-IsValid f x v = ground (arith, length-set f.ar (slot f) x)

  pub size-pushed : (f : Fifo D) (x : Stats D) → (pushed f x).size ≡ f.size
  unfolding pushed
  size-pushed f x = refl
