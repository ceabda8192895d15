-- ===== src/Base/Hash.antt =====
-- A hash table with string keys as the list of its entries, in the order in which a traversal
-- visits them. Theorems range over all lists, so over all orders of traversal.
use mathlib.Core.Path.{◌≡◌, refl}
use mathlib.Core.List.{List, [], ◌∷◌}
use mathlib.Core.Option.{Option, none, some}
use native.Mathlib.Omega.{arith}
use mysql_governor.Base.Tests.{if◌then◌else◌}
use mysql_governor.Base.Text.{Bytes, streq, streq_iff}

abbrev pub Table {ℓ} : Type ℓ → Type ℓ
Table V = List (Bytes × V)

module _ {ℓ} {V : Type ℓ} where
  -- g_hash_table_lookup
  unfoldable pub lookup : Bytes → Table V → Option V
  lookup k [] = none
  lookup k ((j, v) ∷ m) = if streq j k then some v else lookup k m

  -- g_hash_table_insert: the value of a key that is there is replaced.
  unfoldable pub insert : Bytes → V → Table V → Table V
  insert k v [] = (k, v) ∷ []
  insert k v ((j, w) ∷ m) = if streq j k then (j, v) ∷ m else (j, w) ∷ insert k v m

  pub lookup-insert :
      (k j : Bytes) (v : V) (m : Table V)
      → lookup j (insert k v m) ≡ (if streq k j then some v else lookup j m)
  unfolding lookup insert
  lookup-insert k j v [] = refl
  lookup-insert k j v ((i, w) ∷ m) =
      ground (arith, streq_iff k j, streq_iff i k, streq_iff i j, lookup-insert k j v m)
