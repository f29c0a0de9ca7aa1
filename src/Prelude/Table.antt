-- ===== src/Prelude/Table.antt =====
-- A `HashMap` or a `DashMap` whose keys are numbers: a function of the key, since the program
-- reads its maps by key alone.
use Prim.Native.Nat.{ℕ}
use mathlib.Core.Option.{Option, none, some}
use fundroid.Prelude.Tests.{◌==◌, if◌then◌else◌}

abbrev pub Table {ℓ} : Type ℓ → Type ℓ
Table V = ℕ → Option V

module _ {ℓ} {V : Type ℓ} where
  abbrev pub empty : Table V
  empty k = none

  abbrev pub insert : ℕ → V → Table V → Table V
  insert k v t j = if j == k then some v else t j

  abbrev pub remove : ℕ → Table V → Table V
  remove k t j = if j == k then none else t j
