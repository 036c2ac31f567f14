-- ===== src/Hash/Ranged.antt =====
-- `HashEngine::ranged_i64` of hash.rs, and its range.
use leafmask.Prelude.{ℕ, ◌+◌, ◌%◌, List, if◌then◌else◌, arith}
use leafmask.Prelude.Int.{ℤ, pos, negsuc, pos_part, ◌+ℤ◌, ◌-ℤ◌, ◌≤ℤ◌, leb_ℤ}
use leafmask.Hash.{Sha256, HashEngine, hash_u64}

-- max - min + 1, where min is below max: the number of values in the range.
abbrev pub width : ℤ → ℤ → ℕ
width min max = pos_part (max -ℤ min) + 1

module _ ⦃sha256 : Sha256⦄ (self : HashEngine) where
  unfoldable pub ranged_i64 : List ℕ → ℤ → ℤ → ℤ
  ranged_i64 input min max =
      if leb_ℤ max min then min else min +ℤ pos (hash_u64 self input % width min max)

  -- A value drawn from a range lies in it, if the range has a value.
  pub ranged_i64-Within :
      (input : List ℕ) (min max : ℤ)
      → min ≤ℤ max
      → (min ≤ℤ ranged_i64 input min max) × (ranged_i64 input min max ≤ℤ max)
  unfolding ranged_i64
  ranged_i64-Within input (pos a) (pos b) h = ground (arith, h)
  ranged_i64-Within input (pos a) (negsuc b) h = ground (arith, h)
  ranged_i64-Within input (negsuc a) (pos b) h = ground (arith, h)
  ranged_i64-Within input (negsuc a) (negsuc b) h = ground (arith, h)
