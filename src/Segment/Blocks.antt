-- ===== src/Segment/Blocks.antt =====
-- Which blocks a segment (include/hwmalloc/detail/segment.hpp) is cut into, counted by any test.
use hwmalloc.Base.{ℕ, zero, suc, ◌≡◌, ◌≢◌, refl, ap, Bool, ◌∷◌, arith, length, count, ◌==◌}
use hwmalloc.Platform.{Block, Platform}
use hwmalloc.Segment.{Segment, block_at, blocks_down}

-- The test whether a block belongs to the segment at an address.
abbrev pub owned_by : {H : Type 0} → ℕ → Block H → Bool
owned_by a b = b.segment == a

module _ {W R H S : Type 0} (env : Platform W R H S) where
  pub length-blocks_down : (a : ℕ) (g : Segment R S) (n : ℕ) → length (blocks_down env a g n) ≡ n
  unfolding blocks_down
  length-blocks_down a g zero = refl
  length-blocks_down a g (suc n) = omega (arith, length-blocks_down a g n)

  -- All blocks of a segment belong to it.
  pub count-blocks_down_own :
      (a : ℕ) (g : Segment R S) (n : ℕ) → count (owned_by a) (blocks_down env a g n) ≡ n
  unfolding blocks_down block_at
  count-blocks_down_own a g zero = refl
  count-blocks_down_own a g (suc n) = ground (arith, count-blocks_down_own a g n)

  -- No block of a segment belongs to another one.
  pub count-blocks_down_other :
      (a k : ℕ) (g : Segment R S) (n : ℕ) → k ≢ a → count (owned_by a) (blocks_down env k g n) ≡ 0
  unfolding blocks_down block_at
  count-blocks_down_other a k g zero h = refl
  count-blocks_down_other a k g (suc n) h = ground (arith, count-blocks_down_other a k g n h)

  -- The stack of freed blocks and its counter do not matter for where the blocks lie.
  pub blocks_down-freed :
      (a : ℕ) (g : Segment R S) (n : ℕ) (t : S) (m : ℕ)
      → blocks_down env a (record g { freed_stack = t; num_freed = m }) n ≡ blocks_down env a g n
  unfolding blocks_down block_at
  blocks_down-freed a g zero t m = refl
  blocks_down-freed a g (suc n) t m = ap (◌∷◌ (block_at env a g n)) (blocks_down-freed a g n t m)
