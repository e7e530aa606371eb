-- ===== src/Pool/Disjoint.antt =====
-- The memory of the blocks that callers of a pool (include/hwmalloc/detail/pool.hpp) hold.
use hwmalloc.Base.{ℕ, ◌≤◌, ◌≡◌, some, List, arith, ◌&&◌, count, count-and-le, count-and_le_left}
use hwmalloc.Platform.{Block, Platform, IsStack}
use hwmalloc.Segment.{Segment, blocks_down}
use hwmalloc.Segment.Blocks.{owned_by, count-blocks_down_own}
use hwmalloc.Segment.Cover.{covers, count-covers}
use hwmalloc.Pool.{State, find, erase}
use hwmalloc.Pool.Totals.{blocks_all, blocks-erase, count-blocks_own, find-IsValid}
use hwmalloc.Pool.Invariant.{Inv}

module _ {W R H S : Type 0} (env : Platform W R H S) (laws : IsStack env.stack) where
  -- No byte of a segment lies in two blocks that are held at the same time.
  pub held_disjoint :
      (s : State W R S) (live : List (Block H)) (a x : ℕ) (g : Segment R S)
      → Inv env laws s live
      → find a s.pool.segments ≡ some g
      → count (λ b. covers g.block_size x b && owned_by a b) live ≤ 1
  held_disjoint s live a x g v e =
      let gs = s.pool.segments in
      let here = λ (b : Block H). covers g.block_size x b in
      let own = λ (b : Block H). owned_by a b in
      let both = λ (b : Block H). here b && own b in
      let gv = find-IsValid env laws a g gs e v.sound.valid in
      omega (
        arith,
        v.sound.balanced both,
        blocks-erase env laws both a g gs e,
        blocks-erase env laws own a g gs e,
        count-blocks_own env laws a s.next_object g gs v.sound.below e,
        count-blocks_down_own env a g g.num_blocks,
        count-and-le here own (blocks_all env laws (erase a gs)),
        count-and_le_left here own (blocks_down env a g g.num_blocks),
        count-covers env a g x g.num_blocks (omega (arith, gv.extent, gv.extent_small)),
      )
