-- ===== src/Pool/Full.antt =====
-- Segments of a pool (include/hwmalloc/detail/pool.hpp) that got all their blocks back.
use hwmalloc.Base.{
  ℕ, ◌+◌, ◌≤◌, ◌≡◌, sym, ◌∙◌, Bool, ◌&&◌, some, List, arith, length, count, count-and-le,
  count-and_all,
}
use hwmalloc.Platform.{Block, Platform, IsStack}
use hwmalloc.Segment.{Segment, blocks_down}
use hwmalloc.Segment.Blocks.{owned_by, count-blocks_down_own, length-blocks_down}
use hwmalloc.Pool.{find, erase}
use hwmalloc.Pool.Map.{Below}
use hwmalloc.Pool.Totals.{freed_all, blocks_all, freed-erase, blocks-erase, count-blocks_own}
use hwmalloc.Pool.Invariant.{SameBlocks}

module _ {W R H S : Type 0} (env : Platform W R H S) (laws : IsStack env.stack) where
  open laws use {contents}

  -- `out` counts the blocks that are with no segment.
  pub full-SameBlocks :
      (next a : ℕ) (gs : List (ℕ × Segment R S)) (g : Segment R S) (out : (Block H → Bool) → ℕ)
      → Below next gs
      → find a gs ≡ some g
      → count (owned_by a) (contents g.freed_stack) ≡ length (contents g.freed_stack)
      → length (contents g.freed_stack) ≡ g.num_blocks
      → ((q : Block H → Bool) → out (λ b. q b && owned_by a b) ≤ out (owned_by a))
      → ((q : Block H → Bool)
          → out q + count q (freed_all env laws gs) ≡ count q (blocks_all env laws gs))
      → SameBlocks (contents g.freed_stack) (blocks_down env a g g.num_blocks)
  full-SameBlocks next a gs g out below e own_all all joined balanced q =
      let own = owned_by a in
      let both = λ (b : Block H). q b && own b in
      omega (
        arith,
        balanced both,
        balanced own,
        joined q,
        freed-erase env laws both a g gs e,
        freed-erase env laws own a g gs e,
        blocks-erase env laws both a g gs e,
        blocks-erase env laws own a g gs e,
        count-blocks_own env laws a next g gs below e,
        own_all,
        all,
        count-blocks_down_own env a g g.num_blocks,
        count-and-le q own (freed_all env laws (erase a gs)),
        count-and-le q own (blocks_all env laws (erase a gs)),
        count-and_all q own (contents g.freed_stack) own_all,
        count-and_all q own (blocks_down env a g g.num_blocks) (
            count-blocks_down_own env a g g.num_blocks
            ∙ sym (length-blocks_down env a g g.num_blocks)),
      )
