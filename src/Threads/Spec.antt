-- ===== src/Threads/Spec.antt =====
-- What the callers of a pool (include/hwmalloc/detail/pool.hpp) can rely on, without segments, stacks,
-- locks and threads: an allocator is the blocks that are held, in no order.
use mathlib.Core.Quot.{Quot}
use hwmalloc.Base.{◌≡◌, ◌&&◌, ◌==◌, Bool, List, [], ◌∷◌, count}
use hwmalloc.Platform.{Block}
use hwmalloc.Pool.Invariant.{SameBlocks}

-- The test whether a block is the same piece of the same segment as another one.
abbrev pub same_place : {H : Type 0} → Block H → Block H → Bool
same_place b c = c.ptr == b.ptr && c.segment == b.segment

abbrev pub Bag : Type 0 → Type 0
Bag H = Quot (SameBlocks {H = H})

-- What callers see: a block is handed out, or taken back.
pub data Event (H : Type 0) : Type 0 where
  got : Block H → Event H
  gave : Block H → Event H

-- The allocator goes through events from one state to another: a block that is handed out is not
-- held by anybody, and is held then; a block that is taken back was held, and is not held any more.
pub data Runs {H : Type 0} : Bag H → List (Event H) → Bag H → Type 0 where
  done : (s : Bag H) → Runs s [] s
  hands_out :
      (b : Block H) (held : List (Block H)) (es : List (Event H)) (u : Bag H)
      → count (same_place b) held ≡ 0
      → Runs (Quot.mk (b ∷ held)) es u
      → Runs (Quot.mk held) (got b ∷ es) u
  takes_back :
      (b : Block H) (held : List (Block H)) (es : List (Event H)) (u : Bag H)
      → Runs (Quot.mk held) es u
      → Runs (Quot.mk (b ∷ held)) (gave b ∷ es) u
