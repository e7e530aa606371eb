-- ===== src/Pool/Invariant.antt =====
-- The invariant of a pool (include/hwmalloc/detail/pool.hpp) and of the blocks that its callers hold.
use mathlib.Core.Path.{subst₂}
use hwmalloc.Base.{ℕ, ◌+◌, ◌/◌, ap, sym, subst, ◌∙◌, ◌≡◌, Bool, false, none, List, [], arith, count}
use hwmalloc.Platform.{Block, Platform, IsStack}
use hwmalloc.Pool.{Pool, State, make_pool}
use hwmalloc.Pool.Map.{Below}
use hwmalloc.Pool.Totals.{AllValid, freed_all, blocks_all}

-- The same blocks, as often, in any order.
abbrev pub SameBlocks : {H : Type 0} → List (Block H) → List (Block H) → Type 0
SameBlocks {H} xs ys = (p : Block H → Bool) → count p xs ≡ count p ys

module _ {W R H S : Type 0} (env : Platform W R H S) (laws : IsStack env.stack) where
  open laws use {contents, capacity}

  -- No block is lost and none is made up: those on the free stack, those given back to the segments
  -- and those that callers hold are, together, the blocks that the segments were cut into.
  abbrev pub IsBalanced : Pool R S → List (Block H) → Type 0
  IsBalanced p live =
      (q : Block H → Bool)
      → count q (contents p.free_stack) + count q (freed_all env laws p.segments) + count q live
        ≡ count q (blocks_all env laws p.segments)

  -- What holds also while the mutex is locked; `next` is the address of the next object.
  pub record IsSound (next : ℕ) (p : Pool R S) (live : List (Block H)) : Type 0 where
    pub grows : capacity p.free_stack ≡ none
    pub below : Below next p.segments
    pub valid : AllValid env laws p.segments
    pub balanced : IsBalanced p live

  pub record Inv (s : State W R S) (live : List (Block H)) : Type 0 where
    pub unlocked : s.pool.mutex ≡ false
    pub sound : IsSound s.next_object s.pool live

  -- Only the free stack, the map and the next address matter.
  pub IsSound-same :
      (m n : ℕ) (p q : Pool R S) (live : List (Block H))
      → m ≡ n
      → p.free_stack ≡ q.free_stack
      → p.segments ≡ q.segments
      → IsSound m p live
      → IsSound n q live
  IsSound-same m n p q live mn free segs s = record {
    grows = ap capacity (sym free) ∙ s.grows;
    below = subst₂ Below mn segs s.below;
    valid = subst (AllValid env laws) segs s.valid;
    balanced = λ t. omega (
      arith,
      s.balanced t,
      ap (λ f. count t (contents f)) free,
      ap (λ gs. count t (freed_all env laws gs)) segs,
      ap (λ gs. count t (blocks_all env laws gs)) segs,
    );
  }

  -- A new pool has no blocks.
  pub make_pool-IsSound :
      (next self block_size segment_size numa_node : ℕ) (never_free : Bool) (reserve : ℕ)
      → IsSound next (make_pool env self block_size segment_size numa_node never_free reserve) []
  unfolding make_pool
  make_pool-IsSound next self block_size segment_size numa_node never_free reserve = record {
    grows = laws.capacity-dynamic (segment_size / block_size);
    below = tt;
    valid = tt;
    balanced = λ q. omega (arith, ap (count q) (laws.contents-dynamic (segment_size / block_size)));
  }
