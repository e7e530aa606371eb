-- ===== src/Pool/Gathers.antt =====
-- The loop of `allocate` (include/hwmalloc/detail/pool.hpp) that collects the freed blocks of all
-- segments.
use mathlib.Core.Path.{ap₂}
use hwmalloc.Base.{
  ℕ, ◌+◌, ◌≡◌, refl, ap, Bool, none, some, List, [], ◌∷◌, ◌++◌, arith, count, count-append,
}
use hwmalloc.Platform.{Block, Platform, IsStack}
use hwmalloc.Outcome.{Ends}
use hwmalloc.Segment.{Segment}
use hwmalloc.Segment.Blocks.{blocks_down-freed}
use hwmalloc.Segment.Collect.{collect-Collected}
use hwmalloc.Pool.{State, set_pool}
use hwmalloc.Pool.Allocate.{collect_all, collect}
use hwmalloc.Pool.Map.{Below}
use hwmalloc.Pool.Totals.{AllValid, freed_all, blocks_all}
use hwmalloc.Pool.Invariant.{IsSound}

module _ {W R H S : Type 0} (env : Platform W R H S) (laws : IsStack env.stack) where
  open laws use {contents, capacity}

  -- What `collect` makes of a pool.
  pub record Gathered (live : List (Block H)) (s s' : State W R S) : Type 0 where
    pub sound : IsSound env laws s'.next_object s'.pool live
    pub emptied : (q : Block H → Bool) → count q (freed_all env laws s'.pool.segments) ≡ 0
    pub same :
        s'.pool ≡ record s.pool { free_stack = s'.pool.free_stack; segments = s'.pool.segments }

  pub record CollectedAll (n : ℕ) (gs : List (ℕ × Segment R S)) (t : S) : Type 0 where
    pub after : List (ℕ × Segment R S)
    pub stack : S
    pub result : collect_all env gs t ≡ some (after, stack)
    pub grows : capacity stack ≡ none
    pub below : Below n after
    pub valid : AllValid env laws after
    pub freed : (q : Block H → Bool) → count q (freed_all env laws after) ≡ 0
    pub blocks : blocks_all env laws after ≡ blocks_all env laws gs
    pub counts :
        (q : Block H → Bool)
        → count q (contents stack) ≡ count q (contents t) + count q (freed_all env laws gs)

  pub collect_all-CollectedAll :
      (n : ℕ) (gs : List (ℕ × Segment R S)) (t : S)
      → Below n gs
      → AllValid env laws gs
      → capacity t ≡ none
      → CollectedAll n gs t
  unfolding collect_all
  collect_all-CollectedAll n [] t b v d = record {
    after = [];
    stack = t;
    result = refl;
    grows = d;
    below = tt;
    valid = tt;
    freed = λ q. refl;
    blocks = refl;
    counts = λ q. omega arith;
  }
  collect_all-CollectedAll n ((k, g) ∷ gs) t b v d =
      let c = collect-Collected env laws k g t v.0 d in
      let rest = collect_all-CollectedAll k gs c.after b.1 v.1 c.grows in
      let g' = record g { freed_stack = c.rest; num_freed = 0 } in
      record {
        after = (k, g') ∷ rest.after;
        stack = rest.stack;
        result = rw (c.result, collect_all) (rw (rest.result, collect_all) refl);
        grows = rest.grows;
        below = (b.0, rest.below);
        valid = (c.valid, rest.valid);
        freed = λ q. omega (
          arith,
          count-append q (contents c.rest) (freed_all env laws rest.after),
          ap (count q) c.emptied,
          rest.freed q,
        );
        blocks = ap₂ ◌++◌ (blocks_down-freed env k g g.num_blocks c.rest 0) rest.blocks;
        counts = λ q. omega (
          arith,
          rest.counts q,
          c.counts q,
          count-append q (contents g.freed_stack) (freed_all env laws gs),
        );
      }

  -- The loop over the segments ends; it changes only the free stack and the segments, keeps all blocks
  -- accounted for, and leaves no freed block with a segment.
  pub collect-Gathered :
      (live : List (Block H)) (s : State W R S)
      → IsSound env laws s.next_object s.pool live
      → Ends (λ u s'. Gathered live s s') (λ e s'. ⊥) (collect env s)
  unfolding collect set_pool
  collect-Gathered live s v =
      let c =
        collect_all-CollectedAll s.next_object s.pool.segments s.pool.free_stack v.below v.valid
          v.grows in
      rw (c.result, collect)
        (record {
          sound = record {
            grows = c.grows;
            below = c.below;
            valid = c.valid;
            balanced =
                λ q. omega (arith, v.balanced q, c.counts q, c.freed q, ap (count q) c.blocks);
          };
          emptied = c.freed;
          same = refl;
        })
