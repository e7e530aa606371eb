-- ===== src/Heap/Enough.antt =====
-- The size of a block from a heap (include/hwmalloc/heap.hpp), which the block does not know itself.
use hwmalloc.Base.{ℕ, ◌≤◌, ◌≡◌, ap, Bool, some, List, ◌∷◌, arith, count}
use hwmalloc.Config.{HeapConfig}
use hwmalloc.Platform.{Block, Platform, IsStack}
use hwmalloc.Segment.{Segment}
use hwmalloc.Pool.{Pool, find}
use hwmalloc.Pool.Invariant.{SameBlocks}
use hwmalloc.Heap.{State}
use hwmalloc.Heap.Spots.{Spot, pool_at}
use hwmalloc.Heap.Whole.{replaced, replaced_self}
use hwmalloc.Heap.Frees.{home}
use hwmalloc.Heap.Grants.{Granted}

-- A block is from a segment of one of the pools, whose blocks have at least n bytes.
pub record Enough {W R H S : Type 0} (n : ℕ) (b : Block H) (s : State W R S) : Type 0 where
  pub spot : Spot
  pub pool : Pool R S
  pub segment : Segment R S
  pub there : pool_at s.heap spot ≡ some pool
  pub found : find b.segment pool.segments ≡ some segment
  pub enough : n ≤ segment.block_size

module _ {W R H S : Type 0} (env : Platform W R H S) (laws : IsStack env.stack) where
  pub Granted-Enough :
      (c : HeapConfig) (m n : ℕ) (locked : Spot → Bool) (live : Spot → List (Block H)) (t : Spot)
      (b : Block H) (s : State W R S)
      → Granted env laws c m n locked live t b s
      → Enough n b s
  Granted-Enough c m n locked live t b s v =
      let same : SameBlocks (replaced live t (b ∷ live t) t) (b ∷ live t) =
        λ q. ap (count q) (replaced_self live t (b ∷ live t)) in
      let (p, g, there, e) =
        home env laws locked s (replaced live t (b ∷ live t)) t b (live t) v.whole same in
      let known : p ≡ v.pool = ground (arith, there, v.there) in
      let size : g.block_size ≡ p.block_size =
        ap (λ (l : ℕ × ℕ). l.1) ((v.whole.members t p there).own b.segment g e).1 in
      record {
        spot = t;
        pool = p;
        segment = g;
        there = there;
        found = e;
        enough = omega (arith, v.enough, size, ap (λ x. x.block_size) known);
      }
