-- ===== src/Heap/Apart.antt =====
-- The memory of the blocks that callers of a heap (include/hwmalloc/heap.hpp) hold.
use native.Mathlib.Decide.{dec_le}
use hwmalloc.Base.{
  ℕ, ◌≤◌, ◌≡◌, ◌≢◌, inl, inr, ap, Bool, false, ◌&&◌, some, List, arith, count, count-and-le,
  Option-cases,
}
use hwmalloc.Config.{HeapConfig}
use hwmalloc.Numa.Tools.{Os}
use hwmalloc.Platform.{Block, Platform, IsStack}
use hwmalloc.Segment.{Segment}
use hwmalloc.Segment.Blocks.{owned_by}
use hwmalloc.Segment.Cover.{covers}
use hwmalloc.Pool.{Pool, find}
use hwmalloc.Pool.Totals.{find_of_owned}
use hwmalloc.Pool.Disjoint.{held_disjoint}
use hwmalloc.Heap.{State}
use hwmalloc.Heap.Spots.{Spot, pool_at}
use hwmalloc.Heap.Release.{inside}
use hwmalloc.Heap.Whole.{Whole}
use hwmalloc.Heap.Held.{blocks_at, count-blocks_at}
use hwmalloc.Heap.Session.{Serviceable, Session}
use hwmalloc.Heap.Session.Calls.{Session-Held}

module _ {W R H S : Type 0} (env : Platform W R H S) (laws : IsStack env.stack) where
  -- No block from another pool points to the segment.
  other_pools :
      (locked : Spot → Bool) (s : State W R S) (live : Spot → List (Block H)) (t u : Spot)
      (p : Pool R S) (a : ℕ) (g : Segment R S)
      → Whole env laws locked s live
      → pool_at s.heap t ≡ some p
      → find a p.segments ≡ some g
      → u ≢ t
      → count (owned_by a) (live u) ≡ 0
  other_pools locked s live t u p a g v there e ne = elim (dec_le 1 (count (owned_by a) (live u))) [
    | no few ↦ omega (arith, few)
    | yes one ↦ elim (Option-cases (pool_at s.heap u)) [
      | inl gone ↦ ap (count (owned_by a)) (v.nowhere u gone).0
      | inr (q, here) ↦
          let (h, f) =
            find_of_owned env laws a q.segments
              (omega (arith, (v.members u q here).sound.balanced (owned_by a), one)) in
          absurd (ne (v.one_segment u t q p a h g here there f e))
    ]
  ]

  module _ (os : Os W) (c : HeapConfig) (m : ℕ) (ns : List ℕ) (platform : Serviceable env ns) where
    -- After calls of `allocate` that have returned and of `free` that have returned or thrown, no byte of
    -- a segment of any pool lies in two of the blocks that callers of the heap hold.
    pub heap_disjoint :
        (s : State W R S) (bs : List (Block H)) (t : Spot) (p : Pool R S) (a x : ℕ)
        (g : Segment R S)
        → Session env laws os c m s bs
        → pool_at s.heap t ≡ some p
        → find a p.segments ≡ some g
        → count (λ b. covers g.block_size x b && owned_by a b) bs ≤ 1
    heap_disjoint s bs t p a x g h there e =
        let v = Session-Held env laws os c m ns platform h in
        let mem = v.whole.members t p there in
        let both = λ (b : Block H). covers g.block_size x b && owned_by a b in
        omega (
          arith,
          ap (count both) v.same,
          count-blocks_at both t v.marked (λ u ne. omega (
            arith,
            count-and-le (λ b. covers g.block_size x b) (λ b. owned_by a b) (blocks_at v.marked u),
            other_pools (λ r. false) s (blocks_at v.marked) t u p a g v.whole there e ne,
          )),
          held_disjoint env laws (inside env s p) (blocks_at v.marked t) a x g
              (record { unlocked = mem.mutex; sound = mem.sound }) e,
        )
