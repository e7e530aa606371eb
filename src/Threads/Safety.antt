-- ===== src/Threads/Safety.antt =====
-- What holds of a pool (include/hwmalloc/detail/pool.hpp) at any time while threads use it.
use hwmalloc.Base.{
  ℕ, zero, suc, ◌^◌, ◌≤◌, ◌<◌, ◌≡◌, refl, Bool, ◌&&◌, some, List, [], arith, count, count-and-le,
  count-and_le_left, replicate, length-replicate, if◌then◌else◌,
}
use hwmalloc.Platform.{Block, Platform, IsStack}
use hwmalloc.Segment.{Segment, blocks_down}
use hwmalloc.Segment.Blocks.{owned_by, count-blocks_down_own}
use hwmalloc.Segment.Cover.{covers, count-covers}
use hwmalloc.Pool.{find, erase, make_pool}
use hwmalloc.Pool.Pages.{CanGrow}
use hwmalloc.Pool.Invariant.{make_pool-IsSound}
use hwmalloc.Pool.Totals.{blocks_all, blocks-erase, count-blocks_own, find_of_owned}
use hwmalloc.Threads.{Thread, locks, broken, uncounted, unsubtracted, needs, carrying}
use hwmalloc.Threads.Turn.{Choice, System, run}
use hwmalloc.Threads.Totals.{total}
use hwmalloc.Threads.Invariant.{Found, moved, Inv}
use hwmalloc.Threads.Preserved.{run-Inv}

module _ {W R H S : Type 0} (env : Platform W R H S) (laws : IsStack env.stack) where
  open laws use {contents}

  -- A new pool, and n threads that have not begun.
  abbrev pub started : W → ℕ → ℕ → ℕ → ℕ → ℕ → Bool → ℕ → ℕ → System env
  started w next self block_size segment_size node never_free reserve n = (
    record {
      state = record {
        world = w;
        next_object = next;
        pool = make_pool env self block_size segment_size node never_free reserve;
      };
      held = [];
    },
    replicate n Thread.idle,
  )

  idle-total :
      (f : Thread H → ℕ) (n : ℕ) → f Thread.idle ≡ 0 → total f (replicate n Thread.idle) ≡ 0
  idle-total f zero e = refl
  idle-total f (suc n) e = omega (arith, e, idle-total f n e)

  -- A new pool satisfies the invariant, for fewer than 2 ^ 63 threads and blocks of two bytes or
  -- more.
  pub started-Inv :
      (w : W) (next self block_size segment_size node : ℕ) (never_free : Bool) (reserve n : ℕ)
      → CanGrow env (make_pool env self block_size segment_size node never_free reserve)
      → 2 ≤ block_size
      → n < 2 ^ 63
      → Inv env laws
          (started w next self block_size segment_size node never_free reserve n).0
          (replicate n Thread.idle)
  unfolding make_pool find carrying locks uncounted unsubtracted needs broken
  started-Inv w next self block_size segment_size node never_free reserve n c two few =
      let sound =
        make_pool-IsSound env laws next self block_size segment_size node never_free reserve in
      record {
        can_grow = c;
        block_size = two;
        few = omega (arith, few, length-replicate {A = Thread H} n Thread.idle);
        grows = sound.grows;
        below = tt;
        used = λ a g e. absurd cc;
        balanced = λ q. omega (arith, sound.balanced q, idle-total (moved q) n refl);
        locked = idle-total locks n refl;
        needed = λ a h. absurd (omega (arith, h, idle-total (needs a) n refl));
        to_count = λ a h. absurd (omega (arith, h, idle-total (uncounted a) n refl));
        unbroken = idle-total broken n refl;
      }

  module _ (y : System env) (ms : List (ℕ × Choice)) (v : Inv env laws y.0 y.1) where
    -- Whatever the interleaving, at most one thread is between the lock and the unlock of the mutex,
    -- and the mutex is locked just when one is.
    pub mutual_exclusion :
        (total locks (run env ms y).1 ≡ (if (run env ms y).0.state.pool.mutex then 1 else 0))
        × (total locks (run env ms y).1 ≤ 1)
    mutual_exclusion = let e = (run-Inv env laws ms y v).locked in (e, ground (arith, e))

    -- Whatever the interleaving, a block that a caller holds points to a segment that is there, so
    -- its memory was not given back.
    pub held_Found :
        (b : Block H)
        → 1 ≤ count (owned_by b.segment) (run env ms y).0.held
        → Found b.segment (run env ms y).0.state.pool.segments
    held_Found b h =
        find_of_owned env laws b.segment (run env ms y).0.state.pool.segments
          (omega (arith, h, (run-Inv env laws ms y v).balanced (owned_by b.segment)))

    -- Whatever the interleaving, no byte of a segment lies in two blocks that callers hold.
    pub held_apart :
        (a z : ℕ) (g : Segment R S)
        → find a (run env ms y).0.state.pool.segments ≡ some g
        → count (λ b. covers g.block_size z b && owned_by a b) (run env ms y).0.held ≤ 1
    held_apart a z g e =
        let x = (run env ms y).0 in
        let w = run-Inv env laws ms y v in
        let gs = x.state.pool.segments in
        let here = λ (b : Block H). covers g.block_size z b in
        let own = λ (b : Block H). owned_by a b in
        let both = λ (b : Block H). here b && own b in
        let u = w.used a g e in
        omega (
          arith,
          w.balanced both,
          blocks-erase env laws both a g gs e,
          blocks-erase env laws own a g gs e,
          count-blocks_own env laws a x.state.next_object g gs w.below e,
          count-blocks_down_own env a g g.num_blocks,
          count-and-le here own (blocks_all env laws (erase a gs)),
          count-and_le_left here own (blocks_down env a g g.num_blocks),
          count-covers env a g z g.num_blocks (omega (arith, u.extent, u.extent_small)),
        )

    -- Whatever the interleaving, no thread uses a segment that is gone when it collects, pushes a
    -- block or counts it, and `add_segment` is never undefined: the only access to an object that is
    -- gone is the read of the counter that decides about erasing.
    pub nothing_broken : total broken (run env ms y).1 ≡ 0
    nothing_broken = (run-Inv env laws ms y v).unbroken
