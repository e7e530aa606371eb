-- ===== src/Pool/Free.antt =====
-- `free` of include/hwmalloc/detail/pool.hpp.
use hwmalloc.Base.{ℕ, false, not, ◌&&◌, none, some, ltb, if◌then◌else◌, length}
use hwmalloc.Platform.{Block, Platform}
use hwmalloc.Outcome.{Outcome, returns, throws, hangs, Call, ◌>>◌, ◌>>=◌}
use hwmalloc.Segment
use hwmalloc.Segment.{Segment}
use hwmalloc.Pool.Grow.{current_device, device_set}
use hwmalloc.Pool.{State, find, update, erase, set_world, set_pool, lock, unlock}

module _ {W R H S : Type 0} (env : Platform W R H S) where
  open env use {numa, device, context, stack}

  -- `m_segments.erase(b.m_segment)`, which destroys the segment.
  unfoldable pub remove_segment : ℕ → Segment R S → Call (State W R S) (Unit {0})
  remove_segment a g s = returns tt (
      set_world (Segment.destroy env g s.world)
        (set_pool (record s.pool { segments = erase a s.pool.segments }) s))

  -- The same on the pool's device, which may throw before and after.
  unfoldable pub erase_on_device : ℕ → Segment R S → Call (State W R S) (Unit {0})
  erase_on_device a g s =
      let id = s.pool.device_id in
      (do
        tmp ← λ s. current_device env (device.get_device_id s.world) s
        λ s. device_set env (device.set_device_id s.world id) s
        remove_segment a g
        λ s. device_set env (device.set_device_id s.world tmp) s)
        s

  unfoldable pub erase_segment : ℕ → Segment R S → Call (State W R S) (Unit {0})
  erase_segment a g s =
      (if s.pool.allocate_on_device then erase_on_device a g else remove_segment a g) s

  -- The end of the scope of a `lock_guard`.
  unfoldable pub unguard : Outcome (State W R S) (Unit {0}) → Outcome (State W R S) (Unit {0})
  unguard (returns u s) = unlock s
  unguard (throws e s) = throws e (set_pool (record s.pool { mutex = false }) s)
  unguard hangs = hangs
  unguard Outcome.undefined = Outcome.undefined

  -- The block guarded by `!m_never_free && b.m_segment->is_empty()`.
  unfoldable pub shrink : ℕ → Segment R S → Call (State W R S) (Unit {0})
  shrink a g = do
    lock
    λ s. unguard (
        if Segment.is_empty g && ltb s.pool.num_reserve_segments (length s.pool.segments)
        then erase_segment a g s
        else returns tt s)

  unfoldable pub free : Block H → Call (State W R S) (Unit {0})
  free b s = elim (find b.segment s.pool.segments) [
    | none ↦ Outcome.undefined
    | some g ↦ elim (Segment.free env g b) [
      | none ↦ hangs
      | some g' ↦
          let s' = set_pool (record s.pool { segments = update b.segment g' s.pool.segments }) s in
          if not s.pool.never_free && Segment.is_empty g'
          then shrink b.segment g' s'
          else returns tt s'
    ]
  ]
