-- ===== src/Pool.antt =====
-- include/hwmalloc/detail/pool.hpp: the blocks of one size on one numa node. Allocation takes from
-- the free stack, then collects what the segments got back, then adds a segment; freeing gives a
-- block back to its segment, and an empty segment back to the system.
pub mod Grow
pub mod Allocate
pub mod Free
pub mod Map
pub mod Totals
pub mod Invariant
pub mod Full
pub mod Shrinks
pub mod Frees
pub mod Pages
pub mod Grows
pub mod Gathers
pub mod Allocates
pub mod Disjoint
pub mod Frame
use hwmalloc.Base.{
  ℕ, zero, suc, ◌+◌, ◌/◌, ◌%◌, ◌^◌, max, Bool, true, false, not, ◌&&◌, Option, none, some, List, [],
  ◌∷◌, ltb, ◌==◌, if◌then◌else◌, length, add_size, sub_size,
}
use hwmalloc.Numa.{Allocation, is_set}
use hwmalloc.Device.{Malloced, memory}
use hwmalloc.Platform.{Block, Platform}
use hwmalloc.Outcome.{
  Exception, no_system_memory, wrong_numa_node, not_registered, no_device_memory, Outcome, returns,
  throws, hangs, undefined, Call, and_then, ◌>>=◌, ◌>>◌, return, throw,
}
use hwmalloc.Segment
use hwmalloc.Segment.{Segment}

-- `m_segments` is keyed by the address of the segment object. `m_mutex` is whether it is locked.
pub record Pool (R S : Type 0) : Type 0 where
  pub self : ℕ
  pub block_size : ℕ
  pub segment_size : ℕ
  pub numa_node : ℕ
  pub never_free : Bool
  pub num_reserve_segments : ℕ
  pub free_stack : S
  pub segments : List (ℕ × Segment R S)
  pub mutex : Bool
  pub device_id : ℕ
  pub allocate_on_device : Bool

-- A pool in its surroundings: the system, and the address of the next object that `new` makes.
-- Addresses are not used again, so that a dangling pointer is told from a new object.
pub record State (W R S : Type 0) : Type 0 where
  pub world : W
  pub next_object : ℕ
  pub pool : Pool R S

module _ {R S : Type 0} where
  unfoldable pub find : ℕ → List (ℕ × Segment R S) → Option (Segment R S)
  find a [] = none
  find a ((k, g) ∷ gs) = if k == a then some g else find a gs

  -- Write through a pointer to a segment.
  unfoldable pub update : ℕ → Segment R S → List (ℕ × Segment R S) → List (ℕ × Segment R S)
  update a g [] = []
  update a g ((k, h) ∷ gs) = if k == a then (k, g) ∷ gs else (k, h) ∷ update a g gs

  unfoldable pub erase : ℕ → List (ℕ × Segment R S) → List (ℕ × Segment R S)
  erase a [] = []
  erase a ((k, g) ∷ gs) = if k == a then gs else (k, g) ∷ erase a gs

-- `num_pages`, the page size being that of `numa()`.
unfoldable pub num_pages : ℕ → ℕ → ℕ
num_pages page_size segment_size = sub_size (add_size segment_size page_size) 1 / page_size

module _ {W R S : Type 0} where
  unfoldable pub set_world : W → State W R S → State W R S
  set_world w s = record s { world = w }

  unfoldable pub set_pool : Pool R S → State W R S → State W R S
  set_pool p s = record s { pool = p }

  -- A mutex that is locked is not unlocked while a sequential call waits for it.
  unfoldable pub lock : Call (State W R S) (Unit {0})
  lock s = if s.pool.mutex then hangs else returns tt (set_pool (record s.pool { mutex = true }) s)

  unfoldable pub unlock : Call (State W R S) (Unit {0})
  unlock s = returns tt (set_pool (record s.pool { mutex = false }) s)

module _ {W R H S : Type 0} (env : Platform W R H S) where
  open env use {numa, device, context, stack}

  -- The constructors: for the host, and for a device.
  unfoldable pub make_pool : ℕ → ℕ → ℕ → ℕ → Bool → ℕ → Pool R S
  make_pool self block_size segment_size numa_node never_free num_reserve_segments = record {
    self = self;
    block_size = block_size;
    segment_size = segment_size;
    numa_node = numa_node;
    never_free = never_free;
    num_reserve_segments = max num_reserve_segments 1;
    free_stack = stack.dynamic (segment_size / block_size);
    segments = [];
    mutex = false;
    device_id = 0;
    allocate_on_device = false;
  }

  unfoldable pub make_device_pool : ℕ → ℕ → ℕ → ℕ → ℕ → Bool → ℕ → Pool R S
  make_device_pool self block_size segment_size numa_node device_id never_free
        num_reserve_segments =
      record (make_pool self block_size segment_size numa_node never_free num_reserve_segments) {
        device_id = device_id;
        allocate_on_device = true;
      }
