-- ===== src/Tests/Pools.antt =====
-- A pool of include/hwmalloc/detail/pool.hpp with blocks of 16 bytes, four to a segment.
use hwmalloc.Base.{ℕ, true, false, none, some, List, [], ◌∷◌, ◌≡◌, refl, arith}
use hwmalloc.Platform.{Block, Platform, IsStack}
use hwmalloc.Outcome.{throws, hangs, Ends, no_system_memory}
use hwmalloc.Segment.{Segment}
use hwmalloc.Segment
use hwmalloc.Pool.{State, make_pool, set_pool, set_world, lock, unlock, num_pages}
use hwmalloc.Pool.Grow
use hwmalloc.Pool.Allocate
use hwmalloc.Pool.Free
use hwmalloc.Pool.Invariant.{Inv, make_pool-IsSound}
use hwmalloc.Pool.Pages.{CanGrow}
use hwmalloc.Pool.Allocates.{Allocated, Failed, allocate-Ends, allocate_throws_hangs}
use hwmalloc.Numa.Tools.{stub_allocate, allocate_malloc, from_calloc}
use hwmalloc.Numa.Tools.Sized.{stub-IsSized}
use hwmalloc.Tests.Setting.{ListStack, list_stack-IsStack, platform, bump, exhausted}

abbrev Stack : Type 0
Stack = ListStack (Block ℕ)

abbrev env : Platform ℕ ℕ ℕ Stack
env = platform bump

abbrev start : State ℕ ℕ Stack
unfolding make_pool
start = record { world = 4096; next_object = 1; pool = make_pool env 0 16 64 0 false 1 }

abbrev laws : IsStack env.stack
laws = list_stack-IsStack (Block ℕ)

start-Inv : Inv env laws start []
unfolding start
start-Inv = record { unlocked = refl; sound = make_pool-IsSound env laws 1 0 16 64 0 false 1 }

start-CanGrow : CanGrow env start.pool
unfolding start
start-CanGrow = record {
  page_pos = omega arith;
  block_pos = omega arith;
  holds = omega arith;
  no_wrap = omega arith;
  sized = stub-IsSized bump;
  device_defined = λ w n e. cc;
}

allocate-Ends_example :
    Ends (Allocated env laws []) (Failed env laws []) (Allocate.allocate env 2 start)
allocate-Ends_example = allocate-Ends env laws 2 [] start (omega arith) start-Inv start-CanGrow

-- The first block, and the state after it was returned.
abbrev block : ℕ → Block ℕ
block ptr = record {
  segment = 1;
  user_allocation = 0;
  ptr = ptr;
  handle = ptr;
  device_ptr = 0;
  device_handle = 0;
  device_id = 0;
}

abbrev segment : List (Block ℕ) → ℕ → Segment ℕ Stack
segment freed n = record {
  pool = 0;
  block_size = 16;
  num_blocks = 4;
  allocation = record { ptr = 4096; size = 64; node = 0; use_numa_free = false };
  region = 4096;
  device_ptr = 0;
  device_region = none;
  device_id = 0;
  freed_stack = (some 4, freed);
  num_freed = n;
}

abbrev after_first : State ℕ ℕ Stack
unfolding start
after_first = record start {
  world = 4160;
  next_object = 2;
  pool = record start.pool {
    free_stack = (none, block 4112 ∷ block 4128 ∷ block 4144 ∷ []);
    segments = (1, segment [] 0) ∷ [];
  };
}

-- The state after the block was freed.
abbrev after_free : State ℕ ℕ Stack
unfolding after_first
after_free = record after_first {
  pool = record after_first.pool { segments = (1, segment (block 4096 ∷ []) 1) ∷ [] };
}

-- A system without memory.
abbrev poor : Platform ℕ ℕ ℕ Stack
poor = platform exhausted

start-poor : CanGrow poor start.pool
unfolding start
start-poor = record {
  page_pos = omega arith;
  block_pos = omega arith;
  holds = omega arith;
  no_wrap = omega arith;
  sized = stub-IsSized exhausted;
  device_defined = λ w n e. cc;
}

abbrev locked : State ℕ ℕ Stack
unfolding start
locked = record start { pool = record start.pool { mutex = true } }

allocate_poor : Allocate.allocate poor 2 start ≡ throws no_system_memory locked
unfolding start locked Allocate.pop Allocate.pop_or Allocate.collect_all Allocate.collect
    Allocate.refill Allocate.unlock_and_return Allocate.allocate_locked Allocate.allocate lock
    unlock set_pool set_world num_pages Grow.add_segment Grow.allocate_pages Grow.check_allocation
    stub_allocate allocate_malloc from_calloc make_pool
allocate_poor = refl

poor-Inv : Inv poor laws start []
unfolding start
poor-Inv = record { unlocked = refl; sound = make_pool-IsSound poor laws 1 0 16 64 0 false 1 }

allocate_throws_hangs_example : Allocate.allocate poor 7 locked ≡ hangs
allocate_throws_hangs_example =
    allocate_throws_hangs poor laws 2 7 [] start locked no_system_memory (omega arith) poor-Inv
      start-poor allocate_poor (λ e. cc)
