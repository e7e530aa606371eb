-- ===== src/Tests/Alone.antt =====
-- Threads of which one is alone in a pool of include/hwmalloc/detail/pool.hpp, or has thrown.
use hwmalloc.Base.{
  ℕ, true, false, none, some, [], ◌∷◌, ◌≡◌, refl, ◌≤◌, ◌++◌, arith, replicate, get_elem?,
}
use hwmalloc.Platform.{Block, Platform}
use hwmalloc.Outcome.{no_system_memory}
use hwmalloc.Segment.{Segment}
use hwmalloc.Segment
use hwmalloc.Pool.{make_pool, set_pool, set_world, num_pages, find, update, erase}
use hwmalloc.Pool.Grow
use hwmalloc.Pool.Pages.{CanGrow}
use hwmalloc.Numa.Tools.{stub_allocate, allocate_malloc, from_calloc}
use hwmalloc.Numa.Tools.Sized.{stub-IsSized}
use hwmalloc.Threads.{Thread, Shared, locks}
use hwmalloc.Threads.Turn
use hwmalloc.Threads.Turn.{Choice, allocate, System, run, turn, act}
use hwmalloc.Threads.Totals.{total, others}
use hwmalloc.Threads.Invariant.{Inv}
use hwmalloc.Threads.Preserved.{run-Inv}
use hwmalloc.Threads.Safety.{started, started-Inv}
use hwmalloc.Threads.Progress.{rests, left}
use hwmalloc.Threads.Progress.Finish.{alone_lem}
use hwmalloc.Pool.Free
use hwmalloc.Pool.Allocate
use hwmalloc.Threads.Alone.{Agrees, free-Agrees}
use hwmalloc.Threads.Stuck.{locked_forever}
use hwmalloc.Threads.Alone.Reach.{Meeting}
use hwmalloc.Threads.Alone.Whole.{allocate-Meeting}
use hwmalloc.Tests.Setting.{platform, exhausted, list_stack-Pops}
use hwmalloc.Tests.Races.{Stack, env, laws, start, block, segment, start-Inv}

-- A system without memory: the first thread throws under the lock.
abbrev poor : Platform ℕ ℕ ℕ Stack
poor = platform exhausted

abbrev poor_start : System poor
poor_start = started poor laws 4096 1 0 32 64 0 false 1 2

poor-CanGrow : CanGrow poor poor_start.0.state.pool
unfolding make_pool
poor-CanGrow = record {
  page_pos = omega arith;
  block_pos = omega arith;
  holds = omega arith;
  no_wrap = omega arith;
  sized = stub-IsSized exhausted;
  device_defined = λ w n e. cc;
}

abbrev poor_after : System poor
poor_after = run poor (replicate 7 (0, allocate)) poor_start

poor-Inv : Inv poor laws poor_after.0 poor_after.1
poor-Inv =
    run-Inv poor laws (replicate 7 (0, allocate)) poor_start
      (started-Inv poor laws 4096 1 0 32 64 0 false 1 2 poor-CanGrow (omega arith) (omega arith))

poor_failed : get_elem? poor_after.1 0 ≡ some (Thread.failed no_system_memory)
unfolding run turn act Turn.with_pool Turn.with_free Turn.with_mutex Turn.with_segment Turn.pop_to
    Turn.lock_to Turn.at_segment Turn.hand_over Turn.take_back Turn.consume Turn.move_block
    Turn.subtract Turn.grown Turn.grow Turn.push_freed Turn.count_freed Turn.check Turn.recheck
    Turn.erased set_pool set_world num_pages Grow.add_segment Grow.allocate_pages
    Grow.check_allocation Grow.registered Grow.insert_segment Grow.make_and_insert
    Grow.add_host_segment Segment.make_segment Segment.fill_free_stack Segment.blocks_down
    Segment.block_at Segment.device_ptr_at Segment.device_handle_at stub_allocate allocate_malloc
    from_calloc make_pool find update erase Segment.is_empty
poor_failed = refl

locked_forever_example :
    ((run poor ((1, allocate) ∷ (1, allocate) ∷ []) poor_after).0.state.pool.mutex ≡ true)
    × (total locks (others (run poor ((1, allocate) ∷ (1, allocate) ∷ []) poor_after).1 0) ≡ 0)
locked_forever_example =
    locked_forever poor laws no_system_memory 0 ((1, allocate) ∷ (1, allocate) ∷ []) poor_after
      poor-Inv poor_failed

-- A thread waits for the lock of a new pool, and another one is idle.
waiting-Inv : Inv env laws start.0 (Thread.locking ∷ Thread.idle ∷ [])
unfolding run turn act Turn.pop_to make_pool
waiting-Inv = run-Inv env laws ((0, allocate) ∷ []) start start-Inv

alone_lem_example :
    (n : ℕ) × (n ≤ left env laws start.0 Thread.locking)
    × (x' : Shared ℕ ℕ ℕ Stack) × (u : Thread ℕ) × (run env
          (replicate n (0, allocate))
          (start.0, Thread.locking ∷ Thread.idle ∷ [])
        ≡ (x', u ∷ Thread.idle ∷ []))
    × (rests u ≡ true)
unfolding locks
alone_lem_example =
    alone_lem env laws allocate start.0 Thread.locking (Thread.idle ∷ []) waiting-Inv refl

-- The first thread has allocated the first block and is about to push it back.
abbrev freeing_pool : Shared ℕ ℕ ℕ Stack
unfolding make_pool
freeing_pool = record {
  state = record {
    world = 4160;
    next_object = 2;
    pool = record start.0.state.pool {
      free_stack = (none, block 1 4128 ∷ []);
      segments = (1, segment 4096 [] 0) ∷ [];
    };
  };
  held = [];
}

freeing-Inv : Inv env laws freeing_pool (Thread.pushing (block 1 4096) ∷ Thread.idle ∷ [])
unfolding run turn act Turn.with_pool Turn.with_free Turn.with_mutex Turn.with_segment Turn.pop_to
    Turn.lock_to Turn.at_segment Turn.hand_over Turn.take_back Turn.consume Turn.move_block
    Turn.subtract Turn.grown Turn.grow Turn.push_freed Turn.count_freed Turn.check Turn.recheck
    Turn.erased set_pool set_world num_pages Grow.add_segment Grow.allocate_pages
    Grow.check_allocation Grow.registered Grow.insert_segment Grow.make_and_insert
    Grow.add_host_segment Segment.make_segment Segment.fill_free_stack Segment.blocks_down
    Segment.block_at Segment.device_ptr_at Segment.device_handle_at stub_allocate allocate_malloc
    from_calloc make_pool find update erase Segment.is_empty freeing_pool
freeing-Inv =
    run-Inv env laws (replicate 9 (0, allocate) ++ (0, Choice.free 0) ∷ []) start start-Inv

free-Agrees_example :
    Agrees env laws allocate
      (Thread.pushing (block 1 4096))
      freeing_pool
      (Thread.idle ∷ [])
      (Free.free env (block 1 4096) freeing_pool.state)
unfolding locks
free-Agrees_example =
    free-Agrees env laws allocate (block 1 4096) freeing_pool (Thread.idle ∷ []) freeing-Inv refl

-- The first thread has allocated both blocks of a segment, and has freed one of them.
abbrev collecting_pool : Shared ℕ ℕ ℕ Stack
unfolding make_pool
collecting_pool = record {
  state = record {
    world = 4160;
    next_object = 2;
    pool = record start.0.state.pool {
      free_stack = (none, []);
      segments = (1, segment 4096 (block 1 4128 ∷ []) 1) ∷ [];
    };
  };
  held = block 1 4096 ∷ [];
}

collecting-Inv : Inv env laws collecting_pool (Thread.idle ∷ Thread.idle ∷ [])
unfolding run turn act Turn.with_pool Turn.with_free Turn.with_mutex Turn.with_segment Turn.pop_to
    Turn.lock_to Turn.at_segment Turn.hand_over Turn.take_back Turn.consume Turn.move_block
    Turn.subtract Turn.grown Turn.grow Turn.push_freed Turn.count_freed Turn.check Turn.recheck
    Turn.erased set_pool set_world num_pages Grow.add_segment Grow.allocate_pages
    Grow.check_allocation Grow.registered Grow.insert_segment Grow.make_and_insert
    Grow.add_host_segment Segment.make_segment Segment.fill_free_stack Segment.blocks_down
    Segment.block_at Segment.device_ptr_at Segment.device_handle_at stub_allocate allocate_malloc
    from_calloc make_pool find update erase Segment.is_empty collecting_pool
collecting-Inv =
    run-Inv env laws (replicate 10 (0, allocate) ++ (0, Choice.free 0) ∷ replicate 3 (0, allocate))
      start start-Inv

allocate-Meeting_example :
    Meeting env allocate
      (Thread.idle ∷ [])
      collecting_pool.held
      (collecting_pool, Thread.idle)
      (Allocate.allocate env 2 collecting_pool.state)
unfolding locks
allocate-Meeting_example =
    allocate-Meeting env laws (list_stack-Pops (Block ℕ)) (Thread.idle ∷ []) 2 collecting_pool
      (omega arith) collecting-Inv refl
