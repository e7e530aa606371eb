-- ===== src/Tests/Races.antt =====
-- Two threads that use a pool of include/hwmalloc/detail/pool.hpp with two blocks to a segment.
use hwmalloc.Base.{
  ℕ, false, none, some, List, [], ◌∷◌, ◌≡◌, refl, sym, subst, ◌≤◌, ◌&&◌, ◌++◌, count, arith,
  replicate, get_elem?, if◌then◌else◌,
}
use hwmalloc.Platform.{Block, Platform, IsStack}
use hwmalloc.Segment.{Segment}
use hwmalloc.Segment
use hwmalloc.Segment.Blocks.{owned_by}
use hwmalloc.Segment.Cover.{covers}
use hwmalloc.Pool.{make_pool, set_pool, set_world, num_pages, find, update, erase}
use hwmalloc.Pool.Grow
use hwmalloc.Pool.Free
use hwmalloc.Pool.Pages.{CanGrow}
use hwmalloc.Numa.Tools.{stub_allocate, allocate_malloc, from_calloc}
use hwmalloc.Numa.Tools.Sized.{stub-IsSized}
use hwmalloc.Threads.{Thread, Shared, locks, broken}
use hwmalloc.Threads.Turn
use hwmalloc.Threads.Turn.{Choice, allocate, System, run, turn, act}
use hwmalloc.Threads.Totals.{total}
use hwmalloc.Threads.Invariant.{Found, Inv}
use hwmalloc.Threads.Preserved.{run-Inv}
use hwmalloc.Threads.Safety.{
  started, started-Inv, mutual_exclusion, held_Found, held_apart, nothing_broken,
}
use hwmalloc.Threads.Race.{free_races}
use hwmalloc.Threads.Spec.{Runs}
use hwmalloc.Threads.Refines.{bag, trace, run-Runs}
use hwmalloc.Tests.Setting.{ListStack, list_stack-IsStack, platform, bump}

abbrev pub Stack : Type 0
Stack = ListStack (Block ℕ)

abbrev pub env : Platform ℕ ℕ ℕ Stack
env = platform bump

abbrev pub laws : IsStack env.stack
laws = list_stack-IsStack (Block ℕ)

abbrev pub start : System env
start = started env laws 4096 1 0 32 64 0 false 1 2

-- Three allocations by the first thread, so that there are two segments.
abbrev three_allocations : List (ℕ × Choice)
three_allocations = replicate 22 (0, allocate)

-- Then each thread frees a block of the first segment, up to the test of the counter.
abbrev two_frees : List (ℕ × Choice)
two_frees =
    (0, Choice.free 1)
    ∷ (1, Choice.free 1)
    ∷ (0, allocate)
    ∷ (1, allocate)
    ∷ (0, allocate)
    ∷ (1, allocate)
    ∷ []

abbrev crowded : System env
crowded = run env (three_allocations ++ two_frees) start

start-CanGrow : CanGrow env start.0.state.pool
unfolding make_pool
start-CanGrow = record {
  page_pos = omega arith;
  block_pos = omega arith;
  holds = omega arith;
  no_wrap = omega arith;
  sized = stub-IsSized bump;
  device_defined = λ w n e. cc;
}

pub start-Inv : Inv env laws start.0 start.1
start-Inv =
    started-Inv env laws 4096 1 0 32 64 0 false 1 2 start-CanGrow (omega arith) (omega arith)

mutual_exclusion_example :
    (total locks crowded.1 ≡ (if crowded.0.state.pool.mutex then 1 else 0))
    × (total locks crowded.1 ≤ 1)
mutual_exclusion_example =
    mutual_exclusion env laws start (three_allocations ++ two_frees) start-Inv

nothing_broken_example : total broken crowded.1 ≡ 0
nothing_broken_example = nothing_broken env laws start (three_allocations ++ two_frees) start-Inv

abbrev pub block : ℕ → ℕ → Block ℕ
block segment ptr = record {
  segment = segment;
  user_allocation = 0;
  ptr = ptr;
  handle = ptr;
  device_ptr = 0;
  device_handle = 0;
  device_id = 0;
}

abbrev pub segment : ℕ → List (Block ℕ) → ℕ → Segment ℕ Stack
segment ptr freed n = record {
  pool = 0;
  block_size = 32;
  num_blocks = 2;
  allocation = record { ptr = ptr; size = 64; node = 0; use_numa_free = false };
  region = ptr;
  device_ptr = 0;
  device_region = none;
  device_id = 0;
  freed_stack = (some 2, freed);
  num_freed = n;
}

-- Both threads have counted their block, and neither has tested the counter.
abbrev crowded_pool : Shared ℕ ℕ ℕ Stack
unfolding make_pool
crowded_pool = record {
  state = record {
    world = 4224;
    next_object = 3;
    pool = record start.0.state.pool {
      free_stack = (none, block 2 4192 ∷ []);
      segments =
          (2, segment 4160 [] 0) ∷ (1, segment 4096 (block 1 4096 ∷ block 1 4128 ∷ []) 2) ∷ [];
    };
  };
  held = block 2 4160 ∷ [];
}

abbrev crowded_threads : List (Thread ℕ)
crowded_threads = Thread.checking (block 1 4128) ∷ Thread.checking (block 1 4096) ∷ []

crowded_eq : crowded ≡ (crowded_pool, crowded_threads)
unfolding run turn act Turn.with_pool Turn.with_free Turn.with_mutex Turn.with_segment Turn.pop_to
    Turn.lock_to Turn.at_segment Turn.hand_over Turn.take_back Turn.consume Turn.move_block
    Turn.subtract Turn.grown Turn.grow Turn.push_freed Turn.count_freed Turn.check Turn.recheck
    Turn.erased set_pool set_world num_pages Grow.add_segment Grow.allocate_pages
    Grow.check_allocation Grow.registered Grow.insert_segment Grow.make_and_insert
    Grow.add_host_segment Segment.make_segment Segment.fill_free_stack Segment.blocks_down
    Segment.block_at Segment.device_ptr_at Segment.device_handle_at stub_allocate allocate_malloc
    from_calloc make_pool find update erase Segment.is_empty crowded_pool
crowded_eq = refl

crowded-Inv :
    Inv env laws crowded_pool (Thread.checking (block 1 4128) ∷ Thread.checking (block 1 4096) ∷ [])
crowded-Inv =
    subst (λ y. Inv env laws y.0 y.1) crowded_eq
      (run-Inv env laws (three_allocations ++ two_frees) start start-Inv)

free_races_example :
    get_elem?
      (run env
        ((0, allocate) ∷ (0, allocate) ∷ (0, allocate) ∷ (1, allocate) ∷ [])
        (crowded_pool, Thread.checking (block 1 4128) ∷ Thread.checking (block 1 4096) ∷ [])).1
      1
    ≡ some (Thread.dangling (block 1 4096))
unfolding crowded_pool find Segment.is_empty make_pool Free.erase_segment Free.remove_segment
    Turn.with_mutex Turn.with_pool set_pool set_world
free_races_example =
    free_races env laws crowded_pool (block 1 4128) (block 1 4096)
      (segment 4096 (block 1 4096 ∷ block 1 4128 ∷ []) 2) [] allocate _ crowded-Inv refl refl refl
      (omega arith) refl refl refl

held_Found_example : Found 2 crowded.0.state.pool.segments
unfolding crowded_pool
held_Found_example =
    held_Found env laws start (three_allocations ++ two_frees) start-Inv (block 2 4160)
      (subst (λ (y : System env). 1 ≤ count (owned_by 2) y.0.held) (sym crowded_eq) (omega arith))

held_apart_example : count (λ b. covers 32 4170 b && owned_by 2 b) crowded.0.held ≤ 1
unfolding crowded_pool find
held_apart_example =
    held_apart env laws start (three_allocations ++ two_frees) start-Inv 2 4170 (segment 4160 [] 0)
      (subst (λ (y : System env). find 2 y.0.state.pool.segments ≡ some (segment 4160 [] 0))
        (sym crowded_eq) refl)

run-Runs_example :
    Runs
      (bag env laws start)
      (trace env (three_allocations ++ two_frees) start)
      (bag env laws crowded)
run-Runs_example = run-Runs env laws (three_allocations ++ two_frees) start start-Inv
