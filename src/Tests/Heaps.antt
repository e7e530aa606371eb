-- ===== src/Tests/Heaps.antt =====
-- A heap of include/hwmalloc/heap.hpp with two tiny, one small and one large size class, and a
-- program that takes two blocks from it.
use hwmalloc.Base.{
  ℕ, ◌+◌, true, false, none, some, List, [], ◌∷◌, ◌≡◌, ◌≤◌, ◌&&◌, inl, refl, arith, count,
}
use hwmalloc.Config.{HeapConfig, Settings, default_settings, members}
use hwmalloc.Config
use hwmalloc.Numa.Nodes
use hwmalloc.Numa.Tools.{stub_allocate, allocate_malloc, from_calloc}
use hwmalloc.Numa.Tools.Sized.{stub-IsSized}
use hwmalloc.Device.{Device, memory}
use hwmalloc.SizeClass
use hwmalloc.SizeClass.{serve}
use hwmalloc.Platform.{Block, Platform, IsStack}
use hwmalloc.Outcome.{Outcome, returns, Ends}
use hwmalloc.Segment
use hwmalloc.Pool
use hwmalloc.Pool.Grow
use hwmalloc.Pool.Allocate
use hwmalloc.FixedSizeHeap
use hwmalloc.Heap.{State, in_tiny_heaps, heap_of, allocate, allocate_on_device}
use hwmalloc.Heap
use hwmalloc.Heap.Session.{Serviceable, Served, Session, opened, got}
use hwmalloc.Heap.Session.Calls.{allocate-Session}
use hwmalloc.Segment.{Segment}
use hwmalloc.Segment.Blocks.{owned_by}
use hwmalloc.Segment.Cover.{covers}
use hwmalloc.Pool.{Pool}
use hwmalloc.Heap.Spots.{Spot, host, pool_at, slot_at}
use hwmalloc.Heap.Whole.{replaced}
use hwmalloc.Heap.Session.{Held}
use hwmalloc.Heap.Enough.{Enough}
use hwmalloc.Heap.Apart.{heap_disjoint}
use hwmalloc.Tests.Setting.{ListStack, list_stack-IsStack, platform, bump}

abbrev Stack : Type 0
Stack = ListStack (Block ℕ)

abbrev gpu : Device ℕ
gpu = record {
  get_num_devices = 1;
  get_device_id = λ w. (some 0, w);
  set_device_id = λ w id. (true, w);
  device_malloc = λ w size. (memory w, w + size);
  device_free = λ w ptr. w;
}

abbrev env : Platform ℕ ℕ ℕ Stack
env = record (platform bump) { device = gpu }

abbrev laws : IsStack env.stack
laws = list_stack-IsStack (Block ℕ)

abbrev pub config : HeapConfig
unfolding members
config =
    members
      (record default_settings {
        tiny_limit = 16;
        small_limit = 32;
        large_limit = 64;
        tiny_segment_size = 64;
        small_segment_size = 64;
        large_segment_size = 128;
      })
      16 32 64 64 64 128

platform-Serviceable : Serviceable env (0 ∷ [])
unfolding Nodes.size Nodes.node_map Nodes.build Nodes.sort Nodes.insert_sorted Nodes.back
    Nodes.index_nodes
platform-Serviceable = record {
  nodes = refl;
  local = λ w. (0, refl, inl refl);
  page_pos = omega arith;
  sized = stub-IsSized bump;
  devices_fit = omega arith;
  device_defined = λ w n e. cc;
}

abbrev start : State ℕ ℕ Stack
start = heap_of env config 4096 1 128

ten_bytes-Served : Served env config 128 10
unfolding config serve SizeClass.route SizeClass.class_at SizeClass.tiny_bucket_index
    SizeClass.tiny_heaps SizeClass.fill
ten_bytes-Served = record {
  size_class = record { block_size = 16; segment_size = 64 };
  served = refl;
  fits = record { enough = omega arith; tight = omega arith; holds = omega arith };
  some_bytes = omega arith;
  no_wrap = omega arith;
}

abbrev first : Outcome (State ℕ ℕ Stack) (Block ℕ)
first = allocate env 2 10 0 start

abbrev state_of : Outcome (State ℕ ℕ Stack) (Block ℕ) → State ℕ ℕ Stack
state_of (returns b s) = s
state_of _ = start

abbrev block_of : Outcome (State ℕ ℕ Stack) (Block ℕ) → List (Block ℕ)
block_of (returns b s) = b ∷ []
block_of _ = []

abbrev block : Block ℕ
block = record {
  segment = 11;
  user_allocation = 0;
  ptr = 4096;
  handle = 4096;
  device_ptr = 0;
  device_handle = 0;
  device_id = 0;
}

abbrev after_first : State ℕ ℕ Stack
after_first = state_of first

-- The pool of the blocks of 16 bytes.
abbrev spot : Spot
spot = (in_tiny_heaps 1, host 0)

abbrev segment : Segment ℕ Stack
segment = record {
  pool = 3;
  block_size = 16;
  num_blocks = 4;
  allocation = record { ptr = 4096; size = 64; node = 0; use_numa_free = false };
  region = 4096;
  device_ptr = 0;
  device_region = none;
  device_id = 0;
  freed_stack = (some 4, []);
  num_freed = 0;
}

-- The call, and what it leaves at the spot of the pool of 16 bytes.
first_run :
    (first ≡ returns block after_first)
    × (p : Pool ℕ Stack) × (pool_at after_first.heap spot ≡ some p)
    × (Pool.find 11 p.segments ≡ some segment)
unfolding config allocate heap_of Heap.locate Heap.locate_route SizeClass.route Heap.get_at
    Heap.make_heaps SizeClass.tiny_heaps SizeClass.heaps SizeClass.heaps_sized SizeClass.fill
    SizeClass.bucket_index SizeClass.tiny_bucket_index Config.log2_c Config.log2_fuel
    FixedSizeHeap.allocate FixedSizeHeap.numa_node_index FixedSizeHeap.second_at
    FixedSizeHeap.make_fixed_size_heap FixedSizeHeap.add_pools FixedSizeHeap.add_device_pools
    FixedSizeHeap.pool_for FixedSizeHeap.device_pool_for Pool.make_device_pool
    FixedSizeHeap.no_pools Nodes.find Nodes.node_map Nodes.build Nodes.sort Nodes.insert_sorted
    Nodes.index_nodes Nodes.back Nodes.size Nodes.upper_bound_key Allocate.pop Allocate.pop_or
    Allocate.collect_all Allocate.collect Allocate.refill Allocate.unlock_and_return
    Allocate.allocate_locked Allocate.allocate Pool.lock Pool.unlock Pool.set_pool Pool.set_world
    Pool.num_pages Pool.make_pool Grow.add_segment Grow.allocate_pages Grow.check_allocation
    Grow.registered Grow.insert_segment Grow.make_and_insert Grow.add_host_segment
    Segment.make_segment Segment.fill_free_stack Segment.blocks_down Segment.block_at
    Segment.device_ptr_at Segment.device_handle_at stub_allocate allocate_malloc from_calloc pool_at
    slot_at Pool.find Heap.put_at
first_run = (refl, _, refl, refl)

opened_Session : Session env laws bump config 128 start []
opened_Session = opened 4096 1 start (omega arith) refl

first_Session : Session env laws bump config 128 after_first (block ∷ [])
first_Session =
    got 2 10 0 none block start after_first [] opened_Session (omega arith) ten_bytes-Served tt
      first_run.0

allocate-Session_example :
    Ends
      (λ b s'. Session env laws bump config 128 s' (b ∷ block ∷ []) × Enough 10 b s')
      (λ e s'. (t : Spot) × Held env laws config 128 (replaced (λ u. false) t true) s' (block ∷ []))
      (allocate_on_device env 2 10 0 0 after_first)
allocate-Session_example =
    allocate-Session env laws bump config 128 (0 ∷ []) platform-Serviceable 2 10 0 (some 0)
      after_first (block ∷ []) first_Session (omega arith) ten_bytes-Served (omega arith)

heap_disjoint_example : count (λ b. covers 16 4100 b && owned_by 11 b) (block ∷ []) ≤ 1
heap_disjoint_example =
    heap_disjoint env laws bump config 128 (0 ∷ []) platform-Serviceable after_first (block ∷ [])
      spot first_run.1 11 4100 segment first_Session first_run.2 first_run.3
