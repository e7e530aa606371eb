-- ===== src/Pool/Grow.antt =====
-- `add_segment` of include/hwmalloc/detail/pool.hpp: pages from the numa allocator, registered and cut
-- into blocks, with every way in which that can fail.
use hwmalloc.Base.{
  ℕ, suc, Bool, true, false, ◌/◌, not, Option, none, some, ◌∷◌, ◌==◌, if◌then◌else◌,
}
use hwmalloc.Numa.{Allocation, is_set}
use hwmalloc.Device.{Malloced}
use hwmalloc.Platform.{Platform}
use hwmalloc.Outcome.{
  no_system_memory, wrong_numa_node, not_registered, no_device_memory, gpu_call_failed,
  stack_too_large, returns, throws, hangs, undefined, Call, ◌>>=◌, ◌>>◌,
}
use hwmalloc.Segment
use hwmalloc.Segment.{Segment}
use hwmalloc.Pool.{State, set_world, num_pages}

module _ {W R H S : Type 0} (env : Platform W R H S) where
  open env use {numa, device, context, stack}

  -- `check_allocation`: memory on another node than the expected one is given back.
  unfoldable pub check_allocation : Allocation → ℕ → Call (State W R S) Allocation
  check_allocation a expected s =
      if not (is_set a)
      then throws no_system_memory s
      else if not (a.node == expected)
      then throws (wrong_numa_node expected) (set_world (numa.free s.world a) s)
      else returns a s

  unfoldable pub allocate_pages : Call (State W R S) Allocation
  allocate_pages s =
      let pages = num_pages numa.page_size s.pool.segment_size in
      elim (numa.allocate s.world pages s.pool.numa_node) [
        | none ↦ undefined
        | some (a, w) ↦ check_allocation a s.pool.numa_node (set_world w s)
      ]

  -- A registration that throws.
  unfoldable pub registered : Option R × W → Call (State W R S) R
  registered (none, w) s = throws not_registered (set_world w s)
  registered (some r, w) s = returns r (set_world w s)

  -- The same for the memory of a device: the region of the host, an argument of the same call, is
  -- destroyed then.
  unfoldable pub registered_device : R → Option R × W → Call (State W R S) R
  registered_device r (none, w) s = throws not_registered (set_world (context.deregister w r) s)
  registered_device r (some d, w) s = returns d (set_world w s)

  -- `get_device_id` and `set_device_id`.
  unfoldable pub current_device : Option ℕ × W → Call (State W R S) ℕ
  current_device (none, w) s = throws gpu_call_failed (set_world w s)
  current_device (some id, w) s = returns id (set_world w s)

  unfoldable pub device_set : Bool × W → Call (State W R S) (Unit {0})
  device_set (false, w) s = throws gpu_call_failed (set_world w s)
  device_set (true, w) s = returns tt (set_world w s)

  unfoldable pub device_memory : Malloced × W → Call (State W R S) ℕ
  device_memory (Malloced.memory p, w) s = returns p (set_world w s)
  device_memory (Malloced.threw, w) s = throws no_device_memory (set_world w s)
  device_memory (Malloced.undefined, w) s = undefined

  -- `m_segments[s.get()] = std::move(s)`, after the constructor has filled the free stack.
  unfoldable pub insert_segment : Segment R S → Call (State W R S) (Unit {0})
  insert_segment g s =
      let p = s.pool in
      elim (Segment.fill_free_stack env s.next_object g p.free_stack) [
        | none ↦ hangs
        | some stack' ↦ returns tt (record s {
          next_object = suc s.next_object;
          pool = record p { free_stack = stack'; segments = (s.next_object, g) ∷ p.segments };
        })
      ]

  -- `make_unique` of a segment: if the constructor of its freed stack throws, the members before it
  -- are destroyed.
  unfoldable pub make_and_insert : R → Allocation → ℕ → Option R → ℕ → Call (State W R S) (Unit {0})
  make_and_insert r a device_ptr dr device_id s = elim (stack.fixed (a.size / s.pool.block_size)) [
    | none ↦
        throws stack_too_large (set_world (Segment.destroy_members env device_ptr dr r a s.world) s)
    | some f ↦
        insert_segment
          (Segment.make_segment env s.pool.self r a s.pool.block_size device_ptr dr device_id f) s
  ]

  unfoldable pub add_host_segment : Allocation → Call (State W R S) (Unit {0})
  add_host_segment a = do
    r ← λ s. registered (context.register_memory s.world a.ptr a.size) s
    make_and_insert r a 0 none 0

  -- The segment for a device, which is the current one.
  unfoldable pub make_device_segment : ℕ → Allocation → Call (State W R S) (Unit {0})
  make_device_segment id a = do
    device_ptr ← λ s. device_memory (device.device_malloc s.world a.size) s
    r ← λ s. registered (context.register_memory s.world a.ptr a.size) s
    dr ← λ s. registered_device r (context.register_device_memory s.world id device_ptr a.size) s
    make_and_insert r a device_ptr (some dr) id

  -- The current device is set for the time of the call, and reset unless something throws; to reset
  -- it may throw itself, when the segment has been inserted.
  unfoldable pub add_device_segment : Allocation → Call (State W R S) (Unit {0})
  add_device_segment a s =
      let id = s.pool.device_id in
      (do
        tmp ← λ s. current_device (device.get_device_id s.world) s
        λ s. device_set (device.set_device_id s.world id) s
        make_device_segment id a
        λ s. device_set (device.set_device_id s.world tmp) s)
        s

  unfoldable pub add_segment : Call (State W R S) (Unit {0})
  add_segment s =
      (do
        a ← allocate_pages
        if s.pool.allocate_on_device then add_device_segment a else add_host_segment a)
        s
