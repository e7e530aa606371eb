-- ===== src/FixedSizeHeap.antt =====
-- include/hwmalloc/detail/fixed_size_heap.hpp: a pool of blocks of one size for every numa node, and
-- for every node and device.
pub mod Dispatch
pub mod Pools
pub mod Unavailable
pub mod DevicePools
use hwmalloc.Base.{
  ℕ, zero, suc, Bool, Option, none, some, List, [], ◌∷◌, ◌==◌, if◌then◌else◌, get_elem?, set,
  replicate, add_size, mul_size,
}
use hwmalloc.Numa.Nodes.{NodeMap, size, find}
use hwmalloc.Platform.{Block, Platform}
use hwmalloc.Outcome.{Outcome, returns, throws, hangs, undefined, Call}
use hwmalloc.Pool.{Pool, make_pool, make_device_pool}
use hwmalloc.Pool
use hwmalloc.Pool.Allocate

-- The vectors hold unique pointers; `none` is null.
pub record FixedSizeHeap (R S : Type 0) : Type 0 where
  pub block_size : ℕ
  pub segment_size : ℕ
  pub never_free : Bool
  pub num_reserve_segments : ℕ
  pub pools : List (Option (Pool R S))
  pub num_devices : ℕ
  pub device_pools : List (Option (Pool R S))

-- A fixed-size heap in its surroundings.
pub record State (W R S : Type 0) : Type 0 where
  pub world : W
  pub next_object : ℕ
  pub heap : FixedSizeHeap R S

-- `it->second`; the end of the map is undefined (`none`).
unfoldable pub second_at : NodeMap → ℕ → Option ℕ
second_at m pos = elim (get_elem? m.nodes pos) [ none ↦ none | some (n, i) ↦ some i ]

module _ {W R H S : Type 0} (env : Platform W R H S) where
  -- What `make_unique` makes for node n, and for node n and device j.
  unfoldable pub pool_for : ℕ → FixedSizeHeap R S → ℕ → Pool R S
  pool_for self h n =
      make_pool env self h.block_size h.segment_size n h.never_free h.num_reserve_segments

  unfoldable pub device_pool_for : ℕ → FixedSizeHeap R S → ℕ → ℕ → Pool R S
  device_pool_for self h n j =
      make_device_pool env self h.block_size h.segment_size n j h.never_free h.num_reserve_segments

  -- The inner loop of the constructor, for node n of index i and from device j on.
  unfoldable pub add_device_pools : ℕ → ℕ → ℕ → ℕ → State W R S → State W R S
  add_device_pools n i j zero s = s
  add_device_pools n i j (suc rest) s =
      let h = s.heap in
      add_device_pools n i (suc j) rest (record s {
        next_object = suc s.next_object;
        heap = record h {
          device_pools =
              set h.device_pools (add_size (mul_size i h.num_devices) j)
                (some (device_pool_for s.next_object h n j));
        };
      })

  -- The outer loop, over the entries of `numa().local_nodes()`.
  unfoldable pub add_pools : List (ℕ × ℕ) → State W R S → State W R S
  add_pools [] s = s
  add_pools ((n, i) ∷ es) s =
      let h = s.heap in
      add_pools es (
        add_device_pools n i 0 h.num_devices (record s {
          next_object = suc s.next_object;
          heap = record h { pools = set h.pools i (some (pool_for s.next_object h n)) };
        }))

  -- The members, before the body of the constructor, where `get_num_devices` returns.
  unfoldable pub no_pools : ℕ → ℕ → Bool → ℕ → FixedSizeHeap R S
  no_pools block_size segment_size never_free num_reserve_segments =
      let nodes = size env.numa.local_nodes in
      record {
        block_size = block_size;
        segment_size = segment_size;
        never_free = never_free;
        num_reserve_segments = num_reserve_segments;
        pools = replicate nodes none;
        num_devices = env.device.get_num_devices;
        device_pools = replicate (mul_size nodes env.device.get_num_devices) none;
      }

  unfoldable pub make_fixed_size_heap : W → ℕ → ℕ → ℕ → Bool → ℕ → State W R S
  make_fixed_size_heap w next block_size segment_size never_free num_reserve_segments =
      add_pools env.numa.local_nodes.nodes (record {
        world = w;
        next_object = next;
        heap = no_pools block_size segment_size never_free num_reserve_segments;
      })

  unfoldable pub numa_node_index : W → ℕ → Option ℕ
  numa_node_index w numa_node =
      let m = env.numa.local_nodes in
      if find m numa_node == size m
      then elim (env.numa.local_node w) [ none ↦ none | some local ↦ second_at m (find m local) ]
      else second_at m (find m numa_node)

  -- A pool that has changed goes back to where it stands.
  abbrev pub put_back :
      {A : Type 0}
      → (Pool R S → FixedSizeHeap R S)
      → Outcome (Pool.State W R S) A
      → Outcome (State W R S) A
  put_back place (returns a s) =
      returns a (record { world = s.world; next_object = s.next_object; heap = place s.pool })
  put_back place (throws e s) =
      throws e (record { world = s.world; next_object = s.next_object; heap = place s.pool })
  put_back place hangs = hangs
  put_back place undefined = undefined

  -- `->allocate()` on an element of a vector: out of range and null are undefined.
  abbrev pub allocate_at :
      ℕ → (Pool R S → FixedSizeHeap R S) → Option (Option (Pool R S)) → Call (State W R S) (Block H)
  allocate_at fuel place none s = undefined
  allocate_at fuel place (some none) s = undefined
  allocate_at fuel place (some (some p)) s = put_back place (
      Allocate.allocate env fuel
        (record { world = s.world; next_object = s.next_object; pool = p }))

  abbrev pub on_index : Option ℕ → (ℕ → Call (State W R S) (Block H)) → Call (State W R S) (Block H)
  on_index none f s = undefined
  on_index (some i) f s = f i s

  unfoldable pub allocate : ℕ → ℕ → Call (State W R S) (Block H)
  allocate fuel numa_node s =
      let h = s.heap in
      on_index (numa_node_index s.world numa_node)
        (λ i.
          allocate_at fuel (λ p. record h { pools = set h.pools i (some p) }) (get_elem? h.pools i))
        s

  unfoldable pub allocate_on_device : ℕ → ℕ → ℕ → Call (State W R S) (Block H)
  allocate_on_device fuel numa_node device_id s =
      let h = s.heap in
      on_index (numa_node_index s.world numa_node)
        (λ i.
          let k = add_size (mul_size i h.num_devices) device_id in
          allocate_at fuel (λ p. record h { device_pools = set h.device_pools k (some p) })
            (get_elem? h.device_pools k))
        s
