-- ===== src/FixedSizeHeap/DevicePools.antt =====
-- The pools for devices that the constructor of include/hwmalloc/detail/fixed_size_heap.hpp makes.
use native.Mathlib.Decide.{ℕ_discrete}
use native.Mathlib.Nat.{mul-le-mul_right}
use hwmalloc.Base.{
  ℕ, zero, suc, ◌+◌, ◌*◌, ◌≤◌, ◌<◌, ◌≡◌, ◌⊎◌, inl, inr, refl, sym, ap, subst, ◌∙◌, Bool, Option,
  none, some, List, [], ◌∷◌, arith, length, get_elem?, set, length-set, length-replicate,
  get_elem?-set_self, get_elem?-set_ne, add_size, mul_size, size_mod,
}
use hwmalloc.Numa.Nodes.{size}
use hwmalloc.Platform.{Platform}
use hwmalloc.Pool.{Pool, make_pool, make_device_pool}
use hwmalloc.FixedSizeHeap.{
  FixedSizeHeap, State, pool_for, device_pool_for, add_device_pools, add_pools, no_pools,
  make_fixed_size_heap,
}

-- The element q of the vector is a pool with the sizes of the heap.
pub record IsPool {R S : Type 0} (block segment q : ℕ) (ps : List (Option (Pool R S)))
    : Type 0 where
  pub pool : Pool R S
  pub here : get_elem? ps q ≡ some (some pool)
  pub block_size : pool.block_size ≡ block
  pub segment_size : pool.segment_size ≡ segment

-- A pool of the same sizes may be put anywhere.
set-IsPool :
    {R S : Type 0} (block segment q k : ℕ) (ps : List (Option (Pool R S))) (p : Pool R S)
    → q < length ps
    → p.block_size ≡ block
    → p.segment_size ≡ segment
    → (k ≡ q) ⊎ IsPool block segment q ps
    → IsPool block segment q (set ps k (some p))
set-IsPool block segment q k ps p lt b g h = elim (ℕ_discrete k q) [
  | yes same ↦ record {
    pool = p;
    here =
        subst (λ a. get_elem? (set ps a (some p)) q ≡ some (some p)) (sym same)
          (get_elem?-set_self ps q (some p) lt);
    block_size = b;
    segment_size = g;
  }
  | no other ↦ elim h [
    | inl same ↦ absurd (other same)
    | inr v ↦ record {
      pool = v.pool;
      here = get_elem?-set_ne ps k q (some p) other ∙ v.here;
      block_size = v.block_size;
      segment_size = v.segment_size;
    }
  ]
]

-- What the loops leave alone.
pub record Shape {R S : Type 0} (block segment devices places : ℕ) (h : FixedSizeHeap R S)
    : Type 0 where
  pub block_size : h.block_size ≡ block
  pub segment_size : h.segment_size ≡ segment
  pub num_devices : h.num_devices ≡ devices
  pub room : length h.device_pools ≡ places

module _ {W R H S : Type 0} (env : Platform W R H S) (block segment devices places : ℕ) where
  abbrev at : ℕ → ℕ → ℕ
  at i d = add_size (mul_size i devices) d

  -- The inner loop, from device j on.
  add_device_pools-Shape :
      (n i j rest : ℕ) (s : State W R S)
      → Shape block segment devices places s.heap
      → Shape block segment devices places (add_device_pools env n i j rest s).heap
  unfolding add_device_pools
  add_device_pools-Shape n i j zero s v = v
  add_device_pools-Shape n i j (suc rest) s v = add_device_pools-Shape n i (suc j) rest _ (record {
    block_size = v.block_size;
    segment_size = v.segment_size;
    num_devices = v.num_devices;
    room = length-set s.heap.device_pools _ _ ∙ v.room;
  })

  -- A pool for index i and device d is there in the end, if it is still to come or was there.
  add_device_pools-IsPool :
      (i d n i' j rest : ℕ) (s : State W R S)
      → at i d < places
      → Shape block segment devices places s.heap
      → ((i' ≡ i) × (j ≤ d) × (d < j + rest)) ⊎ IsPool block segment (at i d) s.heap.device_pools
      → IsPool block segment (at i d) (add_device_pools env n i' j rest s).heap.device_pools
  unfolding add_device_pools device_pool_for make_device_pool make_pool
  add_device_pools-IsPool i d n i' j zero s lt v (inl h) = absurd (omega (arith, h))
  add_device_pools-IsPool i d n i' j zero s lt v (inr h) = h
  add_device_pools-IsPool i d n i' j (suc rest) s lt v h =
      let q = add_size (mul_size i' s.heap.num_devices) j in
      let p = device_pool_for env s.next_object s.heap n j in
      let key : q ≡ at i' j = ap (λ x. add_size (mul_size i' x) j) v.num_devices in
      let put =
        set-IsPool block segment (at i d) q s.heap.device_pools p (omega (arith, lt, v.room))
          v.block_size v.segment_size in
      add_device_pools-IsPool i d n i' (suc j) rest _ lt (add_device_pools-Shape n i' j 1 s v)
        (elim h [
          | inr there ↦ inr (put (inr there))
          | inl (same, low, high) ↦ elim (ℕ_discrete j d) [
            | yes jd ↦
                inr
                  (put (inl (key ∙ ap (λ x. add_size (mul_size x devices) j) same ∙ ap (at i) jd)))
            | no other ↦ inl (same, omega (arith, other, low), omega (arith, high))
          ]
        ])

  -- A round of the outer loop, up to the inner one.
  with_pool-Shape :
      (j : ℕ) (p : Pool R S) (s : State W R S)
      → Shape block segment devices places s.heap
      → Shape block segment devices places (record s.heap { pools = set s.heap.pools j (some p) })
  with_pool-Shape j p s v = record {
    block_size = v.block_size;
    segment_size = v.segment_size;
    num_devices = v.num_devices;
    room = v.room;
  }

  -- The outer loop.
  add_pools-Shape :
      (es : List (ℕ × ℕ)) (s : State W R S)
      → Shape block segment devices places s.heap
      → Shape block segment devices places (add_pools env es s).heap
  unfolding add_pools
  add_pools-Shape [] s v = v
  add_pools-Shape ((k, j) ∷ es) s v =
      add_pools-Shape es _
        (add_device_pools-Shape k j 0 s.heap.num_devices _ (with_pool-Shape j _ s v))

  add_pools-IsPool :
      (n i d : ℕ) (es : List (ℕ × ℕ)) (s : State W R S)
      → d < devices
      → at i d < places
      → Shape block segment devices places s.heap
      → ((pos : ℕ) × (get_elem? es pos ≡ some (n, i)))
        ⊎ IsPool block segment (at i d) s.heap.device_pools
      → IsPool block segment (at i d) (add_pools env es s).heap.device_pools
  unfolding add_pools
  add_pools-IsPool n i d [] s few lt v (inl (pos, e)) = cc
  add_pools-IsPool n i d [] s few lt v (inr there) = there
  add_pools-IsPool n i d ((k, j) ∷ es) s few lt v (inl (suc pos, e)) =
      add_pools-IsPool n i d es _ few lt
        (add_device_pools-Shape k j 0 s.heap.num_devices _ (with_pool-Shape j _ s v)) (inl (pos, e))
  add_pools-IsPool n i d ((k, j) ∷ es) s few lt v (inl (zero, e)) =
      let w = with_pool-Shape j (pool_for env s.next_object s.heap k) s v in
      let same : j ≡ i = cc in
      add_pools-IsPool n i d es _ few lt (add_device_pools-Shape k j 0 s.heap.num_devices _ w) (
        inr (
          add_device_pools-IsPool i d k j 0 s.heap.num_devices _ lt w
            (inl (same, omega arith, omega (arith, few, v.num_devices)))))
  add_pools-IsPool n i d ((k, j) ∷ es) s few lt v (inr there) =
      let w = with_pool-Shape j (pool_for env s.next_object s.heap k) s v in
      add_pools-IsPool n i d es _ few lt (add_device_pools-Shape k j 0 s.heap.num_devices _ w)
        (inr (add_device_pools-IsPool i d k j 0 s.heap.num_devices _ lt w (inr there)))

-- The place of a pool is in the vector: i is an index of a node and d a device, and the number of
-- places does not wrap.
place_lt :
    (i d nodes devices : ℕ)
    → i < nodes
    → d < devices
    → nodes * devices < size_mod
    → add_size (mul_size i devices) d < mul_size nodes devices
place_lt i d nodes devices lt few fits = omega (arith, mul-le-mul_right devices lt, few, fits)

module _ {W R H S : Type 0} (env : Platform W R H S) where
  abbrev sizes : ℕ
  sizes = mul_size (size env.numa.local_nodes) env.device.get_num_devices

  no_pools-Shape :
      (block segment : ℕ) (never_free : Bool) (reserve : ℕ)
      → Shape block segment env.device.get_num_devices sizes
          (no_pools env block segment never_free reserve)
  unfolding no_pools
  no_pools-Shape block segment never_free reserve = record {
    block_size = refl;
    segment_size = refl;
    num_devices = refl;
    room = length-replicate {A = Option (Pool R S)} sizes none;
  }

  pub make_fixed_size_heap-num_devices :
      (w : W) (next block segment : ℕ) (never_free : Bool) (reserve : ℕ)
      → (make_fixed_size_heap env w next block segment never_free reserve).heap.num_devices
        ≡ env.device.get_num_devices
  unfolding make_fixed_size_heap
  make_fixed_size_heap-num_devices w next block segment never_free reserve =
      (add_pools-Shape env block segment env.device.get_num_devices sizes env.numa.local_nodes.nodes
        _ (no_pools-Shape block segment never_free reserve)).num_devices

  -- A fixed-size heap has a pool of its sizes for every node and every device.
  pub make_fixed_size_heap-IsPool :
      (w : W) (next block segment : ℕ) (never_free : Bool) (reserve n i d : ℕ)
      → size env.numa.local_nodes * env.device.get_num_devices < size_mod
      → i < size env.numa.local_nodes
      → d < env.device.get_num_devices
      → ((pos : ℕ) × (get_elem? env.numa.local_nodes.nodes pos ≡ some (n, i)))
      → IsPool block segment
          (add_size (mul_size i env.device.get_num_devices) d)
          (make_fixed_size_heap env w next block segment never_free reserve).heap.device_pools
  unfolding make_fixed_size_heap
  make_fixed_size_heap-IsPool w next block segment never_free reserve n i d fits lt few entry =
      add_pools-IsPool env block segment env.device.get_num_devices sizes n i d
        env.numa.local_nodes.nodes _ few
        (place_lt i d (size env.numa.local_nodes) env.device.get_num_devices lt few fits)
        (no_pools-Shape block segment never_free reserve) (inl entry)
