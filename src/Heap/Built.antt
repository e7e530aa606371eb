-- ===== src/Heap/Built.antt =====
-- The fixed-size heaps that `heap::allocate` of include/hwmalloc/heap.hpp relies on: one for every
-- size class, with a pool for every index that a node can have.
use hwmalloc.Base.{
  ℕ, zero, suc, ◌≡◌, inl, inr, refl, sym, ap, subst, ◌∙◌, Bool, Option, none, some, List, [], ◌∷◌,
  get_elem?, arith, ◌<◌, ◌*◌, size_mod, add_size, mul_size,
}
use hwmalloc.Config.{HeapConfig}
use hwmalloc.SizeClass.{SizeClass, deref, tiny_heaps, heaps}
use hwmalloc.Numa.Nodes.{node_map, size}
use hwmalloc.Platform.{Platform}
use hwmalloc.Pool.{Pool}
use hwmalloc.Pool
use hwmalloc.Pool.Frame.{Frame}
use hwmalloc.FixedSizeHeap.Dispatch.{OnLocal}
use hwmalloc.FixedSizeHeap.{
  FixedSizeHeap, add_device_pools, add_pools, make_fixed_size_heap, numa_node_index,
}
use hwmalloc.FixedSizeHeap
use hwmalloc.FixedSizeHeap.Pools.{numa_node_index-at, numa_node_index-Serves}
use hwmalloc.FixedSizeHeap.DevicePools.{
  make_fixed_size_heap-num_devices, make_fixed_size_heap-IsPool,
}
use hwmalloc.Heap.{
  State, Place, in_tiny_heaps, in_heaps, in_huge_heaps, find_huge, pointer_at, get_at, make_heaps,
  heap_of,
}
use hwmalloc.Heap.Spots.{Slot, host, device, Spot, pool_or_none, slot_at, put_slot, pool_at}
use hwmalloc.Heap.Spots.Laws.{
  Slot-discrete, slot_at-put_slot_self, slot_at-put_slot_ne, put_pool_rest, get_at-put_pool,
}
use hwmalloc.Heap.Release.{inside, after}

module _ {W R H S : Type 0} (env : Platform W R H S) where
  -- What a request is for, the host (`none`) or a device; whether there is this device, and the slot
  -- for an index.
  abbrev pub Reachable : Option ℕ → Type 0
  Reachable none = Unit
  Reachable (some device_id) = device_id < env.device.get_num_devices

  abbrev pub slot_for : Option ℕ → ℕ → Slot
  slot_for none i = host i
  slot_for (some device_id) i = device (add_size (mul_size i env.device.get_num_devices) device_id)

  -- The heap has a pool of the sizes of a class for every index of a node, and every device.
  abbrev pub Stock : FixedSizeHeap R S → SizeClass → Type 0
  Stock f k =
      (f.num_devices ≡ env.device.get_num_devices)
      × ((w : W) (n i : ℕ)
          → numa_node_index env w n ≡ some i
          → (on : Option ℕ) → Reachable on
          → (p : Pool R S) × (slot_at f (slot_for on i) ≡ some p)
            × (p.block_size ≡ k.block_size)
            × (p.segment_size ≡ k.segment_size))

  pub record Built (c : HeapConfig) (m : ℕ) (s : State W R S) : Type 0 where
    pub config : s.heap.config ≡ c
    pub limit : s.heap.max_size ≡ m
    pub tiny :
        (i : ℕ) (k : SizeClass)
        → deref (get_elem? (tiny_heaps c) i) ≡ some k
        → (f : FixedSizeHeap R S) × (get_at s.heap (in_tiny_heaps i) ≡ some f) × Stock f k
    pub buckets :
        (i : ℕ) (k : SizeClass)
        → deref (get_elem? (heaps c m) i) ≡ some k
        → (f : FixedSizeHeap R S) × (get_at s.heap (in_heaps i) ≡ some f) × Stock f k
    pub huge :
        (r : ℕ) (f : FixedSizeHeap R S)
        → get_at s.heap (in_huge_heaps r) ≡ some f
        → Stock f (record { block_size = r; segment_size = r })

  -- The pools do not depend on what the system is like when they are made.
  add_device_pools-world :
      (n i j rest : ℕ) (w : W) (s : FixedSizeHeap.State W R S)
      → add_device_pools env n i j rest (record s { world = w })
        ≡ record (add_device_pools env n i j rest s) { world = w }
  unfolding add_device_pools
  add_device_pools-world n i j zero w s = refl
  add_device_pools-world n i j (suc rest) w s = add_device_pools-world n i (suc j) rest w _

  add_pools-world :
      (es : List (ℕ × ℕ)) (w : W) (s : FixedSizeHeap.State W R S)
      → add_pools env es (record s { world = w }) ≡ record (add_pools env es s) { world = w }
  unfolding add_pools
  add_pools-world [] w s = refl
  add_pools-world ((n, i) ∷ es) w s =
      ap (add_pools env es) (add_device_pools-world n i 0 s.heap.num_devices w _)
      ∙ add_pools-world es w _

  make_fixed_size_heap-world :
      (v w : W) (next block segment : ℕ) (never_free : Bool) (reserve : ℕ)
      → (make_fixed_size_heap env v next block segment never_free reserve).heap
        ≡ (make_fixed_size_heap env w next block segment never_free reserve).heap
  unfolding make_fixed_size_heap
  make_fixed_size_heap-world v w next block segment never_free reserve =
      ap (λ s. s.heap) (add_pools-world env.numa.local_nodes.nodes v _)

  module _ (ns : List ℕ) (map : node_map ns ≡ some env.numa.local_nodes)
      (local : (w : W) → OnLocal env ns w)
      (fits : size env.numa.local_nodes * env.device.get_num_devices < size_mod) where
    -- The pool for an index, in the heap that is made in any state of the system.
    made_pool :
        (w : W) (next : ℕ) (k : SizeClass) (never_free : Bool) (reserve n : ℕ) (on : Option ℕ)
        → Reachable on
        → let f =
            (make_fixed_size_heap env w next k.block_size k.segment_size never_free reserve).heap in
          (i : ℕ) × (numa_node_index env w n ≡ some i)
          × (p : Pool R S) × (slot_at f (slot_for on i) ≡ some p)
          × (p.block_size ≡ k.block_size)
          × (p.segment_size ≡ k.segment_size)
    unfolding slot_at
    made_pool w next k never_free reserve n none here =
        let (i, index, serves) =
          numa_node_index-Serves env ns w next k.block_size k.segment_size n (local w).0 never_free
            reserve map (local w).1 (local w).2 in
        (i, index, serves.pool, ap pool_or_none serves.here, serves.block_size, serves.segment_size)
    made_pool w next k never_free reserve n (some device_id) here =
        let (i, index, lt, at) =
          numa_node_index-at env ns w n (local w).0 map (local w).1 (local w).2 in
        let v =
          make_fixed_size_heap-IsPool env w next k.block_size k.segment_size never_free reserve _ i
            device_id fits lt here (i, at) in
        (i, index, v.pool, ap pool_or_none v.here, v.block_size, v.segment_size)

    pub make_fixed_size_heap-Stock :
        (w : W) (next : ℕ) (k : SizeClass) (never_free : Bool) (reserve : ℕ)
        → Stock
            (make_fixed_size_heap env w next k.block_size k.segment_size never_free reserve).heap
            k
    make_fixed_size_heap-Stock w next k never_free reserve = (
      make_fixed_size_heap-num_devices env w next k.block_size k.segment_size never_free reserve,
      λ v n i e on here.
          let (j, f, p, slot, block, segment) = made_pool v next k never_free reserve n on here in
          let ij : i ≡ j = ground (arith, e, f) in
          (
            p,
            ap (λ h. slot_at h (slot_for on i))
                  (make_fixed_size_heap-world w v next k.block_size k.segment_size never_free
                    reserve)
                ∙ ap
                    (λ x.
                      slot_at
                        (make_fixed_size_heap env v next k.block_size k.segment_size never_free
                          reserve).heap
                        (slot_for on x))
                    ij
                ∙ slot,
            block,
            segment,
          ),
    )

    pub same_Stock :
        (f : FixedSizeHeap R S) (k' k : SizeClass)
        → ◌≡◌ {A = Option SizeClass} (some k') (some k)
        → Stock f k'
        → Stock f k
    same_Stock f k' k e v =
        subst (Stock f) (ap (λ o. elim o as (λ x. SizeClass) [ none ↦ k' | some x ↦ x ]) e) v

    make_heaps-Stock :
        (c : HeapConfig) (w : W) (ks : List (Option SizeClass)) (next i : ℕ) (k : SizeClass)
        → deref (get_elem? ks i) ≡ some k
        → (h : FixedSizeHeap R S) × (pointer_at (get_elem? (make_heaps env c w next ks).0 i)
            ≡ some h)
          × Stock h k
    unfolding make_heaps deref
    make_heaps-Stock c w [] next i k e = cc
    make_heaps-Stock c w (none ∷ ks) next zero k e = cc
    make_heaps-Stock c w (none ∷ ks) next (suc i) k e = make_heaps-Stock c w ks next i k e
    make_heaps-Stock c w (some k' ∷ ks) next zero k e = (
      _,
      refl,
      same_Stock _ k' k e
          (make_fixed_size_heap-Stock w next k' c.never_free c.num_reserve_segments),
    )
    make_heaps-Stock c w (some k' ∷ ks) next (suc i) k e = make_heaps-Stock c w ks _ i k e

    -- A new heap has them all.
    pub heap_of-Built : (c : HeapConfig) (w : W) (next m : ℕ) → Built c m (heap_of env c w next m)
    unfolding heap_of get_at find_huge
    heap_of-Built c w next m = record {
      config = refl;
      limit = refl;
      tiny = λ i k e. make_heaps-Stock c w (tiny_heaps c) next i k e;
      buckets = λ i k e. make_heaps-Stock c w (heaps c m) _ i k e;
      huge = λ r f e. cc;
    }

  -- A pool that keeps its sizes may change.
  module _ (s : State W R S) (t : Spot) (p : Pool R S) (there : pool_at s.heap t ≡ some p)
      (s' : Pool.State W R S) (frame : Frame (inside env s p) s') where
    put_slot-num_devices :
        (f : FixedSizeHeap R S) (u : Slot) (q : Pool R S)
        → (put_slot f u q).num_devices ≡ f.num_devices
    unfolding put_slot
    put_slot-num_devices f (host i) q = refl
    put_slot-num_devices f (device i) q = refl

    put_slot-Stock :
        (f : FixedSizeHeap R S) (k : SizeClass)
        → slot_at f t.1 ≡ some p
        → Stock f k
        → Stock (put_slot f t.1 s'.pool) k
    put_slot-Stock f k slot v = (
      put_slot-num_devices f t.1 s'.pool ∙ v.0,
      λ w n i e on reachable.
          let (q, here, block, segment) = v.1 w n i e on reachable in
          elim (Slot-discrete (slot_for on i) t.1) [
            | yes same ↦
                let pq : p ≡ q = ground (arith, slot, here, ap (slot_at f) same) in
                (
                  s'.pool,
                  ap (slot_at (put_slot f t.1 s'.pool)) same
                      ∙ slot_at-put_slot_self f t.1 p s'.pool slot,
                  frame.block_size ∙ ap (λ x. x.block_size) pq ∙ block,
                  frame.segment_size ∙ ap (λ x. x.segment_size) pq ∙ segment,
                )
            | no other ↦
                (q, slot_at-put_slot_ne f t.1 (slot_for on i) s'.pool other ∙ here, block, segment)
          ],
    )

    kept_Stock :
        (a : Place) (f : FixedSizeHeap R S) (k : SizeClass)
        → get_at s.heap a ≡ some f
        → Stock f k
        → (g : FixedSizeHeap R S) × (get_at (after env s t s').heap a ≡ some g) × Stock g k
    kept_Stock a f k e v = elim (get_at-put_pool s.heap t p s'.pool a there) [
      | inl same ↦ (f, same ∙ e, v)
      | inr (g, here, slot, now) ↦
          let fg : f ≡ g = ground (arith, e, here) in
          (put_slot g t.1 s'.pool, now, put_slot-Stock g k slot (subst (λ x. Stock x k) fg v))
    ]

    pub step-Built : (c : HeapConfig) (m : ℕ) → Built c m s → Built c m (after env s t s')
    step-Built c m v =
        let (mutex, config, limit) = put_pool_rest s.heap t s'.pool in
        record {
          config = config ∙ v.config;
          limit = limit ∙ v.limit;
          tiny = λ i k e.
              let (f, here, stock) = v.tiny i k e in kept_Stock (in_tiny_heaps i) f k here stock;
          buckets = λ i k e.
              let (f, here, stock) = v.buckets i k e in kept_Stock (in_heaps i) f k here stock;
          huge = λ r g e. elim (get_at-put_pool s.heap t p s'.pool (in_huge_heaps r) there) [
            | inl same ↦ v.huge r g (sym same ∙ e)
            | inr (f, here, slot, now) ↦
                let fg : put_slot f t.1 s'.pool ≡ g = ground (arith, now, e) in
                subst (λ x. Stock x (record { block_size = r; segment_size = r })) fg
                  (put_slot-Stock f _ slot (v.huge r f here))
          ];
        }
