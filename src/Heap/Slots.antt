-- ===== src/Heap/Slots.antt =====
-- Which fixed-size heap `heap::allocate` of include/hwmalloc/heap.hpp calls.
use hwmalloc.Base.{
  ℕ, zero, suc, ◌≤◌, ◌<◌, ◌≡◌, ◌^◌, refl, ap, subst, ◌∙◌, Bool, Option, none, some, List, [], ◌∷◌,
  get_elem?, eq→==,
}
use hwmalloc.Config.{HeapConfig, Settings, ok, heap_config, tiny_increment}
use hwmalloc.Config.Valid.{InRange}
use hwmalloc.SizeClass.{
  SizeClass, Route, tiny, bucket, huge, undefined, tiny_heaps, heaps, route, deref, class_at, serve,
}
use hwmalloc.SizeClass.Fit.{Fits, serve_accepted}
use hwmalloc.Platform.{Platform}
use hwmalloc.Outcome.{returns}
use hwmalloc.FixedSizeHeap.{
  FixedSizeHeap, add_device_pools, add_pools, no_pools, make_fixed_size_heap,
}
use hwmalloc.FixedSizeHeap
use hwmalloc.Heap.{
  State, Place, in_tiny_heaps, in_heaps, in_huge_heaps, find_huge, pointer_at, get_at, make_heaps,
  heap_of, make_heap, huge_heap_for, locate_route, locate,
}

module _ {W R H S : Type 0} (env : Platform W R H S) where
  -- A heap of the sizes of a class.
  pub record Sized (h : FixedSizeHeap R S) (k : SizeClass) : Type 0 where
    pub block_size : h.block_size ≡ k.block_size
    pub segment_size : h.segment_size ≡ k.segment_size

  add_device_pools-sizes :
      (n i j rest : ℕ) (s : FixedSizeHeap.State W R S)
      → ((add_device_pools env n i j rest s).heap.block_size ≡ s.heap.block_size)
        × ((add_device_pools env n i j rest s).heap.segment_size ≡ s.heap.segment_size)
  unfolding add_device_pools
  add_device_pools-sizes n i j zero s = (refl, refl)
  add_device_pools-sizes n i j (suc rest) s = add_device_pools-sizes n i (suc j) rest _

  add_pools-sizes :
      (es : List (ℕ × ℕ)) (s : FixedSizeHeap.State W R S)
      → ((add_pools env es s).heap.block_size ≡ s.heap.block_size)
        × ((add_pools env es s).heap.segment_size ≡ s.heap.segment_size)
  unfolding add_pools
  add_pools-sizes [] s = (refl, refl)
  add_pools-sizes ((n, i) ∷ es) s =
      let (b, g) = add_pools-sizes es _ in
      let (b', g') = add_device_pools-sizes n i 0 s.heap.num_devices _ in (b ∙ b', g ∙ g')

  made-Sized :
      (w : W) (next : ℕ) (k : SizeClass) (never_free : Bool) (reserve : ℕ)
      → Sized
          (make_fixed_size_heap env w next k.block_size k.segment_size never_free reserve).heap
          k
  unfolding make_fixed_size_heap no_pools
  made-Sized w next k never_free reserve =
      let (b, g) = add_pools-sizes env.numa.local_nodes.nodes _ in
      record { block_size = b; segment_size = g }

  same-Sized :
      (h : FixedSizeHeap R S) (k' k : SizeClass)
      → ◌≡◌ {A = Option SizeClass} (some k') (some k)
      → Sized h k'
      → Sized h k
  same-Sized h k' k e v =
      subst (Sized h) (ap (λ o. elim o as (λ x. SizeClass) [ none ↦ k' | some x ↦ x ]) e) v

  -- Every entry of the vector of classes has its heap.
  make_heaps-Sized :
      (c : HeapConfig) (w : W) (ks : List (Option SizeClass)) (next i : ℕ) (k : SizeClass)
      → deref (get_elem? ks i) ≡ some k
      → (h : FixedSizeHeap R S) × (pointer_at (get_elem? (make_heaps env c w next ks).0 i) ≡ some h)
        × Sized h k
  unfolding make_heaps deref
  make_heaps-Sized c w [] next i k e = cc
  make_heaps-Sized c w (none ∷ ks) next zero k e = cc
  make_heaps-Sized c w (none ∷ ks) next (suc i) k e = make_heaps-Sized c w ks next i k e
  make_heaps-Sized c w (some k' ∷ ks) next zero k e =
      (_, refl, same-Sized _ k' k e (made-Sized w next k' c.never_free c.num_reserve_segments))
  make_heaps-Sized c w (some k' ∷ ks) next (suc i) k e = make_heaps-Sized c w ks _ i k e

  -- The place to which a route leads, and the heap of class k that stands there.
  pub record Located (r : Route) (s : State W R S) (k : SizeClass) : Type 0 where
    pub place : Place
    pub after : State W R S
    pub heap : FixedSizeHeap R S
    pub result : locate_route env r s ≡ returns place after
    pub there : get_at after.heap place ≡ some heap
    pub sized : Sized heap k

  locate_route-Located :
      (c : HeapConfig) (w : W) (next m : ℕ) (r : Route) (k : SizeClass)
      → class_at c m r ≡ some k
      → Located r (heap_of env c w next m) k
  unfolding locate_route heap_of class_at get_at huge_heap_for find_huge
  locate_route-Located c w next m (tiny i) k e =
      let (h, there, sized) = make_heaps-Sized c w (tiny_heaps c) next i k e in
      record {
        place = in_tiny_heaps i;
        after = heap_of env c w next m;
        heap = h;
        result = refl;
        there = there;
        sized = sized;
      }
  locate_route-Located c w next m (bucket i) k e =
      let (h, there, sized) = make_heaps-Sized c w (heaps c m) _ i k e in
      record {
        place = in_heaps i;
        after = heap_of env c w next m;
        heap = h;
        result = refl;
        there = there;
        sized = sized;
      }
  locate_route-Located c w next m (huge r) k e =
      let s = heap_of env c w next m in
      let made = make_fixed_size_heap env w s.next_object r r c.never_free c.num_reserve_segments in
      record {
        place = in_huge_heaps r;
        after = huge_heap_for env r s;
        heap = made.heap;
        result = refl;
        there = rw (eq→== r r refl) refl;
        sized =
            same-Sized made.heap (record { block_size = r; segment_size = r }) k e
              (made-Sized w s.next_object (record { block_size = r; segment_size = r }) c.never_free
                c.num_reserve_segments);
      }
  locate_route-Located c w next m undefined k e = cc

  -- A new heap, and the fixed-size heap in it that `allocate` of n bytes calls.
  pub record Served (c : HeapConfig) (w : W) (next n : ℕ) : Type 0 where
    pub before : State W R S
    pub made : make_heap env c w next ≡ some before
    pub place : Place
    pub after : State W R S
    pub located : locate env n before ≡ returns place after
    pub heap : FixedSizeHeap R S
    pub there : get_at after.heap place ≡ some heap
    pub size_class : SizeClass
    pub sized : Sized heap size_class
    pub fits : Fits n size_class

  -- With a configuration that the constructor of `heap_config` accepts, a tiny limit of at least one
  -- increment and a large limit below 2 GiB, the constructor of `heap` is defined, and `allocate` of
  -- 1 byte up to 2 GiB on the new heap finds a fixed-size heap: in one of the vectors, or in the map
  -- of huge heaps, where it is made. Its blocks are as large as the request, smaller than twice the
  -- request plus 8, and not larger than its segments.
  pub locate-Served :
      (s : Settings) (c : HeapConfig) (w : W) (next n : ℕ)
      → InRange s
      → heap_config s ≡ ok c
      → tiny_increment ≤ c.tiny_limit
      → c.large_limit < 2 ^ 31
      → 1 ≤ n
      → n ≤ 2 ^ 31
      → Served c w next n
  unfolding make_heap locate serve heap_of
  locate-Served s c w next n r e tiny_min large_max lo hi =
      let (m, em, k, ek, fits) = serve_accepted s c n r e tiny_min large_max lo hi in
      let v = locate_route-Located c w next m (route c m n) k ek in
      record {
        before = heap_of env c w next m;
        made = rw (em, make_heap) refl;
        place = v.place;
        after = v.after;
        located = v.result;
        heap = v.heap;
        there = v.there;
        size_class = k;
        sized = v.sized;
        fits = fits;
      }
