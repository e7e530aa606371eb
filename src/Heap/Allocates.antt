-- ===== src/Heap/Allocates.antt =====
-- `heap::allocate` (include/hwmalloc/heap.hpp), on a heap that is in use.
use hwmalloc.Base.{
  ℕ, ◌+◌, ◌*◌, Option, none, refl, ◌≤◌, ◌<◌, ◌≡◌, ◌≢◌, sym, subst, ◌∙◌, Bool, false, some, List,
  arith, size_mod,
}
use hwmalloc.Config.{HeapConfig}
use hwmalloc.Numa.Nodes.{node_map, size}
use hwmalloc.Numa.Tools.Sized.{IsSized}
use hwmalloc.Device.{Malloced}
use hwmalloc.SizeClass.{SizeClass, serve}
use hwmalloc.SizeClass.Fit.{Fits}
use hwmalloc.Platform.{Block, Platform, IsStack}
use hwmalloc.Outcome.{Call, returns, Ends}
use hwmalloc.FixedSizeHeap.Dispatch.{OnLocal}
use hwmalloc.FixedSizeHeap.Pools.{numa_node_index-at}
use hwmalloc.Heap.{State, Place, get_at, locate, call_at, allocate, allocate_on_device}
use hwmalloc.Heap.Spots.{Spot}
use hwmalloc.Heap.Spots.Laws.{pool_at_lem}
use hwmalloc.Heap.Whole.{Whole}
use hwmalloc.Heap.Built.{Reachable, slot_for, Built}
use hwmalloc.Heap.Grants.{allocate_in, call_at_lem, Granted, Refused, on_pool}
use hwmalloc.Heap.Placed.{locate-Placed}

module _ {W R H S : Type 0} (env : Platform W R H S) where
  -- The two overloads of `allocate`, for the host and for a device.
  abbrev pub allocate_for : ℕ → ℕ → ℕ → Option ℕ → Call (State W R S) (Block H)
  allocate_for fuel n node none = allocate env fuel n node
  allocate_for fuel n node (some device_id) = allocate_on_device env fuel n node device_id

  allocate_for_lem :
      (fuel n node : ℕ) (on : Option ℕ) (s s' : State W R S) (a : Place)
      → locate env n s ≡ returns a s'
      → allocate_for fuel n node on s
        ≡ call_at env (allocate_in env fuel node on) a (get_at s'.heap a) s'
  unfolding allocate allocate_on_device
  allocate_for_lem fuel n node none s s' a e = rw e refl
  allocate_for_lem fuel n node (some device_id) s s' a e = rw e refl

module _ {W R H S : Type 0} (env : Platform W R H S) (laws : IsStack env.stack) where
  module _ (c : HeapConfig) (m : ℕ) where
    module _ (ns : List ℕ) (map : node_map ns ≡ some env.numa.local_nodes)
        (local : (w : W) → OnLocal env ns w)
        (few : size env.numa.local_nodes * env.device.get_num_devices < size_mod) where
      -- A request that a size class serves, on a heap in use, leads to a pool. Unless an exception
      -- has locked it for good the call ends: the pool grants a block of at least as many bytes, which
      -- is then held besides those that were, or it throws, nothing is lost and the pool is locked for
      -- good. The heap stays whole, and serves all classes, either way.
      pub allocate-Granted :
          (fuel n node : ℕ) (on : Option ℕ) (locked : Spot → Bool) (s : State W R S)
          (live : Spot → List (Block H)) (k : SizeClass)
          → Whole env laws locked s live
          → Built env c m s
          → serve c m n ≡ some k
          → Fits n k
          → 1 ≤ n
          → k.segment_size + env.numa.page_size < size_mod
          → 1 ≤ env.numa.page_size
          → IsSized env.numa
          → ((w : W) (n : ℕ) → (env.device.device_malloc w n).0 ≢ Malloced.undefined)
          → 2 ≤ fuel
          → Reachable env on
          → (t : Spot) × (locked t ≡ false
              → Ends
                  (Granted env laws c m n locked live t)
                  (λ e s'. Refused env laws c m locked live t s')
                  (allocate_for env fuel n node on s))
      allocate-Granted fuel n node on locked s live k v b e fits pos no_wrap page sized device two
            reachable =
          let placed = locate-Placed env laws c m ns map local few locked s live n k v b e in
          let s1 = placed.after_it in
          let here = local s1.world in
          let (i, index, lt, at) =
            numa_node_index-at env ns s1.world node here.0 map here.1 here.2 in
          let (p, slot, block, segment) = placed.stock.1 s1.world node i index on reachable in
          let t : Spot = (placed.place, slot_for env on i) in
          let there = pool_at_lem s1.heap t placed.heap placed.there ∙ slot in
          let call =
            allocate_for_lem env fuel n node on s s1 placed.place placed.result
            ∙ call_at_lem env laws fuel node on s1 placed.place placed.heap i p placed.there
                placed.stock.0 index slot in
          (
            t,
            λ open_now.
                subst
                  (Ends (Granted env laws c m n locked live t)
                    (λ e s'. Refused env laws c m locked live t s'))
                  (sym call)
                  (on_pool env laws c m fuel n locked s1 live t p placed.whole placed.built there
                    open_now two
                    (record {
                      page_pos = page;
                      block_pos = omega (arith, fits.enough, pos, block);
                      holds = omega (arith, fits.holds, block, segment);
                      no_wrap = omega (arith, no_wrap, segment);
                      sized = sized;
                      device_defined = device;
                    })
                    (omega (arith, fits.enough, block))),
          )
