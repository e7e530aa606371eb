-- ===== src/FixedSizeHeap/Unavailable.antt =====
-- A fixed-size heap (include/hwmalloc/detail/fixed_size_heap.hpp) on a system where libnuma is not
-- available (src/numa.cpp).
use hwmalloc.Base.{
  ap, ◌∙◌, some, [], Option, ℕ, ◌≡◌, refl, sym, subst, false, true, Bool, if◌then◌else◌, ◌==◌, none,
}
use hwmalloc.Numa.Nodes.{NodeMap, empty, find, size}
use hwmalloc.Numa.Discover.{Topology, Discovered, numa_tools_of}
use hwmalloc.Platform.{Platform}
use hwmalloc.Outcome.{undefined}
use hwmalloc.FixedSizeHeap.{State, second_at, numa_node_index, allocate, allocate_on_device}

second_at_empty : (m : NodeMap) (i : ℕ) → m ≡ empty → second_at m i ≡ none
unfolding second_at
second_at_empty m i e = subst (λ x. second_at x i ≡ none) (sym e) refl

index_empty :
    (m : NodeMap) (b : Bool) (local : Option ℕ) (j : ℕ)
    → m ≡ empty
    → (if b then elim local [ none ↦ none | some l ↦ second_at m (find m l) ] else second_at m j)
      ≡ none
index_empty m true none j e = refl
index_empty m true (some l) j e = second_at_empty m (find m l) e
index_empty m false local j e = second_at_empty m j e

some_inj : {A : Type 0} (x y : A) → some x ≡ some y → x ≡ y
some_inj x y e = cc

abbrev nothing : Discovered
nothing = record { cpu_to_node = []; host_nodes = empty; local_nodes = empty; device_nodes = empty }

-- If libnuma is not available, the constructor of `numa_tools` goes on after it has printed that, and
-- every allocation from a fixed-size heap, for the host and for a device, is undefined: the end of the
-- empty map of local nodes is dereferenced.
pub allocate_unavailable :
    {W R H S : Type 0} (env : Platform W R H S) (t : Topology) (fuel numa_node device_id : ℕ)
    (s : State W R S) (d : Discovered)
    → numa_tools_of t false ≡ some d
    → env.numa.local_nodes ≡ d.local_nodes
    → (allocate env fuel numa_node s ≡ undefined)
      × (allocate_on_device env fuel numa_node device_id s ≡ undefined)
unfolding numa_tools_of numa_node_index allocate allocate_on_device
allocate_unavailable env t fuel numa_node device_id s d f e =
    let index : numa_node_index env s.world numa_node ≡ none =
      index_empty env.numa.local_nodes
        (find env.numa.local_nodes numa_node == size env.numa.local_nodes)
        (env.numa.local_node s.world) (find env.numa.local_nodes numa_node)
        (e ∙ ap (λ x. x.local_nodes) (sym (some_inj nothing d f))) in
    (rw (index, allocate) refl, rw (index, allocate_on_device) refl)
