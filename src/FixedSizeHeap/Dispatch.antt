-- ===== src/FixedSizeHeap/Dispatch.antt =====
-- Which pool of include/hwmalloc/detail/fixed_size_heap.hpp serves a node.
use hwmalloc.Base.{ℕ, ◌≡◌, refl, sym, subst, true, false, some, List, arith, eq→==, ne→==, ◌==◌}
use hwmalloc.Numa.Nodes.{node_map, size, find}
use hwmalloc.Numa.Nodes.Made.{node_map-inv}
use hwmalloc.Numa.Nodes.Find.{Has, find-filled_map}
use hwmalloc.Numa.Nodes.Absent.{Has-dec, find-absent}
use hwmalloc.Platform.{Platform}
use hwmalloc.FixedSizeHeap.{second_at, numa_node_index}

-- The node that a request for node n is served on: n itself if it is a local one.
abbrev pub served_on : {A : Type 0} → Dec A → ℕ → ℕ → ℕ
served_on (yes h) n local = n
served_on (no h) n local = local

-- The node of the caller is defined, and is a local one.
abbrev pub OnLocal : {W R H S : Type 0} → Platform W R H S → List ℕ → W → Type 0
OnLocal env ns w = (l : ℕ) × (env.numa.local_node w ≡ some l) × Has l ns

module _ {W R H S : Type 0} (env : Platform W R H S) (ns : List ℕ)
    (map : node_map ns ≡ some env.numa.local_nodes) where
  index_of :
      (n : ℕ)
      → Has n ns
      → second_at env.numa.local_nodes (find env.numa.local_nodes n)
        ≡ some (find env.numa.local_nodes n)
  unfolding second_at
  index_of n h =
      subst (λ m. second_at m (find m n) ≡ some (find m n))
        (sym (node_map-inv ns env.numa.local_nodes map))
        (rw ((find-filled_map n ns h).1, second_at) refl)

  found : (n : ℕ) → Has n ns → (find env.numa.local_nodes n == size env.numa.local_nodes) ≡ false
  found n h =
      subst (λ m. (find m n == size m) ≡ false) (sym (node_map-inv ns env.numa.local_nodes map))
        (ne→== _ _ (λ e. omega (arith, e, (find-filled_map n ns h).0)))

  not_found :
      (n : ℕ) → (Has n ns → ⊥) → (find env.numa.local_nodes n == size env.numa.local_nodes) ≡ true
  not_found n h =
      subst (λ m. (find m n == size m) ≡ true) (sym (node_map-inv ns env.numa.local_nodes map))
        (eq→== _ _ (find-absent n ns h))

  -- The index is that of the node of the request if it is a local one, and else that of the node
  -- the caller runs on.
  pub numa_node_index_lem :
      (w : W) (n local : ℕ)
      → env.numa.local_node w ≡ some local
      → Has local ns
      → numa_node_index env w n
        ≡ some (find env.numa.local_nodes (served_on (Has-dec n ns) n local))
  unfolding numa_node_index
  numa_node_index_lem w n local on_cpu h =
      elim (Has-dec n ns)
        as (λ d. numa_node_index env w n ≡ some (find env.numa.local_nodes (served_on d n local))) [
          | yes has ↦ rw (found n has, numa_node_index) (index_of n has)
          | no absent ↦
              rw (not_found n absent, numa_node_index)
                (rw (on_cpu, numa_node_index) (index_of local h))
        ]
