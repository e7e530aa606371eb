-- ===== src/FixedSizeHeap/Pools.antt =====
-- The pools that the constructor of include/hwmalloc/detail/fixed_size_heap.hpp makes.
use native.Mathlib.Decide.{ℕ_discrete}
use hwmalloc.Base.{
  ℕ, zero, suc, ◌<◌, ◌≡◌, ◌≢◌, ◌⊎◌, inl, inr, refl, sym, ap, subst, ◌∙◌, Bool, false, some, List,
  [], ◌∷◌, arith, length, get_elem?, set, length-set, length-replicate, get_elem?-set_self,
  get_elem?-set_ne, Option, none,
}
use hwmalloc.Numa.Nodes.{node_map, size, find}
use hwmalloc.Numa.Nodes.Made.{node_map-inv}
use hwmalloc.Numa.Nodes.Find.{Has, find-filled_map}
use hwmalloc.Numa.Nodes.Absent.{Has-dec}
use hwmalloc.Numa.Nodes.Indexed.{Indexed, filled_map-Indexed}
use hwmalloc.Platform.{Platform}
use hwmalloc.Pool.{Pool, make_pool}
use hwmalloc.FixedSizeHeap.{
  FixedSizeHeap, State, pool_for, add_device_pools, add_pools, no_pools, make_fixed_size_heap,
  numa_node_index,
}
use hwmalloc.FixedSizeHeap.Dispatch.{served_on, numa_node_index_lem}

-- The element i of the vector is a pool of the host for node n, with the sizes of the heap.
pub record Serves {R S : Type 0} (block segment n i : ℕ) (ps : List (Option (Pool R S)))
    : Type 0 where
  pub pool : Pool R S
  pub here : get_elem? ps i ≡ some (some pool)
  pub node : pool.numa_node ≡ n
  pub block_size : pool.block_size ≡ block
  pub segment_size : pool.segment_size ≡ segment
  pub host : pool.allocate_on_device ≡ false

-- What the inner loop leaves alone.
abbrev Alike : {R S : Type 0} → FixedSizeHeap R S → FixedSizeHeap R S → Type 0
Alike h k = (k.pools ≡ h.pools) × (k.block_size ≡ h.block_size) × (k.segment_size ≡ h.segment_size)

entry_after :
    (es : List (ℕ × ℕ)) (k j n i : ℕ)
    → ((pos : ℕ) × (get_elem? ((k, j) ∷ es) pos ≡ some (n, i)))
    → j ≢ i
    → (pos : ℕ) × (get_elem? es pos ≡ some (n, i))
entry_after es k j n i (zero, e) ne = absurd (ne cc)
entry_after es k j n i (suc pos, e) ne = (pos, e)

-- Two entries at the same position are of the same node.
node_of :
    (k k' i j pos : ℕ) (es : List (ℕ × ℕ))
    → get_elem? es i ≡ some (k, i)
    → get_elem? es pos ≡ some (k', j)
    → pos ≡ i
    → j ≡ i
    → k' ≡ k
node_of k k' i j pos es at e there same =
    let e' = subst (λ q. get_elem? es q ≡ some (k', j)) there e in
    let both : ◌≡◌ {A = Option (ℕ × ℕ)} (some (k', j)) (some (k, i)) = sym e' ∙ at in cc

served_on-Has :
    (n local : ℕ) (ns : List ℕ) (d : Dec (Has n ns)) → Has local ns → Has (served_on d n local) ns
served_on-Has n local ns (yes h) l = h
served_on-Has n local ns (no h) l = l

module _ {W R H S : Type 0} (env : Platform W R H S) where
  add_device_pools-Alike :
      (n i j rest : ℕ) (s : State W R S) → Alike s.heap (add_device_pools env n i j rest s).heap
  unfolding add_device_pools
  add_device_pools-Alike n i j zero s = (refl, refl, refl)
  add_device_pools-Alike n i j (suc rest) s = add_device_pools-Alike n i (suc j) rest _

  -- One round of the outer loop.
  abbrev round : ℕ → ℕ → State W R S → State W R S
  unfolding pool_for
  round n i s =
      let h = s.heap in
      add_device_pools env n i 0 h.num_devices (record s {
        next_object = suc s.next_object;
        heap = record h { pools = set h.pools i (some (pool_for env s.next_object h n)) };
      })

  round-Alike :
      (n i : ℕ) (s : State W R S)
      → ((round n i s).heap.pools ≡ set s.heap.pools i (some (pool_for env s.next_object s.heap n)))
        × ((round n i s).heap.block_size ≡ s.heap.block_size)
        × ((round n i s).heap.segment_size ≡ s.heap.segment_size)
  unfolding round
  round-Alike n i s = add_device_pools-Alike n i 0 s.heap.num_devices _

  made :
      (block segment n i k j : ℕ) (s : State W R S)
      → s.heap.block_size ≡ block
      → s.heap.segment_size ≡ segment
      → i < length s.heap.pools
      → j ≡ i
      → k ≡ n
      → Serves block segment n i (round k j s).heap.pools
  unfolding pool_for make_pool
  made block segment n i k j s b g lt ji kn =
      let p = pool_for env s.next_object s.heap k in
      record {
        pool = p;
        here =
            ap (λ ps. get_elem? ps i) (round-Alike k j s).0
            ∙ subst (λ a. get_elem? (set s.heap.pools a (some p)) i ≡ some (some p)) (sym ji)
                (get_elem?-set_self s.heap.pools i (some p) lt);
        node = kn;
        block_size = b;
        segment_size = g;
        host = refl;
      }

  kept :
      (block segment n i k j : ℕ) (s : State W R S)
      → j ≢ i
      → Serves block segment n i s.heap.pools
      → Serves block segment n i (round k j s).heap.pools
  kept block segment n i k j s ne v = record {
    pool = v.pool;
    here =
        ap (λ ps. get_elem? ps i) (round-Alike k j s).0
        ∙ get_elem?-set_ne s.heap.pools j i _ ne
        ∙ v.here;
    node = v.node;
    block_size = v.block_size;
    segment_size = v.segment_size;
    host = v.host;
  }

  -- If index i belongs to node n, and an entry for it is still to come or was there, its pool is
  -- there in the end.
  add_pools-Serves :
      (block segment n i : ℕ) (es : List (ℕ × ℕ)) (s : State W R S)
      → s.heap.block_size ≡ block
      → s.heap.segment_size ≡ segment
      → i < length s.heap.pools
      → ((pos k j : ℕ) → get_elem? es pos ≡ some (k, j) → j ≡ i → k ≡ n)
      → ((pos : ℕ) × (get_elem? es pos ≡ some (n, i))) ⊎ Serves block segment n i s.heap.pools
      → Serves block segment n i (add_pools env es s).heap.pools
  unfolding add_pools round
  add_pools-Serves block segment n i [] s b g lt own (inl (pos, e)) = cc
  add_pools-Serves block segment n i [] s b g lt own (inr v) = v
  add_pools-Serves block segment n i ((k, j) ∷ es) s b g lt own h =
      let (ps, bs, ss) = round-Alike k j s in
      add_pools-Serves block segment n i es (round k j s) (bs ∙ b) (ss ∙ g)
        (omega (
          arith,
          ap length ps,
          length-set s.heap.pools j (some (pool_for env s.next_object s.heap k)),
          lt,
        ))
        (λ pos k' j' e. own (suc pos) k' j' e)
        (elim (ℕ_discrete j i) [
          | yes same ↦ inr (made block segment n i k j s b g lt same (own 0 k j refl same))
          | no other ↦ elim h [
            | inl entry ↦ inl (entry_after es k j n i entry other)
            | inr v ↦ inr (kept block segment n i k j s other v)
          ]
        ])

  -- The index for a request is that of an entry, whose node serves the request.
  pub numa_node_index-at :
      (ns : List ℕ) (w : W) (n local : ℕ)
      → node_map ns ≡ some env.numa.local_nodes
      → env.numa.local_node w ≡ some local
      → Has local ns
      → (i : ℕ) × (numa_node_index env w n ≡ some i)
        × (i < size env.numa.local_nodes)
        × (get_elem? env.numa.local_nodes.nodes i ≡ some (served_on (Has-dec n ns) n local, i))
  numa_node_index-at ns w n local map on_cpu has_local =
      let k = served_on (Has-dec n ns) n local in
      let has = served_on-Has n local ns (Has-dec n ns) has_local in
      let (lt, at) =
        subst (λ m. (find m k < size m) × (get_elem? m.nodes (find m k) ≡ some (k, find m k)))
          (sym (node_map-inv ns env.numa.local_nodes map)) (find-filled_map k ns has) in
      (
        find env.numa.local_nodes k,
        numa_node_index_lem env ns map w n local on_cpu has_local,
        lt,
        at,
      )

  -- For every node, a request is served from a pool of the host whose index is in range and whose
  -- pointer is not null: the pool of that node if it is a local one, and else the pool of the node
  -- the caller runs on, which must be a local one; its blocks and segments have the sizes that the
  -- constructor was given.
  pub numa_node_index-Serves :
      (ns : List ℕ) (w : W) (next block segment n local : ℕ) (never_free : Bool) (reserve : ℕ)
      → node_map ns ≡ some env.numa.local_nodes
      → env.numa.local_node w ≡ some local
      → Has local ns
      → (i : ℕ) × (numa_node_index env w n ≡ some i)
        × Serves block segment
            (served_on (Has-dec n ns) n local)
            i
            (make_fixed_size_heap env w next block segment never_free reserve).heap.pools
  unfolding make_fixed_size_heap no_pools
  numa_node_index-Serves ns w next block segment n local never_free reserve map on_cpu has_local =
      let k = served_on (Has-dec n ns) n local in
      let (i, index, lt, at) = numa_node_index-at ns w n local map on_cpu has_local in
      let indexed =
        subst (λ m. Indexed m.nodes) (sym (node_map-inv ns env.numa.local_nodes map))
          (filled_map-Indexed ns) in
      (
        i,
        index,
        add_pools-Serves block segment k i env.numa.local_nodes.nodes _ refl refl
            (omega (
              arith,
              length-replicate {A = Option (Pool R S)} (size env.numa.local_nodes) none,
              lt,
            ))
            (λ pos k' j e same.
              node_of k k' i j pos env.numa.local_nodes.nodes at e (sym (indexed pos k' j e) ∙ same)
                same)
            (inl (i, at)),
      )
