-- ===== src/Numa/Discover/Laws.antt =====
-- What `discover_nodes` of src/numa.cpp finds.
use native.Mathlib.Decide.{ℕ_discrete}
use hwmalloc.Base.{
  refl, some, size_mod, ℕ, zero, suc, ◌+◌, ◌≤◌, ◌<◌, ◌≡◌, ◌↔◌, inl, inr, sym, ap, ◌∙◌, true, List,
  arith, ltb, lt→ltb, le→ltb, ltb→lt,
}
use hwmalloc.Numa.Nodes.{NodeMap, sort, size, find}
use hwmalloc.Numa.Nodes.Filled.{filled_map}
use hwmalloc.Numa.Nodes.Made.{AllSmall, node_map-filled}
use hwmalloc.Numa.Nodes.Find.{Has, find-filled_map, sort-Has}
use hwmalloc.Numa.Nodes.Absent.{find-absent, Has-dec, sort-Has_inv}
use hwmalloc.Numa.Discover.Vectors.{if-Has, Has-if, unique-Has, pick-Has, Has-pick}
use hwmalloc.Numa.Discover.{
  cpu_nodes, Discovered, discovered, node_at, size_of_node, Topology, unique, task_nodes,
  sort_nodes, discover_nodes,
}

-- The iterator is not the end.
abbrev pub IsIn : ℕ → NodeMap → Type 0
IsIn n m = find m n < size m

-- A node is in a map just when it is in the vector that the map is made of.
IsIn-filled_map : (n : ℕ) (ns : List ℕ) → IsIn n (filled_map ns) ↔ Has n ns
IsIn-filled_map n ns = (
  (λ h. elim (Has-dec n ns) [
    | yes has ↦ has
    | no absent ↦ absurd (omega (arith, h, find-absent n ns absent))
  ]),
  (λ has. (find-filled_map n ns has).0),
)

some_inj : {A : Type 0} (x y : A) → some x ≡ some y → x ≡ y
some_inj x y e = cc

module _ (t : Topology) where
  -- A node that the process can use, with cpus or without; a node of a cpu that the task may run on.
  abbrev pub IsHost : ℕ → Type 0
  IsHost n = (n < t.num_nodes) × (t.all_nodes n ≡ true) × (1 ≤ t.cpus_of_node n)

  abbrev pub IsDevice : ℕ → Type 0
  IsDevice n = (n < t.num_nodes) × (t.all_nodes n ≡ true) × (t.cpus_of_node n ≡ 0)

  abbrev pub IsLocal : ℕ → Type 0
  IsLocal n = (cpu : ℕ) × (cpu < t.nprocs) × (t.task_cpu cpu ≡ true) × (t.node_of_cpu cpu ≡ some n)

  task_nodes-Has :
      (n cpu k : ℕ)
      → Has n (task_nodes t cpu k)
      → (c : ℕ) × (c < cpu + k) × (t.task_cpu c ≡ true) × (node_at t c ≡ n)
  unfolding task_nodes
  task_nodes-Has n cpu zero h = absurd h
  task_nodes-Has n cpu (suc k) h =
      elim (if-Has n (node_at t cpu) (t.task_cpu cpu) (task_nodes t (suc cpu) k) h) [
        | inl (e, f) ↦ (cpu, omega arith, e, f)
        | inr later ↦
            let (c, lt, e, f) = task_nodes-Has n (suc cpu) k later in (c, omega (arith, lt), e, f)
      ]

  Has-task_nodes :
      (n cpu k c : ℕ)
      → cpu ≤ c
      → c < cpu + k
      → t.task_cpu c ≡ true
      → node_at t c ≡ n
      → Has n (task_nodes t cpu k)
  unfolding task_nodes
  Has-task_nodes n cpu zero c lo hi e f = absurd (omega arith)
  Has-task_nodes n cpu (suc k) c lo hi e f =
      Has-if n (node_at t cpu) (t.task_cpu cpu) (task_nodes t (suc cpu) k)
        (elim (ℕ_discrete cpu c) [
          | yes here ↦ inl (ap t.task_cpu here ∙ e, ap (node_at t) here ∙ f)
          | no other ↦
              inr (Has-task_nodes n (suc cpu) k c (omega (arith, lo, other)) (omega arith) e f)
        ])

  -- The vectors that the loop over the nodes has pushed to.
  sort_nodes-Has :
      (n i k : ℕ)
      → (Has n (sort_nodes t i k).0 → (n < i + k) × (t.all_nodes n ≡ true) × (1 ≤ t.cpus_of_node n))
        × (Has n (sort_nodes t i k).1
            → (n < i + k) × (t.all_nodes n ≡ true) × (t.cpus_of_node n ≡ 0))
  unfolding sort_nodes
  sort_nodes-Has n i zero = ((λ h. absurd h), (λ h. absurd h))
  sort_nodes-Has n i (suc k) =
      let (hosts, devices) = sort_nodes-Has n (suc i) k in
      let (p, q) =
        pick-Has n i (t.all_nodes i) (ltb 0 (t.cpus_of_node i)) (sort_nodes t (suc i) k) in
      (
        (λ h. elim (p h) [
          | inl (a, c, e) ↦ (
            omega (arith, e),
            ap t.all_nodes (sym e) ∙ a,
            omega (arith, ltb→lt _ _ c, ap t.cpus_of_node e),
          )
          | inr later ↦ let (lt, a, c) = hosts later in (omega (arith, lt), a, c)
        ]),
        (λ h. elim (q h) [
          | inl (a, c, e) ↦
              (omega (arith, e), ap t.all_nodes (sym e) ∙ a, ground (arith, c, ap t.cpus_of_node e))
          | inr later ↦ let (lt, a, c) = devices later in (omega (arith, lt), a, c)
        ]),
      )

  Has-sort_nodes :
      (n i k : ℕ)
      → i ≤ n
      → n < i + k
      → t.all_nodes n ≡ true
      → (1 ≤ t.cpus_of_node n → Has n (sort_nodes t i k).0)
        × (t.cpus_of_node n ≡ 0 → Has n (sort_nodes t i k).1)
  unfolding sort_nodes
  Has-sort_nodes n i zero lo hi a = absurd (omega arith)
  Has-sort_nodes n i (suc k) lo hi a =
      let (p, q) =
        Has-pick n i (t.all_nodes i) (ltb 0 (t.cpus_of_node i)) (sort_nodes t (suc i) k) in
      elim (ℕ_discrete i n) [
        | yes here ↦ (
          (λ c. p (
              inl (
                ap t.all_nodes here ∙ a,
                lt→ltb _ _ (omega (arith, c, ap t.cpus_of_node here)),
                here,
              ))),
          (λ c. q (
              inl (
                ap t.all_nodes here ∙ a,
                le→ltb _ _ (omega (arith, c, ap t.cpus_of_node here)),
                here,
              ))),
        )
        | no other ↦
            let (hosts, devices) =
              Has-sort_nodes n (suc i) k (omega (arith, lo, other)) (omega arith) a in
            ((λ c. p (inr (hosts c))), (λ c. q (inr (devices c))))
      ]

  -- What the maps are made of, when no cpu of the task lacks its node.
  abbrev pub Known : Type 0
  Known =
      (cpu : ℕ)
      → cpu < t.nprocs
      → t.task_cpu cpu ≡ true
      → (n : ℕ) × (t.node_of_cpu cpu ≡ some n) × (n + 1 < size_mod)

  sort_nodes-AllSmall :
      t.num_nodes < size_mod
      → AllSmall (sort_nodes t 0 t.num_nodes).0 × AllSmall (sort_nodes t 0 t.num_nodes).1
  sort_nodes-AllSmall few = (
    (λ k has. omega (arith, ((sort_nodes-Has k 0 t.num_nodes).0 has).0, few)),
    (λ k has. omega (arith, ((sort_nodes-Has k 0 t.num_nodes).1 has).0, few)),
  )

  -- The node of a cpu of the task.
  node_known :
      (c n : ℕ)
      → Known
      → c < t.nprocs
      → t.task_cpu c ≡ true
      → node_at t c ≡ n
      → (t.node_of_cpu c ≡ some n) × (n + 1 < size_mod)
  node_known c n known lt e f =
      let (m, g, small) = known c lt e in
      let mn : m ≡ n = ap size_of_node (sym g) ∙ f in (g ∙ ap some mn, omega (arith, small, mn))

  task_nodes-AllSmall : Known → AllSmall (unique (sort (task_nodes t 0 t.nprocs)))
  task_nodes-AllSmall known k has =
      let cpus = task_nodes t 0 t.nprocs in
      let (c, lt, e, f) =
        task_nodes-Has k 0 t.nprocs (sort-Has_inv k cpus ((unique-Has k (sort cpus)).0 has)) in
      (node_known c k known (omega (arith, lt)) e f).1

  IsIn-hosts :
      (n : ℕ)
      → (IsIn n (filled_map (sort_nodes t 0 t.num_nodes).0) ↔ IsHost n)
        × (IsIn n (filled_map (sort_nodes t 0 t.num_nodes).1) ↔ IsDevice n)
  IsIn-hosts n =
      let nodes = sort_nodes t 0 t.num_nodes in
      let (hosts, devices) = sort_nodes-Has n 0 t.num_nodes in
      let host = IsIn-filled_map n nodes.0 in
      let device = IsIn-filled_map n nodes.1 in
      (
        (
          (λ h. let (lt, a, c) = hosts (host.0 h) in (omega (arith, lt), a, c)),
          (λ (lt, a, c).
              host.1 ((Has-sort_nodes n 0 t.num_nodes (omega arith) (omega (arith, lt)) a).0 c)),
        ),
        (
          (λ h. let (lt, a, c) = devices (device.0 h) in (omega (arith, lt), a, c)),
          (λ (lt, a, c).
              device.1 ((Has-sort_nodes n 0 t.num_nodes (omega arith) (omega (arith, lt)) a).1 c)),
        ),
      )

  IsIn-locals :
      (n : ℕ) → Known → IsIn n (filled_map (unique (sort (task_nodes t 0 t.nprocs)))) ↔ IsLocal n
  IsIn-locals n known =
      let cpus = task_nodes t 0 t.nprocs in
      let local = IsIn-filled_map n (unique (sort cpus)) in
      let once = unique-Has n (sort cpus) in
      (
        (λ h.
            let (c, lt, e, f) =
              task_nodes-Has n 0 t.nprocs (sort-Has_inv n cpus (once.0 (local.0 h))) in
            (c, omega (arith, lt), e, (node_known c n known (omega (arith, lt)) e f).0)),
        (λ (c, lt, e, f). local.1 (
            once.1 (
              sort-Has n cpus (
                Has-task_nodes n 0 t.nprocs c (omega arith) (omega (arith, lt)) e
                  (ap size_of_node f))))),
      )

  -- If libnuma tells the node of each cpu that the task may run on, `discover_nodes` is defined: the map
  -- of host nodes has just the nodes that the process can use and that have cpus, the map of device
  -- nodes just those that have none, and the map of local nodes just the nodes of the cpus that the
  -- task may run on. The numbers of nodes are in the range of a `std::size_t`.
  pub discover_nodes_lem :
      Known
      → t.num_nodes < size_mod
      → (d : Discovered) × (discover_nodes t ≡ some d)
        × ((n : ℕ)
            → (IsIn n d.host_nodes ↔ IsHost n)
              × (IsIn n d.device_nodes ↔ IsDevice n)
              × (IsIn n d.local_nodes ↔ IsLocal n))
  unfolding discover_nodes discovered
  discover_nodes_lem known few =
      let nodes = sort_nodes t 0 t.num_nodes in
      let (hosts, devices) = sort_nodes-AllSmall few in
      (
        record {
          cpu_to_node = cpu_nodes t 0 t.nprocs;
          host_nodes = filled_map nodes.0;
          local_nodes = filled_map (unique (sort (task_nodes t 0 t.nprocs)));
          device_nodes = filled_map nodes.1;
        },
        rw (node_map-filled nodes.0 hosts, discovered)
            (rw (node_map-filled _ (task_nodes-AllSmall known), discovered)
              (rw (node_map-filled nodes.1 devices, discovered) refl)),
        (λ n. ((IsIn-hosts n).0, (IsIn-hosts n).1, IsIn-locals n known)),
      )
