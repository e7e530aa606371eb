-- ===== src/Tests/Nodes.antt =====
-- A system with two numa nodes, as src/numa.cpp sees it, and a fixed-size heap on it.
use hwmalloc.Base.{
  none, arith, ℕ, ◌/◌, ◌↔◌, ltb, ◌==◌, if◌then◌else◌, true, ◌≡◌, inl, inr, refl, false, some, List,
  [], ◌∷◌,
}
use hwmalloc.Numa.Nodes.{node_map, sort, insert_sorted, build, back, index_nodes, empty, NodeMap}
use hwmalloc.Numa.{Allocation}
use hwmalloc.Numa.Nodes.Absent.{Has-dec}
use hwmalloc.Numa.Discover.{Topology, Discovered, discover_nodes, numa_tools_of}
use hwmalloc.Numa.Discover.Laws.{IsIn, IsHost, IsDevice, IsLocal, discover_nodes_lem, Known}
use hwmalloc.Numa.Tools.{allocate, local_node, numa_tools, or_empty}
use hwmalloc.Numa.Tools.Sized.{Origin, allocate-Origin}
use hwmalloc.Platform.{Block, Platform}
use hwmalloc.FixedSizeHeap
use hwmalloc.FixedSizeHeap.{State, make_fixed_size_heap, numa_node_index}
use hwmalloc.FixedSizeHeap.Dispatch.{served_on}
use hwmalloc.Outcome.{undefined}
use hwmalloc.FixedSizeHeap.Unavailable.{allocate_unavailable}
use hwmalloc.FixedSizeHeap.Pools.{Serves, numa_node_index-Serves}
use hwmalloc.Tests.Setting.{ListStack, bump, platform}

abbrev nodes : List ℕ
nodes = 3 ∷ 0 ∷ []

abbrev local_map : NodeMap
local_map = or_empty (node_map nodes)

allocate-Origin_example :
    (r : Allocation × ℕ) × (allocate bump (0 ∷ []) local_map 4096 2 3 ≡ some r)
    × Origin bump 2 3 r.0
allocate-Origin_example = allocate-Origin bump (0 ∷ []) local_map 4096 2 3 (omega arith)

-- The largest number: the constructor is undefined.
largest_node : node_map (18446744073709551615 ∷ []) ≡ none
unfolding node_map sort insert_sorted build back index_nodes
largest_node = refl

-- Two nodes with two cpus each, and one without; the task may run on the cpus 2 and 3.
abbrev machine : Topology
machine = record {
  nprocs = 4;
  node_of_cpu = λ cpu. some (cpu / 2);
  task_cpu = λ cpu. ltb 1 cpu;
  num_nodes = 3;
  all_nodes = λ n. true;
  cpus_of_node = λ n. if n == 2 then 0 else 2;
}

machine-Known : Known machine
machine-Known cpu lt e = (cpu / 2, refl, omega (arith, lt))

discover_nodes_lem_example :
    (d : Discovered) × (discover_nodes machine ≡ some d)
    × ((n : ℕ)
        → (IsIn n d.host_nodes ↔ IsHost machine n)
          × (IsIn n d.device_nodes ↔ IsDevice machine n)
          × (IsIn n d.local_nodes ↔ IsLocal machine n))
discover_nodes_lem_example = discover_nodes_lem machine machine-Known (omega arith)

abbrev env : Platform ℕ ℕ ℕ (ListStack (Block ℕ))
env = record (platform bump) { numa = numa_tools bump (0 ∷ []) local_map }

local_map_lem : node_map nodes ≡ some local_map
unfolding node_map sort insert_sorted build back index_nodes
local_map_lem = refl

local_lem : env.numa.local_node 4096 ≡ some 0
unfolding local_node
local_lem = refl

numa_node_index-Serves_example :
    (i : ℕ) × (numa_node_index env 4096 3 ≡ some i)
    × Serves 16 64
        (served_on (Has-dec 3 nodes) 3 0)
        i
        (make_fixed_size_heap env 4096 1 16 64 false 1).heap.pools
numa_node_index-Serves_example =
    numa_node_index-Serves env nodes 4096 1 16 64 3 0 false 1 local_map_lem local_lem
      (inr (inl refl))

-- The same system where libnuma is not available.
abbrev nothing : Discovered
nothing = record { cpu_to_node = []; host_nodes = empty; local_nodes = empty; device_nodes = empty }

abbrev without_numa : Platform ℕ ℕ ℕ (ListStack (Block ℕ))
without_numa = record (platform bump) { numa = numa_tools bump [] nothing.local_nodes }

abbrev heap_without_numa : State ℕ ℕ (ListStack (Block ℕ))
heap_without_numa = make_fixed_size_heap without_numa 4096 2 64 4096 false 1

unavailable_lem : numa_tools_of machine false ≡ some nothing
unfolding numa_tools_of
unavailable_lem = refl

allocate_unavailable_example :
    (FixedSizeHeap.allocate without_numa 2 0 heap_without_numa ≡ undefined)
    × (FixedSizeHeap.allocate_on_device without_numa 2 0 0 heap_without_numa ≡ undefined)
allocate_unavailable_example =
    allocate_unavailable without_numa machine 2 0 0 heap_without_numa nothing unavailable_lem refl
