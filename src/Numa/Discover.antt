-- ===== src/Numa/Discover.antt =====
-- `discover_nodes` of src/numa.cpp: which nodes have cpus, and which are local to the process.
pub mod Vectors
pub mod Laws
use hwmalloc.Base.{
  Option, none, some, sub_size, ℕ, zero, suc, Bool, List, [], ◌∷◌, ltb, ◌==◌, if◌then◌else◌,
}
use hwmalloc.Numa.Nodes.{NodeMap, empty, node_map, sort}

-- What libnuma tells: `get_nprocs`, `numa_node_of_cpu`, the cpus that the task may run on, the size
-- and the bits of `numa_all_nodes_ptr`, and the weight of the cpu mask of a node. `node_of_cpu` is `none` where `numa_node_of_cpu` returns -1.
pub record Topology : Type 0 where
  pub nprocs : ℕ
  pub node_of_cpu : ℕ → Option ℕ
  pub task_cpu : ℕ → Bool
  pub num_nodes : ℕ
  pub all_nodes : ℕ → Bool
  pub cpus_of_node : ℕ → ℕ

-- `m_cpu_to_node` and the three maps.
pub record Discovered : Type 0 where
  pub cpu_to_node : List ℕ
  pub host_nodes : NodeMap
  pub local_nodes : NodeMap
  pub device_nodes : NodeMap

-- std::unique on a vector: runs of equal members are cut down to one.
unfoldable pub unique_after : ℕ → List ℕ → List ℕ
unique_after x [] = []
unique_after x (y ∷ ys) = let rest = unique_after y ys in if x == y then rest else y ∷ rest

unfoldable pub unique : List ℕ → List ℕ
unique [] = []
unique (x ∷ xs) = x ∷ unique_after x xs

-- The conversion of an `int`, a node or -1, to an index.
abbrev pub size_of_node : Option ℕ → ℕ
size_of_node none = sub_size 0 1
size_of_node (some n) = n

module _ (t : Topology) where
  abbrev pub node_at : ℕ → ℕ
  node_at cpu = size_of_node (t.node_of_cpu cpu)

  -- The loop over the cpus, for k cpus from `cpu` on: the node of each, and those pushed to
  -- `local_nodes_`.
  unfoldable pub cpu_nodes : ℕ → ℕ → List ℕ
  cpu_nodes cpu zero = []
  cpu_nodes cpu (suc k) = node_at cpu ∷ cpu_nodes (suc cpu) k

  unfoldable pub task_nodes : ℕ → ℕ → List ℕ
  task_nodes cpu zero = []
  task_nodes cpu (suc k) =
      let rest = task_nodes (suc cpu) k in if t.task_cpu cpu then node_at cpu ∷ rest else rest

  -- The loop over the nodes, for k nodes from i on: those pushed to `host_nodes_`, and those pushed
  -- to `device_nodes_`.
  unfoldable pub sort_nodes : ℕ → ℕ → List ℕ × List ℕ
  sort_nodes i zero = ([], [])
  sort_nodes i (suc k) =
      let (hosts, devices) = sort_nodes (suc i) k in
      if t.all_nodes i
      then if ltb 0 (t.cpus_of_node i) then (i ∷ hosts, devices) else (hosts, i ∷ devices)
      else (hosts, devices)

  -- The three maps; the constructor of one may be undefined.
  unfoldable pub discovered :
      List ℕ → Option NodeMap → Option NodeMap → Option NodeMap → Option Discovered
  discovered cpus (some hosts) (some locals) (some devices) = some (record {
    cpu_to_node = cpus;
    host_nodes = hosts;
    local_nodes = locals;
    device_nodes = devices;
  })
  discovered cpus _ _ _ = none

  unfoldable pub discover_nodes : Option Discovered
  discover_nodes =
      discovered (cpu_nodes 0 t.nprocs) (node_map (sort_nodes 0 t.num_nodes).0)
        (node_map (unique (sort (task_nodes 0 t.nprocs)))) (node_map (sort_nodes 0 t.num_nodes).1)

  -- The constructor of `numa_tools`, given what `numa_available` returned, as an error or not. Without
  -- HWMALLOC_NUMA_THROWS the error is printed, and the members stay empty.
  unfoldable pub numa_tools_of : Bool → Option Discovered
  numa_tools_of available =
      if available
      then discover_nodes
      else some (record {
        cpu_to_node = [];
        host_nodes = empty;
        local_nodes = empty;
        device_nodes = empty;
      })
