-- ===== src/Numa.antt =====
-- include/hwmalloc/numa.hpp, src/numa.cpp and src/numa_stub.cpp: the map of numa nodes to indices,
-- and page-wise allocation on a node with its fall-backs to malloc.
pub mod Nodes
pub mod Tools
pub mod Discover
use hwmalloc.Base.{Option, ℕ, Bool, true, not, ◌==◌}
use Nodes.{NodeMap}

-- `numa_tools::allocation`; a pointer is its address, and `nullptr` is 0.
pub record Allocation : Type 0 where
  pub ptr : ℕ
  pub size : ℕ
  pub node : ℕ
  pub use_numa_free : Bool

-- The default member initialisers.
abbrev pub no_allocation : Allocation
no_allocation = record { ptr = 0; size = 0; node = 0; use_numa_free = true }

-- `operator bool`
abbrev pub is_set : Allocation → Bool
is_set a = not (a.ptr == 0)

-- What the heap uses of `numa_tools`; `none` is undefined behaviour. `W` is the state of the operating
-- system.
pub record Numa (W : Type 0) : Type 0 where
  pub page_size : ℕ
  pub local_nodes : NodeMap
  pub local_node : W → Option ℕ
  pub allocate : W → ℕ → ℕ → Option (Allocation × W)
  pub free : W → Allocation → W
