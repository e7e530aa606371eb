-- ===== src/Numa/Tools.antt =====
-- The two implementations of `numa_tools`: src/numa.cpp over libnuma, and src/numa_stub.cpp.
pub mod Sized
use hwmalloc.Base.{
  ℕ, Bool, true, false, List, [], ◌∷◌, ltb, ◌==◌, if◌then◌else◌, get_elem?, Option, none, some,
  mul_size,
}
use hwmalloc.Numa.{Allocation, no_allocation, is_set, Numa}
use hwmalloc.Numa.Nodes.{empty, NodeMap, node_map, count}

-- The system calls that are used: libc, the scheduler, and libnuma. An address of 0 is a failure.
pub record Os (W : Type 0) : Type 0 where
  pub page_size : ℕ
  pub sched_getcpu : W → ℕ
  pub calloc : W → ℕ → ℕ → ℕ × W
  pub malloc : W → ℕ → ℕ × W
  pub free : W → ℕ → W
  pub get_mempolicy : W → ℕ → ℕ
  pub numa_alloc_onnode : W → ℕ → ℕ → ℕ × W
  pub numa_free : W → ℕ → ℕ → W

-- The map of one node is always defined.
abbrev pub or_empty : Option NodeMap → NodeMap
or_empty none = empty
or_empty (some m) = m

module _ {W : Type 0} (os : Os W) where
  -- src/numa.cpp: the node in whose memory an address lies.
  unfoldable pub get_node : W → ℕ → ℕ
  get_node w ptr = os.get_mempolicy w ptr

  unfoldable pub from_calloc : (W → ℕ → ℕ) → ℕ → ℕ × W → Allocation × W
  from_calloc node_of num_pages (ptr, w) = if ptr == 0 then (no_allocation, w) else (
    record {
      ptr = ptr;
      size = mul_size num_pages os.page_size;
      node = node_of w ptr;
      use_numa_free = false;
    },
    w,
  )

  -- `allocate_malloc`; `get_node` differs in the two files.
  unfoldable pub allocate_malloc : (W → ℕ → ℕ) → W → ℕ → Allocation × W
  unfolding from_calloc
  allocate_malloc node_of w num_pages =
      from_calloc node_of num_pages (os.calloc w num_pages os.page_size)

  -- `free` of src/numa.cpp.
  unfoldable pub free : W → Allocation → W
  free w a =
      if is_set a
      then if a.use_numa_free then os.numa_free w a.ptr a.size else os.free w a.ptr
      else w

  unfoldable pub from_numa_alloc : ℕ → ℕ → ℕ × W → Allocation × W
  unfolding allocate_malloc get_node
  from_numa_alloc num_pages node (ptr, w) =
      if ptr == 0 then allocate_malloc get_node w num_pages else (
        record {
          ptr = ptr;
          size = mul_size num_pages os.page_size;
          node = node;
          use_numa_free = true;
        },
        w,
      )

  -- `m_cpu_to_node` and `m_local_nodes`. The cpu of the caller may be one that was not
  -- there at discovery: to read behind the end of the vector is undefined (`none`).
  module _ (cpu_to_node : List ℕ) (local_nodes : NodeMap) where
    unfoldable pub local_node : W → Option ℕ
    local_node w = get_elem? cpu_to_node (os.sched_getcpu w)

    unfoldable pub can_allocate_on : ℕ → Bool
    can_allocate_on node = ltb 0 (count local_nodes node)

    -- `allocate(num_pages, node)`, HWMALLOC_NUMA_FOR_LOCAL not being defined; some pages, on a node
    -- that is the local one or not.
    unfoldable pub allocate_from : ℕ → W → ℕ → ℕ → Allocation × W
    allocate_from local w num_pages node =
        if node == local
        then allocate_malloc get_node w num_pages
        else if can_allocate_on node
        then from_numa_alloc num_pages node
            (os.numa_alloc_onnode w (mul_size num_pages os.page_size) node)
        else allocate_malloc get_node w num_pages

    unfoldable pub allocate : W → ℕ → ℕ → Option (Allocation × W)
    allocate w num_pages node =
        if num_pages == 0 then some (no_allocation, w) else elim (local_node w) [
          | none ↦ none
          | some local ↦ some (allocate_from local w num_pages node)
        ]

    abbrev pub numa_tools : Numa W
    numa_tools = record {
      page_size = os.page_size;
      local_nodes = local_nodes;
      local_node = local_node;
      allocate = allocate;
      free = free;
    }

  -- src/numa_stub.cpp: one node, and malloc for everything.
  unfoldable pub stub_allocate : W → ℕ → ℕ → Option (Allocation × W)
  unfolding allocate_malloc
  stub_allocate w num_pages node =
      if num_pages == 0
      then some (no_allocation, w)
      else some (allocate_malloc (λ w ptr. 0) w num_pages)

  unfoldable pub stub_free : W → Allocation → W
  stub_free w a = if is_set a then os.free w a.ptr else w

  abbrev pub stub : Numa W
  stub = record {
    page_size = os.page_size;
    local_nodes = or_empty (node_map (0 ∷ []));
    local_node = λ w. some 0;
    allocate = stub_allocate;
    free = stub_free;
  }
