-- ===== src/Numa/Tools/Sized.antt =====
-- Where the memory that `allocate` of src/numa.cpp and src/numa_stub.cpp hands out comes from, and
-- its size.
use hwmalloc.Base.{
  some, ◌<◌, length, get_elem?-of_lt, ℕ, ◌≡◌, ◌⊎◌, inl, inr, refl, List, ◌==◌, mul_size, Bool-cases,
}
use hwmalloc.Numa.{Allocation, Numa}
use hwmalloc.Numa.Nodes.{NodeMap}
use hwmalloc.Numa.{no_allocation}
use hwmalloc.Numa.Tools.{
  allocate_from, Os, get_node, from_calloc, allocate_malloc, free, local_node, can_allocate_on,
  from_numa_alloc, allocate, numa_tools, stub_allocate, stub,
}

-- It is defined, and gives no memory, or as many pages as were asked for.
abbrev pub IsSized : {W : Type 0} → Numa W → Type 0
IsSized {W} n =
    (w : W) (pages node : ℕ)
    → (r : Allocation × W) × (n.allocate w pages node ≡ some r)
      × ((r.0.ptr ≡ 0) ⊎ (r.0.size ≡ mul_size pages n.page_size))

-- Where memory comes from, and where `free` takes it.
pub data Origin {W : Type 0} (os : Os W) (pages node : ℕ) (a : Allocation) : Type 0 where
  nowhere : a.ptr ≡ 0 → Origin os pages node a
  heap :
      (w w' : W)
      → os.calloc w pages os.page_size ≡ (a.ptr, w')
      → ((v : W) → free os v a ≡ os.free v a.ptr)
      → a.size ≡ mul_size pages os.page_size
      → Origin os pages node a
  on_node :
      (w w' : W)
      → os.numa_alloc_onnode w (mul_size pages os.page_size) node ≡ (a.ptr, w')
      → ((v : W) → free os v a ≡ os.numa_free v a.ptr a.size)
      → a.size ≡ mul_size pages os.page_size
      → Origin os pages node a

module _ {W : Type 0} (os : Os W) where
  from_calloc-Origin :
      (node_of : W → ℕ → ℕ) (w : W) (pages node : ℕ) (r : ℕ × W)
      → os.calloc w pages os.page_size ≡ r
      → Origin os pages node (from_calloc os node_of pages r).0
  unfolding from_calloc free
  from_calloc-Origin node_of w pages node (p, w') e = elim (Bool-cases (p == 0)) [
    | inl null ↦ rw null (nowhere refl)
    | inr set ↦ rw set (heap w w' e (λ v. rw set refl) refl)
  ]

  allocate_malloc-Origin :
      (node_of : W → ℕ → ℕ) (w : W) (pages node : ℕ)
      → Origin os pages node (allocate_malloc os node_of w pages).0
  unfolding allocate_malloc
  allocate_malloc-Origin node_of w pages node = from_calloc-Origin node_of w pages node _ refl

  from_numa_alloc-Origin :
      (w : W) (pages node : ℕ) (r : ℕ × W)
      → os.numa_alloc_onnode w (mul_size pages os.page_size) node ≡ r
      → Origin os pages node (from_numa_alloc os pages node r).0
  unfolding from_numa_alloc free
  from_numa_alloc-Origin w pages node (p, w') e = elim (Bool-cases (p == 0)) [
    | inl null ↦ rw null (allocate_malloc-Origin (get_node os) w' pages node)
    | inr set ↦ rw set (on_node w w' e (λ v. rw set refl) refl)
  ]

  allocate_from-Origin :
      (cpu_to_node : List ℕ) (local_nodes : NodeMap) (local : ℕ) (w : W) (pages node : ℕ)
      → Origin os pages node (allocate_from os cpu_to_node local_nodes local w pages node).0
  unfolding allocate_from
  allocate_from-Origin cpu_to_node local_nodes local w pages node =
      elim (Bool-cases (node == local)) [
        | inl here ↦ rw here (allocate_malloc-Origin (get_node os) w pages node)
        | inr there ↦ elim (Bool-cases (can_allocate_on os cpu_to_node local_nodes node)) [
          | inl can ↦ rw (there, can) (from_numa_alloc-Origin w pages node _ refl)
          | inr cannot ↦ rw (there, cannot) (allocate_malloc-Origin (get_node os) w pages node)
        ]
      ]

  -- With libnuma, on a cpu that was there at discovery, `allocate` is defined: memory is as large as was
  -- asked for, or there is none, and `free` calls the function that belongs to the one it came from,
  -- with the same size; whether the node is the local one, another that can be allocated on, or none of
  -- these, and also where libnuma has no memory and malloc is tried.
  pub allocate-Origin :
      (cpu_to_node : List ℕ) (local_nodes : NodeMap) (w : W) (pages node : ℕ)
      → os.sched_getcpu w < length cpu_to_node
      → (r : Allocation × W) × (allocate os cpu_to_node local_nodes w pages node ≡ some r)
        × Origin os pages node r.0
  unfolding allocate local_node
  allocate-Origin cpu_to_node local_nodes w pages node known = elim (Bool-cases (pages == 0)) [
    | inl no_pages ↦ ((no_allocation, w), rw no_pages refl, nowhere refl)
    | inr some_pages ↦
        let (local, e) = get_elem?-of_lt cpu_to_node (os.sched_getcpu w) known in
        (
          allocate_from os cpu_to_node local_nodes local w pages node,
          rw (some_pages, e) refl,
          allocate_from-Origin cpu_to_node local_nodes local w pages node,
        )
  ]

  Origin-sized :
      (pages node : ℕ) (a : Allocation)
      → Origin os pages node a
      → (a.ptr ≡ 0) ⊎ (a.size ≡ mul_size pages os.page_size)
  Origin-sized pages node a (nowhere null) = inl null
  Origin-sized pages node a (heap w w' e f size) = inr size
  Origin-sized pages node a (on_node w w' e f size) = inr size

  -- The implementation over libnuma keeps the promise, on cpus that were there at discovery.
  pub numa_tools-IsSized :
      (cpu_to_node : List ℕ) (local_nodes : NodeMap)
      → ((w : W) → os.sched_getcpu w < length cpu_to_node)
      → IsSized (numa_tools os cpu_to_node local_nodes)
  numa_tools-IsSized cpu_to_node local_nodes known w pages node =
      let (r, e, o) = allocate-Origin cpu_to_node local_nodes w pages node (known w) in
      (r, e, Origin-sized pages node r.0 o)

  -- And so does the one without.
  pub stub-IsSized : IsSized (stub os)
  unfolding stub_allocate
  stub-IsSized w pages node = elim (Bool-cases (pages == 0)) [
    | inl no_pages ↦ ((no_allocation, w), rw no_pages refl, inl refl)
    | inr some_pages ↦ (
      allocate_malloc os (λ w ptr. 0) w pages,
      rw some_pages refl,
      Origin-sized pages node _ (allocate_malloc-Origin (λ w ptr. 0) w pages node),
    )
  ]
