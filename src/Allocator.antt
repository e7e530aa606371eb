-- ===== src/Allocator.antt =====
-- include/hwmalloc/allocator.hpp: an allocator for containers, on a heap and a numa node. `size` is
-- that of the value type.
pub mod Laws
use hwmalloc.Base.{ℕ, Bool, not, ◌&&◌, ◌||◌, ◌==◌, mul_size}
use hwmalloc.Platform.{Block, Platform}
use hwmalloc.Outcome.{Call}
use hwmalloc.Numa.Tools.{Os}
use hwmalloc.Ptr.{HwPtr, to_void}
use hwmalloc.Ptr.Release
use hwmalloc.Heap.{State}
use hwmalloc.Heap.Release.{Memory}
use hwmalloc.Heap

-- A heap is named by its address.
pub record Allocator : Type 0 where
  pub heap : ℕ
  pub numa_node : ℕ

-- The default constructor, for the heap that `get_instance` returns.
unfoldable pub default_allocator : ℕ → Allocator
default_allocator instance_heap = record { heap = instance_heap; numa_node = 0 }

-- The constructor for a heap and a node, and `get_allocator` of include/hwmalloc/heap.hpp.
unfoldable pub allocator_on : ℕ → ℕ → Allocator
allocator_on heap numa_node = record { heap = heap; numa_node = numa_node }

unfoldable pub get_allocator : ℕ → ℕ → Allocator
get_allocator self numa_node = allocator_on self numa_node

-- The constructors from, and the assignments of, an allocator for another value type.
unfoldable pub rebound : Allocator → Allocator
rebound other = record { heap = other.heap; numa_node = other.numa_node }

unfoldable pub assign : Allocator → Allocator → Allocator
assign a other = record a { heap = other.heap; numa_node = other.numa_node }

unfoldable pub equal : Allocator → Allocator → Bool
equal a b = (a.heap == b.heap) && (a.numa_node == b.numa_node)

unfoldable pub not_equal : Allocator → Allocator → Bool
not_equal a b = not (a.heap == b.heap) || not (a.numa_node == b.numa_node)

-- Member by member.
unfoldable pub swap : Allocator × Allocator → Allocator × Allocator
swap (a, b) = (
  record a { heap = b.heap; numa_node = b.numa_node },
  record b { heap = a.heap; numa_node = a.numa_node },
)

-- The bytes that are asked for.
unfoldable pub request : ℕ → ℕ → ℕ
request size n = mul_size n size

-- `allocate`, on the heap of the allocator.
unfoldable pub allocate :
    {W R H S : Type 0} → Platform W R H S → ℕ → Allocator → ℕ → ℕ → Call (State W R S) (Block H)
allocate env fuel a size n = Heap.allocate env fuel (request size n) a.numa_node

-- `deallocate`, on the heap of the allocator; the number of elements is not looked at.
unfoldable pub deallocate :
    {W R H S : Type 0}
    → Platform W R H S
    → Os W
    → Allocator
    → HwPtr H
    → ℕ
    → Call (Memory W R S) (Unit {0})
deallocate env os a p n = Release.free env os (to_void p)
