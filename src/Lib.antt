-- ===== src/Lib.antt =====
-- hwmalloc: a heap for memory that is registered with a network layer, on given numa nodes and
-- devices. This library models its C++ sources.
--
-- The program and its model. Paths are from the root of the repository.
--   * src/heap_config.cpp and include/hwmalloc/heap_config.hpp validate the sizes the heap works with;
--     Config.antt has `log2_c`, `round_to_pow_of_2`, the members and the constructor, Config/Env.antt the
--     values that come from the environment.
--   * include/hwmalloc/heap.hpp keeps one fixed-size heap for every size class: SizeClass.antt has the
--     four loops of its constructor and the way `allocate` finds a class, Heap.antt the heaps, and
--     `allocate` with the huge heaps that it makes, Heap/Release.antt `free` and the
--     registration of user allocations, Heap/Instance.antt `get_instance`. Heap/Session.antt has what
--     a program does with a heap: it makes one, takes blocks from it and gives back those it holds.
--   * include/hwmalloc/detail/fixed_size_heap.hpp keeps a pool for every node and device:
--     FixedSizeHeap.antt.
--   * include/hwmalloc/detail/pool.hpp holds the blocks of one size on one node: Pool.antt has its
--     state, Pool/Grow.antt `add_segment`, Pool/Allocate.antt `allocate`, Pool/Free.antt `free`.
--   * include/hwmalloc/detail/segment.hpp cuts registered memory into blocks: Segment.antt.
--   * include/hwmalloc/numa.hpp, src/numa.cpp and src/numa_stub.cpp hand out pages: Numa.antt,
--     Numa/Nodes.antt (`node_map`; Numa/Nodes/Made.antt says when its constructor is
--     defined), Numa/Tools.antt (`numa_tools`), Numa/Discover.antt (`discover_nodes`).
--   * include/hwmalloc/device.hpp, src/device_none.cpp and src/device_emulate.cpp: Device.antt;
--     src/device_cuda.cpp and src/device_hip.cpp over the calls of a GPU runtime: Gpu.antt, with
--     the device runtimes that they make. Calls of a device runtime may throw, and a pool for a device
--     passes that on.
--   * include/hwmalloc/fancy_ptr has the pointers that carry their block: Ptr.antt,
--     Ptr/Const.antt (those to const), Ptr/Release.antt (`release`), UniquePtr.antt (with
--     `make_unique` of the heap).
--   * include/hwmalloc/detail/user_allocation.hpp registers memory of the user: UserAllocation.antt.
--   * include/hwmalloc/allocator.hpp has the allocator for containers: Allocator.antt.
--   * Platform.antt gathers what these stand on: Boost's lock-free stacks with their documented
--     behaviour, the user's Context with its regions, the numa allocator and the device runtime.
--
-- A call is a function from a state to an outcome (Outcome.antt): it returns or throws, with a state,
-- or it hangs, or its behaviour is undefined. A pool's state has the system, the segments by the
-- address of their objects and the mutex. Addresses are numbers and `nullptr` is 0; a `std::size_t`
-- is a number with its wrap-around at 2 ^ 64 written out. The model is that of a build with devices;
-- a host segment has a null device pointer, and no device region.
--
-- A pointer to an object is its address. `release` follows the pointers of a block to its segment and
-- its pool by looking for objects with these addresses: at the spots where a heap has pools
-- (Heap/Spots.antt), and among the user allocations that were made. There is no such object for a
-- pointer that dangles, and to follow it is undefined.
--
-- Fuel: `log2_fuel` halves its argument, so the argument is fuel enough; the loop of `pool::allocate`
-- has fuel for its rounds, and two rounds are enough. A loop that pushes to a full stack is `hangs`.
--
-- Threads.antt and Threads/Turn.antt have `pool::allocate` and `pool::free` as several threads run
-- them at the same time. A turn of a thread is one access to what the threads share: a push or pop
-- of one of Boost's stacks, an access to a counter or to the mutex. `add_segment` is one turn,
-- since only its pushes are seen by others, and so is the erasing of a segment; memory is
-- sequentially consistent. `consume_all` pops block by block, as Boost documents (`Pops` of
-- Threads/Alone/Reach.antt). An interleaving is the list of the threads whose turn it is, with what
-- an idle thread does next. Threads/Spec.antt has what callers see of this, as events and
-- the states between them, and Threads/Alone.antt
-- sets a thread that nobody interrupts beside the calls as one function. Elsewhere calls run one
-- after the other. The map's iteration order is that of the list. Where C++ leaves the order of two
-- registrations open the host's comes first. Logging does nothing.
--
-- Not modelled: an exception of `get_num_devices` in the constructor of `fixed_size_heap`, which a
-- GPU runtime may throw (the number of devices is a constant of the device runtime); `std::stoul`
-- is written out in Config/Env.antt as the standard describes it; the log (output only);
-- include/hwmalloc/fancy_ptr/memfct_ptr.hpp and the access to members through a pointer (they only
-- pass a call on); the arithmetic of the pointers to const, which does not compile when it is used;
-- include/hwmalloc/detail/region_traits.hpp and the customization points of
-- include/hwmalloc/register.hpp and register_device.hpp (types, and the choice of an overload at
-- compile time: what they lead to is the Context of Platform.antt); the copies of
-- src/device_none.cpp and src/device_emulate.cpp, which the library does not call and for which the
-- contents of memory would be needed; and the tests.
pub mod Base
pub mod Config
pub mod SizeClass
pub mod Numa
pub mod Device
pub mod Gpu
pub mod Platform
pub mod Outcome
pub mod Segment
pub mod Pool
pub mod Threads
pub mod FixedSizeHeap
pub mod Heap
pub mod UserAllocation
pub mod Ptr
pub mod Allocator
pub mod UniquePtr
pub mod Tests
