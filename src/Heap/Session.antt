-- ===== src/Heap/Session.antt =====
-- What a program does with a heap (include/hwmalloc/heap.hpp): it makes one, asks it for blocks, and
-- gives back blocks that it holds.
pub mod Calls
use hwmalloc.Base.{
  ℕ, ◌+◌, ◌*◌, Option, ◌≤◌, ◌<◌, ◌≡◌, ◌≢◌, Bool, false, some, List, [], ◌∷◌, ◌++◌, size_mod,
}
use hwmalloc.Config.{HeapConfig}
use hwmalloc.Numa.Nodes.{node_map, size}
use hwmalloc.FixedSizeHeap.Dispatch.{OnLocal}
use hwmalloc.Numa.Tools.{Os}
use hwmalloc.Numa.Tools.Sized.{IsSized}
use hwmalloc.Device.{Malloced}
use hwmalloc.SizeClass.{SizeClass, serve}
use hwmalloc.SizeClass.Fit.{Fits}
use hwmalloc.Platform.{Block, Platform, IsStack}
use hwmalloc.Outcome.{returns, Leaves}
use hwmalloc.UserAllocation.{UserAllocation}
use hwmalloc.Heap.{State, heap_of}
use hwmalloc.Heap.Spots.{Spot}
use hwmalloc.Heap.Release.{Memory, free}
use hwmalloc.Heap.Whole.{Whole}
use hwmalloc.Heap.Built.{Reachable, Built}
use hwmalloc.Heap.Elsewhere.{elsewhere}
use hwmalloc.Heap.Allocates.{allocate_for}
use hwmalloc.Heap.Held.{blocks, blocks_at}

-- What the heap needs of the platform: the nodes of the callers are local ones, the numa allocator
-- gives what was asked for, the number of pools for devices does not wrap, and the device allocator is
-- never undefined.
pub record Serviceable {W R H S : Type 0} (env : Platform W R H S) (ns : List ℕ) : Type 0 where
  pub nodes : node_map ns ≡ some env.numa.local_nodes
  pub local : (w : W) → OnLocal env ns w
  pub page_pos : 1 ≤ env.numa.page_size
  pub sized : IsSized env.numa
  pub devices_fit : size env.numa.local_nodes * env.device.get_num_devices < size_mod
  pub device_defined : (w : W) (n : ℕ) → (env.device.device_malloc w n).0 ≢ Malloced.undefined

-- A request that a size class serves.
pub record Served {W R H S : Type 0} (env : Platform W R H S) (c : HeapConfig) (m n : ℕ)
    : Type 0 where
  pub size_class : SizeClass
  pub served : serve c m n ≡ some size_class
  pub fits : Fits n size_class
  pub some_bytes : 1 ≤ n
  pub no_wrap : size_class.segment_size + env.numa.page_size < size_mod

abbrev pub open_all : Spot → Bool
open_all t = false

module _ {W R H S : Type 0} (env : Platform W R H S) (laws : IsStack env.stack) (os : Os W)
    (c : HeapConfig) (m : ℕ) where
  -- The heap and the blocks that are held, after calls of `allocate` that have returned and of `free`
  -- that have returned or thrown, while the rest of the program has gone on. `memory` is the heap with what there is of user allocations.
  pub data Session : State W R S → List (Block H) → Type 0 where
    opened :
        (w : W) (next : ℕ) (s : State W R S) → 1 ≤ next → s ≡ heap_of env c w next m → Session s []
    got :
        (fuel n node : ℕ) (on : Option ℕ) (b : Block H) (s s' : State W R S) (bs : List (Block H))
        → Session s bs
        → 2 ≤ fuel
        → Served env c m n
        → Reachable env on
        → allocate_for env fuel n node on s ≡ returns b s'
        → Session s' (b ∷ bs)
    gave :
        (users : List (ℕ × UserAllocation R)) (memory : Memory W R S) (before rest : List (Block H))
        (b : Block H) (s s' : State W R S) (bs left : List (Block H))
        → Session s bs
        → bs ≡ before ++ b ∷ rest
        → left ≡ before ++ rest
        → Leaves memory (free env os b (record { state = s; users = users }))
        → s' ≡ memory.state
        → Session s' left
    went_on :
        (w : W) (next : ℕ) (s s' : State W R S) (bs : List (Block H))
        → Session s bs
        → s.next_object ≤ next
        → s' ≡ elsewhere w next s
        → Session s' bs

module _ {W R H S : Type 0} (env : Platform W R H S) (laws : IsStack env.stack) (c : HeapConfig)
    (m : ℕ) where
  -- The heap is whole and serves all classes; `locked` tells which pools an exception has locked.
  pub record Held (locked : Spot → Bool) (s : State W R S) (bs : List (Block H)) : Type 0 where
    pub marked : List (Spot × Block H)
    pub same : blocks marked ≡ bs
    pub whole : Whole env laws locked s (blocks_at marked)
    pub built : Built env c m s
