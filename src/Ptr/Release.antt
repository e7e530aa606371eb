-- ===== src/Ptr/Release.antt =====
-- `release` of include/hwmalloc/fancy_ptr/void_ptr.hpp and ptr.hpp, and `heap::free` of
-- include/hwmalloc/heap.hpp on a pointer.
use hwmalloc.Numa.Tools.{Os}
use hwmalloc.Platform.{Platform}
use hwmalloc.Outcome.{Call}
use hwmalloc.Heap.Release.{Memory}
use hwmalloc.Heap.Release
use hwmalloc.Ptr.{HwPtr}

module _ {W R H S : Type 0} (env : Platform W R H S) (os : Os W) where
  unfoldable pub release_void : HwPtr H → Call (Memory W R S) (Unit {0})
  release_void p = Release.release env os p.block

  unfoldable pub release : HwPtr H → Call (Memory W R S) (Unit {0})
  release p = Release.release env os p.block

  unfoldable pub free : HwPtr H → Call (Memory W R S) (Unit {0})
  free p = Release.free env os p.block
