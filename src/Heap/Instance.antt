-- ===== src/Heap/Instance.antt =====
-- `heap::get_instance` of include/hwmalloc/heap.hpp. Callers come one after the other, by its lock.
use hwmalloc.Base.{ℕ, Option, none, some, ◌==◌, if◌then◌else◌}
use hwmalloc.Config.{HeapConfig}
use hwmalloc.Platform.{Platform}
use hwmalloc.Heap.{State, make_heap}

-- The end of a call: the static `instance` is set, and returned. `none` is undefined: a constructor that
-- is not defined, or a context that is null in the first call, which an assertion excludes.
abbrev pub set_instance : {A : Type 0} → Option A → Option (A × Option A)
set_instance none = none
set_instance (some instance_heap) = some (instance_heap, some instance_heap)

module _ {W R H S : Type 0} (env : Platform W R H S) where
  -- The heap that is returned, and the static afterwards. The first call makes the heap, in a world and
  -- at the address of the next object, with the configuration of `get_default_heap_config`.
  unfoldable pub get_instance :
      ℕ → HeapConfig → W → ℕ → Option (State W R S) → Option (State W R S × Option (State W R S))
  get_instance context c w next (some instance_heap) = set_instance (some instance_heap)
  get_instance context c w next none =
      set_instance (if context == 0 then none else make_heap env c w next)
