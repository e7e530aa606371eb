-- ===== src/Heap/Elsewhere.antt =====
-- A heap (include/hwmalloc/heap.hpp) while the rest of the program does something: the system changes
-- and objects are made, but not by the heap.
use hwmalloc.Base.{ℕ, ◌≤◌, Bool, List, arith}
use hwmalloc.Config.{HeapConfig}
use hwmalloc.Platform.{Block, Platform, IsStack}
use hwmalloc.Heap.{State}
use hwmalloc.Heap.Spots.{Spot}
use hwmalloc.Heap.Whole.{Whole, Member-later}
use hwmalloc.Heap.Built.{Built}

-- The heap with the system, and the address of the next object, as they are then.
abbrev pub elsewhere : {W R S : Type 0} → W → ℕ → State W R S → State W R S
elsewhere w next s = record s { world = w; next_object = next }

module _ {W R H S : Type 0} (env : Platform W R H S) (laws : IsStack env.stack) where
  pub Whole-elsewhere :
      (w : W) (next : ℕ) (locked : Spot → Bool) (s : State W R S) (live : Spot → List (Block H))
      → s.next_object ≤ next
      → Whole env laws locked s live
      → Whole env laws locked (elsewhere w next s) live
  Whole-elsewhere w next locked s live h v = record {
    unlocked = v.unlocked;
    started = omega (arith, v.started, h);
    members =
        λ t p e. Member-later env laws s.next_object next (locked t) p (live t) h (v.members t p e);
    nowhere = v.nowhere;
    one_pool = v.one_pool;
    one_segment = v.one_segment;
  }

  pub Built-elsewhere :
      (w : W) (next : ℕ) (c : HeapConfig) (m : ℕ) (s : State W R S)
      → Built env c m s
      → Built env c m (elsewhere w next s)
  Built-elsewhere w next c m s v = record {
    config = v.config;
    limit = v.limit;
    tiny = v.tiny;
    buckets = v.buckets;
    huge = v.huge;
  }
