-- ===== src/Tests/Users.antt =====
-- Memory of the user (include/hwmalloc/detail/user_allocation.hpp) in a system that counts.
use hwmalloc.Numa.Nodes.{node_map, build, sort, insert_sorted, index_nodes, back}
use hwmalloc.Base.{
  ℕ, [], ◌∷◌, inl, suc, ◌+◌, ◌-◌, ◌≡◌, refl, Bool, false, true, Option, none, some, arith, ◌==◌,
  ne→==,
}
use hwmalloc.Numa.Tools.{Os}
use hwmalloc.Platform.{Block, Context, Platform, IsStack}
use hwmalloc.Numa.Tools.{stub}
use hwmalloc.Numa.Tools.Sized.{stub-IsSized}
use hwmalloc.Device.{device_none}
use hwmalloc.Heap.{State, heap_of}
use hwmalloc.Heap.Release.{Memory}
use hwmalloc.Heap
use hwmalloc.Heap.Session.{Serviceable, Session, opened}
use hwmalloc.Heap.Users.{Undone, register-Undone}
use hwmalloc.Tests.Setting.{ListStack, list_stack, list_stack-IsStack}
use hwmalloc.Tests.Heaps.{config}
use hwmalloc.UserAllocation.{register_host, register_both, register_mirrored}
use hwmalloc.UserAllocation.Leaks.{Counts, Clean, register-Clean}

record Ledger : Type 0 where
  next : ℕ
  regions : ℕ
  chunks : ℕ

abbrev malloc : Ledger → ℕ → ℕ × Ledger
malloc w size =
    (suc w.next, record { next = w.next + size + 1; regions = w.regions; chunks = w.chunks + 1 })

abbrev os : Os Ledger
os = record {
  page_size = 64;
  sched_getcpu = λ w. 0;
  calloc = λ w n size. malloc w size;
  malloc = malloc;
  free = λ w ptr. record w { chunks = w.chunks - 1 };
  get_mempolicy = λ w ptr. 0;
  numa_alloc_onnode = λ w n node. malloc w n;
  numa_free = λ w ptr n. w;
}

-- A device region at address 0 is refused.
abbrev register_device : Ledger → ℕ → Bool → Option ℕ × Ledger
register_device w ptr true = (none, w)
register_device w ptr false = (some ptr, record w { regions = w.regions + 1 })

abbrev context : Context Ledger ℕ ℕ
context = record {
  null_handle = 0;
  register_memory = λ w ptr size. (some ptr, record w { regions = w.regions + 1 });
  register_device_memory = λ w id ptr size. register_device w ptr (ptr == 0);
  get_handle = λ r offset size. r + offset;
  deregister = λ w r. record w { regions = w.regions - 1 };
}

register_device-counts :
    (w : Ledger) (ptr : ℕ) (b : Bool)
    → ((register_device w ptr b).1.regions
        ≡ w.regions + (elim (register_device w ptr b).0 [ none ↦ 0 | some r ↦ 1 ]))
      × ((register_device w ptr b).1.chunks ≡ w.chunks)
register_device-counts w ptr true = (omega arith, refl)
register_device-counts w ptr false = (refl, refl)

counts : Counts os context
counts = record {
  regions = λ w. w.regions;
  chunks = λ w. w.chunks;
  register_memory = λ w ptr size. (refl, refl);
  register_device_memory = λ w id ptr size. register_device-counts w ptr (ptr == 0);
  deregister = λ w r. (refl, refl);
  malloc = λ w size. (refl, rw (ne→== (suc w.next) 0 (λ e. omega (arith, e))) refl);
  free = λ w ptr h. (refl, refl);
}

abbrev empty_ledger : Ledger
empty_ledger = record { next = 64; regions = 0; chunks = 0 }

register-Clean_example :
    Clean os context counts
      (counts.regions empty_ledger)
      (counts.chunks empty_ledger)
      (register_host os context empty_ledger 4096 32)
    × Clean os context counts
        (counts.regions empty_ledger)
        (counts.chunks empty_ledger)
        (register_both os context (record { ptr = 4096; delete = false }) empty_ledger 0 0 32)
    × Clean os context counts
        (counts.regions empty_ledger)
        (counts.chunks empty_ledger)
        (register_mirrored os context empty_ledger 0 0 32)
register-Clean_example = register-Clean os context counts empty_ledger 4096 0 0 32

-- A heap in this system, before anything was asked of it.
abbrev env : Platform Ledger ℕ ℕ (ListStack (Block ℕ))
env = record {
  numa = stub os;
  device = device_none Ledger;
  context = context;
  stack = list_stack (Block ℕ);
}

abbrev laws : IsStack env.stack
laws = list_stack-IsStack (Block ℕ)

env-Serviceable : Serviceable env (0 ∷ [])
unfolding node_map build sort insert_sorted index_nodes back
env-Serviceable = record {
  nodes = refl;
  local = λ w. (0, refl, inl refl);
  page_pos = omega arith;
  sized = stub-IsSized os;
  devices_fit = omega arith;
  device_defined = λ w n e. cc;
}

abbrev start : State Ledger ℕ (ListStack (Block ℕ))
start = heap_of env config empty_ledger 1 128

abbrev memory : Memory Ledger ℕ (ListStack (Block ℕ))
memory = record { state = start; users = [] }

start-Session : Session env laws os config 128 start []
start-Session = opened empty_ledger 1 start (omega arith) refl

register-Undone_example :
    Undone env laws os counts config 128 [] memory
      (Heap.Release.register_host env os 4096 32 memory)
    × Undone env laws os counts config 128 [] memory
        (Heap.Release.register_mirrored env os 8192 0 32 memory)
    × Undone env laws os counts config 128 [] memory
        (Heap.Release.register_both env os 4096 8192 0 32 memory)
register-Undone_example =
    register-Undone env laws os counts config 128 (0 ∷ []) env-Serviceable 4096 8192 0 32 memory []
      start-Session
