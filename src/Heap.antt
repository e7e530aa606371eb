-- ===== src/Heap.antt =====
-- include/hwmalloc/heap.hpp: the fixed-size heaps of all size classes, and those for huge requests,
-- which are made on demand.
pub mod Slots
pub mod Spots
pub mod Release
pub mod Whole
pub mod Frees
pub mod Fresh
pub mod Starts
pub mod Larger
pub mod Built
pub mod Grants
pub mod Placed
pub mod Allocates
pub mod Held
pub mod Session
pub mod Apart
pub mod Instance
pub mod Elsewhere
pub mod Enough
pub mod Users
use hwmalloc.Base.{
  ℕ, Bool, true, false, Option, none, some, List, [], ◌∷◌, ◌==◌, if◌then◌else◌, get_elem?, set,
}
use hwmalloc.Config.{HeapConfig}
use hwmalloc.SizeClass.{
  SizeClass, Route, tiny, bucket, huge, undefined, max_size, tiny_heaps, heaps, route,
}
use hwmalloc.Platform.{Block, Platform}
use hwmalloc.Outcome.{Outcome, Call, returns, throws, hangs, and_then, ◌>>=◌}
use hwmalloc.Outcome
use hwmalloc.FixedSizeHeap.{FixedSizeHeap, make_fixed_size_heap}
use hwmalloc.FixedSizeHeap

-- `mutex` is whether `m_mutex` is locked.
pub record Heap (R S : Type 0) : Type 0 where
  pub config : HeapConfig
  pub max_size : ℕ
  pub tiny_heaps : List (Option (FixedSizeHeap R S))
  pub heaps : List (Option (FixedSizeHeap R S))
  pub huge_heaps : List (ℕ × FixedSizeHeap R S)
  pub mutex : Bool

pub record State (W R S : Type 0) : Type 0 where
  pub world : W
  pub next_object : ℕ
  pub heap : Heap R S

-- Where a fixed-size heap stands: in one of the vectors, or in the map.
pub data Place : Type 0 where
  in_tiny_heaps in_heaps in_huge_heaps : ℕ → Place

module _ {R S : Type 0} where
  unfoldable pub find_huge : ℕ → List (ℕ × FixedSizeHeap R S) → Option (FixedSizeHeap R S)
  find_huge s [] = none
  find_huge s ((k, h) ∷ hs) = if k == s then some h else find_huge s hs

  unfoldable pub put_huge :
      ℕ → FixedSizeHeap R S → List (ℕ × FixedSizeHeap R S) → List (ℕ × FixedSizeHeap R S)
  put_huge s g [] = []
  put_huge s g ((k, h) ∷ hs) = if k == s then (k, g) ∷ hs else (k, h) ∷ put_huge s g hs

  -- An index out of range or a null pointer is undefined (`none`).
  abbrev pub pointer_at : Option (Option (FixedSizeHeap R S)) → Option (FixedSizeHeap R S)
  pointer_at none = none
  pointer_at (some p) = p

  unfoldable pub get_at : Heap R S → Place → Option (FixedSizeHeap R S)
  get_at h (in_tiny_heaps i) = pointer_at (get_elem? h.tiny_heaps i)
  get_at h (in_heaps i) = pointer_at (get_elem? h.heaps i)
  get_at h (in_huge_heaps s) = find_huge s h.huge_heaps

  unfoldable pub put_at : Heap R S → Place → FixedSizeHeap R S → Heap R S
  put_at h (in_tiny_heaps i) g = record h { tiny_heaps = set h.tiny_heaps i (some g) }
  put_at h (in_heaps i) g = record h { heaps = set h.heaps i (some g) }
  put_at h (in_huge_heaps s) g = record h { huge_heaps = put_huge s g h.huge_heaps }

module _ {W R H S : Type 0} (env : Platform W R H S) where
  -- `make_unique` for the entries of a vector, from the address of the next object on.
  unfoldable pub make_heaps :
      HeapConfig → W → ℕ → List (Option SizeClass) → List (Option (FixedSizeHeap R S)) × ℕ
  make_heaps c w next [] = ([], next)
  make_heaps c w next (none ∷ ks) = let (hs, next') = make_heaps c w next ks in (none ∷ hs, next')
  make_heaps c w next (some k ∷ ks) =
      let made =
        make_fixed_size_heap env w next k.block_size k.segment_size c.never_free
          c.num_reserve_segments in
      let (hs, next') = make_heaps c w made.next_object ks in (some made.heap ∷ hs, next')

  -- The constructor, whose `m_max_size` may be undefined.
  unfoldable pub heap_of : HeapConfig → W → ℕ → ℕ → State W R S
  heap_of c w next m =
      let (ts, next1) = make_heaps c w next (tiny_heaps c) in
      let (hs, next2) = make_heaps c w next1 (heaps c m) in
      record {
        world = w;
        next_object = next2;
        heap = record {
          config = c;
          max_size = m;
          tiny_heaps = ts;
          heaps = hs;
          huge_heaps = [];
          mutex = false;
        };
      }

  unfoldable pub make_heap : HeapConfig → W → ℕ → Option (State W R S)
  make_heap c w next = elim (max_size c) [ none ↦ none | some m ↦ some (heap_of c w next m) ]

  -- The part of `allocate` under the lock: the entry of the map, made if it is not there.
  unfoldable pub huge_heap_for : ℕ → State W R S → State W R S
  huge_heap_for size s = elim (find_huge size s.heap.huge_heaps) [
    | some h ↦ s
    | none ↦
        let c = s.heap.config in
        let made =
          make_fixed_size_heap env s.world s.next_object size size c.never_free
            c.num_reserve_segments in
        record s {
          next_object = made.next_object;
          heap = record s.heap { huge_heaps = (size, made.heap) ∷ s.heap.huge_heaps };
        }
  ]

  -- The choice of the fixed-size heap.
  unfoldable pub locate_route : Route → Call (State W R S) Place
  locate_route (tiny i) s = returns (in_tiny_heaps i) s
  locate_route (bucket i) s = returns (in_heaps i) s
  locate_route (huge r) s =
      if s.heap.mutex then hangs else returns (in_huge_heaps r) (huge_heap_for r s)
  locate_route undefined s = Outcome.undefined

  unfoldable pub locate : ℕ → Call (State W R S) Place
  locate size s = locate_route (route s.heap.config s.heap.max_size size) s

  -- A fixed-size heap that a call has changed goes back to its place.
  abbrev pub back_to :
      {A : Type 0}
      → State W R S
      → Place
      → Outcome (FixedSizeHeap.State W R S) A
      → Outcome (State W R S) A
  back_to s p (returns a t) =
      returns a
        (record s { world = t.world; next_object = t.next_object; heap = put_at s.heap p t.heap })
  back_to s p (throws e t) =
      throws e
        (record s { world = t.world; next_object = t.next_object; heap = put_at s.heap p t.heap })
  back_to s p hangs = hangs
  back_to s p Outcome.undefined = Outcome.undefined

  -- A call on the fixed-size heap at a place.
  abbrev pub call_at :
      Call (FixedSizeHeap.State W R S) (Block H)
      → Place
      → Option (FixedSizeHeap R S)
      → Call (State W R S) (Block H)
  call_at f p none s = Outcome.undefined
  call_at f p (some h) s =
      back_to s p (f (record { world = s.world; next_object = s.next_object; heap = h }))

  -- The two overloads of `allocate`, for the host and for a device.
  unfoldable pub allocate : ℕ → ℕ → ℕ → Call (State W R S) (Block H)
  allocate fuel size numa_node = do
    p ← locate size
    λ s. call_at (FixedSizeHeap.allocate env fuel numa_node) p (get_at s.heap p) s

  unfoldable pub allocate_on_device : ℕ → ℕ → ℕ → ℕ → Call (State W R S) (Block H)
  allocate_on_device fuel size numa_node device_id = do
    p ← locate size
    λ s.
        call_at (FixedSizeHeap.allocate_on_device env fuel numa_node device_id) p (get_at s.heap p)
          s
