-- ===== src/Heap/Spots.antt =====
-- Where the pools of a heap (include/hwmalloc/heap.hpp) stand: in a fixed-size heap
-- (include/hwmalloc/detail/fixed_size_heap.hpp), in its vector for the host or in that for devices.
pub mod Laws
pub mod Search
use hwmalloc.Base.{ℕ, zero, suc, Option, none, some, List, [], ◌∷◌, ◌++◌, get_elem?, set, length}
use hwmalloc.Pool.{Pool}
use hwmalloc.FixedSizeHeap.{FixedSizeHeap}
use hwmalloc.Heap.{Heap, Place, in_tiny_heaps, in_heaps, in_huge_heaps, get_at, put_at}

pub data Slot : Type 0 where
  host device : ℕ → Slot

abbrev pub Spot : Type 0
Spot = Place × Slot

-- An index out of range and a null pointer give nothing.
abbrev pub pool_or_none : {R S : Type 0} → Option (Option (Pool R S)) → Option (Pool R S)
pool_or_none none = none
pool_or_none (some p) = p

module _ {R S : Type 0} where
  unfoldable pub slot_at : FixedSizeHeap R S → Slot → Option (Pool R S)
  slot_at h (host i) = pool_or_none (get_elem? h.pools i)
  slot_at h (device i) = pool_or_none (get_elem? h.device_pools i)

  unfoldable pub put_slot : FixedSizeHeap R S → Slot → Pool R S → FixedSizeHeap R S
  put_slot h (host i) p = record h { pools = set h.pools i (some p) }
  put_slot h (device i) p = record h { device_pools = set h.device_pools i (some p) }

  unfoldable pub pool_at : Heap R S → Spot → Option (Pool R S)
  pool_at h (p, t) = elim (get_at h p) [ none ↦ none | some f ↦ slot_at f t ]

  unfoldable pub put_pool : Spot → Pool R S → Heap R S → Heap R S
  put_pool (p, t) q h = elim (get_at h p) [ none ↦ h | some f ↦ put_at h p (put_slot f t q) ]

-- f of all numbers below n.
unfoldable pub up_to : {A : Type 0} → ℕ → (ℕ → A) → List A
up_to zero f = []
up_to (suc n) f = f n ∷ up_to n f

-- The spots of one place.
unfoldable pub spots_of : Place → List Slot → List Spot
spots_of p [] = []
spots_of p (t ∷ ts) = (p, t) ∷ spots_of p ts

module _ {R S : Type 0} where
  unfoldable pub huge_places : List (ℕ × FixedSizeHeap R S) → List Place
  huge_places [] = []
  huge_places ((k, f) ∷ hs) = in_huge_heaps k ∷ huge_places hs

  unfoldable pub places : Heap R S → List Place
  places h =
      up_to (length h.tiny_heaps) in_tiny_heaps
      ++ (up_to (length h.heaps) in_heaps ++ huge_places h.huge_heaps)

  unfoldable pub slots : FixedSizeHeap R S → List Slot
  slots f = up_to (length f.pools) host ++ up_to (length f.device_pools) device

  unfoldable pub spots_from : Heap R S → List Place → List Spot
  spots_from h [] = []
  spots_from h (p ∷ ps) = elim (get_at h p) [
    | none ↦ spots_from h ps
    | some f ↦ spots_of p (slots f) ++ spots_from h ps
  ]

  unfoldable pub spots : Heap R S → List Spot
  spots h = spots_from h (places h)
