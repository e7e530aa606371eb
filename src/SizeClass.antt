-- ===== src/SizeClass.antt =====
-- include/hwmalloc/heap.hpp: the size classes. Which block sizes and segment sizes the constructor
-- gives to the fixed-size heaps, and which of these heaps serves a request.
pub mod Fill
pub mod Index
pub mod Table
pub mod Fit
use hwmalloc.Base.{
  ℕ, zero, suc, ◌+◌, ◌*◌, ◌/◌, max, Option, none, some, List, length, set, replicate, add_size,
  get_elem?, sub_size, mul_size, shl_size, shr_size, leb, if◌then◌else◌,
}
use hwmalloc.Config.{HeapConfig, log2_c, round_to_pow_of_2, tiny_increment, tiny_increment_shift}

-- The index of `m_tiny_heaps` for a request of `n` bytes.
unfoldable pub tiny_bucket_index : ℕ → ℕ → ℕ → ℕ
tiny_bucket_index n increment shift =
    sub_size (shr_size (sub_size (add_size n increment) 1) shift) 1

-- The index of `m_heaps` for a request of `n` bytes.
unfoldable pub bucket_index : ℕ → ℕ → ℕ
bucket_index n bucket_shift = sub_size (log2_c (shr_size (sub_size n 1) bucket_shift)) 1

unfoldable pub at_least : ℕ → Option ℕ → Option ℕ
at_least limit none = none
at_least limit (some r) = some (max r limit)

-- `m_max_size`, undefined where the rounding is.
unfoldable pub max_size : HeapConfig → Option ℕ
unfolding at_least
max_size c = at_least c.large_limit (round_to_pow_of_2 (mul_size c.large_limit 2))

-- What the constructor passes to a `fixed_size_heap`: the block size and the segment size.
pub record SizeClass : Type 0 where
  pub block_size : ℕ
  pub segment_size : ℕ

-- for (i = 0; i < n; ++i) v[first + i] = make(i), over a vector of null pointers.
unfoldable pub fill :
    (ℕ → SizeClass) → ℕ → ℕ → ℕ → List (Option SizeClass) → List (Option SizeClass)
fill make first i zero v = v
fill make first i (suc n) v = fill make first (suc i) n (set v (first + i) (some (make i)))

-- What the four loops of the constructor make in round i.
abbrev pub tiny_class : HeapConfig → ℕ → SizeClass
tiny_class c i = record {
  block_size = mul_size tiny_increment (add_size i 1);
  segment_size = c.tiny_segment_size;
}

abbrev pub small_class : HeapConfig → ℕ → SizeClass
small_class c i = record {
  block_size = shl_size c.tiny_limit (i + 1);
  segment_size = c.small_segment_size;
}

abbrev pub large_class : HeapConfig → ℕ → SizeClass
large_class c i = record {
  block_size = shl_size c.small_limit (i + 1);
  segment_size = c.large_segment_size;
}

abbrev pub huge_class : HeapConfig → ℕ → SizeClass
huge_class c i = record {
  block_size = shl_size c.large_limit (i + 1);
  segment_size = shl_size c.large_limit (i + 1);
}

-- `m_tiny_heaps` after the first loop.
unfoldable pub tiny_heaps : HeapConfig → List (Option SizeClass)
unfolding fill
tiny_heaps c =
    let size = c.tiny_limit / tiny_increment in fill (tiny_class c) 0 0 size (replicate size none)

-- The other three loops, over a vector of `size` null pointers; the last one runs `rest` rounds from
-- the index `both` on.
unfoldable pub heaps_sized : HeapConfig → ℕ → ℕ → ℕ → List (Option SizeClass)
unfolding fill
heaps_sized c size both rest = fill (huge_class c) both 0 rest (
    fill (large_class c) c.num_small_heaps 0 c.num_large_heaps
      (fill (small_class c) 0 0 c.num_small_heaps (replicate size none)))

-- `m_heaps`, whose length is `bucket_index(m_max_size) + 1`.
unfoldable pub heaps : HeapConfig → ℕ → List (Option SizeClass)
heaps c m_max_size =
    let size = add_size (bucket_index m_max_size c.bucket_shift) 1 in
    let both = add_size c.num_small_heaps c.num_large_heaps in
    heaps_sized c size both (sub_size size both)

-- Where `heap::allocate` takes the block from: an entry of one of the two vectors, or the entry of
-- `m_huge_heaps` for a power of two, which is made on demand.
pub data Route : Type 0 where
  tiny bucket : ℕ → Route
  huge : ℕ → Route
  undefined : Route

unfoldable pub huge_route : Option ℕ → Route
huge_route none = undefined
huge_route (some s) = huge s

unfoldable pub route : HeapConfig → ℕ → ℕ → Route
unfolding huge_route
route c m_max_size size =
    if leb size c.tiny_limit
    then tiny (tiny_bucket_index size tiny_increment tiny_increment_shift)
    else if leb size m_max_size
    then bucket (bucket_index size c.bucket_shift)
    else huge_route (round_to_pow_of_2 size)

-- A vector's operator[] followed by `->`: `none` is an index out of range, or a null pointer.
unfoldable pub deref : Option (Option SizeClass) → Option SizeClass
deref none = none
deref (some slot) = slot

-- The class that a route leads to; `none` is undefined behaviour.
unfoldable pub class_at : HeapConfig → ℕ → Route → Option SizeClass
unfolding deref
class_at c m_max_size (tiny i) = deref (get_elem? (tiny_heaps c) i)
class_at c m_max_size (bucket i) = deref (get_elem? (heaps c m_max_size) i)
class_at c m_max_size (huge s) = some (record { block_size = s; segment_size = s })
class_at c m_max_size undefined = none

unfoldable pub serve : HeapConfig → ℕ → ℕ → Option SizeClass
serve c m_max_size size = class_at c m_max_size (route c m_max_size size)
