-- ===== src/SizeClass/Table.antt =====
-- include/hwmalloc/heap.hpp: the tables of fixed-size heaps that the constructor of a valid
-- configuration builds, entry by entry.
use native.Mathlib.Decide.{dec_lt}
use hwmalloc.Base.{
  ℕ, suc, ◌+◌, ◌-◌, ◌/◌, ◌^◌, ◌≤◌, ◌<◌, ◌≡◌, ap, ◌∙◌, inl, Option, none, some, List, arith, length,
  get_elem?, replicate, length-replicate, add_size, sub_size, mul_size, two-pow-suc, shl_size-pow,
  two-pow-lt, two-pow_mono,
}
use hwmalloc.Config.{HeapConfig, round_to_pow_of_2, tiny_increment}
use hwmalloc.Config.Log2.{round_to_pow_of_2-pow}
use hwmalloc.Config.Valid.{IsValid}
use hwmalloc.SizeClass.{
  SizeClass, at_least, tiny_class, small_class, large_class, huge_class, fill, bucket_index,
  max_size, tiny_heaps, heaps_sized, heaps,
}
use hwmalloc.SizeClass.Fill.{length-fill, fill-outside, fill-at}
use hwmalloc.SizeClass.Index.{bucket_index_lem}

-- The exponents of a valid configuration, as a section's parameters.
module _ {c : HeapConfig} (v : IsValid c) (l_max : v.l < 31) where
  open v use {t, s, l}

  pub max_size_lem : max_size c ≡ some (2 ^ suc l)
  unfolding max_size
  max_size_lem =
      let e : mul_size c.large_limit 2 ≡ 2 ^ suc l =
        omega (arith, v.large, two-pow-suc l, two-pow_mono l 30) in
      ap (at_least c.large_limit)
        (ap round_to_pow_of_2 e ∙ round_to_pow_of_2-pow (suc l) (omega arith) (omega arith))
      ∙ ap some (omega (arith, v.large, two-pow-suc l))

  -- The number of entries of `m_heaps`.
  pub last_bucket : bucket_index (2 ^ suc l) c.bucket_shift ≡ l - t
  last_bucket =
      let e : t + (l - t) ≡ l = omega (arith, v.t-lt-s, v.s-lt-l) in
      rw v.shift (
        bucket_index_lem (2 ^ suc l) t (l - t) (omega arith)
          (rw e (two-pow-lt l (suc l) (omega arith))) (rw e (omega arith)))

  -- Entry k of `m_tiny_heaps` is the heap of block size 8 (k + 1).
  pub tiny_heaps_lem :
      (k : ℕ) → k < 2 ^ t / 8 → get_elem? (tiny_heaps c) k ≡ some (some (tiny_class c k))
  unfolding tiny_heaps
  tiny_heaps_lem k h =
      let size : ℕ = c.tiny_limit / tiny_increment in
      fill-at (tiny_class c) 0 size k k (replicate size none) (omega arith) (omega (arith, v.tiny))
        (omega (arith, v.tiny, length-replicate size (let e : Option SizeClass = none in e)))

  pub length-tiny_heaps : length (tiny_heaps c) ≡ 2 ^ t / 8
  unfolding tiny_heaps
  length-tiny_heaps =
      let size : ℕ = c.tiny_limit / tiny_increment in
      length-fill (tiny_class c) 0 0 size (replicate size none)
      ∙ length-replicate {A = Option SizeClass} size none
      ∙ omega (arith, v.tiny)

  -- The vector of `m_heaps` before the loops has one entry more than small and large heaps.
  heaps-eq : heaps c (2 ^ suc l) ≡ heaps_sized c (suc (l - t)) (l - t) 1
  unfolding heaps
  heaps-eq =
      let size : add_size (bucket_index (2 ^ suc l) c.bucket_shift) 1 ≡ suc (l - t) =
        omega (arith, last_bucket) in
      let both : add_size c.num_small_heaps c.num_large_heaps ≡ l - t =
        omega (arith, v.num_small, v.num_large, v.t-lt-s, v.s-lt-l) in
      let rest : sub_size (suc (l - t)) (l - t) ≡ 1 = omega arith in
      (λ i. heaps_sized c (size i) (both i) (sub_size (size i) (both i)))
      ∙ ap (heaps_sized c (suc (l - t)) (l - t)) rest

  -- The vector of `m_heaps` before, and after each of the first two of its loops.
  abbrev blank : List (Option SizeClass)
  blank = replicate (suc (l - t)) none

  abbrev with_small : List (Option SizeClass)
  with_small = fill (small_class c) 0 0 c.num_small_heaps blank

  abbrev with_large : List (Option SizeClass)
  with_large = fill (large_class c) c.num_small_heaps 0 c.num_large_heaps with_small

  length-blank : length blank ≡ suc (l - t)
  length-blank = length-replicate {A = Option SizeClass} (suc (l - t)) none

  length-with_small : length with_small ≡ suc (l - t)
  length-with_small = length-fill (small_class c) 0 0 c.num_small_heaps blank ∙ length-blank

  length-with_large : length with_large ≡ suc (l - t)
  length-with_large =
      length-fill (large_class c) c.num_small_heaps 0 c.num_large_heaps with_small
      ∙ length-with_small

  after_huge :
      (k : ℕ)
      → k < l - t
      → get_elem? (heaps_sized c (suc (l - t)) (l - t) 1) k ≡ get_elem? with_large k
  unfolding heaps_sized
  after_huge k h = fill-outside (huge_class c) (l - t) 0 1 k with_large (inl (omega arith))

  small_heap :
      (k : ℕ)
      → k < s - t
      → get_elem? (heaps_sized c (suc (l - t)) (l - t) 1) k ≡ some (some (small_class c k))
  small_heap k h =
      after_huge k (omega (arith, v.s-lt-l))
      ∙ fill-outside (large_class c) c.num_small_heaps 0 c.num_large_heaps k with_small
          (inl (omega (arith, v.num_small)))
      ∙ fill-at (small_class c) 0 c.num_small_heaps k k blank (omega arith)
          (omega (arith, v.num_small)) (omega (arith, length-blank, v.s-lt-l))

  large_heap :
      (k j : ℕ)
      → k ≡ s - t + j
      → j < l - s
      → get_elem? (heaps_sized c (suc (l - t)) (l - t) 1) k ≡ some (some (large_class c j))
  large_heap k j e h =
      after_huge k (omega (arith, v.t-lt-s))
      ∙ fill-at (large_class c) c.num_small_heaps c.num_large_heaps j k with_small
          (omega (arith, v.num_small)) (omega (arith, v.num_large))
          (omega (arith, length-with_small, v.t-lt-s))

  huge_heap :
      get_elem? (heaps_sized c (suc (l - t)) (l - t) 1) (l - t) ≡ some (some (huge_class c 0))
  unfolding heaps_sized
  huge_heap =
      fill-at (huge_class c) (l - t) 1 0 (l - t) with_large (omega arith) (omega arith)
        (omega (arith, length-with_large))

  -- Entry k of `m_heaps` is the heap of block size 2 ^ (t + k + 1), on segments that hold a block.
  pub heaps_lem :
      (k : ℕ)
      → k ≤ l - t
      → (h : SizeClass) × (get_elem? (heaps c (2 ^ suc l)) k ≡ some (some h))
        × (h.block_size ≡ 2 ^ suc (t + k))
        × (h.block_size ≤ h.segment_size)
  heaps_lem k h = rw heaps-eq (elim (dec_lt k (s - t)) [
    | yes first ↦
        let b =
          shl_size-pow c.tiny_limit t (k + 1) (suc (t + k)) v.tiny (omega arith) (omega arith) in
        (
          small_class c k,
          small_heap k first,
          b,
          omega (arith, b, v.small_fits, v.small, two-pow_mono (suc (t + k)) s (omega arith)),
        )
    | no later ↦ elim (dec_lt k (l - t)) [
      | yes second ↦
          let j : ℕ = k - (s - t) in
          let b =
            shl_size-pow c.small_limit s (j + 1) (suc (t + k)) v.small (omega (arith, v.t-lt-s))
              (omega arith) in
          (
            large_class c j,
            large_heap k j (omega arith) (omega (arith, v.t-lt-s)),
            b,
            omega (arith, b, v.large_fits, v.large, two-pow_mono (suc (t + k)) l (omega arith)),
          )
      | no last ↦
          let e : k ≡ l - t = omega arith in
          let b =
            shl_size-pow c.large_limit l 1 (suc (t + k)) v.large (omega (arith, v.t-lt-s, v.s-lt-l))
              (omega arith) in
          (huge_class c 0, rw e huge_heap, b, omega arith)
    ]
  ])
