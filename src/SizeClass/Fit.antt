-- ===== src/SizeClass/Fit.antt =====
-- include/hwmalloc/heap.hpp: which requests the size classes serve, and with which block sizes.
use native.Mathlib.Decide.{dec_le}
use hwmalloc.Base.{
  ℕ, suc, ◌+◌, ◌-◌, ◌*◌, ◌/◌, ◌^◌, ◌≤◌, ◌<◌, ◌≡◌, ap, ◌∙◌, inr, none, some, arith, get_elem?,
  get_elem?-none, le→leb, lt→leb, size_mod, two-pow-pos, two-pow-suc, two-pow-add, two-pow_mono,
  two-pow-lt_inv, two-pow-le_inv,
}
use hwmalloc.Config.{HeapConfig, Settings, ok, heap_config, tiny_increment}
use hwmalloc.Config.Log2.{round_to_pow_of_2-IsRoundUp, round_to_pow_of_2-none}
use hwmalloc.Config.Valid.{IsValid, InRange, heap_config-IsValid}
use hwmalloc.SizeClass.{
  SizeClass, tiny_class, bucket_index, tiny_heaps, heaps, max_size, huge_route, route, deref,
  class_at, serve,
}
use hwmalloc.SizeClass.Index.{
  bucket_index_lem, bucket_of, tiny_bucket_index_lem, tiny_bucket_index-zero,
}
use hwmalloc.SizeClass.Table.{tiny_heaps_lem, length-tiny_heaps, heaps_lem, max_size_lem}

-- The block is large enough, wastes less than the request or less than one tiny increment, and fits
-- the segment.
pub record Fits (n : ℕ) (k : SizeClass) : Type 0 where
  pub enough : n ≤ k.block_size
  pub tight : k.block_size < 2 * n + 8
  pub holds : k.block_size ≤ k.segment_size

module _ {c : HeapConfig} (v : IsValid c) (l_max : v.l < 31) where
  open v use {t, s, l}

  serve-tiny :
      (n : ℕ)
      → 3 ≤ t
      → 1 ≤ n
      → n ≤ c.tiny_limit
      → (k : SizeClass) × (serve c (2 ^ suc l) n ≡ some k) × Fits n k
  unfolding serve route class_at
  serve-tiny n big lo hi =
      let m : ℕ = 2 ^ (t - 3) in
      let whole : 2 ^ t ≡ 8 * m = ap (λ k. 2 ^ k) (omega arith) ∙ two-pow-add 3 (t - 3) in
      let k : ℕ = (n - 1) / 8 in
      let limit = two-pow_mono t 31 (omega (arith, v.t-lt-s, v.s-lt-l)) in
      let index = tiny_bucket_index_lem n lo (omega (arith, v.tiny, limit)) in
      let inside : k < 2 ^ t / 8 = omega (arith, v.tiny, whole) in
      (
        tiny_class c k,
        rw (le→leb n c.tiny_limit hi)
            (ap deref (ap (get_elem? (tiny_heaps c)) index ∙ tiny_heaps_lem v l_max k inside)),
        record {
          enough = omega (arith, v.tiny, limit);
          tight = omega (arith, v.tiny, limit);
          holds = omega (arith, v.tiny, limit, whole, v.tiny_fits);
        },
      )

  serve-bucket :
      (n : ℕ)
      → c.tiny_limit < n
      → n ≤ 2 ^ suc l
      → (k : SizeClass) × (serve c (2 ^ suc l) n ≡ some k) × Fits n k
  unfolding serve route class_at
  serve-bucket n lo hi =
      let (i, above, below) = bucket_of n t (omega (arith, v.tiny)) in
      let last : t + i < suc l = two-pow-lt_inv (t + i) (suc l) (omega arith) in
      let (k, e, size, seg) = heaps_lem v l_max i (omega arith) in
      let index : bucket_index n c.bucket_shift ≡ i =
        ap (bucket_index n) v.shift ∙ bucket_index_lem n t i (omega arith) above below in
      (
        k,
        rw (lt→leb n c.tiny_limit lo, le→leb n (2 ^ suc l) hi)
            (ap deref (ap (get_elem? (heaps c (2 ^ suc l))) index ∙ e)),
        record { enough = omega arith; tight = omega (arith, two-pow-suc (t + i)); holds = seg },
      )

  serve-huge :
      (n : ℕ)
      → 2 ^ suc l < n
      → n ≤ 2 ^ 31
      → (k : SizeClass) × (serve c (2 ^ suc l) n ≡ some k) × Fits n k
  unfolding serve route class_at
  serve-huge n lo hi =
      let (r, e, u) = round_to_pow_of_2-IsRoundUp n (omega arith) hi in
      let above : c.tiny_limit < n =
        omega (arith, v.tiny, two-pow_mono t (suc l) (omega (arith, v.t-lt-s, v.s-lt-l))) in
      (
        record { block_size = r; segment_size = r },
        rw (lt→leb n c.tiny_limit above, lt→leb n (2 ^ suc l) lo)
            (ap (λ o. class_at c (2 ^ suc l) (huge_route o)) e),
        record { enough = u.above; tight = omega (arith, u.tight); holds = omega arith },
      )

  -- The three branches together.
  pub serve-Fits :
      (n : ℕ)
      → 3 ≤ t
      → 1 ≤ n
      → n ≤ 2 ^ 31
      → (k : SizeClass) × (serve c (2 ^ suc l) n ≡ some k) × Fits n k
  serve-Fits n big lo hi = elim (dec_le n c.tiny_limit) [
    | yes small ↦ serve-tiny n big lo small
    | no above ↦ elim (dec_le n (2 ^ suc l)) [
      | yes medium ↦ serve-bucket n (omega arith) medium
      | no large ↦ serve-huge n (omega arith) hi
    ]
  ]

  -- Above, the rounding is undefined.
  serve-above : (n : ℕ) → 2 ^ 31 < n → n < size_mod → serve c (2 ^ suc l) n ≡ none
  unfolding serve route class_at
  serve-above n lo hi =
      rw
        (
          lt→leb n c.tiny_limit
              (omega (arith, v.tiny, two-pow_mono t 31 (omega (arith, v.t-lt-s, v.s-lt-l)))),
          lt→leb n (2 ^ suc l) (omega (arith, two-pow_mono (suc l) 31 (omega arith))),
        )
        (ap (λ o. class_at c (2 ^ suc l) (huge_route o)) (round_to_pow_of_2-none n hi (inr lo)))

  -- The index of a request of 0 bytes is 2 ^ 64 - 1.
  serve-none : serve c (2 ^ suc l) 0 ≡ none
  unfolding serve route class_at
  serve-none =
      let limit = two-pow_mono t 31 (omega (arith, v.t-lt-s, v.s-lt-l)) in
      let out =
        get_elem?-none (tiny_heaps c) (size_mod - 1)
          (omega (arith, length-tiny_heaps v l_max, limit)) in
      rw (le→leb 0 c.tiny_limit (omega arith))
        (ap deref (ap (get_elem? (tiny_heaps c)) tiny_bucket_index-zero ∙ out))

  -- With a tiny limit of 2 or 4 there are no tiny heaps.
  serve-few : t < 3 → serve c (2 ^ suc l) 1 ≡ none
  unfolding serve route class_at
  serve-few few =
      let bound = two-pow_mono t 2 (omega arith) in
      let out = get_elem?-none (tiny_heaps c) 0 (omega (arith, length-tiny_heaps v l_max, bound)) in
      rw (le→leb 1 c.tiny_limit (omega (arith, v.tiny, two-pow-pos t))) (
        ap deref (
          ap (get_elem? (tiny_heaps c)) (tiny_bucket_index_lem 1 (omega arith) (omega arith))
          ∙ out))

-- The exponent of the large limit.
below_2_GiB : (c : HeapConfig) (v : IsValid c) → c.large_limit < 2 ^ 31 → v.l < 31
below_2_GiB c v large = two-pow-lt_inv v.l 31 (omega (arith, v.large))

-- With a configuration that the constructor of `heap_config` accepts, a tiny limit of at least one
-- increment and a large limit below 2 GiB, the constructor of `heap` is defined, and a request of 1
-- byte up to 2 GiB is served, on every branch of `heap::allocate`: no index is out of range and no
-- pointer null, the block is at least as large as the request, smaller than twice the request plus
-- 8, and not larger than its segment.
pub serve_accepted :
    (s : Settings) (c : HeapConfig) (n : ℕ)
    → InRange s
    → heap_config s ≡ ok c
    → tiny_increment ≤ c.tiny_limit
    → c.large_limit < 2 ^ 31
    → 1 ≤ n
    → n ≤ 2 ^ 31
    → (m : ℕ) × (max_size c ≡ some m) × (k : SizeClass) × (serve c m n ≡ some k) × Fits n k
serve_accepted s c n r e tiny large lo hi =
    let v = heap_config-IsValid s c r e in
    let l_max = below_2_GiB c v large in
    let t_min : 3 ≤ v.t = two-pow-le_inv 3 v.t (omega (arith, v.tiny)) in
    let (k, served, fits) = serve-Fits v l_max n t_min lo hi in
    (2 ^ suc v.l, max_size_lem v l_max, k, served, fits)

-- With such a configuration a request above 2 GiB is undefined behaviour: the rounding of its size
-- shifts a 32-bit number by its width or more.
pub serve_above_2_GiB :
    (s : Settings) (c : HeapConfig) (n : ℕ)
    → InRange s
    → heap_config s ≡ ok c
    → c.large_limit < 2 ^ 31
    → 2 ^ 31 < n
    → n < size_mod
    → (m : ℕ) × (max_size c ≡ some m) × (serve c m n ≡ none)
serve_above_2_GiB s c n r e large lo hi =
    let v = heap_config-IsValid s c r e in
    let l_max = below_2_GiB c v large in
    (2 ^ suc v.l, max_size_lem v l_max, serve-above v l_max n lo hi)

-- With such a configuration a request of 0 bytes is undefined behaviour: the index of its tiny heap
-- wraps, and is out of range.
pub serve_zero :
    (s : Settings) (c : HeapConfig)
    → InRange s
    → heap_config s ≡ ok c
    → c.large_limit < 2 ^ 31
    → (m : ℕ) × (max_size c ≡ some m) × (serve c m 0 ≡ none)
serve_zero s c r e large =
    let v = heap_config-IsValid s c r e in
    let l_max = below_2_GiB c v large in (2 ^ suc v.l, max_size_lem v l_max, serve-none v l_max)

-- With such a configuration whose tiny limit is less than one increment, a request of 1 byte is
-- undefined behaviour: there are no tiny heaps.
pub serve_small_limit :
    (s : Settings) (c : HeapConfig)
    → InRange s
    → heap_config s ≡ ok c
    → c.large_limit < 2 ^ 31
    → c.tiny_limit < tiny_increment
    → (m : ℕ) × (max_size c ≡ some m) × (serve c m 1 ≡ none)
serve_small_limit s c r e large few =
    let v = heap_config-IsValid s c r e in
    let l_max = below_2_GiB c v large in
    let t_max : v.t < 3 = two-pow-lt_inv v.t 3 (omega (arith, v.tiny)) in
    (2 ^ suc v.l, max_size_lem v l_max, serve-few v l_max t_max)
