-- ===== src/SizeClass/Index.antt =====
-- The index functions of include/hwmalloc/heap.hpp: which requests fall into a bucket.
use native.Mathlib.Nat.{le-div_iff_mul-le, div-lt_iff_lt-mul}
use hwmalloc.Base.{
  ℕ, suc, ◌+◌, ◌-◌, ◌*◌, ◌/◌, ◌^◌, ◌≤◌, ◌<◌, ◌≡◌, refl, ap, ◌∙◌, arith, sub_size, size_mod,
  two-pow-add, two-pow-pos, two-pow-suc, two-pow-lt_inv, two-pow_mono,
}
use hwmalloc.Config.{log2_c, tiny_increment, tiny_increment_shift}
use hwmalloc.Config.Log2.{log2_c_unique, log2_c_bracket}
use hwmalloc.SizeClass.{tiny_bucket_index, bucket_index}

-- Bucket `i` takes the requests above 2 ^ (t + i) up to 2 ^ (t + i + 1), the shift being t.
pub bucket_index_lem :
    (n t i : ℕ) → t + i < 63 → 2 ^ (t + i) < n → n ≤ 2 ^ suc (t + i) → bucket_index n t ≡ i
unfolding bucket_index
bucket_index_lem n t i small lo hi =
    let m : ℕ = n - 1 in
    let e : sub_size n 1 ≡ m = omega (arith, two-pow_mono (suc (t + i)) 63) in
    let p = two-pow-add t i in
    let above : 2 ^ i ≤ m / 2 ^ t = (le-div_iff_mul-le (two-pow-pos t)).1 (omega (arith, p)) in
    let below : m / 2 ^ t < 2 ^ suc i =
      (div-lt_iff_lt-mul (two-pow-pos t)).1
        (omega (arith, p, two-pow-suc (t + i), ap (λ k. k * 2 ^ t) (two-pow-suc i))) in
    rw (e, log2_c_unique (m / 2 ^ t) i above below) (omega arith)

-- The bucket of a request above 2 ^ t.
pub bucket_of : (n t : ℕ) → 2 ^ t < n → (i : ℕ) × (2 ^ (t + i) < n) × (n ≤ 2 ^ suc (t + i))
bucket_of n t h =
    let l : ℕ = log2_c (n - 1) in
    let b = log2_c_bracket (n - 1) in
    let pos = two-pow-pos t in
    let t-lt-l : t < l = two-pow-lt_inv t l (omega (arith, b)) in
    let e : t + (l - 1 - t) ≡ l - 1 = omega arith in
    let top : 2 ^ l ≡ 2 * 2 ^ (l - 1) = ap (λ k. 2 ^ k) (omega arith) ∙ two-pow-suc (l - 1) in
    (l - 1 - t, rw e (omega (arith, b, top)), rw e (omega (arith, b, top, two-pow-suc (l - 1))))

-- Tiny heap `i` takes the requests above 8 i up to 8 (i + 1).
pub tiny_bucket_index_lem :
    (n : ℕ)
    → 1 ≤ n
    → n < 2 ^ 63
    → tiny_bucket_index n tiny_increment tiny_increment_shift ≡ (n - 1) / 8
unfolding tiny_bucket_index
tiny_bucket_index_lem n lo hi = omega arith

-- A request of zero bytes wraps below the first index.
pub tiny_bucket_index-zero : tiny_bucket_index 0 tiny_increment tiny_increment_shift ≡ size_mod - 1
unfolding tiny_bucket_index
tiny_bucket_index-zero = refl
