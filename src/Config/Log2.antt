-- ===== src/Config/Log2.antt =====
-- `log2_c` and `round_to_pow_of_2` (include/hwmalloc/heap_config.hpp) against their mathematical
-- meaning.
use hwmalloc.Base.{
  ℕ, zero, suc, ◌+◌, ◌-◌, ◌*◌, ◌/◌, ◌^◌, ◌≤◌, ◌<◌, max, ◌≡◌, refl, ap, ◌∙◌, ◌⊎◌, inl, inr, none,
  some, arith, ltb, if◌then◌else◌, sub_size, size_mod, Bool-cases, lt→ltb, le→ltb, ltb→lt,
  two-pow-suc, two-pow-one-add, two-pow_mono, two-pow-le_inv, two-pow-lt_inv, two-pow-pos,
}
use hwmalloc.Config.{log2_fuel, log2_c, round_to_pow_of_2}

-- With enough fuel the result's power of two is above `n` and at most twice `n`.
log2_fuel_bracket :
    (f n : ℕ)
    → n ≤ f
    → (n < 2 ^ log2_fuel f n) × (2 ^ log2_fuel f n ≤ 2 * max n 1) × (1 ≤ log2_fuel f n)
unfolding log2_fuel
log2_fuel_bracket zero n h = omega arith
log2_fuel_bracket (suc f) n h = elim (Bool-cases (ltb n 2)) [
  | inl small ↦ rw small (omega (arith, ltb→lt n 2 small))
  | inr big ↦
      let big' : 2 ≤ n = ground arith in
      let ih = log2_fuel_bracket f (n / 2) (omega arith) in
      rw (big) (omega (arith, two-pow-one-add (log2_fuel f (n / 2)), ih))
]

pub log2_c_bracket : (n : ℕ) → (n < 2 ^ log2_c n) × (2 ^ log2_c n ≤ 2 * max n 1) × (1 ≤ log2_c n)
unfolding log2_c
log2_c_bracket n = log2_fuel_bracket n n (omega arith)

-- The number of binary digits.
pub log2_c_unique : (n k : ℕ) → 2 ^ k ≤ n → n < 2 ^ suc k → log2_c n ≡ suc k
log2_c_unique n k lo hi =
    let b = log2_c_bracket n in
    let above : log2_c n ≤ suc k =
      two-pow-le_inv (log2_c n) (suc k) (omega (arith, two-pow-pos k, two-pow-suc (suc k), b)) in
    let below : k < log2_c n = two-pow-lt_inv k (log2_c n) (omega (arith, b)) in omega arith

pub log2_c-pow : (k : ℕ) → log2_c (2 ^ k) ≡ suc k
log2_c-pow k = log2_c_unique (2 ^ k) k (omega arith) (omega (arith, two-pow-suc k, two-pow-pos k))

pub log2_c_mono : (m n : ℕ) → m ≤ n → log2_c m ≤ log2_c n
log2_c_mono m n h = two-pow-le_inv (log2_c m) (log2_c n) (
    omega (
      arith,
      log2_c_bracket m,
      log2_c_bracket n,
      two-pow-suc (log2_c n),
      two-pow_mono 1 (log2_c n) (log2_c_bracket n).2,
    ))

log2_c_small : (n : ℕ) → n < 2 → log2_c n ≡ 1
log2_c_small n h =
    omega (arith, log2_c_bracket n, two-pow-le_inv (log2_c n) 1 (omega (arith, log2_c_bracket n)))

-- `log2_c` satisfies the recursion that the source defines it by: the fuel never runs out.
pub log2_c_lem : (n : ℕ) → log2_c n ≡ (if ltb n 2 then 1 else 1 + log2_c (n / 2))
log2_c_lem n = elim (Bool-cases (ltb n 2)) [
  | inl small ↦ rw small (log2_c_small n (ltb→lt n 2 small))
  | inr big ↦
      let m : ℕ = n / 2 in
      let big' : 2 ≤ n = ground arith in
      let b = log2_c_bracket m in
      rw big (
        log2_c_unique n (log2_c m) (omega (arith, b)) (omega (arith, b, two-pow-suc (log2_c m)))
        ∙ omega arith)
]

-- A power of two from `n` on, and not far above.
pub record IsRoundUp (n r : ℕ) : Type 0 where
  pub exponent : ℕ
  pub power : r ≡ 2 ^ exponent
  pub exponent_pos : 1 ≤ exponent
  pub exponent_small : exponent < 32
  pub above : n ≤ r
  pub tight : r ≤ 2 * max (n - 1) 1

-- From 1 to 2 ^ 31 the rounding is defined, and yields a power of two that is at least the argument
-- and at most twice the larger of its predecessor and 1.
pub round_to_pow_of_2-IsRoundUp :
    (n : ℕ) → 1 ≤ n → n ≤ 2 ^ 31 → (r : ℕ) × (round_to_pow_of_2 n ≡ some r) × IsRoundUp n r
unfolding round_to_pow_of_2
round_to_pow_of_2-IsRoundUp n lo hi =
    let e : sub_size n 1 ≡ n - 1 = omega arith in
    let b = log2_c_bracket (n - 1) in
    let small : log2_c (n - 1) < 32 = two-pow-lt_inv (log2_c (n - 1)) 32 (omega (arith, b)) in
    (
      2 ^ log2_c (n - 1),
      rw (e, lt→ltb _ _ small) refl,
      record {
        exponent = log2_c (n - 1);
        power = refl;
        exponent_pos = b.2;
        exponent_small = small;
        above = omega (arith, b);
        tight = b.1;
      },
    )

-- It is undefined at 0 and above 2 ^ 31: there the shift count reaches the width of `1u`.
pub round_to_pow_of_2-none :
    (n : ℕ) → n < size_mod → (n ≡ 0) ⊎ (2 ^ 31 < n) → round_to_pow_of_2 n ≡ none
unfolding round_to_pow_of_2
round_to_pow_of_2-none n lt out =
    let m = sub_size n 1 in
    let large : 2 ^ 31 ≤ m = omega arith in
    let far : 31 < log2_c m = two-pow-lt_inv 31 (log2_c m) (omega (arith, log2_c_bracket m)) in
    rw (le→ltb (log2_c m) 32 far)

-- A larger size is not rounded to a smaller power.
pub round_to_pow_of_2_mono :
    (m n a b : ℕ)
    → 1 ≤ m
    → m ≤ n
    → n < size_mod
    → round_to_pow_of_2 m ≡ some a
    → round_to_pow_of_2 n ≡ some b
    → a ≤ b
unfolding round_to_pow_of_2
round_to_pow_of_2_mono m n a b pos le lt ea eb = ground (
  arith,
  two-pow_mono (log2_c (sub_size m 1)) (log2_c (sub_size n 1)),
  log2_c_mono (sub_size m 1) (sub_size n 1),
)

pub round_to_pow_of_2-pow : (k : ℕ) → 1 ≤ k → k < 32 → round_to_pow_of_2 (2 ^ k) ≡ some (2 ^ k)
unfolding round_to_pow_of_2
round_to_pow_of_2-pow k lo hi =
    let j : ℕ = k - 1 in
    let e : 2 ^ k ≡ 2 * 2 ^ j = ap (λ i. 2 ^ i) (omega arith) ∙ two-pow-suc j in
    let m : sub_size (2 ^ k) 1 ≡ 2 ^ k - 1 = omega (arith, two-pow_mono k 31, two-pow-pos k) in
    let l : log2_c (2 ^ k - 1) ≡ k =
      log2_c_unique (2 ^ k - 1) j (omega (arith, two-pow-pos j))
        (omega (arith, two-pow-pos j, two-pow-suc j))
      ∙ omega arith in
    rw (m, l, lt→ltb k 32 hi)
