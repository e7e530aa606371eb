-- ===== src/Base/Words.antt =====
-- `std::size_t` arithmetic (64 bits) and the shifts that the library uses.
use Prim.Native.Nat.{ℕ, zero, suc, ◌+◌, ◌-◌, ◌*◌, ◌/◌, ◌%◌, ◌^◌, ◌≤◌, ◌<◌}
use mathlib.Core.Path.{◌≡◌, sym, ap, ◌∙◌}
use mathlib.Core.Option.{Option, none, some}
use native.Mathlib.Omega.{arith}
use native.Mathlib.Nat.{pow-suc, pow-le-pow_right, add-zero, add-suc, mod-eq_of_lt}
use native.Mathlib.Numerals.{one-add}
use hwmalloc.Base.Tests.{ltb, if◌then◌else◌}

abbrev pub size_mod : ℕ
size_mod = 2 ^ 64

-- a + b, a - b and a * b of size_t, which wrap around.
abbrev pub add_size : ℕ → ℕ → ℕ
add_size a b = (a + b) % size_mod

abbrev pub sub_size : ℕ → ℕ → ℕ
sub_size a b = (a + size_mod - b) % size_mod

abbrev pub mul_size : ℕ → ℕ → ℕ
mul_size a b = a * b % size_mod

-- a << k and a >> k of size_t, for k below 64.
abbrev pub shl_size : ℕ → ℕ → ℕ
shl_size a k = a * 2 ^ k % size_mod

abbrev pub shr_size : ℕ → ℕ → ℕ
shr_size a k = a / 2 ^ k

-- 1u << k of the 32-bit unsigned int: undefined (`none`) from k = 32 on.
abbrev pub shl_one_u : ℕ → Option ℕ
shl_one_u k = if ltb k 32 then some (2 ^ k) else none

pub two-pow-suc : (n : ℕ) → 2 ^ suc n ≡ 2 * 2 ^ n
two-pow-suc n = omega (arith, pow-suc 2 n)

pub two-pow-one-add : (n : ℕ) → 2 ^ (1 + n) ≡ 2 * 2 ^ n
two-pow-one-add n = rw one-add (two-pow-suc n)

pub two-pow-pos : (n : ℕ) → 1 ≤ 2 ^ n
two-pow-pos n = pow-le-pow_right {n = 2} (omega arith) {i = 0} {j = n} (omega arith)

pub two-pow_mono : (m n : ℕ) → m ≤ n → 2 ^ m ≤ 2 ^ n
two-pow_mono m n h = pow-le-pow_right {n = 2} (omega arith) h

pub two-pow-lt : (m n : ℕ) → m < n → 2 ^ m < 2 ^ n
two-pow-lt m n h = omega (arith, two-pow_mono (suc m) n h, two-pow-suc m, two-pow-pos m)

-- The exponent is determined by a bracket.
pub two-pow-le_inv : (m n : ℕ) → 2 ^ m < 2 ^ suc n → m ≤ n
two-pow-le_inv m n h = ground (arith, two-pow_mono (suc n) m)

pub two-pow-lt_inv : (m n : ℕ) → 2 ^ m < 2 ^ n → m < n
two-pow-lt_inv m n h = ground (arith, two-pow_mono n m)

pub two-pow-add : (m n : ℕ) → 2 ^ (m + n) ≡ 2 ^ m * 2 ^ n
two-pow-add m zero = rw add-zero (omega arith)
two-pow-add m (suc n) = rw add-suc (
    omega (
      arith,
      two-pow-suc (m + n),
      two-pow-suc n,
      two-pow-add m n,
      ap (λ (k : ℕ). 2 ^ m * k) (two-pow-suc n),
    ))

-- A power of two shifted left stays exact below 2 ^ 64.
pub shl_size-pow : (a e k j : ℕ) → a ≡ 2 ^ e → e + k ≡ j → j < 64 → shl_size a k ≡ 2 ^ j
shl_size-pow a e k j p q small =
    let product : a * 2 ^ k ≡ 2 ^ j =
      ap (λ b. b * 2 ^ k) p ∙ sym (two-pow-add e k) ∙ ap (λ i. 2 ^ i) q in
    rw product (mod-eq_of_lt (two-pow-lt j 64 small))
