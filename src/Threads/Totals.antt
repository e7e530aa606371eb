-- ===== src/Threads/Totals.antt =====
-- Numbers that are summed over all threads that use a pool (include/hwmalloc/detail/pool.hpp), with
-- one thread singled out.
use hwmalloc.Base.{
  ℕ, zero, suc, ◌+◌, ◌≤◌, ◌≡◌, refl, some, List, [], ◌∷◌, arith, length, get_elem?, set,
}

module _ {A : Type 0} where
  abbrev pub total : (A → ℕ) → List A → ℕ
  total f [] = 0
  total f (t ∷ ts) = f t + total f ts

  -- All but the one at an index.
  abbrev pub others : List A → ℕ → List A
  others [] i = []
  others (t ∷ ts) zero = ts
  others (t ∷ ts) (suc i) = t ∷ others ts i

  pub total-others :
      (f : A → ℕ) (ts : List A) (i : ℕ) (t : A)
      → get_elem? ts i ≡ some t
      → total f ts ≡ f t + total f (others ts i)
  total-others f [] i t e = cc
  total-others f (x ∷ xs) zero t e = ground arith
  total-others f (x ∷ xs) (suc i) t e = omega (arith, total-others f xs i t e)

  pub total-set :
      (f : A → ℕ) (ts : List A) (i : ℕ) (t u : A)
      → get_elem? ts i ≡ some t
      → total f (set ts i u) ≡ f u + total f (others ts i)
  total-set f [] i t u e = cc
  total-set f (x ∷ xs) zero t u e = refl
  total-set f (x ∷ xs) (suc i) t u e = omega (arith, total-set f xs i t u e)

  pub length-total : (ts : List A) → length ts ≡ total (λ t. 1) ts
  length-total [] = refl
  length-total (t ∷ ts) = omega (arith, length-total ts)

  pub total_mono : (f g : A → ℕ) (ts : List A) → ((t : A) → f t ≤ g t) → total f ts ≤ total g ts
  total_mono f g [] h = omega arith
  total_mono f g (t ∷ ts) h = omega (arith, h t, total_mono f g ts h)

  -- Where one number is positive, so is the other.
  pub total-pos :
      (f g : A → ℕ) (ts : List A) → ((t : A) → g t ≡ 0 → f t ≡ 0) → total g ts ≡ 0 → total f ts ≡ 0
  total-pos f g [] h z = refl
  total-pos f g (t ∷ ts) h z = omega (arith, h t (omega arith), total-pos f g ts h (omega arith))
