-- ===== src/SizeClass/Fill.antt =====
-- The loops that fill a vector of heaps: what stands at an index afterwards.
use hwmalloc.Base.{
  ℕ, zero, suc, ◌+◌, ◌≤◌, ◌<◌, ◌≡◌, refl, ◌∙◌, ◌⊎◌, inl, Option, some, List, arith, length,
  get_elem?, set, length-set, get_elem?-set_self, get_elem?-set_ne,
}
use native.Mathlib.Decide.{ℕ_discrete}
use hwmalloc.SizeClass.{SizeClass, fill}

module _ (make : ℕ → SizeClass) (first : ℕ) where
  pub length-fill :
      (i n : ℕ) (v : List (Option SizeClass)) → length (fill make first i n v) ≡ length v
  unfolding fill
  length-fill i zero v = refl
  length-fill i (suc n) v =
      length-fill (suc i) n (set v (first + i) (some (make i))) ∙ length-set v (first + i) _

  -- An index that the loop does not reach keeps its entry.
  pub fill-outside :
      (i n j : ℕ) (v : List (Option SizeClass))
      → (j < first + i) ⊎ (first + i + n ≤ j)
      → get_elem? (fill make first i n v) j ≡ get_elem? v j
  unfolding fill
  fill-outside i zero j v out = refl
  fill-outside i (suc n) j v out =
      fill-outside (suc i) n j (set v (first + i) (some (make i))) (omega arith)
      ∙ get_elem?-set_ne v (first + i) j (some (make i)) (omega arith)

  -- Round k of the loop sets the entry `first + k`.
  pub fill-inside :
      (i n k : ℕ) (v : List (Option SizeClass))
      → i ≤ k
      → k < i + n
      → first + k < length v
      → get_elem? (fill make first i n v) (first + k) ≡ some (some (make k))
  unfolding fill
  fill-inside i zero k v lo hi inside = absurd (omega arith)
  fill-inside i (suc n) k v lo hi inside = elim (ℕ_discrete i k) [
    | yes e ↦
        fill-outside (suc i) n (first + k) (set v (first + i) (some (make i))) (inl (omega arith))
        ∙ rw e (get_elem?-set_self v (first + k) (some (make k)) inside)
    | no ne ↦
        fill-inside (suc i) n k (set v (first + i) (some (make i))) (omega arith) (omega arith)
          (omega (arith, length-set v (first + i) (some (make i))))
  ]

  -- The same at an index that is known by an equation.
  pub fill-at :
      (n k j : ℕ) (v : List (Option SizeClass))
      → j ≡ first + k
      → k < n
      → j < length v
      → get_elem? (fill make first 0 n v) j ≡ some (some (make k))
  fill-at n k j v e h inside = rw e (fill-inside 0 n k v (omega arith) (omega arith) (omega arith))
