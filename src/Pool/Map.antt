-- ===== src/Pool/Map.antt =====
-- `m_segments` of include/hwmalloc/detail/pool.hpp under its operations.
use native.Mathlib.Decide.{ℕ_discrete}
use hwmalloc.Base.{
  ap, eq→==, ne→==, ℕ, ◌≤◌, ◌<◌, ◌≡◌, ◌≢◌, ◌⊎◌, ◌∙◌, refl, sym, subst, none, some, List, [], ◌∷◌,
  arith, length,
}
use hwmalloc.Segment.{Segment}
use hwmalloc.Pool.{find, update, erase}

-- The keys fall along the list and stay under the bound: no two segments share an address.
abbrev pub Below : {R S : Type 0} → ℕ → List (ℕ × Segment R S) → Type 0
Below n [] = Unit {0}
Below n ((k, g) ∷ gs) = (k < n) × Below k gs

pub Below-mono :
    {R S : Type 0} (m n : ℕ) (gs : List (ℕ × Segment R S)) → m ≤ n → Below m gs → Below n gs
Below-mono m n [] h b = tt
Below-mono m n ((k, g) ∷ gs) h b = (omega arith, b.1)

pub update-Below :
    {R S : Type 0} (n a : ℕ) (g : Segment R S) (gs : List (ℕ × Segment R S))
    → Below n gs
    → Below n (update a g gs)
unfolding update
update-Below n a g [] b = tt
update-Below n a g ((k, h) ∷ gs) b = ground (arith, update-Below k a g gs b.1)

pub erase-Below :
    {R S : Type 0} (n a : ℕ) (gs : List (ℕ × Segment R S)) → Below n gs → Below n (erase a gs)
unfolding erase
erase-Below n a [] b = tt
erase-Below n a ((k, h) ∷ gs) b = ground (arith, erase-Below k a gs b.1, Below-mono k n gs)

pub length-update :
    {R S : Type 0} (a : ℕ) (g : Segment R S) (gs : List (ℕ × Segment R S))
    → length (update a g gs) ≡ length gs
unfolding update
length-update a g [] = refl
length-update a g ((k, h) ∷ gs) = ground (arith, length-update a g gs)

pub find-nil : {R S : Type 0} (a : ℕ) (g : Segment R S) → find a [] ≡ some g → ⊥
unfolding find
find-nil a g e = cc

pub find-cons :
    {R S : Type 0} (a k : ℕ) (h g : Segment R S) (gs : List (ℕ × Segment R S))
    → find a ((k, h) ∷ gs) ≡ some g
    → ((k ≡ a) × (h ≡ g)) ⊎ ((k ≢ a) × (find a gs ≡ some g))
unfolding find
find-cons a k h g gs e = ground arith

pub find-update :
    {R S : Type 0} (a : ℕ) (g g' : Segment R S) (gs : List (ℕ × Segment R S))
    → find a gs ≡ some g
    → find a (update a g' gs) ≡ some g'
unfolding find update
find-update a g g' [] e = cc
find-update a g g' ((k, h) ∷ gs) e = ground (arith, find-update a g g' gs)

-- What is found after a write is what was written, or what was there.
pub find-update_cases :
    {R S : Type 0} (k a : ℕ) (g h : Segment R S) (gs : List (ℕ × Segment R S))
    → find k (update a g gs) ≡ some h
    → ((k ≡ a) × (g ≡ h)) ⊎ ((k ≢ a) × (find k gs ≡ some h))
unfolding find update
find-update_cases k a g h [] e = cc
find-update_cases k a g h ((j, f) ∷ gs) e = ground (arith, find-update_cases k a g h gs)

pub find-update_ne :
    {R S : Type 0} (k a : ℕ) (g : Segment R S) (gs : List (ℕ × Segment R S))
    → k ≢ a
    → find k (update a g gs) ≡ find k gs
unfolding find update
find-update_ne k a g [] ne = refl
find-update_ne k a g ((j, f) ∷ gs) ne = ground (arith, find-update_ne k a g gs)

pub find-update_found :
    {R S : Type 0} (k a : ℕ) (g h : Segment R S) (gs : List (ℕ × Segment R S))
    → find k gs ≡ some h
    → (h' : Segment R S) × (find k (update a g gs) ≡ some h')
find-update_found k a g h gs e = elim (ℕ_discrete k a) [
  | yes same ↦ (
    g,
    subst (λ j. find j (update a g gs) ≡ some g) (sym same)
        (find-update a h g gs (subst (λ j. find j gs ≡ some h) same e)),
  )
  | no other ↦ (h, find-update_ne k a g gs other ∙ e)
]

-- No segment has an address that the bound excludes.
pub find_above :
    {R S : Type 0} (a n : ℕ) (gs : List (ℕ × Segment R S)) → Below n gs → n ≤ a → find a gs ≡ none
unfolding find
find_above a n [] b h = refl
find_above a n ((k, g) ∷ gs) b h = ground (arith, find_above a k gs b.1)

-- What is found after a segment was erased is another one that was there.
pub find-erase_cases :
    {R S : Type 0} (k a n : ℕ) (h : Segment R S) (gs : List (ℕ × Segment R S))
    → Below n gs
    → find k (erase a gs) ≡ some h
    → (k ≢ a) × (find k gs ≡ some h)
unfolding find erase
find-erase_cases k a n h [] b e = cc
find-erase_cases k a n h ((j, g) ∷ gs) b e =
    ground (arith, find-erase_cases k a j h gs b.1, find_above a j gs b.1)

pub find-erase_ne :
    {R S : Type 0} (k a : ℕ) (gs : List (ℕ × Segment R S)) → k ≢ a → find k (erase a gs) ≡ find k gs
unfolding find erase
find-erase_ne k a [] ne = refl
find-erase_ne k a ((j, g) ∷ gs) ne = ground (arith, find-erase_ne k a gs)

-- Of two writes through the same pointer the later one stays.
pub update-update :
    {R S : Type 0} (a : ℕ) (g h : Segment R S) (gs : List (ℕ × Segment R S))
    → update a h (update a g gs) ≡ update a h gs
unfolding update
update-update a g h [] = refl
update-update a g h ((k, f) ∷ gs) = elim (ℕ_discrete k a) [
  | yes hit ↦ rw (eq→== k a hit) (rw (eq→== k a hit) refl)
  | no miss ↦ rw (ne→== k a miss) (rw (ne→== k a miss) (ap (◌∷◌ (k, f)) (update-update a g h gs)))
]
