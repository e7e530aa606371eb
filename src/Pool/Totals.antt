-- ===== src/Pool/Totals.antt =====
-- The segments of a pool taken together: all blocks that they were cut into, and all that were
-- given back to them, counted by any test, under the operations of the map.
use native.Mathlib.Decide.{ℕ_discrete}
use mathlib.Core.Path.{subst₂}
use hwmalloc.Base.{
  ℕ, ◌+◌, ◌≤◌, ◌≡◌, inl, inr, refl, sym, ap, subst, Bool, some, List, [], ◌∷◌, ◌++◌, arith, count,
  count-append, eq→==, ne→==,
}
use hwmalloc.Platform.{Block, Platform, IsStack}
use hwmalloc.Segment.{Segment, blocks_down}
use hwmalloc.Segment.Blocks.{owned_by, count-blocks_down_own, count-blocks_down_other}
use hwmalloc.Segment.Collect.{IsValid}
use hwmalloc.Pool.{find, update, erase}
use hwmalloc.Pool.Map.{Below, find-nil, find-cons}

module _ {W R H S : Type 0} (env : Platform W R H S) (laws : IsStack env.stack) where
  open laws use {contents}

  abbrev pub freed_all : List (ℕ × Segment R S) → List (Block H)
  freed_all [] = []
  freed_all ((k, g) ∷ gs) = contents g.freed_stack ++ freed_all gs

  abbrev pub blocks_all : List (ℕ × Segment R S) → List (Block H)
  blocks_all [] = []
  blocks_all ((k, g) ∷ gs) = blocks_down env k g g.num_blocks ++ blocks_all gs

  abbrev pub AllValid : List (ℕ × Segment R S) → Type 0
  AllValid [] = Unit {0}
  AllValid ((k, g) ∷ gs) = IsValid env laws k g × AllValid gs

  pub find-IsValid :
      (a : ℕ) (g : Segment R S) (gs : List (ℕ × Segment R S))
      → find a gs ≡ some g
      → AllValid gs
      → IsValid env laws a g
  find-IsValid a g [] e v = absurd (find-nil a g e)
  find-IsValid a g ((k, h) ∷ gs) e v = elim (find-cons a k h g gs e) [
    | inl (ka, hg) ↦ subst₂ (IsValid env laws) ka hg v.0
    | inr (ne, rest) ↦ find-IsValid a g gs rest v.1
  ]

  pub update-AllValid :
      (a : ℕ) (g : Segment R S) (gs : List (ℕ × Segment R S))
      → IsValid env laws a g
      → AllValid gs
      → AllValid (update a g gs)
  unfolding update
  update-AllValid a g [] v all = tt
  update-AllValid a g ((k, h) ∷ gs) v all = elim (ℕ_discrete k a) [
    | yes hit ↦ rw (eq→== k a hit) (subst (λ j. IsValid env laws j g) (sym hit) v, all.1)
    | no miss ↦ rw (ne→== k a miss) (all.0, update-AllValid a g gs v all.1)
  ]

  pub erase-AllValid : (a : ℕ) (gs : List (ℕ × Segment R S)) → AllValid gs → AllValid (erase a gs)
  unfolding erase
  erase-AllValid a [] all = tt
  erase-AllValid a ((k, h) ∷ gs) all = elim (ℕ_discrete k a) [
    | yes hit ↦ rw (eq→== k a hit) all.1
    | no miss ↦ rw (ne→== k a miss) (all.0, erase-AllValid a gs all.1)
  ]

  -- Writing to a segment changes the total of freed blocks by what changes in that segment.
  pub freed-update :
      (p : Block H → Bool) (a : ℕ) (g g' : Segment R S) (gs : List (ℕ × Segment R S))
      → find a gs ≡ some g
      → count p (freed_all (update a g' gs)) + count p (contents g.freed_stack)
        ≡ count p (freed_all gs) + count p (contents g'.freed_stack)
  unfolding find update
  freed-update p a g g' [] e = cc
  freed-update p a g g' ((k, h) ∷ gs) e = ground (
    arith,
    freed-update p a g g' gs,
    count-append p (contents h.freed_stack) (freed_all gs),
    count-append p (contents h.freed_stack) (freed_all (update a g' gs)),
    count-append p (contents g'.freed_stack) (freed_all gs),
  )

  pub freed-erase :
      (p : Block H → Bool) (a : ℕ) (g : Segment R S) (gs : List (ℕ × Segment R S))
      → find a gs ≡ some g
      → count p (freed_all (erase a gs)) + count p (contents g.freed_stack) ≡ count p (freed_all gs)
  unfolding find erase
  freed-erase p a g [] e = cc
  freed-erase p a g ((k, h) ∷ gs) e = ground (
    arith,
    freed-erase p a g gs,
    count-append p (contents h.freed_stack) (freed_all gs),
    count-append p (contents h.freed_stack) (freed_all (erase a gs)),
  )

  -- Giving a block back does not change what the pool was cut into.
  pub blocks-update :
      (a : ℕ) (g g' : Segment R S) (gs : List (ℕ × Segment R S))
      → find a gs ≡ some g
      → blocks_down env a g' g'.num_blocks ≡ blocks_down env a g g.num_blocks
      → blocks_all (update a g' gs) ≡ blocks_all gs
  unfolding update
  blocks-update a g g' [] e same = absurd (find-nil a g e)
  blocks-update a g g' ((k, h) ∷ gs) e same = elim (find-cons a k h g gs e) [
    | inl (ka, hg) ↦ rw (eq→== k a ka) (
        ap (λ bs. bs ++ blocks_all gs)
          (subst₂ (λ j m. blocks_down env j g' g'.num_blocks ≡ blocks_down env j m m.num_blocks)
            (sym ka) (sym hg) same))
    | inr (ne, rest) ↦
        rw (ne→== k a ne)
          (ap (◌++◌ (blocks_down env k h h.num_blocks)) (blocks-update a g g' gs rest same))
  ]

  pub blocks-erase :
      (p : Block H → Bool) (a : ℕ) (g : Segment R S) (gs : List (ℕ × Segment R S))
      → find a gs ≡ some g
      → count p (blocks_all (erase a gs)) + count p (blocks_down env a g g.num_blocks)
        ≡ count p (blocks_all gs)
  unfolding erase
  blocks-erase p a g [] e = absurd (find-nil a g e)
  blocks-erase p a g ((k, h) ∷ gs) e = elim (find-cons a k h g gs e) [
    | inl (ka, hg) ↦
        let same : count p (blocks_down env k h h.num_blocks)
            ≡ count p (blocks_down env a g g.num_blocks) =
          subst₂
            (λ j m.
              count p (blocks_down env k h h.num_blocks)
              ≡ count p (blocks_down env j m m.num_blocks))
            ka hg refl in
        rw (eq→== k a ka)
          (omega (arith, same, count-append p (blocks_down env k h h.num_blocks) (blocks_all gs)))
    | inr (ne, rest) ↦ rw (ne→== k a ne) (
        omega (
          arith,
          blocks-erase p a g gs rest,
          count-append p (blocks_down env k h h.num_blocks) (blocks_all gs),
          count-append p (blocks_down env k h h.num_blocks) (blocks_all (erase a gs)),
        ))
  ]

  -- No block belongs to an address that the bound excludes.
  pub count-blocks_above :
      (a n : ℕ) (gs : List (ℕ × Segment R S))
      → Below n gs
      → n ≤ a
      → count (owned_by a) (blocks_all gs) ≡ 0
  count-blocks_above a n [] b h = refl
  count-blocks_above a n ((k, g) ∷ gs) b h = omega (
    arith,
    count-append (owned_by a) (blocks_down env k g g.num_blocks) (blocks_all gs),
    count-blocks_down_other env a k g g.num_blocks (omega arith),
    count-blocks_above a k gs b.1 (omega arith),
  )

  -- A segment owns as many blocks as it was cut into.
  pub count-blocks_own :
      (a n : ℕ) (g : Segment R S) (gs : List (ℕ × Segment R S))
      → Below n gs
      → find a gs ≡ some g
      → count (owned_by a) (blocks_all gs) ≡ g.num_blocks
  count-blocks_own a n g [] b e = absurd (find-nil a g e)
  count-blocks_own a n g ((k, h) ∷ gs) b e = elim (find-cons a k h g gs e) [
    | inl (ka, hg) ↦ omega (
      arith,
      count-append (owned_by a) (blocks_down env k h h.num_blocks) (blocks_all gs),
      subst (λ j. count (owned_by j) (blocks_down env k h h.num_blocks) ≡ h.num_blocks) ka
          (count-blocks_down_own env k h h.num_blocks),
      count-blocks_above a k gs b.1 (omega arith),
      ap (λ m. m.num_blocks) hg,
    )
    | inr (ne, rest) ↦ omega (
      arith,
      count-append (owned_by a) (blocks_down env k h h.num_blocks) (blocks_all gs),
      count-blocks_down_other env a k h h.num_blocks ne,
      count-blocks_own a k g gs b.1 rest,
    )
  ]

  -- A block that the pool was cut into points to one of its segments.
  pub find_of_owned :
      (a : ℕ) (gs : List (ℕ × Segment R S))
      → 1 ≤ count (owned_by a) (blocks_all gs)
      → (g : Segment R S) × (find a gs ≡ some g)
  unfolding find
  find_of_owned a [] h = absurd (omega arith)
  find_of_owned a ((k, g) ∷ gs) h = elim (ℕ_discrete k a) [
    | yes hit ↦ (g, rw (eq→== k a hit))
    | no miss ↦
        let (g', e) = find_of_owned a gs (
          omega (
            arith,
            count-append (owned_by a) (blocks_down env k g g.num_blocks) (blocks_all gs),
            count-blocks_down_other env a k g g.num_blocks miss,
          )) in
        (g', rw (ne→== k a miss) e)
  ]

  -- The freed blocks of one segment are among those of all.
  pub freed-le :
      (p : Block H → Bool) (a : ℕ) (g : Segment R S) (gs : List (ℕ × Segment R S))
      → find a gs ≡ some g
      → count p (contents g.freed_stack) ≤ count p (freed_all gs)
  freed-le p a g gs e = omega (arith, freed-erase p a g gs e)
