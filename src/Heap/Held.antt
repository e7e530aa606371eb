-- ===== src/Heap/Held.antt =====
-- The blocks that callers of a heap (include/hwmalloc/heap.hpp) hold: as one list, and by the spot of
-- the pool that each is from.
use mathlib.Core.Path.{fun_ext}
use hwmalloc.Base.{
  ◌≡◌, ◌≢◌, refl, sym, ap, subst, ◌∙◌, Bool, List, [], ◌∷◌, ◌++◌, arith, count, count-append,
}
use hwmalloc.Platform.{Block}
use hwmalloc.Pool.Invariant.{SameBlocks}
use hwmalloc.Heap.Spots.{Spot}
use hwmalloc.Heap.Spots.Laws.{Spot-discrete}
use hwmalloc.Heap.Whole.{replaced, replaced_self, replaced_ne}

module _ {H : Type 0} where
  abbrev pub blocks : List (Spot × Block H) → List (Block H)
  blocks [] = []
  blocks ((t, b) ∷ ts) = b ∷ blocks ts

  abbrev add_if : {A : Type 0} → Dec A → Block H → List (Block H) → List (Block H)
  add_if (yes e) b bs = b ∷ bs
  add_if (no e) b bs = bs

  -- Those from the pool at one spot.
  unfoldable pub blocks_at : List (Spot × Block H) → Spot → List (Block H)
  blocks_at [] u = []
  blocks_at ((t, b) ∷ ts) u = add_if (Spot-discrete u t) b (blocks_at ts u)

  blocks_at_self :
      (t : Spot) (b : Block H) (ts : List (Spot × Block H))
      → blocks_at ((t, b) ∷ ts) t ≡ b ∷ blocks_at ts t
  unfolding blocks_at
  blocks_at_self t b ts =
      elim (Spot-discrete t t) as (λ d. add_if d b (blocks_at ts t) ≡ b ∷ blocks_at ts t) [
        | yes e ↦ refl
        | no ne ↦ absurd (ne refl)
      ]

  pub blocks_at-ne :
      (t u : Spot) (b : Block H) (ts : List (Spot × Block H))
      → u ≢ t
      → blocks_at ((t, b) ∷ ts) u ≡ blocks_at ts u
  unfolding blocks_at
  blocks_at-ne t u b ts ne =
      elim (Spot-discrete u t) as (λ d. add_if d b (blocks_at ts u) ≡ blocks_at ts u) [
        | yes e ↦ absurd (ne e)
        | no other ↦ refl
      ]

  add_if-append :
      {A : Type 0} (d : Dec A) (b : Block H) (both bs cs : List (Block H))
      → both ≡ bs ++ cs
      → add_if d b both ≡ add_if d b bs ++ cs
  add_if-append (yes e) b both bs cs h = ap (◌∷◌ b) h
  add_if-append (no e) b both bs cs h = h

  blocks_at-append :
      (xs ys : List (Spot × Block H)) (u : Spot)
      → blocks_at (xs ++ ys) u ≡ blocks_at xs u ++ blocks_at ys u
  unfolding blocks_at
  blocks_at-append [] ys u = refl
  blocks_at-append ((t, b) ∷ xs) ys u =
      add_if-append (Spot-discrete u t) b (blocks_at (xs ++ ys) u) (blocks_at xs u) (blocks_at ys u)
        (blocks_at-append xs ys u)

  -- A block more.
  pub blocks_at-granted :
      (t : Spot) (b : Block H) (ts : List (Spot × Block H))
      → replaced (blocks_at ts) t (b ∷ blocks_at ts t) ≡ blocks_at ((t, b) ∷ ts)
  blocks_at-granted t b ts = fun_ext λ u. elim (Spot-discrete u t) [
    | yes same ↦
        ap (replaced (blocks_at ts) t (b ∷ blocks_at ts t)) same
        ∙ replaced_self (blocks_at ts) t (b ∷ blocks_at ts t)
        ∙ sym (blocks_at_self t b ts)
        ∙ sym (ap (blocks_at ((t, b) ∷ ts)) same)
    | no other ↦
        replaced_ne (blocks_at ts) t u (b ∷ blocks_at ts t) other
        ∙ sym (blocks_at-ne t u b ts other)
  ]

  -- A block less.
  pub blocks_at-taken :
      (t : Spot) (b : Block H) (xs ys : List (Spot × Block H))
      → SameBlocks (blocks_at (xs ++ (t, b) ∷ ys) t) (b ∷ blocks_at (xs ++ ys) t)
  blocks_at-taken t b xs ys q = omega (
    arith,
    ap (count q) (blocks_at-append xs ((t, b) ∷ ys) t),
    ap (count q) (blocks_at-append xs ys t),
    count-append q (blocks_at xs t) (blocks_at ((t, b) ∷ ys) t),
    count-append q (blocks_at xs t) (blocks_at ys t),
    ap (count q) (blocks_at_self t b ys),
  )

  pub blocks_at-given_back :
      (t : Spot) (b : Block H) (xs ys : List (Spot × Block H))
      → replaced (blocks_at (xs ++ (t, b) ∷ ys)) t (blocks_at (xs ++ ys) t) ≡ blocks_at (xs ++ ys)
  blocks_at-given_back t b xs ys = fun_ext λ u. elim (Spot-discrete u t) [
    | yes same ↦
        ap (replaced (blocks_at (xs ++ (t, b) ∷ ys)) t (blocks_at (xs ++ ys) t)) same
        ∙ replaced_self (blocks_at (xs ++ (t, b) ∷ ys)) t (blocks_at (xs ++ ys) t)
        ∙ sym (ap (blocks_at (xs ++ ys)) same)
    | no other ↦
        replaced_ne (blocks_at (xs ++ (t, b) ∷ ys)) t u (blocks_at (xs ++ ys) t) other
        ∙ blocks_at-append xs ((t, b) ∷ ys) u
        ∙ ap (◌++◌ (blocks_at xs u)) (blocks_at-ne t u b ys other)
        ∙ sym (blocks_at-append xs ys u)
  ]

  pub blocks-append : (xs ys : List (Spot × Block H)) → blocks (xs ++ ys) ≡ blocks xs ++ blocks ys
  blocks-append [] ys = refl
  blocks-append ((t, b) ∷ xs) ys = ap (◌∷◌ b) (blocks-append xs ys)

  -- A member of the list, with the spot it is from.
  pub split_at :
      (ts : List (Spot × Block H)) (before : List (Block H)) (b : Block H) (rest : List (Block H))
      → blocks ts ≡ before ++ b ∷ rest
      → (xs : List (Spot × Block H)) × (t : Spot) × (ys : List (Spot × Block H)) × (ts
          ≡ xs ++ (t, b) ∷ ys)
        × (blocks (xs ++ ys) ≡ before ++ rest)
  split_at [] [] b rest e = cc
  split_at [] (x ∷ before) b rest e = cc
  split_at ((t, c) ∷ ts) [] b rest e =
      let cb : c ≡ b = cc in
      let tail : blocks ts ≡ rest = cc in ([], t, ts, (λ i. (t, cb i) ∷ ts), tail)
  split_at ((t, c) ∷ ts) (x ∷ before) b rest e =
      let cx : c ≡ x = cc in
      let tail : blocks ts ≡ before ++ b ∷ rest = cc in
      let (xs, u, ys, same, left) = split_at ts before b rest tail in
      ((t, c) ∷ xs, u, ys, (λ i. (t, c) ∷ same i), (λ i. cx i ∷ left i))

  -- If only blocks from one spot pass a test, it counts those.
  pub count-blocks_at :
      (q : Block H → Bool) (t : Spot) (ts : List (Spot × Block H))
      → ((u : Spot) → u ≢ t → count q (blocks_at ts u) ≡ 0)
      → count q (blocks ts) ≡ count q (blocks_at ts t)
  unfolding blocks_at
  count-blocks_at q t [] h = refl
  count-blocks_at q t ((u, b) ∷ ts) h = elim (Spot-discrete t u) [
    | yes same ↦
        let e =
          subst (λ x. blocks_at ((x, b) ∷ ts) t ≡ b ∷ blocks_at ts t) same
            (blocks_at_self t b ts) in
        omega (
          arith,
          ap (count q) e,
          count-blocks_at q t ts (λ v ne.
              ap (count q) (sym (blocks_at-ne u v b ts (λ x. ne (x ∙ sym same)))) ∙ h v ne),
        )
    | no other ↦
        let zero_here = h u (λ x. other (sym x)) in
        omega (
          arith,
          ap (count q) (blocks_at-ne u t b ts other),
          ap (count q) (blocks_at_self u b ts),
          zero_here,
          count-blocks_at q t ts (λ v ne. elim (Spot-discrete v u) [
            | yes vu ↦
                ap (λ x. count q (blocks_at ts x)) vu
                ∙ omega (arith, zero_here, ap (count q) (blocks_at_self u b ts))
            | no vne ↦ ap (count q) (sym (blocks_at-ne u v b ts vne)) ∙ h v ne
          ]),
        )
  ]
