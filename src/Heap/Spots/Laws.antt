-- ===== src/Heap/Spots/Laws.antt =====
-- Reading and writing the pools of a heap (include/hwmalloc/heap.hpp) by their spots.
use native.Mathlib.Decide.{ℕ_discrete}
use hwmalloc.Base.{
  ℕ, zero, suc, ◌≡◌, ◌≢◌, ◌⊎◌, inl, inr, refl, sym, ap, ◌∙◌, Option, none, some, List, [], ◌∷◌,
  get_elem?, set, arith, get_elem?-set_ne, Option-cases,
}
use hwmalloc.Pool.{Pool}
use hwmalloc.FixedSizeHeap.{FixedSizeHeap}
use hwmalloc.Heap.{
  Heap, Place, in_tiny_heaps, in_heaps, in_huge_heaps, get_at, put_at, find_huge, put_huge,
  pointer_at,
}
use hwmalloc.Heap.Spots.{
  Slot, host, device, Spot, pool_or_none, slot_at, put_slot, pool_at, put_pool,
}

pub Place-discrete : Discrete Place
Place-discrete = hlevel ℕ_discrete

pub Slot-discrete : Discrete Slot
Slot-discrete = hlevel ℕ_discrete

pub Spot-discrete : Discrete Spot
Spot-discrete = hlevel (Place-discrete, Slot-discrete)

module _ {R S : Type 0} where
  find_huge-put_huge_self :
      (k : ℕ) (f g : FixedSizeHeap R S) (hs : List (ℕ × FixedSizeHeap R S))
      → find_huge k hs ≡ some f
      → find_huge k (put_huge k g hs) ≡ some g
  unfolding find_huge put_huge
  find_huge-put_huge_self k f g [] e = cc
  find_huge-put_huge_self k f g ((j, h) ∷ hs) e = ground (arith, find_huge-put_huge_self k f g hs)

  find_huge-put_huge_ne :
      (j k : ℕ) (g : FixedSizeHeap R S) (hs : List (ℕ × FixedSizeHeap R S))
      → j ≢ k
      → find_huge j (put_huge k g hs) ≡ find_huge j hs
  unfolding find_huge put_huge
  find_huge-put_huge_ne j k g [] ne = refl
  find_huge-put_huge_ne j k g ((i, h) ∷ hs) ne = ground (arith, find_huge-put_huge_ne j k g hs ne)

  -- An element that is there can be overwritten.
  pointer_at-set :
      (hs : List (Option (FixedSizeHeap R S))) (i : ℕ) (f g : FixedSizeHeap R S)
      → pointer_at (get_elem? hs i) ≡ some f
      → pointer_at (get_elem? (set hs i (some g)) i) ≡ some g
  pointer_at-set [] i f g e = cc
  pointer_at-set (h ∷ hs) zero f g e = refl
  pointer_at-set (h ∷ hs) (suc i) f g e = pointer_at-set hs i f g e

  pool_or_none-set :
      (ps : List (Option (Pool R S))) (i : ℕ) (p q : Pool R S)
      → pool_or_none (get_elem? ps i) ≡ some p
      → pool_or_none (get_elem? (set ps i (some q)) i) ≡ some q
  pool_or_none-set [] i p q e = cc
  pool_or_none-set (x ∷ ps) zero p q e = refl
  pool_or_none-set (x ∷ ps) (suc i) p q e = pool_or_none-set ps i p q e

  pub get_at-put_at_self :
      (h : Heap R S) (p : Place) (f g : FixedSizeHeap R S)
      → get_at h p ≡ some f
      → get_at (put_at h p g) p ≡ some g
  unfolding get_at put_at
  get_at-put_at_self h (in_tiny_heaps i) f g e = pointer_at-set h.tiny_heaps i f g e
  get_at-put_at_self h (in_heaps i) f g e = pointer_at-set h.heaps i f g e
  get_at-put_at_self h (in_huge_heaps k) f g e = find_huge-put_huge_self k f g h.huge_heaps e

  pub get_at-put_at_ne :
      (h : Heap R S) (p q : Place) (g : FixedSizeHeap R S)
      → q ≢ p
      → get_at (put_at h p g) q ≡ get_at h q
  unfolding get_at put_at
  get_at-put_at_ne h (in_tiny_heaps i) (in_tiny_heaps j) g ne =
      ap pointer_at
        (get_elem?-set_ne h.tiny_heaps i j (some g) (λ e. ne (ap in_tiny_heaps (sym e))))
  get_at-put_at_ne h (in_heaps i) (in_heaps j) g ne =
      ap pointer_at (get_elem?-set_ne h.heaps i j (some g) (λ e. ne (ap in_heaps (sym e))))
  get_at-put_at_ne h (in_huge_heaps i) (in_huge_heaps j) g ne =
      find_huge-put_huge_ne j i g h.huge_heaps (λ e. ne (ap in_huge_heaps e))
  get_at-put_at_ne h (in_tiny_heaps i) (in_heaps j) g ne = refl
  get_at-put_at_ne h (in_tiny_heaps i) (in_huge_heaps j) g ne = refl
  get_at-put_at_ne h (in_heaps i) (in_tiny_heaps j) g ne = refl
  get_at-put_at_ne h (in_heaps i) (in_huge_heaps j) g ne = refl
  get_at-put_at_ne h (in_huge_heaps i) (in_tiny_heaps j) g ne = refl
  get_at-put_at_ne h (in_huge_heaps i) (in_heaps j) g ne = refl

  pub slot_at-put_slot_self :
      (f : FixedSizeHeap R S) (t : Slot) (p q : Pool R S)
      → slot_at f t ≡ some p
      → slot_at (put_slot f t q) t ≡ some q
  unfolding slot_at put_slot
  slot_at-put_slot_self f (host i) p q e = pool_or_none-set f.pools i p q e
  slot_at-put_slot_self f (device i) p q e = pool_or_none-set f.device_pools i p q e

  pub slot_at-put_slot_ne :
      (f : FixedSizeHeap R S) (t u : Slot) (q : Pool R S)
      → u ≢ t
      → slot_at (put_slot f t q) u ≡ slot_at f u
  unfolding slot_at put_slot
  slot_at-put_slot_ne f (host i) (host j) q ne =
      ap pool_or_none (get_elem?-set_ne f.pools i j (some q) (λ e. ne (ap host (sym e))))
  slot_at-put_slot_ne f (device i) (device j) q ne =
      ap pool_or_none (get_elem?-set_ne f.device_pools i j (some q) (λ e. ne (ap device (sym e))))
  slot_at-put_slot_ne f (host i) (device j) q ne = refl
  slot_at-put_slot_ne f (device i) (host j) q ne = refl

  -- The fixed-size heap of a pool that is there.
  pub pool_at-cases :
      (h : Heap R S) (t : Spot) (p : Pool R S)
      → pool_at h t ≡ some p
      → (f : FixedSizeHeap R S) × (get_at h t.0 ≡ some f) × (slot_at f t.1 ≡ some p)
  unfolding pool_at
  pool_at-cases h t p e = elim (Option-cases (get_at h t.0)) [
    | inl gone ↦ absurd (ground (arith, gone, e))
    | inr (f, there) ↦ (f, there, ground (arith, there, e))
  ]

  pub pool_at_lem :
      (h : Heap R S) (t : Spot) (f : FixedSizeHeap R S)
      → get_at h t.0 ≡ some f
      → pool_at h t ≡ slot_at f t.1
  unfolding pool_at
  pool_at_lem h t f e = rw (e, pool_at) refl

  pub pool_at-none : (h : Heap R S) (t : Spot) → get_at h t.0 ≡ none → pool_at h t ≡ none
  unfolding pool_at
  pool_at-none h t e = rw (e, pool_at) refl

  pub put_pool_lem :
      (h : Heap R S) (t : Spot) (f : FixedSizeHeap R S) (q : Pool R S)
      → get_at h t.0 ≡ some f
      → put_pool t q h ≡ put_at h t.0 (put_slot f t.1 q)
  unfolding put_pool
  put_pool_lem h t f q e = rw (e, put_pool) refl

  pub pool_at-put_pool_self :
      (h : Heap R S) (t : Spot) (p q : Pool R S)
      → pool_at h t ≡ some p
      → pool_at (put_pool t q h) t ≡ some q
  pool_at-put_pool_self h t p q e =
      let (f, there, slot) = pool_at-cases h t p e in
      ap (λ k. pool_at k t) (put_pool_lem h t f q there)
      ∙ pool_at_lem (put_at h t.0 (put_slot f t.1 q)) t (put_slot f t.1 q)
          (get_at-put_at_self h t.0 f (put_slot f t.1 q) there)
      ∙ slot_at-put_slot_self f t.1 p q slot

  pub pool_at-put_pool_ne :
      (h : Heap R S) (t u : Spot) (p q : Pool R S)
      → pool_at h t ≡ some p
      → u ≢ t
      → pool_at (put_pool t q h) u ≡ pool_at h u
  unfolding pool_at
  pool_at-put_pool_ne h t u p q e ne =
      let (f, there, slot) = pool_at-cases h t p e in
      let g = put_slot f t.1 q in
      ap (λ k. pool_at k u) (put_pool_lem h t f q there) ∙ elim (Place-discrete u.0 t.0) [
        | yes same ↦
            pool_at_lem (put_at h t.0 g) u g
              (ap (get_at (put_at h t.0 g)) same ∙ get_at-put_at_self h t.0 f g there)
            ∙ slot_at-put_slot_ne f t.1 u.1 q (λ slots_same. ne (λ i. (same i, slots_same i)))
            ∙ sym (pool_at_lem h u f (ap (get_at h) same ∙ there))
        | no other ↦
            ap (λ o. elim o as (λ x. Option (Pool R S)) [ none ↦ none | some k ↦ slot_at k u.1 ])
              (get_at-put_at_ne h t.0 u.0 g other)
      ]

  -- What a change of a pool leaves of the heap.
  abbrev Rest : Heap R S → Heap R S → Type 0
  Rest h k = (k.mutex ≡ h.mutex) × (k.config ≡ h.config) × (k.max_size ≡ h.max_size)

  put_at-Rest : (h : Heap R S) (p : Place) (g : FixedSizeHeap R S) → Rest h (put_at h p g)
  unfolding put_at
  put_at-Rest h (in_tiny_heaps i) g = (refl, refl, refl)
  put_at-Rest h (in_heaps i) g = (refl, refl, refl)
  put_at-Rest h (in_huge_heaps k) g = (refl, refl, refl)

  pub put_pool_rest :
      (h : Heap R S) (t : Spot) (q : Pool R S)
      → ((put_pool t q h).mutex ≡ h.mutex)
        × ((put_pool t q h).config ≡ h.config)
        × ((put_pool t q h).max_size ≡ h.max_size)
  unfolding put_pool
  put_pool_rest h t q = elim (Option-cases (get_at h t.0)) [
    | inl gone ↦ rw (gone, put_pool) (refl, refl, refl)
    | inr (f, there) ↦ rw (there, put_pool) (put_at-Rest h t.0 (put_slot f t.1 q))
  ]

  -- What stands at a place after a pool has changed: what stood there, with the change if it is the
  -- place of the pool.
  pub get_at-put_pool :
      (h : Heap R S) (t : Spot) (p q : Pool R S) (a : Place)
      → pool_at h t ≡ some p
      → (get_at (put_pool t q h) a ≡ get_at h a)
        ⊎ ((f : FixedSizeHeap R S) × (get_at h a ≡ some f)
            × (slot_at f t.1 ≡ some p)
            × (get_at (put_pool t q h) a ≡ some (put_slot f t.1 q)))
  get_at-put_pool h t p q a e =
      let (f, there, slot) = pool_at-cases h t p e in
      let g = put_slot f t.1 q in
      elim (Place-discrete a t.0) [
        | yes same ↦ inr (
          f,
          ap (get_at h) same ∙ there,
          slot,
          ap (λ k. get_at k a) (put_pool_lem h t f q there)
              ∙ ap (get_at (put_at h t.0 g)) same
              ∙ get_at-put_at_self h t.0 f g there,
        )
        | no other ↦
            inl
              (ap (λ k. get_at k a) (put_pool_lem h t f q there) ∙ get_at-put_at_ne h t.0 a g other)
      ]
