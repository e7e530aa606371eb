-- ===== src/Heap/Larger.antt =====
-- A heap that has got a fixed-size heap for huge requests (include/hwmalloc/heap.hpp).
use native.Mathlib.Decide.{ℕ_discrete}
use mathlib.Core.Path.{subst₂}
use hwmalloc.Base.{
  ℕ, ◌≡◌, ◌≢◌, ◌⊎◌, inl, inr, refl, sym, ap, subst, ◌∙◌, Bool, none, some, List, ◌∷◌, arith,
  Option-cases, ne→==,
}
use hwmalloc.Platform.{Block, Platform, IsStack}
use hwmalloc.Pool.{Pool, find}
use hwmalloc.Pool.Map.{find-nil}
use hwmalloc.FixedSizeHeap.{FixedSizeHeap, make_fixed_size_heap}
use hwmalloc.FixedSizeHeap
use hwmalloc.Heap.{
  State, Place, in_tiny_heaps, in_heaps, in_huge_heaps, find_huge, get_at, huge_heap_for,
}
use hwmalloc.Heap.Spots.{Spot, slot_at, pool_at}
use hwmalloc.Heap.Spots.Laws.{pool_at-cases, pool_at_lem, pool_at-none}
use hwmalloc.Heap.Whole.{Member, Member-later, Whole}
use hwmalloc.Heap.Fresh.{make_fixed_size_heap-Making}
use hwmalloc.Heap.Starts.{New-Member}

module _ {W R H S : Type 0} (env : Platform W R H S) (laws : IsStack env.stack) where
  -- The part of `allocate` for huge requests keeps the heap whole.
  module _ (locked : Spot → Bool) (s : State W R S) (live : Spot → List (Block H))
      (v : Whole env laws locked s live) (r : ℕ)
      (missing : find_huge r s.heap.huge_heaps ≡ none) where
    abbrev pub made : FixedSizeHeap.State W R S
    made =
        make_fixed_size_heap env s.world s.next_object r r s.heap.config.never_free
          s.heap.config.num_reserve_segments

    abbrev pub larger : State W R S
    larger = record s {
      next_object = made.next_object;
      heap = record s.heap { huge_heaps = (r, made.heap) ∷ s.heap.huge_heaps };
    }

    pub huge_heap_for_lem : huge_heap_for env r s ≡ larger
    unfolding huge_heap_for
    huge_heap_for_lem = rw (missing, huge_heap_for) refl

    -- What stands at a place afterwards.
    pub larger-cases :
        (a : Place) (f : FixedSizeHeap R S)
        → get_at larger.heap a ≡ some f
        → ((a ≡ in_huge_heaps r) × (made.heap ≡ f))
          ⊎ ((a ≢ in_huge_heaps r) × (get_at s.heap a ≡ some f))
    unfolding get_at find_huge
    larger-cases (in_tiny_heaps i) f e = inr (λ h. cc, e)
    larger-cases (in_heaps i) f e = inr (λ h. cc, e)
    larger-cases (in_huge_heaps k) f e = elim (ℕ_discrete r k) [
      | yes same ↦ inl (ap in_huge_heaps (sym same), ground (arith, e, same))
      | no other ↦ inr (λ h. other (ground (arith, h)), ground (arith, e, other))
    ]

    absent : get_at s.heap (in_huge_heaps r) ≡ none
    unfolding get_at
    absent = missing

    pub larger_ne : (a : Place) → a ≢ in_huge_heaps r → get_at larger.heap a ≡ get_at s.heap a
    unfolding get_at find_huge
    larger_ne (in_tiny_heaps i) ne = refl
    larger_ne (in_heaps i) ne = refl
    larger_ne (in_huge_heaps k) ne = rw (ne→== r k (λ e. ne (ap in_huge_heaps (sym e)))) refl

    -- What was there is there still.
    pub larger_old :
        (a : Place) (f : FixedSizeHeap R S)
        → get_at s.heap a ≡ some f
        → get_at larger.heap a ≡ some f
    larger_old a f e =
        larger_ne a (λ here. absurd (ground (arith, e, ap (get_at s.heap) here, absent))) ∙ e

    -- A pool that is there afterwards was there, or is one of the new ones.
    larger_pool :
        (t : Spot) (p : Pool R S)
        → pool_at larger.heap t ≡ some p
        → ((t.0 ≡ in_huge_heaps r) × (slot_at made.heap t.1 ≡ some p) × (pool_at s.heap t ≡ none))
          ⊎ (pool_at s.heap t ≡ some p)
    unfolding pool_at
    larger_pool t p e =
        let (f, there, slot) = pool_at-cases larger.heap t p e in
        elim (larger-cases t.0 f there) [
          | inl (here, same) ↦ inl (
            here,
            ap (λ x. slot_at x t.1) same ∙ slot,
            pool_at-none s.heap t (ap (get_at s.heap) here ∙ absent),
          )
          | inr (other, old) ↦ inr (pool_at_lem s.heap t f old ∙ slot)
        ]

    pub huge_heap_for-Whole : Whole env laws locked (huge_heap_for env r s) live
    huge_heap_for-Whole =
        let (le, fresh) =
          make_fixed_size_heap-Making env laws s.world s.next_object r r s.heap.config.never_free
            s.heap.config.num_reserve_segments in
        subst (λ x. Whole env laws locked x live) (sym huge_heap_for_lem)
          (record {
            unlocked = v.unlocked;
            started = omega (arith, v.started, le);
            members = λ t p e. elim (larger_pool t p e) [
              | inl (here, slot, gone) ↦
                  let (empty, open_now) = v.nowhere t gone in
                  subst₂ (λ b bs. Member env laws made.next_object b p bs) (sym open_now)
                    (sym empty)
                    (New-Member env laws s.next_object made.next_object p (fresh.new t.1 p slot))
              | inr old ↦
                  Member-later env laws s.next_object made.next_object (locked t) p (live t) le
                    (v.members t p old)
            ];
            nowhere = λ t e. elim (Option-cases (pool_at s.heap t)) [
              | inl gone ↦ v.nowhere t gone
              | inr (p, old) ↦
                  let (f, there, slot) = pool_at-cases s.heap t p old in
                  absurd
                    (ground (arith, e, pool_at_lem larger.heap t f (larger_old t.0 f there), slot))
            ];
            one_pool = λ t u p q e e' same. elim (larger_pool t p e) [
              | inl (here, slot, gone) ↦ elim (larger_pool u q e') [
                | inl (here', slot', gone') ↦
                    let tu = fresh.one t.1 u.1 p q slot slot' same in
                    λ i. ((here ∙ sym here') i, tu i)
                | inr old' ↦
                    absurd (
                      omega (arith, (fresh.new t.1 p slot).above, (v.members u q old').older, same))
              ]
              | inr old ↦ elim (larger_pool u q e') [
                | inl (here', slot', gone') ↦
                    absurd (
                      omega (arith, (fresh.new u.1 q slot').above, (v.members t p old).older, same))
                | inr old' ↦ v.one_pool t u p q old old' same
              ]
            ];
            one_segment = λ t u p q a g h e e' eg eh. elim (larger_pool t p e) [
              | inl (here, slot, gone) ↦
                  absurd (find-nil a g (ap (find a) (sym (fresh.new t.1 p slot).empty) ∙ eg))
              | inr old ↦ elim (larger_pool u q e') [
                | inl (here', slot', gone') ↦
                    absurd (find-nil a h (ap (find a) (sym (fresh.new u.1 q slot').empty) ∙ eh))
                | inr old' ↦ v.one_segment t u p q a g h old old' eg eh
              ]
            ];
          })
