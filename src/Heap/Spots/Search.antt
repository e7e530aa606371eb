-- ===== src/Heap/Spots/Search.antt =====
-- Following the pointers of a block (include/hwmalloc/detail/block.hpp) through the pools of a heap.
use hwmalloc.Base.{
  ℕ, zero, suc, ◌<◌, ◌≡◌, ◌⊎◌, inl, inr, ap, subst, ◌∙◌, Option, some, List, [], ◌∷◌, ◌++◌,
  get_elem?, length, arith, Option-cases,
}
use native.Mathlib.Decide.{ℕ_discrete}
use hwmalloc.Pool.{Pool}
use hwmalloc.FixedSizeHeap.{FixedSizeHeap}
use hwmalloc.Heap.{
  Heap, Place, in_tiny_heaps, in_heaps, in_huge_heaps, get_at, find_huge, pointer_at,
}
use hwmalloc.Heap.Spots.{
  Slot, host, device, Spot, pool_or_none, slot_at, pool_at, up_to, spots_of, huge_places, places,
  slots, spots_from, spots,
}
use hwmalloc.Heap.Spots.Laws.{pool_at-cases}

abbrev pub Among : {A : Type 0} → A → List A → Type 0
Among a [] = ⊥
Among a (x ∷ xs) = (x ≡ a) ⊎ Among a xs

module _ {A : Type 0} where
  Among-append_left : (a : A) (xs ys : List A) → Among a xs → Among a (xs ++ ys)
  Among-append_left a (x ∷ xs) ys (inl e) = inl e
  Among-append_left a (x ∷ xs) ys (inr h) = inr (Among-append_left a xs ys h)
  Among-append_left a [] ys h = absurd h

  Among-append_right : (a : A) (xs ys : List A) → Among a ys → Among a (xs ++ ys)
  Among-append_right a [] ys h = h
  Among-append_right a (x ∷ xs) ys h = inr (Among-append_right a xs ys h)

  Among-up_to : (n i : ℕ) (f : ℕ → A) → i < n → Among (f i) (up_to n f)
  unfolding up_to
  Among-up_to zero i f h = absurd (omega arith)
  Among-up_to (suc n) i f h = elim (ℕ_discrete n i) [
    | yes last ↦ inl (ap f last)
    | no before ↦ inr (Among-up_to n i f (omega arith))
  ]

Among-spots_of : (p : Place) (t : Slot) (ts : List Slot) → Among t ts → Among (p, t) (spots_of p ts)
unfolding spots_of
Among-spots_of p t [] h = absurd h
Among-spots_of p t (u ∷ ts) (inl e) = inl (ap (λ x. (p, x)) e)
Among-spots_of p t (u ∷ ts) (inr h) = inr (Among-spots_of p t ts h)

module _ {R S : Type 0} where
  Among-huge_places :
      (k : ℕ) (f : FixedSizeHeap R S) (hs : List (ℕ × FixedSizeHeap R S))
      → find_huge k hs ≡ some f
      → Among (in_huge_heaps k) (huge_places hs)
  unfolding find_huge huge_places
  Among-huge_places k f [] e = cc
  Among-huge_places k f ((j, h) ∷ hs) e = elim (ℕ_discrete j k) [
    | yes here ↦ inl (ap in_huge_heaps here)
    | no miss ↦ inr (Among-huge_places k f hs (ground (arith, e)))
  ]

  heap-lt :
      (hs : List (Option (FixedSizeHeap R S))) (i : ℕ) (f : FixedSizeHeap R S)
      → pointer_at (get_elem? hs i) ≡ some f
      → i < length hs
  heap-lt [] i f e = cc
  heap-lt (h ∷ hs) zero f e = omega arith
  heap-lt (h ∷ hs) (suc i) f e = omega (arith, heap-lt hs i f e)

  pool-lt :
      (ps : List (Option (Pool R S))) (i : ℕ) (p : Pool R S)
      → pool_or_none (get_elem? ps i) ≡ some p
      → i < length ps
  pool-lt [] i p e = cc
  pool-lt (x ∷ ps) zero p e = omega arith
  pool-lt (x ∷ ps) (suc i) p e = omega (arith, pool-lt ps i p e)

  Among-places :
      (h : Heap R S) (p : Place) (f : FixedSizeHeap R S) → get_at h p ≡ some f → Among p (places h)
  unfolding get_at places
  Among-places h (in_tiny_heaps i) f e =
      Among-append_left _ (up_to (length h.tiny_heaps) in_tiny_heaps) _
        (Among-up_to (length h.tiny_heaps) i in_tiny_heaps (heap-lt h.tiny_heaps i f e))
  Among-places h (in_heaps i) f e =
      Among-append_right _ (up_to (length h.tiny_heaps) in_tiny_heaps) _ (
        Among-append_left _ (up_to (length h.heaps) in_heaps) _
          (Among-up_to (length h.heaps) i in_heaps (heap-lt h.heaps i f e)))
  Among-places h (in_huge_heaps k) f e =
      Among-append_right _ (up_to (length h.tiny_heaps) in_tiny_heaps) _ (
        Among-append_right _ (up_to (length h.heaps) in_heaps) _
          (Among-huge_places k f h.huge_heaps e))

  Among-slots :
      (f : FixedSizeHeap R S) (t : Slot) (p : Pool R S) → slot_at f t ≡ some p → Among t (slots f)
  unfolding slot_at slots
  Among-slots f (host i) p e =
      Among-append_left _ (up_to (length f.pools) host) _
        (Among-up_to (length f.pools) i host (pool-lt f.pools i p e))
  Among-slots f (device i) p e =
      Among-append_right _ (up_to (length f.pools) host) _
        (Among-up_to (length f.device_pools) i device (pool-lt f.device_pools i p e))

  Among-spots_from :
      (h : Heap R S) (p : Place) (f : FixedSizeHeap R S) (t : Slot) (ps : List Place)
      → get_at h p ≡ some f
      → Among t (slots f)
      → Among p ps
      → Among (p, t) (spots_from h ps)
  unfolding spots_from
  Among-spots_from h p f t [] e there m = absurd m
  Among-spots_from h p f t (q ∷ ps) e there (inl same) =
      rw (ap (get_at h) same ∙ e, spots_from)
        (Among-append_left (p, t) (spots_of q (slots f)) _
          (subst (λ x. Among (x, t) (spots_of q (slots f))) same
            (Among-spots_of q t (slots f) there)))
  Among-spots_from h p f t (q ∷ ps) e there (inr m) = elim (Option-cases (get_at h q)) [
    | inl gone ↦ rw (gone, spots_from) (Among-spots_from h p f t ps e there m)
    | inr (g, here) ↦
        rw (here, spots_from)
          (Among-append_right (p, t) (spots_of q (slots g)) _
            (Among-spots_from h p f t ps e there m))
  ]

  -- Every pool is at one of the spots that are searched.
  pub Among-spots :
      (h : Heap R S) (t : Spot) (p : Pool R S) → pool_at h t ≡ some p → Among t (spots h)
  unfolding spots
  Among-spots h t p e =
      let (f, there, slot) = pool_at-cases h t p e in
      Among-spots_from h t.0 f t.1 (places h) there (Among-slots f t.1 p slot)
        (Among-places h t.0 f there)
