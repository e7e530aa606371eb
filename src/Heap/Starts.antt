-- ===== src/Heap/Starts.antt =====
-- A new heap (include/hwmalloc/heap.hpp) is whole.
use hwmalloc.Base.{
  ℕ, zero, suc, ◌≤◌, ◌≡◌, refl, sym, ap, ◌∙◌, false, Option, none, some, List, [], ◌∷◌, get_elem?,
  arith,
}
use hwmalloc.Config.{HeapConfig}
use hwmalloc.SizeClass.{SizeClass, tiny_heaps, heaps}
use hwmalloc.Platform.{Platform, IsStack}
use hwmalloc.Pool.{Pool, find}
use hwmalloc.Pool.Map.{find-nil}
use hwmalloc.FixedSizeHeap.{FixedSizeHeap, make_fixed_size_heap}
use hwmalloc.Heap.{
  State, Place, in_tiny_heaps, in_heaps, in_huge_heaps, find_huge, pointer_at, get_at, make_heaps,
  heap_of,
}
use hwmalloc.Heap.Spots.{Slot, Spot, slot_at, pool_at}
use hwmalloc.Heap.Spots.Laws.{pool_at-cases}
use hwmalloc.Heap.Whole.{Member, Whole}
use hwmalloc.Heap.Fresh.{New, New-wider, Fresh, make_fixed_size_heap-Making}

module _ {W R H S : Type 0} (env : Platform W R H S) (laws : IsStack env.stack) where
  -- All pools of a vector of fixed-size heaps are new, and no two share an address.
  record AllFresh (lo hi : ℕ) (hs : List (Option (FixedSizeHeap R S))) : Type 0 where
    pub ordered : lo ≤ hi
    pub new :
        (i : ℕ) (f : FixedSizeHeap R S) (t : Slot) (p : Pool R S)
        → pointer_at (get_elem? hs i) ≡ some f
        → slot_at f t ≡ some p
        → New env laws lo hi p
    pub one :
        (i j : ℕ) (f g : FixedSizeHeap R S) (t u : Slot) (p q : Pool R S)
        → pointer_at (get_elem? hs i) ≡ some f
        → pointer_at (get_elem? hs j) ≡ some g
        → slot_at f t ≡ some p
        → slot_at g u ≡ some q
        → p.self ≡ q.self
        → (i ≡ j) × (t ≡ u)

  one_heap :
      (f g : FixedSizeHeap R S) (t : Slot) (p : Pool R S)
      → ◌≡◌ {A = Option (FixedSizeHeap R S)} (some f) (some g)
      → slot_at g t ≡ some p
      → slot_at f t ≡ some p
  one_heap f g t p e h = let same : f ≡ g = cc in ap (λ x. slot_at x t) same ∙ h

  cons-AllFresh :
      (lo mid hi : ℕ) (f : FixedSizeHeap R S) (hs : List (Option (FixedSizeHeap R S)))
      → lo ≤ mid
      → Fresh env laws lo mid f
      → AllFresh mid hi hs
      → AllFresh lo hi (some f ∷ hs)
  cons-AllFresh lo mid hi f hs h first rest = record {
    ordered = omega (arith, h, rest.ordered);
    new = new_at;
    one = one_at;
  }
    where
      new_at :
          (i : ℕ) (g : FixedSizeHeap R S) (t : Slot) (p : Pool R S)
          → pointer_at (get_elem? (some f ∷ hs) i) ≡ some g
          → slot_at g t ≡ some p
          → New env laws lo hi p
      new_at zero g t p e s =
          New-wider env laws lo mid lo hi p (omega arith) rest.ordered
            (first.new t p (one_heap f g t p e s))
      new_at (suc i) g t p e s =
          New-wider env laws mid hi lo hi p h (omega arith) (rest.new i g t p e s)

      one_at :
          (i j : ℕ) (g k : FixedSizeHeap R S) (t u : Slot) (p q : Pool R S)
          → pointer_at (get_elem? (some f ∷ hs) i) ≡ some g
          → pointer_at (get_elem? (some f ∷ hs) j) ≡ some k
          → slot_at g t ≡ some p
          → slot_at k u ≡ some q
          → p.self ≡ q.self
          → (i ≡ j) × (t ≡ u)
      one_at zero zero g k t u p q e e' s s' same =
          (refl, first.one t u p q (one_heap f g t p e s) (one_heap f k u q e' s') same)
      one_at zero (suc j) g k t u p q e e' s s' same = absurd (
          omega (
            arith,
            (first.new t p (one_heap f g t p e s)).below,
            (rest.new j k u q e' s').above,
            same,
          ))
      one_at (suc i) zero g k t u p q e e' s s' same = absurd (
          omega (
            arith,
            (first.new u q (one_heap f k u q e' s')).below,
            (rest.new i g t p e s).above,
            same,
          ))
      one_at (suc i) (suc j) g k t u p q e e' s s' same =
          let (ij, tu) = rest.one i j g k t u p q e e' s s' same in (ap suc ij, tu)

  null-AllFresh :
      (lo hi : ℕ) (hs : List (Option (FixedSizeHeap R S)))
      → AllFresh lo hi hs
      → AllFresh lo hi (none ∷ hs)
  null-AllFresh lo hi hs rest = record { ordered = rest.ordered; new = new_at; one = one_at }
    where
      new_at :
          (i : ℕ) (g : FixedSizeHeap R S) (t : Slot) (p : Pool R S)
          → pointer_at (get_elem? (none ∷ hs) i) ≡ some g
          → slot_at g t ≡ some p
          → New env laws lo hi p
      new_at zero g t p e s = cc
      new_at (suc i) g t p e s = rest.new i g t p e s

      one_at :
          (i j : ℕ) (g k : FixedSizeHeap R S) (t u : Slot) (p q : Pool R S)
          → pointer_at (get_elem? (none ∷ hs) i) ≡ some g
          → pointer_at (get_elem? (none ∷ hs) j) ≡ some k
          → slot_at g t ≡ some p
          → slot_at k u ≡ some q
          → p.self ≡ q.self
          → (i ≡ j) × (t ≡ u)
      one_at zero j g k t u p q e e' s s' same = cc
      one_at (suc i) zero g k t u p q e e' s s' same = cc
      one_at (suc i) (suc j) g k t u p q e e' s s' same =
          let (ij, tu) = rest.one i j g k t u p q e e' s s' same in (ap suc ij, tu)

  make_heaps-AllFresh :
      (c : HeapConfig) (w : W) (next : ℕ) (ks : List (Option SizeClass))
      → AllFresh next (make_heaps env c w next ks).1 (make_heaps env c w next ks).0
  unfolding make_heaps
  make_heaps-AllFresh c w next [] = record {
    ordered = omega arith;
    new = λ i f t p e s. cc;
    one = λ i j f g t u p q e e' s s' same. cc;
  }
  make_heaps-AllFresh c w next (none ∷ ks) =
      null-AllFresh next _ _ (make_heaps-AllFresh c w next ks)
  make_heaps-AllFresh c w next (some k ∷ ks) =
      let made =
        make_fixed_size_heap env w next k.block_size k.segment_size c.never_free
          c.num_reserve_segments in
      let (le, fresh) =
        make_fixed_size_heap-Making env laws w next k.block_size k.segment_size c.never_free
          c.num_reserve_segments in
      cons-AllFresh next made.next_object _ made.heap _ le fresh
        (make_heaps-AllFresh c w made.next_object ks)

  pub New-Member : (lo hi : ℕ) (p : Pool R S) → New env laws lo hi p → Member env laws hi false p []
  New-Member lo hi p v = record {
    mutex = v.unlocked;
    sound = v.sound hi;
    older = v.below;
    own = λ a g e. absurd (find-nil a g (ap (find a) (sym v.empty) ∙ e));
  }

  module _ (c : HeapConfig) (w : W) (next m : ℕ) where
    abbrev start : State W R S
    unfolding heap_of
    start = heap_of env c w next m

    start_new :
        (a : Place) (f : FixedSizeHeap R S) (t : Slot) (p : Pool R S)
        → get_at start.heap a ≡ some f
        → slot_at f t ≡ some p
        → New env laws next start.next_object p
    unfolding start get_at find_huge
    start_new (in_tiny_heaps i) f t p e s =
        let v = make_heaps-AllFresh c w next (tiny_heaps c) in
        let u = make_heaps-AllFresh c w (make_heaps env c w next (tiny_heaps c)).1 (heaps c m) in
        New-wider env laws _ _ _ _ p (omega arith) u.ordered (v.new i f t p e s)
    start_new (in_heaps i) f t p e s =
        let v = make_heaps-AllFresh c w next (tiny_heaps c) in
        let u = make_heaps-AllFresh c w (make_heaps env c w next (tiny_heaps c)).1 (heaps c m) in
        New-wider env laws _ _ _ _ p v.ordered (omega arith) (u.new i f t p e s)
    start_new (in_huge_heaps k) f t p e s = cc

    start_one :
        (a b : Place) (f g : FixedSizeHeap R S) (t u : Slot) (p q : Pool R S)
        → get_at start.heap a ≡ some f
        → get_at start.heap b ≡ some g
        → slot_at f t ≡ some p
        → slot_at g u ≡ some q
        → p.self ≡ q.self
        → (a ≡ b) × (t ≡ u)
    unfolding start get_at find_huge
    start_one (in_huge_heaps k) b f g t u p q e e' s s' same = cc
    start_one (in_tiny_heaps i) (in_huge_heaps k) f g t u p q e e' s s' same = cc
    start_one (in_heaps i) (in_huge_heaps k) f g t u p q e e' s s' same = cc
    start_one (in_tiny_heaps i) (in_tiny_heaps j) f g t u p q e e' s s' same =
        let v = make_heaps-AllFresh c w next (tiny_heaps c) in
        let (ij, tu) = v.one i j f g t u p q e e' s s' same in (ap in_tiny_heaps ij, tu)
    start_one (in_heaps i) (in_heaps j) f g t u p q e e' s s' same =
        let v = make_heaps-AllFresh c w (make_heaps env c w next (tiny_heaps c)).1 (heaps c m) in
        let (ij, tu) = v.one i j f g t u p q e e' s s' same in (ap in_heaps ij, tu)
    start_one (in_tiny_heaps i) (in_heaps j) f g t u p q e e' s s' same =
        let v = make_heaps-AllFresh c w next (tiny_heaps c) in
        let x = make_heaps-AllFresh c w (make_heaps env c w next (tiny_heaps c)).1 (heaps c m) in
        absurd (omega (arith, (v.new i f t p e s).below, (x.new j g u q e' s').above, same))
    start_one (in_heaps i) (in_tiny_heaps j) f g t u p q e e' s s' same =
        let v = make_heaps-AllFresh c w next (tiny_heaps c) in
        let x = make_heaps-AllFresh c w (make_heaps env c w next (tiny_heaps c)).1 (heaps c m) in
        absurd (omega (arith, (v.new j g u q e' s').below, (x.new i f t p e s).above, same))

    -- A new heap is whole: no caller holds a block, and no mutex is locked.
    pub heap_of-Whole : 1 ≤ next → Whole env laws (λ t. false) (heap_of env c w next m) (λ t. [])
    unfolding start heap_of
    heap_of-Whole pos =
        let v = make_heaps-AllFresh c w next (tiny_heaps c) in
        let u = make_heaps-AllFresh c w (make_heaps env c w next (tiny_heaps c)).1 (heaps c m) in
        let new : (t : Spot) (p : Pool R S)
            → pool_at start.heap t ≡ some p
            → New env laws next start.next_object p =
          λ t p e.
            let (f, there, slot) = pool_at-cases start.heap t p e in
            start_new t.0 f t.1 p there slot in
        record {
          unlocked = refl;
          started = omega (arith, pos, v.ordered, u.ordered);
          members = λ t p e. New-Member next start.next_object p (new t p e);
          nowhere = λ t e. (refl, refl);
          one_pool = λ t k p q e e' same.
              let (f, there, slot) = pool_at-cases start.heap t p e in
              let (g, there', slot') = pool_at-cases start.heap k q e' in
              let (ab, tu) = start_one t.0 k.0 f g t.1 k.1 p q there there' slot slot' same in
              λ i. (ab i, tu i);
          one_segment = λ t k p q a g h e e' eg eh.
              absurd (find-nil a g (ap (find a) (sym (new t p e).empty) ∙ eg));
        }
