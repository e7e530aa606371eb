-- ===== src/Pool/Frame/Frees.antt =====
-- `free` of include/hwmalloc/detail/pool.hpp keeps to the frame of the pool.
use hwmalloc.Base.{
  ◌⊎◌, ℕ, ◌≡◌, inl, inr, refl, sym, ap, ◌∙◌, not, ◌&&◌, ltb, some, List, length, arith,
  Option-cases, subst,
}
use hwmalloc.Platform.{Block, Platform}
use hwmalloc.Pool.Pages.{Same}
use hwmalloc.Outcome.{Outcome, Ends, throws, returns, hangs}
use hwmalloc.Segment.{Segment, fill_free_stack, make_segment, is_empty}
use hwmalloc.Segment
use hwmalloc.Pool.{State, find, update, erase, lock, unlock, set_pool}
use hwmalloc.Pool.Free.{unguard, erase_segment, shrink, free}
use hwmalloc.Pool.Map.{find-update_cases, find-erase_cases, Below, update-Below}
use hwmalloc.Pool.Shrinks.{Erased, erase_segment-Erased}
use hwmalloc.Pool.Frame.{
  After, and_then-After, if-After, label, own_label, Segments, Frame, Frame-same, Frame-trans,
}

module _ {W R H S : Type 0} (env : Platform W R H S) where
  -- A write to a segment that leaves its pool.
  update-Segments :
      (next : ℕ) (l : ℕ × ℕ) (a : ℕ) (g g' : Segment R S) (gs : List (ℕ × Segment R S))
      → find a gs ≡ some g
      → label g' ≡ label g
      → Segments next l gs (update a g' gs)
  update-Segments next l a g g' gs e own k h there = elim (find-update_cases k a g' h gs there) [
    | inl (ka, gh) ↦ inl (g, subst (λ j. find j gs ≡ some g) (sym ka) e, ap label (sym gh) ∙ own)
    | inr (ne, old) ↦ inl (h, old, refl)
  ]

  erase-Segments :
      (next : ℕ) (l : ℕ × ℕ) (a n : ℕ) (gs : List (ℕ × Segment R S))
      → Below n gs
      → Segments next l gs (erase a gs)
  erase-Segments next l a n gs below k h there =
      inl (h, (find-erase_cases k a n h gs below there).1, refl)

  free_segment-label :
      (g g' : Segment R S) (b : Block H) → Segment.free env g b ≡ some g' → label g' ≡ label g
  unfolding Segment.free
  free_segment-label g g' b e = elim (Option-cases (env.stack.push g.freed_stack b)) [
    | inl full ↦ absurd (ground (arith, full, e))
    | inr (t, there) ↦ ground (arith, there, e)
  ]

  -- A state within the frame, whose segments have different addresses.
  abbrev Within : State W R S → State W R S → Type 0
  Within s s' = Frame s s' × Below s'.next_object s'.pool.segments

  Erased-Frame : (s0 s s' : State W R S) (a : ℕ) → Within s0 s → Erased a s s' → Frame s0 s'
  Erased-Frame s0 s s' a h (p, n) = Frame-trans s0 s s' h.0 (record {
    next = omega (arith, n);
    self = ap (λ q. q.self) p;
    block_size = ap (λ q. q.block_size) p;
    segment_size = ap (λ q. q.segment_size) p;
    segments =
        subst (Segments s.next_object (own_label s.pool) s.pool.segments)
          (sym (ap (λ q. q.segments) p))
          (erase-Segments s.next_object (own_label s.pool) a s.next_object s.pool.segments h.1);
  })

  Same-Frame : (s0 s s' : State W R S) → Within s0 s → Same s s' → Frame s0 s'
  Same-Frame s0 s s' h (p, n) = Frame-trans s0 s s' h.0 (
      Frame-same s s' (omega (arith, n)) (ap (λ q. q.self) p) (ap (λ q. q.block_size) p)
        (ap (λ q. q.segment_size) p) (ap (λ q. q.segments) p))

  erase_segment-Frame :
      (s0 s : State W R S) (a : ℕ) (g : Segment R S)
      → Within s0 s
      → After (Frame s0) (erase_segment env a g s)
  erase_segment-Frame s0 s a g h = by_end (erase_segment env a g s) (erase_segment-Erased env a g s)
    where
      by_end :
          (o : Outcome (State W R S) (Unit {0}))
          → Ends (λ u s'. Erased a s s') (λ e s'. Same s s' ⊎ Erased a s s') o
          → After (Frame s0) o
      by_end (returns u s') k = Erased-Frame s0 s s' a h k
      by_end (throws e s') (inl k) = Same-Frame s0 s s' h k
      by_end (throws e s') (inr k) = Erased-Frame s0 s s' a h k
      by_end hangs k = tt
      by_end Outcome.undefined k = tt

  unguard-Frame :
      (s0 : State W R S) (o : Outcome (State W R S) (Unit {0}))
      → After (Frame s0) o
      → After (Frame s0) (unguard env o)
  unfolding unguard unlock set_pool
  unguard-Frame s0 (returns u s) f =
      Frame-trans s0 s _ f (Frame-same s _ (omega arith) refl refl refl refl)
  unguard-Frame s0 (throws e s) f =
      Frame-trans s0 s _ f (Frame-same s _ (omega arith) refl refl refl refl)
  unguard-Frame s0 hangs f = tt
  unguard-Frame s0 Outcome.undefined f = tt

  lock-Within : (s0 s : State W R S) → Within s0 s → After (Within s0) (lock s)
  unfolding lock set_pool
  lock-Within s0 s h =
      if-After (Within s0) s.pool.mutex hangs _ tt
        (Frame-trans s0 s _ h.0 (Frame-same s _ (omega arith) refl refl refl refl), h.1)

  shrink-Frame :
      (s0 s : State W R S) (a : ℕ) (g : Segment R S)
      → Within s0 s
      → After (Frame s0) (shrink env a g s)
  unfolding shrink
  shrink-Frame s0 s a g h =
      and_then-After (Within s0) (Frame s0) (lock s) _ (lock-Within s0 s h) (λ t w. w.0)
        λ u s1 w1. unguard-Frame s0 _ (
          if-After (Frame s0)
            (is_empty g && ltb s1.pool.num_reserve_segments (length s1.pool.segments))
            (erase_segment env a g s1) (returns tt s1) (erase_segment-Frame s0 s1 a g w1) w1.0)

  -- `free` needs that the segments of the pool have different addresses.
  pub free-Frame :
      (s : State W R S) (b : Block H)
      → Below s.next_object s.pool.segments
      → After (Frame s) (free env b s)
  unfolding free set_pool
  free-Frame s b below = elim (Option-cases (find b.segment s.pool.segments)) [
    | inl gone ↦ rw (gone, free) tt
    | inr (g, e) ↦ elim (Option-cases (Segment.free env g b)) [
      | inl full ↦ rw (e, free) (rw (full, free) tt)
      | inr (g', f) ↦
          let s' = set_pool (record s.pool { segments = update b.segment g' s.pool.segments }) s in
          let frame : Frame s s' = record {
            next = omega arith;
            self = refl;
            block_size = refl;
            segment_size = refl;
            segments =
                update-Segments s.next_object (own_label s.pool) b.segment g g' s.pool.segments e
                  (free_segment-label g g' b f);
          } in
          rw (e, free)
            (rw (f, free)
              (if-After (Frame s) (not s.pool.never_free && is_empty g')
                (shrink env b.segment g' s') (returns tt s')
                (shrink-Frame s s' b.segment g'
                  (frame, update-Below s.next_object b.segment g' s.pool.segments below))
                frame))
    ]
  ]
