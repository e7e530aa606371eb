-- ===== src/Threads/Progress/Steps.antt =====
-- What an access of a pool (include/hwmalloc/detail/pool.hpp) leaves of the turns a thread needs.
use hwmalloc.Base.{
  ◌⊎◌, ℕ, ◌+◌, ◌%◌, ◌^◌, ◌≤◌, ◌<◌, ◌≡◌, inl, inr, refl, Bool, true, false, some, List, [], ◌∷◌,
  arith, length, count-true, Option-cases, if◌then◌else◌, ◌==◌,
}
use hwmalloc.Platform.{Block, Platform, IsStack}
use hwmalloc.Outcome.{Outcome, Ends, returns, throws, hangs}
use hwmalloc.Segment.{Segment, blocks_down}
use hwmalloc.Segment.Blocks.{length-blocks_down}
use hwmalloc.Pool.{State, find}
use hwmalloc.Pool.Grow.{add_segment}
use hwmalloc.Pool.Grows.{Undone, Inserted, add_segment-Inserted}
use hwmalloc.Pool.Pages.{Same}
use hwmalloc.Threads.{Thread, Shared}
use hwmalloc.Pool.Shrinks.{Erased}
use hwmalloc.Threads.Turn.{erased, Move, to, pop_to, at_segment, grown}
use hwmalloc.Threads.Invariant.{Inv}
use hwmalloc.Threads.Progress.{left, rounds}

module _ {W R H S : Type 0} (env : Platform W R H S) (laws : IsStack env.stack) where
  open laws use {contents, capacity}

  module _ (x : Shared W R H S) where
    Less : ℕ → Shared W R H S × Thread H → Type 0
    Less n z = left env laws z.0 z.1 < n

    pub if-Less :
        (n : ℕ) (m : Bool) (y z : Shared W R H S × Thread H)
        → (m ≡ true → left env laws y.0 y.1 < n)
        → (m ≡ false → left env laws z.0 z.1 < n)
        → left env laws (if m then y else z).0 (if m then y else z).1 < n
    if-Less n true y z h k = h refl
    if-Less n false y z h k = k refl

    pub found-Less :
        (n a : ℕ) (t : Thread H) (f : Segment R S → Move env) (g : Segment R S)
        → find a x.state.pool.segments ≡ some g
        → left env laws (f g x).0 (f g x).1 < n
        → left env laws (at_segment env a t f x).0 (at_segment env a t f x).1 < n
    unfolding at_segment
    found-Less n a t f g e h = rw (e, at_segment) h

    pub maybe-Less :
        (n a : ℕ) (t : Thread H) (f : Segment R S → Move env)
        → left env laws x t < n
        → ((g : Segment R S) → left env laws (f g x).0 (f g x).1 < n)
        → left env laws (at_segment env a t f x).0 (at_segment env a t f x).1 < n
    unfolding at_segment
    maybe-Less n a t f h k = elim (Option-cases (find a x.state.pool.segments)) [
      | inl e ↦ rw (e, at_segment) h
      | inr (g, e) ↦ rw (e, at_segment) (k g)
    ]

    -- A pop under the lock.
    pub popped-Less :
        (n : ℕ) (t : Thread H)
        → 1 < n
        → (contents x.state.pool.free_stack ≡ [] → left env laws x t < n)
        → left env laws
            (pop_to env (λ b. to env (Thread.leaving b)) t x).0
            (pop_to env (λ b. to env (Thread.leaving b)) t x).1
          < n
    unfolding pop_to left
    popped-Less n t h k = by_contents (contents x.state.pool.free_stack) refl
      where
        by_contents :
            (bs : List (Block H))
            → contents x.state.pool.free_stack ≡ bs
            → left env laws
                (pop_to env (λ b. to env (Thread.leaving b)) t x).0
                (pop_to env (λ b. to env (Thread.leaving b)) t x).1
              < n
        by_contents [] e = rw (laws.pop-empty x.state.pool.free_stack e, pop_to) (k e)
        by_contents (b ∷ bs) e =
            let (f, p, c, cap) = laws.pop-cons x.state.pool.free_stack b bs e in rw (p, pop_to) h

    pub rounds-le : (bs : List (Block H)) (c : ℕ) → rounds env laws bs c ≤ 6
    rounds-le [] c = ground arith
    rounds-le (b ∷ bs) c = omega arith

    pub rounds-even : (bs : List (Block H)) (c : ℕ) → c % 2 ≡ 0 → rounds env laws bs c ≤ 4
    rounds-even [] c e = ground arith
    rounds-even (b ∷ bs) c e = omega arith

    pub rounds-more : (bs : List (Block H)) (c : ℕ) → 1 ≤ length bs → rounds env laws bs c ≡ 2
    rounds-more [] c h = absurd (omega arith)
    rounds-more (b ∷ bs) c h = refl

    pub grown-Less :
        (n c : ℕ) (o : Outcome (State W R S) (Unit {0}))
        → 2 < n
        → Ends (λ u s'. Inserted env laws x.state s') (Undone env laws x.state) o
        → left env laws (grown env c x o).0 (grown env c x o).1 < n
    unfolding grown left
    grown-Less n c (returns u s) h m =
        let bs = blocks_down env x.state.next_object m.segment m.segment.num_blocks in
        let more = rounds-more (contents s.pool.free_stack) ((c + 1) % 2 ^ 32) (
          omega (
            arith,
            m.counts (λ b. true),
            count-true (contents s.pool.free_stack),
            count-true bs,
            length-blocks_down env x.state.next_object m.segment m.segment.num_blocks,
            m.some_blocks,
          )) in
        omega (arith, more, h)
    grown-Less n c (throws e s) h same = omega (arith, h)
    grown-Less n c hangs h m = absurd m
    grown-Less n c Outcome.undefined h m = absurd m

    pub rounds-ge : (bs : List (Block H)) (c : ℕ) → 2 ≤ rounds env laws bs c
    rounds-ge [] c = ground arith
    rounds-ge (b ∷ bs) c = omega arith

    pub growing-lt : (c : ℕ) → left env laws x (Thread.growing c) < rounds env laws [] c
    unfolding left
    growing-lt c = ground arith

    pub grow_by :
        (c : ℕ) (r : List (Thread H))
        → Inv env laws x (Thread.growing c ∷ r)
        → (even : Bool) → (c % 2 == 0) ≡ even
        → left env laws
            (if even
              then grown env c x (add_segment env x.state)
              else (x, Thread.refilling ((c + 1) % 2 ^ 32))).0
            (if even
              then grown env c x (add_segment env x.state)
              else (x, Thread.refilling ((c + 1) % 2 ^ 32))).1
          < (if even then 3 else 5)
    unfolding left
    grow_by c r v true e =
        grown-Less 3 c (add_segment env x.state) (omega arith)
          (add_segment-Inserted env laws x.state v.grows v.can_grow)
    grow_by c r v false e =
        omega
          (arith, rounds-even (contents x.state.pool.free_stack) ((c + 1) % 2 ^ 32) (ground arith))

    pub erased-Less :
        (b : Block H) (o : Outcome (State W R S) (Unit {0}))
        → Ends
            (λ u s'. Erased b.segment x.state s')
            (λ e s'. Same x.state s' ⊎ Erased b.segment x.state s')
            o
        → left env laws (erased env b x o).0 (erased env b x o).1 < 2
    unfolding erased left
    erased-Less b (returns u s) h = omega arith
    erased-Less b (throws e s) h = omega arith
    erased-Less b hangs h = absurd h
    erased-Less b Outcome.undefined h = absurd h

    pub tested :
        (m : Bool) (b : Block H)
        → left env laws x (if m then Thread.erase_locking b else Thread.idle) < 4
    unfolding left
    tested true b = omega arith
    tested false b = omega arith
