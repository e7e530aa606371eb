-- ===== src/Threads/Grows.antt =====
-- `add_segment` of include/hwmalloc/detail/pool.hpp in a thread that holds the lock, while other
-- threads use the pool.
use native.Mathlib.Decide.{dec_le, ℕ_discrete}
use native.Mathlib.Nat.{mul-le-mul_left}
use hwmalloc.Base.{
  ℕ, ◌+◌, ◌*◌, ◌%◌, ◌^◌, ◌≤◌, ◌<◌, ◌≡◌, inl, inr, refl, sym, ap, subst, List, ◌∷◌, ◌==◌, arith,
  length, count, count-append, size_mod, eq→==, ne→==,
}
use hwmalloc.Platform.{Platform, IsStack}
use hwmalloc.Outcome.{Outcome, Exception, Ends, returns, throws, hangs}
use hwmalloc.Segment.{Segment, blocks_down}
use hwmalloc.Pool.{State, find}
use hwmalloc.Pool.Grow.{add_segment}
use hwmalloc.Pool.Map.{find-cons, find_above}
use hwmalloc.Pool.Pages.{CanGrow-same, Same}
use hwmalloc.Pool.Grows.{Undone, Inserted, add_segment-Inserted}
use hwmalloc.Pool.Totals.{freed_all, blocks_all}
use hwmalloc.Threads.{Thread, Shared, carrying, locks, uncounted, unsubtracted, needs, broken}
use hwmalloc.Threads.Turn.{grow, grown}
use hwmalloc.Threads.Totals.{total, total-pos}
use hwmalloc.Threads.Invariant.{Found, IsUsed, Inv, Inv-same}
use hwmalloc.Threads.Moves.{Good, if-Good, stay-Inv}
use hwmalloc.Threads.Invariant.{Quiet, refilling-Quiet, failed-Quiet}
use hwmalloc.Threads.Erases.{unsubtracted-locks}

-- Blocks of two bytes and more that fit into the address space are fewer than 2 ^ 63.
half_of_size : (n size : ℕ) → 2 ≤ size → n * size < size_mod → n < 2 ^ 63
half_of_size n size h k = omega (arith, mul-le-mul_left n h)

module _ {W R H S : Type 0} (env : Platform W R H S) (laws : IsStack env.stack) where
  open laws use {contents, capacity}

  Found-cons :
      (k a : ℕ) (g : Segment R S) (gs : List (ℕ × Segment R S)) → Found k gs → Found k ((a, g) ∷ gs)
  unfolding find
  Found-cons k a g gs (h, e) = elim (ℕ_discrete a k) [
    | yes same ↦ (g, rw (eq→== a k same) refl)
    | no other ↦ (h, rw (ne→== a k other) e)
  ]

  module _ (x : Shared W R H S) (r : List (Thread H)) (c : ℕ)
      (v : Inv env laws x (Thread.growing c ∷ r)) where
    -- Nobody counts or collects at the address of a new object.
    nobody_there : total (uncounted x.state.next_object) r ≡ 0
    unfolding uncounted
    nobody_there = elim (dec_le 1 (total (uncounted x.state.next_object) r)) [
      | yes some_one ↦
          let (g, e) = v.to_count x.state.next_object (omega arith) in
          let e' =
            find_above x.state.next_object x.state.next_object x.state.pool.segments v.below
              (omega arith) in
          cc
      | no none_there ↦ omega arith
    ]

    grown-Inv :
        (t' : Thread H) (s' : State W R S)
        → Quiet t'
        → Inserted env laws x.state s'
        → Inv env laws (record x { state = s' }) (t' ∷ r)
    unfolding locks uncounted unsubtracted needs carrying broken
    grown-Inv t' s' q' m =
        let next = x.state.next_object in
        let gs = x.state.pool.segments in
        let g = m.segment in
        let unlocked : total locks r ≡ 0 = ground (arith, v.locked) in
        let bs = blocks_down env next g g.num_blocks in
        let p = record x.state.pool {
          free_stack = s'.pool.free_stack;
          segments = (next, g) ∷ gs;
        } in
        subst (λ q. Inv env laws (record x { state = record s' { pool = q } }) (t' ∷ r))
          (sym m.same)
          (record {
            can_grow = CanGrow-same env x.state.pool _ refl refl v.can_grow;
            block_size = v.block_size;
            few = omega (arith, v.few);
            grows = m.grows;
            below = (omega (arith, m.next), v.below);
            used = λ k h found. elim (find-cons k next g h gs found) [
              | inl (same, gh) ↦
                  subst (λ f. IsUsed env laws k f (t' ∷ r)) gh
                    (subst (λ j. IsUsed env laws j g (t' ∷ r)) same
                      (record {
                        room = m.valid.room;
                        small =
                            half_of_size g.num_blocks x.state.pool.block_size v.block_size m.least;
                        sized = omega (arith, m.size, v.block_size);
                        extent = m.valid.extent;
                        extent_small = m.valid.extent_small;
                        num_small = omega (arith, m.valid.counted, ap length m.none_freed);
                        own = m.valid.own;
                        counted = omega (
                          arith,
                          m.valid.counted,
                          q'.not_counting next,
                          q'.not_subtracting next,
                          nobody_there,
                          total-pos (unsubtracted next) locks r (unsubtracted-locks next) unlocked,
                        );
                      }))
              | inr (other, there) ↦
                  let u = v.used k h there in
                  record {
                    room = u.room;
                    small = u.small;
                    sized = u.sized;
                    extent = u.extent;
                    extent_small = u.extent_small;
                    num_small = u.num_small;
                    own = u.own;
                    counted = omega (arith, u.counted, q'.not_counting k, q'.not_subtracting k);
                  }
            ];
            balanced = λ q. omega (
              arith,
              v.balanced q,
              m.counts q,
              q'.no_blocks q,
              ap (count q) m.none_freed,
              count-append q (contents g.freed_stack) (freed_all env laws gs),
              count-append q bs (blocks_all env laws gs),
            );
            locked = omega (arith, v.locked, q'.locked);
            needed = λ k h. Found-cons k next g gs (v.needed k (omega (arith, h, q'.needs_none k)));
            to_count =
                λ k h. Found-cons k next g gs (v.to_count k (omega (arith, h, q'.not_counting k)));
            unbroken = omega (arith, v.unbroken, q'.whole);
          })

    failed-Inv :
        (e : Exception) (s' : State W R S)
        → Same x.state s'
        → Inv env laws (record x { state = s' }) (Thread.failed e ∷ r)
    unfolding locks uncounted unsubtracted needs carrying broken
    failed-Inv e s' (same, next) = Inv-same env laws x s' (Thread.failed e ∷ r) same next (
        stay-Inv env laws x (Thread.growing c) (Thread.failed e) r v (record {
          blocks = λ q. refl;
          lock = refl;
          not_counted = λ a. refl;
          not_subtracted = λ a. refl;
          need = λ a h. absurd (omega arith);
          whole = refl;
        }))

    turned-Inv : (n : ℕ) → Inv env laws x (Thread.refilling n ∷ r)
    unfolding locks uncounted unsubtracted needs carrying broken
    turned-Inv n = stay-Inv env laws x (Thread.growing c) (Thread.refilling n) r v (record {
      blocks = λ q. refl;
      lock = refl;
      not_counted = λ a. refl;
      not_subtracted = λ a. refl;
      need = λ a h. absurd (omega arith);
      whole = refl;
    })

    grown-Good :
        (o : Outcome (State W R S) (Unit {0}))
        → Ends (λ u s'. Inserted env laws x.state s') (Undone env laws x.state) o
        → Good env laws r (grown env c x o)
    unfolding grown
    grown-Good (returns u s) m =
        grown-Inv (Thread.refilling ((c + 1) % 2 ^ 32)) s (refilling-Quiet ((c + 1) % 2 ^ 32)) m
    grown-Good (throws e s) (inl same) = failed-Inv e s same
    grown-Good (throws e s) (inr (m, x)) = grown-Inv (Thread.failed e) s (failed-Quiet e) m
    grown-Good hangs h = absurd h
    grown-Good Outcome.undefined h = absurd h

    -- The body of the loop of `allocate`.
    pub grow-Inv : Good env laws r (grow env c x)
    unfolding grow
    grow-Inv =
        if-Good env laws r (c % 2 == 0) (grown env c x (add_segment env x.state))
          (x, Thread.refilling ((c + 1) % 2 ^ 32))
          (λ even.
            grown-Good (add_segment env x.state)
              (add_segment-Inserted env laws x.state v.grows v.can_grow))
          (λ odd. turned-Inv ((c + 1) % 2 ^ 32))
