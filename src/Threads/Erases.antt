-- ===== src/Threads/Erases.antt =====
-- The erasing of an empty segment in `free` of include/hwmalloc/detail/pool.hpp, while other threads
-- use the pool.
use native.Mathlib.Decide.{ℕ_discrete}
use hwmalloc.Base.{
  inl, inr, ◌⊎◌, ℕ, ◌+◌, ◌≤◌, ◌≡◌, refl, sym, ap, subst, ◌∙◌, Bool, true, false, ◌&&◌, some, List,
  ◌∷◌, arith, length, count, ltb, ==→eq, count-and-le,
}
use hwmalloc.Platform.{Block, Platform, IsStack}
use hwmalloc.Segment.{Segment, is_empty, blocks_down}
use hwmalloc.Segment.Blocks.{owned_by}
use hwmalloc.Pool.{State, find, erase}
use hwmalloc.Pool.Pages.{Same}
use hwmalloc.Threads.Invariant.{Quiet, unlocking-Quiet, unwinding-Quiet, Inv-same}
use hwmalloc.Outcome.{Outcome, Ends, returns, throws, hangs}
use hwmalloc.Threads.Turn.{erased}
use hwmalloc.Pool.Free.{erase_segment}
use hwmalloc.Pool.Map.{Below, erase-Below, find-erase_cases, find-erase_ne}
use hwmalloc.Pool.Full.{full-SameBlocks}
use hwmalloc.Pool.Shrinks.{Erased, erase_segment-Erased}
use hwmalloc.Pool.Invariant.{SameBlocks}
use hwmalloc.Pool.Pages.{CanGrow-same}
use hwmalloc.Pool.Totals.{freed-erase, blocks-erase, freed-le, count-blocks_own}
use hwmalloc.Threads.{Thread, Shared, carrying, locks, uncounted, unsubtracted, needs, broken}
use hwmalloc.Threads.Turn.{recheck}
use hwmalloc.Threads.Totals.{total, total_mono, total-pos, length-total}
use hwmalloc.Threads.Invariant.{moved, Inv}
use hwmalloc.Threads.Moves.{Good, if-Good, stay-Inv}

-- Only a thread with the lock collects.
pub unsubtracted-locks : {H : Type 0} (a : ℕ) (t : Thread H) → locks t ≡ 0 → unsubtracted a t ≡ 0
unfolding locks unsubtracted
unsubtracted-locks a (Thread.consuming k todo n) e = absurd (omega arith)
unsubtracted-locks a (Thread.moving k todo n b) e = absurd (omega arith)
unsubtracted-locks a (Thread.subtracting k todo n) e = absurd (omega arith)
unsubtracted-locks a _ e = refl

needs-locks : {H : Type 0} (a : ℕ) (t : Thread H) → locks t ≡ 0 → needs a t ≡ 0
unfolding locks needs
needs-locks a (Thread.collecting todo) e = absurd (omega arith)
needs-locks a (Thread.consuming k todo n) e = absurd (omega arith)
needs-locks a (Thread.moving k todo n b) e = absurd (omega arith)
needs-locks a (Thread.subtracting k todo n) e = absurd (omega arith)
needs-locks a _ e = refl

uncounted-le : {H : Type 0} (a : ℕ) (t : Thread H) → uncounted a t ≤ 1
unfolding uncounted
uncounted-le a (Thread.counting b) = ground arith
uncounted-le a _ = omega arith

and-left : (p q : Bool) → (p && q) ≡ true → p ≡ true
and-left true q e = refl
and-left false q e = e

module _ {W R H S : Type 0} (env : Platform W R H S) (laws : IsStack env.stack) where
  open laws use {contents, capacity}

  -- The lock holder that finds a segment empty: all its blocks are on its freed stack, and no other
  -- thread counts or collects there.
  pub record Emptied (x : Shared W R H S) (r : List (Thread H)) (a : ℕ) (g : Segment R S)
      : Type 0 where
    pub all : SameBlocks (contents g.freed_stack) (blocks_down env a g g.num_blocks)
    pub nobody_counts : total (uncounted a) r ≡ 0
    pub nobody_needs : (k : ℕ) → total (needs k) r ≡ 0

  pub empty-Emptied :
      (x : Shared W R H S) (r : List (Thread H)) (b : Block H) (a : ℕ) (g : Segment R S)
      → Inv env laws x (Thread.rechecking b ∷ r)
      → find a x.state.pool.segments ≡ some g
      → is_empty g ≡ true
      → Emptied x r a g
  unfolding is_empty locks uncounted unsubtracted needs carrying
  empty-Emptied x r b a g v e full =
      let gs = x.state.pool.segments in
      let own = λ (c : Block H). owned_by a c in
      let u = v.used a g e in
      let unlocked : total locks r ≡ 0 = ground (arith, v.locked) in
      let subtracted = total-pos (unsubtracted a) locks r (unsubtracted-locks a) unlocked in
      let waiting = total_mono (uncounted a) (λ t. 1) r (uncounted-le a) in
      let equal = ==→eq g.num_freed g.num_blocks full in
      let most : length (contents g.freed_stack) ≤ g.num_blocks = omega (
        arith,
        v.balanced own,
        count-blocks_own env laws a x.state.next_object g gs v.below e,
        freed-le env laws own a g gs e,
        u.own,
      ) in
      let exact : g.num_blocks + total (uncounted a) r ≡ length (contents g.freed_stack) =
        omega
          (arith, u.counted, equal, subtracted, waiting, length-total r, v.few, u.small, most) in
      record {
        all =
            full-SameBlocks env laws x.state.next_object a gs g
              (λ q. count q (contents x.state.pool.free_stack) + count q x.held + total (moved q) r)
              v.below e u.own (omega (arith, exact, most))
              (λ q. omega (
                arith,
                count-and-le q own (contents x.state.pool.free_stack),
                count-and-le q own x.held,
                total_mono (moved (λ c. q c && own c)) (moved own) r
                    (λ t. count-and-le q own (carrying t)),
              ))
              (λ q. omega (arith, v.balanced q));
        nobody_counts = omega (arith, exact, most);
        nobody_needs = λ k. total-pos (needs k) locks r (needs-locks k) unlocked;
      }

  pub erased-Inv :
      (x : Shared W R H S) (r : List (Thread H)) (b : Block H) (g : Segment R S) (t' : Thread H)
      (s' : State W R S)
      → Quiet t'
      → Inv env laws x (Thread.rechecking b ∷ r)
      → find b.segment x.state.pool.segments ≡ some g
      → Emptied x r b.segment g
      → Erased b.segment x.state s'
      → Inv env laws (record x { state = s' }) (t' ∷ r)
  unfolding locks uncounted unsubtracted needs carrying broken
  erased-Inv x r b g t' s' q' v e m (same, next) =
      let a = b.segment in
      let gs = x.state.pool.segments in
      let p = record x.state.pool { segments = erase a gs } in
      subst (λ q. Inv env laws (record x { state = record s' { pool = q } }) (t' ∷ r)) (sym same)
        (record {
          can_grow = CanGrow-same env x.state.pool _ refl refl v.can_grow;
          block_size = v.block_size;
          few = omega (arith, v.few);
          grows = v.grows;
          below =
              subst (λ n. Below n (erase a gs)) (sym next)
                (erase-Below x.state.next_object a gs v.below);
          used = λ k h found.
              let u = v.used k h (find-erase_cases k a x.state.next_object h gs v.below found).1 in
              record {
                room = u.room;
                small = u.small;
                sized = u.sized;
                extent = u.extent;
                extent_small = u.extent_small;
                num_small = u.num_small;
                own = u.own;
                counted = omega (arith, u.counted, q'.not_counting k, q'.not_subtracting k);
              };
          balanced = λ q. omega (
            arith,
            v.balanced q,
            q'.no_blocks q,
            m.all q,
            freed-erase env laws q a g gs e,
            blocks-erase env laws q a g gs e,
          );
          locked = omega (arith, v.locked, q'.locked);
          needed = λ k h. absurd (omega (arith, h, m.nobody_needs k, q'.needs_none k));
          to_count = λ k h. elim (ℕ_discrete k a) [
            | yes here ↦ absurd (
                omega (
                  arith,
                  h,
                  m.nobody_counts,
                  q'.not_counting k,
                  ap (λ j. total (uncounted j) r) here,
                ))
            | no other ↦
                let (h', found) = v.to_count k (omega (arith, h, q'.not_counting k)) in
                (h', find-erase_ne k a gs other ∙ found)
          ];
          unbroken = omega (arith, v.unbroken, q'.whole);
        })

  -- The thread goes on, and the segments are as they were.
  kept-Inv :
      (x : Shared W R H S) (r : List (Thread H)) (b : Block H) (t' : Thread H) (s' : State W R S)
      → Quiet t'
      → Inv env laws x (Thread.rechecking b ∷ r)
      → Same x.state s'
      → Inv env laws (record x { state = s' }) (t' ∷ r)
  unfolding locks uncounted unsubtracted needs carrying broken
  kept-Inv x r b t' s' q' v (same, next) = Inv-same env laws x s' (t' ∷ r) same next (
      stay-Inv env laws x (Thread.rechecking b) t' r v (record {
        blocks = λ q. omega (arith, q'.no_blocks q);
        lock = omega (arith, q'.locked);
        not_counted = λ a. q'.not_counting a;
        not_subtracted = λ a. q'.not_subtracting a;
        need = λ a h. absurd (omega (arith, h, q'.needs_none a));
        whole = q'.whole;
      }))

  -- The segment is erased, or that has thrown.
  erased-Good :
      (x : Shared W R H S) (r : List (Thread H)) (b : Block H) (g : Segment R S)
      (o : Outcome (State W R S) (Unit {0}))
      → Inv env laws x (Thread.rechecking b ∷ r)
      → find b.segment x.state.pool.segments ≡ some g
      → is_empty g ≡ true
      → Ends
          (λ u s'. Erased b.segment x.state s')
          (λ e s'. Same x.state s' ⊎ Erased b.segment x.state s')
          o
      → Good env laws r (erased env b x o)
  unfolding erased
  erased-Good x r b g (returns u s) v e full h =
      erased-Inv x r b g Thread.unlocking s unlocking-Quiet v e
        (empty-Emptied x r b b.segment g v e full) h
  erased-Good x r b g (throws f s) v e full (inl h) =
      kept-Inv x r b (Thread.unwinding f) s (unwinding-Quiet f) v h
  erased-Good x r b g (throws f s) v e full (inr h) =
      erased-Inv x r b g (Thread.unwinding f) s (unwinding-Quiet f) v e
        (empty-Emptied x r b b.segment g v e full) h
  erased-Good x r b g hangs v e full h = absurd h
  erased-Good x r b g Outcome.undefined v e full h = absurd h

  -- The body under the `lock_guard`.
  pub recheck-Inv :
      (x : Shared W R H S) (r : List (Thread H)) (b : Block H) (g : Segment R S)
      → Inv env laws x (Thread.rechecking b ∷ r)
      → find b.segment x.state.pool.segments ≡ some g
      → Good env laws r (recheck env b g x)
  unfolding recheck
  recheck-Inv x r b g v e =
      if-Good env laws r
        (is_empty g && ltb x.state.pool.num_reserve_segments (length x.state.pool.segments))
        (erased env b x (erase_segment env b.segment g x.state)) (x, Thread.unlocking)
        (λ t.
          erased-Good x r b g (erase_segment env b.segment g x.state) v e (and-left _ _ t)
            (erase_segment-Erased env b.segment g x.state))
        (λ f. kept-Inv x r b Thread.unlocking x.state unlocking-Quiet v (refl, refl))
