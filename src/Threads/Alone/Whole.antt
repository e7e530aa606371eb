-- ===== src/Threads/Alone/Whole.antt =====
-- A whole call of `allocate` of include/hwmalloc/detail/pool.hpp in a thread that nobody interrupts,
-- against the same call as one function.
use native.Mathlib.Decide.{ℕ_discrete}
use hwmalloc.Base.{
  ℕ, zero, suc, ◌<◌, ◌≤◌, ◌≡◌, true, inl, inr, refl, sym, subst, ◌∙◌, false, none, some, List, [],
  ◌∷◌, arith, length, size_mod, eq→==, ne→==, Option-cases,
}
use hwmalloc.Platform.{Platform, IsStack}
use hwmalloc.Outcome.{◌>>=◌, return}
use hwmalloc.Segment.{Segment}
use hwmalloc.Segment.Blocks.{owned_by}
use hwmalloc.Pool.{lock, set_pool, find}
use hwmalloc.Pool.Grows.{add_segment-Inserted}
use hwmalloc.Pool.Allocate.{pop_or, collect, refill, unlock_and_return, allocate_locked, allocate}
use hwmalloc.Pool.Pages.{CanGrow, CanGrow-same}
use hwmalloc.Pool.Map.{Below, find_above}
use hwmalloc.Pool.Totals.{freed-le, count-blocks_own}
use hwmalloc.Threads.{Thread, Shared, locks}
use hwmalloc.Threads.Turn.{
  Choice, keys, pop_to, with_pool, with_free, with_mutex, hand_over, lock_to, act,
}
use hwmalloc.Threads.Totals.{total}
use hwmalloc.Threads.Invariant.{Inv}
use hwmalloc.Threads.Alone.Reach.{Pops, Meets, Meeting, here, onward}
use hwmalloc.Threads.Alone.Collects.{put, AllSmall, collects}
use hwmalloc.Threads.Alone.Allocates.{after_turns, pop_or-none, pop_or-some, popped, refilled}

module _ {W R H S : Type 0} (env : Platform W R H S) (laws : IsStack env.stack)
    (pops : Pops env.stack) (r : List (Thread H)) where
  open laws use {contents, capacity}

  -- What holds of each segment that is found holds of all of them.
  all_small :
      (x : Shared W R H S) (n : ℕ) (gs : List (ℕ × Segment R S))
      → Below n gs
      → ((a : ℕ) (g : Segment R S)
          → find a gs ≡ some g
          → length (contents g.freed_stack) < size_mod)
      → AllSmall env laws pops Choice.allocate r x gs
  unfolding find
  all_small x n [] below h = tt
  all_small x n ((k, g) ∷ gs) below h = (
    h k g (rw (eq→== k k refl) refl),
    all_small x k gs below.1 (λ a g' e. elim (ℕ_discrete k a) [
      | yes same ↦ absurd (above a g' same e)
      | no other ↦ h a g' (rw (ne→== k a other) e)
    ]),
  )
    where
      above : (a : ℕ) (g' : Segment R S) → k ≡ a → find a gs ≡ some g' → ⊥
      above a g' same e = let e' = find_above a k gs below.1 (omega (arith, same)) in cc

  -- The freed stack of a segment holds no more blocks than the segment has.
  freed_small :
      (x : Shared W R H S) (t : Thread H) (a : ℕ) (g : Segment R S)
      → Inv env laws x (t ∷ r)
      → find a x.state.pool.segments ≡ some g
      → length (contents g.freed_stack) < size_mod
  freed_small x t a g v e =
      let u = v.used a g e in
      omega (
        arith,
        u.own,
        u.small,
        v.balanced (owned_by a),
        count-blocks_own env laws a x.state.next_object g x.state.pool.segments v.below e,
        freed-le env laws (owned_by a) a g x.state.pool.segments e,
      )

  -- The pops behind the loop over the segments.
  third_lem :
      (f : ℕ) (x : Shared W R H S)
      → capacity x.state.pool.free_stack ≡ none
      → CanGrow env x.state.pool
      → Meeting env Choice.allocate r x.held
          (x, Thread.third_pop)
          (pop_or env
            (unlock_and_return env)
            (do b ← refill env (suc (suc f)) 0; unlock_and_return env b)
            x.state)
  unfolding act pop_to
  third_lem f x d can = elim (Option-cases (env.stack.pop x.state.pool.free_stack)) [
    | inl gone ↦
        after_turns env laws pops Choice.allocate r x.held (x, Thread.third_pop)
          (x, Thread.refilling 0) _ _
          (onward env Choice.allocate r x Thread.third_pop (x, Thread.refilling 0) _
            (rw (gone, pop_to) refl) (here env Choice.allocate r _))
          (pop_or-none env laws pops Choice.allocate r (unlock_and_return env) _ x.state gone)
          (refilled env laws pops Choice.allocate r f x gone
            (add_segment-Inserted env laws x.state d can))
    | inr ((b, t), p) ↦
        popped env laws pops Choice.allocate r x Thread.third_pop (Thread.refilling 0) _ b t p refl
  ]

  -- The part under the lock, when the first pop there finds nothing.
  locked_lem :
      (f : ℕ) (x : Shared W R H S)
      → env.stack.pop x.state.pool.free_stack ≡ none
      → Below x.state.next_object x.state.pool.segments
      → AllSmall env laws pops Choice.allocate r x x.state.pool.segments
      → capacity x.state.pool.free_stack ≡ none
      → CanGrow env x.state.pool
      → Meeting env Choice.allocate r x.held
          (x, Thread.second_pop)
          (allocate_locked env (suc (suc f)) x.state)
  unfolding act pop_to allocate_locked collect set_pool
  locked_lem f x gone below small d can =
      let (gs, t, all, d', reach) =
        collects env laws pops Choice.allocate r x x.state.next_object x.state.pool.segments
          x.state.pool.free_stack below small d in
      let y = put env laws pops Choice.allocate r x t gs in
      after_turns env laws pops Choice.allocate r x.held (x, Thread.second_pop)
        (y, Thread.third_pop) _ _
        (onward env Choice.allocate r x Thread.second_pop
          (x, Thread.collecting (keys x.state.pool.segments)) _ (rw (gone, pop_to) refl) reach)
        (pop_or-none env laws pops Choice.allocate r (unlock_and_return env) _ x.state gone
          ∙ rw (all, collect) refl)
        (third_lem f y d' (CanGrow-same env x.state.pool y.state.pool refl refl can))

  -- A thread that calls `allocate`, while no other thread is inside the lock, and that nobody
  -- interrupts: after some turns it stands where the call as one function ends, idle with the block
  -- that is returned held by its caller, or stopped by the exception that is thrown, and the pool and
  -- the system are as that call leaves them. The invariant of the threads holds at the start, and
  -- `consume_all` pops the elements one by one. Two rounds of the loop of `allocate` are enough.
  pub allocate-Meeting :
      (fuel : ℕ) (x : Shared W R H S)
      → 2 ≤ fuel
      → Inv env laws x (Thread.idle ∷ r)
      → total locks r ≡ 0
      → Meeting env Choice.allocate r x.held (x, Thread.idle) (allocate env fuel x.state)
  unfolding act pop_to lock_to hand_over with_mutex with_free with_pool set_pool lock allocate locks
  allocate-Meeting zero x enough v alone = absurd (omega (arith, enough))
  allocate-Meeting (suc zero) x enough v alone = absurd (omega (arith, enough))
  allocate-Meeting (suc (suc f)) x enough v alone =
      elim (Option-cases (env.stack.pop x.state.pool.free_stack)) [
        | inl gone ↦
            let y = with_mutex env true x in
            let open_now : x.state.pool.mutex ≡ false = ground (arith, v.locked, alone) in
            after_turns env laws pops Choice.allocate r x.held (x, Thread.idle)
              (y, Thread.second_pop) _ _
              (onward env Choice.allocate r x Thread.idle (x, Thread.locking) _
                (rw (gone, pop_to) refl)
                (onward env Choice.allocate r x Thread.locking (y, Thread.second_pop) _
                  (rw (open_now, lock_to) refl) (here env Choice.allocate r _)))
              (pop_or-none env laws pops Choice.allocate r return _ x.state gone
                ∙ rw (open_now, lock) refl)
              (locked_lem f y gone v.below
                (all_small y x.state.next_object x.state.pool.segments v.below
                  (λ a g e. freed_small x Thread.idle a g v e))
                v.grows (CanGrow-same env x.state.pool y.state.pool refl refl v.can_grow))
        | inr ((b, t), p) ↦ (
          _,
          onward env Choice.allocate r x Thread.idle _ _ (rw (p, pop_to) refl)
              (here env Choice.allocate r _),
          subst (λ o. Meets x.held o (hand_over env b (with_free env t x)))
              (sym (pop_or-some env laws pops Choice.allocate r return _ x.state b t p)) refl,
        )
      ]
