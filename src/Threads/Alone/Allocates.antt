-- ===== src/Threads/Alone/Allocates.antt =====
-- `allocate` of include/hwmalloc/detail/pool.hpp in a thread that nobody interrupts, against the same
-- call as one function.
use hwmalloc.Base.{
  ℕ, suc, ◌≤◌, ◌≡◌, refl, sym, ap, subst, ◌∙◌, false, true, none, some, List, [], ◌∷◌, arith,
  length, count-true,
}
use hwmalloc.Platform.{Block, Platform, IsStack}
use hwmalloc.Outcome.{Outcome, returns, throws, hangs, Call, Ends, and_then, return}
use hwmalloc.Segment.{blocks_down}
use hwmalloc.Segment.Blocks.{length-blocks_down}
use hwmalloc.Pool.{State, unlock, set_pool}
use hwmalloc.Pool.Grow.{add_segment}
use hwmalloc.Pool.Grows.{Undone, Inserted}
use hwmalloc.Pool.Allocate.{pop, pop_or, refill, unlock_and_return}
use hwmalloc.Threads.{Thread, Shared}
use hwmalloc.Threads.Turn.{
  Choice, to, pop_to, with_pool, with_free, with_mutex, hand_over, grow, grown, act,
}
use hwmalloc.Threads.Alone.Reach.{Pops, Reaches, Meets, Meeting, here, onward, Reaches-trans}

module _ {W R H S : Type 0} (env : Platform W R H S) (laws : IsStack env.stack)
    (pops : Pops env.stack) (c : Choice) (r : List (Thread H)) where
  open laws use {contents, capacity}

  pub after_turns :
      (held : List (Block H)) (y y' : Shared W R H S × Thread H)
      (o o' : Outcome (State W R S) (Block H))
      → Reaches env c r y y'
      → o ≡ o'
      → Meeting env c r held y' o'
      → Meeting env c r held y o
  after_turns held y y' o o' h e (z, k, m) =
      (z, Reaches-trans env c r y y' z h k, subst (λ p. Meets held p z) (sym e) m)

  pub pop_or-none :
      (found : Block H → Call (State W R S) (Block H)) (otherwise : Call (State W R S) (Block H))
      (s : State W R S)
      → env.stack.pop s.pool.free_stack ≡ none
      → pop_or env found otherwise s ≡ otherwise s
  unfolding pop_or pop
  pop_or-none found otherwise s e = rw (e, pop) refl

  pub pop_or-some :
      (found : Block H → Call (State W R S) (Block H)) (otherwise : Call (State W R S) (Block H))
      (s : State W R S) (b : Block H) (t : S)
      → env.stack.pop s.pool.free_stack ≡ some (b, t)
      → pop_or env found otherwise s ≡ found b (set_pool (record s.pool { free_stack = t }) s)
  unfolding pop_or pop
  pop_or-some found otherwise s b t e = rw (e, pop) refl

  -- A pop under the lock that finds a block ends the call.
  pub popped :
      (x : Shared W R H S) (t otherwise : Thread H) (later : Call (State W R S) (Block H))
      (b : Block H) (f : S)
      → env.stack.pop x.state.pool.free_stack ≡ some (b, f)
      → act env c t x ≡ pop_to env (λ b. to env (Thread.leaving b)) otherwise x
      → Meeting env c r x.held (x, t) (pop_or env (unlock_and_return env) later x.state)
  unfolding pop_to act hand_over with_mutex with_free with_pool set_pool unlock_and_return unlock
  popped x t otherwise later b f e turn = (
    _,
    onward env c r x t (with_free env f x, Thread.leaving b) _ (turn ∙ rw (e, pop_to) refl)
        (onward env c r (with_free env f x) (Thread.leaving b) _ _ refl (here env c r _)),
    subst (λ o. Meets x.held o (hand_over env b (with_mutex env false (with_free env f x))))
        (sym (pop_or-some (unlock_and_return env) later x.state b f e)) refl,
  )

  nonempty_pops :
      (f : S) → 1 ≤ length (contents f) → (b : Block H) × (t : S) × (env.stack.pop f ≡ some (b, t))
  nonempty_pops f h = by_contents (contents f) refl
    where
      by_contents :
          (bs : List (Block H))
          → contents f ≡ bs
          → (b : Block H) × (t : S) × (env.stack.pop f ≡ some (b, t))
      by_contents [] e = absurd (omega (arith, h, ap length e))
      by_contents (b ∷ bs) e = let (t, p, rest, cap) = laws.pop-cons f b bs e in (b, t, p)

  -- A new segment brings a block.
  new_blocks :
      (s s' : State W R S) → Inserted env laws s s' → 1 ≤ length (contents s'.pool.free_stack)
  new_blocks s s' m =
      let bs = blocks_down env s.next_object m.segment m.segment.num_blocks in
      omega (
        arith,
        m.counts (λ b. true),
        count-true (contents s'.pool.free_stack),
        count-true bs,
        length-blocks_down env s.next_object m.segment m.segment.num_blocks,
        m.some_blocks,
      )

  -- `add_segment`, and what the loop does when it has ended.
  grown_by :
      (f : ℕ) (x : Shared W R H S) (o : Outcome (State W R S) (Unit {0}))
      → Ends (λ u s'. Inserted env laws x.state s') (Undone env laws x.state) o
      → Meeting env c r x.held
          (grown env 0 x o)
          (and_then (and_then o (λ u. refill env (suc f) 1)) (unlock_and_return env))
  unfolding grown refill act pop_to hand_over with_mutex with_free with_pool set_pool
      unlock_and_return unlock
  grown_by f x (returns u s) v =
      let x1 = record x { state = s } in
      let (b, t, p) = nonempty_pops s.pool.free_stack (new_blocks x.state s v) in
      (
        _,
        onward env c r x1 (Thread.refilling 1) (with_free env t x1, Thread.leaving b) _
            (rw (p, pop_to) refl)
            (onward env c r (with_free env t x1) (Thread.leaving b) _ _ refl (here env c r _)),
        subst
            (λ o.
              Meets x.held (and_then o (unlock_and_return env))
                (hand_over env b (with_mutex env false (with_free env t x1))))
            (sym (pop_or-some return _ s b t p)) refl,
      )
  grown_by f x (throws e s) v = (_, here env c r _, refl)
  grown_by f x hangs v = absurd v
  grown_by f x Outcome.undefined v = absurd v

  -- The loop, when the free stack is empty.
  pub refilled :
      (f : ℕ) (x : Shared W R H S)
      → env.stack.pop x.state.pool.free_stack ≡ none
      → Ends
          (λ u s'. Inserted env laws x.state s')
          (Undone env laws x.state)
          (add_segment env x.state)
      → Meeting env c r x.held
          (x, Thread.refilling 0)
          (and_then (refill env (suc (suc f)) 0 x.state) (unlock_and_return env))
  unfolding refill act pop_to grow
  refilled f x e v =
      after_turns x.held (x, Thread.refilling 0) (grown env 0 x (add_segment env x.state)) _ _
        (onward env c r x (Thread.refilling 0) (x, Thread.growing 0) _ (rw (e, pop_to) refl)
          (onward env c r x (Thread.growing 0) _ _ refl (here env c r _)))
        (ap (λ o. and_then o (unlock_and_return env)) (pop_or-none return _ x.state e))
        (grown_by f x (add_segment env x.state) v)
