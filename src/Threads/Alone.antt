-- ===== src/Threads/Alone.antt =====
-- `free` of include/hwmalloc/detail/pool.hpp in a thread that nobody interrupts, against the same call
-- as one function.
pub mod Reach
pub mod Collects
pub mod Allocates
pub mod Whole
use hwmalloc.Base.{
  ◌⊎◌, ℕ, suc, ◌≡◌, inl, inr, refl, sym, ap, subst, ◌∙◌, Bool, true, false, not, ◌&&◌, some, List,
  ◌∷◌, arith, length, ltb, Bool-cases, replicate, add_size, if◌then◌else◌, ltb→lt,
}
use hwmalloc.Platform.{Block, Platform, IsStack}
use hwmalloc.Outcome.{Outcome, Ends, returns, throws, hangs}
use hwmalloc.Segment
use hwmalloc.Segment.{Segment, is_empty}
use hwmalloc.Pool.{State, find, lock, unlock, set_pool}
use hwmalloc.Pool.Pages.{Same}
use hwmalloc.Pool.Shrinks.{Erased, erase_segment-Erased}
use hwmalloc.Threads.Turn.{erased}
use hwmalloc.Pool.Free.{unguard, erase_segment, shrink, free}
use hwmalloc.Pool.Map.{find-update, update-update}
use hwmalloc.Threads.{Thread, Shared, locks}
use hwmalloc.Threads.Turn.{
  Choice, with_pool, with_segment, with_mutex, at_segment, push_freed, count_freed, check, recheck,
  act, run,
}
use hwmalloc.Threads.Totals.{total}
use hwmalloc.Threads.Invariant.{Inv}
use hwmalloc.Threads.Writes.Turns.{pushing_room}
use hwmalloc.Threads.Race.{turn_first, check_full, lock_open, recheck_full, if_false, if_true}

module _ {W R H S : Type 0} (env : Platform W R H S) (laws : IsStack env.stack) where
  open laws use {contents, capacity}

  -- The two accesses of `segment::free` are the one write of its sequential model.
  freed_twice :
      (x : Shared W R H S) (a num : ℕ) (g : Segment R S) (f : S)
      → with_segment env a
          (record g { freed_stack = f; num_freed = num })
          (with_segment env a (record g { freed_stack = f }) x)
        ≡ with_segment env a (record g { freed_stack = f; num_freed = num }) x
  unfolding with_segment with_pool set_pool
  freed_twice x a num g f = λ i. record x {
    state = record x.state {
      pool = record x.state.pool {
        segments =
            update-update a (record g { freed_stack = f })
              (record g { freed_stack = f; num_freed = num }) x.state.pool.segments i;
      };
    };
  }

  push_turn :
      (c : Choice) (b : Block H) (x : Shared W R H S) (g : Segment R S) (f : S)
      → find b.segment x.state.pool.segments ≡ some g
      → env.stack.push g.freed_stack b ≡ some f
      → act env c (Thread.pushing b) x
        ≡ (with_segment env b.segment (record g { freed_stack = f }) x, Thread.counting b)
  unfolding act at_segment push_freed
  push_turn c b x g f e p = rw (e, at_segment) (rw (p, push_freed) refl)

  count_turn :
      (c : Choice) (b : Block H) (x : Shared W R H S) (g : Segment R S)
      → find b.segment x.state.pool.segments ≡ some g
      → act env c (Thread.counting b) x ≡ (
        with_segment env b.segment (record g { num_freed = add_size g.num_freed 1 }) x,
        Thread.checking b,
      )
  unfolding act at_segment count_freed
  count_turn c b x g e = rw (e, at_segment) refl

  check_keeps :
      (c : Choice) (b : Block H) (x : Shared W R H S)
      → x.state.pool.never_free ≡ true
      → act env c (Thread.checking b) x ≡ (x, Thread.idle)
  unfolding act check
  check_keeps c b x keeps = if_true _ _ _ keeps

  check_part :
      (c : Choice) (b : Block H) (x : Shared W R H S) (g : Segment R S)
      → find b.segment x.state.pool.segments ≡ some g
      → is_empty g ≡ false
      → x.state.pool.never_free ≡ false
      → act env c (Thread.checking b) x ≡ (x, Thread.idle)
  unfolding act check at_segment
  check_part c b x g e part frees =
      if_false _ _ _ frees
      ∙ rw (e, at_segment) (ap (λ m. (x, if m then Thread.erase_locking b else Thread.idle)) part)

  recheck_few :
      (c : Choice) (b : Block H) (x : Shared W R H S) (g : Segment R S)
      → find b.segment x.state.pool.segments ≡ some g
      → is_empty g ≡ true
      → ltb x.state.pool.num_reserve_segments (length x.state.pool.segments) ≡ false
      → act env c (Thread.rechecking b) x ≡ (x, Thread.unlocking)
  unfolding act recheck at_segment
  recheck_few c b x g e full few =
      rw (e, at_segment)
        (if_false _ _ _ (
          ap (λ m. m && ltb x.state.pool.num_reserve_segments (length x.state.pool.segments)) full
          ∙ few))

  unlock_turn :
      (c : Choice) (x : Shared W R H S)
      → act env c Thread.unlocking x ≡ (with_mutex env false x, Thread.idle)
  unfolding act
  unlock_turn c x = refl

  -- The part of `free` behind the counting.
  rest_of_free : ℕ → Segment R S → State W R S → Outcome (State W R S) (Unit {0})
  rest_of_free a g s =
      if not s.pool.never_free && is_empty g then shrink env a g s else returns tt s

  -- Where a thread stands when `free` has ended.
  abbrev pub Stands : Outcome (State W R S) (Unit {0}) → State W R S → Thread H → Type 0
  Stands (returns u s) s' t = (s ≡ s') × (t ≡ Thread.idle)
  Stands (throws e s) s' t = (s ≡ s') × (t ≡ Thread.thrown e)
  Stands hangs s' t = ⊥
  Stands Outcome.undefined s' t = ⊥

  -- A run of the thread that ends where the function does.
  pub record Agrees (c : Choice) (t : Thread H) (x : Shared W R H S) (r : List (Thread H))
      (o : Outcome (State W R S) (Unit {0})) : Type 0 where
    pub turns : ℕ
    pub after : Shared W R H S
    pub at : Thread H
    pub ran : run env (replicate turns (0, c)) (x, t ∷ r) ≡ (after, at ∷ r)
    pub result : Stands o after.state at
    pub held : after.held ≡ x.held

  -- One turn more in front.
  before :
      (c : Choice) (t u : Thread H) (x y : Shared W R H S) (r : List (Thread H))
      (o : Outcome (State W R S) (Unit {0}))
      → act env c t x ≡ (y, u)
      → y.held ≡ x.held
      → Agrees c u y r o
      → Agrees c t x r o
  unfolding run
  before c t u x y r o e h a = record {
    turns = suc a.turns;
    after = a.after;
    at = a.at;
    ran = ap (run env (replicate a.turns (0, c))) (turn_first env laws c t x r _ e) ∙ a.ran;
    result = a.result;
    held = a.held ∙ h;
  }

  ended :
      (c : Choice) (t : Thread H) (x : Shared W R H S) (r : List (Thread H))
      (o o' : Outcome (State W R S) (Unit {0}))
      → o ≡ o'
      → Stands o' x.state t
      → Agrees c t x r o
  unfolding run
  ended c t x r o o' e h = record {
    turns = 0;
    after = x;
    at = t;
    ran = refl;
    result = subst (λ p. Stands p x.state t) (sym e) h;
    held = refl;
  }

  -- The erasing has ended, and the lock is given up.
  erased-Agrees :
      (c : Choice) (b : Block H) (x : Shared W R H S) (r : List (Thread H))
      (o : Outcome (State W R S) (Unit {0}))
      → Ends
          (λ u s'. Erased b.segment x.state s')
          (λ e s'. Same x.state s' ⊎ Erased b.segment x.state s')
          o
      → act env c (Thread.rechecking b) x ≡ erased env b x o
      → Agrees c (Thread.rechecking b) x r (unguard env o)
  unfolding erased unguard unlock with_mutex with_pool set_pool act
  erased-Agrees c b x r (returns u s) h e =
      let y = record x { state = s } in
      before c (Thread.rechecking b) Thread.unlocking x y r _ e refl (
        before c Thread.unlocking Thread.idle y (with_mutex env false y) r _ refl refl
          (ended c Thread.idle (with_mutex env false y) r _ _ refl (refl, refl)))
  erased-Agrees c b x r (throws f s) h e =
      let y = record x { state = s } in
      before c (Thread.rechecking b) (Thread.unwinding f) x y r _ e refl (
        before c (Thread.unwinding f) (Thread.thrown f) y (with_mutex env false y) r _ refl refl
          (ended c (Thread.thrown f) (with_mutex env false y) r _ _ refl (refl, refl)))
  erased-Agrees c b x r hangs h e = absurd h
  erased-Agrees c b x r Outcome.undefined h e = absurd h

  shrink_more :
      (b : Block H) (g : Segment R S) (x : Shared W R H S)
      → is_empty g ≡ true
      → ltb x.state.pool.num_reserve_segments (length x.state.pool.segments) ≡ true
      → x.state.pool.mutex ≡ false
      → shrink env b.segment g x.state
        ≡ unguard env (erase_segment env b.segment g (with_mutex env true x).state)
  unfolding shrink lock with_mutex with_pool set_pool
  shrink_more b g x full more open_now = rw (open_now, lock, full, more) refl

  shrink-Agrees :
      (c : Choice) (b : Block H) (x : Shared W R H S) (g : Segment R S) (r : List (Thread H))
      → find b.segment x.state.pool.segments ≡ some g
      → is_empty g ≡ true
      → x.state.pool.mutex ≡ false
      → Agrees c (Thread.erase_locking b) x r (shrink env b.segment g x.state)
  unfolding shrink lock unlock unguard with_mutex with_pool set_pool
  shrink-Agrees c b x g r e full open_now =
      let x1 = with_mutex env true x in
      before c (Thread.erase_locking b) (Thread.rechecking b) x x1 r
        (shrink env b.segment g x.state) (lock_open env laws c b x open_now) refl
        (elim (Bool-cases (ltb x.state.pool.num_reserve_segments (length x.state.pool.segments))) [
          | inl more ↦
              subst (Agrees c (Thread.rechecking b) x1 r)
                (sym (shrink_more b g x full more open_now))
                (erased-Agrees c b x1 r (erase_segment env b.segment g x1.state)
                  (erase_segment-Erased env b.segment g x1.state)
                  (recheck_full env laws c b x1 g e full (ltb→lt _ _ more)))
          | inr few ↦
              before c (Thread.rechecking b) Thread.unlocking x1 x1 r _
                (recheck_few c b x1 g e full few) refl
                (before c Thread.unlocking Thread.idle x1 (with_mutex env false x1) r _
                  (unlock_turn c x1) refl
                  (ended c Thread.idle (with_mutex env false x1) r _
                    (returns tt (with_mutex env false x1).state)
                    (rw (open_now, lock, full, few) refl) (refl, refl)))
        ])

  rest-Agrees :
      (c : Choice) (b : Block H) (x : Shared W R H S) (g : Segment R S) (r : List (Thread H))
      → find b.segment x.state.pool.segments ≡ some g
      → x.state.pool.mutex ≡ false
      → Agrees c (Thread.checking b) x r (rest_of_free b.segment g x.state)
  unfolding rest_of_free
  rest-Agrees c b x g r e open_now =
      let branch = λ (m : Bool). if m then shrink env b.segment g x.state else returns tt x.state in
      elim (Bool-cases x.state.pool.never_free) [
        | inl keeps ↦
            before c (Thread.checking b) Thread.idle x x r _ (check_keeps c b x keeps) refl (
              ended c Thread.idle x r _ _ (ap (λ m. branch (not m && is_empty g)) keeps)
                (refl, refl))
        | inr frees ↦ elim (Bool-cases (is_empty g)) [
          | inl full ↦
              let same = ap (λ m. branch (not m && is_empty g)) frees ∙ ap branch full in
              before c (Thread.checking b) (Thread.erase_locking b) x x r _
                (check_full env laws c b x g e full frees) refl
                (subst (Agrees c (Thread.erase_locking b) x r) (sym same)
                  (shrink-Agrees c b x g r e full open_now))
          | inr part ↦
              before c (Thread.checking b) Thread.idle x x r _ (check_part c b x g e part frees)
                refl
                (ended c Thread.idle x r _ _
                  (ap (λ m. branch (not m && is_empty g)) frees ∙ ap branch part) (refl, refl))
        ]
      ]

  -- A thread that frees a block that its caller held, while no other thread is inside the lock, and
  -- that nobody interrupts: after some turns it stands where `free` as one function ends, idle again or
  -- left by the exception that is thrown, and the pool and the system are as that function leaves
  -- them.
  pub free-Agrees :
      (c : Choice) (b : Block H) (x : Shared W R H S) (r : List (Thread H))
      → Inv env laws x (Thread.pushing b ∷ r)
      → total locks r ≡ 0
      → Agrees c (Thread.pushing b) x r (free env b x.state)
  unfolding free Segment.free locks rest_of_free with_segment with_pool set_pool
  free-Agrees c b x r v alone =
      let a = b.segment in
      let (g, e, room) = pushing_room env laws x r b v in
      let (f, p, top, cap) =
        laws.push-fixed g.freed_stack b g.num_blocks (v.used a g e).room room in
      let g1 = record g { freed_stack = f } in
      let g2 = record g { freed_stack = f; num_freed = add_size g.num_freed 1 } in
      let x1 = with_segment env a g1 x in
      let x2 = with_segment env a g2 x in
      let e1 : find a x1.state.pool.segments ≡ some g1 =
        find-update a g g1 x.state.pool.segments e in
      let e2 : find a x2.state.pool.segments ≡ some g2 =
        find-update a g g2 x.state.pool.segments e in
      before c (Thread.pushing b) (Thread.counting b) x x1 r _ (push_turn c b x g f e p) refl (
        before c (Thread.counting b) (Thread.checking b) x1 x2 r _
          (count_turn c b x1 g1 e1 ∙ ap (λ y. (y, Thread.checking b)) (freed_twice x a _ g f)) refl
          (rw (e, free)
            (rw (p, Segment.free) (rest-Agrees c b x2 g2 r e2 (ground (arith, v.locked, alone))))))
