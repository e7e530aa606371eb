-- ===== src/Threads/Refines.antt =====
-- The threads that use a pool (include/hwmalloc/detail/pool.hpp) against the specification of an
-- allocator.
use mathlib.Core.Quot
use mathlib.Core.Quot.{Quot}
use hwmalloc.Base.{
  ◌++◌, ℕ, ◌+◌, ◌%◌, ◌≤◌, ◌≡◌, inl, inr, refl, sym, subst, Bool, true, false, ◌&&◌, ◌==◌, none,
  some, List, [], ◌∷◌, arith, count, get_elem?, Option-cases, if◌then◌else◌, eq→==, le→leb, lt→ltb,
}
use hwmalloc.Platform.{Block, Platform, IsStack}
use hwmalloc.Segment.Blocks.{owned_by}
use hwmalloc.Segment.Cover.{covers}
use hwmalloc.Outcome.{Outcome, returns, throws, hangs}
use hwmalloc.Segment.{Segment}
use hwmalloc.Pool.{State, find}
use hwmalloc.Pool.Grow.{add_segment}
use hwmalloc.Threads.{Thread, Shared}
use hwmalloc.Pool.Free.{erase_segment}
use hwmalloc.Threads.Turn.{
  erased, Choice, allocate, System, Move, take_at, turn, run, act, hand_over, take_back, lock_to,
  with_free, with_mutex, with_segment, with_pool, consume, move_block, subtract, grown, grow,
  push_freed, count_freed, check, recheck, at_segment, pop_to,
}
use hwmalloc.Threads.Invariant.{Inv}
use hwmalloc.Threads.Moves.{take_at-count}
use hwmalloc.Threads.Preserved.{turn-Inv}
use hwmalloc.Threads.Safety.{held_apart, held_Found}
use hwmalloc.Threads.Spec.{Bag, same_place, Event, got, gave, Runs, done, hands_out, takes_back}

same_place-covers :
    {H : Type 0} (size : ℕ) (b : Block H) (bs : List (Block H))
    → 1 ≤ size
    → count (same_place b) bs ≤ count (λ c. covers size b.ptr c && owned_by b.segment c) bs
same_place-covers size b [] h = omega arith
same_place-covers size b (c ∷ cs) h = ground (arith, same_place-covers size b cs h)

covers_self :
    {H : Type 0} (size : ℕ) (b : Block H)
    → 1 ≤ size
    → (covers size b.ptr b && owned_by b.segment b) ≡ true
covers_self size b h =
    rw (le→leb b.ptr b.ptr (omega arith), lt→ltb b.ptr (b.ptr + size) (omega arith))
      (eq→== b.segment b.segment refl)

count-rest :
    {A : Type 0} (q : A → Bool) (x : A) (xs : List A)
    → q x ≡ true
    → count q (x ∷ xs) ≤ 1
    → count q xs ≡ 0
count-rest q x xs e h = ground arith

-- How a turn changes the list of held blocks, and what callers see of it.
pub data Change {H : Type 0} (before after : List (Block H)) : List (Event H) → Type 0 where
  same : after ≡ before → Change before after []
  added : (b : Block H) → after ≡ b ∷ before → Change before after (got b ∷ [])
  removed :
      (i : ℕ) (b : Block H) → take_at before i ≡ some (b, after) → Change before after (gave b ∷ [])

module _ {W R H S : Type 0} (env : Platform W R H S) where
  -- What callers see of a turn: a call of `allocate` returns with a block, or `free` is called.
  unfoldable pub seen_idle : Choice → Shared W R H S → List (Event H)
  seen_idle allocate x = elim (env.stack.pop x.state.pool.free_stack) [
    | none ↦ []
    | some (b, t) ↦ got b ∷ []
  ]
  seen_idle (Choice.free i) x = elim (take_at x.held i) [ none ↦ [] | some (b, rest) ↦ gave b ∷ [] ]

  unfoldable pub seen : Choice → Thread H → Shared W R H S → List (Event H)
  seen c Thread.idle x = seen_idle c x
  seen c (Thread.leaving b) x = got b ∷ []
  seen c _ x = []

  unfoldable pub seen_turn : ℕ × Choice → System env → List (Event H)
  seen_turn (i, c) (x, ts) = elim (get_elem? ts i) [ none ↦ [] | some t ↦ seen c t x ]

  -- The events of an interleaving, in their order.
  unfoldable pub trace : List (ℕ × Choice) → System env → List (Event H)
  trace [] y = []
  trace (m ∷ ms) y = seen_turn m y ++ trace ms (turn env m y)

module _ {W R H S : Type 0} (env : Platform W R H S) (laws : IsStack env.stack) where
  -- A block that was handed out was not held before.
  fresh :
      (x : Shared W R H S) (ts : List (Thread H)) (b : Block H) (held : List (Block H))
      → Inv env laws x ts
      → x.held ≡ b ∷ held
      → count (same_place b) held ≡ 0
  unfolding run
  fresh x ts b held v e =
      let own = λ (c : Block H). owned_by b.segment c in
      let (g, found) =
        held_Found env laws (x, ts) [] v b
          (rw e (ground (arith, eq→== b.segment b.segment refl))) in
      let one =
        subst (λ bs. count (λ c. covers g.block_size b.ptr c && owned_by b.segment c) bs ≤ 1) e
          (held_apart env laws (x, ts) [] v b.segment b.ptr g found) in
      omega (
        arith,
        same_place-covers g.block_size b held (v.used b.segment g found).sized,
        count-rest (λ c. covers g.block_size b.ptr c && owned_by b.segment c) b held
            (covers_self g.block_size b (v.used b.segment g found).sized) one,
      )

  if-Change :
      (x : Shared W R H S) (m : Bool) (y z : Shared W R H S × Thread H)
      → Change x.held y.0.held []
      → Change x.held z.0.held []
      → Change x.held (if m then y else z).0.held []
  if-Change x true y z h k = h
  if-Change x false y z h k = k

  at_segment-Change :
      (a : ℕ) (t : Thread H) (f : Segment R S → Move env) (x : Shared W R H S)
      → ((g : Segment R S) → Change x.held (f g x).0.held [])
      → Change x.held (at_segment env a t f x).0.held []
  unfolding at_segment
  at_segment-Change a t f x h = elim (Option-cases (find a x.state.pool.segments)) [
    | inl e ↦ rw (e, at_segment) (same refl)
    | inr (g, e) ↦ rw (e, at_segment) (h g)
  ]

  pop_to-Change :
      (found : Block H → Move env) (t : Thread H) (x : Shared W R H S)
      → ((b : Block H) (f : S) → Change x.held (found b (with_free env f x)).0.held [])
      → Change x.held (pop_to env found t x).0.held []
  unfolding pop_to
  pop_to-Change found t x h = elim (Option-cases (env.stack.pop x.state.pool.free_stack)) [
    | inl e ↦ rw (e, pop_to) (same refl)
    | inr ((b, f), e) ↦ rw (e, pop_to) (h b f)
  ]

  grown-Change :
      (c : ℕ) (x : Shared W R H S) (o : Outcome (State W R S) (Unit {0}))
      → Change x.held (grown env c x o).0.held []
  unfolding grown
  grown-Change c x (returns u s) = same refl
  grown-Change c x (throws e s) = same refl
  grown-Change c x hangs = same refl
  grown-Change c x Outcome.undefined = same refl

  erased-Change :
      (b : Block H) (x : Shared W R H S) (o : Outcome (State W R S) (Unit {0}))
      → Change x.held (erased env b x o).0.held []
  unfolding erased
  erased-Change b x (returns u s) = same refl
  erased-Change b x (throws e s) = same refl
  erased-Change b x hangs = same refl
  erased-Change b x Outcome.undefined = same refl

  first_pop-Change :
      (x : Shared W R H S)
      → Change x.held
          (pop_to env (hand_over env) Thread.locking x).0.held
          (seen_idle env allocate x)
  unfolding seen_idle pop_to hand_over with_free with_pool
  first_pop-Change x = elim (Option-cases (env.stack.pop x.state.pool.free_stack)) [
    | inl e ↦ rw (e, pop_to, seen_idle) (same refl)
    | inr ((b, f), e) ↦ rw (e, pop_to, seen_idle) (added b refl)
  ]

  -- Only handing a block over and taking it back changes which blocks are held.
  act-Change :
      (c : Choice) (t : Thread H) (x : Shared W R H S)
      → Change x.held (act env c t x).0.held (seen env c t x)
  unfolding seen seen_idle act hand_over take_back lock_to with_free with_mutex with_segment
      with_pool consume move_block subtract grow push_freed count_freed check recheck
  act-Change allocate Thread.idle x = first_pop-Change x
  act-Change (Choice.free i) Thread.idle x = elim (Option-cases (take_at x.held i)) [
    | inl e ↦ rw (e, take_back, seen_idle) (same refl)
    | inr ((b, rest), e) ↦ rw (e, take_back, seen_idle) (removed i b e)
  ]
  act-Change c Thread.locking x = if-Change x x.state.pool.mutex _ _ (same refl) (same refl)
  act-Change c Thread.second_pop x = pop_to-Change _ _ x (λ b f. same refl)
  act-Change c (Thread.collecting []) x = same refl
  act-Change c (Thread.collecting (a ∷ todo)) x = same refl
  act-Change c (Thread.consuming a todo n) x = at_segment-Change a _ _ x λ g.
      elim (Option-cases (env.stack.pop g.freed_stack)) [
        | inl e ↦ rw (e, consume) (same refl)
        | inr ((b, f), e) ↦ rw (e, consume) (same refl)
      ]
  act-Change c (Thread.moving a todo n b) x =
      elim (Option-cases (env.stack.push x.state.pool.free_stack b)) [
        | inl e ↦ rw (e, move_block) (same refl)
        | inr (f, e) ↦ rw (e, move_block) (same refl)
      ]
  act-Change c (Thread.subtracting a todo n) x = at_segment-Change a _ _ x (λ g. same refl)
  act-Change c Thread.third_pop x = pop_to-Change _ _ x (λ b f. same refl)
  act-Change c (Thread.refilling n) x = pop_to-Change _ _ x (λ b f. same refl)
  act-Change c (Thread.growing n) x =
      if-Change x (n % 2 == 0) _ _ (grown-Change n x (add_segment env x.state)) (same refl)
  act-Change c (Thread.leaving b) x = added b refl
  act-Change c (Thread.pushing b) x = at_segment-Change b.segment _ _ x λ g.
      elim (Option-cases (env.stack.push g.freed_stack b)) [
        | inl e ↦ rw (e, push_freed) (same refl)
        | inr (f, e) ↦ rw (e, push_freed) (same refl)
      ]
  act-Change c (Thread.counting b) x = at_segment-Change b.segment _ _ x (λ g. same refl)
  act-Change c (Thread.checking b) x =
      if-Change x x.state.pool.never_free _ _ (same refl)
        (at_segment-Change b.segment _ _ x (λ g. same refl))
  act-Change c (Thread.erase_locking b) x =
      if-Change x x.state.pool.mutex _ _ (same refl) (same refl)
  act-Change c (Thread.rechecking b) x =
      at_segment-Change b.segment _ _ x λ g.
        if-Change x _ _ _ (erased-Change b x (erase_segment env b.segment g x.state)) (same refl)
  act-Change c Thread.unlocking x = same refl
  act-Change c (Thread.unwinding e) x = same refl
  act-Change c (Thread.thrown e) x = same refl
  act-Change c (Thread.failed e) x = same refl
  act-Change c (Thread.dangling b) x = same refl
  act-Change c (Thread.dangling_locked b) x = same refl
  act-Change c Thread.undefined x = same refl

  turn-Change :
      (m : ℕ × Choice) (y : System env) → Change y.0.held (turn env m y).0.held (seen_turn env m y)
  unfolding turn seen_turn
  turn-Change (i, c) (x, ts) = elim (Option-cases (get_elem? ts i)) [
    | inl e ↦ rw (e, turn, seen_turn) (same refl)
    | inr (t, e) ↦ rw (e, turn, seen_turn) (act-Change c t x)
  ]

  -- What the specification sees.
  abbrev pub bag : System env → Bag H
  bag y = Quot.mk y.0.held

  -- A turn that callers see is a step of the specification.
  Change-Runs :
      (before after : List (Block H)) (es fs : List (Event H)) (u : Bag H)
      → Change before after es
      → ((b : Block H) → after ≡ b ∷ before → count (same_place b) before ≡ 0)
      → Runs (Quot.mk after) fs u
      → Runs (Quot.mk before) (es ++ fs) u
  Change-Runs before after _ fs u (same e) h k = subst (λ bs. Runs (Quot.mk bs) fs u) e k
  Change-Runs before after _ fs u (added b e) h k =
      hands_out b before fs u (h b e) (subst (λ bs. Runs (Quot.mk bs) fs u) e k)
  Change-Runs before after _ fs u (removed i b e) h k =
      subst (λ s. Runs s (gave b ∷ fs) u)
        (sym (Quot.sound (λ q. take_at-count q before i b after e))) (takes_back b after fs u k)

  -- Every interleaving of the threads is a run of the specification through what callers see of it, in
  -- that order: each block that a call of `allocate` returns is at that moment held by nobody, each
  -- block that is given to `free` is held, and what is held in the end is what the calls have left.
  pub run-Runs :
      (ms : List (ℕ × Choice)) (y : System env)
      → Inv env laws y.0 y.1
      → Runs (bag y) (trace env ms y) (bag (run env ms y))
  unfolding run trace
  run-Runs [] y v = done _
  run-Runs (m ∷ ms) y v =
      let v' = turn-Inv env laws m y v in
      Change-Runs y.0.held (turn env m y).0.held (seen_turn env m y) (trace env ms (turn env m y)) _
        (turn-Change m y) (λ b e. fresh (turn env m y).0 (turn env m y).1 b y.0.held v' e)
        (run-Runs ms (turn env m y) v')
