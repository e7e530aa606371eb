-- ===== src/Threads/Turn.antt =====
-- `allocate` and `free` of include/hwmalloc/detail/pool.hpp, with `collect`, `free` and `is_empty` of
-- include/hwmalloc/detail/segment.hpp, one access to what the threads share at a time.
use hwmalloc.Base.{
  ℕ, zero, suc, ◌+◌, ◌%◌, ◌^◌, Bool, true, false, ◌&&◌, Option, none, some, List, [], ◌∷◌, ltb,
  ◌==◌, if◌then◌else◌, length, get_elem?, set, add_size, sub_size, size_mod,
}
use hwmalloc.Platform.{Block, Platform}
use hwmalloc.Outcome.{Outcome, returns, throws, hangs}
use hwmalloc.Segment.{Segment, is_empty}
use hwmalloc.Pool.{State, Pool, find, update, set_pool}
use hwmalloc.Pool.Grow.{add_segment}
use hwmalloc.Pool.Free.{erase_segment}
use hwmalloc.Threads.{
  Thread, idle, locking, second_pop, collecting, consuming, moving, subtracting, third_pop,
  refilling, growing, leaving, failed, pushing, counting, checking, erase_locking, rechecking,
  unlocking, unwinding, thrown, dangling, dangling_locked, Shared,
}

-- What an idle thread does next: it allocates, or it frees the block at an index of those held.
pub data Choice : Type 0 where
  allocate : Choice
  free : ℕ → Choice

abbrev pub take_at : {A : Type 0} → List A → ℕ → Option (A × List A)
take_at [] i = none
take_at (x ∷ xs) zero = some (x, xs)
take_at (x ∷ xs) (suc i) = elim (take_at xs i) [ none ↦ none | some (y, ys) ↦ some (y, x ∷ ys) ]

abbrev pub keys : {A : Type 0} → List (ℕ × A) → List ℕ
keys [] = []
keys ((k, x) ∷ xs) = k ∷ keys xs

module _ {W R H S : Type 0} (env : Platform W R H S) where
  open env use {stack}

  abbrev pub Move : Type 0
  Move = Shared W R H S → Shared W R H S × Thread H

  abbrev pub to : Thread H → Move
  to t x = (x, t)

  unfoldable pub with_pool : Pool R S → Shared W R H S → Shared W R H S
  with_pool p x = record x { state = set_pool p x.state }

  unfoldable pub with_free : S → Shared W R H S → Shared W R H S
  with_free t x = with_pool (record x.state.pool { free_stack = t }) x

  unfoldable pub with_mutex : Bool → Shared W R H S → Shared W R H S
  with_mutex m x = with_pool (record x.state.pool { mutex = m }) x

  unfoldable pub with_segment : ℕ → Segment R S → Shared W R H S → Shared W R H S
  with_segment a g x =
      with_pool (record x.state.pool { segments = update a g x.state.pool.segments }) x

  -- `m_free_stack.pop(b)`
  unfoldable pub pop_to : (Block H → Move) → Thread H → Move
  pop_to found otherwise x = elim (stack.pop x.state.pool.free_stack) [
    | none ↦ (x, otherwise)
    | some (b, t) ↦ found b (with_free t x)
  ]

  -- `m_mutex.lock()`: a thread waits while it is locked.
  unfoldable pub lock_to : Thread H → Thread H → Move
  lock_to waiting inside x =
      if x.state.pool.mutex then (x, waiting) else (with_mutex true x, inside)

  -- An access through a pointer to a segment.
  unfoldable pub at_segment : ℕ → Thread H → (Segment R S → Move) → Move
  at_segment a otherwise f x = elim (find a x.state.pool.segments) [
    | none ↦ (x, otherwise)
    | some g ↦ f g x
  ]

  -- The caller gets the block.
  unfoldable pub hand_over : Block H → Move
  hand_over b x = (record x { held = b ∷ x.held }, idle)

  -- The caller begins to free a block that it holds.
  unfoldable pub take_back : ℕ → Move
  take_back i x = elim (take_at x.held i) [
    | none ↦ (x, idle)
    | some (b, rest) ↦ (record x { held = rest }, pushing b)
  ]

  -- One turn of `consume_all`, which pops until the stack is empty.
  unfoldable pub consume : ℕ → List ℕ → ℕ → Segment R S → Move
  consume a todo n g x = elim (stack.pop g.freed_stack) [
    | none ↦ (x, subtracting a todo n)
    | some (b, t) ↦ (with_segment a (record g { freed_stack = t }) x, moving a todo n b)
  ]

  -- `while (!stack.push(b)) {}` of the functor.
  unfoldable pub move_block : ℕ → List ℕ → ℕ → Block H → Move
  move_block a todo n b x = elim (stack.push x.state.pool.free_stack b) [
    | none ↦ (x, moving a todo n b)
    | some t ↦ (with_free t x, consuming a todo (suc n))
  ]

  -- `m_num_freed.fetch_sub(consumed)`, where `consumed` is a `std::size_t`.
  unfoldable pub subtract : ℕ → List ℕ → ℕ → Segment R S → Move
  subtract a todo n g x = (
    with_segment a (record g { num_freed = sub_size g.num_freed (n % size_mod) }) x,
    collecting todo,
  )

  -- How a thread goes on after `add_segment`: it tries to pop again, or an exception leaves it where
  -- it stands, with the lock.
  unfoldable pub grown :
      ℕ → Shared W R H S → Outcome (State W R S) (Unit {0}) → Shared W R H S × Thread H
  grown c x (returns u s) = (record x { state = s }, refilling ((c + 1) % 2 ^ 32))
  grown c x (throws e s) = (record x { state = s }, failed e)
  grown c x hangs = (x, growing c)
  grown c x Outcome.undefined = (x, Thread.undefined)

  -- `if (counter++ % 2 == 0) add_segment();`
  unfoldable pub grow : ℕ → Move
  grow c x =
      if c % 2 == 0 then grown c x (add_segment env x.state) else (x, refilling ((c + 1) % 2 ^ 32))

  -- `while (!m_freed_stack.push(b)) {}`
  unfoldable pub push_freed : Block H → Segment R S → Move
  push_freed b g x = elim (stack.push g.freed_stack b) [
    | none ↦ (x, pushing b)
    | some t ↦ (with_segment b.segment (record g { freed_stack = t }) x, counting b)
  ]

  -- `++m_num_freed`
  unfoldable pub count_freed : Block H → Segment R S → Move
  count_freed b g x =
      (with_segment b.segment (record g { num_freed = add_size g.num_freed 1 }) x, checking b)

  -- `!m_never_free && b.m_segment->is_empty()`
  unfoldable pub check : Block H → Move
  check b x =
      if x.state.pool.never_free
      then (x, idle)
      else at_segment b.segment (dangling b)
          (λ g. to (if is_empty g then erase_locking b else idle)) x

  -- How a thread goes on after the erasing: the lock is given up, whether it threw or not.
  unfoldable pub erased :
      Block H → Shared W R H S → Outcome (State W R S) (Unit {0}) → Shared W R H S × Thread H
  erased b x (returns u s) = (record x { state = s }, unlocking)
  erased b x (throws e s) = (record x { state = s }, unwinding e)
  erased b x hangs = (x, rechecking b)
  erased b x Outcome.undefined = (x, Thread.undefined)

  -- The body under the `lock_guard`.
  unfoldable pub recheck : Block H → Segment R S → Move
  recheck b g x =
      if is_empty g && ltb x.state.pool.num_reserve_segments (length x.state.pool.segments)
      then erased b x (erase_segment env b.segment g x.state)
      else (x, unlocking)

  -- The next access of a thread.
  unfoldable pub act : Choice → Thread H → Move
  act allocate Thread.idle = pop_to hand_over locking
  act (free i) Thread.idle = take_back i
  act c Thread.locking = lock_to locking second_pop
  act c Thread.second_pop =
      λ x. pop_to (λ b. to (leaving b)) (collecting (keys x.state.pool.segments)) x
  act c (Thread.collecting []) = to third_pop
  act c (Thread.collecting (a ∷ todo)) = to (consuming a todo 0)
  act c (Thread.consuming a todo n) = at_segment a Thread.undefined (consume a todo n)
  act c (Thread.moving a todo n b) = move_block a todo n b
  act c (Thread.subtracting a todo n) = at_segment a Thread.undefined (subtract a todo n)
  act c Thread.third_pop = pop_to (λ b. to (leaving b)) (refilling 0)
  act c (Thread.refilling n) = pop_to (λ b. to (leaving b)) (growing n)
  act c (Thread.growing n) = grow n
  act c (Thread.leaving b) = λ x. hand_over b (with_mutex false x)
  act c (Thread.pushing b) = at_segment b.segment Thread.undefined (push_freed b)
  act c (Thread.counting b) = at_segment b.segment Thread.undefined (count_freed b)
  act c (Thread.checking b) = check b
  act c (Thread.erase_locking b) = lock_to (erase_locking b) (rechecking b)
  act c (Thread.rechecking b) = at_segment b.segment (dangling_locked b) (recheck b)
  act c Thread.unlocking = λ x. (with_mutex false x, idle)
  act c (Thread.unwinding e) = λ x. (with_mutex false x, thrown e)
  act c (Thread.thrown e) = to (thrown e)
  act c (Thread.failed e) = to (failed e)
  act c (Thread.dangling b) = to (dangling b)
  act c (Thread.dangling_locked b) = to (dangling_locked b)
  act c Thread.undefined = to Thread.undefined

  abbrev pub System : Type 0
  System = Shared W R H S × List (Thread H)

  -- Thread i takes its turn.
  unfoldable pub turn : ℕ × Choice → System → System
  turn (i, c) (x, ts) = elim (get_elem? ts i) [
    | none ↦ (x, ts)
    | some t ↦ let (x', t') = act c t x in (x', set ts i t')
  ]

  -- An interleaving, todo the sequence of the threads whose turn it is.
  unfoldable pub run : List (ℕ × Choice) → System → System
  run [] y = y
  run (m ∷ ms) y = run ms (turn m y)
