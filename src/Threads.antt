-- ===== src/Threads.antt =====
-- include/hwmalloc/detail/pool.hpp and include/hwmalloc/detail/segment.hpp as several threads run them
-- at the same time: where a thread stands in `allocate` or `free` of one pool, between two accesses to
-- what the threads share.
pub mod Turn
pub mod Totals
pub mod Invariant
pub mod Moves
pub mod Writes
pub mod Erases
pub mod Grows
pub mod Acts
pub mod Preserved
pub mod Safety
pub mod Race
pub mod Stuck
pub mod Alone
pub mod Spec
pub mod Refines
pub mod Progress
use hwmalloc.Base.{ℕ, ◌+◌, Bool, true, false, List, [], ◌∷◌, ◌==◌, if◌then◌else◌, count}
use hwmalloc.Platform.{Block}
use hwmalloc.Outcome.{Exception}
use hwmalloc.Pool.{State}

-- The next access of a thread. In `allocate`: `idle` is the first `pop`; `collecting todo` stands before
-- the next segment of the loop over the map, `consuming a todo n` in the loop of `consume_all` over the
-- freed stack of segment a, n blocks being consumed, `moving` with a block between the two stacks,
-- and `subtracting` before the `fetch_sub`. In `free`: `checking` reads `is_empty` without the lock,
-- `rechecking` with it; `unwinding` is before the unlock when the erasing has thrown, and `thrown`
-- after it. `dangling` has read the counter of a segment that is gone, and
-- `dangling_locked` has done so while it holds the lock; `undefined` is any other access to an object
-- that is gone.
pub data Thread (H : Type 0) : Type 0 where
  idle : Thread H
  locking : Thread H
  second_pop : Thread H
  collecting : List ℕ → Thread H
  consuming : ℕ → List ℕ → ℕ → Thread H
  moving : ℕ → List ℕ → ℕ → Block H → Thread H
  subtracting : ℕ → List ℕ → ℕ → Thread H
  third_pop : Thread H
  refilling : ℕ → Thread H
  growing : ℕ → Thread H
  leaving : Block H → Thread H
  failed : Exception → Thread H
  pushing : Block H → Thread H
  counting : Block H → Thread H
  checking : Block H → Thread H
  erase_locking : Block H → Thread H
  rechecking : Block H → Thread H
  unlocking : Thread H
  unwinding : Exception → Thread H
  thrown : Exception → Thread H
  dangling : Block H → Thread H
  dangling_locked : Block H → Thread H
  undefined : Thread H

-- What the threads share, and the blocks that the callers hold.
pub record Shared (W R H S : Type 0) : Type 0 where
  pub state : State W R S
  pub held : List (Block H)

-- The blocks on their way from one place to another.
unfoldable pub carrying : {H : Type 0} → Thread H → List (Block H)
carrying (Thread.moving a todo n b) = b ∷ []
carrying (Thread.leaving b) = b ∷ []
carrying (Thread.pushing b) = b ∷ []
carrying _ = []

-- 1 for a thread that is between the `lock` and the `unlock` of `m_mutex`.
unfoldable pub locks : {H : Type 0} → Thread H → ℕ
locks Thread.second_pop = 1
locks (Thread.collecting todo) = 1
locks (Thread.consuming a todo n) = 1
locks (Thread.moving a todo n b) = 1
locks (Thread.subtracting a todo n) = 1
locks Thread.third_pop = 1
locks (Thread.refilling c) = 1
locks (Thread.growing c) = 1
locks (Thread.leaving b) = 1
locks (Thread.failed e) = 1
locks (Thread.rechecking b) = 1
locks Thread.unlocking = 1
locks (Thread.unwinding e) = 1
locks (Thread.dangling_locked b) = 1
locks _ = 0

-- The blocks that a thread has pushed to the freed stack of segment a and not counted yet.
unfoldable pub uncounted : {H : Type 0} → ℕ → Thread H → ℕ
uncounted a (Thread.counting b) = if b.segment == a then 1 else 0
uncounted a _ = 0

-- The blocks that a thread has taken from the freed stack of segment a and not subtracted yet.
unfoldable pub unsubtracted : {H : Type 0} → ℕ → Thread H → ℕ
unsubtracted a (Thread.consuming k todo n) = if k == a then n else 0
unsubtracted a (Thread.moving k todo n b) = if k == a then n + 1 else 0
unsubtracted a (Thread.subtracting k todo n) = if k == a then n else 0
unsubtracted a _ = 0

-- How often a thread that collects or counts has yet to use segment a.
unfoldable pub needs : {H : Type 0} → ℕ → Thread H → ℕ
needs a (Thread.collecting todo) = count (λ k. k == a) todo
needs a (Thread.consuming k todo n) = count (λ k. k == a) (k ∷ todo)
needs a (Thread.moving k todo n b) = count (λ k. k == a) (k ∷ todo)
needs a (Thread.subtracting k todo n) = count (λ k. k == a) (k ∷ todo)
needs a _ = 0

unfoldable pub broken : {H : Type 0} → Thread H → ℕ
broken Thread.undefined = 1
broken _ = 0
