-- ===== src/Threads/Progress.antt =====
-- How many turns a thread needs for its call of a pool (include/hwmalloc/detail/pool.hpp).
mod Steps
mod Turns
pub mod Finish
use hwmalloc.Base.{
  ℕ, suc, ◌+◌, ◌*◌, ◌%◌, ◌≡◌, refl, ap, Bool, true, false, List, [], ◌∷◌, arith, length, count,
  if◌then◌else◌, ◌==◌,
}
use hwmalloc.Platform.{Block, Platform, IsStack}
use hwmalloc.Pool.Totals.{freed_all}
use hwmalloc.Threads.{Thread, Shared}
use hwmalloc.Threads.Turn.{keys}

-- A thread that is not inside a call, or that an exception or a read of a counter that is gone has
-- stopped.
unfoldable pub rests : {H : Type 0} → Thread H → Bool
rests Thread.idle = true
rests (Thread.failed e) = true
rests (Thread.thrown e) = true
rests (Thread.dangling b) = true
rests (Thread.dangling_locked b) = true
rests _ = false

pub length-keys : {A : Type 0} (xs : List (ℕ × A)) → length (keys xs) ≡ length xs
length-keys [] = refl
length-keys ((k, x) ∷ xs) = ap suc (length-keys xs)

module _ {W R H S : Type 0} (env : Platform W R H S) (laws : IsStack env.stack) where
  open laws use {contents}

  -- The freed blocks that a collection moves.
  abbrev pub freed : Shared W R H S → ℕ
  freed x = count (λ b. true) (freed_all env laws x.state.pool.segments)

  -- The turns before a loop that pops can give a block.
  abbrev pub rounds : List (Block H) → ℕ → ℕ
  rounds [] c = if c % 2 == 0 then 4 else 6
  rounds (b ∷ bs) c = 2

  -- A bound on the turns that a thread needs to end its call, if it alone has turns.
  unfoldable pub left : Shared W R H S → Thread H → ℕ
  left x Thread.locking = 10 + 3 * length x.state.pool.segments + 2 * freed x
  left x Thread.second_pop = 9 + 3 * length x.state.pool.segments + 2 * freed x
  left x (Thread.collecting todo) = 8 + 3 * length todo + 2 * freed x
  left x (Thread.consuming a todo n) = 10 + 3 * length todo + 2 * freed x
  left x (Thread.moving a todo n b) = 11 + 3 * length todo + 2 * freed x
  left x (Thread.subtracting a todo n) = 9 + 3 * length todo + 2 * freed x
  left x Thread.third_pop = 7
  left x (Thread.refilling c) = rounds (contents x.state.pool.free_stack) c
  left x (Thread.growing c) = if c % 2 == 0 then 3 else 5
  left x (Thread.leaving b) = 1
  left x (Thread.pushing b) = 6
  left x (Thread.counting b) = 5
  left x (Thread.checking b) = 4
  left x (Thread.erase_locking b) = 3
  left x (Thread.rechecking b) = 2
  left x Thread.unlocking = 1
  left x (Thread.unwinding e) = 1
  left x _ = 0
