-- ===== src/Pool/Allocate.antt =====
-- `allocate` of include/hwmalloc/detail/pool.hpp.
use hwmalloc.Base.{
  ℕ, zero, suc, ◌+◌, ◌%◌, ◌^◌, Option, none, some, List, [], ◌∷◌, ◌==◌, if◌then◌else◌,
}
use hwmalloc.Platform.{Block, Platform}
use hwmalloc.Outcome.{returns, hangs, Call, ◌>>=◌, ◌>>◌, return}
use hwmalloc.Segment
use hwmalloc.Segment.{Segment}
use hwmalloc.Pool.{State, set_pool, lock, unlock}
use hwmalloc.Pool.Grow.{add_segment}

module _ {W R H S : Type 0} (env : Platform W R H S) where
  open env use {numa, device, context, stack}

  -- `m_free_stack.pop(b)`
  unfoldable pub pop : Call (State W R S) (Option (Block H))
  pop s = elim (stack.pop s.pool.free_stack) [
    | none ↦ returns none s
    | some (b, t) ↦ returns (some b) (set_pool (record s.pool { free_stack = t }) s)
  ]

  abbrev pub choose :
      Option (Block H)
      → (Block H → Call (State W R S) (Block H))
      → Call (State W R S) (Block H)
      → Call (State W R S) (Block H)
  choose none found otherwise = otherwise
  choose (some b) found otherwise = found b

  -- `if (m_free_stack.pop(b)) { … return b; } …`
  unfoldable pub pop_or :
      (Block H → Call (State W R S) (Block H))
      → Call (State W R S) (Block H)
      → Call (State W R S) (Block H)
  pop_or found otherwise = do r ← pop; choose r found otherwise

  -- `for (auto& kvp : m_segments) kvp.first->collect(m_free_stack)`; the order of the map is that of
  -- the list.
  unfoldable pub collect_all : List (ℕ × Segment R S) → S → Option (List (ℕ × Segment R S) × S)
  collect_all [] t = some ([], t)
  collect_all ((k, g) ∷ gs) t = elim (Segment.collect env g t) [
    | none ↦ none
    | some (n, g', t') ↦ elim (collect_all gs t') [
      | none ↦ none
      | some (gs', t'') ↦ some ((k, g') ∷ gs', t'')
    ]
  ]

  unfoldable pub collect : Call (State W R S) (Unit {0})
  collect s = elim (collect_all s.pool.segments s.pool.free_stack) [
    | none ↦ hangs
    | some (gs, t) ↦ returns tt (set_pool (record s.pool { free_stack = t; segments = gs }) s)
  ]

  -- `while (!m_free_stack.pop(b)) { if (counter++ % 2 == 0) add_segment(); }`, with fuel.
  unfoldable pub refill : ℕ → ℕ → Call (State W R S) (Block H)
  refill zero counter s = hangs
  refill (suc f) counter s =
      pop_or return
        ((if counter % 2 == 0 then add_segment env else return tt)
          >> refill f ((counter + 1) % 2 ^ 32))
        s

  -- `m_mutex.unlock(); return b;`
  unfoldable pub unlock_and_return : Block H → Call (State W R S) (Block H)
  unlock_and_return b = unlock >> return b

  -- The part of `allocate` that runs under the lock.
  unfoldable pub allocate_locked : ℕ → Call (State W R S) (Block H)
  allocate_locked fuel =
      pop_or unlock_and_return
        (collect >> pop_or unlock_and_return (do b ← refill fuel 0; unlock_and_return b))

  unfoldable pub allocate : ℕ → Call (State W R S) (Block H)
  allocate fuel = pop_or return (lock >> allocate_locked fuel)
