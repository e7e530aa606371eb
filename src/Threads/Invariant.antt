-- ===== src/Threads/Invariant.antt =====
-- The invariant of a pool (include/hwmalloc/detail/pool.hpp) that several threads use at a time.
use hwmalloc.Outcome.{Exception}
use hwmalloc.Base.{
  refl, sym, subst, ℕ, ◌*◌, ◌+◌, ◌%◌, ◌^◌, ◌≤◌, ◌<◌, ◌≡◌, Bool, none, some, List, length, count,
  size_mod, if◌then◌else◌,
}
use hwmalloc.Platform.{Block, Platform, IsStack}
use hwmalloc.Segment.{Segment}
use hwmalloc.Segment.Blocks.{owned_by}
use hwmalloc.Pool.{State, find}
use hwmalloc.Pool.Map.{Below}
use hwmalloc.Pool.Pages.{CanGrow}
use hwmalloc.Pool.Totals.{freed_all, blocks_all}
use hwmalloc.Threads.{Thread, Shared, carrying, locks, uncounted, unsubtracted, needs, broken}
use hwmalloc.Threads.Totals.{total}

abbrev pub Found : {R S : Type 0} → ℕ → List (ℕ × Segment R S) → Type 0
Found {R} {S} a gs = (g : Segment R S) × (find a gs ≡ some g)

-- The blocks under way that pass a test.
abbrev pub moved : {H : Type 0} → (Block H → Bool) → Thread H → ℕ
moved q t = count q (carrying t)

-- A thread that holds the lock, and no block, and that uses no segment.
pub record Quiet {H : Type 0} (t : Thread H) : Type 0 where
  pub locked : locks t ≡ 1
  pub no_blocks : (q : Block H → Bool) → moved q t ≡ 0
  pub not_counting : (a : ℕ) → uncounted a t ≡ 0
  pub not_subtracting : (a : ℕ) → unsubtracted a t ≡ 0
  pub needs_none : (a : ℕ) → needs a t ≡ 0
  pub whole : broken t ≡ 0

pub refilling-Quiet : {H : Type 0} (n : ℕ) → Quiet {H = H} (Thread.refilling n)
unfolding locks carrying uncounted unsubtracted needs broken
refilling-Quiet n = record {
  locked = refl;
  no_blocks = λ q. refl;
  not_counting = λ a. refl;
  not_subtracting = λ a. refl;
  needs_none = λ a. refl;
  whole = refl;
}

pub failed-Quiet : {H : Type 0} (e : Exception) → Quiet {H = H} (Thread.failed e)
unfolding locks carrying uncounted unsubtracted needs broken
failed-Quiet e = record {
  locked = refl;
  no_blocks = λ q. refl;
  not_counting = λ a. refl;
  not_subtracting = λ a. refl;
  needs_none = λ a. refl;
  whole = refl;
}

pub unlocking-Quiet : {H : Type 0} → Quiet {H = H} Thread.unlocking
unfolding locks carrying uncounted unsubtracted needs broken
unlocking-Quiet = record {
  locked = refl;
  no_blocks = λ q. refl;
  not_counting = λ a. refl;
  not_subtracting = λ a. refl;
  needs_none = λ a. refl;
  whole = refl;
}

pub unwinding-Quiet : {H : Type 0} (e : Exception) → Quiet {H = H} (Thread.unwinding e)
unfolding locks carrying uncounted unsubtracted needs broken
unwinding-Quiet e = record {
  locked = refl;
  no_blocks = λ q. refl;
  not_counting = λ a. refl;
  not_subtracting = λ a. refl;
  needs_none = λ a. refl;
  whole = refl;
}

module _ {W R H S : Type 0} (env : Platform W R H S) (laws : IsStack env.stack) where
  open laws use {contents, capacity}

  -- A segment while threads use it. The counter lags behind the freed stack by the blocks that were
  -- pushed and not counted, and is ahead of it by those that were taken and not subtracted.
  pub record IsUsed (a : ℕ) (g : Segment R S) (ts : List (Thread H)) : Type 0 where
    pub room : capacity g.freed_stack ≡ some g.num_blocks
    pub small : g.num_blocks < 2 ^ 63
    pub sized : 1 ≤ g.block_size
    pub extent : g.num_blocks * g.block_size ≤ g.allocation.size
    pub extent_small : g.allocation.size < size_mod
    pub num_small : g.num_freed < size_mod
    pub own : count (owned_by a) (contents g.freed_stack) ≡ length (contents g.freed_stack)
    pub counted :
        (g.num_freed + total (uncounted a) ts) % size_mod
        ≡ (length (contents g.freed_stack) + total (unsubtracted a) ts) % size_mod

  -- No block is lost and none is made up, the lock is held by at most one thread, and no thread that
  -- collects or counts uses a segment that is gone.
  pub record Inv (x : Shared W R H S) (ts : List (Thread H)) : Type 0 where
    pub can_grow : CanGrow env x.state.pool
    pub block_size : 2 ≤ x.state.pool.block_size
    pub few : length ts < 2 ^ 63
    pub grows : capacity x.state.pool.free_stack ≡ none
    pub below : Below x.state.next_object x.state.pool.segments
    pub used : (a : ℕ) (g : Segment R S) → find a x.state.pool.segments ≡ some g → IsUsed a g ts
    pub balanced :
        (q : Block H → Bool)
        → count q (contents x.state.pool.free_stack)
            + count q (freed_all env laws x.state.pool.segments)
            + count q x.held
            + total (moved q) ts
          ≡ count q (blocks_all env laws x.state.pool.segments)
    pub locked : total locks ts ≡ (if x.state.pool.mutex then 1 else 0)
    pub needed : (a : ℕ) → 1 ≤ total (needs a) ts → Found a x.state.pool.segments
    pub to_count : (a : ℕ) → 1 ≤ total (uncounted a) ts → Found a x.state.pool.segments
    pub unbroken : total broken ts ≡ 0

  -- The system does not matter.
  pub Inv-same :
      (x : Shared W R H S) (s' : State W R S) (ts : List (Thread H))
      → s'.pool ≡ x.state.pool
      → s'.next_object ≡ x.state.next_object
      → Inv x ts
      → Inv (record x { state = s' }) ts
  Inv-same x s' ts same next v =
      subst (λ p. Inv (record x { state = record s' { pool = p } }) ts) (sym same)
        (record {
          can_grow = v.can_grow;
          block_size = v.block_size;
          few = v.few;
          grows = v.grows;
          below = subst (λ n. Below n x.state.pool.segments) (sym next) v.below;
          used = v.used;
          balanced = v.balanced;
          locked = v.locked;
          needed = v.needed;
          to_count = v.to_count;
          unbroken = v.unbroken;
        })
