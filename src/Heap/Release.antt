-- ===== src/Heap/Release.antt =====
-- Giving blocks back: `block_t::release` of include/hwmalloc/detail/block.hpp, its parts in
-- include/hwmalloc/detail/segment.hpp and include/hwmalloc/detail/user_allocation.hpp, and `heap::free`
-- and `heap::register_user_allocation` of include/hwmalloc/heap.hpp. A pointer is followed by looking
-- for the object with its address; if there is none it dangles.
use hwmalloc.Base.{ℕ, suc, false, not, Option, none, some, List, [], ◌∷◌, ◌==◌, if◌then◌else◌}
use hwmalloc.Numa.Tools.{Os}
use hwmalloc.Platform.{Block, Platform}
use hwmalloc.Outcome.{Outcome, Call, returns, throws, hangs, undefined, not_registered}
use hwmalloc.Segment.{Segment}
use hwmalloc.Pool.{Pool, find}
use hwmalloc.Pool
use hwmalloc.Pool.Free
use hwmalloc.UserAllocation.{UserAllocation}
use hwmalloc.UserAllocation
use hwmalloc.Heap.{Heap, State}
use hwmalloc.Heap.Spots.{Spot, pool_at, put_pool, spots}

-- A heap and the user allocations that were made by `new`, by their addresses.
pub record Memory (W R S : Type 0) : Type 0 where
  pub state : State W R S
  pub users : List (ℕ × UserAllocation R)

module _ {R S : Type 0} where
  -- The segment at an address, in the pools at some spots.
  unfoldable pub segment_in : ℕ → Heap R S → List Spot → Option (Segment R S)
  segment_in a h [] = none
  segment_in a h (t ∷ ts) = elim (pool_at h t) [
    | none ↦ segment_in a h ts
    | some p ↦ elim (find a p.segments) [ none ↦ segment_in a h ts | some g ↦ some g ]
  ]

  -- The pool at an address.
  unfoldable pub pool_in : ℕ → Heap R S → List Spot → Option (Spot × Pool R S)
  pool_in a h [] = none
  pool_in a h (t ∷ ts) = elim (pool_at h t) [
    | none ↦ pool_in a h ts
    | some p ↦ if p.self == a then some (t, p) else pool_in a h ts
  ]

module _ {R : Type 0} where
  unfoldable pub find_user : ℕ → List (ℕ × UserAllocation R) → Option (UserAllocation R)
  find_user a [] = none
  find_user a ((k, u) ∷ us) = if k == a then some u else find_user a us

  unfoldable pub erase_user : ℕ → List (ℕ × UserAllocation R) → List (ℕ × UserAllocation R)
  erase_user a [] = []
  erase_user a ((k, u) ∷ us) = if k == a then us else (k, u) ∷ erase_user a us

module _ {W R H S : Type 0} (env : Platform W R H S) where
  -- A pool in its surroundings, and the heap after a call on it.
  abbrev pub inside : State W R S → Pool R S → Pool.State W R S
  inside s p = record { world = s.world; next_object = s.next_object; pool = p }

  abbrev pub after : State W R S → Spot → Pool.State W R S → State W R S
  after s t s' = record s {
    world = s'.world;
    next_object = s'.next_object;
    heap = put_pool t s'.pool s.heap;
  }

  abbrev pub back_at :
      {A : Type 0} → State W R S → Spot → Outcome (Pool.State W R S) A → Outcome (State W R S) A
  back_at s t (returns a s') = returns a (after s t s')
  back_at s t (throws e s') = throws e (after s t s')
  back_at s t hangs = hangs
  back_at s t undefined = undefined

  -- `get_pool()` and `free` on the pool that it gives.
  unfoldable pub free_in : Block H → Option (Spot × Pool R S) → Call (State W R S) (Unit {0})
  free_in b none s = undefined
  free_in b (some (t, p)) s = back_at s t (Free.free env b (inside s p))

  unfoldable pub free_from : Block H → Option (Segment R S) → Call (State W R S) (Unit {0})
  free_from b none s = undefined
  free_from b (some g) s = free_in b (pool_in g.pool s.heap (spots s.heap)) s

  unfoldable pub release_from_segment : Block H → Call (State W R S) (Unit {0})
  release_from_segment b s = free_from b (segment_in b.segment s.heap (spots s.heap)) s

  abbrev pub in_memory :
      {A : Type 0} → Memory W R S → Outcome (State W R S) A → Outcome (Memory W R S) A
  in_memory m (returns a s) = returns a (record m { state = s })
  in_memory m (throws e s) = throws e (record m { state = s })
  in_memory m hangs = hangs
  in_memory m undefined = undefined

  module _ (os : Os W) where
    -- `delete m_user_allocation`
    unfoldable pub delete_user : ℕ → Option (UserAllocation R) → Call (Memory W R S) (Unit {0})
    delete_user a none m = undefined
    delete_user a (some u) m = returns tt (record m {
      state = record m.state {
        world = UserAllocation.release_user_allocation os env.context u m.state.world;
      };
      users = erase_user a m.users;
    })

    unfoldable pub release : Block H → Call (Memory W R S) (Unit {0})
    release b m =
        if not (b.segment == 0)
        then in_memory m (release_from_segment b m.state)
        else if not (b.user_allocation == 0)
        then delete_user b.user_allocation (find_user b.user_allocation m.users) m
        else returns tt m

    -- `heap::free`, on the block in the pointer.
    unfoldable pub free : Block H → Call (Memory W R S) (Unit {0})
    free b = release b

    -- The three overloads of `register_user_allocation`: the object is made, or its constructor throws.
    unfoldable pub register_made :
        ℕ → ℕ → ℕ → Option (UserAllocation R) × W → Call (Memory W R S) (Block H)
    register_made device_ptr device_id size (none, w) m =
        throws not_registered (record m { state = record m.state { world = w } })
    register_made device_ptr device_id size (some u, w) m =
        let a = m.state.next_object in
        returns (UserAllocation.user_block os env.context a u device_ptr device_id size) (record m {
          state = record m.state { world = w; next_object = suc a };
          users = (a, u) ∷ m.users;
        })

    unfoldable pub register_host : ℕ → ℕ → Call (Memory W R S) (Block H)
    register_host ptr size m =
        register_made 0 0 size (UserAllocation.register_host os env.context m.state.world ptr size)
          m

    unfoldable pub register_mirrored : ℕ → ℕ → ℕ → Call (Memory W R S) (Block H)
    register_mirrored device_ptr device_id size m =
        register_made device_ptr device_id size
          (UserAllocation.register_mirrored os env.context m.state.world device_ptr device_id size)
          m

    unfoldable pub register_both : ℕ → ℕ → ℕ → ℕ → Call (Memory W R S) (Block H)
    register_both ptr device_ptr device_id size m =
        register_made device_ptr device_id size
          (UserAllocation.register_both os env.context (record { ptr = ptr; delete = false })
            m.state.world device_ptr device_id size)
          m
