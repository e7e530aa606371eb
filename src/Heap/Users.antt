-- ===== src/Heap/Users.antt =====
-- User allocations on a heap: `register_user_allocation` and `free` of include/hwmalloc/heap.hpp.
use hwmalloc.Base.{ℕ, suc, ◌≤◌, ◌≡◌, refl, ap, Option, none, some, List, ◌∷◌, arith, ne→==, eq→==}
use hwmalloc.Config.{HeapConfig}
use hwmalloc.Numa.Tools.{Os}
use hwmalloc.Platform.{Block, Platform, IsStack}
use hwmalloc.Outcome.{Outcome, returns, Ends}
use hwmalloc.UserAllocation.{UserAllocation, user_block, release_user_allocation}
use hwmalloc.UserAllocation.Leaks.{Counts, Clean, register-Clean}
use hwmalloc.Heap.{State}
use hwmalloc.Heap.Release.{
  Memory, find_user, erase_user, delete_user, release, free, register_made, register_host,
  register_mirrored, register_both,
}
use hwmalloc.Heap.Session.{Serviceable, Session, went_on}
use hwmalloc.Heap.Session.Calls.{Session-Held}

module _ {W R H S : Type 0} (env : Platform W R H S) (laws : IsStack env.stack) (os : Os W)
    (n : Counts os env.context) (c : HeapConfig) (m : ℕ) where
  -- The blocks of the heap are held as before, and there are the same user allocations, and as many
  -- registrations and pieces of memory from malloc.
  pub record Restored (bs : List (Block H)) (before after : Memory W R S) : Type 0 where
    pub held : Session env laws os c m after.state bs
    pub users : after.users ≡ before.users
    pub regions : n.regions after.state.world ≡ n.regions before.state.world
    pub chunks : n.chunks after.state.world ≡ n.chunks before.state.world

  -- A registration ends; if it returns, `free` of the block that it yields returns and undoes it.
  abbrev pub Undone : List (Block H) → Memory W R S → Outcome (Memory W R S) (Block H) → Type 0
  Undone bs before =
      Ends
        (λ b with_user.
          Session env laws os c m with_user.state bs
          × (after : Memory W R S) × (free env os b with_user ≡ returns tt after)
          × Restored bs before after)
        (λ e after. Restored bs before after)

  erase_newest :
      (a : ℕ) (u : UserAllocation R) (users : List (ℕ × UserAllocation R))
      → erase_user a ((a, u) ∷ users) ≡ users
  unfolding erase_user
  erase_newest a u users = rw (eq→== a a refl) refl

  -- The newest user allocation is found, destroyed and taken out.
  free-newest :
      (a device_ptr device_id size : ℕ) (u : UserAllocation R) (s : State W R S)
      (users : List (ℕ × UserAllocation R))
      → 1 ≤ a
      → free env os
          (user_block os env.context a u device_ptr device_id size)
          (record { state = s; users = (a, u) ∷ users })
        ≡ returns tt (record {
          state = record s { world = release_user_allocation os env.context u s.world };
          users = users;
        })
  unfolding free release delete_user find_user erase_user user_block
  free-newest a device_ptr device_id size u s users pos =
      rw (ne→== a 0 (λ e. omega (arith, pos, e)), eq→== a a refl)
        (ap
          (λ us. returns tt (record {
            state = record s { world = release_user_allocation os env.context u s.world };
            users = us;
          }))
          (erase_newest a u users))

  register_made-Undone :
      (bs : List (Block H)) (before : Memory W R S) (device_ptr device_id size : ℕ)
      (made : Option (UserAllocation R) × W)
      → Session env laws os c m before.state bs
      → 1 ≤ before.state.next_object
      → Clean os env.context n (n.regions before.state.world) (n.chunks before.state.world) made
      → Undone bs before (register_made env os device_ptr device_id size made before)
  unfolding register_made
  register_made-Undone bs before device_ptr device_id size (none, w) h pos k = record {
    held = went_on w before.state.next_object before.state _ bs h (omega arith) refl;
    users = refl;
    regions = k.0;
    chunks = k.1;
  }
  register_made-Undone bs before device_ptr device_id size (some u, w) h pos k = (
    went_on w (suc before.state.next_object) before.state _ bs h (omega arith) refl,
    _,
    free-newest before.state.next_object device_ptr device_id size u _ before.users pos,
    record {
      held = went_on _ (suc before.state.next_object) before.state _ bs h (omega arith) refl;
      users = refl;
      regions = k.0;
      chunks = k.1;
    },
  )

  module _ (ns : List ℕ) (platform : Serviceable env ns) where
    -- The registration of memory of the user, in any of the three ways, after calls of `allocate` that
    -- have returned and of `free` that have returned or thrown, ends: it throws, and the user allocations, the number of registrations and that of the
    -- pieces of memory are as before; or it returns a block, and `free` of this block returns, and
    -- makes them what they were. All the while the same blocks of the heap are held.
    pub register-Undone :
        (ptr device_ptr device_id size : ℕ) (before : Memory W R S) (bs : List (Block H))
        → Session env laws os c m before.state bs
        → Undone bs before (register_host env os ptr size before)
          × Undone bs before (register_mirrored env os device_ptr device_id size before)
          × Undone bs before (register_both env os ptr device_ptr device_id size before)
    unfolding register_host register_mirrored register_both
    register-Undone ptr device_ptr device_id size before bs h =
        let pos = (Session-Held env laws os c m ns platform h).whole.started in
        let (one, both, mirrored) =
          register-Clean os env.context n before.state.world ptr device_ptr device_id size in
        (
          register_made-Undone bs before 0 0 size _ h pos one,
          register_made-Undone bs before device_ptr device_id size _ h pos mirrored,
          register_made-Undone bs before device_ptr device_id size _ h pos both,
        )
