-- ===== src/Pool/Pages.antt =====
-- The system calls of `add_segment` of include/hwmalloc/detail/pool.hpp.
use native.Mathlib.Nat.{div-mul-le_self, lt-div-mul-add, mod-eq_of_lt}
use hwmalloc.Base.{
  ℕ, ◌+◌, ◌-◌, ◌*◌, ◌/◌, ◌≤◌, ◌<◌, ◌≡◌, ◌≢◌, inl, inr, refl, ap, Bool, true, false, Option, none,
  some, arith, ◌==◌, Bool-cases, add_size, sub_size, mul_size, size_mod,
}
use hwmalloc.Numa.{Allocation}
use hwmalloc.Numa.Tools.Sized.{IsSized}
use hwmalloc.Device.{Malloced}
use hwmalloc.Platform.{Platform}
use hwmalloc.Outcome.{gpu_call_failed, Ends, Ends-mono}
use hwmalloc.Pool.{Pool, State, set_world, num_pages}
use hwmalloc.Pool.Grow.{
  check_allocation, allocate_pages, registered, registered_device, current_device, device_set,
  device_memory,
}

-- What a pool needs of its sizes and of the platform to make progress.
pub record CanGrow {W R H S : Type 0} (env : Platform W R H S) (p : Pool R S) : Type 0 where
  pub page_pos : 1 ≤ env.numa.page_size
  pub block_pos : 1 ≤ p.block_size
  pub holds : p.block_size ≤ p.segment_size
  pub no_wrap : p.segment_size + env.numa.page_size < size_mod
  pub sized : IsSized env.numa
  pub device_defined : (w : W) (n : ℕ) → (env.device.device_malloc w n).0 ≢ Malloced.undefined

pub CanGrow-same :
    {W R H S : Type 0} (env : Platform W R H S) (p q : Pool R S)
    → p.block_size ≡ q.block_size
    → p.segment_size ≡ q.segment_size
    → CanGrow env p
    → CanGrow env q
CanGrow-same env p q b g c = record {
  page_pos = c.page_pos;
  block_pos = omega (arith, c.block_pos);
  holds = omega (arith, c.holds);
  no_wrap = omega (arith, c.no_wrap);
  sized = c.sized;
  device_defined = c.device_defined;
}

-- The pages that are asked for hold the segment.
pub num_pages-le :
    (page segment : ℕ)
    → 1 ≤ page
    → segment + page < size_mod
    → segment ≤ mul_size (num_pages page segment) page
unfolding num_pages
num_pages-le page segment pos small =
    let x : ℕ = segment + page - 1 in
    let e : sub_size (add_size segment page) 1 ≡ x = omega arith in
    let below = div-mul-le_self x page in
    let above = lt-div-mul-add {a = x} {b = page} pos in
    rw (e, mod-eq_of_lt {n = x / page * page} {m = size_mod} (omega arith)) (omega arith)

-- The pool and the next address are as they were.
abbrev pub Same : {W R S : Type 0} → State W R S → State W R S → Type 0
Same s s' = (s'.pool ≡ s.pool) × (s'.next_object ≡ s.next_object)

-- Pages that hold a block.
abbrev pub Holds : ℕ → Allocation → Type 0
Holds size m = (size ≤ m.size) × (m.size < size_mod)

module _ {W R H S : Type 0} (env : Platform W R H S) where
  pub check_allocation-Ends :
      (a : Allocation) (node : ℕ) (s : State W R S)
      → Ends
          (λ a' s'. (a' ≡ a) × (a.ptr ≢ 0) × Same s s')
          (λ e s'. Same s s')
          (check_allocation env a node s)
  unfolding check_allocation set_world
  check_allocation-Ends a node s = elim (Bool-cases (a.ptr == 0)) [
    | inl null ↦ rw null (refl, refl)
    | inr set ↦ elim (Bool-cases (a.node == node)) [
      | inl right ↦ rw (set, right) (refl, ground arith, (refl, refl))
      | inr wrong ↦ rw (set, wrong) (refl, refl)
    ]
  ]

  pub registered-Ends :
      (s0 : State W R S) (r : Option R × W) (s : State W R S)
      → Same s0 s
      → Ends (λ r' s'. Same s0 s') (λ e s'. Same s0 s') (registered env r s)
  unfolding registered set_world
  registered-Ends s0 (none, w) s h = h
  registered-Ends s0 (some r, w) s h = h

  pub registered_device-Ends :
      (s0 : State W R S) (h : R) (r : Option R × W) (s : State W R S)
      → Same s0 s
      → Ends (λ r' s'. Same s0 s') (λ e s'. Same s0 s') (registered_device env h r s)
  unfolding registered_device set_world
  registered_device-Ends s0 h (none, w) s k = k
  registered_device-Ends s0 h (some r, w) s k = k

  -- What holds whatever the system is holds after a call of the device runtime.
  pub current_device-Ends :
      (P : State W R S → Type 0) (r : Option ℕ × W) (s : State W R S)
      → ((w : W) → P (set_world w s))
      → Ends (λ id s'. P s') (λ e s'. P s') (current_device env r s)
  unfolding current_device
  current_device-Ends P (none, w) s h = h w
  current_device-Ends P (some id, w) s h = h w

  pub device_set-Ends :
      (P : State W R S → Type 0) (r : Bool × W) (s : State W R S)
      → ((w : W) → P (set_world w s))
      → Ends (λ u s'. P s') (λ e s'. P s' × (e ≡ gpu_call_failed)) (device_set env r s)
  unfolding device_set
  device_set-Ends P (false, w) s h = (h w, refl)
  device_set-Ends P (true, w) s h = h w

  pub device_memory-Ends :
      (s0 : State W R S) (r : Malloced × W) (s : State W R S)
      → r.0 ≢ Malloced.undefined
      → Same s0 s
      → Ends (λ r' s'. Same s0 s') (λ e s'. Same s0 s') (device_memory env r s)
  unfolding device_memory set_world
  device_memory-Ends s0 (Malloced.memory p, w) s d h = h
  device_memory-Ends s0 (Malloced.threw, w) s d h = h
  device_memory-Ends s0 (Malloced.undefined, w) s d h = d refl

  pub allocate_pages-Ends :
      (s : State W R S)
      → CanGrow env s.pool
      → Ends
          (λ a s'. Holds s.pool.block_size a × Same s s')
          (λ e s'. Same s s')
          (allocate_pages env s)
  unfolding allocate_pages set_world
  allocate_pages-Ends s c =
      let pages = num_pages env.numa.page_size s.pool.segment_size in
      let ((a, w), e, size) = c.sized s.world pages s.pool.numa_node in
      let big = num_pages-le env.numa.page_size s.pool.segment_size c.page_pos c.no_wrap in
      rw (e, allocate_pages)
        (Ends-mono _ _ _ _ (check_allocation env a s.pool.numa_node (set_world w s))
          (check_allocation-Ends a s.pool.numa_node (set_world w s))
          (λ a' s' h. (
            (
              omega (arith, big, c.holds, size, h.1, ap (λ m. m.size) h.0),
              omega (arith, size, h.1, ap (λ m. m.size) h.0),
            ),
            h.2,
          ))
          (λ e s' h. h))
