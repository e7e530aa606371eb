-- ===== src/Pool/Frame/Grows.antt =====
-- `add_segment` of include/hwmalloc/detail/pool.hpp keeps to the frame of the pool.
use hwmalloc.Base.{
  ◌/◌, ℕ, ◌≡◌, inl, inr, refl, sym, ap, ◌∙◌, Bool, true, false, Option, none, some, arith,
  if◌then◌else◌, ◌==◌, Option-cases, Bool-cases,
}
use hwmalloc.Numa.{Allocation, is_set}
use hwmalloc.Device.{Malloced}
use hwmalloc.Platform.{Platform}
use hwmalloc.Outcome.{Outcome}
use hwmalloc.Segment.{Segment, fill_free_stack, make_segment}
use hwmalloc.Pool.{num_pages, State, find, set_world}
use hwmalloc.Pool.Grow.{
  registered_device, current_device, device_set, make_and_insert, make_device_segment,
  check_allocation, allocate_pages, registered, device_memory, insert_segment, add_host_segment,
  add_device_segment, add_segment,
}
use hwmalloc.Pool.Map.{find-cons}
use hwmalloc.Pool.Pages.{Same}
use hwmalloc.Pool.Frame.{After, and_then-After, label, own_label, Frame, Frame-same, Keeps}

module _ {W R H S : Type 0} (env : Platform W R H S) where
  -- The system calls of `add_segment` change neither the pool nor the next address.
  abbrev Leaves : {A : Type 0} → State W R S → Outcome (State W R S) A → Type 0
  Leaves s o = After (Same s) o

  Same-Frame : (s s' : State W R S) → Same s s' → Frame s s'
  Same-Frame s s' h =
      Frame-same s s' (omega (arith, h.1)) (ap (λ p. p.self) h.0) (ap (λ p. p.block_size) h.0)
        (ap (λ p. p.segment_size) h.0) (ap (λ p. p.segments) h.0)

  registered-Leaves :
      (s0 s : State W R S) (r : Option R × W) → Same s0 s → Leaves s0 (registered env r s)
  unfolding registered set_world
  registered-Leaves s0 s (none, w) h = h
  registered-Leaves s0 s (some r, w) h = h

  registered_device-Leaves :
      (s0 s : State W R S) (d : R) (r : Option R × W)
      → Same s0 s
      → Leaves s0 (registered_device env d r s)
  unfolding registered_device set_world
  registered_device-Leaves s0 s d (none, w) h = h
  registered_device-Leaves s0 s d (some r, w) h = h

  device_memory-Leaves :
      (s0 s : State W R S) (r : Malloced × W) → Same s0 s → Leaves s0 (device_memory env r s)
  unfolding device_memory set_world
  device_memory-Leaves s0 s (Malloced.memory p, w) h = h
  device_memory-Leaves s0 s (Malloced.threw, w) h = h
  device_memory-Leaves s0 s (Malloced.undefined, w) h = tt

  check_allocation-Leaves :
      (s0 s : State W R S) (a : Allocation) (node : ℕ)
      → Same s0 s
      → Leaves s0 (check_allocation env a node s)
  unfolding check_allocation set_world
  check_allocation-Leaves s0 s a node h = elim (Bool-cases (is_set a)) [
    | inl memory ↦ elim (Bool-cases (a.node == node)) [
      | inl right ↦ rw (memory, right) h
      | inr wrong ↦ rw (memory, wrong) h
    ]
    | inr null ↦ rw null h
  ]

  allocate_pages-Leaves : (s : State W R S) → Leaves s (allocate_pages env s)
  unfolding allocate_pages set_world
  allocate_pages-Leaves s =
      let pages = num_pages env.numa.page_size s.pool.segment_size in
      elim (Option-cases (env.numa.allocate s.world pages s.pool.numa_node)) [
        | inl undefined ↦ rw (undefined, allocate_pages) tt
        | inr ((a, w), e) ↦
            rw (e, allocate_pages)
              (check_allocation-Leaves s (set_world w s) a s.pool.numa_node (refl, refl))
      ]

  -- A new segment that points to the pool.
  insert_segment-Frame :
      (s0 s : State W R S) (g : Segment R S)
      → Same s0 s
      → label g ≡ own_label s0.pool
      → After (Frame s0) (insert_segment env g s)
  unfolding insert_segment
  insert_segment-Frame s0 s g h own =
      elim (Option-cases (fill_free_stack env s.next_object g s.pool.free_stack)) [
        | inl full ↦ rw (full, insert_segment) tt
        | inr (t, e) ↦
            rw (e, insert_segment)
              (record {
                next = omega (arith, h.1);
                self = ap (λ p. p.self) h.0;
                block_size = ap (λ p. p.block_size) h.0;
                segment_size = ap (λ p. p.segment_size) h.0;
                segments = λ a k there. elim (find-cons a s.next_object g k s.pool.segments there) [
                  | inl (new, same) ↦ inr (omega (arith, new, h.1), ap label (sym same) ∙ own)
                  | inr (ne, old) ↦ inl (k, ap (λ p. find a p.segments) (sym h.0) ∙ old, refl)
                ];
              })
      ]

  make_and_insert-Frame :
      (s0 s : State W R S) (r : R) (a : Allocation) (dp : ℕ) (dr : Option R) (id : ℕ)
      → Same s0 s
      → After (Frame s0) (make_and_insert env r a dp dr id s)
  unfolding make_and_insert make_segment set_world
  make_and_insert-Frame s0 s r a dp dr id h =
      elim (Option-cases (env.stack.fixed (a.size / s.pool.block_size))) [
        | inl too_large ↦ rw (too_large, make_and_insert) (Same-Frame s0 _ h)
        | inr (f, made) ↦
            rw (made, make_and_insert) (insert_segment-Frame s0 s _ h (ap own_label h.0))
      ]

  add_host_segment-Frame :
      (s0 s : State W R S) (a : Allocation)
      → Same s0 s
      → After (Frame s0) (add_host_segment env a s)
  unfolding add_host_segment
  add_host_segment-Frame s0 s a h =
      and_then-After (Same s0) (Frame s0)
        (registered env (env.context.register_memory s.world a.ptr a.size) s) _
        (registered-Leaves s0 s _ h) (Same-Frame s0)
        (λ r s' h'. make_and_insert-Frame s0 s' r a 0 none 0 h')

  make_device_segment-Frame :
      (s0 s : State W R S) (id : ℕ) (a : Allocation)
      → Same s0 s
      → After (Frame s0) (make_device_segment env id a s)
  unfolding make_device_segment
  make_device_segment-Frame s0 s id a h =
      let go = Same-Frame s0 in
      and_then-After (Same s0) (Frame s0)
        (device_memory env (env.device.device_malloc s.world a.size) s) _
        (device_memory-Leaves s0 s _ h) go
        λ dp s1 h1.
          and_then-After (Same s0) (Frame s0)
            (registered env (env.context.register_memory s1.world a.ptr a.size) s1) _
            (registered-Leaves s0 s1 _ h1) go
            λ r s2 h2.
              and_then-After (Same s0) (Frame s0)
                (registered_device env r (env.context.register_device_memory s2.world id dp a.size)
                  s2)
                _ (registered_device-Leaves s0 s2 r _ h2) go
                λ dr s3 h3. make_and_insert-Frame s0 s3 r a dp (some dr) id h3

  -- The calls of the device runtime leave a frame alone.
  pub current_device-After :
      (P : State W R S → Type 0) (r : Option ℕ × W) (s : State W R S)
      → ((w : W) → P (set_world w s))
      → After P (current_device env r s)
  unfolding current_device
  current_device-After P (none, w) s h = h w
  current_device-After P (some id, w) s h = h w

  pub device_set-After :
      (P : State W R S → Type 0) (r : Bool × W) (s : State W R S)
      → ((w : W) → P (set_world w s))
      → After P (device_set env r s)
  unfolding device_set
  device_set-After P (false, w) s h = h w
  device_set-After P (true, w) s h = h w

  pub Frame-world : (s0 s : State W R S) (w : W) → Frame s0 s → Frame s0 (set_world w s)
  unfolding set_world
  Frame-world s0 s w f = record {
    next = f.next;
    self = f.self;
    block_size = f.block_size;
    segment_size = f.segment_size;
    segments = f.segments;
  }

  add_device_segment-Frame :
      (s0 s : State W R S) (a : Allocation)
      → Same s0 s
      → After (Frame s0) (add_device_segment env a s)
  unfolding add_device_segment set_world
  add_device_segment-Frame s0 s a h =
      let id = s.pool.device_id in
      and_then-After (Same s0) (Frame s0) (current_device env (env.device.get_device_id s.world) s)
        _ (current_device-After (Same s0) _ s (λ w. h)) (Same-Frame s0)
        λ tmp s1 h1.
          and_then-After (Same s0) (Frame s0)
            (device_set env (env.device.set_device_id s1.world id) s1) _
            (device_set-After (Same s0) _ s1 (λ w. h1)) (Same-Frame s0)
            λ u s2 h2.
              and_then-After (Frame s0) (Frame s0) (make_device_segment env id a s2) _
                (make_device_segment-Frame s0 s2 id a h2) (λ t f. f)
                λ u s3 f. device_set-After (Frame s0) _ s3 (λ w. Frame-world s0 s3 w f)

  pub add_segment-Keeps : Keeps (add_segment env)
  unfolding add_segment
  add_segment-Keeps s =
      and_then-After (Same s) (Frame s) (allocate_pages env s) _ (allocate_pages-Leaves s)
        (Same-Frame s) (λ a s' h. by_kind a s' h s.pool.allocate_on_device)
    where
      by_kind :
          (a : Allocation) (s' : State W R S)
          → Same s s'
          → (b : Bool)
          → After (Frame s) ((if b then add_device_segment env a else add_host_segment env a) s')
      by_kind a s' h true = add_device_segment-Frame s s' a h
      by_kind a s' h false = add_host_segment-Frame s s' a h
