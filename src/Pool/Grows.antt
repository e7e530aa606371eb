-- ===== src/Pool/Grows.antt =====
-- `add_segment` of include/hwmalloc/detail/pool.hpp against the invariant of the pool.
use native.Mathlib.Nat.{div-mul-le_self, div-le_self, le-div_iff_mul-le}
use hwmalloc.Base.{
  ◌≡◌, ◌≡◌, ◌≡◌, ◌≡◌, ◌≡◌, ◌≡◌, ◌≡◌, ◌≡◌, inr, ◌⊎◌, Option-cases, inl, ◌*◌, suc, subst, ◌∙◌, Bool,
  ◌∷◌, ◌+◌, ℕ, ◌/◌, ◌≤◌, ◌<◌, ◌≡◌, refl, sym, ap, true, Option, none, some, List, [], arith, length,
  count, count-append, count-true, size_mod,
}
use hwmalloc.Numa.{Allocation}
use hwmalloc.Platform.{Block, Platform, IsStack}
use hwmalloc.Outcome.{gpu_call_failed, Exception, Ends, Ends-mono, and_then-Ends, if-Ends}
use hwmalloc.Segment.{Segment, fill_free_stack, make_segment, blocks_down}
use hwmalloc.Segment.Blocks.{owned_by, length-blocks_down}
use hwmalloc.Segment.Collect.{IsValid, push_all-Pushed}
use hwmalloc.Pool.{State, set_world}
use hwmalloc.Pool.Grow.{
  allocate_pages, registered, registered_device, current_device, device_set, device_memory,
  insert_segment, make_device_segment, make_and_insert, add_host_segment, add_device_segment,
  add_segment,
}
use hwmalloc.Pool.Totals.{freed_all, blocks_all}
use hwmalloc.Pool.Invariant.{IsSound, IsSound-same}
use hwmalloc.Pool.Pages.{
  CanGrow, Same, Holds, registered-Ends, registered_device-Ends, current_device-Ends,
  device_set-Ends, device_memory-Ends, allocate_pages-Ends,
}

module _ {W R H S : Type 0} (env : Platform W R H S) (laws : IsStack env.stack) where
  open laws use {contents, capacity}

  -- What `add_segment` leaves: one segment more, valid and with nothing freed, at the address of the
  -- new object, and its blocks on the free stack.
  pub record Inserted (s s' : State W R S) : Type 0 where
    pub segment : Segment R S
    pub valid : IsValid env laws s.next_object segment
    pub none_freed : contents segment.freed_stack ≡ []
    pub some_blocks : 1 ≤ segment.num_blocks
    pub size : segment.block_size ≡ s.pool.block_size
    pub least : segment.num_blocks * s.pool.block_size < size_mod
    pub next : s'.next_object ≡ suc s.next_object
    pub grows : capacity s'.pool.free_stack ≡ none
    pub counts :
        (q : Block H → Bool)
        → count q (contents s'.pool.free_stack)
          ≡ count q (blocks_down env s.next_object segment segment.num_blocks)
            + count q (contents s.pool.free_stack)
    pub same : s'.pool ≡ record s.pool {
      free_stack = s'.pool.free_stack;
      segments = (s.next_object, segment) ∷ s.pool.segments;
    }

  -- What an exception leaves: the pool as it was, or, when the device cannot be reset, the pool with
  -- the segment.
  abbrev pub Undone : State W R S → Exception → State W R S → Type 0
  Undone s e s' = Same s s' ⊎ (Inserted s s' × (e ≡ gpu_call_failed))

  insert_segment-Inserted :
      (s0 s : State W R S) (g : Segment R S)
      → capacity s0.pool.free_stack ≡ none
      → Same s0 s
      → IsValid env laws s.next_object g
      → contents g.freed_stack ≡ []
      → 1 ≤ g.num_blocks
      → g.block_size ≡ s0.pool.block_size
      → Ends (λ _ s'. Inserted s0 s') (λ e s'. Same s0 s') (insert_segment env g s)
  unfolding insert_segment fill_free_stack
  insert_segment-Inserted s0 s g grows same gv none_freed some_blocks size =
      let bs = blocks_down env s.next_object g g.num_blocks in
      let m =
        push_all-Pushed laws bs s.pool.free_stack
          (ap (λ p. capacity p.free_stack) same.0 ∙ grows) in
      rw (m.result, insert_segment, fill_free_stack)
        (record {
          segment = g;
          valid = subst (λ n. IsValid env laws n g) same.1 gv;
          none_freed = none_freed;
          some_blocks = some_blocks;
          size = size;
          least =
              subst (λ z. g.num_blocks * z < size_mod) size
                (omega (arith, gv.extent, gv.extent_small));
          next = ap suc same.1;
          grows = m.grows;
          counts = λ q. omega (
            arith,
            m.counts q,
            ap (λ n. count q (blocks_down env n g g.num_blocks)) same.1,
            ap (λ p. count q (contents p.free_stack)) same.0,
          );
          same = λ i. record (same.0 i) {
            free_stack = m.after;
            segments = (same.1 i, g) ∷ (same.0 i).segments;
          };
        })

  make_segment-IsValid :
      (a : ℕ) (pool : ℕ) (r : R) (m : Allocation) (size dp : ℕ) (dr : Option R) (id : ℕ) (f : S)
      → env.stack.fixed (m.size / size) ≡ some f
      → m.size < size_mod
      → IsValid env laws a (make_segment env pool r m size dp dr id f)
  unfolding make_segment
  make_segment-IsValid a pool r m size dp dr id f made small =
      let e = laws.contents-fixed (m.size / size) f made in
      record {
        room = laws.capacity-fixed (m.size / size) f made;
        counted = omega (arith, ap length e);
        small = omega (arith, div-le_self m.size size);
        extent = div-mul-le_self m.size size;
        extent_small = small;
        own = omega (arith, ap length e, ap (count (owned_by a)) e);
      }

  module _ (s0 : State W R S) (a : Allocation) (v : capacity s0.pool.free_stack ≡ none)
      (c : CanGrow env s0.pool) (fits : Holds s0.pool.block_size a) where
    abbrev Good : Unit {0} → State W R S → Type 0
    Good u s' = Inserted s0 s'

    abbrev Before : Exception → State W R S → Type 0
    Before e s' = Same s0 s'

    make_and_insert-Inserted :
        (s : State W R S) (r : R) (dp : ℕ) (dr : Option R) (id : ℕ)
        → Same s0 s
        → Ends Good Before (make_and_insert env r a dp dr id s)
    unfolding make_and_insert make_segment set_world
    make_and_insert-Inserted s r dp dr id same =
        let size = s.pool.block_size in
        let e : size ≡ s0.pool.block_size = ap (λ p. p.block_size) same.0 in
        elim (Option-cases (env.stack.fixed (a.size / size))) [
          | inl too_large ↦ rw (too_large, make_and_insert) same
          | inr (f, made) ↦
              rw (made, make_and_insert)
                (insert_segment-Inserted s0 s (make_segment env s.pool.self r a size dp dr id f) v
                  same
                  (make_segment-IsValid s.next_object s.pool.self r a size dp dr id f made fits.1)
                  (laws.contents-fixed (a.size / size) f made)
                  ((le-div_iff_mul-le (omega (arith, c.block_pos, e))).1 (omega (arith, fits, e)))
                  e)
        ]

    add_host_segment-Inserted :
        (s : State W R S) → Same s0 s → Ends Good Before (add_host_segment env a s)
    unfolding add_host_segment
    add_host_segment-Inserted s same =
        and_then-Ends (λ r s'. Same s0 s') Good Before
          (registered env (env.context.register_memory s.world a.ptr a.size) s) _
          (registered-Ends env s0 (env.context.register_memory s.world a.ptr a.size) s same)
          (λ r s' h. make_and_insert-Inserted s' r 0 none 0 h)

    -- The system is all that a segment that was inserted does not depend on.
    Inserted-world : (s : State W R S) (w : W) → Inserted s0 s → Inserted s0 (set_world w s)
    unfolding set_world
    Inserted-world s w g = record {
      segment = g.segment;
      valid = g.valid;
      none_freed = g.none_freed;
      some_blocks = g.some_blocks;
      size = g.size;
      least = g.least;
      next = g.next;
      grows = g.grows;
      counts = g.counts;
      same = g.same;
    }

    make_device_segment-Inserted :
        (id : ℕ) (s : State W R S) → Same s0 s → Ends Good Before (make_device_segment env id a s)
    unfolding make_device_segment
    make_device_segment-Inserted id s same =
        let keep = λ (A : Type 0) (r : A) (s' : State W R S). Same s0 s' in
        and_then-Ends (keep ℕ) Good Before
          (device_memory env (env.device.device_malloc s.world a.size) s) _
          (device_memory-Ends env s0 (env.device.device_malloc s.world a.size) s
            (c.device_defined s.world a.size) same)
          λ dp s1 h1.
            and_then-Ends (keep R) Good Before
              (registered env (env.context.register_memory s1.world a.ptr a.size) s1) _
              (registered-Ends env s0 (env.context.register_memory s1.world a.ptr a.size) s1 h1)
              λ r s2 h2.
                and_then-Ends (keep R) Good Before
                  (registered_device env r
                    (env.context.register_device_memory s2.world id dp a.size) s2)
                  _
                  (registered_device-Ends env s0 r
                    (env.context.register_device_memory s2.world id dp a.size) s2 h2)
                  λ dr s3 h3. make_and_insert-Inserted s3 r dp (some dr) id h3

    add_device_segment-Inserted :
        (s : State W R S) → Same s0 s → Ends Good (Undone s0) (add_device_segment env a s)
    unfolding add_device_segment set_world
    add_device_segment-Inserted s same =
        let id = s.pool.device_id in
        let early = λ (e : Exception) (s' : State W R S) (h : Same s0 s'). inl h in
        and_then-Ends (λ tmp s'. Same s0 s') Good (Undone s0)
          (current_device env (env.device.get_device_id s.world) s) _
          (Ends-mono _ _ _ _ (current_device env (env.device.get_device_id s.world) s)
            (current_device-Ends env (Same s0) (env.device.get_device_id s.world) s (λ w. same))
            (λ tmp s' h. h) early)
          λ tmp s1 h1.
            and_then-Ends (λ u s'. Same s0 s') Good (Undone s0)
              (device_set env (env.device.set_device_id s1.world id) s1) _
              (Ends-mono _ _ _ _ (device_set env (env.device.set_device_id s1.world id) s1)
                (device_set-Ends env (Same s0) (env.device.set_device_id s1.world id) s1 (λ w. h1))
                (λ u s' h. h) (λ e s' h. inl h.0))
              λ u s2 h2.
                and_then-Ends Good Good (Undone s0) (make_device_segment env id a s2) _
                  (Ends-mono _ _ _ _ (make_device_segment env id a s2)
                    (make_device_segment-Inserted id s2 h2) (λ u s' h. h) early)
                  λ u s3 h3.
                    Ends-mono _ _ _ _ (device_set env (env.device.set_device_id s3.world tmp) s3)
                      (device_set-Ends env (Inserted s0) (env.device.set_device_id s3.world tmp) s3
                        (λ w. Inserted-world s3 w h3))
                      (λ u s' h. h) (λ e s' h. inr h)

  -- Adding a segment ends with one segment more, or with an exception: the pool is as it was, or the
  -- device cannot be reset when the segment has been inserted.
  pub add_segment-Inserted :
      (s : State W R S)
      → capacity s.pool.free_stack ≡ none
      → CanGrow env s.pool
      → Ends (λ u s'. Inserted s s') (Undone s) (add_segment env s)
  unfolding add_segment
  add_segment-Inserted s v c =
      and_then-Ends (λ a s'. Holds s.pool.block_size a × Same s s') (λ u s'. Inserted s s')
        (Undone s) (allocate_pages env s) _
        (Ends-mono _ _ _ _ (allocate_pages env s) (allocate_pages-Ends env s c) (λ a s' h. h)
          (λ e s' h. inl h))
        λ a s' h.
          if-Ends _ _ s.pool.allocate_on_device (add_device_segment env a) (add_host_segment env a)
            s' (add_device_segment-Inserted s a v c h.0 s' h.1)
            (Ends-mono _ _ _ _ (add_host_segment env a s')
              (add_host_segment-Inserted s a v c h.0 s' h.1) (λ u t k. k) (λ e t k. inl k))

  -- What a pool has gained: its blocks are accounted for, and there is one to pop.
  pub record Grown (live : List (Block H)) (s s' : State W R S) : Type 0 where
    pub sound : IsSound env laws s'.next_object s'.pool live
    pub more : 1 ≤ length (contents s'.pool.free_stack)
    pub mutex : s'.pool.mutex ≡ s.pool.mutex

  Inserted-Grown :
      (live : List (Block H)) (s s' : State W R S)
      → IsSound env laws s.next_object s.pool live
      → Inserted s s'
      → Grown live s s'
  Inserted-Grown live s s' v m =
      let bs = blocks_down env s.next_object m.segment m.segment.num_blocks in
      record {
        sound =
            IsSound-same env laws (suc s.next_object) s'.next_object
              (record s.pool {
                free_stack = s'.pool.free_stack;
                segments = (s.next_object, m.segment) ∷ s.pool.segments;
              })
              s'.pool live (sym m.next) refl (ap (λ p. p.segments) (sym m.same))
              (record {
                grows = m.grows;
                below = (omega arith, v.below);
                valid = (m.valid, v.valid);
                balanced = λ q. omega (
                  arith,
                  v.balanced q,
                  m.counts q,
                  ap (count q) m.none_freed,
                  count-append q (contents m.segment.freed_stack)
                      (freed_all env laws s.pool.segments),
                  count-append q bs (blocks_all env laws s.pool.segments),
                );
              });
        more = omega (
          arith,
          m.counts (λ b. true),
          count-true (contents s'.pool.free_stack),
          count-true bs,
          length-blocks_down env s.next_object m.segment m.segment.num_blocks,
          m.some_blocks,
        );
        mutex = ap (λ p. p.mutex) m.same;
      }

  -- What an exception leaves: the pool as it was, or, when the device cannot be reset, the pool with
  -- a segment more.
  abbrev pub Thrown : List (Block H) → State W R S → Exception → State W R S → Type 0
  Thrown live s e s' = Same s s' ⊎ (Grown live s s' × (e ≡ gpu_call_failed))

  pub add_segment-Grown :
      (live : List (Block H)) (s : State W R S)
      → IsSound env laws s.next_object s.pool live
      → CanGrow env s.pool
      → Ends (λ u s'. Grown live s s') (Thrown live s) (add_segment env s)
  add_segment-Grown live s v c =
      Ends-mono (λ u s'. Inserted s s') (λ u s'. Grown live s s') (Undone s) (Thrown live s)
        (add_segment env s) (add_segment-Inserted s v.grows c)
        (λ u s' m. Inserted-Grown live s s' v m)
        (λ e s' h. elim h [
          | inl same ↦ inl same
          | inr (m, failed) ↦ inr (Inserted-Grown live s s' v m, failed)
        ])
