-- ===== src/Heap/Grants.antt =====
-- `allocate` of a pool of a heap (include/hwmalloc/heap.hpp), and the way to it through a fixed-size
-- heap.
use hwmalloc.Base.{
  ℕ, ◌≤◌, ◌≡◌, refl, sym, ap, ◌∙◌, Bool, true, false, Option, none, some, List, ◌∷◌, get_elem?,
  arith, add_size, mul_size,
}
use hwmalloc.Config.{HeapConfig}
use hwmalloc.Platform.{Block, Platform, IsStack}
use hwmalloc.Outcome.{Exception, Outcome, Call, returns, throws, hangs, Ends}
use hwmalloc.Pool.{Pool}
use hwmalloc.Pool
use hwmalloc.Pool.Allocate
use hwmalloc.Pool.Invariant.{Inv}
use hwmalloc.Pool.Pages.{CanGrow}
use hwmalloc.Pool.Allocates.{Allocated, Failed, allocate-Ends}
use hwmalloc.Pool.Frame.{After, Frame}
use hwmalloc.Pool.Frame.Calls.{allocate-Keeps}
use hwmalloc.FixedSizeHeap.{
  FixedSizeHeap, make_fixed_size_heap, numa_node_index, put_back, allocate_at,
}
use hwmalloc.FixedSizeHeap
use hwmalloc.Heap.{State, Place, get_at, back_to, call_at}
use hwmalloc.Heap.Spots.{Slot, host, device, Spot, pool_or_none, slot_at, put_slot, pool_at}
use hwmalloc.Heap.Spots.Laws.{put_pool_lem, pool_at-put_pool_self}
use hwmalloc.Heap.Release.{inside, after, back_at}
use hwmalloc.Heap.Whole.{Whole, replaced, step-Whole_same, step-Whole_locks}
use hwmalloc.Heap.Built.{slot_for, Built, step-Built}

-- What holds when a call ends, and what holds of its state in any case.
Ends-After :
    {S A : Type 0} (P : A → S → Type 0) (Q : Exception → S → Type 0) (F : S → Type 0)
    (o : Outcome S A)
    → Ends P Q o
    → After F o
    → Ends (λ a s. P a s × F s) (λ e s. Q e s × F s) o
Ends-After P Q F (returns a s) h f = (h, f)
Ends-After P Q F (throws e s) h f = (h, f)
Ends-After P Q F hangs h f = h
Ends-After P Q F Outcome.undefined h f = h

some_pool :
    {R S : Type 0} (o : Option (Option (Pool R S))) (p : Pool R S)
    → pool_or_none o ≡ some p
    → o ≡ some (some p)
some_pool none p e = cc
some_pool (some none) p e = cc
some_pool (some (some q)) p e = ap some e

module _ {W R H S : Type 0} (env : Platform W R H S) where
  -- The two overloads of `allocate` of a fixed-size heap.
  abbrev pub allocate_in : ℕ → ℕ → Option ℕ → Call (FixedSizeHeap.State W R S) (Block H)
  allocate_in fuel node none = FixedSizeHeap.allocate env fuel node
  allocate_in fuel node (some device_id) = FixedSizeHeap.allocate_on_device env fuel node device_id

module _ {W R H S : Type 0} (env : Platform W R H S) (laws : IsStack env.stack) where
  back_at-Ends :
      {A : Type 0} (P : A → Pool.State W R S → Type 0) (Q : Exception → Pool.State W R S → Type 0)
      (P' : A → State W R S → Type 0) (Q' : Exception → State W R S → Type 0) (s : State W R S)
      (t : Spot) (o : Outcome (Pool.State W R S) A)
      → Ends P Q o
      → ((a : A) (s' : Pool.State W R S) → P a s' → P' a (after env s t s'))
      → ((e : Exception) (s' : Pool.State W R S) → Q e s' → Q' e (after env s t s'))
      → Ends P' Q' (back_at env s t o)
  back_at-Ends P Q P' Q' s t (returns a s') h k l = k a s' h
  back_at-Ends P Q P' Q' s t (throws e s') h k l = l e s' h
  back_at-Ends P Q P' Q' s t hangs h k l = h
  back_at-Ends P Q P' Q' s t Outcome.undefined h k l = h

  -- A call that goes through a fixed-size heap is a call on the pool.
  back_to-back_at :
      {A : Type 0} (s : State W R S) (a : Place) (f : FixedSizeHeap R S) (u : Slot)
      (o : Outcome (Pool.State W R S) A)
      → get_at s.heap a ≡ some f
      → back_to env s a (put_back env (put_slot f u) o) ≡ back_at env s (a, u) o
  back_to-back_at s a f u (returns x t) e =
      ap (λ h. returns x (record s { world = t.world; next_object = t.next_object; heap = h }))
        (sym (put_pool_lem s.heap (a, u) f t.pool e))
  back_to-back_at s a f u (throws x t) e =
      ap (λ h. throws x (record s { world = t.world; next_object = t.next_object; heap = h }))
        (sym (put_pool_lem s.heap (a, u) f t.pool e))
  back_to-back_at s a f u hangs e = refl
  back_to-back_at s a f u Outcome.undefined e = refl

  pub call_at_lem :
      (fuel node : ℕ) (on : Option ℕ) (s : State W R S) (a : Place) (f : FixedSizeHeap R S) (i : ℕ)
      (p : Pool R S)
      → get_at s.heap a ≡ some f
      → f.num_devices ≡ env.device.get_num_devices
      → numa_node_index env s.world node ≡ some i
      → slot_at f (slot_for env on i) ≡ some p
      → call_at env (allocate_in env fuel node on) a (get_at s.heap a) s
        ≡ back_at env s (a, slot_for env on i) (Allocate.allocate env fuel (inside env s p))
  unfolding FixedSizeHeap.allocate FixedSizeHeap.allocate_on_device slot_at put_slot
  call_at_lem fuel node none s a f i p there devices index slot =
      rw (there, call_at)
        (rw (index, FixedSizeHeap.allocate)
          (rw (some_pool (get_elem? f.pools i) p slot, allocate_at)
            (back_to-back_at s a f (host i) (Allocate.allocate env fuel (inside env s p)) there)))
  call_at_lem fuel node (some device_id) s a f i p there devices index slot =
      let key = λ (x : ℕ). add_size (mul_size i x) device_id in
      rw (there, call_at)
        (rw (index, FixedSizeHeap.allocate_on_device)
          (rw
            (
              some_pool (get_elem? f.device_pools (key f.num_devices)) p
                  (ap (λ x. slot_at f (device (key x))) devices ∙ slot),
              allocate_at,
            )
            (back_to-back_at s a f (device (key f.num_devices))
                (Allocate.allocate env fuel (inside env s p)) there
              ∙ ap
                  (λ x.
                    back_at env s (a, device (key x)) (Allocate.allocate env fuel (inside env s p)))
                  devices)))

  module _ (c : HeapConfig) (m : ℕ) where
    -- A block of at least n bytes, from the pool at a spot.
    pub record Granted (n : ℕ) (locked : Spot → Bool) (live : Spot → List (Block H)) (t : Spot)
        (b : Block H) (s : State W R S) : Type 0 where
      pub whole : Whole env laws locked s (replaced live t (b ∷ live t))
      pub built : Built env c m s
      pub pool : Pool R S
      pub there : pool_at s.heap t ≡ some pool
      pub enough : n ≤ pool.block_size

    -- Nothing lost, and the mutex of the pool at the spot locked for good.
    pub record Refused (locked : Spot → Bool) (live : Spot → List (Block H)) (t : Spot)
        (s : State W R S) : Type 0 where
      pub whole : Whole env laws (replaced locked t true) s live
      pub built : Built env c m s

    pub on_pool :
        (fuel n : ℕ) (locked : Spot → Bool) (s : State W R S) (live : Spot → List (Block H))
        (t : Spot) (p : Pool R S)
        → Whole env laws locked s live
        → Built env c m s
        → pool_at s.heap t ≡ some p
        → locked t ≡ false
        → 2 ≤ fuel
        → CanGrow env p
        → n ≤ p.block_size
        → Ends
            (Granted n locked live t)
            (λ e s'. Refused locked live t s')
            (back_at env s t (Allocate.allocate env fuel (inside env s p)))
    on_pool fuel n locked s live t p v built there open_now two grow enough =
        let mem = v.members t p there in
        let inv : Inv env laws (inside env s p) (live t) = record {
          unlocked = mem.mutex ∙ open_now;
          sound = mem.sound;
        } in
        let keeps = allocate-Keeps env fuel (inside env s p) in
        back_at-Ends _ _ _ _ s t (Allocate.allocate env fuel (inside env s p))
          (Ends-After (Allocated env laws (live t)) (Failed env laws (live t))
            (Frame (inside env s p)) _
            (allocate-Ends env laws fuel (live t) (inside env s p) two inv grow) keeps)
          (λ b s' h. record {
            whole =
                step-Whole_same env laws locked s live v t p there s' h.1 (b ∷ live t)
                  (h.0.unlocked ∙ sym open_now) h.0.sound;
            built = step-Built env s t p there s' h.1 c m built;
            pool = s'.pool;
            there = pool_at-put_pool_self s.heap t p s'.pool there;
            enough = omega (arith, enough, h.1.block_size);
          })
          (λ e s' h. record {
            whole = step-Whole_locks env laws locked s live v t p there s' h.1 h.0.1 h.0.0;
            built = step-Built env s t p there s' h.1 c m built;
          })
