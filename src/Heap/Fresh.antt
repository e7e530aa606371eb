-- ===== src/Heap/Fresh.antt =====
-- The pools that the constructors of include/hwmalloc/detail/fixed_size_heap.hpp and
-- include/hwmalloc/heap.hpp make.
use hwmalloc.Base.{
  ℕ, zero, suc, ◌≤◌, ◌<◌, ◌≡◌, ◌≢◌, ◌⊎◌, inl, inr, refl, sym, ap, subst, ◌∙◌, Bool, false, Option,
  none, some, List, [], ◌∷◌, get_elem?, set, replicate, arith, add_size, mul_size,
}
use hwmalloc.Numa.Nodes.{size}
use hwmalloc.Platform.{Platform, IsStack}
use hwmalloc.Pool.{Pool, make_pool, make_device_pool}
use hwmalloc.Pool.Invariant.{IsSound, make_pool-IsSound}
use hwmalloc.FixedSizeHeap.{
  FixedSizeHeap, State, pool_for, device_pool_for, add_device_pools, add_pools, no_pools,
  make_fixed_size_heap,
}
use hwmalloc.Heap.Spots.{Slot, host, device, slot_at, put_slot, pool_or_none}
use hwmalloc.Heap.Spots.Laws.{Slot-discrete, slot_at-put_slot_ne}

module _ {W R H S : Type 0} (env : Platform W R H S) (laws : IsStack env.stack) where
  -- A pool without segments, whose address is in a range.
  pub record New (lo hi : ℕ) (p : Pool R S) : Type 0 where
    pub above : lo ≤ p.self
    pub below : p.self < hi
    pub empty : p.segments ≡ []
    pub unlocked : p.mutex ≡ false
    pub sound : (n : ℕ) → IsSound env laws n p []

  -- All pools of a fixed-size heap are new, and no two share an address.
  pub record Fresh (lo hi : ℕ) (f : FixedSizeHeap R S) : Type 0 where
    pub new : (t : Slot) (p : Pool R S) → slot_at f t ≡ some p → New lo hi p
    pub one :
        (t u : Slot) (p q : Pool R S)
        → slot_at f t ≡ some p
        → slot_at f u ≡ some q
        → p.self ≡ q.self
        → t ≡ u

  pub New-wider :
      (lo hi lo' hi' : ℕ) (p : Pool R S) → lo' ≤ lo → hi ≤ hi' → New lo hi p → New lo' hi' p
  New-wider lo hi lo' hi' p h k v = record {
    above = omega (arith, v.above, h);
    below = omega (arith, v.below, k);
    empty = v.empty;
    unlocked = v.unlocked;
    sound = v.sound;
  }

  pool_for-New :
      (lo n node : ℕ) (f : FixedSizeHeap R S) → lo ≤ n → New lo (suc n) (pool_for env n f node)
  unfolding pool_for make_pool
  pool_for-New lo n node f h = record {
    above = h;
    below = omega arith;
    empty = refl;
    unlocked = refl;
    sound = λ m.
        make_pool-IsSound env laws m n f.block_size f.segment_size node f.never_free
          f.num_reserve_segments;
  }

  device_pool_for-New :
      (lo n node id : ℕ) (f : FixedSizeHeap R S)
      → lo ≤ n
      → New lo (suc n) (device_pool_for env n f node id)
  unfolding device_pool_for make_device_pool make_pool pool_for
  device_pool_for-New lo n node id f h =
      let v = pool_for-New lo n node f h in
      record {
        above = h;
        below = omega arith;
        empty = refl;
        unlocked = refl;
        sound = λ m. record {
          grows = (v.sound m).grows;
          below = tt;
          valid = tt;
          balanced = (v.sound m).balanced;
        };
      }

  set-pool :
      (ps : List (Option (Pool R S))) (i : ℕ) (p q : Pool R S)
      → pool_or_none (get_elem? (set ps i (some p)) i) ≡ some q
      → p ≡ q
  set-pool [] i p q e = cc
  set-pool (x ∷ ps) zero p q e = cc
  set-pool (x ∷ ps) (suc i) p q e = set-pool ps i p q e

  slot_at-put_slot :
      (f : FixedSizeHeap R S) (t : Slot) (p q : Pool R S)
      → slot_at (put_slot f t p) t ≡ some q
      → p ≡ q
  unfolding slot_at put_slot
  slot_at-put_slot f (host i) p q e = set-pool f.pools i p q e
  slot_at-put_slot f (device i) p q e = set-pool f.device_pools i p q e

  put_slot-cases :
      (f : FixedSizeHeap R S) (t u : Slot) (p q : Pool R S)
      → slot_at (put_slot f t p) u ≡ some q
      → ((u ≡ t) × (p ≡ q)) ⊎ ((u ≢ t) × (slot_at f u ≡ some q))
  put_slot-cases f t u p q e = elim (Slot-discrete u t) [
    | yes same ↦
        inl
          (same, slot_at-put_slot f t p q (subst (λ x. slot_at (put_slot f t p) x ≡ some q) same e))
    | no other ↦ inr (other, sym (slot_at-put_slot_ne f t u p other) ∙ e)
  ]

  -- One more pool, at the address of the next object.
  put_slot-Fresh :
      (lo n : ℕ) (f : FixedSizeHeap R S) (t : Slot) (p : Pool R S)
      → Fresh lo n f
      → New lo (suc n) p
      → p.self ≡ n
      → Fresh lo (suc n) (put_slot f t p)
  put_slot-Fresh lo n f t p v new self = record {
    new = λ u q e. elim (put_slot-cases f t u p q e) [
      | inl (same, here) ↦ subst (New lo (suc n)) here new
      | inr (other, old) ↦ New-wider lo n lo (suc n) q (omega arith) (omega arith) (v.new u q old)
    ];
    one = λ u w q r eq er same. elim (put_slot-cases f t u p q eq) [
      | inl (ut, pq) ↦ elim (put_slot-cases f t w p r er) [
        | inl (wt, pr) ↦ ut ∙ sym wt
        | inr (wne, oldr) ↦
            absurd (omega (arith, self, same, ap (λ x. x.self) pq, (v.new w r oldr).below))
      ]
      | inr (une, oldq) ↦ elim (put_slot-cases f t w p r er) [
        | inl (wt, pr) ↦
            absurd (omega (arith, self, same, ap (λ x. x.self) pr, (v.new u q oldq).below))
        | inr (wne, oldr) ↦ v.one u w q r oldq oldr same
      ]
    ];
  }

  -- What the loops of the constructor keep.
  abbrev Making : ℕ → State W R S → Type 0
  Making lo s = (lo ≤ s.next_object) × Fresh lo s.next_object s.heap

  add_device_pools-Making :
      (lo n i j rest : ℕ) (s : State W R S)
      → Making lo s
      → Making lo (add_device_pools env n i j rest s)
  unfolding add_device_pools device_pool_for make_device_pool make_pool put_slot
  add_device_pools-Making lo n i j zero s m = m
  add_device_pools-Making lo n i j (suc rest) s m = add_device_pools-Making lo n i (suc j) rest _ (
    omega (arith, m.0),
    put_slot-Fresh lo s.next_object s.heap (device (add_size (mul_size i s.heap.num_devices) j))
        (device_pool_for env s.next_object s.heap n j) m.1
        (device_pool_for-New lo s.next_object n j s.heap m.0) refl,
  )

  add_pools-Making :
      (lo : ℕ) (es : List (ℕ × ℕ)) (s : State W R S) → Making lo s → Making lo (add_pools env es s)
  unfolding add_pools pool_for make_pool put_slot
  add_pools-Making lo [] s m = m
  add_pools-Making lo ((n, i) ∷ es) s m = add_pools-Making lo es _ (
      add_device_pools-Making lo n i 0 s.heap.num_devices _ (
        omega (arith, m.0),
        put_slot-Fresh lo s.next_object s.heap (host i) (pool_for env s.next_object s.heap n) m.1
            (pool_for-New lo s.next_object n s.heap m.0) refl,
      ))

  no_pool : (n i : ℕ) (p : Pool R S) → pool_or_none (get_elem? (replicate n none) i) ≡ some p → ⊥
  no_pool zero i p e = cc
  no_pool (suc n) zero p e = cc
  no_pool (suc n) (suc i) p e = no_pool n i p e

  pub make_fixed_size_heap-Making :
      (w : W) (next block segment : ℕ) (never_free : Bool) (reserve : ℕ)
      → Making next (make_fixed_size_heap env w next block segment never_free reserve)
  unfolding make_fixed_size_heap no_pools slot_at
  make_fixed_size_heap-Making w next block segment never_free reserve =
      add_pools-Making next env.numa.local_nodes.nodes _ (
        omega arith,
        record { new = λ t p e. absurd (nothing t p e); one = λ t u p q e. absurd (nothing t p e) },
      )
    where
      nothing :
          (t : Slot) (p : Pool R S)
          → slot_at (no_pools env block segment never_free reserve) t ≡ some p
          → ⊥
      nothing (host i) p e = no_pool (size env.numa.local_nodes) i p e
      nothing (device i) p e =
          no_pool (mul_size (size env.numa.local_nodes) env.device.get_num_devices) i p e
