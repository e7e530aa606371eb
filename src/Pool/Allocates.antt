-- ===== src/Pool/Allocates.antt =====
-- `allocate` of include/hwmalloc/detail/pool.hpp against the invariant of the pool.
use hwmalloc.Base.{
  ◌≢◌, ℕ, zero, suc, ◌≤◌, ◌≡◌, ◌⊎◌, inl, inr, refl, sym, ap, subst, ◌∙◌, true, false, Option, none,
  some, List, [], ◌∷◌, arith, length, count,
}
use hwmalloc.Platform.{Block, Platform, IsStack}
use hwmalloc.Outcome.{
  gpu_call_failed, Exception, returns, throws, hangs, Call, Ends, and_then-Ends, Ends-mono,
}
use hwmalloc.Pool.{State, set_pool, lock, unlock}
use hwmalloc.Pool.Grow.{add_segment}
use hwmalloc.Pool.Allocate.{
  pop, collect, choose, pop_or, refill, unlock_and_return, allocate_locked, allocate,
}
use hwmalloc.Pool.Invariant.{IsSound, IsSound-same, Inv}
use hwmalloc.Pool.Gathers.{Gathered, collect-Gathered}
use hwmalloc.Pool.Pages.{CanGrow, CanGrow-same}
use hwmalloc.Pool.Grows.{Thrown, Grown, add_segment-Grown}

lock-unlocked :
    {W R S : Type 0} (s : State W R S)
    → s.pool.mutex ≡ false
    → lock s ≡ returns tt (set_pool (record s.pool { mutex = true }) s)
unfolding lock
lock-unlocked s e = ground arith

lock-locked : {W R S : Type 0} (s : State W R S) → s.pool.mutex ≡ true → lock s ≡ hangs
unfolding lock
lock-locked s e = ground arith

module _ {W R H S : Type 0} (env : Platform W R H S) (laws : IsStack env.stack) where
  open laws use {contents, capacity}

  -- What `m_free_stack.pop(b)` leaves: nothing was there, or one block more is held.
  abbrev Popped : List (Block H) → State W R S → Option (Block H) → State W R S → Type 0
  Popped live s none s' = (s' ≡ s) × (contents s.pool.free_stack ≡ [])
  Popped live s (some b) s' =
      IsSound env laws s'.next_object s'.pool (b ∷ live)
      × (s'.pool ≡ record s.pool { free_stack = s'.pool.free_stack })

  List-cases :
      (xs : List (Block H)) → (xs ≡ []) ⊎ ((x : Block H) × (ys : List (Block H)) × (xs ≡ x ∷ ys))
  List-cases [] = inl refl
  List-cases (x ∷ xs) = inr (x, xs, refl)

  pop-Ends :
      (live : List (Block H)) (s : State W R S)
      → IsSound env laws s.next_object s.pool live
      → Ends (Popped live s) (λ e s'. ⊥) (pop env s)
  unfolding pop set_pool
  pop-Ends live s v = elim (List-cases (contents s.pool.free_stack)) [
    | inl empty ↦ rw (laws.pop-empty s.pool.free_stack empty, pop) (refl, empty)
    | inr (b, bs, e) ↦
        let (t, r, c, cap) = laws.pop-cons s.pool.free_stack b bs e in
        rw (r, pop)
          (
            record {
              grows = cap ∙ v.grows;
              below = v.below;
              valid = v.valid;
              balanced = λ q. omega (arith, v.balanced q, ap (count q) c, ap (count q) e);
            },
            refl,
          )
  ]

  -- Both branches of a `pop`.
  pop_or-Ends :
      (P : Block H → State W R S → Type 0) (Q : Exception → State W R S → Type 0)
      (live : List (Block H)) (s : State W R S) (found : Block H → Call (State W R S) (Block H))
      (otherwise : Call (State W R S) (Block H))
      → IsSound env laws s.next_object s.pool live
      → ((b : Block H) (s' : State W R S) → Popped live s (some b) s' → Ends P Q (found b s'))
      → (contents s.pool.free_stack ≡ [] → Ends P Q (otherwise s))
      → Ends P Q (pop_or env found otherwise s)
  unfolding pop_or
  pop_or-Ends P Q live s found otherwise v hit miss =
      and_then-Ends (Popped live s) P Q (pop env s) (λ r. choose env r found otherwise)
        (Ends-mono _ _ _ _ (pop env s) (pop-Ends live s v) (λ r s' h. h) (λ e s' h. absurd h))
        branch
    where
      branch :
          (r : Option (Block H)) (s' : State W R S)
          → Popped live s r s'
          → Ends P Q (choose env r found otherwise s')
      branch none s' h = subst (λ t. Ends P Q (otherwise t)) (sym h.0) (miss h.1)
      branch (some b) s' h = hit b s' h

  -- The block that is returned, or the exception, the mutex being as before.
  abbrev Got : List (Block H) → State W R S → Block H → State W R S → Type 0
  Got live s b s' =
      IsSound env laws s'.next_object s'.pool (b ∷ live) × (s'.pool.mutex ≡ s.pool.mutex)

  -- An exception leaves no free block, unless the device could not be reset.
  abbrev Lost : List (Block H) → State W R S → Exception → State W R S → Type 0
  Lost live s e s' =
      IsSound env laws s'.next_object s'.pool live
      × (s'.pool.mutex ≡ s.pool.mutex)
      × ((contents s'.pool.free_stack ≡ []) ⊎ (e ≡ gpu_call_failed))

  Thrown-Lost :
      (live : List (Block H)) (s : State W R S) (e : Exception) (s' : State W R S)
      → IsSound env laws s.next_object s.pool live
      → contents s.pool.free_stack ≡ []
      → Thrown env laws live s e s'
      → Lost live s e s'
  Thrown-Lost live s e s' v empty (inl same) = (
    IsSound-same env laws s.next_object s'.next_object s.pool s'.pool live (sym same.1)
        (ap (λ p. p.free_stack) (sym same.0)) (ap (λ p. p.segments) (sym same.0)) v,
    ap (λ p. p.mutex) same.0,
    inl (ap (λ p. contents p.free_stack) same.0 ∙ empty),
  )
  Thrown-Lost live s e s' v empty (inr (g, failed)) = (g.sound, g.mutex, inr failed)

  Popped-Got :
      (live : List (Block H)) (s0 s s' : State W R S) (b : Block H)
      → s.pool.mutex ≡ s0.pool.mutex
      → Popped live s (some b) s'
      → Got live s0 b s'
  Popped-Got live s0 s s' b m h = (h.0, ap (λ p. p.mutex) h.1 ∙ m)

  -- With a block on the free stack the loop ends at once.
  refill-more :
      (f c : ℕ) (live : List (Block H)) (s0 s : State W R S)
      → Grown env laws live s0 s
      → Ends (Got live s0) (Lost live s0) (refill env (suc f) c s)
  unfolding refill
  refill-more f c live s0 s g =
      pop_or-Ends (Got live s0) (Lost live s0) live s _ _ g.sound
        (λ b s' h. Popped-Got live s0 s s' b g.mutex h)
        (λ empty. absurd (omega (arith, g.more, ap length empty)))

  -- Two rounds are enough: the first one adds a segment, the second one finds a block.
  refill-Ends :
      (f : ℕ) (live : List (Block H)) (s : State W R S)
      → IsSound env laws s.next_object s.pool live
      → CanGrow env s.pool
      → Ends (Got live s) (Lost live s) (refill env (suc (suc f)) 0 s)
  unfolding refill
  refill-Ends f live s v c =
      pop_or-Ends (Got live s) (Lost live s) live s _ _ v
        (λ b s' h. Popped-Got live s s s' b refl h)
        (λ empty.
          and_then-Ends (λ u s'. Grown env laws live s s') (Got live s) (Lost live s)
            (add_segment env s) _
            (Ends-mono _ _ _ _ (add_segment env s) (add_segment-Grown env laws live s v c)
              (λ u s' g. g) (λ e s' t. Thrown-Lost live s e s' v empty t))
            (λ u s' g. refill-more f 1 live s s' g))

  -- What `allocate` ends in: a block more that is held, the mutex being free; or an exception, with
  -- no block lost and the mutex locked, and no free block unless a call of the device runtime failed.
  abbrev pub Allocated : List (Block H) → Block H → State W R S → Type 0
  Allocated live b s' = Inv env laws s' (b ∷ live)

  abbrev pub Failed : List (Block H) → Exception → State W R S → Type 0
  Failed live e s' =
      IsSound env laws s'.next_object s'.pool live
      × (s'.pool.mutex ≡ true)
      × ((contents s'.pool.free_stack ≡ []) ⊎ (e ≡ gpu_call_failed))

  unlock_and_return-Ends :
      (live : List (Block H)) (b : Block H) (s : State W R S)
      → IsSound env laws s.next_object s.pool (b ∷ live)
      → Ends (Allocated live) (Failed live) (unlock_and_return env b s)
  unfolding unlock_and_return unlock set_pool
  unlock_and_return-Ends live b s v = record {
    unlocked = refl;
    sound = IsSound-same env laws s.next_object s.next_object s.pool _ (b ∷ live) refl refl refl v;
  }

  allocate_locked-Ends :
      (f : ℕ) (live : List (Block H)) (s : State W R S)
      → IsSound env laws s.next_object s.pool live
      → s.pool.mutex ≡ true
      → CanGrow env s.pool
      → Ends (Allocated live) (Failed live) (allocate_locked env (suc (suc f)) s)
  unfolding allocate_locked
  allocate_locked-Ends f live s v m c =
      pop_or-Ends (Allocated live) (Failed live) live s _ _ v
        (λ b s' h. unlock_and_return-Ends live b s' h.0)
        (λ empty.
          and_then-Ends (λ u s'. Gathered env laws live s s') (Allocated live) (Failed live)
            (collect env s) _
            (Ends-mono _ _ _ _ (collect env s) (collect-Gathered env laws live s v) (λ u s' g. g)
              (λ e s' h. absurd h))
            λ u s' g.
              pop_or-Ends (Allocated live) (Failed live) live s' _ _ g.sound
                (λ b s2 h. unlock_and_return-Ends live b s2 h.0)
                (λ none_left.
                  and_then-Ends (Got live s') (Allocated live) (Failed live)
                    (refill env (suc (suc f)) 0 s') _
                    (Ends-mono _ _ _ _ (refill env (suc (suc f)) 0 s')
                      (refill-Ends f live s' g.sound (
                        CanGrow-same env s.pool s'.pool (ap (λ p. p.block_size) (sym g.same))
                          (ap (λ p. p.segment_size) (sym g.same)) c))
                      (λ b s2 h. h) (λ e s2 h. (h.0, h.1 ∙ ap (λ p. p.mutex) g.same ∙ m, h.2)))
                    (λ b s2 h. unlock_and_return-Ends live b s2 h.0)))

  -- Between calls, and with what a pool needs to grow, `allocate` ends: it returns a block and the
  -- invariant holds of that block and of those that were held, or it throws, and no block is lost.
  pub allocate-Ends :
      (fuel : ℕ) (live : List (Block H)) (s : State W R S)
      → 2 ≤ fuel
      → Inv env laws s live
      → CanGrow env s.pool
      → Ends (Allocated live) (Failed live) (allocate env fuel s)
  unfolding allocate set_pool
  allocate-Ends zero live s two v c = absurd (omega arith)
  allocate-Ends (suc zero) live s two v c = absurd (omega arith)
  allocate-Ends (suc (suc f)) live s two v c =
      let locked = set_pool (record s.pool { mutex = true }) s in
      pop_or-Ends (Allocated live) (Failed live) live s _ _ v.sound
        (λ b s' h. record { unlocked = ap (λ p. p.mutex) h.1 ∙ v.unlocked; sound = h.0 })
        (λ empty. rw (lock-unlocked s v.unlocked) (
          allocate_locked-Ends f live locked
            (IsSound-same env laws s.next_object s.next_object s.pool locked.pool live refl refl
              refl v.sound)
            refl (CanGrow-same env s.pool locked.pool refl refl c)))

  -- A call that finds the mutex locked and nothing on the free stack never ends.
  pub allocate_stuck :
      (fuel : ℕ) (s : State W R S)
      → s.pool.mutex ≡ true
      → contents s.pool.free_stack ≡ []
      → allocate env fuel s ≡ hangs
  unfolding allocate pop_or pop
  allocate_stuck fuel s m empty =
      rw (laws.pop-empty s.pool.free_stack empty, pop) (rw (lock-locked s m) refl)

  -- An exception leaves the mutex locked for ever: after an `allocate` that throws, every further
  -- `allocate` of the pool hangs; unless it was a call of a GPU runtime that failed, which may be the
  -- one that resets the device when the new blocks are on the free stack already.
  pub allocate_throws_hangs :
      (fuel again : ℕ) (live : List (Block H)) (s s' : State W R S) (e : Exception)
      → 2 ≤ fuel
      → Inv env laws s live
      → CanGrow env s.pool
      → allocate env fuel s ≡ throws e s'
      → e ≢ gpu_call_failed
      → allocate env again s' ≡ hangs
  allocate_throws_hangs fuel again live s s' e two v c thrown other =
      let f =
        subst (Ends (Allocated live) (Failed live)) thrown (allocate-Ends fuel live s two v c) in
      elim f.2 [
        | inl empty ↦ allocate_stuck again s' f.1 empty
        | inr failed ↦ absurd (other failed)
      ]
