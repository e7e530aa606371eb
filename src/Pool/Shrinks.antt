-- ===== src/Pool/Shrinks.antt =====
-- The part of `free` of include/hwmalloc/detail/pool.hpp that gives an empty segment back.
use hwmalloc.Base.{
  ◌≡◌, ◌≡◌, ◌≡◌, ◌≡◌, ◌≡◌, ◌≡◌, ◌≡◌, ◌≡◌, ◌∙◌, ◌⊎◌, ℕ, ◌+◌, ◌<◌, ◌≡◌, inl, inr, refl, sym, ap, true,
  false, some, List, arith, length, count, count-and-le, ltb, ==→eq, Bool-cases, ltb→lt,
}
use hwmalloc.Platform.{Block, Platform, IsStack}
use hwmalloc.Outcome.{
  Exception, Outcome, Ends, Ends-mono, and_then-Ends, if-Ends, throws, hangs, Leaves, Ends, returns,
}
use hwmalloc.Segment.{Segment, is_empty, blocks_down}
use hwmalloc.Segment.Blocks.{owned_by}
use hwmalloc.Pool.{Pool, State, find, erase, lock, unlock, set_pool, set_world}
use hwmalloc.Pool.Pages.{Same, current_device-Ends, device_set-Ends}
use hwmalloc.Pool.Grow.{current_device, device_set}
use hwmalloc.Pool.Free.{erase_on_device, unguard, remove_segment, erase_segment, shrink}
use hwmalloc.Pool.Map.{erase-Below}
use hwmalloc.Pool.Full.{full-SameBlocks}
use hwmalloc.Pool.Totals.{find-IsValid, erase-AllValid, freed-erase, blocks-erase}
use hwmalloc.Pool.Invariant.{SameBlocks, IsSound, IsSound-same, Inv}

-- How a call of `free` leaves the map: as it was, or without the segment, and only if there were
-- more segments than are held in reserve.
pub data Kept {R S : Type 0} (reserve a : ℕ) (before after : List (ℕ × Segment R S)) : Type 0 where
  kept : after ≡ before → Kept reserve a before after
  erased : reserve < length before → after ≡ erase a before → Kept reserve a before after

-- What the erasing of a segment does to the state, but for the system calls of the destructor.
abbrev pub Erased : {W R S : Type 0} → ℕ → State W R S → State W R S → Type 0
Erased a s s' =
    (s'.pool ≡ record s.pool { segments = erase a s.pool.segments })
    × (s'.next_object ≡ s.next_object)

module _ {W R H S : Type 0} (env : Platform W R H S) where
  remove_segment-Erased :
      (a : ℕ) (g : Segment R S) (s0 s : State W R S)
      → Same s0 s
      → Ends
          (λ u s'. Erased a s0 s')
          (λ e s'. Same s0 s' ⊎ Erased a s0 s')
          (remove_segment env a g s)
  unfolding remove_segment set_pool set_world
  remove_segment-Erased a g s0 s h =
      ((λ i. record (h.0 i) { segments = erase a (h.0 i).segments }), h.1)

  erase_on_device-Erased :
      (a : ℕ) (g : Segment R S) (s : State W R S)
      → Ends (λ u s'. Erased a s s') (λ e s'. Same s s' ⊎ Erased a s s') (erase_on_device env a g s)
  unfolding erase_on_device set_world
  erase_on_device-Erased a g s =
      let id = s.pool.device_id in
      let gone = λ (u : Unit {0}) (s' : State W R S). Erased a s s' in
      let thrown = λ (e : Exception) (s' : State W R S). Same s s' ⊎ Erased a s s' in
      and_then-Ends (λ tmp s'. Same s s') gone thrown
        (current_device env (env.device.get_device_id s.world) s) _
        (Ends-mono _ _ _ _ (current_device env (env.device.get_device_id s.world) s)
          (current_device-Ends env (Same s) (env.device.get_device_id s.world) s
            (λ w. (refl, refl)))
          (λ tmp s' h. h) (λ e s' h. inl h))
        λ tmp s1 h1.
          and_then-Ends (λ u s'. Same s s') gone thrown
            (device_set env (env.device.set_device_id s1.world id) s1) _
            (Ends-mono _ _ _ _ (device_set env (env.device.set_device_id s1.world id) s1)
              (device_set-Ends env (Same s) (env.device.set_device_id s1.world id) s1 (λ w. h1))
              (λ u s' h. h) (λ e s' h. inl h.0))
            λ u s2 h2.
              and_then-Ends gone gone thrown (remove_segment env a g s2) _
                (remove_segment-Erased a g s s2 h2)
                λ u s3 h3.
                  Ends-mono _ _ _ _ (device_set env (env.device.set_device_id s3.world tmp) s3)
                    (device_set-Ends env (Erased a s) (env.device.set_device_id s3.world tmp) s3
                      (λ w. h3))
                    (λ u s' h. h) (λ e s' h. inr h.0)

  -- It ends: the segment is gone, or a call of the device runtime has thrown before or after that.
  pub erase_segment-Erased :
      (a : ℕ) (g : Segment R S) (s : State W R S)
      → Ends (λ u s'. Erased a s s') (λ e s'. Same s s' ⊎ Erased a s s') (erase_segment env a g s)
  unfolding erase_segment
  erase_segment-Erased a g s =
      if-Ends _ _ s.pool.allocate_on_device (erase_on_device env a g) (remove_segment env a g) s
        (erase_on_device-Erased a g s) (remove_segment-Erased a g s s (refl, refl))

module _ {W R H S : Type 0} (env : Platform W R H S) (laws : IsStack env.stack) where
  open laws use {contents, capacity}

  -- A segment that is full of freed blocks holds all its blocks, each once.
  full_segment :
      (next a : ℕ) (p : Pool R S) (live : List (Block H)) (g : Segment R S)
      → IsSound env laws next p live
      → find a p.segments ≡ some g
      → is_empty g ≡ true
      → SameBlocks (contents g.freed_stack) (blocks_down env a g g.num_blocks)
  unfolding is_empty
  full_segment next a p live g s e full =
      let v = find-IsValid env laws a g p.segments e s.valid in
      let own = λ (c : Block H). owned_by a c in
      full-SameBlocks env laws next a p.segments g
        (λ q. count q (contents p.free_stack) + count q live) s.below e (omega (arith, v.own))
        (omega (arith, v.counted, ==→eq g.num_freed g.num_blocks full))
        (λ q. omega (arith, count-and-le q own (contents p.free_stack), count-and-le q own live))
        (λ q. omega (arith, s.balanced q))

  -- So it can be erased, and no block that is left points to it.
  erase-IsSound :
      (next a : ℕ) (p : Pool R S) (live : List (Block H)) (g : Segment R S)
      → IsSound env laws next p live
      → find a p.segments ≡ some g
      → is_empty g ≡ true
      → IsSound env laws next (record p { segments = erase a p.segments }) live
  erase-IsSound next a p live g s e full = record {
    grows = s.grows;
    below = erase-Below next a p.segments s.below;
    valid = erase-AllValid env laws a p.segments s.valid;
    balanced = λ q. omega (
      arith,
      s.balanced q,
      full_segment next a p live g s e full q,
      freed-erase env laws q a g p.segments e,
      blocks-erase env laws q a g p.segments e,
    );
  }

  -- The scope of the `lock_guard` ends.
  module _ (a : ℕ) (g : Segment R S) (s locked : State W R S) (live : List (Block H))
      (v : Inv env laws s live) (e : find a s.pool.segments ≡ some g) (full : is_empty g ≡ true)
      (same : locked ≡ set_pool (record s.pool { mutex = true }) s) where
    abbrev Left : State W R S → Type 0
    Left s' =
        Inv env laws s' live × Kept s.pool.num_reserve_segments a s.pool.segments s'.pool.segments

    abbrev opened : State W R S → State W R S
    opened s' = set_pool (record s'.pool { mutex = false }) s'

    kept-Left : (s' : State W R S) → Same locked s' → Left (opened s')
    unfolding set_pool
    kept-Left s' h =
        let p : s'.pool ≡ record s.pool { mutex = true } = h.0 ∙ ap (λ t. t.pool) same in
        let n : s'.next_object ≡ s.next_object = h.1 ∙ ap (λ t. t.next_object) same in
        (
          record {
            unlocked = refl;
            sound =
                IsSound-same env laws s.next_object _ s.pool _ live (sym n)
                  (ap (λ p. p.free_stack) (sym p)) (ap (λ p. p.segments) (sym p)) v.sound;
          },
          kept (ap (λ p. p.segments) p),
        )

    Erased-Left :
        (s' : State W R S)
        → s.pool.num_reserve_segments < length s.pool.segments
        → Erased a locked s'
        → Left (opened s')
    unfolding set_pool
    Erased-Left s' more h =
        let p : s'.pool ≡ record s.pool { segments = erase a s.pool.segments; mutex = true } =
          h.0 ∙ (λ i. record (same i).pool { segments = erase a (same i).pool.segments }) in
        let n : s'.next_object ≡ s.next_object = h.1 ∙ ap (λ t. t.next_object) same in
        (
          record {
            unlocked = refl;
            sound =
                IsSound-same env laws s.next_object _
                  (record s.pool { segments = erase a s.pool.segments }) _ live (sym n)
                  (ap (λ p. p.free_stack) (sym p)) (ap (λ p. p.segments) (sym p))
                  (erase-IsSound s.next_object a s.pool live g v.sound e full);
          },
          erased more (ap (λ p. p.segments) p),
        )

    unguard-Left :
        (o : Outcome (State W R S) (Unit {0}))
        → s.pool.num_reserve_segments < length s.pool.segments
        → Ends (λ u s'. Erased a locked s') (λ x s'. Same locked s' ⊎ Erased a locked s') o
        → (s' : State W R S) × Leaves s' (unguard env o) × Left s'
    unfolding unguard unlock
    unguard-Left (returns u s') more h = (opened s', inl refl, Erased-Left s' more h)
    unguard-Left (throws x s') more (inl h) = (opened s', inr (x, refl), kept-Left s' h)
    unguard-Left (throws x s') more (inr h) = (opened s', inr (x, refl), Erased-Left s' more h)
    unguard-Left hangs more h = absurd h
    unguard-Left Outcome.undefined more h = absurd h

  pub shrink-Inv :
      (a : ℕ) (g : Segment R S) (s : State W R S) (live : List (Block H))
      → Inv env laws s live
      → find a s.pool.segments ≡ some g
      → is_empty g ≡ true
      → (s' : State W R S) × Leaves s' (shrink env a g s)
        × Inv env laws s' live
        × Kept s.pool.num_reserve_segments a s.pool.segments s'.pool.segments
  unfolding shrink lock set_pool unguard unlock
  shrink-Inv a g s live v e full =
      let locked = set_pool (record s.pool { mutex = true }) s in
      elim (Bool-cases (ltb s.pool.num_reserve_segments (length s.pool.segments))) [
        | inl more ↦
            let (s', left, inv) =
              unguard-Left a g s locked live v e full refl (erase_segment env a g locked)
                (ltb→lt _ _ more) (erase_segment-Erased env a g locked) in
            (s', rw (v.unlocked, lock, full, more) left, inv.0, inv.1)
        | inr few ↦
            let inv = kept-Left a g s locked live v e full refl locked (refl, refl) in
            (_, rw (v.unlocked, lock, full, few) (inl refl), inv.0, inv.1)
      ]
