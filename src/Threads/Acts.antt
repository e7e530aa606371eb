-- ===== src/Threads/Acts.antt =====
-- One turn of a thread that uses a pool (include/hwmalloc/detail/pool.hpp), against the invariant.
use native.Mathlib.Decide.{ℕ_discrete}
use hwmalloc.Base.{
  ne→==, ℕ, ◌≤◌, ◌≡◌, inl, inr, refl, ap, Bool, true, false, some, List, [], ◌∷◌, arith, count,
  Option-cases, if◌then◌else◌, ◌==◌, eq→==,
}
use hwmalloc.Platform.{Block, Platform, IsStack}
use hwmalloc.Segment.{Segment, is_empty}
use hwmalloc.Pool.{find}
use hwmalloc.Threads.{Thread, Shared, carrying, locks, uncounted, unsubtracted, needs, broken}
use hwmalloc.Threads.Turn.{Choice, allocate, free, keys, at_segment, hand_over, lock_to, check, act}
use hwmalloc.Threads.Invariant.{Found, Inv}
use hwmalloc.Threads.Moves.{Good, if-Good, stay-Inv}
use hwmalloc.Threads.Moves.Turns.{
  unwinding-Inv, pop_to-Inv, hand_over-Inv, leave-Inv, lock_to-Inv, take_back-Inv, move_block-Inv,
  unlock-Inv, leaving-Inv,
}
use hwmalloc.Threads.Writes.Turns.{
  consume-Inv, subtract-Inv, count_freed-Inv, pushing_room, push_freed-Inv,
}
use hwmalloc.Threads.Erases.{recheck-Inv}
use hwmalloc.Threads.Grows.{grow-Inv}

-- The loop over the map meets only segments that are in it.
keys-Found :
    {R S : Type 0} (a : ℕ) (gs : List (ℕ × Segment R S))
    → 1 ≤ count (λ k. k == a) (keys gs)
    → Found a gs
unfolding find
keys-Found a [] h = absurd (omega arith)
keys-Found a ((k, g) ∷ gs) h = elim (ℕ_discrete k a) [
  | yes hit ↦ (g, ground (arith, hit))
  | no miss ↦
      let (g', e) = keys-Found a gs (ground (arith, h, ne→== k a miss)) in
      (g', rw (ne→== k a miss) e)
]

module _ {W R H S : Type 0} (env : Platform W R H S) (laws : IsStack env.stack) where
  open laws use {contents, capacity}

  module _ (x : Shared W R H S) (r : List (Thread H)) where
    -- A thread that goes on with no block, with the same lock, to a place where it needs no more.
    step :
        (t t' : Thread H)
        → Inv env laws x (t ∷ r)
        → carrying t' ≡ carrying t
        → locks t' ≡ locks t
        → ((a : ℕ) → uncounted a t' ≡ uncounted a t)
        → ((a : ℕ) → unsubtracted a t' ≡ unsubtracted a t)
        → ((a : ℕ) → 1 ≤ needs a t' → Found a x.state.pool.segments)
        → broken t' ≡ 0
        → Inv env laws x (t' ∷ r)
    step t t' v c l u s n w = stay-Inv env laws x t t' r v (record {
      blocks = λ q. omega (arith, ap (count q) c);
      lock = omega (arith, l);
      not_counted = u;
      not_subtracted = s;
      need = n;
      whole = w;
    })

    found-Good :
        (a : ℕ) (t : Thread H) (f : Segment R S → Shared W R H S → Shared W R H S × Thread H)
        → (g : Segment R S) → find a x.state.pool.segments ≡ some g
        → Good env laws r (f g x)
        → Good env laws r (at_segment env a t f x)
    unfolding at_segment
    found-Good a t f g e h = rw (e, at_segment) h

    maybe-Good :
        (a : ℕ) (t : Thread H) (f : Segment R S → Shared W R H S → Shared W R H S × Thread H)
        → Inv env laws x (t ∷ r)
        → ((g : Segment R S) → find a x.state.pool.segments ≡ some g → Good env laws r (f g x))
        → Good env laws r (at_segment env a t f x)
    unfolding at_segment
    maybe-Good a t f v h = elim (Option-cases (find a x.state.pool.segments)) [
      | inl e ↦ rw (e, at_segment) v
      | inr (g, e) ↦ rw (e, at_segment) (h g e)
    ]

    check-Good :
        (b : Block H) → Inv env laws x (Thread.checking b ∷ r) → Good env laws r (check env b x)
    unfolding check locks uncounted unsubtracted needs carrying broken
    check-Good b v =
        if-Good env laws r x.state.pool.never_free (x, Thread.idle) _
          (λ keeps. go Thread.idle refl refl (λ a. refl) (λ a. refl) (λ a. refl) refl)
          (λ frees.
            maybe-Good b.segment (Thread.dangling b) _
              (go (Thread.dangling b) refl refl (λ a. refl) (λ a. refl) (λ a. refl) refl)
              (λ g e. after_test (is_empty g)))
      where
        go :
            (t' : Thread H)
            → carrying t' ≡ []
            → locks t' ≡ 0
            → ((a : ℕ) → uncounted a t' ≡ 0)
            → ((a : ℕ) → unsubtracted a t' ≡ 0)
            → ((a : ℕ) → needs a t' ≡ 0)
            → broken t' ≡ 0
            → Inv env laws x (t' ∷ r)
        go t' c l u s n w =
            step (Thread.checking b) t' v c l u s (λ a h. absurd (omega (arith, n a))) w

        after_test :
            (m : Bool) → Inv env laws x ((if m then Thread.erase_locking b else Thread.idle) ∷ r)
        after_test true =
            go (Thread.erase_locking b) refl refl (λ a. refl) (λ a. refl) (λ a. refl) refl
        after_test false = go Thread.idle refl refl (λ a. refl) (λ a. refl) (λ a. refl) refl

    -- The lock is taken.
    enter :
        (t t' : Thread H)
        → Inv env laws x (t ∷ r)
        → carrying t ≡ []
        → carrying t' ≡ []
        → (locks t ≡ 0) × (locks t' ≡ 1)
        → ((a : ℕ) → uncounted a t' ≡ uncounted a t)
        → ((a : ℕ) → unsubtracted a t' ≡ unsubtracted a t)
        → ((a : ℕ) → needs a t' ≡ 0)
        → broken t' ≡ 0
        → Good env laws r (lock_to env t t' x)
    enter t t' v c c' (l, l') u s n w = lock_to-Inv env laws x r t t' v λ open_now. record {
      blocks = λ q. omega (arith, ap (count q) c, ap (count q) c');
      lock = ground (arith, l, l', open_now);
      not_counted = u;
      not_subtracted = s;
      need = λ a h. absurd (omega (arith, n a));
      whole = w;
    }

    -- Every turn of a thread keeps the invariant, whatever the other threads are doing.
    pub act-Inv :
        (c : Choice) (t : Thread H) → Inv env laws x (t ∷ r) → Good env laws r (act env c t x)
    unfolding act locks uncounted unsubtracted needs carrying broken
    act-Inv allocate Thread.idle v =
        pop_to-Inv env laws x r Thread.idle Thread.locking (hand_over env) v
          (step Thread.idle Thread.locking v refl refl (λ a. refl) (λ a. refl)
            (λ a h. absurd (omega arith)) refl)
          (λ b f p. hand_over-Inv env laws x r b f v p)
    act-Inv (free i) Thread.idle v = take_back-Inv env laws x r i v
    act-Inv c Thread.locking v =
        enter Thread.locking Thread.second_pop v refl refl (refl, refl) (λ a. refl) (λ a. refl)
          (λ a. refl) refl
    act-Inv c Thread.second_pop v =
        pop_to-Inv env laws x r Thread.second_pop (Thread.collecting (keys x.state.pool.segments)) _
          v
          (step Thread.second_pop (Thread.collecting (keys x.state.pool.segments)) v refl refl
            (λ a. refl) (λ a. refl) (λ a. keys-Found a x.state.pool.segments) refl)
          (λ b f p. leave-Inv env laws x r Thread.second_pop b f v refl refl (λ a. (refl, refl)) p)
    act-Inv c (Thread.collecting []) v =
        step (Thread.collecting []) Thread.third_pop v refl refl (λ a. refl) (λ a. refl)
          (λ a h. absurd (omega arith)) refl
    act-Inv c (Thread.collecting (k ∷ todo)) v =
        step (Thread.collecting (k ∷ todo)) (Thread.consuming k todo 0) v refl refl (λ a. refl)
          (λ a. ground arith) (λ a h. v.needed a (omega arith)) refl
    act-Inv c (Thread.consuming k todo n) v =
        let (g, e) = v.needed k (ground (arith, eq→== k k refl)) in
        found-Good k Thread.undefined _ g e (consume-Inv env laws x r k todo n g v e)
    act-Inv c (Thread.moving k todo n b) v = move_block-Inv env laws x r k todo n b v
    act-Inv c (Thread.subtracting k todo n) v =
        let (g, e) = v.needed k (ground (arith, eq→== k k refl)) in
        found-Good k Thread.undefined _ g e (subtract-Inv env laws x r k todo n g v e)
    act-Inv c Thread.third_pop v =
        pop_to-Inv env laws x r Thread.third_pop (Thread.refilling 0) _ v
          (step Thread.third_pop (Thread.refilling 0) v refl refl (λ a. refl) (λ a. refl)
            (λ a h. absurd (omega arith)) refl)
          (λ b f p. leave-Inv env laws x r Thread.third_pop b f v refl refl (λ a. (refl, refl)) p)
    act-Inv c (Thread.refilling n) v =
        pop_to-Inv env laws x r (Thread.refilling n) (Thread.growing n) _ v
          (step (Thread.refilling n) (Thread.growing n) v refl refl (λ a. refl) (λ a. refl)
            (λ a h. absurd (omega arith)) refl)
          (λ b f p.
            leave-Inv env laws x r (Thread.refilling n) b f v refl refl (λ a. (refl, refl)) p)
    act-Inv c (Thread.growing n) v = grow-Inv env laws x r n v
    act-Inv c (Thread.leaving b) v = leaving-Inv env laws x r b v
    act-Inv c (Thread.pushing b) v =
        let (g, e, room) = pushing_room env laws x r b v in
        found-Good b.segment Thread.undefined _ g e (push_freed-Inv env laws x r b g v e room)
    act-Inv c (Thread.counting b) v =
        let (g, e) = v.to_count b.segment (ground (arith, eq→== b.segment b.segment refl)) in
        found-Good b.segment Thread.undefined _ g e (count_freed-Inv env laws x r b g v e)
    act-Inv c (Thread.checking b) v = check-Good b v
    act-Inv c (Thread.erase_locking b) v =
        enter (Thread.erase_locking b) (Thread.rechecking b) v refl refl (refl, refl) (λ a. refl)
          (λ a. refl) (λ a. refl) refl
    act-Inv c (Thread.rechecking b) v =
        maybe-Good b.segment (Thread.dangling_locked b) _
          (step (Thread.rechecking b) (Thread.dangling_locked b) v refl refl (λ a. refl) (λ a. refl)
            (λ a h. absurd (omega arith)) refl)
          λ g e. recheck-Inv env laws x r b g v e
    act-Inv c Thread.unlocking v = unlock-Inv env laws x r v
    act-Inv c (Thread.unwinding e) v = unwinding-Inv env laws x r e v
    act-Inv c (Thread.thrown e) v = v
    act-Inv c (Thread.failed e) v = v
    act-Inv c (Thread.dangling b) v = v
    act-Inv c (Thread.dangling_locked b) v = v
    act-Inv c Thread.undefined v = v
