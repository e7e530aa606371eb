-- ===== src/Threads/Progress/Turns.antt =====
-- A turn of a thread that is inside a call of a pool (include/hwmalloc/detail/pool.hpp).
use hwmalloc.Base.{
  ◌%◌, ◌<◌, ◌≡◌, inl, inr, refl, sym, ap, subst, true, false, List, [], ◌∷◌, arith, length, count,
  ◌==◌, eq→==, ◌&&◌, ltb, sub_size, size_mod,
}
use hwmalloc.Platform.{Platform, IsStack}
use hwmalloc.Segment.{is_empty}
use hwmalloc.Pool.{set_pool}
use hwmalloc.Pool.Free.{erase_segment}
use hwmalloc.Pool.Totals.{freed-update}
use hwmalloc.Threads.{Thread, Shared, locks, needs, uncounted, broken}
use hwmalloc.Threads.Turn.{
  erased, Choice, keys, with_free, with_mutex, with_segment, with_pool, lock_to, hand_over, consume,
  move_block, subtract, grow, push_freed, count_freed, check, recheck, act,
}
use hwmalloc.Threads.Totals.{total}
use hwmalloc.Threads.Invariant.{Inv}
use hwmalloc.Threads.Moves.{pop-cases}
use hwmalloc.Threads.Writes.Turns.{pushing_room}
use hwmalloc.Threads.Progress.{rests, left, rounds, length-keys}
use hwmalloc.Pool.Shrinks.{erase_segment-Erased}
use hwmalloc.Threads.Progress.Steps.{
  erased-Less, if-Less, found-Less, maybe-Less, popped-Less, rounds-le, rounds-ge, growing-lt,
  grow_by, tested,
}

module _ {W R H S : Type 0} (env : Platform W R H S) (laws : IsStack env.stack) where
  open laws use {contents, capacity}

  module _ (x : Shared W R H S) (r : List (Thread H)) (alone : total locks r ≡ 0) where
    -- Each turn of the only thread that has turns brings it nearer to the end of its call.
    pub act-Less :
        (c : Choice) (t : Thread H)
        → Inv env laws x (t ∷ r)
        → rests t ≡ false
        → left env laws (act env c t x).0 (act env c t x).1 < left env laws x t
    unfolding act left rests locks needs uncounted broken consume move_block subtract grow
        push_freed count_freed check recheck lock_to hand_over with_mutex with_free with_segment
        with_pool set_pool
    act-Less c Thread.idle v e = absurd cc
    act-Less c (Thread.failed f) v e = absurd cc
    act-Less c (Thread.thrown f) v e = absurd cc
    act-Less c (Thread.unwinding f) v e = omega arith
    act-Less c (Thread.dangling b) v e = absurd cc
    act-Less c (Thread.dangling_locked b) v e = absurd cc
    act-Less c Thread.undefined v e = absurd (omega (arith, v.unbroken))
    act-Less c Thread.locking v e =
        if-Less env laws x _ x.state.pool.mutex (x, Thread.locking)
          (with_mutex env true x, Thread.second_pop)
          (λ busy. absurd (ground (arith, busy, v.locked, alone))) (λ open_now. omega arith)
    act-Less c Thread.second_pop v e =
        popped-Less env laws x _ (Thread.collecting (keys x.state.pool.segments)) (omega arith)
          (λ none_there. omega (arith, length-keys x.state.pool.segments))
    act-Less c (Thread.collecting []) v e = omega arith
    act-Less c (Thread.collecting (k ∷ todo)) v e = omega arith
    act-Less c (Thread.consuming k todo n) v e =
        let (g, found) = v.needed k (ground (arith, eq→== k k refl)) in
        found-Less env laws x _ k Thread.undefined _ g found
          (elim (pop-cases env laws g.freed_stack) [
            | inl none_left ↦ rw (none_left, consume) (omega arith)
            | inr (b, f, p) ↦
                rw (p.result, consume)
                  (omega (
                    arith,
                    freed-update env laws (λ b. true) k g (record g { freed_stack = f })
                        x.state.pool.segments found,
                    ap (count (λ b. true)) p.top,
                  ))
          ])
    act-Less c (Thread.moving k todo n b) v e =
        let (f, p, top, cap) = laws.push-dynamic x.state.pool.free_stack b v.grows in
        rw (p, move_block) (omega arith)
    act-Less c (Thread.subtracting k todo n) v e =
        let (g, found) = v.needed k (ground (arith, eq→== k k refl)) in
        found-Less env laws x _ k Thread.undefined _ g found (
          omega (
            arith,
            freed-update env laws (λ b. true) k g
                (record g { num_freed = sub_size g.num_freed (n % size_mod) }) x.state.pool.segments
                found,
          ))
    act-Less c Thread.third_pop v e =
        popped-Less env laws x _ (Thread.refilling 0) (omega arith)
          (λ none_there. omega (arith, rounds-le env laws x (contents x.state.pool.free_stack) 0))
    act-Less c (Thread.refilling n) v e =
        popped-Less env laws x _ (Thread.growing n)
          (omega (arith, rounds-ge env laws x (contents x.state.pool.free_stack) n))
          (λ none_there.
            subst (λ bs. left env laws x (Thread.growing n) < rounds env laws bs n) (sym none_there)
              (growing-lt env laws x n))
    act-Less c (Thread.growing n) v e = grow_by env laws x n r v (n % 2 == 0) refl
    act-Less c (Thread.leaving b) v e = omega arith
    act-Less c (Thread.pushing b) v e =
        let (g, found, room) = pushing_room env laws x r b v in
        let (f, p, top, cap) =
          laws.push-fixed g.freed_stack b g.num_blocks (v.used b.segment g found).room room in
        found-Less env laws x _ b.segment Thread.undefined _ g found
          (rw (p, push_freed) (omega arith))
    act-Less c (Thread.counting b) v e =
        let (g, found) = v.to_count b.segment (ground (arith, eq→== b.segment b.segment refl)) in
        found-Less env laws x _ b.segment Thread.undefined _ g found (omega arith)
    act-Less c (Thread.checking b) v e =
        if-Less env laws x _ x.state.pool.never_free (x, Thread.idle) _ (λ keeps. omega arith)
          (λ frees.
            maybe-Less env laws x _ b.segment (Thread.dangling b) _ (omega arith)
              (λ g. tested env laws x (is_empty g) b))
    act-Less c (Thread.erase_locking b) v e =
        if-Less env laws x _ x.state.pool.mutex (x, Thread.erase_locking b)
          (with_mutex env true x, Thread.rechecking b)
          (λ busy. absurd (ground (arith, busy, v.locked, alone))) (λ open_now. omega arith)
    act-Less c (Thread.rechecking b) v e =
        maybe-Less env laws x _ b.segment (Thread.dangling_locked b) _ (omega arith) λ g.
          if-Less env laws x _
            (is_empty g && ltb x.state.pool.num_reserve_segments (length x.state.pool.segments))
            (erased env b x (erase_segment env b.segment g x.state)) (x, Thread.unlocking)
            (λ t.
              erased-Less env laws x b (erase_segment env b.segment g x.state)
                (erase_segment-Erased env b.segment g x.state))
            (λ f. omega arith)
    act-Less c Thread.unlocking v e = omega arith
