-- ===== src/Threads/Moves/Turns.antt =====
-- The turns of a thread that write to no segment (include/hwmalloc/detail/pool.hpp).
use hwmalloc.Base.{
  ℕ, suc, ◌≡◌, inl, inr, refl, sym, ap, ◌∙◌, true, false, List, [], ◌∷◌, arith, count, Option-cases,
}
use hwmalloc.Outcome.{Exception}
use hwmalloc.Platform.{Block, Platform, IsStack}
use hwmalloc.Pool.{set_pool}
use hwmalloc.Threads.{Thread, Shared, carrying, locks, uncounted, unsubtracted, needs, broken}
use hwmalloc.Threads.Turn.{
  take_at, with_pool, with_free, with_mutex, pop_to, lock_to, hand_over, take_back, move_block,
}
use hwmalloc.Threads.Invariant.{Inv}
use hwmalloc.Threads.Moves.{if-Good, rearranged-Inv, pop-cases, Good, Fits, Popped, take_at-count}

module _ {W R H S : Type 0} (env : Platform W R H S) (laws : IsStack env.stack) where
  open laws use {contents, capacity}

  module _ (x : Shared W R H S) (r : List (Thread H)) where
    -- A thread that has popped a block goes on with it.
    pub pop_to-Inv :
        (t otherwise : Thread H) (found : Block H → Shared W R H S → Shared W R H S × Thread H)
        → Inv env laws x (t ∷ r)
        → Inv env laws x (otherwise ∷ r)
        → ((b : Block H) (f : S)
            → Popped env laws x.state.pool.free_stack b f
            → Good env laws r (found b (with_free env f x)))
        → Good env laws r (pop_to env found otherwise x)
    unfolding pop_to
    pop_to-Inv t otherwise found v miss hit = elim (pop-cases env laws x.state.pool.free_stack) [
      | inl e ↦ rw (e, pop_to) miss
      | inr (b, f, p) ↦ rw (p.result, pop_to) (hit b f p)
    ]

    pub hand_over-Inv :
        (b : Block H) (f : S)
        → Inv env laws x (Thread.idle ∷ r)
        → Popped env laws x.state.pool.free_stack b f
        → Good env laws r (hand_over env b (with_free env f x))
    unfolding hand_over with_free with_pool set_pool carrying locks uncounted unsubtracted needs
        broken
    hand_over-Inv b f v p =
        rearranged-Inv env laws x f x.state.pool.mutex (b ∷ x.held) Thread.idle Thread.idle r v
          (p.same ∙ v.grows)
          (record {
            blocks = λ q. omega (arith, ap (count q) p.top);
            lock = refl;
            not_counted = λ a. refl;
            not_subtracted = λ a. refl;
            need = λ a h. absurd (omega arith);
            whole = refl;
          })

    -- The popped block is on its way out, under the lock.
    pub leave-Inv :
        (t : Thread H) (b : Block H) (f : S)
        → Inv env laws x (t ∷ r)
        → carrying t ≡ []
        → locks t ≡ 1
        → ((a : ℕ) → (uncounted a t ≡ 0) × (unsubtracted a t ≡ 0))
        → Popped env laws x.state.pool.free_stack b f
        → Inv env laws (with_free env f x) (Thread.leaving b ∷ r)
    unfolding with_free with_pool set_pool carrying locks uncounted unsubtracted needs broken
    leave-Inv t b f v none_carried one zeros p =
        rearranged-Inv env laws x f x.state.pool.mutex x.held t (Thread.leaving b) r v
          (p.same ∙ v.grows)
          (record {
            blocks = λ q. omega (arith, ap (count q) p.top, ap (count q) none_carried);
            lock = omega (arith, one);
            not_counted = λ a. sym (zeros a).0;
            not_subtracted = λ a. sym (zeros a).1;
            need = λ a h. absurd (omega arith);
            whole = refl;
          })

    pub lock_to-Inv :
        (t t' : Thread H)
        → Inv env laws x (t ∷ r)
        → (x.state.pool.mutex ≡ false → Fits env laws x x.state.pool.free_stack true x.held t t')
        → Good env laws r (lock_to env t t' x)
    unfolding lock_to with_mutex with_pool set_pool
    lock_to-Inv t t' v fits =
        if-Good env laws r x.state.pool.mutex (x, t) (with_mutex env true x, t') (λ busy. v)
          (λ open_now.
            rearranged-Inv env laws x x.state.pool.free_stack true x.held t t' r v v.grows
              (fits open_now))

    pub take_back-Inv :
        (i : ℕ) → Inv env laws x (Thread.idle ∷ r) → Good env laws r (take_back env i x)
    unfolding take_back carrying locks uncounted unsubtracted needs broken
    take_back-Inv i v = elim (Option-cases (take_at x.held i)) [
      | inl e ↦ rw (e, take_back) v
      | inr ((b, rest), e) ↦
          rw (e, take_back)
            (rearranged-Inv env laws x x.state.pool.free_stack x.state.pool.mutex rest Thread.idle
              (Thread.pushing b) r v v.grows
              (record {
                blocks = λ q. omega (arith, take_at-count q x.held i b rest e);
                lock = refl;
                not_counted = λ a. refl;
                not_subtracted = λ a. refl;
                need = λ a h. absurd (omega arith);
                whole = refl;
              }))
    ]

    pub move_block-Inv :
        (a : ℕ) (todo : List ℕ) (n : ℕ) (b : Block H)
        → Inv env laws x (Thread.moving a todo n b ∷ r)
        → Good env laws r (move_block env a todo n b x)
    unfolding move_block with_free with_pool set_pool carrying locks uncounted unsubtracted needs
        broken
    move_block-Inv a todo n b v =
        let (f, e, top, cap) = laws.push-dynamic x.state.pool.free_stack b v.grows in
        rw (e, move_block)
          (rearranged-Inv env laws x f x.state.pool.mutex x.held (Thread.moving a todo n b)
            (Thread.consuming a todo (suc n)) r v (cap ∙ v.grows)
            (record {
              blocks = λ q. omega (arith, ap (count q) top);
              lock = refl;
              not_counted = λ k. refl;
              not_subtracted = λ k. ground arith;
              need = λ k h. v.needed k (omega arith);
              whole = refl;
            }))

    -- `m_mutex.unlock()` at the end of `free`, and of `allocate` with a block for the caller.
    pub unlock-Inv :
        Inv env laws x (Thread.unlocking ∷ r)
        → Inv env laws (with_mutex env false x) (Thread.idle ∷ r)
    unfolding with_mutex with_pool set_pool carrying locks uncounted unsubtracted needs broken
    unlock-Inv v =
        rearranged-Inv env laws x x.state.pool.free_stack false x.held Thread.unlocking Thread.idle
          r v v.grows
          (record {
            blocks = λ q. refl;
            lock = ground (arith, v.locked);
            not_counted = λ a. refl;
            not_subtracted = λ a. refl;
            need = λ a h. absurd (omega arith);
            whole = refl;
          })

    -- The same when an exception leaves `free`.
    pub unwinding-Inv :
        (e : Exception)
        → Inv env laws x (Thread.unwinding e ∷ r)
        → Inv env laws (with_mutex env false x) (Thread.thrown e ∷ r)
    unfolding with_mutex with_pool set_pool carrying locks uncounted unsubtracted needs broken
    unwinding-Inv e v =
        rearranged-Inv env laws x x.state.pool.free_stack false x.held (Thread.unwinding e)
          (Thread.thrown e) r v v.grows
          (record {
            blocks = λ q. refl;
            lock = ground (arith, v.locked);
            not_counted = λ a. refl;
            not_subtracted = λ a. refl;
            need = λ a h. absurd (omega arith);
            whole = refl;
          })

    pub leaving-Inv :
        (b : Block H)
        → Inv env laws x (Thread.leaving b ∷ r)
        → Good env laws r (hand_over env b (with_mutex env false x))
    unfolding hand_over with_mutex with_pool set_pool carrying locks uncounted unsubtracted needs
        broken
    leaving-Inv b v =
        rearranged-Inv env laws x x.state.pool.free_stack false (b ∷ x.held) (Thread.leaving b)
          Thread.idle r v v.grows
          (record {
            blocks = λ q. omega arith;
            lock = ground (arith, v.locked);
            not_counted = λ a. refl;
            not_subtracted = λ a. refl;
            need = λ a h. absurd (omega arith);
            whole = refl;
          })
