-- ===== src/Threads/Writes/Turns.antt =====
-- The turns of a thread that write to a segment (include/hwmalloc/detail/segment.hpp).
use native.Mathlib.Decide.{ℕ_discrete}
use hwmalloc.Base.{
  ℕ, ◌%◌, ◌≤◌, ◌<◌, ◌≡◌, inl, inr, refl, ap, subst, some, List, ◌∷◌, arith, length, count,
  count-le-length, add_size, sub_size, size_mod, eq→==, ne→==,
}
use hwmalloc.Platform.{Block, Platform, IsStack}
use hwmalloc.Segment.{Segment}
use hwmalloc.Segment.Blocks.{owned_by}
use hwmalloc.Pool.{find}
use hwmalloc.Pool.Totals.{freed-le, count-blocks_own, find_of_owned}
use hwmalloc.Threads.{Thread, Shared, carrying, locks, uncounted, unsubtracted, needs, broken}
use hwmalloc.Threads.Turn.{consume, subtract, push_freed, count_freed}
use hwmalloc.Threads.Invariant.{moved, Inv}
use hwmalloc.Threads.Moves.{Good, pop-cases, stay-Inv}
use hwmalloc.Threads.Writes.{written-Inv}

module _ {W R H S : Type 0} (env : Platform W R H S) (laws : IsStack env.stack) where
  open laws use {contents, capacity}

  module _ (x : Shared W R H S) (r : List (Thread H)) where
    -- One turn of `consume_all`.
    pub consume-Inv :
        (a : ℕ) (todo : List ℕ) (n : ℕ) (g : Segment R S)
        → Inv env laws x (Thread.consuming a todo n ∷ r)
        → find a x.state.pool.segments ≡ some g
        → Good env laws r (consume env a todo n g x)
    unfolding consume carrying locks uncounted unsubtracted needs broken
    consume-Inv a todo n g v e =
        let u = v.used a g e in
        elim (pop-cases env laws g.freed_stack) [
          | inl none_left ↦
              rw (none_left, consume)
                (stay-Inv env laws x (Thread.consuming a todo n) (Thread.subtracting a todo n) r v
                  (record {
                    blocks = λ q. refl;
                    lock = refl;
                    not_counted = λ k. refl;
                    not_subtracted = λ k. refl;
                    need = λ k h. v.needed k (omega arith);
                    whole = refl;
                  }))
          | inr (b, f, p) ↦
              rw (p.result, consume)
                (written-Inv env laws x a g f g.num_freed (Thread.consuming a todo n)
                  (Thread.moving a todo n b) r v e
                  (record {
                    room = p.same;
                    num_small = u.num_small;
                    own = ground (
                      arith,
                      u.own,
                      ap length p.top,
                      ap (count (owned_by a)) p.top,
                      count-le-length (owned_by a) (contents f),
                    );
                    counted = ground (arith, u.counted, ap length p.top);
                    other = λ k ne. (refl, ground (arith, ne));
                    blocks = λ q. omega (arith, ap (count q) p.top);
                    lock = refl;
                    need = λ k h. v.needed k (omega arith);
                    to_count = λ k h. absurd (omega arith);
                    whole = refl;
                  }))
        ]

    -- The consumed blocks are no longer counted.
    pub subtract-Inv :
        (a : ℕ) (todo : List ℕ) (n : ℕ) (g : Segment R S)
        → Inv env laws x (Thread.subtracting a todo n ∷ r)
        → find a x.state.pool.segments ≡ some g
        → Good env laws r (subtract env a todo n g x)
    unfolding subtract carrying locks uncounted unsubtracted needs broken
    subtract-Inv a todo n g v e =
        let u = v.used a g e in
        written-Inv env laws x a g g.freed_stack (sub_size g.num_freed (n % size_mod))
          (Thread.subtracting a todo n) (Thread.collecting todo) r v e
          (record {
            room = refl;
            num_small = omega arith;
            own = u.own;
            counted = ground (arith, u.counted, u.num_small);
            other = λ k ne. (refl, ground (arith, ne));
            blocks = λ q. refl;
            lock = refl;
            need = λ k h. v.needed k (omega arith);
            to_count = λ k h. absurd (omega arith);
            whole = refl;
          })

    -- The freed block is counted.
    pub count_freed-Inv :
        (b : Block H) (g : Segment R S)
        → Inv env laws x (Thread.counting b ∷ r)
        → find b.segment x.state.pool.segments ≡ some g
        → Good env laws r (count_freed env b g x)
    unfolding count_freed carrying locks uncounted unsubtracted needs broken
    count_freed-Inv b g v e =
        let a = b.segment in
        let u = v.used a g e in
        written-Inv env laws x a g g.freed_stack (add_size g.num_freed 1) (Thread.counting b)
          (Thread.checking b) r v e
          (record {
            room = refl;
            num_small = omega arith;
            own = u.own;
            counted = ground (arith, u.counted);
            other = λ k ne. (ground (arith, ne), refl);
            blocks = λ q. refl;
            lock = refl;
            need = λ k h. absurd (omega arith);
            to_count = λ k h. absurd (omega arith);
            whole = refl;
          })

    -- The block that is pushed finds its segment, and room on the freed stack.
    pub pushing_room :
        (b : Block H)
        → Inv env laws x (Thread.pushing b ∷ r)
        → (g : Segment R S) × (find b.segment x.state.pool.segments ≡ some g)
          × (length (contents g.freed_stack) < g.num_blocks)
    unfolding carrying
    pushing_room b v =
        let a = b.segment in
        let gs = x.state.pool.segments in
        let own = λ (c : Block H). owned_by a c in
        let one : 1 ≤ moved own (Thread.pushing b) = ground (arith, eq→== a a refl) in
        let (g, e) = find_of_owned env laws a gs (omega (arith, v.balanced own, one)) in
        (
          g,
          e,
          omega (
            arith,
            one,
            v.balanced own,
            count-blocks_own env laws a x.state.next_object g gs v.below e,
            freed-le env laws own a g gs e,
            (v.used a g e).own,
          ),
        )

    pub push_freed-Inv :
        (b : Block H) (g : Segment R S)
        → Inv env laws x (Thread.pushing b ∷ r)
        → find b.segment x.state.pool.segments ≡ some g
        → length (contents g.freed_stack) < g.num_blocks
        → Good env laws r (push_freed env b g x)
    unfolding push_freed carrying locks uncounted unsubtracted needs broken
    push_freed-Inv b g v e less =
        let a = b.segment in
        let u = v.used a g e in
        let (f, p, top, cap) = laws.push-fixed g.freed_stack b g.num_blocks u.room less in
        rw (p, push_freed)
          (written-Inv env laws x a g f g.num_freed (Thread.pushing b) (Thread.counting b) r v e
            (record {
              room = cap;
              num_small = u.num_small;
              own = rw (top, eq→== a a refl) (omega (arith, u.own));
              counted = ground (arith, u.counted, ap length top, eq→== a a refl);
              other = λ k ne. (ground (arith, ne), refl);
              blocks = λ q. omega (arith, ap (count q) top);
              lock = refl;
              need = λ k h. absurd (omega arith);
              to_count = λ k h. elim (ℕ_discrete a k) [
                | yes same ↦ (g, subst (λ j. find j x.state.pool.segments ≡ some g) same e)
                | no miss ↦ absurd (ground (arith, h, ne→== a k miss))
              ];
              whole = refl;
            }))
