-- ===== src/Threads/Alone/Collects.antt =====
-- The loop of `allocate` (include/hwmalloc/detail/pool.hpp) over the segments, in a thread that nobody
-- interrupts, against the same loop as one function.
use hwmalloc.Base.{
  ℕ, suc, ◌+◌, ◌%◌, ◌<◌, ◌≡◌, refl, sym, ap, subst, ◌∙◌, none, some, List, [], ◌∷◌, ◌++◌, arith,
  length, sub_size, size_mod,
}
use mathlib.Core.Path.{subst₂}
use mathlib.Core.List.{append_assoc}
use native.Mathlib.Nat.{mod-eq_of_lt}
use hwmalloc.Platform.{Block, Platform, IsStack}
use hwmalloc.Segment
use hwmalloc.Segment.{Segment, push_all}
use hwmalloc.Pool.{set_pool}
use hwmalloc.Pool.Allocate.{collect_all}
use hwmalloc.Pool.Map.{Below}
use hwmalloc.Threads.{Thread, Shared}
use hwmalloc.Threads.Turn.{
  Choice, keys, with_pool, with_free, with_segment, at_segment, consume, move_block, subtract, act,
}
use hwmalloc.Threads.Alone.Reach.{
  Pops, Reaches, here, onward, Reaches-trans, AtLeast, AtLeast-mono, AtLeast-append, find-behind,
  update-behind,
}

module _ {W R H S : Type 0} (env : Platform W R H S) (laws : IsStack env.stack)
    (pops : Pops env.stack) (c : Choice) (r : List (Thread H)) (x : Shared W R H S) where
  open laws use {contents, capacity}

  -- The state with other free blocks and other segments.
  abbrev pub put : S → List (ℕ × Segment R S) → Shared W R H S
  put t gs = record x {
    state = record x.state { pool = record x.state.pool { free_stack = t; segments = gs } };
  }

  -- What the pops of `consume_all` leave of a freed stack.
  abbrev drained : Segment R S → Segment R S
  drained g = record g { freed_stack = (env.stack.consume_all g.freed_stack).1 }

  collect_lem :
      (t t' : S) (g : Segment R S) (bs : List (Block H))
      → (env.stack.consume_all g.freed_stack).0 ≡ bs
      → push_all env.stack bs t ≡ some t'
      → Segment.collect env g t
        ≡ some (length bs, record (drained g) { num_freed = sub_size g.num_freed (length bs) }, t')
  unfolding Segment.collect
  collect_lem t t' g bs e all =
      let all' = ap (λ b. push_all env.stack b t) e ∙ all in
      rw (all', Segment.collect)
        (ap
          (λ (b : List (Block H)).
            some (length b, record (drained g) { num_freed = sub_size g.num_freed (length b) }, t'))
          e)

  module _ (a : ℕ) (todo : List ℕ) (pre post : List (ℕ × Segment R S))
      (apart : AtLeast (suc a) pre) where
    abbrev with_it : S → Segment R S → Shared W R H S
    with_it t g = put t (pre ++ (a, g) ∷ post)

    consume_end :
        (t : S) (g : Segment R S) (n : ℕ)
        → env.stack.pop g.freed_stack ≡ none
        → act env c (Thread.consuming a todo n) (with_it t g)
          ≡ (with_it t g, Thread.subtracting a todo n)
    unfolding act at_segment consume
    consume_end t g n e = rw (find-behind a g pre post apart, at_segment) (rw (e, consume) refl)

    consume_one :
        (t : S) (g : Segment R S) (n : ℕ) (b : Block H) (f : S)
        → env.stack.pop g.freed_stack ≡ some (b, f)
        → act env c (Thread.consuming a todo n) (with_it t g)
          ≡ (with_it t (record g { freed_stack = f }), Thread.moving a todo n b)
    unfolding act at_segment consume with_segment with_pool set_pool
    consume_one t g n b f e =
        rw (find-behind a g pre post apart, at_segment)
          (rw (e, consume)
            (ap (λ gs. (put t gs, Thread.moving a todo n b))
              (update-behind a g (record g { freed_stack = f }) pre post apart)))

    move_one :
        (t t' : S) (g : Segment R S) (n : ℕ) (b : Block H)
        → env.stack.push t b ≡ some t'
        → act env c (Thread.moving a todo n b) (with_it t g)
          ≡ (with_it t' g, Thread.consuming a todo (suc n))
    unfolding act move_block with_free with_pool set_pool
    move_one t t' g n b e = rw (e, move_block) refl

    subtract_turn :
        (t : S) (g : Segment R S) (n : ℕ)
        → act env c (Thread.subtracting a todo n) (with_it t g) ≡ (
          with_it t (record g { num_freed = sub_size g.num_freed (n % size_mod) }),
          Thread.collecting todo,
        )
    unfolding act at_segment subtract with_segment with_pool set_pool
    subtract_turn t g n =
        rw (find-behind a g pre post apart, at_segment)
          (ap (λ gs. (put t gs, Thread.collecting todo)) (update-behind a g _ pre post apart))

    -- The loop of `consume_all`: the blocks go to the free stack in the order in which it hands them
    -- over.
    consumes :
        (bs : List (Block H)) (t : S) (g : Segment R S) (n m : ℕ)
        → contents g.freed_stack ≡ bs
        → capacity t ≡ none
        → m ≡ n + length bs
        → (t' : S) × (push_all env.stack bs t ≡ some t')
          × (capacity t' ≡ none)
          × Reaches env c r
              (with_it t g, Thread.consuming a todo n)
              (with_it t' (drained g), Thread.subtracting a todo m)
    consumes [] t g n m e d len =
        let none_left = laws.pop-empty g.freed_stack e in
        (
          t,
          refl,
          d,
          onward env c r (with_it t g) (Thread.consuming a todo n) _ _
              (consume_end t g n none_left
                ∙ ap (λ f. (with_it t (record g { freed_stack = f }), Thread.subtracting a todo n))
                    (sym (ap (λ p. p.1) (pops.at_end g.freed_stack none_left)))
                ∙ ap (λ k. (with_it t (drained g), Thread.subtracting a todo k))
                    (omega (arith, len)))
              (here env c r _),
        )
    consumes (b ∷ bs) t g n m e d len =
        let (f, p, rest, cap) = laws.pop-cons g.freed_stack b bs e in
        let (t1, q, top, cap1) = laws.push-dynamic t b d in
        let g1 = record g { freed_stack = f } in
        let (t', all, grows, reach) =
          consumes bs t1 g1 (suc n) m rest (cap1 ∙ d) (omega (arith, len)) in
        (
          t',
          rw (q, push_all) all,
          grows,
          onward env c r (with_it t g) (Thread.consuming a todo n) _ _ (consume_one t g n b f p) (
              onward env c r (with_it t g1) (Thread.moving a todo n b) _ _ (move_one t t1 g1 n b q)
                (subst
                  (λ k.
                    Reaches env c r (with_it t1 g1, Thread.consuming a todo (suc n))
                      (with_it t' (record g { freed_stack = k }), Thread.subtracting a todo m))
                  (sym (ap (λ z. z.1) (pops.onward g.freed_stack f b p))) reach)),
        )

    -- One segment: `collect` as one function, and the turns.
    collects_one :
        (t : S) (g : Segment R S)
        → length (contents g.freed_stack) < size_mod
        → capacity t ≡ none
        → (m : ℕ) × (g' : Segment R S) × (t' : S) × (Segment.collect env g t ≡ some (m, g', t'))
          × (capacity t' ≡ none)
          × Reaches env c r
              (with_it t g, Thread.collecting (a ∷ todo))
              (with_it t' g', Thread.collecting todo)
    unfolding act
    collects_one t g small d =
        let bs = contents g.freed_stack in
        let m = length bs in
        let (t', all, grows, reach) = consumes bs t g 0 m refl d (omega arith) in
        (
          m,
          record (drained g) { num_freed = sub_size g.num_freed m },
          t',
          collect_lem t t' g bs (laws.consumed g.freed_stack) all,
          grows,
          onward env c r (with_it t g) (Thread.collecting (a ∷ todo)) _ _ refl (
              Reaches-trans env c r _ _ _ reach (
                onward env c r (with_it t' (drained g)) (Thread.subtracting a todo m) _ _
                  (subtract_turn t' (drained g) m
                    ∙ ap
                        (λ k. (
                          with_it t' (record (drained g) { num_freed = sub_size g.num_freed k }),
                          Thread.collecting todo,
                        ))
                        (mod-eq_of_lt small))
                  (here env c r _))),
        )

  -- No segment holds more blocks than a counter can tell.
  abbrev pub AllSmall : List (ℕ × Segment R S) → Type 0
  AllSmall [] = Unit {0}
  AllSmall ((k, g) ∷ gs) = (length (contents g.freed_stack) < size_mod) × AllSmall gs

  -- The loop over the segments, behind those that have been collected from.
  collects_from :
      (n : ℕ) (pre gs : List (ℕ × Segment R S)) (t : S)
      → AtLeast n pre
      → Below n gs
      → AllSmall gs
      → capacity t ≡ none
      → (gs' : List (ℕ × Segment R S)) × (t' : S) × (collect_all env gs t ≡ some (gs', t'))
        × (capacity t' ≡ none)
        × Reaches env c r
            (put t (pre ++ gs), Thread.collecting (keys gs))
            (put t' (pre ++ gs'), Thread.third_pop)
  unfolding collect_all act
  collects_from n pre [] t apart below small d =
      ([], t, refl, d, onward env c r _ (Thread.collecting []) _ _ refl (here env c r _))
  collects_from n pre ((k, g) ∷ gs) t apart below small d =
      let (m, g', t1, one, d1, first) =
        collects_one k (keys gs) pre gs (AtLeast-mono (suc k) n pre (omega (arith, below.0)) apart)
          t g small.0 d in
      let (gs', t', all, d', others) =
        collects_from k (pre ++ (k, g') ∷ []) gs t1
          (AtLeast-append k k g' pre (omega arith)
            (AtLeast-mono k n pre (omega (arith, below.0)) apart))
          below.1 small.1 d1 in
      (
        (k, g') ∷ gs',
        t',
        rw (one, collect_all) (rw (all, collect_all) refl),
        d',
        Reaches-trans env c r _ _ _ first (
            subst₂
              (λ before later.
                Reaches env c r (put t1 before, Thread.collecting (keys gs))
                  (put t' later, Thread.third_pop))
              (append_assoc pre ((k, g') ∷ []) gs) (append_assoc pre ((k, g') ∷ []) gs') others),
      )

  -- The loop over all segments: the free stack and the segments are as `collect_all` leaves them.
  pub collects :
      (n : ℕ) (gs : List (ℕ × Segment R S)) (t : S)
      → Below n gs
      → AllSmall gs
      → capacity t ≡ none
      → (gs' : List (ℕ × Segment R S)) × (t' : S) × (collect_all env gs t ≡ some (gs', t'))
        × (capacity t' ≡ none)
        × Reaches env c r (put t gs, Thread.collecting (keys gs)) (put t' gs', Thread.third_pop)
  collects n gs t below small d = collects_from n [] gs t tt below small d
