-- ===== src/Pool/Frame/Calls.antt =====
-- `allocate` of include/hwmalloc/detail/pool.hpp keeps to the frame of the pool.
use hwmalloc.Base.{
  ℕ, zero, suc, ◌+◌, ◌%◌, ◌^◌, ◌≡◌, inl, inr, refl, sym, ap, ◌∙◌, Option, none, some, List, [], ◌∷◌,
  arith, ◌==◌, Option-cases, subst, eq→==, ne→==,
}
use hwmalloc.Platform.{Block, Platform}
use hwmalloc.Outcome.{Call, return}
use hwmalloc.Segment.{Segment, fill_free_stack, make_segment, is_empty}
use hwmalloc.Segment
use hwmalloc.Pool.{State, find, lock, unlock, set_pool}
use hwmalloc.Pool.Grow.{add_segment}
use hwmalloc.Pool.Allocate.{
  pop, choose, pop_or, collect_all, collect, refill, unlock_and_return, allocate_locked, allocate,
}
use hwmalloc.Pool.Map.{find-cons}
use hwmalloc.Pool.Frame.{
  label, own_label, Segments, Frame-refl, Frame-same, Keeps, >>=-Keeps, if-Keeps, return-Keeps,
  lock-Keeps, unlock-Keeps,
}
use hwmalloc.Pool.Frame.Grows.{add_segment-Keeps}

module _ {W R H S : Type 0} (env : Platform W R H S) where
  pop-Keeps : Keeps (pop env)
  unfolding pop set_pool
  pop-Keeps s = elim (Option-cases (env.stack.pop s.pool.free_stack)) [
    | inl e ↦ rw (e, pop) (Frame-refl s)
    | inr ((b, t), e) ↦ rw (e, pop) (Frame-same s _ (omega arith) refl refl refl refl)
  ]

  choose-Keeps :
      (r : Option (Block H)) (found : Block H → Call (State W R S) (Block H))
      (otherwise : Call (State W R S) (Block H))
      → ((b : Block H) → Keeps (found b))
      → Keeps otherwise
      → Keeps (choose env r found otherwise)
  choose-Keeps none found otherwise h k = k
  choose-Keeps (some b) found otherwise h k = h b

  pop_or-Keeps :
      (found : Block H → Call (State W R S) (Block H)) (otherwise : Call (State W R S) (Block H))
      → ((b : Block H) → Keeps (found b))
      → Keeps otherwise
      → Keeps (pop_or env found otherwise)
  unfolding pop_or
  pop_or-Keeps found otherwise h k =
      >>=-Keeps (pop env) _ pop-Keeps (λ r. choose-Keeps r found otherwise h k)

  collect-label :
      (g g' : Segment R S) (t t' : S) (n : ℕ)
      → Segment.collect env g t ≡ some (n, g', t')
      → label g' ≡ label g
  unfolding Segment.collect
  collect-label g g' t t' n e = ground (arith, e)

  -- What is collected from is there as before.
  collect_all-Segments :
      (next : ℕ) (own : ℕ × ℕ) (gs gs' : List (ℕ × Segment R S)) (t t' : S)
      → collect_all env gs t ≡ some (gs', t')
      → Segments next own gs gs'
  unfolding collect_all find
  collect_all-Segments next own [] gs' t t' e a g there = ground (arith, e, there)
  collect_all-Segments next own ((k, m) ∷ gs) gs' t t' e a g there =
      elim (Option-cases (Segment.collect env m t)) [
        | inl full ↦ absurd (ground (arith, full, e))
        | inr ((n, m', t1), c) ↦ elim (Option-cases (collect_all env gs t1)) [
          | inl full ↦ absurd (ground (arith, c, full, e))
          | inr ((gs1, t2), rest) ↦
              let same : (k, m') ∷ gs1 ≡ gs' = ground (arith, c, rest, e) in
              elim (find-cons a k m' g gs1 (subst (λ ms. find a ms ≡ some g) (sym same) there)) [
                | inl (ka, mg) ↦
                    inl (m, rw (eq→== k a ka) refl, ap label (sym mg) ∙ collect-label m m' t t1 n c)
                | inr (ne, old) ↦ elim (collect_all-Segments next own gs gs1 t1 t2 rest a g old) [
                  | inl (h, there', own) ↦ inl (h, rw (ne→== k a ne) there', own)
                  | inr new ↦ inr new
                ]
              ]
        ]
      ]

  collect-Keeps : Keeps (collect env)
  unfolding collect set_pool
  collect-Keeps s = elim (Option-cases (collect_all env s.pool.segments s.pool.free_stack)) [
    | inl full ↦ rw (full, collect) tt
    | inr ((gs, t), e) ↦
        rw (e, collect)
          (record {
            next = omega arith;
            self = refl;
            block_size = refl;
            segment_size = refl;
            segments =
                collect_all-Segments s.next_object (own_label s.pool) s.pool.segments gs
                  s.pool.free_stack t e;
          })
  ]

  refill-Keeps : (fuel c : ℕ) → Keeps (refill env fuel c)
  unfolding refill
  refill-Keeps zero c s = tt
  refill-Keeps (suc f) c s =
      pop_or-Keeps return _ return-Keeps
        (>>=-Keeps _ _
          (if-Keeps (c % 2 == 0) (add_segment env) (return tt) (add_segment-Keeps env)
            (return-Keeps tt))
          (λ u. refill-Keeps f ((c + 1) % 2 ^ 32)))
        s

  unlock_and_return-Keeps : (b : Block H) → Keeps (unlock_and_return env b)
  unfolding unlock_and_return
  unlock_and_return-Keeps b = >>=-Keeps unlock _ unlock-Keeps (λ u. return-Keeps b)

  allocate_locked-Keeps : (fuel : ℕ) → Keeps (allocate_locked env fuel)
  unfolding allocate_locked
  allocate_locked-Keeps fuel = pop_or-Keeps (unlock_and_return env) _ unlock_and_return-Keeps (
      >>=-Keeps (collect env) _ collect-Keeps (λ u.
        pop_or-Keeps (unlock_and_return env) _ unlock_and_return-Keeps
          (>>=-Keeps (refill env fuel 0) _ (refill-Keeps fuel 0) unlock_and_return-Keeps)))

  pub allocate-Keeps : (fuel : ℕ) → Keeps (allocate env fuel)
  unfolding allocate
  allocate-Keeps fuel =
      pop_or-Keeps return _ return-Keeps
        (>>=-Keeps lock _ lock-Keeps (λ u. allocate_locked-Keeps fuel))
