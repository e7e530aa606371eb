-- ===== src/Threads/Stuck.antt =====
-- A thread that an exception of `add_segment` leaves with the lock of a pool
-- (include/hwmalloc/detail/pool.hpp).
use native.Mathlib.Decide.{ℕ_discrete}
use hwmalloc.Base.{
  ℕ, ◌≡◌, inl, inr, sym, ap, ◌∙◌, true, some, List, [], ◌∷◌, arith, get_elem?, set,
  get_elem?-set_self, get_elem?-set_ne, get_elem?-lt, Option-cases,
}
use hwmalloc.Platform.{Platform, IsStack}
use hwmalloc.Outcome.{Exception}
use hwmalloc.Threads.{Thread, locks}
use hwmalloc.Threads.Turn.{Choice, System, act, turn, run}
use hwmalloc.Threads.Totals.{total, others, total-others}
use hwmalloc.Threads.Invariant.{Inv}
use hwmalloc.Threads.Preserved.{run-Inv}

some_inj : {A : Type 0} (x y : A) → some x ≡ some y → x ≡ y
some_inj x y e = cc

module _ {W R H S : Type 0} (env : Platform W R H S) (laws : IsStack env.stack) where
  abbrev Failed : Exception → ℕ → System env → Type 0
  Failed e i y = get_elem? y.1 i ≡ some (Thread.failed e)

  turn-Failed :
      (e : Exception) (i : ℕ) (m : ℕ × Choice) (y : System env)
      → Failed e i y
      → Failed e i (turn env m y)
  unfolding turn act
  turn-Failed e i (j, c) (x, ts) f = elim (Option-cases (get_elem? ts j)) [
    | inl miss ↦ rw (miss, turn) f
    | inr (t, hit) ↦
        rw (hit, turn)
          (elim (ℕ_discrete i j) [
            | yes same ↦
                let u = (act env c t x).1 in
                let here : t ≡ Thread.failed e =
                  some_inj t (Thread.failed e) (sym hit ∙ ap (get_elem? ts) (sym same) ∙ f) in
                ap (get_elem? (set ts j u)) same
                ∙ get_elem?-set_self ts j u (get_elem?-lt ts j t hit)
                ∙ ap (λ (t' : Thread H). some (act env c t' x).1) here
            | no other ↦ get_elem?-set_ne ts j i (act env c t x).1 (λ e'. other (sym e')) ∙ f
          ])
  ]

  run-Failed :
      (e : Exception) (i : ℕ) (ms : List (ℕ × Choice)) (y : System env)
      → Failed e i y
      → Failed e i (run env ms y)
  unfolding run
  run-Failed e i [] y f = f
  run-Failed e i (m ∷ ms) y f = run-Failed e i ms (turn env m y) (turn-Failed e i m y f)

  -- Once an exception has left `allocate` in one thread, the mutex stays locked whatever the threads
  -- do, and no other thread gets the lock any more.
  pub locked_forever :
      (e : Exception) (i : ℕ) (ms : List (ℕ × Choice)) (y : System env)
      → Inv env laws y.0 y.1
      → get_elem? y.1 i ≡ some (Thread.failed e)
      → ((run env ms y).0.state.pool.mutex ≡ true) × (total locks (others (run env ms y).1 i) ≡ 0)
  unfolding locks
  locked_forever e i ms y v f =
      let w = run-Inv env laws ms y v in
      let one = total-others locks (run env ms y).1 i (Thread.failed e) (run-Failed e i ms y f) in
      (ground (arith, w.locked, one), ground (arith, w.locked, one))
