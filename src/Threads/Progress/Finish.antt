-- ===== src/Threads/Progress/Finish.antt =====
-- A call of a pool (include/hwmalloc/detail/pool.hpp) by the only thread that has turns.
use hwmalloc.Base.{
  ℕ, zero, suc, ◌≤◌, ◌≡◌, inl, inr, refl, true, List, ◌∷◌, arith, replicate, Bool-cases,
}
use hwmalloc.Platform.{Platform, IsStack}
use hwmalloc.Threads.{Thread, Shared, locks}
use hwmalloc.Threads.Turn.{Choice, act, turn, run}
use hwmalloc.Threads.Totals.{total}
use hwmalloc.Threads.Invariant.{Inv}
use hwmalloc.Threads.Acts.{act-Inv}
use hwmalloc.Threads.Progress.{rests, left}
use hwmalloc.Threads.Progress.Turns.{act-Less}

module _ {W R H S : Type 0} (env : Platform W R H S) (laws : IsStack env.stack) where
  open laws use {contents, capacity}

  -- A thread inside a call, while no other thread is inside the lock: if it alone has turns then it
  -- ends its call after at most the given number of them, or an exception or a dangling read stops it.
  pub alone_lem :
      (c : Choice) (x : Shared W R H S) (t : Thread H) (r : List (Thread H))
      → Inv env laws x (t ∷ r)
      → total locks r ≡ 0
      → (n : ℕ) × (n ≤ left env laws x t)
        × (x' : Shared W R H S) × (u : Thread H) × (run env (replicate n (0, c)) (x, t ∷ r)
            ≡ (x', u ∷ r))
        × (rests u ≡ true)
  unfolding run turn
  alone_lem c x t r v alone = within (left env laws x t) x t v (omega arith)
    where
      within :
          (fuel : ℕ) (x : Shared W R H S) (t : Thread H)
          → Inv env laws x (t ∷ r)
          → left env laws x t ≤ fuel
          → (n : ℕ) × (n ≤ left env laws x t)
            × (x' : Shared W R H S) × (u : Thread H) × (run env (replicate n (0, c)) (x, t ∷ r)
                ≡ (x', u ∷ r))
            × (rests u ≡ true)
      within zero x t v h = elim (Bool-cases (rests t)) [
        | inl done ↦ (0, omega arith, x, t, refl, done)
        | inr more ↦ absurd (omega (arith, act-Less env laws x r alone c t v more))
      ]
      within (suc fuel) x t v h = elim (Bool-cases (rests t)) [
        | inl done ↦ (0, omega arith, x, t, refl, done)
        | inr more ↦
            let less = act-Less env laws x r alone c t v more in
            let (n, few, x', u, e, rest) =
              within fuel (act env c t x).0 (act env c t x).1 (act-Inv env laws x r c t v)
                (omega (arith, less)) in
            (suc n, omega (arith, few, less), x', u, e, rest)
      ]
