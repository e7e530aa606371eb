-- ===== src/Threads/Preserved.antt =====
-- The turns of threads that use a pool (include/hwmalloc/detail/pool.hpp), against the invariant.
use hwmalloc.Base.{ℕ, ◌≡◌, inl, inr, sym, List, [], ◌∷◌, arith, get_elem?, set, Option-cases}
use hwmalloc.Platform.{Platform, IsStack}
use hwmalloc.Threads.{Thread, Shared, locks, uncounted, unsubtracted, needs, broken}
use hwmalloc.Threads.Turn.{Choice, act, turn, run, System}
use hwmalloc.Threads.Totals.{total, others, total-others, total-set, length-total}
use hwmalloc.Threads.Invariant.{moved, Inv}
use hwmalloc.Threads.Acts.{act-Inv}

module _ {W R H S : Type 0} (env : Platform W R H S) (laws : IsStack env.stack) where
  -- The invariant does not depend on the order of the threads.
  same_totals :
      (x : Shared W R H S) (ts us : List (Thread H))
      → ((f : Thread H → ℕ) → total f ts ≡ total f us)
      → Inv env laws x ts
      → Inv env laws x us
  same_totals x ts us e v = record {
    can_grow = v.can_grow;
    block_size = v.block_size;
    few = omega (arith, v.few, length-total ts, length-total us, e (λ t. 1));
    grows = v.grows;
    below = v.below;
    used = λ a g found.
        let u = v.used a g found in
        record {
          room = u.room;
          small = u.small;
          sized = u.sized;
          extent = u.extent;
          extent_small = u.extent_small;
          num_small = u.num_small;
          own = u.own;
          counted = omega (arith, u.counted, e (uncounted a), e (unsubtracted a));
        };
    balanced = λ q. omega (arith, v.balanced q, e (moved q));
    locked = omega (arith, v.locked, e locks);
    needed = λ a h. v.needed a (omega (arith, h, e (needs a)));
    to_count = λ a h. v.to_count a (omega (arith, h, e (uncounted a)));
    unbroken = omega (arith, v.unbroken, e broken);
  }

  -- One turn of any thread keeps the invariant.
  pub turn-Inv :
      (m : ℕ × Choice) (y : System env)
      → Inv env laws y.0 y.1
      → Inv env laws (turn env m y).0 (turn env m y).1
  unfolding turn
  turn-Inv (i, c) (x, ts) v = elim (Option-cases (get_elem? ts i)) [
    | inl e ↦ rw (e, turn) v
    | inr (t, e) ↦
        rw (e, turn)
          (same_totals (act env c t x).0 ((act env c t x).1 ∷ others ts i)
            (set ts i (act env c t x).1) (λ f. sym (total-set f ts i t (act env c t x).1 e))
            (act-Inv env laws x (others ts i) c t
              (same_totals x ts (t ∷ others ts i) (λ f. total-others f ts i t e) v)))
  ]

  -- Every interleaving keeps the invariant.
  pub run-Inv :
      (ms : List (ℕ × Choice)) (y : System env)
      → Inv env laws y.0 y.1
      → Inv env laws (run env ms y).0 (run env ms y).1
  unfolding run
  run-Inv [] y v = v
  run-Inv (m ∷ ms) y v = run-Inv ms (turn env m y) (turn-Inv m y v)
