-- ===== src/Threads/Alone/Reach.antt =====
-- The turns of one thread of include/hwmalloc/detail/pool.hpp that nobody interrupts.
use hwmalloc.Base.{
  ℕ, zero, suc, ◌≡◌, refl, ap, ◌∙◌, none, some, List, [], ◌∷◌, ◌++◌, replicate, eq→==, ne→==, arith,
  ◌+◌, ◌≤◌,
}
use hwmalloc.Platform.{Block, Platform, Lockfree}
use hwmalloc.Segment.{Segment}
use hwmalloc.Outcome.{Outcome, returns, throws, hangs}
use hwmalloc.Pool.{State, find, update}
use hwmalloc.Threads.{Thread, Shared}
use hwmalloc.Threads.Turn.{Choice, act, turn, run}

-- What Boost documents of `consume_all` besides `IsStack`: it pops all elements, one after the other.
pub record Pops {B S : Type 0} (k : Lockfree B S) : Type 0 where
  pub at_end : (s : S) → k.pop s ≡ none → k.consume_all s ≡ ([], s)
  pub onward :
      (s t : S) (b : B)
      → k.pop s ≡ some (b, t)
      → k.consume_all s ≡ (b ∷ (k.consume_all t).0, (k.consume_all t).1)

-- Where a thread stands when `allocate` has ended as the outcome says, the blocks in `held` being
-- those that callers held before.
abbrev pub Meets :
    {W R H S : Type 0}
    → List (Block H)
    → Outcome (State W R S) (Block H)
    → Shared W R H S × Thread H
    → Type 0
Meets held (returns b s) z = z ≡ (record { state = s; held = b ∷ held }, Thread.idle)
Meets held (throws e s) z = z ≡ (record { state = s; held = held }, Thread.failed e)
Meets held hangs z = ⊥
Meets held Outcome.undefined z = ⊥

module _ {W R H S : Type 0} (env : Platform W R H S) (c : Choice) (r : List (Thread H)) where
  -- The first thread comes from one place to another by its own turns.
  abbrev pub Reaches : Shared W R H S × Thread H → Shared W R H S × Thread H → Type 0
  Reaches y z = (n : ℕ) × (run env (replicate n (0, c)) (y.0, y.1 ∷ r) ≡ (z.0, z.1 ∷ r))

  -- It comes to where the call has ended by its own turns.
  abbrev pub Meeting :
      List (Block H) → Shared W R H S × Thread H → Outcome (State W R S) (Block H) → Type 0
  Meeting held y o = (z : Shared W R H S × Thread H) × Reaches y z × Meets held o z

  pub here : (y : Shared W R H S × Thread H) → Reaches y y
  unfolding run
  here y = (0, refl)

  pub onward :
      (x : Shared W R H S) (t : Thread H) (y z : Shared W R H S × Thread H)
      → act env c t x ≡ y
      → Reaches y z
      → Reaches (x, t) z
  unfolding run turn
  onward x t y z e (n, h) = (suc n, ap (λ w. run env (replicate n (0, c)) (w.0, w.1 ∷ r)) e ∙ h)

  run_more :
      (n m : ℕ) (w : Shared W R H S × List (Thread H))
      → run env (replicate (n + m) (0, c)) w
        ≡ run env (replicate m (0, c)) (run env (replicate n (0, c)) w)
  unfolding run
  run_more zero m w =
      let e : zero + m ≡ m = omega arith in ap (λ k. run env (replicate k (0, c)) w) e
  run_more (suc n) m w =
      let e : suc n + m ≡ suc (n + m) = omega arith in
      ap (λ k. run env (replicate k (0, c)) w) e ∙ run_more n m (turn env (0, c) w)

  pub Reaches-trans : (y z w : Shared W R H S × Thread H) → Reaches y z → Reaches z w → Reaches y w
  Reaches-trans y z w (n, h) (m, k) =
      (n + m, run_more n m (y.0, y.1 ∷ r) ∙ ap (run env (replicate m (0, c))) h ∙ k)

-- A segment behind others with other addresses is found, and written.
abbrev pub AtLeast : {R S : Type 0} → ℕ → List (ℕ × Segment R S) → Type 0
AtLeast n [] = Unit {0}
AtLeast n ((k, g) ∷ gs) = (n ≤ k) × AtLeast n gs

pub AtLeast-mono :
    {R S : Type 0} (m n : ℕ) (gs : List (ℕ × Segment R S)) → m ≤ n → AtLeast n gs → AtLeast m gs
AtLeast-mono m n [] h b = tt
AtLeast-mono m n ((k, g) ∷ gs) h b = (omega (arith, h, b.0), AtLeast-mono m n gs h b.1)

pub AtLeast-append :
    {R S : Type 0} (n k : ℕ) (g : Segment R S) (pre : List (ℕ × Segment R S))
    → n ≤ k
    → AtLeast n pre
    → AtLeast n (pre ++ (k, g) ∷ [])
AtLeast-append n k g [] h b = (h, tt)
AtLeast-append n k g ((j, f) ∷ pre) h b = (b.0, AtLeast-append n k g pre h b.1)

pub find-behind :
    {R S : Type 0} (a : ℕ) (g : Segment R S) (pre post : List (ℕ × Segment R S))
    → AtLeast (suc a) pre
    → find a (pre ++ (a, g) ∷ post) ≡ some g
unfolding find
find-behind a g [] post h = rw (eq→== a a refl) refl
find-behind a g ((k, f) ∷ pre) post h =
    rw (ne→== k a (λ e. omega (arith, h.0, e))) (find-behind a g pre post h.1)

pub update-behind :
    {R S : Type 0} (a : ℕ) (g g' : Segment R S) (pre post : List (ℕ × Segment R S))
    → AtLeast (suc a) pre
    → update a g' (pre ++ (a, g) ∷ post) ≡ pre ++ (a, g') ∷ post
unfolding update
update-behind a g g' [] post h = rw (eq→== a a refl) refl
update-behind a g g' ((k, f) ∷ pre) post h =
    rw (ne→== k a (λ e. omega (arith, h.0, e)))
      (ap (◌∷◌ (k, f)) (update-behind a g g' pre post h.1))
