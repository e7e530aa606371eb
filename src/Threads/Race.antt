-- ===== src/Threads/Race.antt =====
-- Two threads in `free` of include/hwmalloc/detail/pool.hpp, both behind the counting and before the
-- test of the counter; and a thread that an exception leaves with the lock.
use hwmalloc.Base.{
  ◌⊎◌, subst, ℕ, ◌<◌, ◌≡◌, refl, ap, ◌∙◌, Bool, true, false, ◌&&◌, none, some, List, [], ◌∷◌, arith,
  length, ltb, lt→ltb, get_elem?, if◌then◌else◌,
}
use hwmalloc.Platform.{Block, Platform, IsStack}
use hwmalloc.Segment.{Segment, is_empty}
use hwmalloc.Pool.{State, find, erase, set_pool}
use hwmalloc.Pool.Free.{erase_segment}
use hwmalloc.Pool.Map.{Below, find_above}
use hwmalloc.Pool.Shrinks.{Erased, erase_segment-Erased}
use hwmalloc.Threads.{Thread, Shared}
use hwmalloc.Pool.Pages.{Same}
use hwmalloc.Outcome.{Ends, returns}
use hwmalloc.Threads.Turn.{
  erased, Choice, at_segment, check, recheck, lock_to, with_mutex, with_pool, act, turn, run,
}
use hwmalloc.Threads.Invariant.{Inv}

find-erase_self :
    {R S : Type 0} (a n : ℕ) (gs : List (ℕ × Segment R S)) → Below n gs → find a (erase a gs) ≡ none
unfolding find erase
find-erase_self a n [] b = refl
find-erase_self a n ((k, g) ∷ gs) b =
    ground (arith, find_above a k gs b.1, find-erase_self a k gs b.1)

pub if_false : {A : Type 0} (m : Bool) (x y : A) → m ≡ false → (if m then x else y) ≡ y
if_false true x y e = cc
if_false false x y e = refl

pub if_true : {A : Type 0} (m : Bool) (x y : A) → m ≡ true → (if m then x else y) ≡ x
if_true true x y e = refl
if_true false x y e = cc

module _ {W R H S : Type 0} (env : Platform W R H S) (laws : IsStack env.stack) where
  pub turn_first :
      (c : Choice) (t : Thread H) (x : Shared W R H S) (r : List (Thread H))
      (z : Shared W R H S × Thread H)
      → act env c t x ≡ z
      → turn env (0, c) (x, t ∷ r) ≡ (z.0, z.1 ∷ r)
  unfolding turn
  turn_first c t x r z e = ap (λ y. (y.0, y.1 ∷ r)) e

  turn_second :
      (c : Choice) (t u : Thread H) (x : Shared W R H S) (r : List (Thread H))
      (z : Shared W R H S × Thread H)
      → act env c u x ≡ z
      → turn env (1, c) (x, t ∷ u ∷ r) ≡ (z.0, t ∷ z.1 ∷ r)
  unfolding turn
  turn_second c t u x r z e = ap (λ y. (y.0, t ∷ y.1 ∷ r)) e

  pub check_full :
      (c : Choice) (b : Block H) (x : Shared W R H S) (g : Segment R S)
      → find b.segment x.state.pool.segments ≡ some g
      → is_empty g ≡ true
      → x.state.pool.never_free ≡ false
      → act env c (Thread.checking b) x ≡ (x, Thread.erase_locking b)
  unfolding act check at_segment
  check_full c b x g e full frees =
      if_false _ _ _ frees
      ∙ rw (e, at_segment) (ap (λ m. (x, if m then Thread.erase_locking b else Thread.idle)) full)

  check_gone :
      (c : Choice) (b : Block H) (x : Shared W R H S)
      → find b.segment x.state.pool.segments ≡ none
      → x.state.pool.never_free ≡ false
      → act env c (Thread.checking b) x ≡ (x, Thread.dangling b)
  unfolding act check at_segment
  check_gone c b x e frees = if_false _ _ _ frees ∙ rw (e, at_segment) refl

  pub lock_open :
      (c : Choice) (b : Block H) (x : Shared W R H S)
      → x.state.pool.mutex ≡ false
      → act env c (Thread.erase_locking b) x ≡ (with_mutex env true x, Thread.rechecking b)
  unfolding act lock_to
  lock_open c b x open_now = if_false _ _ _ open_now

  pub recheck_full :
      (c : Choice) (b : Block H) (x : Shared W R H S) (g : Segment R S)
      → find b.segment x.state.pool.segments ≡ some g
      → is_empty g ≡ true
      → x.state.pool.num_reserve_segments < length x.state.pool.segments
      → act env c (Thread.rechecking b) x ≡ erased env b x (erase_segment env b.segment g x.state)
  unfolding act recheck at_segment
  recheck_full c b x g e full more =
      rw (e, at_segment)
        (if_true _ _ _ (
          ap (λ m. m && ltb x.state.pool.num_reserve_segments (length x.state.pool.segments)) full
          ∙ lt→ltb _ _ more))

  -- When two threads have freed the last blocks of a segment, and more segments are there than are
  -- held in reserve, then one of them can erase the segment, unless that throws, before the other
  -- reads the counter in it: `is_empty` is then called on an object that was destroyed.
  pub free_races :
      (x : Shared W R H S) (b b' : Block H) (g : Segment R S) (r : List (Thread H)) (c : Choice)
      (s' : State W R S)
      → Inv env laws x (Thread.checking b ∷ Thread.checking b' ∷ r)
      → b'.segment ≡ b.segment
      → find b.segment x.state.pool.segments ≡ some g
      → is_empty g ≡ true
      → x.state.pool.num_reserve_segments < length x.state.pool.segments
      → x.state.pool.never_free ≡ false
      → x.state.pool.mutex ≡ false
      → erase_segment env b.segment g (with_mutex env true x).state ≡ returns tt s'
      → get_elem?
          (run env
            ((0, c) ∷ (0, c) ∷ (0, c) ∷ (1, c) ∷ [])
            (x, Thread.checking b ∷ Thread.checking b' ∷ r)).1
          1
        ≡ some (Thread.dangling b')
  unfolding run with_mutex with_pool set_pool erased
  free_races x b b' g r c s' v same e full more frees open_now erases =
      let a = b.segment in
      let x1 = with_mutex env true x in
      let x2 = record x1 { state = s' } in
      let (pool, next) =
        subst
          (Ends (λ u s'. Erased a x1.state s') (λ e s'. Same x1.state s' ⊎ Erased a x1.state s'))
          erases (erase_segment-Erased env a g x1.state) in
      let gone : find b'.segment x2.state.pool.segments ≡ none = rw same (
        ap (λ p. find a p.segments) pool
        ∙ find-erase_self a x.state.next_object x.state.pool.segments v.below) in
      let first =
        turn_first c (Thread.checking b) x (Thread.checking b' ∷ r) _
          (check_full c b x g e full frees) in
      let second =
        turn_first c (Thread.erase_locking b) x (Thread.checking b' ∷ r) _
          (lock_open c b x open_now) in
      let third =
        turn_first c (Thread.rechecking b) x1 (Thread.checking b' ∷ r) _
          (recheck_full c b x1 g e full more ∙ ap (erased env b x1) erases) in
      let fourth =
        turn_second c Thread.unlocking (Thread.checking b') x2 r _
          (check_gone c b' x2 gone (ap (λ p. p.never_free) pool ∙ frees)) in
      ap (λ z. get_elem? z.1 1)
        (ap (λ z. turn env (1, c) (turn env (0, c) (turn env (0, c) z))) first
          ∙ ap (λ z. turn env (1, c) (turn env (0, c) z)) second
          ∙ ap (turn env (1, c)) third
          ∙ fourth)
