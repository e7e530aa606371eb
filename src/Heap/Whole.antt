-- ===== src/Heap/Whole.antt =====
-- The invariant of a whole heap (include/hwmalloc/heap.hpp): all its pools, and the blocks that its
-- callers hold, by the spot of the pool that each one is from.
use mathlib.Core.Path.{subst₂, fun_ext}
use hwmalloc.Base.{
  ℕ, ◌≤◌, ◌<◌, ◌≡◌, ◌≢◌, refl, sym, ap, Bool, true, false, none, some, List, [], arith, ◌⊎◌, inl,
  inr, ◌∙◌, subst,
}
use hwmalloc.Platform.{Block, Platform, IsStack}
use hwmalloc.Segment.{Segment}
use hwmalloc.Pool.{Pool, find}
use hwmalloc.Pool
use hwmalloc.Pool.Map.{Below, Below-mono, find_above}
use hwmalloc.Pool.Invariant.{IsSound}
use hwmalloc.Pool.Frame.{label, own_label, own_label-eq, Frame}
use hwmalloc.Heap.{State}
use hwmalloc.Heap.Spots.{Spot, pool_at, put_pool}
use hwmalloc.Heap.Spots.Laws.{
  Spot-discrete, pool_at-put_pool_self, pool_at-put_pool_ne, put_pool_rest,
}
use hwmalloc.Heap.Release.{inside, after}

-- A function on the spots with another value at one of them.
abbrev pub replaced_by : {A : Type 0} {t u : Spot} → Dec (u ≡ t) → A → A → A
replaced_by (yes e) v old = v
replaced_by (no e) v old = old

abbrev pub replaced : {A : Type 0} → (Spot → A) → Spot → A → Spot → A
replaced f t v u = replaced_by (Spot-discrete u t) v (f u)

pub replaced_self : {A : Type 0} (f : Spot → A) (t : Spot) (v : A) → replaced f t v t ≡ v
replaced_self f t v = elim (Spot-discrete t t) as (λ d. replaced_by d v (f t) ≡ v) [
  | yes e ↦ refl
  | no ne ↦ absurd (ne refl)
]

pub replaced_ne : {A : Type 0} (f : Spot → A) (t u : Spot) (v : A) → u ≢ t → replaced f t v u ≡ f u
replaced_ne f t u v ne = elim (Spot-discrete u t) as (λ d. replaced_by d v (f u) ≡ f u) [
  | yes e ↦ absurd (ne e)
  | no other ↦ refl
]

replaced_old : {A : Type 0} (f : Spot → A) (t : Spot) → replaced f t (f t) ≡ f
replaced_old f t = fun_ext λ u. elim (Spot-discrete u t) [
  | yes same ↦ ap (replaced f t (f t)) same ∙ replaced_self f t (f t) ∙ ap f (sym same)
  | no other ↦ replaced_ne f t u (f t) other
]

module _ {W R H S : Type 0} (env : Platform W R H S) (laws : IsStack env.stack) where
  -- What holds of one pool: `locked` tells whether its mutex is locked for good, since an exception
  -- left it locked, and `live` are the blocks from it that callers hold.
  pub record Member (next : ℕ) (locked : Bool) (p : Pool R S) (live : List (Block H)) : Type 0 where
    pub mutex : p.mutex ≡ locked
    pub sound : IsSound env laws next p live
    pub older : p.self < next
    pub own :
        (a : ℕ) (g : Segment R S) → find a p.segments ≡ some g → (1 ≤ a) × (label g ≡ own_label p)

  pub record Whole (locked : Spot → Bool) (s : State W R S) (live : Spot → List (Block H))
      : Type 0 where
    pub unlocked : s.heap.mutex ≡ false
    pub started : 1 ≤ s.next_object
    pub members :
        (t : Spot) (p : Pool R S)
        → pool_at s.heap t ≡ some p
        → Member s.next_object (locked t) p (live t)
    pub nowhere : (t : Spot) → pool_at s.heap t ≡ none → (live t ≡ []) × (locked t ≡ false)
    -- No two pools share an address, nor do two segments.
    pub one_pool :
        (t u : Spot) (p q : Pool R S)
        → pool_at s.heap t ≡ some p
        → pool_at s.heap u ≡ some q
        → p.self ≡ q.self
        → t ≡ u
    pub one_segment :
        (t u : Spot) (p q : Pool R S) (a : ℕ) (g h : Segment R S)
        → pool_at s.heap t ≡ some p
        → pool_at s.heap u ≡ some q
        → find a p.segments ≡ some g
        → find a q.segments ≡ some h
        → t ≡ u

  find-lt :
      (a n : ℕ) (g : Segment R S) (gs : List (ℕ × Segment R S))
      → Below n gs
      → find a gs ≡ some g
      → a < n
  find-lt a n g gs b e = ground (arith, e, find_above a n gs b)

  pub Member-later :
      (m n : ℕ) (locked : Bool) (p : Pool R S) (live : List (Block H))
      → m ≤ n
      → Member m locked p live
      → Member n locked p live
  Member-later m n locked p live h v = record {
    mutex = v.mutex;
    sound = record {
      grows = v.sound.grows;
      below = Below-mono m n p.segments h v.sound.below;
      valid = v.sound.valid;
      balanced = v.sound.balanced;
    };
    older = omega (arith, v.older, h);
    own = v.own;
  }

  -- A call on the pool at a spot, which keeps to the frame of the pool.
  module _ (locked : Spot → Bool) (s : State W R S) (live : Spot → List (Block H))
      (v : Whole locked s live) (t : Spot) (p : Pool R S) (there : pool_at s.heap t ≡ some p)
      (s' : Pool.State W R S) (frame : Frame (inside env s p) s') where
    -- What is at a spot afterwards.
    after-cases :
        (u : Spot) (q : Pool R S)
        → pool_at (after env s t s').heap u ≡ some q
        → ((u ≡ t) × (s'.pool ≡ q)) ⊎ ((u ≢ t) × (pool_at s.heap u ≡ some q))
    after-cases u q e = elim (Spot-discrete u t) [
      | yes same ↦
          let here = pool_at-put_pool_self s.heap t p s'.pool there in
          inl (
            same,
            ground
                (arith, here, subst (λ x. pool_at (put_pool t s'.pool s.heap) x ≡ some q) same e),
          )
      | no other ↦ inr (other, sym (pool_at-put_pool_ne s.heap t u p s'.pool there other) ∙ e)
    ]

    -- A segment that the pool has afterwards was its own, or is newer than all that there are.
    new_segment :
        (a : ℕ) (g : Segment R S)
        → find a s'.pool.segments ≡ some g
        → ((h : Segment R S) × (find a p.segments ≡ some h)) ⊎ (s.next_object ≤ a)
    new_segment a g e = elim (frame.segments a g e) [
      | inl (h, old, same) ↦ inl (h, old)
      | inr (new, own) ↦ inr new
    ]

    apart :
        (u : Spot) (q : Pool R S) (a : ℕ) (g h : Segment R S)
        → pool_at s.heap u ≡ some q
        → find a s'.pool.segments ≡ some g
        → find a q.segments ≡ some h
        → t ≡ u
    apart u q a g h e eg eh = elim (new_segment a g eg) [
      | inl (old, eo) ↦ v.one_segment t u p q a old h there e eo eh
      | inr new ↦ absurd (
          omega (arith, new, find-lt a s.next_object h q.segments (v.members u q e).sound.below eh))
    ]

    self_kept :
        (u : Spot) (q : Pool R S)
        → pool_at (after env s t s').heap u ≡ some q
        → (q' : Pool R S) × (pool_at s.heap u ≡ some q') × (q'.self ≡ q.self)
    self_kept u q e = elim (after-cases u q e) [
      | inl (same, here) ↦
          (p, ap (pool_at s.heap) same ∙ there, sym frame.self ∙ ap (λ x. x.self) here)
      | inr (other, old) ↦ (q, old, refl)
    ]

    step-Member :
        (l : Bool) (held : List (Block H))
        → s'.pool.mutex ≡ l
        → IsSound env laws s'.next_object s'.pool held
        → Member s'.next_object l s'.pool held
    step-Member l held m sound =
        let old = v.members t p there in
        let kept = own_label-eq s'.pool p frame.self frame.block_size in
        record {
          mutex = m;
          sound = sound;
          older = omega (arith, old.older, frame.self, frame.next);
          own = λ a g e. elim (frame.segments a g e) [
            | inl (h, eh, same) ↦ ((old.own a h eh).0, same ∙ (old.own a h eh).1 ∙ sym kept)
            | inr (new, own) ↦ (omega (arith, v.started, new), own ∙ sym kept)
          ];
        }

    -- So the heap stays whole.
    pub step-Whole :
        (l : Bool) (held : List (Block H))
        → s'.pool.mutex ≡ l
        → IsSound env laws s'.next_object s'.pool held
        → Whole (replaced locked t l) (after env s t s') (replaced live t held)
    step-Whole l held m sound = record {
      unlocked = (put_pool_rest s.heap t s'.pool).0 ∙ v.unlocked;
      started = omega (arith, v.started, frame.next);
      members = λ u q e. elim (after-cases u q e) [
        | inl (ut, here) ↦
            subst (λ x. Member s'.next_object (replaced locked t l x) q (replaced live t held x))
              (sym ut)
              (subst (λ x. Member s'.next_object (replaced locked t l t) x (replaced live t held t))
                here
                (subst₂ (λ b bs. Member s'.next_object b s'.pool bs)
                  (sym (replaced_self locked t l)) (sym (replaced_self live t held))
                  (step-Member l held m sound)))
        | inr (ne, old) ↦
            subst₂ (λ b bs. Member s'.next_object b q bs) (sym (replaced_ne locked t u l ne))
              (sym (replaced_ne live t u held ne))
              (Member-later s.next_object s'.next_object (locked u) q (live u) frame.next
                (v.members u q old))
      ];
      nowhere = λ u e. elim (Spot-discrete u t) [
        | yes same ↦
            let here = pool_at-put_pool_self s.heap t p s'.pool there in
            absurd (
              ground
                (arith, here, subst (λ x. pool_at (put_pool t s'.pool s.heap) x ≡ none) same e))
        | no other ↦
            let old =
              v.nowhere u (sym (pool_at-put_pool_ne s.heap t u p s'.pool there other) ∙ e) in
            (replaced_ne live t u held other ∙ old.0, replaced_ne locked t u l other ∙ old.1)
      ];
      one_pool = λ u w q r eq er same.
          let (q', oldq, sq) = self_kept u q eq in
          let (r', oldr, sr) = self_kept w r er in
          v.one_pool u w q' r' oldq oldr (sq ∙ same ∙ sym sr);
      one_segment = λ u w q r a g h eq er eg eh. elim (after-cases u q eq) [
        | inl (ut, hereq) ↦ elim (after-cases w r er) [
          | inl (wt, herer) ↦ ut ∙ sym wt
          | inr (wne, oldr) ↦
              ut ∙ apart w r a g h oldr (subst (λ x. find a x.segments ≡ some g) (sym hereq) eg) eh
        ]
        | inr (une, oldq) ↦ elim (after-cases w r er) [
          | inl (wt, herer) ↦ sym (
              wt ∙ apart u q a h g oldq (subst (λ x. find a x.segments ≡ some h) (sym herer) eh) eg)
          | inr (wne, oldr) ↦ v.one_segment u w q r a g h oldq oldr eg eh
        ]
      ];
    }

    -- If the mutex is as it was, so is what is known of it.
    pub step-Whole_same :
        (held : List (Block H))
        → s'.pool.mutex ≡ locked t
        → IsSound env laws s'.next_object s'.pool held
        → Whole locked (after env s t s') (replaced live t held)
    step-Whole_same held m sound =
        subst (λ l. Whole l (after env s t s') (replaced live t held)) (replaced_old locked t)
          (step-Whole (locked t) held m sound)

    -- And so for the blocks.
    pub step-Whole_locks :
        s'.pool.mutex ≡ true
        → IsSound env laws s'.next_object s'.pool (live t)
        → Whole (replaced locked t true) (after env s t s') live
    step-Whole_locks m sound =
        subst (λ held. Whole (replaced locked t true) (after env s t s') held) (replaced_old live t)
          (step-Whole true (live t) m sound)
