-- ===== src/Pool/Frame.antt =====
-- What the calls of a pool (include/hwmalloc/detail/pool.hpp) leave as it is: the pool's own address
-- and sizes, and the segments, but for new ones, which have new addresses and point to the pool.
pub mod Grows
pub mod Calls
pub mod Frees
use hwmalloc.Base.{
  subst, ℕ, ◌≤◌, ◌≡◌, ◌⊎◌, inl, inr, refl, sym, ap, ◌∙◌, Bool, true, false, some, List, arith,
  if◌then◌else◌,
}
use hwmalloc.Outcome.{
  Leaves, Outcome, returns, throws, hangs, undefined, Call, and_then, ◌>>=◌, return,
}
use hwmalloc.Segment.{Segment}
use hwmalloc.Pool.{Pool, State, find, lock, unlock, set_pool}

-- P holds of the state after a call that ends.
abbrev pub After : {S A : Type 0} → (S → Type 0) → Outcome S A → Type 0
After P (returns a s) = P s
After P (throws e s) = P s
After P hangs = Unit {0}
After P undefined = Unit {0}

pub Leaves-After :
    {S : Type 0} (P : S → Type 0) (s : S) (o : Outcome S (Unit {0})) → Leaves s o → After P o → P s
Leaves-After P s o (inl e) h = subst (After P) e h
Leaves-After P s o (inr (x, e)) h = subst (After P) e h

pub and_then-After :
    {S A B : Type 0} (P Q : S → Type 0) (o : Outcome S A) (f : A → Call S B)
    → After P o
    → ((s : S) → P s → Q s)
    → ((a : A) (s : S) → P s → After Q (f a s))
    → After Q (and_then o f)
and_then-After P Q (returns a s) f h k l = l a s h
and_then-After P Q (throws e s) f h k l = k s h
and_then-After P Q hangs f h k l = tt
and_then-After P Q undefined f h k l = tt

pub if-After :
    {S A : Type 0} (P : S → Type 0) (b : Bool) (o o' : Outcome S A)
    → After P o
    → After P o'
    → After P (if b then o else o')
if-After P true o o' h k = h
if-After P false o o' h k = k

-- The pool that a segment belongs to, and the size of its blocks.
abbrev pub label : {R S : Type 0} → Segment R S → ℕ × ℕ
label g = (g.pool, g.block_size)

abbrev pub own_label : {R S : Type 0} → Pool R S → ℕ × ℕ
own_label p = (p.self, p.block_size)

pub own_label-eq :
    {R S : Type 0} (p q : Pool R S)
    → p.self ≡ q.self
    → p.block_size ≡ q.block_size
    → own_label p ≡ own_label q
own_label-eq p q a b = cc

-- Every segment was there, and has the label that it had, or is new, and has that of the pool.
abbrev pub Segments :
    {R S : Type 0} → ℕ → ℕ × ℕ → List (ℕ × Segment R S) → List (ℕ × Segment R S) → Type 0
Segments {R} {S} next own before later =
    (a : ℕ) (g : Segment R S)
    → find a later ≡ some g
    → ((h : Segment R S) × (find a before ≡ some h) × (label g ≡ label h))
      ⊎ ((next ≤ a) × (label g ≡ own))

pub record Frame {W R S : Type 0} (s s' : State W R S) : Type 0 where
  pub next : s.next_object ≤ s'.next_object
  pub self : s'.pool.self ≡ s.pool.self
  pub block_size : s'.pool.block_size ≡ s.pool.block_size
  pub segment_size : s'.pool.segment_size ≡ s.pool.segment_size
  pub segments : Segments s.next_object (own_label s.pool) s.pool.segments s'.pool.segments

module _ {W R S : Type 0} where
  pub Frame-refl : (s : State W R S) → Frame s s
  Frame-refl s = record {
    next = omega arith;
    self = refl;
    block_size = refl;
    segment_size = refl;
    segments = λ a g e. inl (g, e, refl);
  }

  -- Only the address, the sizes and the segments of the pool matter.
  pub Frame-same :
      (s s' : State W R S)
      → s.next_object ≤ s'.next_object
      → s'.pool.self ≡ s.pool.self
      → s'.pool.block_size ≡ s.pool.block_size
      → s'.pool.segment_size ≡ s.pool.segment_size
      → s'.pool.segments ≡ s.pool.segments
      → Frame s s'
  Frame-same s s' n a b g same = record {
    next = n;
    self = a;
    block_size = b;
    segment_size = g;
    segments = λ k h e. inl (h, ap (find k) (sym same) ∙ e, refl);
  }

  pub Frame-trans : (s t u : State W R S) → Frame s t → Frame t u → Frame s u
  Frame-trans s t u f g = record {
    next = omega (arith, f.next, g.next);
    self = g.self ∙ f.self;
    block_size = g.block_size ∙ f.block_size;
    segment_size = g.segment_size ∙ f.segment_size;
    segments = λ a k e. elim (g.segments a k e) [
      | inl (h, e1, same) ↦ elim (f.segments a h e1) [
        | inl (h2, e2, same2) ↦ inl (h2, e2, same ∙ same2)
        | inr (new, own) ↦ inr (new, same ∙ own)
      ]
      | inr (new, own) ↦
          inr (omega (arith, new, f.next), own ∙ own_label-eq t.pool s.pool f.self f.block_size)
    ];
  }

  -- A call that keeps to the frame, wherever it starts.
  abbrev pub Keeps : {A : Type 0} → Call (State W R S) A → Type 0
  Keeps m = (s : State W R S) → After (Frame s) (m s)

  pub >>=-Keeps :
      {A B : Type 0} (m : Call (State W R S) A) (f : A → Call (State W R S) B)
      → Keeps m
      → ((a : A) → Keeps (f a))
      → Keeps (m >>= f)
  >>=-Keeps m f h k s =
      and_then-After (Frame s) (Frame s) (m s) f (h s) (λ s' p. p)
        (λ a s' p. After-mono (f a s') s s' p (k a s'))
    where
      After-mono :
          {C : Type 0} (o : Outcome (State W R S) C) (s s' : State W R S)
          → Frame s s'
          → After (Frame s') o
          → After (Frame s) o
      After-mono (returns a t) s s' p q = Frame-trans s s' t p q
      After-mono (throws e t) s s' p q = Frame-trans s s' t p q
      After-mono hangs s s' p q = tt
      After-mono undefined s s' p q = tt

  pub if-Keeps :
      {A : Type 0} (b : Bool) (f g : Call (State W R S) A)
      → Keeps f
      → Keeps g
      → Keeps (if b then f else g)
  if-Keeps true f g h k = h
  if-Keeps false f g h k = k

  pub return-Keeps : {A : Type 0} (a : A) → Keeps (return a)
  return-Keeps a s = Frame-refl s

  pub lock-Keeps : Keeps lock
  unfolding lock set_pool
  lock-Keeps s =
      if-After (Frame s) s.pool.mutex hangs _ tt (Frame-same s _ (omega arith) refl refl refl refl)

  pub unlock-Keeps : Keeps unlock
  unfolding unlock set_pool
  unlock-Keeps s = Frame-same s _ (omega arith) refl refl refl refl
