-- ===== src/Threads/Moves.antt =====
-- The accesses of a thread to a pool (include/hwmalloc/detail/pool.hpp) that write to no segment.
pub mod Turns
use native.Mathlib.Decide.{dec_le}
use hwmalloc.Base.{
  ℕ, zero, suc, ◌+◌, ◌≤◌, ◌≡◌, inl, inr, refl, sym, ap, ◌∙◌, Bool, true, false, none, some, List,
  [], ◌∷◌, arith, count, if◌then◌else◌, ◌⊎◌, Option-cases,
}
use hwmalloc.Platform.{Block, Platform, IsStack}
use hwmalloc.Pool.Pages.{CanGrow-same}
use hwmalloc.Threads.{Thread, Shared, locks, uncounted, unsubtracted, needs, broken}
use hwmalloc.Threads.Turn.{take_at}
use hwmalloc.Threads.Invariant.{Found, moved, Inv}

-- Taking a member out of a list loses nothing else.
pub take_at-count :
    {A : Type 0} (q : A → Bool) (xs : List A) (i : ℕ) (y : A) (ys : List A)
    → take_at xs i ≡ some (y, ys)
    → count q xs ≡ count q (y ∷ ys)
take_at-count q [] i y ys e = cc
take_at-count q (x ∷ xs) zero y ys e = ground arith
take_at-count q (x ∷ xs) (suc i) y ys e = elim (Option-cases (take_at xs i)) [
  | inl gone ↦ ground arith
  | inr ((z, zs), there) ↦ ground (arith, take_at-count q xs i z zs there)
]

module _ {W R H S : Type 0} (env : Platform W R H S) (laws : IsStack env.stack) where
  open laws use {contents, capacity}

  -- The invariant with the thread that has moved, and the others.
  abbrev pub Good : List (Thread H) → Shared W R H S × Thread H → Type 0
  Good r y = Inv env laws y.0 (y.1 ∷ r)

  pub if-Good :
      (r : List (Thread H)) (m : Bool) (y z : Shared W R H S × Thread H)
      → (m ≡ true → Good r y)
      → (m ≡ false → Good r z)
      → Good r (if m then y else z)
  if-Good r true y z h k = h refl
  if-Good r false y z h k = k refl

  -- Another free stack, lock and list of held blocks.
  abbrev pub rearranged : S → Bool → List (Block H) → Shared W R H S → Shared W R H S
  rearranged f m held x = record {
    state = record x.state { pool = record x.state.pool { free_stack = f; mutex = m } };
    held = held;
  }

  -- What a thread that goes on may not change but in step with what is shared.
  pub record Fits (x : Shared W R H S) (f : S) (m : Bool) (held : List (Block H)) (t t' : Thread H)
      : Type 0 where
    pub blocks :
        (q : Block H → Bool)
        → count q (contents f) + count q held + moved q t'
          ≡ count q (contents x.state.pool.free_stack) + count q x.held + moved q t
    pub lock : locks t' + (if x.state.pool.mutex then 1 else 0) ≡ locks t + (if m then 1 else 0)
    pub not_counted : (a : ℕ) → uncounted a t' ≡ uncounted a t
    pub not_subtracted : (a : ℕ) → unsubtracted a t' ≡ unsubtracted a t
    pub need : (a : ℕ) → 1 ≤ needs a t' → Found a x.state.pool.segments
    pub whole : broken t' ≡ 0

  pub rearranged-Inv :
      (x : Shared W R H S) (f : S) (m : Bool) (held : List (Block H)) (t t' : Thread H)
      (r : List (Thread H))
      → Inv env laws x (t ∷ r)
      → capacity f ≡ none
      → Fits x f m held t t'
      → Inv env laws (rearranged f m held x) (t' ∷ r)
  rearranged-Inv x f m held t t' r v d fits = record {
    can_grow = CanGrow-same env x.state.pool _ refl refl v.can_grow;
    block_size = v.block_size;
    few = omega (arith, v.few);
    grows = d;
    below = v.below;
    used = λ a g e.
        let u = v.used a g e in
        record {
          room = u.room;
          small = u.small;
          sized = u.sized;
          extent = u.extent;
          extent_small = u.extent_small;
          num_small = u.num_small;
          own = u.own;
          counted = rw (fits.not_counted a, fits.not_subtracted a) u.counted;
        };
    balanced = λ q. omega (arith, v.balanced q, fits.blocks q);
    locked = omega (arith, v.locked, fits.lock);
    needed = λ a h. elim (dec_le 1 (needs a t')) [
      | yes here ↦ fits.need a here
      | no miss ↦ v.needed a (omega arith)
    ];
    to_count = λ a h. v.to_count a (omega (arith, fits.not_counted a));
    unbroken = omega (arith, v.unbroken, fits.whole);
  }

  -- The shared part stays.
  pub stay-Inv :
      (x : Shared W R H S) (t t' : Thread H) (r : List (Thread H))
      → Inv env laws x (t ∷ r)
      → Fits x x.state.pool.free_stack x.state.pool.mutex x.held t t'
      → Inv env laws x (t' ∷ r)
  stay-Inv x t t' r v fits =
      rearranged-Inv x x.state.pool.free_stack x.state.pool.mutex x.held t t' r v v.grows fits

  -- What `pop` gives: nothing, or the block that the stack loses.
  pub record Popped (f : S) (b : Block H) (f' : S) : Type 0 where
    pub result : env.stack.pop f ≡ some (b, f')
    pub same : capacity f' ≡ capacity f
    pub top : contents f ≡ b ∷ contents f'

  pub pop-cases : (f : S) → (env.stack.pop f ≡ none) ⊎ ((b : Block H) × (f' : S) × Popped f b f')
  pop-cases f = by_contents (contents f) refl
    where
      by_contents :
          (bs : List (Block H))
          → contents f ≡ bs
          → (env.stack.pop f ≡ none) ⊎ ((b : Block H) × (f' : S) × Popped f b f')
      by_contents [] e = inl (laws.pop-empty f e)
      by_contents (b ∷ bs) e =
          let (f', p, c, cap) = laws.pop-cons f b bs e in
          inr (b, f', record { result = p; same = cap; top = e ∙ ap (◌∷◌ b) (sym c) })
