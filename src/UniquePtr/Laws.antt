-- ===== src/UniquePtr/Laws.antt =====
-- The objects that arrays of include/hwmalloc/fancy_ptr/unique_ptr.hpp and include/hwmalloc/heap.hpp
-- are made of.
use hwmalloc.Base.{ℕ, zero, suc, ◌+◌, ◌≤◌, ◌≡◌, Bool, true, false, arith, ◌==◌, if◌then◌else◌}
use hwmalloc.Platform.{Block}
use hwmalloc.UniquePtr.{Element, address, undo, construct_from, destroy_from, delete_array}

-- 1 if a call made or destroyed an object at this address.
abbrev pub at : ℕ → ℕ → ℕ
at a x = if a == x then 1 else 0

abbrev pub at_if : Bool → ℕ → ℕ → ℕ
at_if true a x = at a x
at_if false a x = 0

-- What the constructors and the destructor do to the number of objects at an address.
pub record CountsObjects {W : Type 0} (t : Element W) (objects : ℕ → W → ℕ) : Type 0 where
  pub constructed :
      (a x : ℕ) (w : W)
      → objects x (t.construct a w).1 ≡ objects x w + at_if (t.construct a w).0 a x
  pub destroyed :
      (a x : ℕ) (w : W) → 1 ≤ objects a w → objects x (t.destroy a w) + at a x ≡ objects x w

module _ {W : Type 0} (t : Element W) (objects : ℕ → W → ℕ) (laws : CountsObjects t objects)
    (ptr : ℕ) where
  -- How many of k elements from i on lie at an address.
  abbrev hits : ℕ → ℕ → ℕ → ℕ
  hits i zero x = 0
  hits i (suc k) x = at (address t ptr i) x + hits (suc i) k x

  -- All k elements were made, or none is left.
  abbrev Made : ℕ → ℕ → W → Bool × W → Type 0
  Made i k w (true, w') = (x : ℕ) → objects x w' ≡ objects x w + hits i k x
  Made i k w (false, w') = (x : ℕ) → objects x w' ≡ objects x w

  undo-Made :
      (i k : ℕ) (w w' : W) (r : Bool × W)
      → ((x : ℕ) → objects x w' ≡ objects x w + at (address t ptr i) x)
      → Made (suc i) k w' r
      → Made i (suc k) w (undo t (address t ptr i) r)
  undo-Made i k w w' (true, v) new m = λ x. omega (arith, new x, m x)
  undo-Made i k w w' (false, v) new m =
      let a = address t ptr i in
      let here : at a a ≡ 1 = ground arith in
      λ x. omega (arith, new x, m x, laws.destroyed a x v (omega (arith, new a, m a, here)))

  next-Made :
      (i k : ℕ) (w : W) (y : Bool × W)
      → ((x : ℕ) → objects x y.1 ≡ objects x w + at_if y.0 (address t ptr i) x)
      → Made (suc i) k y.1 (construct_from t ptr (suc i) k y.1)
      → Made i (suc k) w (
          if y.0
          then undo t (address t ptr i) (construct_from t ptr (suc i) k y.1)
          else (false, y.1))
  next-Made i k w (true, w') new rest = undo-Made i k w w' _ new rest
  next-Made i k w (false, w') new rest = λ x. omega (arith, new x)

  construct_from-Made : (i k : ℕ) (w : W) → Made i k w (construct_from t ptr i k w)
  unfolding construct_from
  construct_from-Made i zero w = λ x. omega arith
  construct_from-Made i (suc k) w =
      let a = address t ptr i in
      next-Made i k w (t.construct a w) (λ x. laws.constructed a x w)
        (construct_from-Made (suc i) k (t.construct a w).1)

  destroy_from-objects :
      (i k : ℕ) (w : W)
      → ((x : ℕ) → hits i k x ≤ objects x w)
      → (x : ℕ) → objects x (destroy_from t ptr i k w) + hits i k x ≡ objects x w
  unfolding destroy_from
  destroy_from-objects i zero w h x = omega arith
  destroy_from-objects i (suc k) w h x =
      let a = address t ptr i in
      let here : at a a ≡ 1 = ground arith in
      let gone = λ (x : ℕ). laws.destroyed a x w (omega (arith, h a, here)) in
      let rest =
        destroy_from-objects (suc i) k (t.destroy a w) (λ x. omega (arith, gone x, h x)) x in
      omega (arith, rest, gone x)

module _ {W H : Type 0} (t : Element W) (objects : ℕ → W → ℕ) (release : Block H → W → W) where
  -- As many objects at an address as in w: at once if a constructor threw, and else after the
  -- deleter has run.
  abbrev pub Clean : Block H → ℕ → W → ℕ → Bool × W → Type 0
  Clean b n w x (true, w') =
      objects x (delete_array t release (record { block = b; size = n }) w') ≡ objects x w
  Clean b n w x (false, w') = objects x w' ≡ objects x w

  Made-Clean :
      (laws : CountsObjects t objects) (b : Block H) (n : ℕ) (w : W) (x : ℕ) (r : Bool × W)
      → ((b : Block H) (x : ℕ) (w : W) → objects x (release b w) ≡ objects x w)
      → Made t objects laws b.ptr 0 n w r
      → Clean b n w x r
  unfolding delete_array
  Made-Clean laws b n w x (true, w') keeps m = omega (
    arith,
    keeps b x (destroy_from t b.ptr 0 n w'),
    destroy_from-objects t objects laws b.ptr 0 n w' (λ x. omega (arith, m x)) x,
    m x,
  )
  Made-Clean laws b n w x (false, w') keeps m = m x

  -- An array that could not be made leaves no object behind, and one that was made leaves none after
  -- its deleter has run: at every address there are as many objects as before.
  pub construct_from-Clean :
      (laws : CountsObjects t objects) (b : Block H) (n : ℕ) (w : W) (x : ℕ)
      → ((b : Block H) (x : ℕ) (w : W) → objects x (release b w) ≡ objects x w)
      → Clean b n w x (construct_from t b.ptr 0 n w)
  construct_from-Clean laws b n w x keeps =
      Made-Clean laws b n w x (construct_from t b.ptr 0 n w) keeps
        (construct_from-Made t objects laws b.ptr 0 n w)
