-- ===== src/Ptr/Laws.antt =====
-- The arithmetic of the fancy pointers (include/hwmalloc/fancy_ptr/ptr.hpp).
use native.Mathlib.Nat.{mul-div_cancel}
use hwmalloc.Base.{
  ℕ, ◌+◌, ◌*◌, ◌≤◌, ◌<◌, ◌≡◌, refl, arith, add_size, mul_size, size_mod, le→leb, ◌-◌,
}
use hwmalloc.Ptr.{
  HwPtr, get, device_ptr, move_to, advance, retreat, increment, decrement, post_increment,
  post_decrement, difference,
}

module _ {H : Type 0} (size : ℕ) where
  -- The distance to where a pointer was is the number of elements that it was moved by.
  pub difference-advance :
      (p : HwPtr H) (n : ℕ)
      → 1 ≤ size
      → get p + n * size < size_mod
      → difference size (advance size p n) p ≡ n
  unfolding get move_to advance difference
  difference-advance p n pos small =
      let e : add_size (get p) (mul_size n size) ≡ get p + n * size = omega arith in
      let d : get p + n * size - get p ≡ n * size = omega arith in
      rw (e, le→leb (get p) (get p + n * size) (omega arith), d) (mul-div_cancel n pos)

  -- The postfix operators leave the object as the prefix ones, which move it by one element, and
  -- their value is the pointer as it was.
  pub post_increment-increment :
      (p : HwPtr H)
      → size < size_mod
      → (post_increment size p ≡ (p, increment size p))
        × (increment size p ≡ advance size p 1)
        × (post_decrement size p ≡ (p, decrement size p))
        × (decrement size p ≡ retreat size p 1)
  unfolding post_increment post_decrement increment decrement advance retreat move_to get device_ptr
  post_increment-increment p h =
      let e : mul_size 1 size ≡ size = omega arith in (refl, rw e refl, refl, rw e refl)
