-- ===== src/Tests/Arrays.antt =====
-- Arrays of include/hwmalloc/fancy_ptr/unique_ptr.hpp whose elements are counted by address.
use hwmalloc.Base.{ℕ, ◌+◌, ◌-◌, ◌≡◌, refl, Bool, true, false, arith, ◌==◌, if◌then◌else◌}
use hwmalloc.Platform.{Block}
use hwmalloc.UniquePtr.{Element, construct_from}
use hwmalloc.UniquePtr.Laws.{CountsObjects, at, at_if, Clean, construct_from-Clean}

-- The constructor of an element of 8 bytes, which throws at address 1024.
abbrev counted : Element (ℕ → ℕ)
counted = record {
  size = 8;
  construct = λ a w. if a == 1024 then (false, w) else (true, λ x. w x + at a x);
  destroy = λ a w x. w x - at a x;
}

made_or_not :
    (m : Bool) (a x : ℕ) (w : ℕ → ℕ)
    → let r : Bool × (ℕ → ℕ) = if m then (false, w) else (true, λ x. w x + at a x) in
      r.1 x ≡ w x + at_if r.0 a x
made_or_not true a x w = omega arith
made_or_not false a x w = refl

counted-CountsObjects : CountsObjects counted (λ x w. w x)
counted-CountsObjects = record {
  constructed = λ a x w. made_or_not (a == 1024) a x w;
  destroyed = λ a x w h. ground arith;
}

abbrev block : Block ℕ
block = record {
  segment = 1;
  user_allocation = 0;
  ptr = 1008;
  handle = 0;
  device_ptr = 0;
  device_handle = 0;
  device_id = 0;
}

construct_from-Clean_example :
    Clean counted
      (λ x w. w x)
      (λ b w. w)
      block
      3
      (λ x. 0)
      1008
      (construct_from counted 1008 0 3 (λ x. 0))
construct_from-Clean_example =
    construct_from-Clean counted (λ x w. w x) (λ b w. w) counted-CountsObjects block 3 (λ x. 0) 1008
      (λ b x w. refl)
