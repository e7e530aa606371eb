-- ===== src/Segment/Cover.antt =====
-- The memory of the blocks of a segment (include/hwmalloc/detail/segment.hpp), byte by byte.
use native.Mathlib.Nat.{mod-eq_of_lt}
use native.Mathlib.Decide.{dec_le}
use hwmalloc.Base.{
  ℕ, zero, suc, ◌+◌, ◌*◌, ◌≤◌, ◌<◌, ◌≡◌, refl, ap, Bool, ◌&&◌, arith, count, leb, ltb, size_mod,
}
use hwmalloc.Platform.{Block, Platform}
use hwmalloc.Segment.{Segment, block_at, blocks_down}

-- The test whether the byte at an address is one of the `size` bytes of a block.
abbrev pub covers : {H : Type 0} → ℕ → ℕ → Block H → Bool
covers size x b = leb b.ptr x && ltb x (b.ptr + size)

module _ {W R H S : Type 0} (env : Platform W R H S) (a : ℕ) (g : Segment R S) (x : ℕ) where
  abbrev here : Block H → Bool
  here = covers g.block_size x

  -- Without wrapping block k begins k block sizes behind the origin.
  ptr-block_at :
      (k : ℕ)
      → k * g.block_size < size_mod
      → (block_at env a g k).ptr ≡ g.allocation.ptr + k * g.block_size
  unfolding block_at
  ptr-block_at k h = ap (λ o. g.allocation.ptr + o) (mod-eq_of_lt h)

  count-covers_above :
      (n : ℕ)
      → n * g.block_size < size_mod
      → g.allocation.ptr + n * g.block_size ≤ x
      → count here (blocks_down env a g n) ≡ 0
  unfolding blocks_down
  count-covers_above zero h above = refl
  count-covers_above (suc n) h above =
      let e = ptr-block_at n (omega arith) in
      ground (arith, e, count-covers_above n (omega arith) (omega arith))

  -- If the blocks do not wrap around the address space, no byte lies in two of them.
  pub count-covers : (n : ℕ) → n * g.block_size < size_mod → count here (blocks_down env a g n) ≤ 1
  unfolding blocks_down
  count-covers zero h = omega arith
  count-covers (suc n) h = elim (dec_le (g.allocation.ptr + n * g.block_size) x) [
    | yes above ↦ ground (arith, count-covers_above n (omega arith) above)
    | no below ↦
        let e = ptr-block_at n (omega arith) in ground (arith, e, count-covers n (omega arith))
  ]
