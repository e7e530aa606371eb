-- ===== src/Allocator/Laws.antt =====
-- Comparison and size computation of include/hwmalloc/allocator.hpp.
use hwmalloc.Base.{
  ℕ, ◌+◌, ◌*◌, ◌≤◌, ◌<◌, ◌≡◌, ◌^◌, refl, Bool, true, false, not, ◌&&◌, ◌||◌, ◌==◌, eq→==, arith,
  size_mod,
}
use hwmalloc.Config.{HeapConfig, Settings, ok, heap_config, tiny_increment}
use hwmalloc.Config.Valid.{InRange}
use hwmalloc.Platform.{Platform}
use hwmalloc.Heap.Slots.{Served, locate-Served}
use hwmalloc.Allocator.{Allocator, rebound, assign, equal, not_equal, swap, request}

de_morgan : (x y : Bool) → (not x || not y) ≡ not (x && y)
de_morgan true y = refl
de_morgan false y = refl

equal_self : (a : Allocator) → equal a a ≡ true
unfolding equal
equal_self a = rw (eq→== a.heap a.heap refl, eq→== a.numa_node a.numa_node refl) refl

-- `!=` is the negation of `==`, a copy for another value type and an assigned allocator are equal to
-- the one they come from, and swapping twice changes nothing.
pub not_equal_lem :
    (a b : Allocator)
    → (not_equal a b ≡ not (equal a b))
      × (equal (rebound a) a ≡ true)
      × (equal (assign b a) a ≡ true)
      × (swap (swap (a, b)) ≡ (a, b))
unfolding equal not_equal rebound assign swap
not_equal_lem a b =
    (de_morgan (a.heap == b.heap) (a.numa_node == b.numa_node), equal_self a, equal_self a, refl)

-- A request for elements whose bytes do not fit a `std::size_t` is not refused: with an accepted
-- configuration it is served with fewer than twice as many bytes, plus 8, as are left over 2 ^ 64.
pub request_wraps :
    {W R H S : Type 0} (env : Platform W R H S) (s : Settings) (c : HeapConfig) (w : W)
    (next size n left : ℕ)
    → InRange s
    → heap_config s ≡ ok c
    → tiny_increment ≤ c.tiny_limit
    → c.large_limit < 2 ^ 31
    → n * size ≡ size_mod + left
    → 1 ≤ left
    → left ≤ 2 ^ 31
    → (v : Served env c w next (request size n)) × (v.heap.block_size < 2 * left + 8)
unfolding request
request_wraps env s c w next size n left r e tiny_min large_max wraps lo hi =
    let small : request size n ≡ left = omega (arith, wraps) in
    let v =
      locate-Served env s c w next (request size n) r e tiny_min large_max (omega (arith, small))
        (omega (arith, small)) in
    (v, omega (arith, small, v.sized.block_size, v.fits.tight))
