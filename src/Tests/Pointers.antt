-- ===== src/Tests/Pointers.antt =====
-- A pointer to elements of 8 bytes (include/hwmalloc/fancy_ptr/ptr.hpp).
use hwmalloc.Base.{ℕ, ◌≡◌, refl}
use hwmalloc.Ptr.{HwPtr, null_ptr, get, device_ptr, move_to, advance, retreat}

abbrev p : HwPtr ℕ
p = record {
  block = record (null_ptr 0).block { segment = 1; ptr = 4096; device_ptr = 64; device_id = 2 };
}

abbrev host : HwPtr ℕ
host = record { block = record p.block { device_ptr = 0 } }

-- Both addresses move; one on the device that is null does not.
advance_both : (get (advance 8 p 3) ≡ 4120) × (device_ptr (advance 8 p 3) ≡ 88)
unfolding get device_ptr advance move_to
advance_both = (refl, refl)

advance_host : (get (advance 8 host 3) ≡ 4120) × (device_ptr (advance 8 host 3) ≡ 0)
unfolding get device_ptr advance move_to
advance_host = (refl, refl)

retreat_back : retreat 8 (advance 8 p 3) 3 ≡ p
unfolding get device_ptr advance retreat move_to
retreat_back = refl
