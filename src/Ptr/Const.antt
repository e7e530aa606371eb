-- ===== src/Ptr/Const.antt =====
-- include/hwmalloc/fancy_ptr/const_void_ptr.hpp and const_ptr.hpp: pointers to const. The arithmetic
-- of const_ptr.hpp is left out, since it does not compile when it is used.
use hwmalloc.Base.{ℕ, ◌-◌, ◌/◌, Bool, not, leb, ◌==◌, if◌then◌else◌, sub_size}
use hwmalloc.Platform.{Block}
use hwmalloc.Ptr.{HwPtr, null_ptr}

-- `hw_void_ptr<Block, void const*>`
pub record ConstVoidPtr (H : Type 0) : Type 0 where
  pub block : Block H

-- `hw_ptr<const T, Block>`
pub record ConstPtr (H : Type 0) : Type 0 where
  pub void_ptr : ConstVoidPtr H

module _ {H : Type 0} where
  -- The constructors of the void pointer: null, and from a pointer that is not to const.
  unfoldable pub null_const_void : H → ConstVoidPtr H
  null_const_void null_handle = record { block = (null_ptr null_handle).block }

  unfoldable pub const_void_of : HwPtr H → ConstVoidPtr H
  const_void_of p = record { block = p.block }

  -- `operator=(nullptr)`
  unfoldable pub assign_null_void : ConstVoidPtr H → ConstVoidPtr H
  assign_null_void p = record { block = record p.block { ptr = 0 } }

  -- `get`, `device_ptr`, the comparisons and `operator bool` of the void pointer
  unfoldable pub get_void : ConstVoidPtr H → ℕ
  get_void p = p.block.ptr

  unfoldable pub device_ptr_void : ConstVoidPtr H → ℕ
  device_ptr_void p = p.block.device_ptr

  unfoldable pub equal_void : ConstVoidPtr H → ConstVoidPtr H → Bool
  equal_void p q = p.block.ptr == q.block.ptr

  unfoldable pub not_equal_void : ConstVoidPtr H → ConstVoidPtr H → Bool
  not_equal_void p q = not (p.block.ptr == q.block.ptr)

  unfoldable pub is_set_void : ConstVoidPtr H → Bool
  is_set_void p = not (p.block.ptr == 0)

  -- The constructors of the typed pointer: null, from one that is not to const, and from a void
  -- pointer, which is the conversion of the latter.
  unfoldable pub null_const : H → ConstPtr H
  null_const null_handle = record { void_ptr = null_const_void null_handle }

  unfoldable pub const_of : HwPtr H → ConstPtr H
  const_of p = record { void_ptr = const_void_of p }

  unfoldable pub of_const_void : ConstVoidPtr H → ConstPtr H
  of_const_void p = record { void_ptr = p }

  unfoldable pub to_const_void : ConstPtr H → ConstVoidPtr H
  to_const_void p = p.void_ptr

  -- `operator=(nullptr)`
  unfoldable pub assign_null : ConstPtr H → ConstPtr H
  assign_null p = record p { void_ptr = assign_null_void p.void_ptr }

  -- `get`, `operator->` and `operator*`, `device_ptr`, the comparisons and `operator bool`
  unfoldable pub get : ConstPtr H → ℕ
  get p = get_void p.void_ptr

  unfoldable pub device_ptr : ConstPtr H → ℕ
  device_ptr p = device_ptr_void p.void_ptr

  unfoldable pub equal : ConstPtr H → ConstPtr H → Bool
  equal p q = equal_void p.void_ptr q.void_ptr

  unfoldable pub not_equal : ConstPtr H → ConstPtr H → Bool
  not_equal p q = not_equal_void p.void_ptr q.void_ptr

  unfoldable pub is_set : ConstPtr H → Bool
  is_set p = is_set_void p.void_ptr

  -- `operator-` of two pointers into the same array, of elements of the given size.
  unfoldable pub difference : ℕ → ConstPtr H → ConstPtr H → ℕ
  difference size p q =
      if leb (get q) (get p) then (get p - get q) / size else sub_size 0 ((get q - get p) / size)
