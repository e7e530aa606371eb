-- ===== src/Ptr.antt =====
-- include/hwmalloc/fancy_ptr/ptr.hpp, const_ptr.hpp, void_ptr.hpp and const_void_ptr.hpp: pointers
-- that carry the block they point into. The const versions have the same members and operations.
pub mod Laws
pub mod Const
pub mod Release
use hwmalloc.Base.{ℕ, ◌-◌, ◌/◌, Bool, not, leb, ◌==◌, if◌then◌else◌, add_size, sub_size, mul_size}
use hwmalloc.Platform.{Block, on_device}

-- `hw_void_ptr`, and the only member of `hw_ptr`.
pub record HwPtr (H : Type 0) : Type 0 where
  pub block : Block H

module _ {H : Type 0} where
  -- `hw_void_ptr()`: the default members of a block.
  abbrev pub null_ptr : H → HwPtr H
  null_ptr null_handle = record {
    block = record {
      segment = 0;
      user_allocation = 0;
      ptr = 0;
      handle = null_handle;
      device_ptr = 0;
      device_handle = null_handle;
      device_id = 0;
    };
  }

  -- `operator=(nullptr)`: only the address is reset.
  unfoldable pub assign_null : HwPtr H → HwPtr H
  assign_null p = record { block = record p.block { ptr = 0 } }

  unfoldable pub get : HwPtr H → ℕ
  get p = p.block.ptr

  unfoldable pub device_ptr : HwPtr H → ℕ
  device_ptr p = p.block.device_ptr

  -- `operator==`, `operator!=` and `operator bool`
  unfoldable pub equal : HwPtr H → HwPtr H → Bool
  equal p q = get p == get q

  unfoldable pub not_equal : HwPtr H → HwPtr H → Bool
  not_equal p q = not (get p == get q)

  unfoldable pub is_set : HwPtr H → Bool
  is_set p = not (get p == 0)

  unfoldable pub handle : HwPtr H → H
  handle p = p.block.handle

  unfoldable pub device_handle : HwPtr H → H
  device_handle p = p.block.device_handle

  unfoldable pub device_id : HwPtr H → ℕ
  device_id p = p.block.device_id

  unfoldable pub is_on_device : HwPtr H → Bool
  is_on_device p = on_device p.block

  -- The conversions from a block, between the void pointer and one to a type, and to a plain pointer.
  unfoldable pub of_block : Block H → HwPtr H
  of_block b = record { block = b }

  unfoldable pub to_void : HwPtr H → HwPtr H
  to_void p = p

  unfoldable pub of_void : HwPtr H → HwPtr H
  of_void p = p

  -- The void pointer's `operator=` from one to a type, and `to_address` of std::pointer_traits.
  unfoldable pub assign_typed : HwPtr H → HwPtr H → HwPtr H
  assign_typed p q = to_void q

  unfoldable pub to_address : HwPtr H → ℕ
  to_address p = get p

  -- `handle_ref`, when something is assigned to it.
  unfoldable pub set_handle : HwPtr H → H → HwPtr H
  set_handle p h = record { block = record p.block { handle = h } }

  -- Both addresses; that of the device only if there is one.
  unfoldable pub move_to : HwPtr H → ℕ → ℕ → HwPtr H
  move_to p host device = record {
    block = record p.block {
      ptr = host;
      device_ptr = if p.block.device_ptr == 0 then p.block.device_ptr else device;
    };
  }

  -- `size` is that of the element type; a `ptrdiff_t` is its 64-bit pattern.
  module _ (size : ℕ) where
    -- `operator+=` and `operator-=`
    unfoldable pub advance : HwPtr H → ℕ → HwPtr H
    advance p n =
        move_to p (add_size (get p) (mul_size n size)) (add_size (device_ptr p) (mul_size n size))

    unfoldable pub retreat : HwPtr H → ℕ → HwPtr H
    retreat p n =
        move_to p (sub_size (get p) (mul_size n size)) (sub_size (device_ptr p) (mul_size n size))

    -- `operator+` and `operator-` with a number, on a copy, and the address of `operator[]`.
    unfoldable pub plus : HwPtr H → ℕ → HwPtr H
    plus p n = advance p n

    unfoldable pub minus : HwPtr H → ℕ → HwPtr H
    minus p n = retreat p n

    unfoldable pub subscript : HwPtr H → ℕ → ℕ
    subscript p n = add_size (get p) (mul_size n size)

    -- The prefix operators.
    unfoldable pub increment : HwPtr H → HwPtr H
    increment p = move_to p (add_size (get p) size) (add_size (device_ptr p) size)

    unfoldable pub decrement : HwPtr H → HwPtr H
    decrement p = move_to p (sub_size (get p) size) (sub_size (device_ptr p) size)

    -- The postfix operators: the value, and the object afterwards.
    unfoldable pub post_increment : HwPtr H → HwPtr H × HwPtr H
    post_increment p = (p, move_to p (add_size (get p) size) (add_size (device_ptr p) size))

    unfoldable pub post_decrement : HwPtr H → HwPtr H × HwPtr H
    post_decrement p = (p, move_to p (sub_size (get p) size) (sub_size (device_ptr p) size))

    -- `operator-` of two pointers into the same array.
    unfoldable pub difference : HwPtr H → HwPtr H → ℕ
    difference p q =
        if leb (get q) (get p) then (get p - get q) / size else sub_size 0 ((get q - get p) / size)
