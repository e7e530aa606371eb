-- ===== src/Platform.antt =====
-- What the heap is built on and the repository does not implement, or behind an interface: the
-- lock-free stacks of Boost, the user's Context with its memory regions
-- (include/hwmalloc/register.hpp, include/hwmalloc/register_device.hpp), the numa allocator and the
-- device runtime; and the block that the stacks hold (include/hwmalloc/detail/block.hpp).
use hwmalloc.Base.{ℕ, ◌<◌, ◌≡◌, Bool, not, Option, none, some, List, [], ◌∷◌, length, ◌==◌}
use hwmalloc.Numa.{Numa}
use hwmalloc.Device.{Device}

-- `block_t` of a build with devices; a host block has a null device pointer. A segment is named by
-- the address of its object, and `nullptr` is 0. `H` is the type of handles, for host and device.
pub record Block (H : Type 0) : Type 0 where
  pub segment : ℕ
  pub user_allocation : ℕ
  pub ptr : ℕ
  pub handle : H
  pub device_ptr : ℕ
  pub device_handle : H
  pub device_id : ℕ

abbrev pub on_device : {H : Type 0} → Block H → Bool
on_device b = not (b.device_ptr == 0)

-- boost::lockfree::stack: `fixed n` is the fixed-sized one of capacity n, whose constructor throws
-- (`none`) if its index type cannot tell n nodes apart; `dynamic` is the other.
-- `push` returns false (`none`) and leaves the stack alone if there is no room; `consume_all` hands
-- over the elements from the top and leaves the stack empty.
pub record Lockfree (B S : Type 0) : Type 0 where
  pub fixed : ℕ → Option S
  pub dynamic : ℕ → S
  pub push : S → B → Option S
  pub pop : S → Option (B × S)
  pub consume_all : S → List B × S

-- The documented behaviour, in terms of the elements from the top and of the capacity (`none` for a
-- stack that grows).
pub record IsStack {B S : Type 0} (k : Lockfree B S) : Type 0 where
  pub contents : S → List B
  pub capacity : S → Option ℕ
  pub contents-fixed : (n : ℕ) (s : S) → k.fixed n ≡ some s → contents s ≡ []
  pub contents-dynamic : (n : ℕ) → contents (k.dynamic n) ≡ []
  pub capacity-fixed : (n : ℕ) (s : S) → k.fixed n ≡ some s → capacity s ≡ some n
  pub capacity-dynamic : (n : ℕ) → capacity (k.dynamic n) ≡ none
  pub push-fixed :
      (s : S) (b : B) (n : ℕ)
      → capacity s ≡ some n
      → length (contents s) < n
      → (t : S) × (k.push s b ≡ some t) × (contents t ≡ b ∷ contents s) × (capacity t ≡ capacity s)
  pub push-dynamic :
      (s : S) (b : B)
      → capacity s ≡ none
      → (t : S) × (k.push s b ≡ some t) × (contents t ≡ b ∷ contents s) × (capacity t ≡ capacity s)
  pub pop-empty : (s : S) → contents s ≡ [] → k.pop s ≡ none
  pub pop-cons :
      (s : S) (b : B) (bs : List B)
      → contents s ≡ b ∷ bs
      → (t : S) × (k.pop s ≡ some (b, t)) × (contents t ≡ bs) × (capacity t ≡ capacity s)
  pub consumed : (s : S) → (k.consume_all s).0 ≡ contents s
  pub emptied : (s : S) → contents (k.consume_all s).1 ≡ []
  pub capacity-consumed : (s : S) → capacity (k.consume_all s).1 ≡ capacity s

-- The customization points, found by ADL for the user's Context. `R` is the type of regions.
-- Registration may throw (`none`); destroying a region deregisters it.
pub record Context (W R H : Type 0) : Type 0 where
  pub null_handle : H
  pub register_memory : W → ℕ → ℕ → Option R × W
  pub register_device_memory : W → ℕ → ℕ → ℕ → Option R × W
  pub get_handle : R → ℕ → ℕ → H
  pub deregister : W → R → W

-- The default of `register_device_memory` in include/hwmalloc/register_device.hpp: the device id is
-- dropped, and the memory is registered like any other.
abbrev pub default_register_device_memory :
    {W R : Type 0} → (W → ℕ → ℕ → Option R × W) → W → ℕ → ℕ → ℕ → Option R × W
default_register_device_memory register_memory w device_id ptr size = register_memory w ptr size

pub record Platform (W R H S : Type 0) : Type 0 where
  pub numa : Numa W
  pub device : Device W
  pub context : Context W R H
  pub stack : Lockfree (Block H) S
