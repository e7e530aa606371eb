-- ===== src/UniquePtr.antt =====
-- include/hwmalloc/fancy_ptr/unique_ptr.hpp and `make_unique` of include/hwmalloc/heap.hpp: objects in
-- a block of the heap, and their end. What the constructors and the destructor of the element type do
-- is a parameter.
pub mod Laws
use hwmalloc.Base.{ℕ, zero, suc, ◌+◌, Bool, true, false, ◌==◌, if◌then◌else◌, add_size, mul_size}
use hwmalloc.Platform.{Block, Platform}
use hwmalloc.Outcome.{Call, returns, throws, ◌>>=◌, element_threw}
use hwmalloc.Heap.{State}
use hwmalloc.Heap

-- `construct` makes an object at an address, or throws (`false`); `size` is that of the type.
pub record Element (W : Type 0) : Type 0 where
  pub size : ℕ
  pub construct : ℕ → W → Bool × W
  pub destroy : ℕ → W → W

-- `unique_ptr<T>` and `unique_ptr<T[]>`: the pointer, and the size that the deleter of an array has.
pub record UniquePtr (H : Type 0) : Type 0 where
  pub block : Block H
  pub size : ℕ

module _ {W : Type 0} (t : Element W) where
  -- `ptr[i]`
  unfoldable pub address : ℕ → ℕ → ℕ
  address ptr i = add_size ptr (mul_size i t.size)

  -- `new (ptr) U[size]()`, from element i on. If a constructor throws then the elements before it are
  -- destroyed, the last one first.
  abbrev pub undo : ℕ → Bool × W → Bool × W
  undo a (true, w) = (true, w)
  undo a (false, w) = (false, t.destroy a w)

  unfoldable pub construct_from : ℕ → ℕ → ℕ → W → Bool × W
  construct_from ptr i zero w = (true, w)
  construct_from ptr i (suc k) w =
      let (ok, w') = t.construct (address ptr i) w in
      let rest = construct_from ptr (suc i) k w' in
      if ok then undo (address ptr i) rest else (false, w')

  -- `for (std::size_t i = 0; i < size; ++i) ptr[i].~T();`
  unfoldable pub destroy_from : ℕ → ℕ → ℕ → W → W
  destroy_from ptr i zero w = w
  destroy_from ptr i (suc k) w = destroy_from ptr (suc i) k (t.destroy (address ptr i) w)

  -- `heap_delete`, without and with an array; `release` is that of the pointer.
  unfoldable pub delete_scalar : {H : Type 0} → (Block H → W → W) → UniquePtr H → W → W
  delete_scalar release p w = release p.block (t.destroy p.block.ptr w)

  unfoldable pub delete_array : {H : Type 0} → (Block H → W → W) → UniquePtr H → W → W
  delete_array release p w = release p.block (destroy_from p.block.ptr 0 p.size w)

module _ {W R H S : Type 0} (env : Platform W R H S) (t : Element W) where
  -- The state after the constructors: nothing gives the block back if one of them threw.
  unfoldable pub made : Block H → ℕ → Bool × W → Call (State W R S) (UniquePtr H)
  made b n (true, w) s = returns (record { block = b; size = n }) (record s { world = w })
  made b n (false, w) s = throws element_threw (record s { world = w })

  -- The scalar version and the array version of `make_unique`.
  unfoldable pub make_unique : ℕ → ℕ → Call (State W R S) (UniquePtr H)
  make_unique fuel numa_node = do
    b ← Heap.allocate env fuel t.size numa_node
    λ s. made b 1 (t.construct b.ptr s.world) s

  unfoldable pub make_unique_array : ℕ → ℕ → ℕ → Call (State W R S) (UniquePtr H)
  make_unique_array fuel numa_node n = do
    b ← Heap.allocate env fuel (mul_size t.size n) numa_node
    λ s. made b n (construct_from t b.ptr 0 n s.world) s
