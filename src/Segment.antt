-- ===== src/Segment.antt =====
-- include/hwmalloc/detail/segment.hpp: a registered piece of memory cut into blocks of one size. New
-- blocks go to the pool's stack; freed ones collect in the segment's own stack.
pub mod Blocks
pub mod Collect
pub mod Cover
use hwmalloc.Base.{
  ℕ, zero, suc, ◌+◌, ◌/◌, Bool, Option, none, some, List, [], ◌∷◌, ◌==◌, if◌then◌else◌, length,
  add_size, sub_size, mul_size,
}
use hwmalloc.Numa.{Allocation}
use hwmalloc.Platform.{Block, Lockfree, Platform}

-- `m_num_freed` is an atomic long, kept as its 64-bit pattern. `device_ptr` is the member of
-- `m_device_allocation`; a host segment has a null one and no device region.
pub record Segment (R S : Type 0) : Type 0 where
  pub pool : ℕ
  pub block_size : ℕ
  pub num_blocks : ℕ
  pub allocation : Allocation
  pub region : R
  pub device_ptr : ℕ
  pub device_region : Option R
  pub device_id : ℕ
  pub freed_stack : S
  pub num_freed : ℕ

-- `static_cast<std::size_t>(m_num_freed.load()) == m_num_blocks`
unfoldable pub is_empty : {R S : Type 0} → Segment R S → Bool
is_empty g = g.num_freed == g.num_blocks

-- `while (!stack.push(b)) {}`: without room, and with nobody else to make some, it never ends.
abbrev pub push_all : {B S : Type 0} → Lockfree B S → List B → S → Option S
push_all k [] s = some s
push_all k (b ∷ bs) s = elim (k.push s b) [ none ↦ none | some t ↦ push_all k bs t ]

module _ {W R H S : Type 0} (env : Platform W R H S) where
  open env.context use {null_handle, get_handle}

  -- The device part of a block at an offset: null for a host segment.
  unfoldable pub device_handle_at : Option R → ℕ → ℕ → H
  device_handle_at none offset size = null_handle
  device_handle_at (some r) offset size = get_handle r offset size

  unfoldable pub device_ptr_at : Option R → ℕ → ℕ → ℕ
  device_ptr_at none origin offset = 0
  device_ptr_at (some r) origin offset = origin + offset

  -- Block k of the segment whose object is at address `self`.
  unfoldable pub block_at : ℕ → Segment R S → ℕ → Block H
  block_at self g k =
      let offset = mul_size k g.block_size in
      record {
        segment = self;
        user_allocation = 0;
        ptr = g.allocation.ptr + offset;
        handle = get_handle g.region offset g.block_size;
        device_ptr = device_ptr_at g.device_region g.device_ptr offset;
        device_handle = device_handle_at g.device_region offset g.block_size;
        device_id = g.device_id;
      }

  -- The blocks n - 1, …, 0 in the order in which the constructors push them.
  unfoldable pub blocks_down : ℕ → Segment R S → ℕ → List (Block H)
  blocks_down self g zero = []
  blocks_down self g (suc k) = block_at self g k ∷ blocks_down self g k

  -- The members that the constructors initialise: with a device region, or without.
  unfoldable pub make_segment : ℕ → R → Allocation → ℕ → ℕ → Option R → ℕ → S → Segment R S
  make_segment pool region alloc block_size device_ptr device_region device_id freed_stack =
      record {
        pool = pool;
        block_size = block_size;
        num_blocks = alloc.size / block_size;
        allocation = alloc;
        region = region;
        device_ptr = device_ptr;
        device_region = device_region;
        device_id = device_id;
        freed_stack = freed_stack;
        num_freed = 0;
      }

  -- The body of the constructors: all blocks onto the free stack.
  unfoldable pub fill_free_stack : ℕ → Segment R S → S → Option S
  fill_free_stack self g free_stack =
      push_all env.stack (blocks_down self g g.num_blocks) free_stack

  -- `collect`: the consumed blocks go to the given stack, and are no longer counted.
  unfoldable pub collect : Segment R S → S → Option (ℕ × Segment R S × S)
  collect g stack =
      let (bs, rest) = env.stack.consume_all g.freed_stack in
      elim (push_all env.stack bs stack) [
        | none ↦ none
        | some stack' ↦ some (
          length bs,
          record g { freed_stack = rest; num_freed = sub_size g.num_freed (length bs) },
          stack',
        )
      ]

  unfoldable pub free : Segment R S → Block H → Option (Segment R S)
  free g b = elim (env.stack.push g.freed_stack b) [
    | none ↦ none
    | some t ↦ some (record g { freed_stack = t; num_freed = add_size g.num_freed 1 })
  ]

  -- `~device_allocation_holder`
  unfoldable pub release_device : ℕ → W → W
  release_device m w = if m == 0 then w else env.device.device_free w m

  unfoldable pub deregister_device : Option R → W → W
  deregister_device none w = w
  deregister_device (some r) w = env.context.deregister w r

  -- The members from the last to the first, so the memory is deregistered before it is given back.
  unfoldable pub destroy_members : ℕ → Option R → R → Allocation → W → W
  destroy_members device_ptr device_region region alloc w =
      env.numa.free
        (env.context.deregister (release_device device_ptr (deregister_device device_region w))
          region)
        alloc

  -- The implicit destructor.
  unfoldable pub destroy : Segment R S → W → W
  destroy g = destroy_members g.device_ptr g.device_region g.region g.allocation
