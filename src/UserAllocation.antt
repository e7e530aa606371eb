-- ===== src/UserAllocation.antt =====
-- include/hwmalloc/detail/user_allocation.hpp: memory that the user brings along, which is registered
-- and, for a device, mirrored on the host.
pub mod Leaks
use hwmalloc.Base.{ℕ, Bool, true, false, not, ◌&&◌, Option, none, some, ◌==◌, if◌then◌else◌}
use hwmalloc.Numa.Tools.{Os}
use hwmalloc.Platform.{Block, Context}

pub record HostAllocation : Type 0 where
  pub ptr : ℕ
  pub delete : Bool

pub record UserAllocation (R : Type 0) : Type 0 where
  pub host : HostAllocation
  pub region : R
  pub device_region : Option R

-- `host_allocation(host_allocation&&)`: the new object, and the other one afterwards.
unfoldable pub move_host : HostAllocation → HostAllocation × HostAllocation
move_host other = (record { ptr = other.ptr; delete = other.delete }, record other { ptr = 0 })

module _ {W R H : Type 0} (os : Os W) (context : Context W R H) where
  -- `~host_allocation`
  unfoldable pub destroy_host : HostAllocation → W → W
  destroy_host a w = if not (a.ptr == 0) && a.delete then os.free w a.ptr else w

  -- `operator=(host_allocation&&)`: both objects afterwards.
  unfoldable pub assign_host :
      HostAllocation → HostAllocation → W → HostAllocation × HostAllocation × W
  assign_host a other w = (
    record { ptr = other.ptr; delete = other.delete },
    record other { ptr = 0 },
    destroy_host a w,
  )

  -- The initialisation of `m_region`. If it throws (`none`) the members before it are destroyed.
  unfoldable pub with_region :
      HostAllocation
      → Option R × W
      → (R → W → Option (UserAllocation R) × W)
      → Option (UserAllocation R) × W
  with_region host (none, w) next = (none, destroy_host host w)
  with_region host (some r, w) next = next r w

  -- The initialisation of `m_device_region`.
  unfoldable pub with_device_region :
      HostAllocation → R → Option R × W → Option (UserAllocation R) × W
  with_device_region host r (none, w) = (none, destroy_host host (context.deregister w r))
  with_device_region host r (some d, w) =
      (some (record { host = host; region = r; device_region = some d }), w)

  -- The three constructors: for host memory, for device memory with a mirror from malloc, and for
  -- both.
  unfoldable pub register_host : W → ℕ → ℕ → Option (UserAllocation R) × W
  register_host w ptr size =
      let host : HostAllocation = record { ptr = ptr; delete = false } in
      with_region host (context.register_memory w ptr size)
        (λ r w. (some (record { host = host; region = r; device_region = none }), w))

  unfoldable pub register_both : HostAllocation → W → ℕ → ℕ → ℕ → Option (UserAllocation R) × W
  register_both host w device_ptr device_id size =
      with_region host (context.register_memory w host.ptr size) (λ r w.
        with_device_region host r (context.register_device_memory w device_id device_ptr size))

  unfoldable pub register_mirrored : W → ℕ → ℕ → ℕ → Option (UserAllocation R) × W
  register_mirrored w device_ptr device_id size =
      let (ptr, w') = os.malloc w size in
      register_both (record { ptr = ptr; delete = true }) w' device_ptr device_id size

  unfoldable pub deregister_device : Option R → W → W
  deregister_device none w = w
  deregister_device (some r) w = context.deregister w r

  -- `delete m_user_allocation`: the members from the last to the first.
  unfoldable pub release_user_allocation : UserAllocation R → W → W
  release_user_allocation u w =
      destroy_host u.host (context.deregister (deregister_device u.device_region w) u.region)

  -- `register_user_allocation` of include/hwmalloc/heap.hpp: the block, for the object at an address.
  unfoldable pub user_block : ℕ → UserAllocation R → ℕ → ℕ → ℕ → Block H
  user_block self u device_ptr device_id size = record {
    segment = 0;
    user_allocation = self;
    ptr = u.host.ptr;
    handle = context.get_handle u.region 0 size;
    device_ptr = device_ptr;
    device_handle = elim u.device_region [
      | none ↦ context.null_handle
      | some d ↦ context.get_handle d 0 size
    ];
    device_id = device_id;
  }
