-- ===== src/Device.antt =====
-- include/hwmalloc/device.hpp: the device runtime, with the implementations of src/device_none.cpp
-- and src/device_emulate.cpp. Those over a GPU runtime (src/device_cuda.cpp, src/device_hip.cpp) are
-- values of the same record in Gpu/Cuda.antt and Gpu/Hip.antt.
use hwmalloc.Base.{ℕ, Bool, true, Option, some, ◌==◌, if◌then◌else◌}
use hwmalloc.Numa.Tools.{Os}

-- What `device_malloc` ends in: an address, an exception, or undefined behaviour.
pub data Malloced : Type 0 where
  memory : ℕ → Malloced
  threw : Malloced
  undefined : Malloced

-- `W` is the state of the system. A call that throws yields `none`, or `false` if it has no result;
-- all but `device_free` may. `get_num_devices` is the number of devices: that it may throw in the
-- constructor of `fixed_size_heap` over a GPU runtime is left out.
pub record Device (W : Type 0) : Type 0 where
  pub get_num_devices : ℕ
  pub get_device_id : W → Option ℕ × W
  pub set_device_id : W → ℕ → Bool × W
  pub device_malloc : W → ℕ → Malloced × W
  pub device_free : W → ℕ → W

-- src/device_none.cpp; `nullptr` is 0.
abbrev pub device_none : (W : Type 0) → Device W
device_none W = record {
  get_num_devices = 0;
  get_device_id = λ w. (some 0, w);
  set_device_id = λ w id. (true, w);
  device_malloc = λ w size. (memory 0, w);
  device_free = λ w ptr. w;
}

-- `memset(malloc(size), 0, size)`, which writes through a null pointer if malloc fails.
abbrev pub zeroed : {W : Type 0} → ℕ × W → Malloced × W
zeroed (ptr, w) = (if ptr == 0 then undefined else memory ptr, w)

-- src/device_emulate.cpp
abbrev pub device_emulate : {W : Type 0} → Os W → Device W
device_emulate os = record {
  get_num_devices = 1;
  get_device_id = λ w. (some 0, w);
  set_device_id = λ w id. (true, w);
  device_malloc = λ w size. zeroed (os.malloc w size);
  device_free = λ w ptr. os.free w ptr;
}
