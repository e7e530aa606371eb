-- ===== src/Gpu/Hip.antt =====
-- src/device_hip.cpp
use hwmalloc.Base.{ℕ, Bool, Option}
use hwmalloc.Device.{Device, Malloced}
use hwmalloc.Outcome.{Call, ◌>>=◌, ◌>>◌}
use hwmalloc.Gpu.{
  Runtime, host_to_device, device_to_host, check, check_value, attempt, attempt_value,
  memory_or_throw,
}

module _ {W : Type 0} (r : Runtime W) where
  unfoldable pub get_num_devices : Call W ℕ
  get_num_devices = check_value r.get_device_count

  unfoldable pub get_device_id : W → Option ℕ × W
  get_device_id = attempt_value r.get_device

  unfoldable pub set_device_id : W → ℕ → Bool × W
  set_device_id w id = attempt (r.set_device id) w

  unfoldable pub device_malloc : W → ℕ → Malloced × W
  device_malloc w size = memory_or_throw (attempt_value (r.malloc size) w)

  -- The result of the call is dropped.
  unfoldable pub device_free : W → ℕ → W
  device_free w ptr = r.free ptr w

  -- The device runtime, on a machine with `devices` devices.
  abbrev pub device_hip : ℕ → Device W
  device_hip devices = record {
    get_num_devices = devices;
    get_device_id = get_device_id;
    set_device_id = set_device_id;
    device_malloc = device_malloc;
    device_free = device_free;
  }

  -- `memcpy_to_device`
  unfoldable pub memcpy_to_device : ℕ → ℕ → ℕ → Call W (Unit {0})
  memcpy_to_device dst src count = do
    stream ← check_value r.stream_create
    check (r.memcpy_async dst src count host_to_device stream)
    done ← check_value r.event_create
    check (r.event_record done stream)
    check (r.event_synchronize done)
    check (r.event_destroy done)

  -- `memcpy_to_host`
  unfoldable pub memcpy_to_host : ℕ → ℕ → ℕ → Call W (Unit {0})
  memcpy_to_host dst src count = do
    stream ← check_value r.stream_create
    check (r.memcpy_async dst src count device_to_host stream)
    done ← check_value r.event_create
    check (r.event_record done stream)
    check (r.event_synchronize done)
    check (r.event_destroy done)
