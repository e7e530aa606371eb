-- ===== src/Gpu.antt =====
-- src/device_cuda.cpp and src/device_hip.cpp: the device runtime over one of two GPU runtimes, which
-- are parameters, as are the streams and events that a copy between host and device makes.
pub mod Cuda
pub mod Hip
pub mod Streams
use hwmalloc.Base.{ℕ, suc, ◌+◌, ◌≡◌, ◌≤◌, Bool, true, false, Option, none, some}
use hwmalloc.Device.{Malloced, memory, threw}
use hwmalloc.Outcome.{Outcome, returns, throws, Call, gpu_call_failed}

pub data Direction : Type 0 where
  host_to_device device_to_host : Direction

-- The calls that the library makes. A call that yields a value reports failure as `none`, another one
-- as `false`; `free` is called for its effect only.
pub record Runtime (W : Type 0) : Type 0 where
  pub get_device_count : W → Option ℕ × W
  pub get_device : W → Option ℕ × W
  pub set_device : ℕ → W → Bool × W
  pub malloc : ℕ → W → Option ℕ × W
  pub free : ℕ → W → W
  pub stream_create : W → Option ℕ × W
  pub memcpy_async : ℕ → ℕ → ℕ → Direction → ℕ → W → Bool × W
  pub event_create : W → Option ℕ × W
  pub event_record : ℕ → ℕ → W → Bool × W
  pub event_synchronize : ℕ → W → Bool × W
  pub event_destroy : ℕ → W → Bool × W
  pub stream_destroy : ℕ → W → Bool × W

-- 1 for a stream that was made, and for one that was destroyed.
abbrev pub new : Option ℕ → ℕ
new none = 0
new (some s) = 1

abbrev pub gone : Bool → ℕ
gone true = 1
gone false = 0

-- What the documentation says of streams: which calls make and destroy one, where `streams` counts
-- those that are there.
pub record CountsStreams {W : Type 0} (r : Runtime W) (streams : W → ℕ) : Type 0 where
  pub created : (w : W) → streams (r.stream_create w).1 ≡ streams w + new (r.stream_create w).0
  pub destroyed :
      (w : W) (s : ℕ)
      → 1 ≤ streams w
      → streams (r.stream_destroy s w).1 + gone (r.stream_destroy s w).0 ≡ streams w
  pub copied :
      (w : W) (dst src n s : ℕ) (d : Direction)
      → streams (r.memcpy_async dst src n d s w).1 ≡ streams w
  pub event_made : (w : W) → streams (r.event_create w).1 ≡ streams w
  pub recorded : (w : W) (e s : ℕ) → streams (r.event_record e s w).1 ≡ streams w
  pub synchronized : (w : W) (e : ℕ) → streams (r.event_synchronize e w).1 ≡ streams w
  pub event_gone : (w : W) (e : ℕ) → streams (r.event_destroy e w).1 ≡ streams w

-- `HWMALLOC_CHECK_…_RESULT(x)` is a macro: after a failure the call stands once more in the argument
-- of `…GetErrorString`, so that it is made again before the exception is thrown.
abbrev pub checked : {W : Type 0} → (W → Bool × W) → Bool × W → Outcome W (Unit {0})
checked x (true, w) = returns tt w
checked x (false, w) = throws gpu_call_failed (x w).1

unfoldable pub check : {W : Type 0} → (W → Bool × W) → Call W (Unit {0})
check x w = checked x (x w)

-- The same for a call that yields a value through a pointer.
abbrev pub checked_value : {W : Type 0} → (W → Option ℕ × W) → Option ℕ × W → Outcome W ℕ
checked_value x (some v, w) = returns v w
checked_value x (none, w) = throws gpu_call_failed (x w).1

unfoldable pub check_value : {W : Type 0} → (W → Option ℕ × W) → Call W ℕ
check_value x w = checked_value x (x w)

-- The same calls for those who ask only if they threw: `none`, or `false`, for the exception.
abbrev pub attempted : {W : Type 0} → (W → Bool × W) → Bool × W → Bool × W
attempted x (true, w) = (true, w)
attempted x (false, w) = (false, (x w).1)

abbrev pub attempt : {W : Type 0} → (W → Bool × W) → W → Bool × W
attempt x w = attempted x (x w)

abbrev pub attempted_value : {W : Type 0} → (W → Option ℕ × W) → Option ℕ × W → Option ℕ × W
attempted_value x (some v, w) = (some v, w)
attempted_value x (none, w) = (none, (x w).1)

abbrev pub attempt_value : {W : Type 0} → (W → Option ℕ × W) → W → Option ℕ × W
attempt_value x w = attempted_value x (x w)

abbrev pub memory_or_throw : {W : Type 0} → Option ℕ × W → Malloced × W
memory_or_throw (some ptr, w) = (memory ptr, w)
memory_or_throw (none, w) = (threw, w)
