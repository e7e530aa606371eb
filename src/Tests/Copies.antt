-- ===== src/Tests/Copies.antt =====
-- Copies of src/device_cuda.cpp and src/device_hip.cpp over a runtime whose state is the number of
-- streams.
use hwmalloc.Base.{ℕ, suc, ◌+◌, ◌-◌, ◌≤◌, ◌≡◌, refl, true, none, some, arith}
use hwmalloc.Outcome.{Outcome, Ends}
use hwmalloc.Gpu.{Runtime, CountsStreams}
use hwmalloc.Gpu.Cuda
use hwmalloc.Gpu.Hip
use hwmalloc.Gpu.Streams.{memcpy-Ends}

abbrev counting : Runtime ℕ
counting = record {
  get_device_count = λ w. (some 1, w);
  get_device = λ w. (some 0, w);
  set_device = λ id w. (true, w);
  malloc = λ size w. (none, w);
  free = λ ptr w. w;
  stream_create = λ w. (some w, suc w);
  memcpy_async = λ dst src n d s w. (true, w);
  event_create = λ w. (some 0, w);
  event_record = λ e s w. (true, w);
  event_synchronize = λ e w. (true, w);
  event_destroy = λ e w. (true, w);
  stream_destroy = λ s w. (true, w - 1);
}

counting-CountsStreams : CountsStreams counting (λ w. w)
counting-CountsStreams = record {
  created = λ w. omega arith;
  destroyed = λ w s h. omega arith;
  copied = λ w dst src n s d. refl;
  event_made = λ w. refl;
  recorded = λ w e s. refl;
  synchronized = λ w e. refl;
  event_gone = λ w e. refl;
}

abbrev Leaves : ℕ → Outcome ℕ (Unit {0}) → Type 0
Leaves m o = Ends (λ u w'. w' ≡ m) (λ e w'. (7 ≤ w') × (w' ≤ 7 + 1)) o

memcpy-Ends_example :
    Leaves 7 (Cuda.memcpy_to_device counting 64 96 32 7)
    × Leaves 7 (Cuda.memcpy_to_host counting 64 96 32 7)
    × Leaves 8 (Hip.memcpy_to_device counting 64 96 32 7)
    × Leaves 8 (Hip.memcpy_to_host counting 64 96 32 7)
memcpy-Ends_example = memcpy-Ends (λ w. w) counting counting-CountsStreams 64 96 32 7
