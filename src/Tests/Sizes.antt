-- ===== src/Tests/Sizes.antt =====
-- The default configuration of src/heap_config.cpp, and the size classes that
-- include/hwmalloc/heap.hpp makes of it.
use hwmalloc.Base.{
  ◌*◌, ℕ, ◌+◌, ◌/◌, ◌^◌, ◌≤◌, ◌<◌, ◌≡◌, refl, none, some, arith, ltb, if◌then◌else◌, size_mod,
}
use hwmalloc.Config.{
  log2_c, round_to_pow_of_2, HeapConfig, Settings, default_settings, ok, members, heap_config,
  tiny_increment,
}
use hwmalloc.Config.Log2.{log2_c_lem, IsRoundUp, round_to_pow_of_2-IsRoundUp}
use hwmalloc.Config.Valid.{IsValid, InRange, heap_config-IsValid, heap_config-powers}
use hwmalloc.Config.Verdict.{Rounds, Verdict, heap_config-Verdict}
use hwmalloc.Platform.{Block, Platform}
use hwmalloc.Heap.Slots.{Served, locate-Served}
use hwmalloc.Allocator.{request}
use hwmalloc.Allocator.Laws.{request_wraps}
use hwmalloc.Tests.Setting.{ListStack, platform, bump}
use hwmalloc.SizeClass.{max_size, serve}
use hwmalloc.SizeClass.Fit.{serve_above_2_GiB, serve_zero, serve_small_limit}

log2_c_lem_example : log2_c 5 ≡ (if ltb 5 2 then 1 else 1 + log2_c (5 / 2))
log2_c_lem_example = log2_c_lem 5

round_to_pow_of_2-IsRoundUp_example : (r : ℕ) × (round_to_pow_of_2 100 ≡ some r) × IsRoundUp 100 r
round_to_pow_of_2-IsRoundUp_example = round_to_pow_of_2-IsRoundUp 100 (omega arith) (omega arith)

-- The configuration with the default settings and another tiny limit.
abbrev settings : ℕ → Settings
settings limit = record default_settings { tiny_limit = limit }

abbrev config : ℕ → HeapConfig
config limit = members (settings limit) limit 4096 2097152 65536 65536 2097152

config-ok : heap_config (settings 128) ≡ ok (config 128)
config-ok =
    heap_config-powers (settings 128) 7 12 21 16 16 21 refl refl refl refl refl refl
      (omega arith, omega arith, omega arith, omega arith, omega arith, omega arith)
      (omega arith, omega arith, omega arith)

-- A tiny limit of 2 is accepted too.
config-small_ok : heap_config (settings 2) ≡ ok (config 2)
config-small_ok =
    heap_config-powers (settings 2) 1 12 21 16 16 21 refl refl refl refl refl refl
      (omega arith, omega arith, omega arith, omega arith, omega arith, omega arith)
      (omega arith, omega arith, omega arith)

settings-InRange : (limit : ℕ) → limit < size_mod → InRange (settings limit)
settings-InRange limit h = record {
  tiny_limit = h;
  small_limit = omega arith;
  large_limit = omega arith;
  tiny_segment_size = omega arith;
  small_segment_size = omega arith;
  large_segment_size = omega arith;
}

heap_config-powers_example : heap_config (settings 128) ≡ ok (config 128)
heap_config-powers_example =
    heap_config-powers (settings 128) 7 12 21 16 16 21 refl refl refl refl refl refl
      (omega arith, omega arith, omega arith, omega arith, omega arith, omega arith)
      (omega arith, omega arith, omega arith)

heap_config-IsValid_example : IsValid (config 128)
heap_config-IsValid_example =
    heap_config-IsValid (settings 128) (config 128) (settings-InRange 128 (omega arith)) config-ok

heap_config-Verdict_example :
    (c : HeapConfig) × Rounds (settings 5000) c
    × Verdict (settings 5000) c (heap_config (settings 5000))
heap_config-Verdict_example = heap_config-Verdict (settings 5000) (record {
  tiny_limit = (omega arith, omega arith);
  small_limit = (omega arith, omega arith);
  large_limit = (omega arith, omega arith);
  tiny_segment_size = (omega arith, omega arith);
  small_segment_size = (omega arith, omega arith);
  large_segment_size = (omega arith, omega arith);
})

abbrev default_config : HeapConfig
default_config = config 128

config-IsValid : IsValid default_config
config-IsValid =
    heap_config-IsValid (settings 128) default_config (settings-InRange 128 (omega arith)) config-ok

limit_large : (limit : ℕ) → (config limit).large_limit < 2 ^ 31
unfolding members
limit_large limit = omega arith

limit_tiny : tiny_increment ≤ (config 128).tiny_limit
unfolding members
limit_tiny = omega arith

limit_few : (config 2).tiny_limit < tiny_increment
unfolding members
limit_few = omega arith

serve_above_2_GiB_example :
    (m : ℕ) × (max_size (config 128) ≡ some m) × (serve (config 128) m (2 ^ 31 + 1) ≡ none)
serve_above_2_GiB_example =
    serve_above_2_GiB (settings 128) (config 128) (2 ^ 31 + 1) (settings-InRange 128 (omega arith))
      config-ok (limit_large 128) (omega arith) (omega arith)

serve_zero_example : (m : ℕ) × (max_size (config 128) ≡ some m) × (serve (config 128) m 0 ≡ none)
serve_zero_example =
    serve_zero (settings 128) (config 128) (settings-InRange 128 (omega arith)) config-ok
      (limit_large 128)

serve_small_limit_example : (m : ℕ) × (max_size (config 2) ≡ some m) × (serve (config 2) m 1 ≡ none)
serve_small_limit_example =
    serve_small_limit (settings 2) (config 2) (settings-InRange 2 (omega arith)) config-small_ok
      (limit_large 2) limit_few

-- A platform for the heap.
abbrev env : Platform ℕ ℕ ℕ (ListStack (Block ℕ))
env = platform bump

locate-Served_example : Served env (config 128) 4096 1 1000
locate-Served_example =
    locate-Served env (settings 128) (config 128) 4096 1 1000 (settings-InRange 128 (omega arith))
      config-ok limit_tiny (limit_large 128) (omega arith) (omega arith)

-- 2 ^ 61 + 1 elements of 8 bytes.
request_wraps_example :
    (v : Served env (config 128) 4096 1 (request 8 2305843009213693953)) × (v.heap.block_size
      < 2 * 8 + 8)
request_wraps_example =
    request_wraps env (settings 128) (config 128) 4096 1 8 2305843009213693953 8
      (settings-InRange 128 (omega arith)) config-ok limit_tiny (limit_large 128) refl (omega arith)
      (omega arith)
