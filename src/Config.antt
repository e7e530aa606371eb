-- ===== src/Config.antt =====
-- include/hwmalloc/heap_config.hpp and src/heap_config.cpp: the rounding of sizes to powers of two,
-- the heap's configuration with its derived fields, and the constructor with its two validations.
pub mod Log2
pub mod Valid
pub mod Verdict
pub mod Env
use hwmalloc.Base.{
  ℕ, zero, suc, ◌+◌, ◌/◌, ◌^◌, Bool, not, ◌&&◌, Option, none, some, ltb, leb, if◌then◌else◌,
  sub_size, shl_one_u, size_mod,
}

-- `log2_c`, whose recursion halves its argument: fuel above the argument never runs out.
unfoldable pub log2_fuel : ℕ → ℕ → ℕ
log2_fuel zero n = 1
log2_fuel (suc f) n = let rest = log2_fuel f (n / 2) in if ltb n 2 then 1 else 1 + rest

unfoldable pub log2_c : ℕ → ℕ
unfolding log2_fuel
log2_c n = log2_fuel n n

-- `1u << log2_c(n - 1)`: `n - 1` wraps, and the shift of a 32-bit one is undefined from 32 on.
pub round_to_pow_of_2 : ℕ → Option ℕ
round_to_pow_of_2 n = shl_one_u (log2_c (sub_size n 1))

abbrev pub never_free_default : Bool
never_free_default = Bool.false

abbrev pub num_reserve_segments_default : ℕ
num_reserve_segments_default = 16

abbrev pub tiny_limit_default : ℕ
tiny_limit_default = 128

abbrev pub small_limit_default : ℕ
small_limit_default = 4096

abbrev pub large_limit_default : ℕ
large_limit_default = 2097152

abbrev pub tiny_segment_size_default : ℕ
tiny_segment_size_default = 65536

abbrev pub small_segment_size_default : ℕ
small_segment_size_default = 65536

abbrev pub large_segment_size_default : ℕ
large_segment_size_default = 2097152

abbrev pub tiny_increment_shift : ℕ
tiny_increment_shift = 3

abbrev pub tiny_increment : ℕ
tiny_increment = 2 ^ tiny_increment_shift

pub record HeapConfig : Type 0 where
  pub never_free : Bool
  pub num_reserve_segments : ℕ
  pub tiny_limit : ℕ
  pub small_limit : ℕ
  pub large_limit : ℕ
  pub bucket_shift : ℕ
  pub tiny_segment_size : ℕ
  pub small_segment_size : ℕ
  pub large_segment_size : ℕ
  pub num_tiny_heaps : ℕ
  pub num_small_heaps : ℕ
  pub num_large_heaps : ℕ

-- The arguments of the constructor, in its order.
pub record Settings : Type 0 where
  pub never_free : Bool
  pub num_reserve_segments : ℕ
  pub tiny_limit : ℕ
  pub small_limit : ℕ
  pub large_limit : ℕ
  pub tiny_segment_size : ℕ
  pub small_segment_size : ℕ
  pub large_segment_size : ℕ

pub data ConfigError : Type 0 where
  limits_out_of_order limits_above_segments : ConfigError

-- What a constructor call ends in; `undefined` is the undefined shift of `round_to_pow_of_2`.
pub data Made : Type 0 where
  ok : HeapConfig → Made
  threw : ConfigError → Made
  undefined : Made

-- The members, with the default initialisers of the derived ones, from the rounded arguments.
unfoldable pub members : Settings → ℕ → ℕ → ℕ → ℕ → ℕ → ℕ → HeapConfig
members s tiny small large tiny_seg small_seg large_seg = record {
  never_free = s.never_free;
  num_reserve_segments = s.num_reserve_segments;
  tiny_limit = tiny;
  small_limit = small;
  large_limit = large;
  bucket_shift = sub_size (log2_c tiny) 1;
  tiny_segment_size = tiny_seg;
  small_segment_size = small_seg;
  large_segment_size = large_seg;
  num_tiny_heaps = tiny / tiny_increment;
  num_small_heaps = sub_size (log2_c small) (log2_c tiny);
  num_large_heaps = sub_size (log2_c large) (log2_c small);
}

-- The body of the constructor: the rounded limits are ordered, and the limits that were given are
-- at most the segment sizes that were given.
pub validate : Settings → HeapConfig → Made
validate s c =
    if not (ltb c.tiny_limit c.small_limit && ltb c.small_limit c.large_limit)
    then threw limits_out_of_order
    else if not (
        leb s.tiny_limit s.tiny_segment_size
        && leb s.small_limit s.small_segment_size
        && leb s.large_limit s.large_segment_size)
    then threw limits_above_segments
    else ok c

-- An undefined rounding makes the whole construction undefined.
infixl 5 ◌>>=◌
abbrev ◌>>=◌ : Option ℕ → (ℕ → Made) → Made
none >>= f = undefined
some a >>= f = f a

pub heap_config : Settings → Made
unfolding members validate
heap_config s = do
  tiny ← round_to_pow_of_2 s.tiny_limit
  small ← round_to_pow_of_2 s.small_limit
  large ← round_to_pow_of_2 s.large_limit
  tiny_seg ← round_to_pow_of_2 s.tiny_segment_size
  small_seg ← round_to_pow_of_2 s.small_segment_size
  large_seg ← round_to_pow_of_2 s.large_segment_size
  validate s (members s tiny small large tiny_seg small_seg large_seg)

-- The default configuration, before the environment is read.
abbrev pub default_settings : Settings
default_settings = record {
  never_free = never_free_default;
  num_reserve_segments = num_reserve_segments_default;
  tiny_limit = tiny_limit_default;
  small_limit = small_limit_default;
  large_limit = large_limit_default;
  tiny_segment_size = tiny_segment_size_default;
  small_segment_size = small_segment_size_default;
  large_segment_size = large_segment_size_default;
}
