-- ===== src/Tests/Environment.antt =====
-- Values of environment variables as src/heap_config.cpp reads them.
use hwmalloc.Base.{◌≡◌, refl, none, some, [], ◌∷◌}
use hwmalloc.Config.{default_settings, ok, members}
use hwmalloc.Config.Env.{
  Variable, Env, is_space, is_digit, in_range, read_digits, read_number, read_signed, stoul,
  get_default_heap_config,
}
use hwmalloc.Config.Env.Laws.{Unreadable, get_default_heap_config-default}

-- "12 8" is 12, and "-1" the largest number.
stoul_128 : stoul (49 ∷ 50 ∷ 32 ∷ 56 ∷ []) ≡ some 12
unfolding stoul read_signed read_number read_digits in_range is_digit is_space
stoul_128 = refl

stoul_minus : stoul (45 ∷ 49 ∷ []) ≡ some 18446744073709551615
unfolding stoul read_signed read_number read_digits in_range is_digit is_space
stoul_minus = refl

-- An environment in which the tiny limit is "x".
abbrev env : Env
env Variable.tiny_limit = some (120 ∷ [])
env x = none

env-Unreadable : (x : Variable) → Unreadable (env x)
unfolding stoul read_signed read_number is_digit is_space
env-Unreadable Variable.never_free = tt
env-Unreadable Variable.num_reserve_segments = tt
env-Unreadable Variable.tiny_limit = refl
env-Unreadable Variable.small_limit = tt
env-Unreadable Variable.large_limit = tt
env-Unreadable Variable.tiny_segment_size = tt
env-Unreadable Variable.small_segment_size = tt
env-Unreadable Variable.large_segment_size = tt

get_default_heap_config-default_example :
    get_default_heap_config env ≡ ok (members default_settings 128 4096 2097152 65536 65536 2097152)
get_default_heap_config-default_example = get_default_heap_config-default env env-Unreadable
