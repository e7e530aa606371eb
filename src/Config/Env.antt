-- ===== src/Config/Env.antt =====
-- src/heap_config.cpp: the configuration from the environment. A string is the list of its bytes.
pub mod Laws
use hwmalloc.Base.{
  ℕ, zero, suc, ◌+◌, ◌-◌, ◌*◌, ◌<◌, Bool, true, false, not, ◌&&◌, ◌||◌, Option, none, some, List,
  [], ◌∷◌, ltb, leb, ◌==◌, if◌then◌else◌, sub_size, size_mod,
}
use hwmalloc.Config.{Settings, default_settings, Made, heap_config}

-- The environment variables, in the order in which they are read.
pub data Variable : Type 0 where
  never_free num_reserve_segments tiny_limit small_limit large_limit : Variable
  tiny_segment_size small_segment_size large_segment_size : Variable

-- `std::getenv` of the variable `HWMALLOC_` and its name.
abbrev pub Env : Type 0
Env = Variable → Option (List ℕ)

unfoldable pub is_space : ℕ → Bool
is_space c = c == 32 || (leb 9 c && leb c 13)

unfoldable pub is_digit : ℕ → Bool
is_digit c = leb 48 c && leb c 57

-- The digits up to the first other character, in base 10, behind those of value `acc`.
unfoldable pub read_digits : ℕ → List ℕ → ℕ
read_digits acc [] = acc
read_digits acc (c ∷ cs) =
    let rest = read_digits (acc * 10 + (c - 48)) cs in if is_digit c then rest else acc

-- A value that is not a `std::size_t` is out of range, and throws (`none`).
unfoldable pub in_range : (ℕ → ℕ) → ℕ → Option ℕ
in_range sign n = if ltb n size_mod then some (sign n) else none

-- No digit at all throws.
unfoldable pub read_number : (ℕ → ℕ) → List ℕ → Option ℕ
read_number sign [] = none
read_number sign (c ∷ cs) = if is_digit c then in_range sign (read_digits 0 (c ∷ cs)) else none

-- A minus sign negates, modulo 2 ^ 64.
unfoldable pub read_signed : List ℕ → Option ℕ
read_signed [] = none
read_signed (c ∷ cs) =
    if c == 45
    then read_number (λ n. sub_size 0 n) cs
    else if c == 43
    then read_number (λ n. n) cs
    else read_number (λ n. n) (c ∷ cs)

-- `std::stoul`: white space, a sign, digits, and anything.
unfoldable pub stoul : List ℕ → Option ℕ
stoul [] = none
stoul (c ∷ cs) = let rest = stoul cs in if is_space c then rest else read_signed (c ∷ cs)

-- `get_env<std::size_t>`, whose `catch` returns the default.
unfoldable pub size_of_value : Option (List ℕ) → ℕ → ℕ
size_of_value none d = d
size_of_value (some v) d = elim (stoul v) [ none ↦ d | some n ↦ n ]

-- `get_env<bool>`
unfoldable pub bool_of_value : Option (List ℕ) → Bool → Bool
bool_of_value none d = d
bool_of_value (some v) d = elim (stoul v) [ none ↦ d | some n ↦ not (n == 0) ]

unfoldable pub settings_of : Env → Settings
settings_of env = record {
  never_free = bool_of_value (env never_free) default_settings.never_free;
  num_reserve_segments =
      size_of_value (env num_reserve_segments) default_settings.num_reserve_segments;
  tiny_limit = size_of_value (env tiny_limit) default_settings.tiny_limit;
  small_limit = size_of_value (env small_limit) default_settings.small_limit;
  large_limit = size_of_value (env large_limit) default_settings.large_limit;
  tiny_segment_size = size_of_value (env tiny_segment_size) default_settings.tiny_segment_size;
  small_segment_size = size_of_value (env small_segment_size) default_settings.small_segment_size;
  large_segment_size = size_of_value (env large_segment_size) default_settings.large_segment_size;
}

-- The static object that the first call initialises.
unfoldable pub get_default_heap_config : Env → Made
get_default_heap_config env = heap_config (settings_of env)
