-- ===== src/Config/Env/Laws.antt =====
-- What src/heap_config.cpp reads from the environment.
use hwmalloc.Base.{ℕ, ◌≡◌, refl, ap, ◌∙◌, Bool, Option, none, some, List, arith}
use hwmalloc.Config.{default_settings, ok, members, heap_config}
use hwmalloc.Config.Valid.{heap_config-powers}
use hwmalloc.Config.Env.{
  Variable, Env, stoul, size_of_value, bool_of_value, settings_of, get_default_heap_config,
}

-- A value that cannot be read.
abbrev pub Unreadable : Option (List ℕ) → Type 0
Unreadable none = Unit {0}
Unreadable (some v) = stoul v ≡ none

size_of_value-Unreadable : (o : Option (List ℕ)) (d : ℕ) → Unreadable o → size_of_value o d ≡ d
unfolding size_of_value
size_of_value-Unreadable none d h = refl
size_of_value-Unreadable (some v) d h = rw (h, size_of_value) refl

bool_of_value-Unreadable : (o : Option (List ℕ)) (d : Bool) → Unreadable o → bool_of_value o d ≡ d
unfolding bool_of_value
bool_of_value-Unreadable none d h = refl
bool_of_value-Unreadable (some v) d h = rw (h, bool_of_value) refl

settings_of-default :
    (env : Env) → ((x : Variable) → Unreadable (env x)) → settings_of env ≡ default_settings
unfolding settings_of
settings_of-default env h = λ i.
    let d = λ (x : Variable) (n : ℕ). size_of_value-Unreadable (env x) n (h x) i in
    record {
      never_free =
          bool_of_value-Unreadable (env Variable.never_free) default_settings.never_free
            (h Variable.never_free) i;
      num_reserve_segments = d Variable.num_reserve_segments default_settings.num_reserve_segments;
      tiny_limit = d Variable.tiny_limit default_settings.tiny_limit;
      small_limit = d Variable.small_limit default_settings.small_limit;
      large_limit = d Variable.large_limit default_settings.large_limit;
      tiny_segment_size = d Variable.tiny_segment_size default_settings.tiny_segment_size;
      small_segment_size = d Variable.small_segment_size default_settings.small_segment_size;
      large_segment_size = d Variable.large_segment_size default_settings.large_segment_size;
    }

-- If every variable is missing in the environment or has a value that cannot be read, the
-- configuration is the default one, which the constructor accepts as it stands.
pub get_default_heap_config-default :
    (env : Env)
    → ((x : Variable) → Unreadable (env x))
    → get_default_heap_config env
      ≡ ok (members default_settings 128 4096 2097152 65536 65536 2097152)
unfolding get_default_heap_config
get_default_heap_config-default env h =
    ap heap_config (settings_of-default env h)
    ∙ heap_config-powers default_settings 7 12 21 16 16 21 refl refl refl refl refl refl
        (omega arith, omega arith, omega arith, omega arith, omega arith, omega arith)
        (omega arith, omega arith, omega arith)
