-- ===== src/Config/Verdict.antt =====
-- What the constructor of `heap_config` (src/heap_config.cpp) ends in, on all of its branches.
use hwmalloc.Base.{◌≤◌, ◌<◌, ◌⊎◌, inl, inr, ◌&&◌, arith, ltb, leb, Bool-cases, ◌^◌}
use hwmalloc.Config.{
  HeapConfig, Settings, limits_out_of_order, limits_above_segments, Made, ok, threw, members,
  validate, heap_config,
}
use hwmalloc.Config.Log2.{IsRoundUp, round_to_pow_of_2-IsRoundUp}

-- The sizes for which the rounding is defined.
pub record Roundable (s : Settings) : Type 0 where
  pub tiny_limit : (1 ≤ s.tiny_limit) × (s.tiny_limit ≤ 2 ^ 31)
  pub small_limit : (1 ≤ s.small_limit) × (s.small_limit ≤ 2 ^ 31)
  pub large_limit : (1 ≤ s.large_limit) × (s.large_limit ≤ 2 ^ 31)
  pub tiny_segment_size : (1 ≤ s.tiny_segment_size) × (s.tiny_segment_size ≤ 2 ^ 31)
  pub small_segment_size : (1 ≤ s.small_segment_size) × (s.small_segment_size ≤ 2 ^ 31)
  pub large_segment_size : (1 ≤ s.large_segment_size) × (s.large_segment_size ≤ 2 ^ 31)

-- The members are the settings rounded up.
pub record Rounds (s : Settings) (c : HeapConfig) : Type 0 where
  pub tiny : IsRoundUp s.tiny_limit c.tiny_limit
  pub small : IsRoundUp s.small_limit c.small_limit
  pub large : IsRoundUp s.large_limit c.large_limit
  pub tiny_segment : IsRoundUp s.tiny_segment_size c.tiny_segment_size
  pub small_segment : IsRoundUp s.small_segment_size c.small_segment_size
  pub large_segment : IsRoundUp s.large_segment_size c.large_segment_size

-- The three ends of the constructor, each with its reason: the rounded limits are not in order; they
-- are, but a limit that was given is above its segment size; or neither.
pub data Verdict (s : Settings) (c : HeapConfig) : Made → Type 0 where
  out_of_order :
      (c.small_limit ≤ c.tiny_limit) ⊎ (c.large_limit ≤ c.small_limit)
      → Verdict s c (threw limits_out_of_order)
  above_segment :
      (c.tiny_limit < c.small_limit)
      → (c.small_limit < c.large_limit)
      → (s.tiny_segment_size < s.tiny_limit)
        ⊎ (s.small_segment_size < s.small_limit)
        ⊎ (s.large_segment_size < s.large_limit)
      → Verdict s c (threw limits_above_segments)
  accepted :
      (c.tiny_limit < c.small_limit)
      → (c.small_limit < c.large_limit)
      → s.tiny_limit ≤ s.tiny_segment_size
      → s.small_limit ≤ s.small_segment_size
      → s.large_limit ≤ s.large_segment_size
      → Verdict s c (ok c)

validate-Verdict : (s : Settings) (c : HeapConfig) → Verdict s c (validate s c)
unfolding validate
validate-Verdict s c =
    elim (Bool-cases (ltb c.tiny_limit c.small_limit && ltb c.small_limit c.large_limit)) [
      | inl ordered ↦
          let lt1 : c.tiny_limit < c.small_limit = ground arith in
          let lt2 : c.small_limit < c.large_limit = ground arith in
          elim (Bool-cases (
            leb s.tiny_limit s.tiny_segment_size
            && leb s.small_limit s.small_segment_size
            && leb s.large_limit s.large_segment_size)) [
              | inl within ↦
                  rw (ordered, within)
                    (accepted lt1 lt2 (ground arith) (ground arith) (ground arith))
              | inr beyond ↦ rw (ordered, beyond) (above_segment lt1 lt2 (ground arith))
            ]
      | inr unordered ↦ rw unordered (out_of_order (ground arith))
    ]

-- With six sizes from 1 to 2 ^ 31 the constructor ends in one of its three ways, and for the reason
-- that belongs to it: the rounded limits are not in order; or they are, but a limit is above its
-- segment size as they were given; or neither, and the members are the settings rounded up.
pub heap_config-Verdict :
    (s : Settings) → Roundable s → (c : HeapConfig) × Rounds s c × Verdict s c (heap_config s)
unfolding heap_config members
heap_config-Verdict s r =
    let (t, et, ut) = round_to_pow_of_2-IsRoundUp s.tiny_limit r.tiny_limit.0 r.tiny_limit.1 in
    let (m, em, um) = round_to_pow_of_2-IsRoundUp s.small_limit r.small_limit.0 r.small_limit.1 in
    let (l, el, ul) = round_to_pow_of_2-IsRoundUp s.large_limit r.large_limit.0 r.large_limit.1 in
    let (a, ea, ua) =
      round_to_pow_of_2-IsRoundUp s.tiny_segment_size r.tiny_segment_size.0 r.tiny_segment_size.1 in
    let (b, eb, ub) =
      round_to_pow_of_2-IsRoundUp s.small_segment_size r.small_segment_size.0
        r.small_segment_size.1 in
    let (d, ed, ud) =
      round_to_pow_of_2-IsRoundUp s.large_segment_size r.large_segment_size.0
        r.large_segment_size.1 in
    let c = members s t m l a b d in
    (
      c,
      record {
        tiny = ut;
        small = um;
        large = ul;
        tiny_segment = ua;
        small_segment = ub;
        large_segment = ud;
      },
      rw (et, em, el, ea, eb, ed) (validate-Verdict s c),
    )
