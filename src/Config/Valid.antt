-- ===== src/Config/Valid.antt =====
-- What the constructor of `heap_config` (src/heap_config.cpp) guarantees of the object it makes.
use mathlib.Core.Option.{some-injective}
use native.Mathlib.Decide.{dec_le}
use hwmalloc.Base.{
  ℕ, suc, ◌-◌, ◌/◌, ◌^◌, ◌≤◌, ◌<◌, ◌≡◌, refl, sym, ap, subst, ◌∙◌, inl, inr, Option, none, some,
  arith, size_mod, two-pow-lt_inv, two-pow-lt, two-pow_mono,
}
use hwmalloc.Config.{
  HeapConfig, Settings, Made, ok, members, validate, heap_config, log2_c, round_to_pow_of_2,
  tiny_increment, ◌>>=◌,
}
use hwmalloc.Config.Log2.{
  IsRoundUp, round_to_pow_of_2-IsRoundUp, round_to_pow_of_2-none, round_to_pow_of_2_mono,
  round_to_pow_of_2-pow, log2_c-pow,
}

-- The limits are the powers 2 ^ t, 2 ^ s and 2 ^ l with t < s < l, the derived members are the
-- exponents' differences, and no limit exceeds its segment size.
pub record IsValid (c : HeapConfig) : Type 0 where
  pub t : ℕ
  pub s : ℕ
  pub l : ℕ
  pub t_pos : 1 ≤ t
  pub t-lt-s : t < s
  pub s-lt-l : s < l
  pub l_small : l < 32
  pub tiny : c.tiny_limit ≡ 2 ^ t
  pub small : c.small_limit ≡ 2 ^ s
  pub large : c.large_limit ≡ 2 ^ l
  pub shift : c.bucket_shift ≡ t
  pub num_tiny : c.num_tiny_heaps ≡ 2 ^ t / tiny_increment
  pub num_small : c.num_small_heaps ≡ s - t
  pub num_large : c.num_large_heaps ≡ l - s
  pub tiny_fits : c.tiny_limit ≤ c.tiny_segment_size
  pub small_fits : c.small_limit ≤ c.small_segment_size
  pub large_fits : c.large_limit ≤ c.large_segment_size

-- Every argument is a `std::size_t`.
pub record InRange (s : Settings) : Type 0 where
  pub tiny_limit : s.tiny_limit < size_mod
  pub small_limit : s.small_limit < size_mod
  pub large_limit : s.large_limit < size_mod
  pub tiny_segment_size : s.tiny_segment_size < size_mod
  pub small_segment_size : s.small_segment_size < size_mod
  pub large_segment_size : s.large_segment_size < size_mod

bind-ok :
    (m : Option ℕ) (f : ℕ → Made) (c : HeapConfig)
    → (m >>= f) ≡ ok c
    → (a : ℕ) × (m ≡ some a) × (f a ≡ ok c)
bind-ok none f c e = cc
bind-ok (some a) f c e = (a, refl, e)

validate-ok :
    (s : Settings) (c d : HeapConfig)
    → validate s c ≡ ok d
    → (c ≡ d)
      × (c.tiny_limit < c.small_limit)
      × (c.small_limit < c.large_limit)
      × (s.tiny_limit ≤ s.tiny_segment_size)
      × (s.small_limit ≤ s.small_segment_size)
      × (s.large_limit ≤ s.large_segment_size)
unfolding validate
validate-ok s c d e = ground arith

-- A rounding that is defined was given a size from 1 to 2 ^ 31.
round_defined : (n r : ℕ) → n < size_mod → round_to_pow_of_2 n ≡ some r → (1 ≤ n) × IsRoundUp n r
round_defined n r lt e = elim (dec_le n (2 ^ 31)) [
  | yes small ↦ elim (dec_le 1 n) [
    | yes pos ↦
        let u = round_to_pow_of_2-IsRoundUp n pos small in
        (pos, subst (IsRoundUp n) (some-injective _ _ (sym u.1 ∙ e)) u.2)
    | no zero ↦ absurd (cc (round_to_pow_of_2-none n lt (inl (omega arith))))
  ]
  | no big ↦ absurd (cc (round_to_pow_of_2-none n lt (inr (omega arith))))
]

log2_c-round : (n r : ℕ) (u : IsRoundUp n r) → log2_c r ≡ suc u.exponent
log2_c-round n r u = ap log2_c u.power ∙ log2_c-pow u.exponent

members-IsValid :
    (s : Settings) (tiny small large tiny_seg small_seg large_seg : ℕ)
    → IsRoundUp s.tiny_limit tiny
    → IsRoundUp s.small_limit small
    → IsRoundUp s.large_limit large
    → tiny < small
    → small < large
    → tiny ≤ tiny_seg
    → small ≤ small_seg
    → large ≤ large_seg
    → IsValid (members s tiny small large tiny_seg small_seg large_seg)
unfolding members
members-IsValid s tiny small large tiny_seg small_seg large_seg rt rs rl ts sl ft fs fl =
    let lt = log2_c-round s.tiny_limit tiny rt in
    let ls = log2_c-round s.small_limit small rs in
    let ll = log2_c-round s.large_limit large rl in
    let t-lt-s = two-pow-lt_inv rt.exponent rs.exponent (omega (arith, rt.power, rs.power)) in
    let s-lt-l = two-pow-lt_inv rs.exponent rl.exponent (omega (arith, rs.power, rl.power)) in
    record {
      t = rt.exponent;
      s = rs.exponent;
      l = rl.exponent;
      t_pos = rt.exponent_pos;
      t-lt-s = t-lt-s;
      s-lt-l = s-lt-l;
      l_small = rl.exponent_small;
      tiny = rt.power;
      small = rs.power;
      large = rl.power;
      shift = rw lt (omega (arith, rt.exponent_small));
      num_tiny = ap (λ k. k / tiny_increment) rt.power;
      num_small = rw (ls, lt) (omega (arith, t-lt-s, rs.exponent_small));
      num_large = rw (ll, ls) (omega (arith, s-lt-l, rl.exponent_small));
      tiny_fits = ft;
      small_fits = fs;
      large_fits = fl;
    }

-- Every configuration that the constructor returns is valid, whatever sizes it was given.
pub heap_config-IsValid :
    (s : Settings) (c : HeapConfig) → InRange s → heap_config s ≡ ok c → IsValid c
unfolding heap_config
heap_config-IsValid s c r e =
    let (tiny, et, e1) = bind-ok _ _ c e in
    let (small, es, e2) = bind-ok _ _ c e1 in
    let (large, el, e3) = bind-ok _ _ c e2 in
    let (tiny_seg, ets, e4) = bind-ok _ _ c e3 in
    let (small_seg, ess, e5) = bind-ok _ _ c e4 in
    let (large_seg, els, e6) = bind-ok _ _ c e5 in
    let v = validate-ok s _ c e6 in
    let (pt, rt) = round_defined s.tiny_limit tiny r.tiny_limit et in
    let (ps, rs) = round_defined s.small_limit small r.small_limit es in
    let (pl, rl) = round_defined s.large_limit large r.large_limit el in
    subst IsValid v.0 (
      members-IsValid s tiny small large tiny_seg small_seg large_seg rt rs rl v.1 v.2
        (round_to_pow_of_2_mono _ _ tiny tiny_seg pt v.3 r.tiny_segment_size et ets)
        (round_to_pow_of_2_mono _ _ small small_seg ps v.4 r.small_segment_size es ess)
        (round_to_pow_of_2_mono _ _ large large_seg pl v.5 r.large_segment_size el els))

round_of : (n k : ℕ) → n ≡ 2 ^ k → 1 ≤ k → k < 32 → round_to_pow_of_2 n ≡ some n
round_of n k e lo hi = rw e (round_to_pow_of_2-pow k lo hi)

validate-accepts :
    (s : Settings) (c : HeapConfig)
    → c.tiny_limit < c.small_limit
    → c.small_limit < c.large_limit
    → s.tiny_limit ≤ s.tiny_segment_size
    → s.small_limit ≤ s.small_segment_size
    → s.large_limit ≤ s.large_segment_size
    → validate s c ≡ ok c
unfolding validate
validate-accepts s c a b d e f = ground arith

-- A configuration whose six sizes are powers of two, ordered and with limits within the segment
-- sizes, is accepted as it stands.
pub heap_config-powers :
    (s : Settings) (t m l a b d : ℕ)
    → s.tiny_limit ≡ 2 ^ t
    → s.small_limit ≡ 2 ^ m
    → s.large_limit ≡ 2 ^ l
    → s.tiny_segment_size ≡ 2 ^ a
    → s.small_segment_size ≡ 2 ^ b
    → s.large_segment_size ≡ 2 ^ d
    → (1 ≤ t) × (t < m) × (m < l) × (t ≤ a) × (m ≤ b) × (l ≤ d)
    → (a < 32) × (b < 32) × (d < 32)
    → heap_config s
      ≡ ok (
          members s s.tiny_limit s.small_limit s.large_limit s.tiny_segment_size
            s.small_segment_size s.large_segment_size)
unfolding heap_config
heap_config-powers s t m l a b d et em el ea eb ed o w =
    rw
      (
        round_of s.tiny_limit t et (omega arith) (omega arith),
        round_of s.small_limit m em (omega arith) (omega arith),
        round_of s.large_limit l el (omega arith) (omega arith),
        round_of s.tiny_segment_size a ea (omega arith) (omega arith),
        round_of s.small_segment_size b eb (omega arith) (omega arith),
        round_of s.large_segment_size d ed (omega arith) (omega arith),
      )
      (validate-accepts s
        (members s s.tiny_limit s.small_limit s.large_limit s.tiny_segment_size s.small_segment_size
          s.large_segment_size)
        (rw (et, em) (two-pow-lt t m o.1)) (rw (em, el) (two-pow-lt m l o.2))
        (rw (et, ea) (two-pow_mono t a o.3)) (rw (em, eb) (two-pow_mono m b o.4))
        (rw (el, ed) (two-pow_mono l d o.5)))
