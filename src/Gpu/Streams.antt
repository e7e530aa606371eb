-- ===== src/Gpu/Streams.antt =====
-- The streams that copies between host and device (src/device_cuda.cpp, src/device_hip.cpp) make.
use hwmalloc.Base.{ℕ, suc, ◌+◌, ◌≡◌, ◌≤◌, ◌∙◌, Bool, true, false, Option, none, some, arith}
use hwmalloc.Outcome.{Outcome, Exception, Call, Ends, and_then-Ends, ◌>>=◌, ◌>>◌}
use hwmalloc.Gpu.{
  Runtime, Direction, host_to_device, device_to_host, CountsStreams, check, checked, check_value,
  checked_value, new, gone,
}
use hwmalloc.Gpu.Cuda
use hwmalloc.Gpu.Hip

new-le : (o : Option ℕ) → new o ≤ 1
new-le none = omega arith
new-le (some s) = omega arith

gone-le : (b : Bool) → gone b ≤ 1
gone-le true = omega arith
gone-le false = omega arith

module _ {W : Type 0} (streams : W → ℕ) where
  -- How many streams there are: n, or n and at most one more.
  abbrev Exactly : {A : Type 0} → ℕ → A → W → Type 0
  Exactly n a w = streams w ≡ n

  abbrev AtMostOneMore : ℕ → Exception → W → Type 0
  AtMostOneMore n e w = (n ≤ streams w) × (streams w ≤ n + 1)

  -- A call that leaves the streams alone, made once or twice.
  checked-Ends :
      (x : W → Bool × W) (n : ℕ) (y : Bool × W)
      → ((w : W) → streams (x w).1 ≡ streams w)
      → streams y.1 ≡ suc n
      → Ends (Exactly (suc n)) (AtMostOneMore n) (checked x y)
  checked-Ends x n (true, w) h e = e
  checked-Ends x n (false, w) h e = (omega (arith, h w, e), omega (arith, h w, e))

  check-Ends :
      (x : W → Bool × W) (n : ℕ) (w : W)
      → ((w : W) → streams (x w).1 ≡ streams w)
      → streams w ≡ suc n
      → Ends (Exactly (suc n)) (AtMostOneMore n) (check x w)
  unfolding check
  check-Ends x n w h e = checked-Ends x n (x w) h (h w ∙ e)

  value-Ends :
      (x : W → Option ℕ × W) (n : ℕ) (y : Option ℕ × W)
      → ((w : W) → streams (x w).1 ≡ streams w)
      → streams y.1 ≡ suc n
      → Ends (Exactly (suc n)) (AtMostOneMore n) (checked_value x y)
  value-Ends x n (some v, w) h e = e
  value-Ends x n (none, w) h e = (omega (arith, h w, e), omega (arith, h w, e))

  module _ (r : Runtime W) (laws : CountsStreams r streams) where
    created-Ends :
        (n : ℕ) (y : Option ℕ × W)
        → streams y.1 ≡ n + new y.0
        → Ends (Exactly (suc n)) (AtMostOneMore n) (checked_value r.stream_create y)
    created-Ends n (some s, w) e = omega (arith, e)
    created-Ends n (none, w) e =
        let m = new-le (r.stream_create w).0 in
        (omega (arith, laws.created w, e), omega (arith, laws.created w, m, e))

    destroyed-Ends :
        (n s : ℕ) (y : Bool × W)
        → streams y.1 + gone y.0 ≡ suc n
        → Ends (Exactly n) (AtMostOneMore n) (checked (r.stream_destroy s) y)
    destroyed-Ends n s (true, w) e = omega (arith, e)
    destroyed-Ends n s (false, w) e =
        let m = gone-le (r.stream_destroy s w).0 in
        let d = laws.destroyed w s (omega (arith, e)) in
        (omega (arith, d, m, e), omega (arith, d, e))

    -- The calls between the making of the stream and the last ones.
    used-Ends :
        (m n dst src count s : ℕ) (d : Direction) (last : ℕ → Call W (Unit {0})) (w : W)
        → ((done : ℕ) (w : W)
            → streams w ≡ suc n
            → Ends (Exactly m) (AtMostOneMore n) (last done w))
        → streams w ≡ suc n
        → Ends (Exactly m) (AtMostOneMore n) (
            (do
              check (r.memcpy_async dst src count d s)
              done ← check_value r.event_create
              check (r.event_record done s)
              check (r.event_synchronize done)
              last done)
              w)
    unfolding check_value
    used-Ends m n dst src count s d last w end e =
        let P = λ (A : Type 0) (a : A) (w : W). Exactly (suc n) a w in
        and_then-Ends (P _) (Exactly m) (AtMostOneMore n) _ _
          (check-Ends (r.memcpy_async dst src count d s) n w (λ w. laws.copied w dst src count s d)
            e)
          λ u w1 e1.
            and_then-Ends (P ℕ) (Exactly m) (AtMostOneMore n) _ _
              (value-Ends r.event_create n (r.event_create w1) laws.event_made
                (laws.event_made w1 ∙ e1))
              λ done w2 e2.
                and_then-Ends (P _) (Exactly m) (AtMostOneMore n) _ _
                  (check-Ends (r.event_record done s) n w2 (λ w. laws.recorded w done s) e2)
                  λ u w3 e3.
                    and_then-Ends (P _) (Exactly m) (AtMostOneMore n) _ _
                      (check-Ends (r.event_synchronize done) n w3 (λ w. laws.synchronized w done)
                        e3)
                      λ u w4 e4. end done w4 e4

    -- A stream is made, used, and left to the last calls.
    copy-Ends :
        (m dst src count : ℕ) (d : Direction) (last : ℕ → ℕ → Call W (Unit {0})) (w : W)
        → ((s done : ℕ) (w1 : W)
            → streams w1 ≡ suc (streams w)
            → Ends (Exactly m) (AtMostOneMore (streams w)) (last s done w1))
        → Ends (Exactly m) (AtMostOneMore (streams w)) (
            (do
              s ← check_value r.stream_create
              check (r.memcpy_async dst src count d s)
              done ← check_value r.event_create
              check (r.event_record done s)
              check (r.event_synchronize done)
              last s done)
              w)
    unfolding check_value
    copy-Ends m dst src count d last w end =
        let n = streams w in
        and_then-Ends (λ (s : ℕ) w1. Exactly (suc n) s w1) (Exactly m) (AtMostOneMore n) _ _
          (created-Ends n (r.stream_create w) (laws.created w))
          λ s w1 e1. used-Ends m n dst src count s d (last s) w1 (end s) e1

    cuda_last :
        (n s done : ℕ) (w : W)
        → streams w ≡ suc n
        → Ends
            (Exactly n)
            (AtMostOneMore n)
            ((check (r.event_destroy done) >> check (r.stream_destroy s)) w)
    unfolding check
    cuda_last n s done w e =
        and_then-Ends (Exactly (suc n)) (Exactly n) (AtMostOneMore n)
          (check (r.event_destroy done) w) _
          (check-Ends (r.event_destroy done) n w (λ w. laws.event_gone w done) e)
          λ u w1 e1.
            destroyed-Ends n s (r.stream_destroy s w1)
              (laws.destroyed w1 s (omega (arith, e1)) ∙ e1)

    hip_last :
        (n s done : ℕ) (w : W)
        → streams w ≡ suc n
        → Ends (Exactly (suc n)) (AtMostOneMore n) (check (r.event_destroy done) w)
    hip_last n s done w e = check-Ends (r.event_destroy done) n w (λ w. laws.event_gone w done) e

    -- From n streams a copy that returns leaves m, and one that throws n or one more.
    abbrev Leaves : ℕ → ℕ → Outcome W (Unit {0}) → Type 0
    Leaves n m o = Ends (λ u w'. streams w' ≡ m) (λ e w'. (n ≤ streams w') × (streams w' ≤ n + 1)) o

    -- A copy over CUDA that returns leaves as many streams as there were, and one over HIP one stream
    -- more: it is never destroyed. A copy that throws, whatever call has failed, leaves as many
    -- streams as there were or one more.
    pub memcpy-Ends :
        (dst src count : ℕ) (w : W)
        → let n = streams w in
          Leaves n n (Cuda.memcpy_to_device r dst src count w)
          × Leaves n n (Cuda.memcpy_to_host r dst src count w)
          × Leaves n (suc n) (Hip.memcpy_to_device r dst src count w)
          × Leaves n (suc n) (Hip.memcpy_to_host r dst src count w)
    unfolding Cuda.memcpy_to_device Cuda.memcpy_to_host Hip.memcpy_to_device Hip.memcpy_to_host
    memcpy-Ends dst src count w =
        let cuda = λ (d : Direction).
          copy-Ends (streams w) dst src count d
            (λ s done. check (r.event_destroy done) >> check (r.stream_destroy s)) w
            (cuda_last (streams w)) in
        let hip = λ (d : Direction).
          copy-Ends (suc (streams w)) dst src count d (λ s done. check (r.event_destroy done)) w
            (hip_last (streams w)) in
        (cuda host_to_device, cuda device_to_host, hip host_to_device, hip device_to_host)
