-- ===== src/Heap/Frees.antt =====
-- `heap::free` (include/hwmalloc/heap.hpp) of a block that a caller holds.
use hwmalloc.Base.{
  ℕ, ◌≤◌, ◌≡◌, ◌≢◌, inl, inr, refl, sym, ap, subst, ◌∙◌, Bool, false, some, List, [], ◌∷◌, arith,
  count, ◌==◌, if◌then◌else◌, eq→==, ==→eq, Option-cases, Bool-cases,
}
use hwmalloc.Config.{HeapConfig}
use hwmalloc.Numa.Tools.{Os}
use hwmalloc.Platform.{Block, Platform, IsStack}
use hwmalloc.Outcome.{Outcome, Leaves}
use hwmalloc.Segment.{Segment}
use hwmalloc.Segment.Blocks.{owned_by}
use hwmalloc.Pool.{Pool, find}
use hwmalloc.Pool.Free
use hwmalloc.Pool.Totals.{find_of_owned}
use hwmalloc.Pool.Invariant.{SameBlocks, Inv}
use hwmalloc.Pool.Frees.{free-Freeing}
use hwmalloc.Pool
use hwmalloc.Pool.Frame.{Leaves-After, Frame}
use hwmalloc.Pool.Frame.Frees.{free-Frame}
use hwmalloc.Heap.{Heap, State}
use hwmalloc.Heap.Spots.{Spot, pool_at, spots}
use hwmalloc.Heap.Spots.Laws.{pool_at-put_pool_ne}
use hwmalloc.Heap.Spots.Search.{Among, Among-spots}
use hwmalloc.Heap.Release.{
  Memory, segment_in, pool_in, inside, after, back_at, free_in, free_from, release_from_segment,
  in_memory, release, free,
}
use hwmalloc.Heap.Built.{Built, step-Built}
use hwmalloc.Heap.Whole.{Whole, replaced, step-Whole_same}

module _ {R S : Type 0} where
  -- The search for a segment that is there ends at one with its address.
  segment_in-found :
      (a : ℕ) (h : Heap R S) (ts : List Spot) (t : Spot) (p : Pool R S) (g : Segment R S)
      → Among t ts
      → pool_at h t ≡ some p
      → find a p.segments ≡ some g
      → (u : Spot) × (q : Pool R S) × (k : Segment R S) × (pool_at h u ≡ some q)
        × (find a q.segments ≡ some k)
        × (segment_in a h ts ≡ some k)
  unfolding segment_in
  segment_in-found a h [] t p g m e f = absurd m
  segment_in-found a h (u ∷ ts) t p g (inl same) e f =
      let e' : pool_at h u ≡ some p = ap (pool_at h) same ∙ e in
      (u, p, g, e', f, rw (e', segment_in) (rw (f, segment_in) refl))
  segment_in-found a h (u ∷ ts) t p g (inr m) e f =
      let (v, q, k, ev, ek, r) = segment_in-found a h ts t p g m e f in
      elim (Option-cases (pool_at h u)) [
        | inl gone ↦ (v, q, k, ev, ek, rw (gone, segment_in) r)
        | inr (p', here) ↦ elim (Option-cases (find a p'.segments)) [
          | inl miss ↦ (v, q, k, ev, ek, rw (here, segment_in) (rw (miss, segment_in) r))
          | inr (g', hit) ↦
              (u, p', g', here, hit, rw (here, segment_in) (rw (hit, segment_in) refl))
        ]
      ]

  -- And so does that for a pool.
  pool_in-found :
      (a : ℕ) (h : Heap R S) (ts : List Spot) (t : Spot) (p : Pool R S)
      → Among t ts
      → pool_at h t ≡ some p
      → p.self ≡ a
      → (u : Spot) × (q : Pool R S) × (pool_at h u ≡ some q)
        × (q.self ≡ a)
        × (pool_in a h ts ≡ some (u, q))
  unfolding pool_in
  pool_in-found a h [] t p m e f = absurd m
  pool_in-found a h (u ∷ ts) t p (inl same) e f =
      let e' : pool_at h u ≡ some p = ap (pool_at h) same ∙ e in
      (u, p, e', f, rw (e', pool_in) (rw (eq→== p.self a f) refl))
  pool_in-found a h (u ∷ ts) t p (inr m) e f =
      let (v, q, ev, ea, r) = pool_in-found a h ts t p m e f in
      elim (Option-cases (pool_at h u)) [
        | inl gone ↦ (v, q, ev, ea, rw (gone, pool_in) r)
        | inr (p', here) ↦ elim (Bool-cases (p'.self == a)) [
          | inl hit ↦ (u, p', here, ==→eq p'.self a hit, rw (here, pool_in) (rw hit refl))
          | inr miss ↦ (v, q, ev, ea, rw (here, pool_in) (rw miss r))
        ]
      ]

module _ {W R H S : Type 0} (env : Platform W R H S) (laws : IsStack env.stack) where
  -- The block's pool: there is one at its spot, with the segment that the block points to.
  pub home :
      (locked : Spot → Bool) (s : State W R S) (live : Spot → List (Block H)) (t : Spot)
      (b : Block H) (rest : List (Block H))
      → Whole env laws locked s live
      → SameBlocks (live t) (b ∷ rest)
      → (p : Pool R S) × (g : Segment R S) × (pool_at s.heap t ≡ some p)
        × (find b.segment p.segments ≡ some g)
  home locked s live t b rest v same =
      let own = λ (c : Block H). owned_by b.segment c in
      let one : 1 ≤ count own (live t) =
        omega (
          arith,
          same own,
          ap {B = ℕ} (λ c. if c then 1 else 0) (eq→== b.segment b.segment refl),
        ) in
      elim (Option-cases (pool_at s.heap t)) [
        | inl gone ↦ absurd (omega (arith, one, ap (count own) (v.nowhere t gone).0))
        | inr (p, there) ↦
            let (g, e) =
              find_of_owned env laws b.segment p.segments
                (omega (arith, (v.members t p there).sound.balanced own, one)) in
            (p, g, there, e)
      ]

  -- The pointers of the block lead to that pool.
  release_from_segment-home :
      (locked : Spot → Bool) (s : State W R S) (live : Spot → List (Block H)) (t : Spot)
      (b : Block H) (p : Pool R S) (g : Segment R S)
      → Whole env laws locked s live
      → pool_at s.heap t ≡ some p
      → find b.segment p.segments ≡ some g
      → release_from_segment env b s ≡ back_at env s t (Free.free env b (inside env s p))
  unfolding release_from_segment free_from free_in
  release_from_segment-home locked s live t b p g v there e =
      let a = b.segment in
      let ts = spots s.heap in
      let (u, q, k, eq, ek, found) =
        segment_in-found a s.heap ts t p g (Among-spots s.heap t p there) there e in
      let tu : t ≡ u = v.one_segment t u p q a g k there eq e ek in
      let points : k.pool ≡ q.self = ap (λ (l : ℕ × ℕ). l.0) ((v.members u q eq).own a k ek).1 in
      let (w, r, er, self, lead) =
        pool_in-found k.pool s.heap ts u q (Among-spots s.heap u q eq) eq (sym points) in
      let wt : w ≡ t = v.one_pool w u r q er eq (self ∙ points) ∙ sym tu in
      let rp : r ≡ p = ground (arith, er, ap (pool_at s.heap) wt, there) in
      rw (found, free_from)
        (rw (lead, free_in)
          (ap (λ (x : Spot × Pool R S). back_at env s x.0 (Free.free env b (inside env s x.1)))
            (λ i. (wt i, rp i))))

  back_at-Leaves :
      (m : Memory W R S) (s : State W R S) (t : Spot) (s' : Pool.State W R S)
      (o : Outcome (Pool.State W R S) (Unit {0}))
      → Leaves s' o
      → Leaves (record m { state = after env s t s' }) (in_memory env m (back_at env s t o))
  back_at-Leaves m s t s' o (inl e) = inl (ap (λ x. in_memory env m (back_at env s t x)) e)
  back_at-Leaves m s t s' o (inr (x, e)) = inr (x, ap (λ y. in_memory env m (back_at env s t y)) e)

  -- A block that a caller holds, of a pool that no exception has locked, goes back to the pool it is
  -- from: `free` returns or throws, the heap stays whole, the block is no longer among those that are held, and
  -- every other pool is left as it was. The heap goes on to serve all size classes.
  pub free-Whole :
      (os : Os W) (m : Memory W R S) (locked : Spot → Bool) (live : Spot → List (Block H))
      (t : Spot) (b : Block H) (rest : List (Block H))
      → Whole env laws locked m.state live
      → locked t ≡ false
      → SameBlocks (live t) (b ∷ rest)
      → (s' : State W R S) × Leaves (record m { state = s' }) (free env os b m)
        × Whole env laws locked s' (replaced live t rest)
        × ((u : Spot) → u ≢ t → pool_at s'.heap u ≡ pool_at m.state.heap u)
        × ((c : HeapConfig) (l : ℕ) → Built env c l m.state → Built env c l s')
  unfolding free release
  free-Whole os m locked live t b rest v open_now same =
      let s = m.state in
      let (p, g, there, e) = home locked s live t b rest v same in
      let mem = v.members t p there in
      let inv : Inv env laws (inside env s p) (live t) = record {
        unlocked = mem.mutex ∙ open_now;
        sound = mem.sound;
      } in
      let f = free-Freeing env laws (inside env s p) (live t) rest b inv same in
      let frame : Frame (inside env s p) f.after =
        Leaves-After (Frame (inside env s p)) f.after (Free.free env b (inside env s p)) f.result
          (free-Frame env (inside env s p) b mem.sound.below) in
      let found : (b.segment == 0) ≡ false = ground (arith, (mem.own b.segment g e).0) in
      let step : Leaves (record m { state = after env s t f.after })
          (in_memory env m (release_from_segment env b s)) =
        subst (λ o. Leaves (record m { state = after env s t f.after }) (in_memory env m o))
          (sym (release_from_segment-home locked s live t b p g v there e))
          (back_at-Leaves m s t f.after (Free.free env b (inside env s p)) f.result) in
      (
        after env s t f.after,
        rw found step,
        step-Whole_same env laws locked s live v t p there f.after frame rest
            (f.inv.unlocked ∙ sym open_now) f.inv.sound,
        λ u ne. pool_at-put_pool_ne s.heap t u p f.after.pool there ne,
        λ c l built. step-Built env s t p there f.after frame c l built,
      )
