-- ===== src/Threads/Writes.antt =====
-- The accesses of a thread to a segment (include/hwmalloc/detail/segment.hpp): blocks that go to its
-- freed stack and leave it, and the counter that follows.
pub mod Turns
use native.Mathlib.Decide.{dec_le}
use hwmalloc.Base.{
  ℕ, ◌+◌, ◌%◌, ◌≤◌, ◌<◌, ◌≡◌, ◌≢◌, inl, inr, refl, sym, ap, subst, ◌∙◌, Bool, some, List, ◌∷◌,
  arith, length, count, size_mod,
}
use hwmalloc.Platform.{Block, Platform, IsStack}
use hwmalloc.Segment.{Segment}
use hwmalloc.Segment.Blocks.{owned_by, blocks_down-freed}
use hwmalloc.Pool.{find, update, set_pool}
use hwmalloc.Pool.Map.{update-Below, find-update_cases, find-update_found}
use hwmalloc.Pool.Pages.{CanGrow-same}
use hwmalloc.Pool.Totals.{freed-update, blocks-update}
use hwmalloc.Threads.{Thread, Shared, locks, uncounted, unsubtracted, needs, broken}
use hwmalloc.Threads.Turn.{with_pool, with_segment}
use hwmalloc.Threads.Totals.{total}
use hwmalloc.Threads.Invariant.{Found, moved, IsUsed, Inv}

module _ {W R H S : Type 0} (env : Platform W R H S) (laws : IsStack env.stack) where
  open laws use {contents, capacity}

  abbrev pub rewritten : Segment R S → S → ℕ → Segment R S
  rewritten g f num = record g { freed_stack = f; num_freed = num }

  -- What a thread that goes on may not change but in step with segment a.
  pub record Writes (a : ℕ) (g : Segment R S) (f : S) (num : ℕ) (gs : List (ℕ × Segment R S))
      (r : List (Thread H)) (t t' : Thread H) : Type 0 where
    pub room : capacity f ≡ capacity g.freed_stack
    pub num_small : num < size_mod
    pub own : count (owned_by a) (contents f) ≡ length (contents f)
    pub counted :
        (num + (uncounted a t' + total (uncounted a) r)) % size_mod
        ≡ (length (contents f) + (unsubtracted a t' + total (unsubtracted a) r)) % size_mod
    pub other :
        (k : ℕ) → k ≢ a → (uncounted k t' ≡ uncounted k t) × (unsubtracted k t' ≡ unsubtracted k t)
    pub blocks :
        (q : Block H → Bool)
        → count q (contents f) + moved q t' ≡ count q (contents g.freed_stack) + moved q t
    pub lock : locks t' ≡ locks t
    pub need : (k : ℕ) → 1 ≤ needs k t' → Found k gs
    pub to_count : (k : ℕ) → 1 ≤ uncounted k t' → Found k gs
    pub whole : broken t' ≡ 0

  Found-update :
      (k a : ℕ) (g : Segment R S) (gs : List (ℕ × Segment R S))
      → Found k gs
      → Found k (update a g gs)
  Found-update k a g gs (h, e) = find-update_found k a g h gs e

  pub written-Inv :
      (x : Shared W R H S) (a : ℕ) (g : Segment R S) (f : S) (num : ℕ) (t t' : Thread H)
      (r : List (Thread H))
      → Inv env laws x (t ∷ r)
      → find a x.state.pool.segments ≡ some g
      → Writes a g f num x.state.pool.segments r t t'
      → Inv env laws (with_segment env a (rewritten g f num) x) (t' ∷ r)
  unfolding with_segment with_pool set_pool
  written-Inv x a g f num t t' r v e w =
      let gs = x.state.pool.segments in
      let g' = rewritten g f num in
      let here = v.used a g e in
      record {
        can_grow = CanGrow-same env x.state.pool _ refl refl v.can_grow;
        block_size = v.block_size;
        few = omega (arith, v.few);
        grows = v.grows;
        below = update-Below x.state.next_object a g' gs v.below;
        used = λ k h found. elim (find-update_cases k a g' h gs found) [
          | inl (ka, gh) ↦
              subst (λ m. IsUsed env laws k m (t' ∷ r)) gh
                (subst (λ j. IsUsed env laws j g' (t' ∷ r)) (sym ka)
                  (record {
                    room = w.room ∙ here.room;
                    small = here.small;
                    sized = here.sized;
                    extent = here.extent;
                    extent_small = here.extent_small;
                    num_small = w.num_small;
                    own = w.own;
                    counted = w.counted;
                  }))
          | inr (ne, there) ↦
              let u = v.used k h there in
              record {
                room = u.room;
                small = u.small;
                sized = u.sized;
                extent = u.extent;
                extent_small = u.extent_small;
                num_small = u.num_small;
                own = u.own;
                counted = rw ((w.other k ne).0, (w.other k ne).1) u.counted;
              }
        ];
        balanced = λ q. omega (
          arith,
          v.balanced q,
          w.blocks q,
          freed-update env laws q a g g' gs e,
          ap (count q)
              (blocks-update env laws a g g' gs e (blocks_down-freed env a g g.num_blocks f num)),
        );
        locked = omega (arith, v.locked, w.lock);
        needed = λ k h. Found-update k a g' gs (elim (dec_le 1 (needs k t')) [
          | yes mine ↦ w.need k mine
          | no theirs ↦ v.needed k (omega arith)
        ]);
        to_count = λ k h. Found-update k a g' gs (elim (dec_le 1 (uncounted k t')) [
          | yes mine ↦ w.to_count k mine
          | no theirs ↦ v.to_count k (omega arith)
        ]);
        unbroken = omega (arith, v.unbroken, w.whole);
      }
