-- ===== src/Pool/Frees.antt =====
-- `free` of include/hwmalloc/detail/pool.hpp on a block that a caller holds.
use hwmalloc.Base.{
  ◌≡◌, ◌≡◌, ◌≡◌, ◌≡◌, ◌≡◌, ◌≡◌, sym, ◌≡◌, ◌≡◌, subst, ℕ, ◌≤◌, ◌<◌, ◌≡◌, inl, inr, refl, ap, ◌∙◌,
  Bool, not, ◌&&◌, some, List, ◌∷◌, arith, length, count, if◌then◌else◌, eq→==, Bool-cases,
  add_size,
}
use hwmalloc.Platform.{Block, Platform, IsStack}
use hwmalloc.Outcome.{returns, Leaves}
use hwmalloc.Segment.{Segment, is_empty, blocks_down}
use hwmalloc.Segment
use hwmalloc.Segment.Blocks.{owned_by, blocks_down-freed}
use hwmalloc.Segment.Collect.{Freed, free-Freed}
use hwmalloc.Pool.{State, find, update, set_pool}
use hwmalloc.Pool.Free.{shrink, free}
use hwmalloc.Pool.Map.{update-Below, find-update, length-update}
use hwmalloc.Pool.Totals.{
  find-IsValid, update-AllValid, freed-update, blocks-update, count-blocks_own, find_of_owned,
  freed-le,
}
use hwmalloc.Pool.Invariant.{SameBlocks, Inv}
use hwmalloc.Pool.Shrinks.{Kept, kept, shrink-Inv}

module _ {W R H S : Type 0} (env : Platform W R H S) (laws : IsStack env.stack) where
  open laws use {contents, capacity}

  -- What is guaranteed of `free`: it returns or throws, and the invariant holds of the blocks that
  -- are left.
  pub record Freeing (s : State W R S) (b : Block H) (rest : List (Block H)) : Type 0 where
    pub after : State W R S
    pub result : Leaves after (free env b s)
    pub inv : Inv env laws after rest
    pub segments : List (ℕ × Segment R S)
    pub written : length segments ≡ length s.pool.segments
    pub shrunk : Kept s.pool.num_reserve_segments b.segment segments after.pool.segments

  -- The pool after the block has gone back to its segment.
  abbrev written : State W R S → ℕ → Segment R S → State W R S
  written s a g = set_pool (record s.pool { segments = update a g s.pool.segments }) s

  free-step :
      (s : State W R S) (b : Block H) (g g' : Segment R S)
      → find b.segment s.pool.segments ≡ some g
      → Segment.free env g b ≡ some g'
      → free env b s ≡ (
          if not s.pool.never_free && is_empty g'
          then shrink env b.segment g' (written s b.segment g')
          else returns tt (written s b.segment g'))
  unfolding free
  free-step s b g g' e f = rw (e, f, free)

  -- The rest of `free`, from the state in which the block has gone back.
  free_rest :
      (s : State W R S) (b : Block H) (rest : List (Block H)) (g g' : Segment R S)
      → find b.segment s.pool.segments ≡ some g
      → Segment.free env g b ≡ some g'
      → Inv env laws (written s b.segment g') rest
      → Freeing s b rest
  unfolding set_pool
  free_rest s b rest g g' e f inv1 =
      let a = b.segment in
      let s1 = written s a g' in
      let step = free-step s b g g' e f in
      let branch = λ (c : Bool). if c then shrink env a g' s1 else returns tt s1 in
      elim (Bool-cases (not s.pool.never_free && is_empty g')) [
        | inl shrinks ↦
            let (s2, r, inv2, k) =
              shrink-Inv env laws a g' s1 rest inv1 (find-update a g g' s.pool.segments e)
                (ground arith) in
            record {
              after = s2;
              result = subst (Leaves s2) (sym (step ∙ ap branch shrinks)) r;
              inv = inv2;
              segments = update a g' s.pool.segments;
              written = length-update a g' s.pool.segments;
              shrunk = k;
            }
        | inr stays ↦ record {
          after = s1;
          result = inl (step ∙ ap branch stays);
          inv = inv1;
          segments = update a g' s.pool.segments;
          written = length-update a g' s.pool.segments;
          shrunk = kept refl;
        }
      ]

  written-Inv :
      (s : State W R S) (live rest : List (Block H)) (b : Block H) (g : Segment R S)
      → Inv env laws s live
      → SameBlocks live (b ∷ rest)
      → find b.segment s.pool.segments ≡ some g
      → (f : Freed env laws b.segment g b)
      → Inv env laws
          (written s b.segment
            (record g { freed_stack = f.after; num_freed = add_size g.num_freed 1 }))
          rest
  unfolding set_pool
  written-Inv s live rest b g v same e f =
      let a = b.segment in
      let gs = s.pool.segments in
      let g' = record g { freed_stack = f.after; num_freed = add_size g.num_freed 1 } in
      record {
        unlocked = v.unlocked;
        sound = record {
          grows = v.sound.grows;
          below = update-Below s.next_object a g' gs v.sound.below;
          valid = update-AllValid env laws a g' gs f.valid v.sound.valid;
          balanced = λ q. omega (
            arith,
            v.sound.balanced q,
            same q,
            f.counts q,
            freed-update env laws q a g g' gs e,
            ap (count q) (
                blocks-update env laws a g g' gs e
                  (blocks_down-freed env a g g.num_blocks f.after (add_size g.num_freed 1))),
          );
        };
      }

  pub free-Freeing :
      (s : State W R S) (live rest : List (Block H)) (b : Block H)
      → Inv env laws s live
      → SameBlocks live (b ∷ rest)
      → Freeing s b rest
  free-Freeing s live rest b v same =
      let own = λ (c : Block H). owned_by b.segment c in
      let gs = s.pool.segments in
      let one : 1 ≤ count own live =
        omega (
          arith,
          same own,
          ap {B = ℕ} (λ c. if c then 1 else 0) (eq→== b.segment b.segment refl),
        ) in
      let (g, e) = find_of_owned env laws b.segment gs (omega (arith, v.sound.balanced own, one)) in
      let gv = find-IsValid env laws b.segment g gs e v.sound.valid in
      let room : length (contents g.freed_stack) < g.num_blocks = omega (
        arith,
        v.sound.balanced own,
        count-blocks_own env laws b.segment s.next_object g gs v.sound.below e,
        freed-le env laws own b.segment g gs e,
        gv.own,
      ) in
      let f = free-Freed env laws b.segment g b gv refl room in
      free_rest s b rest g _ e f.result (written-Inv s live rest b g v same e f)
