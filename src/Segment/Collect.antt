-- ===== src/Segment/Collect.antt =====
-- The operations of a segment (include/hwmalloc/detail/segment.hpp) over stacks that behave as
-- documented.
use hwmalloc.Base.{
  ℕ, ◌*◌, ◌+◌, ◌≤◌, ◌<◌, ◌≡◌, refl, ap, ◌∙◌, Bool, none, some, List, [], ◌∷◌, arith, length, count,
  add_size, sub_size, size_mod, eq→==, if◌then◌else◌,
}
use hwmalloc.Platform.{Block, Platform, Lockfree, IsStack}
use hwmalloc.Segment.{Segment, push_all, collect, free}
use hwmalloc.Segment.Blocks.{owned_by}

module _ {B S : Type 0} {k : Lockfree B S} (laws : IsStack k) where
  open laws use {contents, capacity}

  -- A stack that grows takes all the elements that are pushed.
  pub record Pushed (bs : List B) (s : S) : Type 0 where
    pub after : S
    pub result : push_all k bs s ≡ some after
    pub grows : capacity after ≡ none
    pub counts : (p : B → Bool) → count p (contents after) ≡ count p bs + count p (contents s)

  pub push_all-Pushed : (bs : List B) (s : S) → capacity s ≡ none → Pushed bs s
  push_all-Pushed [] s d = record { after = s; result = refl; grows = d; counts = λ p. omega arith }
  push_all-Pushed (b ∷ bs) s d =
      let (t, e, c, cap) = laws.push-dynamic s b d in
      let rest = push_all-Pushed bs t (cap ∙ d) in
      record {
        after = rest.after;
        result = rw (e, push_all) rest.result;
        grows = rest.grows;
        counts = λ p. omega (arith, rest.counts p, ap (count p) c);
      }

module _ {W R H S : Type 0} (env : Platform W R H S) (laws : IsStack env.stack) where
  open laws use {contents, capacity}

  -- What holds of every segment between the calls: the counter counts the freed stack, whose
  -- capacity is the number of blocks, only blocks of the segment are on it, and all blocks lie in its
  -- memory.
  pub record IsValid (a : ℕ) (g : Segment R S) : Type 0 where
    pub room : capacity g.freed_stack ≡ some g.num_blocks
    pub counted : g.num_freed ≡ length (contents g.freed_stack)
    pub small : g.num_blocks < size_mod
    pub extent : g.num_blocks * g.block_size ≤ g.allocation.size
    pub extent_small : g.allocation.size < size_mod
    pub own : count (owned_by a) (contents g.freed_stack) ≡ length (contents g.freed_stack)

  -- What `collect` makes of a segment and of the stack that takes the blocks.
  pub record Collected (a : ℕ) (g : Segment R S) (t : S) : Type 0 where
    pub rest : S
    pub after : S
    pub result :
        collect env g t
        ≡ some
            (length (contents g.freed_stack), record g { freed_stack = rest; num_freed = 0 }, after)
    pub valid : IsValid a (record g { freed_stack = rest; num_freed = 0 })
    pub emptied : contents rest ≡ []
    pub grows : capacity after ≡ none
    pub counts :
        (p : Block H → Bool)
        → count p (contents after) ≡ count p (contents g.freed_stack) + count p (contents t)

  -- A valid segment is collected to a stack that grows: exactly the freed blocks go there, their
  -- number is returned, and the segment is valid, with an empty freed stack and a counter of zero.
  pub collect-Collected :
      (a : ℕ) (g : Segment R S) (t : S) → IsValid a g → capacity t ≡ none → Collected a g t
  unfolding collect
  collect-Collected a g t v d =
      let bs = (env.stack.consume_all g.freed_stack).0 in
      let rest = (env.stack.consume_all g.freed_stack).1 in
      let e = laws.consumed g.freed_stack in
      let m = push_all-Pushed laws bs t d in
      let none_left : sub_size g.num_freed (length bs) ≡ 0 =
        omega (arith, v.counted, ap length e) in
      let empty = laws.emptied g.freed_stack in
      record {
        rest = rest;
        after = m.after;
        result =
            rw (m.result, collect)
              (λ i.
                some (
                  length (e i),
                  record g { freed_stack = rest; num_freed = none_left i },
                  m.after,
                ));
        valid = record {
          room = laws.capacity-consumed g.freed_stack ∙ v.room;
          counted = omega (arith, ap length empty);
          small = v.small;
          extent = v.extent;
          extent_small = v.extent_small;
          own = rw empty refl;
        };
        emptied = empty;
        grows = m.grows;
        counts = λ p. omega (arith, m.counts p, ap (count p) e);
      }

  -- What `free` makes of a segment.
  pub record Freed (a : ℕ) (g : Segment R S) (b : Block H) : Type 0 where
    pub after : S
    pub result :
        free env g b ≡ some (record g { freed_stack = after; num_freed = add_size g.num_freed 1 })
    pub valid : IsValid a (record g { freed_stack = after; num_freed = add_size g.num_freed 1 })
    pub counts :
        (p : Block H → Bool)
        → count p (contents after) ≡ (if p b then 1 else 0) + count p (contents g.freed_stack)
    pub counted : add_size g.num_freed 1 ≡ length (contents g.freed_stack) + 1

  -- A block of a valid segment is given back, where there is room: it is on the freed stack, it is
  -- counted, and the segment is valid.
  pub free-Freed :
      (a : ℕ) (g : Segment R S) (b : Block H)
      → IsValid a g
      → b.segment ≡ a
      → length (contents g.freed_stack) < g.num_blocks
      → Freed a g b
  unfolding free
  free-Freed a g b v own less =
      let (t, e, c, cap) = laws.push-fixed g.freed_stack b g.num_blocks v.room less in
      let num : add_size g.num_freed 1 ≡ length (contents g.freed_stack) + 1 =
        omega (arith, v.counted, v.small) in
      record {
        after = t;
        result = rw (e, free);
        valid = record {
          room = cap ∙ v.room;
          counted = omega (arith, num, ap length c);
          small = v.small;
          extent = v.extent;
          extent_small = v.extent_small;
          own = rw (c, eq→== b.segment a own) (omega (arith, v.own));
        };
        counts = λ p. ap (count p) c;
        counted = num;
      }
