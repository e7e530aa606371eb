-- ===== src/Heap/Session/Calls.antt =====
-- What the calls of a program on a heap (include/hwmalloc/heap.hpp) do.
use mathlib.Core.Path.{subst₂}
use hwmalloc.Base.{ℕ, Option, ◌≤◌, ◌≡◌, refl, sym, ap, subst, ◌∙◌, true, List, [], ◌∷◌, ◌++◌}
use hwmalloc.Config.{HeapConfig}
use hwmalloc.Numa.Tools.{Os}
use hwmalloc.Platform.{Block, Platform, IsStack}
use hwmalloc.Outcome.{Leaves, Leaves-same, Outcome, returns, throws, hangs, Ends, Ends-mono}
use hwmalloc.UserAllocation.{UserAllocation}
use hwmalloc.Heap.{State}
use hwmalloc.Heap.Spots.{Spot}
use hwmalloc.Heap.Release.{Memory, free}
use hwmalloc.Heap.Whole.{Whole, replaced}
use hwmalloc.Heap.Starts.{heap_of-Whole}
use hwmalloc.Heap.Built.{Reachable, Built, heap_of-Built}
use hwmalloc.Heap.Elsewhere.{Whole-elsewhere, Built-elsewhere}
use hwmalloc.Heap.Frees.{free-Whole}
use hwmalloc.Heap.Allocates.{allocate_for, allocate-Granted}
use hwmalloc.Heap.Enough.{Enough, Granted-Enough}
use hwmalloc.Heap.Held.{
  blocks_at, blocks_at-granted, blocks_at-taken, blocks_at-given_back, split_at,
}
use hwmalloc.Heap.Session.{Serviceable, Served, Session, opened, got, gave, went_on, Held, open_all}

module _ {W R H S : Type 0} (env : Platform W R H S) (laws : IsStack env.stack) (os : Os W)
    (c : HeapConfig) (m : ℕ) where
  module _ (ns : List ℕ) (platform : Serviceable env ns) where
    -- A request on such a heap.
    allocate-Held :
        (fuel n node : ℕ) (on : Option ℕ) (s : State W R S) (bs : List (Block H))
        → Held env laws c m open_all s bs
        → 2 ≤ fuel
        → Served env c m n
        → Reachable env on
        → Ends
            (λ b s'. Held env laws c m open_all s' (b ∷ bs) × Enough n b s')
            (λ e s'. (t : Spot) × Held env laws c m (replaced open_all t true) s' bs)
            (allocate_for env fuel n node on s)
    allocate-Held fuel n node on s bs v two r reach =
        let (t, ends) =
          allocate-Granted env laws c m ns platform.nodes platform.local platform.devices_fit fuel n
            node on open_all s (blocks_at v.marked) r.size_class v.whole v.built r.served r.fits
            r.some_bytes r.no_wrap platform.page_pos platform.sized platform.device_defined two
            reach in
        Ends-mono _ _ _ _ (allocate_for env fuel n node on s) (ends refl)
          (λ b s' g. (
            record {
              marked = (t, b) ∷ v.marked;
              same = ap (◌∷◌ b) v.same;
              whole = subst (Whole env laws open_all s') (blocks_at-granted t b v.marked) g.whole;
              built = g.built;
            },
            Granted-Enough env laws c m n open_all (blocks_at v.marked) t b s' g,
          ))
          (λ e s' g.
            (t, record { marked = v.marked; same = v.same; whole = g.whole; built = g.built }))

    -- And the return of a block.
    free-Held :
        (users : List (ℕ × UserAllocation R)) (before rest : List (Block H)) (b : Block H)
        (s : State W R S) (bs : List (Block H))
        → Held env laws c m open_all s bs
        → bs ≡ before ++ b ∷ rest
        → (s' : State W R S) × Leaves
            (record { state = s'; users = users })
            (free env os b (record { state = s; users = users }))
          × Held env laws c m open_all s' (before ++ rest)
    free-Held users before rest b s bs v e =
        let (xs, t, ys, there, left) = split_at v.marked before b rest (v.same ∙ e) in
        let whole = subst (λ ts. Whole env laws open_all s (blocks_at ts)) there v.whole in
        let (s', result, after, others, builds) =
          free-Whole env laws os (record { state = s; users = users }) open_all
            (blocks_at (xs ++ (t, b) ∷ ys)) t b (blocks_at (xs ++ ys) t) whole refl
            (blocks_at-taken t b xs ys) in
        (
          s',
          result,
          record {
            marked = xs ++ ys;
            same = left;
            whole = subst (Whole env laws open_all s') (blocks_at-given_back t b xs ys) after;
            built = builds c m v.built;
          },
        )

    pub Session-Held :
        {s : State W R S} {bs : List (Block H)}
        → Session env laws os c m s bs
        → Held env laws c m open_all s bs
    unfolding blocks_at
    Session-Held (opened w next s pos e) = record {
      marked = [];
      same = refl;
      whole =
          subst (λ x. Whole env laws open_all x (λ t. [])) (sym e)
            (heap_of-Whole env laws c w next m pos);
      built =
          subst (Built env c m) (sym e)
            (heap_of-Built env ns platform.nodes platform.local platform.devices_fit c w next m);
    }
    Session-Held (got fuel n node on b s s' bs h two r reach e) =
        (subst
          (Ends (λ b s'. Held env laws c m open_all s' (b ∷ bs) × Enough n b s')
            (λ e s'. (t : Spot) × Held env laws c m (replaced open_all t true) s' bs))
          e (allocate-Held fuel n node on s bs (Session-Held h) two r reach)).0
    Session-Held (gave users memory before rest b s s' bs left h e f r g) =
        let (s2, result, v) = free-Held users before rest b s bs (Session-Held h) e in
        let same : s2 ≡ s' =
          ap (λ (x : Memory W R S). x.state) (Leaves-same _ memory _ result r) ∙ sym g in
        subst₂ (Held env laws c m open_all) same (sym f) v
    Session-Held (went_on w next s s' bs h later e) =
        let v = Session-Held h in
        subst (λ x. Held env laws c m open_all x bs) (sym e)
          (record {
            marked = v.marked;
            same = v.same;
            whole = Whole-elsewhere env laws w next open_all s (blocks_at v.marked) later v.whole;
            built = Built-elsewhere env laws w next c m s v.built;
          })

    requested :
        (fuel n node : ℕ) (on : Option ℕ) (s : State W R S) (bs : List (Block H))
        → Session env laws os c m s bs
        → 2 ≤ fuel
        → Served env c m n
        → Reachable env on
        → (o : Outcome (State W R S) (Block H)) → allocate_for env fuel n node on s ≡ o
        → Ends
            (λ b s'. Held env laws c m open_all s' (b ∷ bs) × Enough n b s')
            (λ e s'. (t : Spot) × Held env laws c m (replaced open_all t true) s' bs)
            o
        → Ends
            (λ b s'. Session env laws os c m s' (b ∷ bs) × Enough n b s')
            (λ e s'. (t : Spot) × Held env laws c m (replaced open_all t true) s' bs)
            o
    requested fuel n node on s bs h two r reach (returns b s') e v =
        (got fuel n node on b s s' bs h two r reach e, v.1)
    requested fuel n node on s bs h two r reach (throws x s') e v = v
    requested fuel n node on s bs h two r reach hangs e v = v
    requested fuel n node on s bs h two r reach Outcome.undefined e v = v

    -- After calls of `allocate` that have returned and of `free` that have returned or thrown, a
    -- request, for the host or for a device that there is, that a size class serves ends: it returns a
    -- block, which has at least the bytes that were asked for and is then held with those that were, or
    -- it throws, no block is lost, and the mutex of one pool stays locked.
    pub allocate-Session :
        (fuel n node : ℕ) (on : Option ℕ) (s : State W R S) (bs : List (Block H))
        → Session env laws os c m s bs
        → 2 ≤ fuel
        → Served env c m n
        → Reachable env on
        → Ends
            (λ b s'. Session env laws os c m s' (b ∷ bs) × Enough n b s')
            (λ e s'. (t : Spot) × Held env laws c m (replaced open_all t true) s' bs)
            (allocate_for env fuel n node on s)
    allocate-Session fuel n node on s bs h two r reach =
        requested fuel n node on s bs h two r reach (allocate_for env fuel n node on s) refl
          (allocate-Held fuel n node on s bs (Session-Held h) two r reach)
