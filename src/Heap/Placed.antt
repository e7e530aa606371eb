-- ===== src/Heap/Placed.antt =====
-- The choice of a fixed-size heap by `heap::allocate` (include/hwmalloc/heap.hpp), on a heap in use.
use hwmalloc.Base.{
  ℕ, ◌<◌, ◌*◌, size_mod, ◌≡◌, inl, inr, refl, ap, subst, ◌∙◌, Bool, none, some, List, arith,
  Option-cases, if◌then◌else◌, eq→==,
}
use hwmalloc.Config.{HeapConfig}
use hwmalloc.Numa.Nodes.{node_map, size}
use hwmalloc.SizeClass.{SizeClass, Route, tiny, bucket, huge, undefined, class_at, route, serve}
use hwmalloc.Platform.{Block, Platform, IsStack}
use hwmalloc.Outcome.{Outcome, returns, hangs}
use hwmalloc.FixedSizeHeap.Dispatch.{OnLocal}
use hwmalloc.FixedSizeHeap.{FixedSizeHeap, make_fixed_size_heap}
use hwmalloc.Heap.{
  State, Place, in_tiny_heaps, in_heaps, in_huge_heaps, find_huge, get_at, huge_heap_for,
  locate_route, locate,
}
use hwmalloc.Heap.Spots.{Spot}
use hwmalloc.Heap.Whole.{Whole}
use hwmalloc.Heap.Larger.{
  made, larger, huge_heap_for_lem, larger-cases, larger_old, huge_heap_for-Whole,
}
use hwmalloc.Heap.Built.{Stock, Built, make_fixed_size_heap-Stock}

module _ {W R H S : Type 0} (env : Platform W R H S) (laws : IsStack env.stack) where
  module _ (c : HeapConfig) (m : ℕ) where
    module _ (ns : List ℕ) (map : node_map ns ≡ some env.numa.local_nodes)
        (local : (w : W) → OnLocal env ns w)
        (fits : size env.numa.local_nodes * env.device.get_num_devices < size_mod) where
      -- The fixed-size heap to which a request leads, which may have been made for it.
      pub record Placed (locked : Spot → Bool) (s : State W R S) (live : Spot → List (Block H))
          (k : SizeClass) (o : Outcome (State W R S) Place) : Type 0 where
        pub place : Place
        pub after_it : State W R S
        pub heap : FixedSizeHeap R S
        pub result : o ≡ returns place after_it
        pub there : get_at after_it.heap place ≡ some heap
        pub stock : Stock env heap k
        pub whole : Whole env laws locked after_it live
        pub built : Built env c m after_it

      made_Stock :
          (s : State W R S) (r : ℕ)
          → Stock env
              (make_fixed_size_heap env s.world s.next_object r r s.heap.config.never_free
                s.heap.config.num_reserve_segments).heap
              (record { block_size = r; segment_size = r })
      made_Stock s r =
          make_fixed_size_heap-Stock env ns map local fits s.world s.next_object
            (record { block_size = r; segment_size = r }) s.heap.config.never_free
            s.heap.config.num_reserve_segments

      larger-Built :
          (locked : Spot → Bool) (s : State W R S) (live : Spot → List (Block H)) (r : ℕ)
          (v : Whole env laws locked s live) (missing : find_huge r s.heap.huge_heaps ≡ none)
          → Built env c m s
          → Built env c m (larger env laws locked s live v r missing)
      larger-Built locked s live r v missing b =
          let more = larger_old env laws locked s live v r missing in
          record {
            config = b.config;
            limit = b.limit;
            tiny = λ i k e.
                let (f, there, stock) = b.tiny i k e in (f, more (in_tiny_heaps i) f there, stock);
            buckets = λ i k e.
                let (f, there, stock) = b.buckets i k e in (f, more (in_heaps i) f there, stock);
            huge = λ j g e.
                elim (larger-cases env laws locked s live v r missing (in_huge_heaps j) g e) [
                  | inl (here, same) ↦
                      let rj : r ≡ j = ground (arith, here) in
                      subst (λ x. Stock env g (record { block_size = x; segment_size = x })) rj
                        (subst (λ f. Stock env f (record { block_size = r; segment_size = r })) same
                          (made_Stock s r))
                  | inr (other, old) ↦ b.huge j g old
                ];
          }

      -- Under the lock, the heap for huge requests is found or made.
      huge-Placed :
          (locked : Spot → Bool) (s : State W R S) (live : Spot → List (Block H)) (r : ℕ)
          → Whole env laws locked s live
          → Built env c m s
          → Placed locked s live
              (record { block_size = r; segment_size = r })
              (if s.heap.mutex then hangs else returns (in_huge_heaps r) (huge_heap_for env r s))
      unfolding huge_heap_for get_at find_huge
      huge-Placed locked s live r v b =
          let o =
            λ (x : Bool). if x then hangs else returns (in_huge_heaps r) (huge_heap_for env r s) in
          elim (Option-cases (find_huge r s.heap.huge_heaps)) [
            | inr (f, e) ↦ record {
              place = in_huge_heaps r;
              after_it = s;
              heap = f;
              result = ap o v.unlocked ∙ rw (e, huge_heap_for) refl;
              there = e;
              stock = b.huge r f e;
              whole = v;
              built = b;
            }
            | inl missing ↦ record {
              place = in_huge_heaps r;
              after_it = larger env laws locked s live v r missing;
              heap = (made env laws locked s live v r missing).heap;
              result =
                  ap o v.unlocked
                  ∙ ap (returns (in_huge_heaps r))
                      (huge_heap_for_lem env laws locked s live v r missing);
              there = rw (eq→== r r refl) refl;
              stock = made_Stock s r;
              whole =
                  subst (λ x. Whole env laws locked x live)
                    (huge_heap_for_lem env laws locked s live v r missing)
                    (huge_heap_for-Whole env laws locked s live v r missing);
              built = larger-Built locked s live r v missing b;
            }
          ]

      locate_route-Placed :
          (locked : Spot → Bool) (s : State W R S) (live : Spot → List (Block H)) (r : Route)
          (k : SizeClass)
          → Whole env laws locked s live
          → Built env c m s
          → class_at c m r ≡ some k
          → Placed locked s live k (locate_route env r s)
      unfolding locate_route class_at
      locate_route-Placed locked s live (tiny i) k v b e =
          let (f, there, stock) = b.tiny i k e in
          record {
            place = in_tiny_heaps i;
            after_it = s;
            heap = f;
            result = refl;
            there = there;
            stock = stock;
            whole = v;
            built = b;
          }
      locate_route-Placed locked s live (bucket i) k v b e =
          let (f, there, stock) = b.buckets i k e in
          record {
            place = in_heaps i;
            after_it = s;
            heap = f;
            result = refl;
            there = there;
            stock = stock;
            whole = v;
            built = b;
          }
      locate_route-Placed locked s live undefined k v b e = cc
      locate_route-Placed locked s live (huge r) k v b e =
          subst (λ x. Placed locked s live x (locate_route env (huge r) s))
            (ap
              (λ o. elim o as (λ x. SizeClass) [
                | none ↦ record { block_size = r; segment_size = r }
                | some x ↦ x
              ])
              e)
            (huge-Placed locked s live r v b)

      pub locate-Placed :
          (locked : Spot → Bool) (s : State W R S) (live : Spot → List (Block H)) (n : ℕ)
          (k : SizeClass)
          → Whole env laws locked s live
          → Built env c m s
          → serve c m n ≡ some k
          → Placed locked s live k (locate env n s)
      unfolding locate serve
      locate-Placed locked s live n k v b e =
          locate_route-Placed locked s live (route s.heap.config s.heap.max_size n) k v b (
            ap (λ d. class_at c m (route d s.heap.max_size n)) b.config
            ∙ ap (λ l. class_at c m (route c l n)) b.limit
            ∙ e)
