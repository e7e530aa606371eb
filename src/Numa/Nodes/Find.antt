-- ===== src/Numa/Nodes/Find.antt =====
-- `node_map` of include/hwmalloc/numa.hpp: the nodes that the map was made of.
use native.Mathlib.Decide.{ℕ_discrete}
use hwmalloc.Base.{
  ℕ, suc, ◌+◌, ◌≤◌, ◌<◌, ◌≡◌, ◌≢◌, ◌⊎◌, inl, inr, refl, subst, ◌∙◌, some, List, [], ◌∷◌, ◌++◌,
  arith, leb, Bool-cases, lt→leb, length, get_or, set, replicate, get_elem?, length-append,
  length-set, length-replicate, get_or-set_self, get_or-set_ne, get_elem?-append_last,
  get_elem?-append_left, get_elem?-lt, get_elem?,
}
use hwmalloc.Numa.Nodes.{NodeMap, insert_sorted, sort, back, size, upper_bound_key, find}
use hwmalloc.Numa.Nodes.Filled.{fill_nodes, filled, filled_map}

-- The node is one of the list.
abbrev pub Has : ℕ → List ℕ → Type 0
Has n [] = ⊥
Has n (x ∷ xs) = (x ≡ n) ⊎ Has n xs

-- The list rises from `lo` on.
abbrev pub Rising : ℕ → List ℕ → Type 0
Rising lo [] = Unit {0}
Rising lo (x ∷ xs) = (lo ≤ x) × Rising x xs

insert_sorted-Rising :
    (lo x : ℕ) (ys : List ℕ) → lo ≤ x → Rising lo ys → Rising lo (insert_sorted x ys)
unfolding insert_sorted
insert_sorted-Rising lo x [] h r = (h, tt)
insert_sorted-Rising lo x (y ∷ ys) h r = elim (Bool-cases (leb x y)) [
  | inl le ↦ rw le (h, (ground arith, r.1))
  | inr gt ↦ rw gt (r.0, insert_sorted-Rising y x ys (ground arith) r.1)
]

pub sort-Rising : (xs : List ℕ) → Rising 0 (sort xs)
unfolding sort
sort-Rising [] = tt
sort-Rising (x ∷ xs) = insert_sorted-Rising 0 x (sort xs) (omega arith) (sort-Rising xs)

pub insert_sorted-Has : (n x : ℕ) (ys : List ℕ) → (x ≡ n) ⊎ Has n ys → Has n (insert_sorted x ys)
unfolding insert_sorted
insert_sorted-Has n x [] h = h
insert_sorted-Has n x (y ∷ ys) h = elim (Bool-cases (leb x y)) [
  | inl le ↦ rw le h
  | inr gt ↦ rw gt (elim h [
    | inl here ↦ inr (insert_sorted-Has n x ys (inl here))
    | inr (inl next) ↦ inl next
    | inr (inr later) ↦ inr (insert_sorted-Has n x ys (inr later))
  ])
]

pub sort-Has : (n : ℕ) (xs : List ℕ) → Has n xs → Has n (sort xs)
unfolding sort
sort-Has n [] h = absurd h
sort-Has n (x ∷ xs) (inl here) = insert_sorted-Has n x (sort xs) (inl here)
sort-Has n (x ∷ xs) (inr later) = insert_sorted-Has n x (sort xs) (inr (sort-Has n xs later))

-- The last member is the largest.
back-le : (x : ℕ) (xs : List ℕ) → Rising x xs → x ≤ back x xs
unfolding back
back-le x [] r = omega arith
back-le x (y ∷ ys) r = omega (arith, r.0, back-le y ys r.1)

pub Has-back : (n x : ℕ) (xs : List ℕ) → Rising x xs → Has n (x ∷ xs) → n ≤ back x xs
unfolding back
Has-back n x xs r (inl here) = omega (arith, here, back-le x xs r)
Has-back n x [] r (inr later) = absurd later
Has-back n x (y ∷ ys) r (inr later) = Has-back n y ys r.1 later

-- The index of the node leads to its entry.
abbrev pub Found : NodeMap → ℕ → Type 0
Found m n = get_elem? m.nodes (get_or m.nodes_to_index n 0) ≡ some (n, get_or m.nodes_to_index n 0)

-- One round of the loop of the constructor.
abbrev pub step : ℕ → ℕ → NodeMap → NodeMap
step idx x m = record {
  nodes = m.nodes ++ (x, idx) ∷ [];
  nodes_to_index = set m.nodes_to_index x idx;
}

step_self :
    (idx x : ℕ) (m : NodeMap)
    → length m.nodes ≡ idx
    → x < length m.nodes_to_index
    → Found (step idx x m) x
step_self idx x m len lt =
    let e = get_or-set_self m.nodes_to_index x idx 0 lt in
    rw e (
      subst (λ i. get_elem? (m.nodes ++ (x, idx) ∷ []) i ≡ some (x, idx)) len
        (get_elem?-append_last m.nodes (x, idx)))

step_other : (idx x n : ℕ) (m : NodeMap) → x ≢ n → Found m n → Found (step idx x m) n
step_other idx x n m ne f =
    let e = get_or-set_ne m.nodes_to_index x n idx 0 ne in
    rw e (get_elem?-append_left m.nodes ((x, idx) ∷ []) _ _ f)

fill_nodes-Found :
    (idx n : ℕ) (ns : List ℕ) (m : NodeMap)
    → length m.nodes ≡ idx
    → ((k : ℕ) → Has k ns → k < length m.nodes_to_index)
    → Has n ns ⊎ Found m n
    → Found (fill_nodes idx ns m) n
unfolding fill_nodes
fill_nodes-Found idx n [] m len lt (inl h) = absurd h
fill_nodes-Found idx n [] m len lt (inr f) = f
fill_nodes-Found idx n (x ∷ xs) m len lt h =
    fill_nodes-Found (suc idx) n xs (step idx x m)
      (omega (arith, length-append m.nodes ((x, idx) ∷ []), len))
      (λ k has. omega (arith, length-set m.nodes_to_index x idx, lt k (inr has)))
      (elim (ℕ_discrete x n) [
        | yes same ↦
            inr (subst (Found (step idx x m)) same (step_self idx x m len (lt x (inl refl))))
        | no other ↦ elim h [
          | inl (inl here) ↦ absurd (other here)
          | inl (inr later) ↦ inl later
          | inr f ↦ inr (step_other idx x n m other f)
        ]
      ])

pub fill_nodes-length :
    (idx : ℕ) (ns : List ℕ) (m : NodeMap)
    → length (fill_nodes idx ns m).nodes_to_index ≡ length m.nodes_to_index
unfolding fill_nodes
fill_nodes-length idx [] m = refl
fill_nodes-length idx (x ∷ xs) m =
    fill_nodes-length (suc idx) xs (step idx x m) ∙ length-set m.nodes_to_index x idx

-- The map before the loop of the constructor.
unfoldable pub blank : ℕ → List ℕ → NodeMap
unfolding back
blank x xs = record { nodes = []; nodes_to_index = replicate (back x xs + 1) (length (x ∷ xs)) }

blank-lt :
    (n x : ℕ) (xs : List ℕ) → Rising x xs → Has n (x ∷ xs) → n < length (blank x xs).nodes_to_index
unfolding blank
blank-lt n x xs r h =
    omega (arith, length-replicate (back x xs + 1) (length (x ∷ xs)), Has-back n x xs r h)

filled-Found :
    (n : ℕ) (ns : List ℕ)
    → Rising 0 ns
    → Has n ns
    → Found (filled ns) n × (n < length (filled ns).nodes_to_index)
unfolding filled blank
filled-Found n [] r h = absurd h
filled-Found n (x ∷ xs) r h = (
  fill_nodes-Found 0 n (x ∷ xs) (blank x xs) refl (λ k has. blank-lt k x xs r.1 has) (inl h),
  omega (arith, fill_nodes-length 0 (x ∷ xs) (blank x xs), blank-lt n x xs r.1 h),
)

-- Every node of the vector has its entry.
pub find-filled_map :
    (n : ℕ) (ns : List ℕ)
    → Has n ns
    → (find (filled_map ns) n < size (filled_map ns))
      × (get_elem? (filled_map ns).nodes (find (filled_map ns) n)
          ≡ some (n, find (filled_map ns) n))
unfolding find size upper_bound_key filled_map
find-filled_map n ns h =
    let (f, lt) = filled-Found n (sort ns) (sort-Rising ns) (sort-Has n ns h) in
    rw (lt→leb (length (filled_map ns).nodes_to_index) n lt)
      (get_elem?-lt (filled_map ns).nodes _ _ f, f)
