-- ===== src/Numa/Nodes/Absent.antt =====
-- `node_map` of include/hwmalloc/numa.hpp: the nodes that the map was not made of.
use native.Mathlib.Decide.{ℕ_discrete}
use hwmalloc.Base.{
  ℕ, suc, ◌+◌, ◌≤◌, ◌<◌, ◌≡◌, ◌⊎◌, inl, inr, refl, ◌∙◌, List, [], ◌∷◌, true, false, arith, leb,
  if◌then◌else◌, Bool-cases, length, get_or, length-append, get_or-set_ne, get_or-replicate, leb→le,
  length-replicate,
}
use hwmalloc.Numa.Nodes.{NodeMap, insert_sorted, sort, back, size, upper_bound_key, find}
use hwmalloc.Numa.Nodes.Filled.{fill_nodes, filled, filled_map}
use hwmalloc.Numa.Nodes.Find.{Has, step, blank, fill_nodes-length}

leb→gt : (a b : ℕ) → leb a b ≡ false → b < a
leb→gt a b e = ground arith

insert_sorted-Has_inv : (n x : ℕ) (ys : List ℕ) → Has n (insert_sorted x ys) → (x ≡ n) ⊎ Has n ys
unfolding insert_sorted
insert_sorted-Has_inv n x [] h = h
insert_sorted-Has_inv n x (y ∷ ys) h =
    elim (leb x y)
        as (λ b.
          Has n (if b then x ∷ y ∷ ys else y ∷ insert_sorted x ys) → (x ≡ n) ⊎ Has n (y ∷ ys)) [
            | true ↦ λ k. k
            | false ↦ λ k. elim k [
              | inl here ↦ inr (inl here)
              | inr later ↦ elim (insert_sorted-Has_inv n x ys later) [
                | inl new ↦ inl new
                | inr old ↦ inr (inr old)
              ]
            ]
          ]
      h

pub sort-Has_inv : (n : ℕ) (xs : List ℕ) → Has n (sort xs) → Has n xs
unfolding sort
sort-Has_inv n [] h = h
sort-Has_inv n (x ∷ xs) h = elim (insert_sorted-Has_inv n x (sort xs) h) [
  | inl here ↦ inl here
  | inr later ↦ inr (sort-Has_inv n xs later)
]

pub Has-dec : (n : ℕ) (xs : List ℕ) → Dec (Has n xs)
Has-dec n [] = no (λ h. h)
Has-dec n (x ∷ xs) = elim (ℕ_discrete x n) [
  | yes here ↦ yes (inl here)
  | no other ↦ elim (Has-dec n xs) [
    | yes later ↦ yes (inr later)
    | no absent ↦ no (λ h. elim h [ inl here ↦ other here | inr later ↦ absent later ])
  ]
]

fill_nodes-other :
    (idx n : ℕ) (ns : List ℕ) (m : NodeMap)
    → (Has n ns → ⊥)
    → (get_or (fill_nodes idx ns m).nodes_to_index n 0 ≡ get_or m.nodes_to_index n 0)
      × (length (fill_nodes idx ns m).nodes ≡ length m.nodes + length ns)
unfolding fill_nodes
fill_nodes-other idx n [] m absent = (refl, omega arith)
fill_nodes-other idx n (x ∷ xs) m absent =
    let (same, len) = fill_nodes-other (suc idx) n xs (step idx x m) (λ h. absent (inr h)) in
    (
      same ∙ get_or-set_ne m.nodes_to_index x n idx 0 (λ e. absent (inl e)),
      omega (arith, len, length-append m.nodes ((x, idx) ∷ [])),
    )

filled-absent :
    (n : ℕ) (ns : List ℕ)
    → (Has n ns → ⊥)
    → (length (filled ns).nodes_to_index ≤ n)
      ⊎ (get_or (filled ns).nodes_to_index n 0 ≡ length (filled ns).nodes)
unfolding filled blank
filled-absent n [] absent = inl (omega arith)
filled-absent n (x ∷ xs) absent =
    let (same, len) = fill_nodes-other 0 n (x ∷ xs) (blank x xs) absent in
    elim (Bool-cases (leb (length (filled (x ∷ xs)).nodes_to_index) n)) [
      | inl out ↦ inl (leb→le _ _ out)
      | inr inside ↦
          let lt : n < back x xs + 1 = omega (
            arith,
            fill_nodes-length 0 (x ∷ xs) (blank x xs),
            length-replicate (back x xs + 1) (length (x ∷ xs)),
            leb→gt _ _ inside,
          ) in
          inr (omega (arith, same, get_or-replicate (back x xs + 1) n (length (x ∷ xs)) 0 lt, len))
    ]

-- A node that is not in the vector is not found: the iterator is the end.
pub find-absent :
    (n : ℕ) (ns : List ℕ) → (Has n ns → ⊥) → find (filled_map ns) n ≡ size (filled_map ns)
unfolding find size upper_bound_key filled_map
find-absent n ns absent = elim (Bool-cases (leb (length (filled_map ns).nodes_to_index) n)) [
  | inl out ↦ rw out refl
  | inr inside ↦ rw inside (elim (filled-absent n (sort ns) (λ h. absent (sort-Has_inv n ns h))) [
    | inl out ↦ absurd (ground arith)
    | inr e ↦ e
  ])
]
