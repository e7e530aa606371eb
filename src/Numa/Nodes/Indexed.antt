-- ===== src/Numa/Nodes/Indexed.antt =====
-- `node_map` of include/hwmalloc/numa.hpp: the numbers of the entries.
use hwmalloc.Base.{
  ℕ, zero, suc, ◌≡◌, ◌⊎◌, inl, inr, refl, sym, ap, ◌∙◌, some, List, [], ◌∷◌, ◌++◌, arith, length,
  get_elem?, length-append,
}
use hwmalloc.Numa.Nodes.{NodeMap, sort}
use hwmalloc.Numa.Nodes.Filled.{fill_nodes, filled, filled_map}
use hwmalloc.Numa.Nodes.Find.{step, blank}

-- The second part of an entry is its position.
abbrev pub Indexed : List (ℕ × ℕ) → Type 0
Indexed es = (pos k j : ℕ) → get_elem? es pos ≡ some (k, j) → j ≡ pos

append_last-inv :
    {A : Type 0} (xs : List A) (x y : A) (pos : ℕ)
    → get_elem? (xs ++ x ∷ []) pos ≡ some y
    → (get_elem? xs pos ≡ some y) ⊎ ((pos ≡ length xs) × (x ≡ y))
append_last-inv [] x y zero e = inr (refl, cc)
append_last-inv [] x y (suc pos) e = cc
append_last-inv (z ∷ xs) x y zero e = inl e
append_last-inv (z ∷ xs) x y (suc pos) e = elim (append_last-inv xs x y pos e) [
  | inl before ↦ inl before
  | inr (at, same) ↦ inr (ap suc at, same)
]

fill_nodes-Indexed :
    (idx : ℕ) (ns : List ℕ) (m : NodeMap)
    → length m.nodes ≡ idx
    → Indexed m.nodes
    → Indexed (fill_nodes idx ns m).nodes
unfolding fill_nodes
fill_nodes-Indexed idx [] m len h = h
fill_nodes-Indexed idx (x ∷ xs) m len h =
    fill_nodes-Indexed (suc idx) xs (step idx x m)
      (omega (arith, length-append m.nodes ((x, idx) ∷ []), len))
      (λ pos k j e. elim (append_last-inv m.nodes (x, idx) (k, j) pos e) [
        | inl before ↦ h pos k j before
        | inr (at, same) ↦ ap (λ q. q.1) (sym same) ∙ sym len ∙ sym at
      ])

filled-Indexed : (xs : List ℕ) → Indexed (filled xs).nodes
unfolding filled blank
filled-Indexed [] = λ pos k j e. cc
filled-Indexed (x ∷ xs) = fill_nodes-Indexed 0 (x ∷ xs) (blank x xs) refl (λ pos k j e. cc)

pub filled_map-Indexed : (ns : List ℕ) → Indexed (filled_map ns).nodes
unfolding filled_map
filled_map-Indexed ns = filled-Indexed (sort ns)
