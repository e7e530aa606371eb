-- ===== src/Numa/Nodes/Made.antt =====
-- When the constructor of `node_map` of include/hwmalloc/numa.hpp is defined, and what it makes.
use hwmalloc.Base.{
  ℕ, suc, ◌+◌, ◌<◌, ◌≡◌, inl, inr, refl, sym, ap, ◌∙◌, some, List, [], ◌∷◌, ltb, lt→ltb, ltb→lt,
  Bool-cases, arith, length, length-set, length-replicate, replicate, add_size, size_mod,
}
use hwmalloc.Numa.Nodes.{NodeMap, sort, back, index_nodes, build, node_map}
use hwmalloc.Numa.Nodes.Filled.{fill_nodes, filled, filled_map}
use hwmalloc.Numa.Nodes.Find.{Has, Rising, sort-Rising, sort-Has, Has-back}
use hwmalloc.Numa.Nodes.Absent.{sort-Has_inv}

-- All members of a vector are below a bound.
abbrev pub AllBelow : ℕ → List ℕ → Type 0
AllBelow l ns = (k : ℕ) → Has k ns → k < l

index_nodes-filled :
    (idx : ℕ) (ns : List ℕ) (m : NodeMap)
    → AllBelow (length m.nodes_to_index) ns
    → index_nodes idx ns m ≡ some (fill_nodes idx ns m)
unfolding index_nodes fill_nodes
index_nodes-filled idx [] m h = refl
index_nodes-filled idx (x ∷ xs) m h = rw (lt→ltb x (length m.nodes_to_index) (h x (inl refl))) (
    index_nodes-filled (suc idx) xs _
      (λ k has. omega (arith, h k (inr has), length-set m.nodes_to_index x idx)))

index_nodes-inv :
    (idx : ℕ) (ns : List ℕ) (m m' : NodeMap)
    → index_nodes idx ns m ≡ some m'
    → AllBelow (length m.nodes_to_index) ns
unfolding index_nodes
index_nodes-inv idx [] m m' e k has = absurd has
index_nodes-inv idx (x ∷ xs) m m' e k has = elim (Bool-cases (ltb x (length m.nodes_to_index))) [
  | inl in_range ↦ elim has [
    | inl here ↦ omega (arith, here, ltb→lt _ _ in_range)
    | inr later ↦
        let below = index_nodes-inv (suc idx) xs _ m' (rw in_range at e) k later in
        omega (arith, below, length-set m.nodes_to_index x idx)
  ]
  | inr out ↦ absurd (ground (arith, out, e))
]

-- The number behind each member does not wrap.
abbrev pub AllSmall : List ℕ → Type 0
AllSmall ns = (k : ℕ) → Has k ns → k + 1 < size_mod

Has-back_self : (x : ℕ) (xs : List ℕ) → Has (back x xs) (x ∷ xs)
unfolding back
Has-back_self x [] = inl refl
Has-back_self x (y ∷ ys) = inr (Has-back_self y ys)

build-filled : (ns : List ℕ) → Rising 0 ns → AllSmall ns → build ns ≡ some (filled ns)
unfolding build filled
build-filled [] r h = refl
build-filled (x ∷ xs) r h =
    let last = back x xs in
    let no_wrap : add_size last 1 ≡ last + 1 = omega (arith, h last (Has-back_self x xs)) in
    ap
      (λ n.
        index_nodes 0 (x ∷ xs)
          (record { nodes = []; nodes_to_index = replicate n (length (x ∷ xs)) }))
      no_wrap
    ∙ index_nodes-filled 0 (x ∷ xs) _ (λ k has.
      omega (arith, Has-back k x xs r.1 has, length-replicate (last + 1) (length (x ∷ xs))))

build-inv : (ns : List ℕ) (m : NodeMap) → Rising 0 ns → build ns ≡ some m → AllSmall ns
unfolding build
build-inv [] m r e k has = absurd has
build-inv (x ∷ xs) m r e k has =
    let last = back x xs in
    omega (
      arith,
      Has-back k x xs r.1 has,
      index_nodes-inv 0 (x ∷ xs) _ m e last (Has-back_self x xs),
      length-replicate (add_size last 1) (length (x ∷ xs)),
    )

pub node_map-filled : (ns : List ℕ) → AllSmall ns → node_map ns ≡ some (filled_map ns)
unfolding node_map filled_map
node_map-filled ns h =
    build-filled (sort ns) (sort-Rising ns) (λ k has. h k (sort-Has_inv k ns has))

pub node_map-AllSmall : (ns : List ℕ) (m : NodeMap) → node_map ns ≡ some m → AllSmall ns
unfolding node_map
node_map-AllSmall ns m e k has = build-inv (sort ns) m (sort-Rising ns) e k (sort-Has k ns has)

some_inj : {A : Type 0} (x y : A) → some x ≡ some y → x ≡ y
some_inj x y e = cc

-- The only map that the constructor makes.
pub node_map-inv : (ns : List ℕ) (m : NodeMap) → node_map ns ≡ some m → m ≡ filled_map ns
node_map-inv ns m e =
    some_inj m (filled_map ns) (sym e ∙ node_map-filled ns (node_map-AllSmall ns m e))
