-- ===== src/Numa/Nodes.antt =====
-- `numa_tools::node_map` of include/hwmalloc/numa.hpp: node ids to contiguous indices.
pub mod Filled
pub mod Find
pub mod Made
pub mod Absent
pub mod Indexed
use mathlib.Core.List.{foldr}
use hwmalloc.Base.{
  Option, none, some, add_size, ℕ, suc, ◌+◌, List, [], ◌∷◌, ◌++◌, ltb, leb, if◌then◌else◌, length,
  get_or, set, replicate,
}

-- An iterator is its position in `nodes`; the end is `size`.
pub record NodeMap : Type 0 where
  pub nodes : List (ℕ × ℕ)
  pub nodes_to_index : List ℕ

abbrev pub empty : NodeMap
empty = record { nodes = []; nodes_to_index = [] }

-- std::sort of a vector of indices.
unfoldable pub insert_sorted : ℕ → List ℕ → List ℕ
insert_sorted x [] = x ∷ []
insert_sorted x (y ∷ ys) = if leb x y then x ∷ y ∷ ys else y ∷ insert_sorted x ys

unfoldable pub sort : List ℕ → List ℕ
unfolding insert_sorted
sort = foldr insert_sorted []

-- std::vector::back, of a vector that begins with x.
unfoldable pub back : ℕ → List ℕ → ℕ
back x [] = x
back x (y ∷ ys) = back y ys

-- The loop of the constructor, from index `idx` on; to write behind the end of `nodes_to_index` is
-- undefined (`none`).
unfoldable pub index_nodes : ℕ → List ℕ → NodeMap → Option NodeMap
index_nodes idx [] m = some m
index_nodes idx (n ∷ ns) m =
    let rest =
      index_nodes (suc idx) ns (record {
        nodes = m.nodes ++ (n, idx) ∷ [];
        nodes_to_index = set m.nodes_to_index n idx;
      }) in
    if ltb n (length m.nodes_to_index) then rest else none

-- The body of the constructor on the sorted vector. The length of `nodes_to_index` may wrap.
unfoldable pub build : List ℕ → Option NodeMap
build [] = some empty
build (x ∷ xs) =
    index_nodes 0 (x ∷ xs)
      (record { nodes = []; nodes_to_index = replicate (add_size (back x xs) 1) (length (x ∷ xs)) })

unfoldable pub node_map : List ℕ → Option NodeMap
node_map ns = build (sort ns)

unfoldable pub size : NodeMap → ℕ
size m = length m.nodes

unfoldable pub upper_bound_key : NodeMap → ℕ
upper_bound_key m = length m.nodes_to_index

unfoldable pub find : NodeMap → ℕ → ℕ
unfolding size upper_bound_key
find m n = if leb (upper_bound_key m) n then size m else get_or m.nodes_to_index n 0

pub count : NodeMap → ℕ → ℕ
unfolding size upper_bound_key
count m n =
    if leb (upper_bound_key m) n
    then 0
    else if ltb (get_or m.nodes_to_index n 0) (size m)
    then 1
    else 0
