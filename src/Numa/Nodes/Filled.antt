-- ===== src/Numa/Nodes/Filled.antt =====
-- `node_map` of include/hwmalloc/numa.hpp when no number wraps.
use hwmalloc.Base.{ℕ, suc, ◌+◌, List, [], ◌∷◌, ◌++◌, length, set, replicate}
use hwmalloc.Numa.Nodes.{NodeMap, empty, sort, back}

-- What the loop of the constructor leaves when it writes in range.
unfoldable pub fill_nodes : ℕ → List ℕ → NodeMap → NodeMap
fill_nodes idx [] m = m
fill_nodes idx (n ∷ ns) m =
    fill_nodes (suc idx) ns
      (record { nodes = m.nodes ++ (n, idx) ∷ []; nodes_to_index = set m.nodes_to_index n idx })

-- The map of a sorted vector whose largest member has a successor.
unfoldable pub filled : List ℕ → NodeMap
unfolding fill_nodes back
filled [] = empty
filled (x ∷ xs) =
    fill_nodes 0 (x ∷ xs)
      (record { nodes = []; nodes_to_index = replicate (back x xs + 1) (length (x ∷ xs)) })

unfoldable pub filled_map : List ℕ → NodeMap
unfolding filled sort
filled_map ns = filled (sort ns)
