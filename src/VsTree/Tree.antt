-- ===== src/VsTree/Tree.antt =====
-- VSTree/VSTree.cpp: the tree in memory, as `recursive_deserialize` builds it, its nodes counted by
-- `dfs`, and the search of `retrieveEntity_IM`.
use t_rdf.Base.{ℕ, zero, suc, ◌+◌, List, [], ◌∷◌, ◌++◌, if◌then◌else◌}
use t_rdf.Base.Int.{ℤ}
use t_rdf.Base.Run.{Run, done, out_of_fuel, ◌>>=◌}
use t_rdf.Signature.BitSet.{BitSet}
use t_rdf.Signature.Cover.{cover}
use t_rdf.VsTree.Node.{Node}

-- A node and what its `child_node_pointers` refer to.
mutual
  pub data Tree : Type 0 where
    tree : Node → Children → Tree

  pub data Children : Type 0 where
    no_children : Children
    more_children : Tree → Children → Children

-- `file line` is the node that is read at that line. The depth of the recursion is bounded by fuel.
module _ (file : ℤ → Node) where
  -- The loop from child `i`, with `rounds` to go.
  unfoldable pub deserialize_children :
      (read_node : Node → Run Tree) → Node → (rounds i : ℕ) → Run Children
  deserialize_children read_node root zero i = done no_children
  deserialize_children read_node root (suc rounds) i = do
    child ← read_node (file (root.child_file_lines i))
    children ← deserialize_children read_node root rounds (suc i)
    done (more_children child children)

  unfoldable pub recursive_deserialize : (fuel : ℕ) → Node → Run Tree
  unfolding deserialize_children
  recursive_deserialize zero root = out_of_fuel
  recursive_deserialize (suc fuel) root =
      let children = deserialize_children (recursive_deserialize fuel) root root.child_num 0 in
      if root.is_leaf
      then done (tree root no_children)
      else children >>= λ read. done (tree root read)

-- The pointers of a leaf are null, and add nothing.
unfoldable mutual
  pub dfs : Tree → (num_nodes : ℕ) → ℕ
  dfs (tree node children) num_nodes = dfs_children children (num_nodes + 1)

  pub dfs_children : Children → (num_nodes : ℕ) → ℕ
  dfs_children no_children num_nodes = num_nodes
  dfs_children (more_children t ts) num_nodes = dfs_children ts (dfs t num_nodes)

module _ (filter_sig : BitSet) where
  -- The loop over the children of a leaf, from child `i`.
  unfoldable pub add_ids : Node → (rounds i : ℕ) → (id_list : List ℤ) → List ℤ
  add_ids node zero i id_list = id_list
  add_ids node (suc rounds) i id_list =
      let entry = node.child_entries i in
      add_ids node rounds (suc i)
        (if cover entry filter_sig then id_list ++ (entry.entity_id ∷ []) else id_list)

  -- The loop over the children of an inner node.
  unfoldable pub push_children : Node → Children → (i : ℕ) → (queue : List Tree) → List Tree
  push_children node no_children i queue = queue
  push_children node (more_children t ts) i queue =
      push_children node ts (suc i)
        (if cover (node.child_entries i) filter_sig then queue ++ (t ∷ []) else queue)

  -- The body of the loop, for the node taken off the queue.
  unfoldable pub retrieve_node : Tree → (queue : List Tree) (id_list : List ℤ) → List Tree × List ℤ
  retrieve_node (tree node children) queue id_list =
      if node.is_leaf
      then (queue, add_ids node node.child_num 0 id_list)
      else (push_children node children 0 queue, id_list)

  unfoldable pub retrieve_loop : (fuel : ℕ) → (queue : List Tree) (id_list : List ℤ) → Run (List ℤ)
  unfolding retrieve_node
  retrieve_loop fuel [] id_list = done id_list
  retrieve_loop zero (t ∷ queue) id_list = out_of_fuel
  retrieve_loop (suc fuel) (t ∷ queue) id_list =
      let (rest, ids) = retrieve_node t queue id_list in retrieve_loop fuel rest ids

  unfoldable pub retrieve_entity_im : (fuel : ℕ) → (root : Tree) (id_list : List ℤ) → Run (List ℤ)
  unfolding retrieve_loop
  retrieve_entity_im fuel (tree node children) id_list =
      retrieve_loop fuel (if cover node.entry filter_sig then tree node children ∷ [] else [])
        id_list
