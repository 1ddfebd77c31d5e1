-- ===== src/Examples/Search.antt =====
-- The search of VSTree/VSTree.cpp in a tree of a root and two leaves.
use t_rdf.Base.{
  ℕ, zero, suc, ◌+◌, ◌≡◌, ◌<◌, refl, Bool, true, false, ◌&&◌, [], ◌∷◌, tally, arith, ◌==◌,
}
use t_rdf.Base.Int.{ℤ, pos, negsuc}
use t_rdf.Base.Run.{done, Returns}
use t_rdf.Signature.BitSet.{BitSet, all_below, eq_bits}
use t_rdf.Signature.Cover.{SigEntry, cover}
use t_rdf.VsTree.Node.{Node}
use t_rdf.VsTree.Tree.{
  tree, Children, no_children, more_children, dfs, add_ids, push_children, retrieve_node,
  retrieve_loop, retrieve_entity_im, deserialize_children, recursive_deserialize,
}
use t_rdf.VsTree.Sound.{leaf_entries, AllCovered, IsSound}
use t_rdf.VsTree.Retrieval.{retrieve_entity_im-hits}
use t_rdf.VsTree.Reading.{IsRead, recursive_deserialize-IsRead}

abbrev bit : ℕ → BitSet
bit i k = k == i

-- Every bit is set.
abbrev full : SigEntry
full = record { sig = λ i. true; entity_id = negsuc 0 }

abbrev root : Node
root = record {
  is_leaf = false;
  is_root = true;
  child_num = 2;
  self_file_line = pos 0;
  father_file_line = negsuc 0;
  entry = full;
  child_entries = λ i. full;
  child_file_lines = λ i. pos (suc i);
}

-- The entity 5 has the bit 0, the entity 6 the bit 1.
abbrev leaf : Node
leaf = record {
  is_leaf = true;
  is_root = false;
  child_num = 2;
  self_file_line = pos 1;
  father_file_line = pos 0;
  entry = full;
  child_entries = λ i. record { sig = bit i; entity_id = pos (5 + i) };
  child_file_lines = λ i. negsuc 0;
}

abbrev file : ℤ → Node
file (pos zero) = root
file (pos (suc n)) = leaf
file (negsuc n) = leaf

abbrev height : ℤ → ℕ
height (pos zero) = 1
height (pos (suc n)) = 0
height (negsuc n) = 0

abbrev children : Children
children = more_children (tree leaf no_children) (more_children (tree leaf no_children) no_children)

read_run : recursive_deserialize file 2 root ≡ done (tree root children)
unfolding recursive_deserialize deserialize_children
read_run = refl

nodes_run : dfs (tree root children) 0 ≡ 3
unfolding dfs
nodes_run = refl

search_run : retrieve_entity_im (bit 1) 3 (tree root children) [] ≡ done (pos 6 ∷ pos 6 ∷ [])
unfolding retrieve_entity_im retrieve_loop retrieve_node add_ids push_children cover eq_bits
    all_below
search_run = refl

file_layered :
    (line : ℤ) (i : ℕ)
    → (file line).is_leaf ≡ false
    → i < (file line).child_num
    → height ((file line).child_file_lines i) < height line
file_layered (pos zero) i inner lt = omega arith
file_layered (pos (suc n)) i inner lt = absurd (ground (arith, inner))
file_layered (negsuc n) i inner lt = absurd (ground (arith, inner))

recursive_deserialize-IsRead_example :
    Returns (recursive_deserialize file 2 (file (pos 0))) (IsRead file (file (pos 0)))
recursive_deserialize-IsRead_example =
    recursive_deserialize-IsRead file height file_layered 2 (pos 0) (omega arith)

few_nodes : dfs (tree root children) 0 < 4
unfolding dfs
few_nodes = omega arith

root-AllCovered : AllCovered full (leaf_entries (tree root children))
unfolding leaf_entries
root-AllCovered =
    ((λ i lt on. refl), ((λ i lt on. refl), ((λ i lt on. refl), ((λ i lt on. refl), tt))))

root-IsSound : IsSound (tree root children)
unfolding IsSound leaf_entries
root-IsSound inner = (
  ((λ i lt on. refl), ((λ i lt on. refl), tt)),
  (λ e. absurd (ground (arith, e))),
  (((λ i lt on. refl), ((λ i lt on. refl), tt)), (λ e. absurd (ground (arith, e))), tt),
)

retrieve_entity_im-hits_example :
    Returns (retrieve_entity_im (bit 1) 4 (tree root children) []) (λ out.
      (p : ℤ → Bool)
      → tally p out
        ≡ 0 + tally (λ e. cover e (bit 1) && p e.entity_id) (leaf_entries (tree root children)))
retrieve_entity_im-hits_example =
    retrieve_entity_im-hits (bit 1) 4 root children [] (omega (arith, few_nodes)) root-AllCovered
      root-IsSound
