-- ===== src/Examples/Trees.antt =====
-- VSTree/VNode.cpp on a node with three children.
use t_rdf.Base.{ℕ, suc, ◌≡◌, refl, true, false, [], ◌∷◌, arith, ◌==◌}
use t_rdf.Base.Int.{pos, negsuc}
use t_rdf.Base.Run.{Returns}
use t_rdf.Signature.BitSet.{BitSet, all_below, eq_bits}
use t_rdf.Signature.Cover.{no_entry, cover}
use t_rdf.VsTree.Node.{
  Node, shift_children, remove_child, refresh_signature, covering, retrieve_child, add_child_node,
}
use t_rdf.VsTree.Children.{Removed, remove_child-Removed, refresh_signature-cover}
use t_rdf.VsTree.Adding.{Adopted, add_child_node-Adopted}

-- The child at place `i` has the bit `i`, and the file line `i`.
abbrev bit : ℕ → BitSet
bit i k = k == i

abbrev inner : Node
inner = record {
  is_leaf = false;
  is_root = true;
  child_num = 3;
  self_file_line = pos 4;
  father_file_line = negsuc 0;
  entry = no_entry;
  child_entries = λ i. record { sig = bit i; entity_id = pos i };
  child_file_lines = λ i. pos i;
}

abbrev leaf : Node
leaf = record inner { is_leaf = true }

retrieve_run : retrieve_child inner (bit 1) ≡ (true, pos 1 ∷ [])
unfolding retrieve_child covering cover eq_bits all_below
retrieve_run = refl

remove_run : (remove_child inner (pos 0)).1.child_file_lines 1 ≡ pos 2
unfolding remove_child shift_children
remove_run = refl

remove_child-Removed_example :
    ((remove_child inner (pos 1)).0 ≡ true)
    × (suc (remove_child inner (pos 1)).1.child_num ≡ 3)
    × Removed 1 3 inner.child_entries (remove_child inner (pos 1)).1.child_entries
    × Removed 1 3 inner.child_file_lines (remove_child inner (pos 1)).1.child_file_lines
remove_child-Removed_example = remove_child-Removed inner 1 (omega arith)

bit_1-covered : cover (inner.child_entries 1) (bit 1) ≡ true
unfolding cover eq_bits all_below
bit_1-covered = refl

refresh_signature-cover_example : cover (refresh_signature inner).entry (bit 1) ≡ true
refresh_signature-cover_example =
    refresh_signature-cover inner 1 (bit 1) (omega arith) bit_1-covered

add_child_node-Adopted_example : Returns (add_child_node inner leaf false) (Adopted inner leaf)
add_child_node-Adopted_example = add_child_node-Adopted inner leaf (omega arith)
