-- ===== src/VsTree/Node.antt =====
-- The nodes of VSTree/VNode.cpp. A node that is asked of the node buffer is named by its file line.
use t_rdf.Base.{
  ℕ, zero, suc, ◌-◌, Bool, true, false, not, ◌&&◌, List, [], ◌∷◌, ltb, ◌==◌, if◌then◌else◌,
}
use t_rdf.Base.Int.{ℤ, pos, negsuc}
use t_rdf.Base.Run.{Run, done, out_of_bounds, ◌>>=◌}
use t_rdf.Signature.BitSet.{BitSet, entity_sig_length, empty, union, eq_bits}
use t_rdf.Signature.Cover.{SigEntry, cover}
use t_rdf.Query.Basic.{put}

abbrev pub max_child_num : ℕ
max_child_num = 151

pub record Node : Type 0 where
  pub is_leaf : Bool
  pub is_root : Bool
  pub child_num : ℕ
  pub self_file_line : ℤ
  pub father_file_line : ℤ
  pub entry : SigEntry
  pub child_entries : ℕ → SigEntry
  pub child_file_lines : ℕ → ℤ

unfoldable pub is_full : Node → Bool
is_full node = node.child_num == max_child_num - 1

-- `setChildEntry`: a write behind the end of the array is out of bounds.
unfoldable pub set_child_entry : Node → ℕ → SigEntry → Run Node
set_child_entry node i entry =
    if ltb i max_child_num
    then done (record node { child_entries = put node.child_entries i entry })
    else out_of_bounds

unfoldable pub set_child_file_line : Node → ℕ → ℤ → Run Node
set_child_file_line node i line =
    if ltb i max_child_num
    then done (record node { child_file_lines = put node.child_file_lines i line })
    else out_of_bounds

unfoldable pub add_child_entry : Node → SigEntry → (is_splitting : Bool) → Run (Bool × Node)
unfolding is_full set_child_entry
add_child_entry node entry is_splitting =
    let added = set_child_entry node node.child_num entry >>= λ changed.
    done (true, record changed { child_num = suc changed.child_num }) in
    if is_full node && not is_splitting then done (false, node) else added

-- The flag, the node and its new child, which is not the null pointer.
unfoldable pub add_child_node : (node child : Node) (is_splitting : Bool) → Run (Bool × Node × Node)
unfolding is_full set_child_file_line add_child_entry
add_child_node node child is_splitting =
    let adopted = record child { father_file_line = node.self_file_line } in
    let added : Run (Bool × Node × Node) = (do
      node1 ← set_child_file_line node node.child_num child.self_file_line
      (ignored, node2) ← add_child_entry node1 child.entry is_splitting
      done (true, node2, adopted)) in
    if is_full node && not is_splitting then done (false, node, child) else added

-- The loop that moves the children behind place `k` one place forward.
unfoldable pub shift_children : (rounds k : ℕ) → Node → Node
shift_children zero k node = node
shift_children (suc rounds) k node = shift_children rounds (suc k) (record node {
  child_entries = put node.child_entries k (node.child_entries (suc k));
  child_file_lines = put node.child_file_lines k (node.child_file_lines (suc k));
})

unfoldable pub remove_child : Node → ℤ → Bool × Node
unfolding shift_children
remove_child node (negsuc m) = (false, node)
remove_child node (pos i) =
    let moved = shift_children (node.child_num - 1 - i) i node in
    if ltb i node.child_num
    then (true, record moved { child_num = node.child_num - 1 })
    else (false, node)

-- The loop of `refreshSignature`: the union of the first signatures.
unfoldable pub union_children : (n : ℕ) → (ℕ → SigEntry) → BitSet
union_children zero entries = empty
union_children (suc n) entries = union (union_children n entries) (entries n).sig

unfoldable pub refresh_signature : Node → Node
unfolding union_children
refresh_signature node =
    let sig = union_children node.child_num node.child_entries in
    let entry : SigEntry = record { sig = sig; entity_id = node.entry.entity_id } in
    if eq_bits entity_sig_length sig node.entry.sig then node else record node { entry = entry }

-- The children from place `i` on that cover the signature, as both retrievals collect them.
unfoldable pub covering {ℓ} :
    {A : Type ℓ} → (sig : BitSet) (entries : ℕ → SigEntry) (child : ℕ → A) (rounds i : ℕ) → List A
covering sig entries child zero i = []
covering sig entries child (suc rounds) i =
    let rest = covering sig entries child rounds (suc i) in
    if cover (entries i) sig then child i ∷ rest else rest

-- The flag, and the file lines of the children that are asked of the node buffer.
unfoldable pub retrieve_child : Node → (filter_sig : BitSet) → Bool × List ℤ
unfolding covering
retrieve_child node filter_sig =
    if node.is_leaf
    then (false, [])
    else (true, covering filter_sig node.child_entries node.child_file_lines node.child_num 0)

-- The flag is false in both cases.
unfoldable pub retrieve_entry : Node → (filter_sig : BitSet) → Bool × List SigEntry
unfolding covering
retrieve_entry node filter_sig =
    if node.is_leaf
    then (false, covering filter_sig node.child_entries node.child_entries node.child_num 0)
    else (false, [])
