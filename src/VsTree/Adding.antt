-- ===== src/VsTree/Adding.antt =====
-- Adding a child to a node: `addChildNode` of VSTree/VNode.cpp.
use t_rdf.Base.{
  ℕ, suc, ◌-◌, ◌≤◌, ◌<◌, ◌≡◌, refl, Bool, true, false, not, arith, inl, inr, ltb, ◌==◌,
  if◌then◌else◌, Bool-cases,
}
use t_rdf.Base.Run.{Returns}
use t_rdf.VsTree.Node.{
  Node, max_child_num, is_full, set_child_entry, set_child_file_line, add_child_entry,
  add_child_node,
}

-- One place is free.
abbrev pub HasRoom : Node → Type 0
HasRoom node = node.child_num ≤ max_child_num - 1

-- What an addition leaves: it fails on a full node, and changes no field of the two; otherwise the
-- child is the last one, the others are where they were, and the node is the father of the child, and
-- no other field changes.
pub record Adopted (node child : Node) (r : Bool × Node × Node) : Type 0 where
  pub refused : is_full node ≡ true → (r.1 ≡ node) × (r.2 ≡ child)
  pub kept :
      is_full node ≡ false
      → ((r.1.is_leaf ≡ node.is_leaf)
          × (r.1.is_root ≡ node.is_root)
          × (r.1.self_file_line ≡ node.self_file_line)
          × (r.1.father_file_line ≡ node.father_file_line)
          × (r.1.entry ≡ node.entry))
        × (r.2 ≡ record child { father_file_line = node.self_file_line })
  pub flag : r.0 ≡ not (is_full node)
  pub room : HasRoom r.1
  pub count : r.1.child_num ≡ (if is_full node then node.child_num else suc node.child_num)
  pub father :
      r.2.father_file_line ≡ (if is_full node then child.father_file_line else node.self_file_line)
  pub others :
      (j : ℕ)
      → j < node.child_num
      → (r.1.child_entries j ≡ node.child_entries j)
        × (r.1.child_file_lines j ≡ node.child_file_lines j)
  pub last :
      is_full node ≡ false
      → (r.1.child_entries node.child_num ≡ child.entry)
        × (r.1.child_file_lines node.child_num ≡ child.self_file_line)

-- On a node with a free place `addChildNode`, called without splitting, writes nothing behind the
-- arrays and leaves a node with a free place: a full node refuses the child, and both stay as they
-- are; another one has it as its last child behind the others, and no more changes than that and
-- the father of the child.
pub add_child_node-Adopted :
    (node child : Node)
    → HasRoom node
    → Returns (add_child_node node child false) (Adopted node child)
unfolding add_child_node add_child_entry set_child_file_line set_child_entry is_full
add_child_node-Adopted node child h = elim (Bool-cases (node.child_num == 150)) [
  | inl full ↦ rw full (record {
    refused = λ e. (refl, refl);
    kept = λ e. absurd (ground (arith, full, e));
    flag = rw full;
    room = h;
    count = rw full;
    father = rw full;
    others = λ j lt. (refl, refl);
    last = λ e. absurd (ground (arith, full, e));
  })
  | inr free ↦
      let within : ltb node.child_num 151 ≡ true = ground arith in
      rw (free, within)
        (rw (add_child_entry, free)
          (rw within (record {
            refused = λ e. absurd (ground (arith, free, e));
            kept = λ e. ((refl, refl, refl, refl, refl), refl);
            flag = rw free;
            room = ground arith;
            count = rw free;
            father = rw free;
            others = λ j lt.
                let other : (node.child_num == j) ≡ false = ground arith in rw other (refl, refl);
            last = λ e.
                let same : (node.child_num == node.child_num) ≡ true = ground arith in
                rw same (refl, refl);
          })))
]
