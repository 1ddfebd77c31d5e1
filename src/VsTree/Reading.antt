-- ===== src/VsTree/Reading.antt =====
-- VSTree/VSTree.cpp: the tree that `recursive_deserialize` builds from a file.
use t_rdf.Base.{ℕ, zero, suc, ◌+◌, ◌<◌, ◌≡◌, refl, Bool, true, false, if◌then◌else◌, arith}
use t_rdf.Base.Int.{ℤ}
use t_rdf.Base.Run.{Run, done, ◌>>=◌, Returns, Returns-bind}
use t_rdf.VsTree.Node.{Node}
use t_rdf.VsTree.Tree.{
  Tree, tree, Children, no_children, more_children, deserialize_children, recursive_deserialize,
}

module _ (file : ℤ → Node) where
  -- The nodes of the tree are those that the file has at the lines of the children.
  unfoldable mutual
    pub IsRead : Node → Tree → Type 0
    IsRead root (tree node ts) =
        (node ≡ root)
        × ((root.is_leaf ≡ true) → ts ≡ no_children)
        × ((root.is_leaf ≡ false) → ChildrenRead root ts root.child_num 0)

    pub ChildrenRead : Node → Children → (rounds i : ℕ) → Type 0
    ChildrenRead root no_children rounds i = rounds ≡ 0
    ChildrenRead root (more_children t ts) rounds i =
        (rest : ℕ) × ((rounds ≡ suc rest)
          × IsRead (file (root.child_file_lines i)) t
          × ChildrenRead root ts rest (suc i))

  Returns-if :
      (b : Bool) (x y : Run Tree) (P : Tree → Type 0)
      → (b ≡ true → Returns x P)
      → (b ≡ false → Returns y P)
      → Returns (if b then x else y) P
  Returns-if true x y P h k = h refl
  Returns-if false x y P h k = k refl

  deserialize_children-Read :
      (read_node : Node → Run Tree) (root : Node) (rounds i n : ℕ)
      → i + rounds ≡ n
      → ((j : ℕ)
          → j < n
          → Returns
              (read_node (file (root.child_file_lines j)))
              (IsRead (file (root.child_file_lines j))))
      → Returns
          (deserialize_children file read_node root rounds i)
          (λ ts. ChildrenRead root ts rounds i)
  unfolding deserialize_children IsRead
  deserialize_children-Read read_node root zero i n e h = refl
  deserialize_children-Read read_node root (suc rounds) i n e h =
      Returns-bind _ _ (read_node (file (root.child_file_lines i))) _ (h i (omega (arith, e)))
        (λ t r.
          Returns-bind _ (λ ts. ChildrenRead root ts (suc rounds) i)
            (deserialize_children file read_node root rounds (suc i)) _
            (deserialize_children-Read read_node root rounds (suc i) n (omega (arith, e)) h)
            (λ ts rs. (rounds, (refl, r, rs))))

  module _ (height : ℤ → ℕ)
      (layered : (line : ℤ) (i : ℕ)
        → (file line).is_leaf ≡ false
        → i < (file line).child_num
        → height ((file line).child_file_lines i) < height line) where
    -- If every child of an inner node in the file is lower than its node by some measure of
    -- height, then the recursion from a node with more fuel than its height ends, and builds the
    -- tree of the nodes that the file has at the lines of the children.
    pub recursive_deserialize-IsRead :
        (fuel : ℕ) (line : ℤ)
        → height line < fuel
        → Returns (recursive_deserialize file fuel (file line)) (IsRead (file line))
    unfolding recursive_deserialize IsRead
    recursive_deserialize-IsRead zero line h = absurd (omega (arith, h))
    recursive_deserialize-IsRead (suc fuel) line h =
        let root = file line in
        let read = recursive_deserialize file fuel in
        let children = deserialize_children file read root root.child_num 0 in
        Returns-if root.is_leaf (done (tree root no_children))
          (children >>= λ ts. done (tree root ts)) (IsRead root)
          (λ leaf. (refl, (λ e. refl), (λ e. absurd (ground (arith, e, leaf)))))
          (λ inner.
            Returns-bind _ (IsRead root) children _
              (deserialize_children-Read read root root.child_num 0 root.child_num (omega arith)
                (λ j lt.
                  recursive_deserialize-IsRead fuel (root.child_file_lines j)
                    (omega (arith, h, layered line j inner lt))))
              (λ ts r. (refl, (λ e. absurd (ground (arith, e, inner))), (λ e. r))))
