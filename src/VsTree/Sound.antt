-- ===== src/VsTree/Sound.antt =====
-- VSTree/VSTree.cpp: trees whose entries cover what is below, and the entries that a search is to
-- find there.
use t_rdf.Base.{
  ℕ, zero, suc, ◌+◌, ◌<◌, ◌≡◌, refl, Bool, false, ◌&&◌, List, [], ◌∷◌, ◌++◌, if◌then◌else◌, arith,
  tally, tally-append, Bool-cases, inl, inr,
}
use t_rdf.Base.Int.{ℤ}
use t_rdf.Signature.BitSet.{BitSet}
use t_rdf.Signature.Cover.{SigEntry, cover, Covers, cover-Covers}
use t_rdf.VsTree.Node.{Node}
use t_rdf.VsTree.Tree.{
  Tree, tree, Children, no_children, more_children, dfs, dfs_children, add_ids, push_children,
}

-- The entries of a leaf, from child `i`.
abbrev pub entries_from : Node → (rounds i : ℕ) → List SigEntry
entries_from node zero i = []
entries_from node (suc rounds) i = node.child_entries i ∷ entries_from node rounds (suc i)

-- The entries of the leaves of a tree, one for each entity.
unfoldable mutual
  pub leaf_entries : Tree → List SigEntry
  leaf_entries (tree node children) =
      if node.is_leaf then entries_from node node.child_num 0 else below children

  pub below : Children → List SigEntry
  below no_children = []
  below (more_children t ts) = leaf_entries t ++ below ts

abbrev pub AllCovered : SigEntry → List SigEntry → Type 0
AllCovered e [] = Unit {0}
AllCovered e (x ∷ xs) = Covers e x.sig × AllCovered e xs

-- In every inner node, the entry for a child covers the entries of the leaves below that child.
unfoldable mutual
  unfolding leaf_entries

  pub IsSound : Tree → Type 0
  IsSound (tree node children) = (node.is_leaf ≡ false) → ChildrenSound node children 0

  pub ChildrenSound : Node → Children → (i : ℕ) → Type 0
  ChildrenSound node no_children i = Unit {0}
  ChildrenSound node (more_children t ts) i =
      AllCovered (node.child_entries i) (leaf_entries t) × IsSound t × ChildrenSound node ts (suc i)

abbrev pub total : List Tree → ℕ
total [] = 0
total (t ∷ ts) = dfs t 0 + total ts

pub total-append : (ts us : List Tree) → total (ts ++ us) ≡ total ts + total us
total-append [] us = omega arith
total-append (t ∷ ts) us = omega (arith, total-append ts us)

-- `dfs` adds the number of nodes to what it is given.
mutual
  unfolding dfs

  dfs_add : (t : Tree) (n : ℕ) → dfs t n ≡ n + dfs t 0
  dfs_add (tree node ts) n = omega (arith, dfs_children_add ts (n + 1), dfs_children_add ts (0 + 1))

  pub dfs_children_add : (ts : Children) (n : ℕ) → dfs_children ts n ≡ n + dfs_children ts 0
  dfs_children_add no_children n = omega arith
  dfs_children_add (more_children t ts) n =
      omega (arith, dfs_add t n, dfs_children_add ts (dfs t n), dfs_children_add ts (dfs t 0))

pub dfs_positive : (t : Tree) → 0 < dfs t 0
unfolding dfs
dfs_positive (tree node ts) = omega (arith, dfs_children_add ts (0 + 1))

module _ (filter_sig : BitSet) (p : ℤ → Bool) where
  abbrev pub is_hit : SigEntry → Bool
  is_hit e = cover e filter_sig && p e.entity_id

  abbrev pub hits : Tree → ℕ
  hits t = tally is_hit (leaf_entries t)

  abbrev pub queue_hits : List Tree → ℕ
  queue_hits [] = 0
  queue_hits (t ∷ ts) = hits t + queue_hits ts

  pub queue_hits-append :
      (ts us : List Tree) → queue_hits (ts ++ us) ≡ queue_hits ts + queue_hits us
  queue_hits-append [] us = omega arith
  queue_hits-append (t ∷ ts) us = omega (arith, queue_hits-append ts us)

  -- An entry that does not cover the filter stands above no hit.
  pub no_hits :
      (e : SigEntry) (xs : List SigEntry)
      → AllCovered e xs
      → cover e filter_sig ≡ false
      → tally is_hit xs ≡ 0
  no_hits e [] h f = refl
  no_hits e (x ∷ xs) h f = elim (Bool-cases (cover x filter_sig)) [
    | inr k ↦ rw k (omega (arith, no_hits e xs h.1 f))
    | inl k ↦
        let all =
          (cover-Covers e filter_sig).1
            (λ i lt on. h.0 i lt ((cover-Covers x filter_sig).0 k i lt on)) in
        absurd (ground (arith, all, f))
  ]

  pub add_ids-hits :
      (node : Node) (rounds i : ℕ) (ids : List ℤ)
      → tally p (add_ids filter_sig node rounds i ids)
        ≡ tally p ids + tally is_hit (entries_from node rounds i)
  unfolding add_ids
  add_ids-hits node zero i ids = omega arith
  add_ids-hits node (suc rounds) i ids =
      let e = node.child_entries i in
      let ih = λ (ids : List ℤ). add_ids-hits node rounds (suc i) ids in
      elim (Bool-cases (cover e filter_sig)) [
        | inl k ↦
            rw k
              (omega (arith, ih (ids ++ (e.entity_id ∷ [])), tally-append p ids (e.entity_id ∷ [])))
        | inr k ↦ rw k (omega (arith, ih ids))
      ]

  pub push_children-hits :
      (node : Node) (ts : Children) (i : ℕ) (queue : List Tree)
      → ChildrenSound node ts i
      → queue_hits (push_children filter_sig node ts i queue)
        ≡ queue_hits queue + tally is_hit (below ts)
  unfolding push_children leaf_entries IsSound
  push_children-hits node no_children i queue h = omega arith
  push_children-hits node (more_children t ts) i queue h =
      let split = tally-append is_hit (leaf_entries t) (below ts) in
      let ih = λ (queue : List Tree). push_children-hits node ts (suc i) queue h.2 in
      elim (Bool-cases (cover (node.child_entries i) filter_sig)) [
        | inl k ↦
            rw k (omega (arith, split, ih (queue ++ (t ∷ [])), queue_hits-append queue (t ∷ [])))
        | inr k ↦
            rw k (
              omega (arith, split, ih queue, no_hits (node.child_entries i) (leaf_entries t) h.0 k))
      ]
