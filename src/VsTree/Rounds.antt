-- ===== src/VsTree/Rounds.antt =====
-- VSTree/VSTree.cpp: the rounds of `retrieveEntity_IM`.
use t_rdf.Base.{
  ℕ, zero, suc, ◌+◌, ◌≤◌, ◌<◌, ◌≡◌, Bool, List, [], ◌∷◌, ◌++◌, arith, tally, Bool-cases, inl, inr,
}
use t_rdf.Base.Int.{ℤ}
use t_rdf.Base.Run.{Returns, Returns-mono}
use t_rdf.Signature.BitSet.{BitSet}
use t_rdf.Signature.Cover.{cover}
use t_rdf.VsTree.Node.{Node}
use t_rdf.VsTree.Tree.{
  Tree, tree, Children, no_children, more_children, dfs, dfs_children, add_ids, push_children,
  retrieve_node, retrieve_loop,
}
use t_rdf.VsTree.Sound.{
  leaf_entries, IsSound, ChildrenSound, total, total-append, dfs_children_add, dfs_positive, hits,
  queue_hits, add_ids-hits, push_children-hits,
}

abbrev AllSound : List Tree → Type 0
AllSound [] = Unit {0}
AllSound (t ∷ ts) = IsSound t × AllSound ts

AllSound-append : (ts us : List Tree) → AllSound ts → AllSound us → AllSound (ts ++ us)
AllSound-append [] us h k = k
AllSound-append (t ∷ ts) us h k = (h.0, AllSound-append ts us h.1 k)

module _ (filter_sig : BitSet) where
  push_children-AllSound :
      (node : Node) (ts : Children) (i : ℕ) (queue : List Tree)
      → ChildrenSound node ts i
      → AllSound queue
      → AllSound (push_children filter_sig node ts i queue)
  unfolding push_children IsSound
  push_children-AllSound node no_children i queue h k = k
  push_children-AllSound node (more_children t ts) i queue h k =
      let ih = λ (queue : List Tree) (k : AllSound queue).
        push_children-AllSound node ts (suc i) queue h.2 k in
      elim (Bool-cases (cover (node.child_entries i) filter_sig)) [
        | inl c ↦ rw c (ih (queue ++ (t ∷ [])) (AllSound-append queue (t ∷ []) k ((h.1, tt))))
        | inr c ↦ rw c (ih queue k)
      ]

  push_children-total :
      (node : Node) (ts : Children) (i : ℕ) (queue : List Tree)
      → total (push_children filter_sig node ts i queue) ≤ total queue + dfs_children ts 0
  unfolding push_children dfs
  push_children-total node no_children i queue = omega arith
  push_children-total node (more_children t ts) i queue =
      let ih = λ (queue : List Tree). push_children-total node ts (suc i) queue in
      let add = dfs_children_add ts (dfs t 0) in
      elim (Bool-cases (cover (node.child_entries i) filter_sig)) [
        | inl c ↦ rw c (omega (arith, add, ih (queue ++ (t ∷ [])), total-append queue (t ∷ [])))
        | inr c ↦ rw c (omega (arith, add, ih queue))
      ]

  module _ (p : ℤ → Bool) where
    -- A round loses no hit, keeps the nodes in the queue sound, and takes a node off it.
    record Round (t : Tree) (queue : List Tree) (ids : List ℤ) (after : List Tree × List ℤ)
        : Type 0 where
      hits_kept :
          tally p after.1 + queue_hits filter_sig p after.0
          ≡ tally p ids + (hits filter_sig p t + queue_hits filter_sig p queue)
      sound : AllSound after.0
      fewer : total after.0 < dfs t 0 + total queue

    retrieve_node-Round :
        (t : Tree) (queue : List Tree) (ids : List ℤ)
        → IsSound t
        → AllSound queue
        → Round t queue ids (retrieve_node filter_sig t queue ids)
    unfolding retrieve_node leaf_entries IsSound dfs add_ids push_children
    retrieve_node-Round (tree node ts) queue ids h k =
        let add = dfs_children_add ts (0 + 1) in
        elim (Bool-cases node.is_leaf) [
          | inl leaf ↦ rw leaf (record {
            hits_kept = omega (arith, add_ids-hits filter_sig p node node.child_num 0 ids);
            sound = k;
            fewer = omega (arith, add);
          })
          | inr inner ↦ rw inner (record {
            hits_kept = omega (arith, push_children-hits filter_sig p node ts 0 queue (h inner));
            sound = push_children-AllSound node ts 0 queue (h inner) k;
            fewer = omega (arith, add, push_children-total node ts 0 queue);
          })
        ]

    pub retrieve_loop-hits :
        (fuel : ℕ) (queue : List Tree) (ids : List ℤ)
        → total queue ≤ fuel
        → AllSound queue
        → Returns
            (retrieve_loop filter_sig fuel queue ids)
            (λ out. tally p out ≡ tally p ids + queue_hits filter_sig p queue)
    unfolding retrieve_loop
    retrieve_loop-hits fuel [] ids le k = omega arith
    retrieve_loop-hits zero (t ∷ queue) ids le k = absurd (omega (arith, le, dfs_positive t))
    retrieve_loop-hits (suc fuel) (t ∷ queue) ids le k =
        let (after, got) = retrieve_node filter_sig t queue ids in
        let r = retrieve_node-Round t queue ids k.0 k.1 in
        Returns-mono (λ out. tally p out ≡ tally p got + queue_hits filter_sig p after) _ _
          (retrieve_loop-hits fuel after got (omega (arith, le, r.fewer)) r.sound)
          (λ out e. omega (arith, e, r.hits_kept))
