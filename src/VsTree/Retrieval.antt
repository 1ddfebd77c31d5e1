-- ===== src/VsTree/Retrieval.antt =====
-- VSTree/VSTree.cpp: what `retrieveEntity_IM` finds in a tree whose entries cover what is below.
use t_rdf.Base.{
  ℕ, ◌+◌, ◌≤◌, ◌≡◌, Bool, true, ◌&&◌, List, [], ◌∷◌, arith, tally, Bool-cases, inl, inr,
}
use t_rdf.Base.Int.{ℤ}
use t_rdf.Base.Run.{Run, done, out_of_bounds, out_of_fuel, Returns, Returns-mono}
use t_rdf.Signature.BitSet.{BitSet}
use t_rdf.Signature.Cover.{cover}
use t_rdf.VsTree.Node.{Node}
use t_rdf.VsTree.Tree.{tree, Children, dfs, retrieve_loop, retrieve_entity_im}
use t_rdf.VsTree.Sound.{leaf_entries, AllCovered, IsSound, hits, no_hits}
use t_rdf.VsTree.Rounds.{retrieve_loop-hits}

Returns-all :
    (r : Run (List ℤ)) (P : (ℤ → Bool) → List ℤ → Type 0)
    → ((p : ℤ → Bool) → Returns r (P p))
    → Returns r (λ out. (p : ℤ → Bool) → P p out)
Returns-all (done out) P h = h
Returns-all out_of_bounds P h = h (λ id. true)
Returns-all out_of_fuel P h = h (λ id. true)

-- Let the entry of the root, and in every inner node the entry for each child, cover the entries
-- of the leaves below. Then the search ends if it may make as many rounds as `dfs` counts nodes,
-- and it adds to the list exactly the entities whose entry in a leaf covers the filter: of the
-- ids with any property as many as there are such entries.
pub retrieve_entity_im-hits :
    (filter_sig : BitSet) (fuel : ℕ) (node : Node) (children : Children) (id_list : List ℤ)
    → dfs (tree node children) 0 ≤ fuel
    → AllCovered node.entry (leaf_entries (tree node children))
    → IsSound (tree node children)
    → Returns (retrieve_entity_im filter_sig fuel (tree node children) id_list) (λ out.
      (p : ℤ → Bool)
      → tally p out
        ≡ tally p id_list
          + tally (λ e. cover e filter_sig && p e.entity_id) (leaf_entries (tree node children)))
unfolding retrieve_entity_im
retrieve_entity_im-hits filter_sig fuel node ts ids le covered sound =
    let root = tree node ts in
    Returns-all (retrieve_entity_im filter_sig fuel root ids)
      (λ p out. tally p out ≡ tally p ids + hits filter_sig p root)
      (λ p. elim (Bool-cases (cover node.entry filter_sig)) [
        | inl c ↦ rw c (
            Returns-mono (λ out. tally p out ≡ tally p ids + (hits filter_sig p root + 0))
              (λ out. tally p out ≡ tally p ids + hits filter_sig p root)
              (retrieve_loop filter_sig fuel (root ∷ []) ids)
              (retrieve_loop-hits filter_sig p fuel (root ∷ []) ids (omega (arith, le))
                ((sound, tt)))
              (λ out e. omega (arith, e)))
        | inr c ↦ rw c (
            Returns-mono (λ out. tally p out ≡ tally p ids + 0)
              (λ out. tally p out ≡ tally p ids + hits filter_sig p root)
              (retrieve_loop filter_sig fuel [] ids)
              (retrieve_loop-hits filter_sig p fuel [] ids (omega arith) tt)
              (λ out e.
                omega (arith, e, no_hits filter_sig p node.entry (leaf_entries root) covered c)))
      ])
