-- ===== src/Filter/Candidates.antt =====
-- The candidates of a query variable, over Database/Database.cpp, Query/BasicQuery.cpp and
-- VSTree/VSTree.cpp: what the data and the query are encoded to, and the search of the tree.
use t_rdf.Base.{
  ℕ, ◌≤◌, ◌<◌, ◌≡◌, refl, Bool, true, false, ◌&&◌, inl, inr, List, [], ◌∷◌, arith, tally, ==_iff,
}
use t_rdf.Base.Int.{ℤ, pos, eq_ℤ}
use t_rdf.Base.Run.{Returns, Returns-mono}
use t_rdf.Signature.BitSet.{BitSet, Encoded, empty, ok}
use t_rdf.Signature.Hash.{Text}
use t_rdf.Signature.Bounds.{Encodes, Encodes-mono}
use t_rdf.Signature.Cover.{SigEntry, cover}
use t_rdf.Query.Basic.{Triple, BasicQuery, encode_triples}
use t_rdf.Filter.Entity.{Place, string_mode, encode_entity}
use t_rdf.Filter.Within.{IsPreId}
use t_rdf.Filter.Data.{AllKnown}
use t_rdf.Filter.Sound.{QueryMatched, FitsArrays, filter_complete}
use t_rdf.VsTree.Node.{Node}
use t_rdf.VsTree.Children.{Listed}
use t_rdf.VsTree.Tree.{Children, tree, dfs, retrieve_entity_im}
use t_rdf.VsTree.Sound.{leaf_entries, AllCovered, IsSound}
use t_rdf.VsTree.Retrieval.{retrieve_entity_im-hits}

Encodes-ok : {A : Type 0} (r : Encoded A) (a : A) (P : A → Type 0) → r ≡ ok a → Encodes r P → P a
Encodes-ok r a P e h = rw e at h

-- An entry that stands in a list and passes a test is counted.
tally-Listed :
    (p : SigEntry → Bool) (e : SigEntry) (xs : List SigEntry)
    → Listed e xs
    → p e ≡ true
    → 0 < tally p xs
tally-Listed p e (x ∷ xs) (inl same) h =
    let holds : p x ≡ true = rw same h in rw holds (omega arith)
tally-Listed p e (x ∷ xs) (inr k) h = omega (arith, tally-Listed p e xs k h)
tally-Listed p e [] h k = elim h [ ]

module _ (idp vid : Text → ℤ) (known : (str : Text) → IsPreId (idp str)) (v : ℕ) where
  -- Let every id of the predicate dictionary be -1 or below the limit. Let the triples of an entity
  -- have predicates of the dictionary and be encoded to a signature that stands with the id of the
  -- entity in a leaf of the tree. Let the subjects and objects of the query be nonempty, every id
  -- of a variable be below `MAX_VAR_NUM`, no variable have more edges than that, every edge of a
  -- query variable be matched by a triple of the entity, and the variable start without a bit in
  -- its signature. Let the entries of the tree cover what is below, and let there be as many rounds
  -- as the tree has nodes. Then the query is encoded, the search for the signature of the variable
  -- ends, and the id is among the candidates that it leaves.
  pub candidate_complete :
      (es : List (Place × Triple)) (ts : List Triple) (i id : ℕ) (q : BasicQuery) (d : BitSet)
      (fuel : ℕ) (node : Node) (children : Children) (candidates : List ℤ)
      → AllKnown idp es
      → QueryMatched idp vid known v es ts
      → FitsArrays idp vid known v ts q
      → ((j : ℕ) → q.var_sig v j ≡ false)
      → encode_entity string_mode idp empty es ≡ ok d
      → Listed (record { sig = d; entity_id = pos id }) (leaf_entries (tree node children))
      → dfs (tree node children) 0 ≤ fuel
      → AllCovered node.entry (leaf_entries (tree node children))
      → IsSound (tree node children)
      → Encodes (encode_triples idp vid i ts q) (λ q'.
        Returns
          (retrieve_entity_im (q'.var_sig v) fuel (tree node children) candidates)
          (λ out. 0 < tally (λ k. eq_ℤ k (pos id)) out))
  candidate_complete es ts i id q d fuel node ch cands data_known m fits start enc listed le cov
        sound =
      let e : SigEntry = record { sig = d; entity_id = pos id } in
      Encodes-mono (encode_triples idp vid i ts q)
        (Encodes-ok _ d _ enc
          (filter_complete idp vid known v es ts i (pos id) q data_known m fits start))
        (λ q' covers.
          let hit = λ (k : ℤ). eq_ℤ k (pos id) in
          let p = λ (x : SigEntry). cover x (q'.var_sig v) && hit x.entity_id in
          let here : p e ≡ true = rw covers ((==_iff id id).1 refl) in
          let counted = tally-Listed p e (leaf_entries (tree node ch)) listed here in
          Returns-mono _ (λ out. 0 < tally hit out)
            (retrieve_entity_im (q'.var_sig v) fuel (tree node ch) cands)
            (retrieve_entity_im-hits (q'.var_sig v) fuel node ch cands le cov sound)
            (λ out all. omega (arith, counted, all hit)))
