-- ===== src/Filter/Sound.antt =====
-- The signature of a query variable (Query/BasicQuery.cpp) against that of an entity.
use t_rdf.Base.{ℕ, suc, ◌+◌, ◌≡◌, true, false, List, [], ◌∷◌, arith}
use t_rdf.Base.Int.{ℤ, pos}
use t_rdf.Signature.BitSet.{BitSet, empty}
use t_rdf.Signature.Hash.{Text}
use t_rdf.Signature.Bounds.{Encodes, Encodes-mono}
use t_rdf.Signature.Cover.{cover, cover-Covers}
use t_rdf.Query.Basic.{Triple, BasicQuery, update_sub, update_obj, encode_triple, encode_triples}
use t_rdf.Filter.Entity.{string_mode, Place, as_subject, as_object, encode_entity}
use t_rdf.Filter.Within.{Encodes-bind, Within, IsPreId, IsNonempty}
use t_rdf.Filter.Edges.{
  ends, end_at, Room, IsVar, VarWithin, update_sub-VarWithin, update_obj-VarWithin,
  update_edge_sig-VarWithin,
}
use t_rdf.Filter.Data.{
  AllKnown, AllContained, Matched, Matched-EdgeWithin, encode_entity-AllContained,
}

module _ (idp vid : Text → ℤ) (known : (x : Text) → IsPreId (idp x)) (v : ℕ) where
  -- The edges of the variable in a triple of the query are matched by triples of the entity.
  abbrev pub EdgesMatched : List (Place × Triple) → Triple → Type 0
  EdgesMatched es t =
      (vid t.subject ≡ pos v → Matched idp as_subject (idp t.predicate) (vid t.object) t.object es)
      × (vid t.object ≡ pos v
          → Matched idp as_object (idp t.predicate) (vid t.subject) t.subject es)

  abbrev pub QueryMatched : List (Place × Triple) → List Triple → Type 0
  QueryMatched es [] = Unit {0}
  QueryMatched es (t ∷ ts) =
      IsNonempty t.subject × IsNonempty t.object × EdgesMatched es t × QueryMatched es ts

  -- The ids of variables are indices, and no variable has more edges than its arrays have places.
  abbrev pub FitsArrays : List Triple → BasicQuery → Type 0
  FitsArrays ts q = ((str : Text) → IsVar (vid str)) × Room (ends vid ts) q

  module _ (d : BitSet) (es : List (Place × Triple)) (c : AllContained idp d es) where
    encode_triple-VarWithin :
        (more : ℕ → ℕ) (i : ℕ) (t : Triple) (q : BasicQuery)
        → ((str : Text) → IsVar (vid str))
        → IsNonempty t.subject
        → IsNonempty t.object
        → EdgesMatched es t
        → VarWithin idp d v (λ w. end_at (vid t.subject) w + (end_at (vid t.object) w + more w)) q
        → Encodes (encode_triple idp vid i t q) (VarWithin idp d v more)
    unfolding encode_triple
    encode_triple-VarWithin more i t q vars s o m k =
        let P = VarWithin idp d v in
        let pre = idp t.predicate in
        let sub = vid t.subject in
        let obj = vid t.object in
        let left = λ (w : ℕ). end_at obj w + more w in
        Encodes-bind (P left) (P more) (update_sub sub pre obj t.object i q) _
          (update_sub-VarWithin idp d v left sub pre obj t.object i q (vars t.subject)
            (known t.predicate) o
            (λ e. Matched-EdgeWithin idp d as_subject pre obj t.object es (m.0 e) c) k)
          (λ q1 k1.
            Encodes-bind (P more) (P more) (update_obj obj pre sub t.subject i q1) _
              (update_obj-VarWithin idp d v more obj pre sub t.subject i q1 (vars t.object)
                (known t.predicate) s
                (λ e. Matched-EdgeWithin idp d as_object pre sub t.subject es (m.1 e) c) k1)
              (λ q2 k2.
                update_edge_sig-VarWithin idp d v more sub obj pre q2 (known t.predicate) k2))

    encode_triples-VarWithin :
        (i : ℕ) (ts : List Triple) (q : BasicQuery)
        → ((str : Text) → IsVar (vid str))
        → QueryMatched es ts
        → VarWithin idp d v (ends vid ts) q
        → Encodes (encode_triples idp vid i ts q) (λ q'. Within (q'.var_sig v) d)
    unfolding encode_triples
    encode_triples-VarWithin i [] q vars m k = k.0
    encode_triples-VarWithin i (t ∷ ts) q vars m k =
        Encodes-bind (VarWithin idp d v (ends vid ts)) (λ q'. Within (q'.var_sig v) d)
          (encode_triple idp vid i t q) _
          (encode_triple-VarWithin (ends vid ts) i t q vars m.0 m.1 m.2 k)
          (λ q' k'. encode_triples-VarWithin (suc i) ts q' vars m.3 k')

  -- Let every id of the predicate dictionary be -1 or below the limit, the predicates of the
  -- triples of an entity be in the dictionary, every id of a variable be below `MAX_VAR_NUM`, and no
  -- variable have more edges than that. Let the subjects and objects of the query be nonempty, the
  -- signature of a query variable start empty, and every edge of the variable be matched by a
  -- triple of the entity. Then both encodings end, and the signature of the entity covers the
  -- signature of the variable: the filter keeps the entity.
  pub filter_complete :
      (es : List (Place × Triple)) (ts : List Triple) (i : ℕ) (id : ℤ) (q : BasicQuery)
      → AllKnown idp es
      → QueryMatched es ts
      → FitsArrays ts q
      → ((j : ℕ) → q.var_sig v j ≡ false)
      → Encodes (encode_entity string_mode idp empty es) (λ d.
        Encodes
          (encode_triples idp vid i ts q)
          (λ q'. cover (record { sig = d; entity_id = id }) (q'.var_sig v) ≡ true))
  filter_complete es ts i id q data_known m fits start =
      Encodes-mono (encode_entity string_mode idp empty es)
        (encode_entity-AllContained idp es empty data_known)
        (λ d c.
          Encodes-mono (encode_triples idp vid i ts q)
            (encode_triples-VarWithin d es c.0 i ts q fits.0 m
              ((λ j on. ground (arith, start j)), fits.1))
            (λ q' k.
              (cover-Covers (record { sig = d; entity_id = id }) (q'.var_sig v)).1
                (λ j lt on. k j on)))
