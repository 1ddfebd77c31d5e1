-- ===== src/Filter/Edges.antt =====
-- `updateSubSig` and `updateObjSig` of Query/BasicQuery.cpp: the signature of a variable stays within
-- another, and its arrays have places for its edges.
use t_rdf.Base.{
  ℕ, ◌+◌, ◌≤◌, ◌<◌, ◌≡◌, refl, sym, ltb, lt→ltb, if◌then◌else◌, true, inl, inr, List, [], ◌∷◌,
  arith, ◌==◌, Bool-cases, ==_iff, ap,
}
use t_rdf.Base.Int.{ℤ, pos, negsuc}
use t_rdf.Signature.BitSet.{BitSet, Encoded, ◌>>=◌}
use t_rdf.Signature.Hash.{Text}
use t_rdf.Signature.Bounds.{Encodes, encode_predicate2edge-eq}
use t_rdf.Query.Basic.{
  Triple, BasicQuery, add_to_sig, add_edge, update_sub_sig, update_obj_sig, update_edge_sig, at_var,
  max_var_num, put, update_sub, update_obj,
}
use t_rdf.Filter.Entity.{Place, as_subject, as_object}
use t_rdf.Filter.Within.{Encodes-bind, Within, IsPreId, IsNonempty, add_to_sig-Within}
use t_rdf.Filter.Data.{type_of, EdgeWithin}

-- Every bit set.
abbrev full : BitSet
full i = true

-- One edge, if the id is that of the variable.
abbrev pub end_at : ℤ → ℕ → ℕ
end_at (pos x) w = if x == w then 1 else 0
end_at (negsuc m) w = 0

-- How many edges a query adds to a variable.
abbrev pub ends : (Text → ℤ) → List Triple → ℕ → ℕ
ends vid [] w = 0
ends vid (t ∷ ts) w = end_at (vid t.subject) w + (end_at (vid t.object) w + ends vid ts w)

-- Every variable has a place for `more` further edges.
abbrev pub Room : (more : ℕ → ℕ) → BasicQuery → Type 0
Room more q = (w : ℕ) → q.var_degree w + more w ≤ max_var_num

abbrev pub IsVar : ℤ → Type 0
IsVar (pos x) = x < max_var_num
IsVar (negsuc m) = Unit {0}

module _ (idp : Text → ℤ) (d : BitSet) (v : ℕ) where
  abbrev pub VarWithin : (more : ℕ → ℕ) → BasicQuery → Type 0
  VarWithin more q = Within (q.var_sig v) d × Room more q

  -- `update_sub_sig` and `update_obj_sig`, at the two places.
  update_at :
      (p : Place) (x : ℕ) (pre_id nei_id : ℤ) (nei : Text) (i : ℕ) (q : BasicQuery)
      → Encoded BasicQuery
  update_at p x pre_id nei_id nei i q = at_var x (
      add_to_sig (type_of p) pre_id nei_id nei (q.var_sig x) >>= λ sig.
      add_edge x (type_of p) pre_id nei_id i q sig)

  -- Adding an edge takes one place.
  add_edge-VarWithin :
      (more : ℕ → ℕ) (x type : ℕ) (pre_id nei_id : ℤ) (i : ℕ) (q : BasicQuery) (sig : BitSet)
      → Room (λ w. end_at (pos x) w + more w) q
      → Within (put q.var_sig x sig v) d
      → Encodes (add_edge x type pre_id nei_id i q sig) (VarWithin more)
  unfolding add_edge
  add_edge-VarWithin more x type pre_id nei_id i q sig room h =
      let here : (x == x) ≡ true = ground arith in
      let one : end_at (pos x) x ≡ 1 = rw here refl in
      let free : ltb (q.var_degree x) 10 ≡ true =
        lt→ltb (q.var_degree x) 10 (omega (arith, room x, one)) in
      rw free (
        h,
        λ w. elim (Bool-cases (x == w)) [
          | inl same ↦
              let e = (==_iff x w).0 same in
              let r : q.var_degree x + (1 + more x) ≤ 10 = omega (arith, room x, one) in
              rw same (rw (sym e) (omega (arith, r)))
          | inr other ↦
              let none : end_at (pos x) w ≡ 0 = rw other refl in
              rw other (omega (arith, room w, none))
        ],
      )

  update_at-VarWithin :
      (more : ℕ → ℕ) (p : Place) (x : ℕ) (pre_id nei_id : ℤ) (nei : Text) (i : ℕ) (q : BasicQuery)
      → x < max_var_num
      → IsPreId pre_id
      → IsNonempty nei
      → (x ≡ v → EdgeWithin idp d p pre_id nei_id nei)
      → VarWithin (λ w. end_at (pos x) w + more w) q
      → Encodes (update_at p x pre_id nei_id nei i q) (VarWithin more)
  unfolding update_at
  update_at-VarWithin more p x pre_id nei_id nei i q lt known n h (k, room) =
      rw (lt→ltb x max_var_num lt) (elim (Bool-cases (x == v)) [
        | inl same ↦
            let e = (==_iff x v).0 same in
            let edge = h e in
            Encodes-bind (λ s. Within s d) (VarWithin more)
              (add_to_sig (type_of p) pre_id nei_id nei (q.var_sig x)) _
              (add_to_sig-Within d (type_of p) pre_id nei_id nei (q.var_sig x) known n edge.0 edge.1
                (rw e k))
              (λ s hs. add_edge-VarWithin more x (type_of p) pre_id nei_id i q s room (rw same hs))
        | inr different ↦
            Encodes-bind (λ s. Within s full) (VarWithin more)
              (add_to_sig (type_of p) pre_id nei_id nei (q.var_sig x)) _
              (add_to_sig-Within full (type_of p) pre_id nei_id nei (q.var_sig x) known n
                (λ j on. refl) (λ c j on. refl) (λ j on. refl))
              (λ s hs.
                add_edge-VarWithin more x (type_of p) pre_id nei_id i q s room (rw different k))
      ])

  pub update_sub-VarWithin :
      (more : ℕ → ℕ) (sub_id pre_id obj_id : ℤ) (obj : Text) (i : ℕ) (q : BasicQuery)
      → IsVar sub_id
      → IsPreId pre_id
      → IsNonempty obj
      → (sub_id ≡ pos v → EdgeWithin idp d as_subject pre_id obj_id obj)
      → VarWithin (λ w. end_at sub_id w + more w) q
      → Encodes (update_sub sub_id pre_id obj_id obj i q) (VarWithin more)
  unfolding update_sub update_sub_sig update_at
  update_sub-VarWithin more (pos s) pre_id obj_id obj i q lt known n h k =
      update_at-VarWithin more as_subject s pre_id obj_id obj i q lt known n (λ e. h (ap pos e)) k
  update_sub-VarWithin more (negsuc m) pre_id obj_id obj i q lt known n h k =
      (k.0, λ w. omega (arith, k.1 w))

  pub update_obj-VarWithin :
      (more : ℕ → ℕ) (obj_id pre_id sub_id : ℤ) (sub : Text) (i : ℕ) (q : BasicQuery)
      → IsVar obj_id
      → IsPreId pre_id
      → IsNonempty sub
      → (obj_id ≡ pos v → EdgeWithin idp d as_object pre_id sub_id sub)
      → VarWithin (λ w. end_at obj_id w + more w) q
      → Encodes (update_obj obj_id pre_id sub_id sub i q) (VarWithin more)
  unfolding update_obj update_obj_sig update_at
  update_obj-VarWithin more (pos o) pre_id sub_id sub i q lt known n h k =
      update_at-VarWithin more as_object o pre_id sub_id sub i q lt known n (λ e. h (ap pos e)) k
  update_obj-VarWithin more (negsuc m) pre_id sub_id sub i q lt known n h k =
      (k.0, λ w. omega (arith, k.1 w))

  pub update_edge_sig-VarWithin :
      (more : ℕ → ℕ) (sub_id obj_id pre_id : ℤ) (q : BasicQuery)
      → IsPreId pre_id
      → VarWithin more q
      → Encodes (update_edge_sig sub_id obj_id pre_id q) (VarWithin more)
  unfolding update_edge_sig
  update_edge_sig-VarWithin more (pos s) (pos o) (pos n) q known k =
      rw (encode_predicate2edge-eq (q.edge_sig s o) n known) k
  update_edge_sig-VarWithin more (pos s) (pos o) (negsuc m) q known k = rw known k
  update_edge_sig-VarWithin more (pos s) (negsuc o) pre_id q known k = k
  update_edge_sig-VarWithin more (negsuc s) obj_id pre_id q known k = k
