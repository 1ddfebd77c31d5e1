-- ===== src/DfsJoin/Chosen.antt =====
-- `dfs` of Database/Database.cpp: what the choices at a depth change, and what they leave.
use t_rdf.Base.{
  ℕ, zero, suc, ◌<◌, ◌≡◌, inl, inr, refl, sym, ap, ◌∙◌, false, List, [], ◌∷◌, ◌==◌, length, get_or,
  set, arith, length-set, Bool-cases, ==_iff,
}
use t_rdf.Base.Int.{ℤ, pos, negsuc}
use t_rdf.IdList.Ops.{IdList}
use t_rdf.DfsJoin.Rows.{Member, pos-inj}
use t_rdf.DfsJoin.Built.{built-LeadsBack}
use t_rdf.DfsJoin.Search.{JoinQuery, ResultVar, neighbor_ids, add_neighbor, local_loop, local_cands}
use t_rdf.DfsJoin.Answers.{IsOrder, next_ids, Same}

get_or-set_same : (xs : List ℕ) (i v : ℕ) → i < length xs → get_or (set xs i v) i 0 ≡ v
get_or-set_same [] i v h = absurd (omega arith)
get_or-set_same (x ∷ xs) zero v h = refl
get_or-set_same (x ∷ xs) (suc i) v h = get_or-set_same xs i v (omega (arith, h))

get_or-set_other :
    (xs : List ℕ) (i j v : ℕ) → (i == j) ≡ false → get_or (set xs i v) j 0 ≡ get_or xs j 0
get_or-set_other [] i j v h = refl
get_or-set_other (x ∷ xs) zero zero v h = absurd (ground (arith, h))
get_or-set_other (x ∷ xs) zero (suc j) v h = refl
get_or-set_other (x ∷ xs) (suc i) zero v h = refl
get_or-set_other (x ∷ xs) (suc i) (suc j) v h = get_or-set_other xs i j v (ground (arith, h))

-- A row of `bn` has edges to variables that stand earlier.
bn_earlier :
    (q : JoinQuery)
    → IsOrder q
    → (d idx v : ℕ) → d < q.var_num
    → Member idx (get_or q.bn d [])
    → q.query.edge_nei_id (q.matching_order d) idx ≡ pos v
    → (k : ℕ) × ((k < d) × (q.matching_order k ≡ v))
bn_earlier q order d idx v lt m e =
    let (k, place) =
      ((built-LeadsBack q.query q.matching_order q.var_num q.bn d idx order.built lt).0 m).1 in
    (k, (place.0, pos-inj (q.matching_order k) v (sym place.1 ∙ e)))

module _ (q : JoinQuery) where
  module _ (order : IsOrder q) where
    Same-set_at :
        (d id : ℕ) (rv us : ResultVar)
        → d < q.var_num
        → Same q d rv us
        → (k : ℕ) → k < suc d
        → get_or (set rv (q.matching_order d) id) (q.matching_order k) 0
          ≡ get_or (set us (q.matching_order d) id) (q.matching_order k) 0
    Same-set_at d id rv us h s k lt =
        let v = q.matching_order d in
        let below = order.in_range d h in
        elim (Bool-cases (k == d)) [
          | inl e ↦
              let same : k ≡ d = (==_iff k d).0 e in
              rw
                (
                  same,
                  get_or-set_same rv v id (omega (arith, below, s.size_left)),
                  get_or-set_same us v id (omega (arith, below, s.size_right)),
                )
                refl
          | inr e ↦
              let earlier : k < d = ground (arith, e, lt) in
              let other = order.distinct k d earlier h in
              get_or-set_other rv v (q.matching_order k) id other
              ∙ s.agree k earlier
              ∙ sym (get_or-set_other us v (q.matching_order k) id other)
        ]

    pub Same-set :
        (d id : ℕ) (rv us : ResultVar)
        → d < q.var_num
        → Same q d rv us
        → Same q (suc d) (set rv (q.matching_order d) id) (set us (q.matching_order d) id)
    Same-set d id rv us h s = record {
      size_left = length-set rv (q.matching_order d) id ∙ s.size_left;
      size_right = length-set us (q.matching_order d) id ∙ s.size_right;
      agree = λ k lt. Same-set_at d id rv us h s k lt;
    }

    -- A choice at place `d` leaves the earlier ones.
    pub Same-unset :
        (d id : ℕ) (rv us : ResultVar)
        → d < q.var_num
        → length rv ≡ suc q.var_num
        → Same q (suc d) (set rv (q.matching_order d) id) us
        → Same q d rv us
    Same-unset d id rv us h n s = record {
      size_left = n;
      size_right = s.size_right;
      agree = λ k lt.
          sym (
            get_or-set_other rv (q.matching_order d) (q.matching_order k) id
              (order.distinct k d lt h))
          ∙ s.agree k (omega (arith, lt));
    }

    Same-neighbor_ids :
        (var_id idx v : ℕ) (rv us : ResultVar)
        → get_or rv v 0 ≡ get_or us v 0
        → neighbor_ids q var_id idx v rv ≡ neighbor_ids q var_id idx v us
    unfolding neighbor_ids
    Same-neighbor_ids var_id idx v rv us same = rw (same, neighbor_ids) refl

    Same-add_neighbor :
        (d idx i : ℕ) (rv us : ResultVar) (cands : IdList) (nei : ℤ)
        → d < q.var_num
        → Member idx (get_or q.bn d [])
        → q.query.edge_nei_id (q.matching_order d) idx ≡ nei
        → Same q d rv us
        → add_neighbor q (q.matching_order d) idx i rv cands nei
          ≡ add_neighbor q (q.matching_order d) idx i us cands nei
    Same-add_neighbor d idx i rv us cands (negsuc m) h b e s = refl
    Same-add_neighbor d idx i rv us cands (pos v) h b e s =
        let (k, place) = bn_earlier q order d idx v h b e in
        let same : get_or rv v 0 ≡ get_or us v 0 = rw place.1 at (s.agree k place.0) in
        rw (Same-neighbor_ids (q.matching_order d) idx v rv us same) refl

    Same-local_loop :
        (d : ℕ) (idxs : List ℕ) (i : ℕ) (rv us : ResultVar) (cands : IdList)
        → d < q.var_num
        → ((idx : ℕ) → Member idx idxs → Member idx (get_or q.bn d []))
        → Same q d rv us
        → local_loop q (q.matching_order d) idxs i rv cands
          ≡ local_loop q (q.matching_order d) idxs i us cands
    unfolding local_loop
    Same-local_loop d [] i rv us cands h m s = refl
    Same-local_loop d (idx ∷ idxs) i rv us cands h m s =
        let nei = q.query.edge_nei_id (q.matching_order d) idx in
        ap (λ c. local_loop q (q.matching_order d) idxs (suc i) rv c)
          (Same-add_neighbor d idx i rv us cands nei h (m idx (inl refl)) refl s)
        ∙ Same-local_loop d idxs (suc i) rv us _ h (λ x k. m x (inr k)) s

    pub Same-next_ids :
        (d : ℕ) (rv us : ResultVar)
        → d < q.var_num
        → Same q d rv us
        → next_ids q d rv ≡ next_ids q d us
    unfolding local_cands
    Same-next_ids d rv us h s =
        rw (Same-local_loop d (get_or q.bn d []) 0 rv us [] h (λ x k. k) s) refl
