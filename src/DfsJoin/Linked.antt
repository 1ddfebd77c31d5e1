-- ===== src/DfsJoin/Linked.antt =====
-- `dfs` of Database/Database.cpp: the ids that it tries at a depth, against the edges of the query.
use t_rdf.Base.{
  ℕ, suc, ◌<◌, ◌≡◌, ◌≢◌, ◌↔◌, refl, sym, ap, ◌∙◌, inl, inr, Bool, true, false, ◌&&◌, List, [], ◌∷◌,
  ◌==◌, if◌then◌else◌, get_or, keep, arith, Bool-cases, ==_iff,
}
use t_rdf.Base.Int.{ℤ, pos, negsuc}
use t_rdf.Base.Sets.{mem, IsBelow, IsAscending}
use t_rdf.Signature.Encode.{edge_out}
use t_rdf.IdList.Ops.{IdList, intersect_ids, union_ids, copy_ids_lem}
use t_rdf.IdList.Intersect.{intersect_list-common}
use t_rdf.IdList.Union.{union_list-IsAscending}
use t_rdf.DfsJoin.Rows.{Member, pos-inj, pos-negsuc}
use t_rdf.DfsJoin.Built.{built-LeadsBack}
use t_rdf.DfsJoin.Search.{JoinQuery, ResultVar, neighbor_ids, add_neighbor, local_loop, local_cands}
use t_rdf.DfsJoin.Answers.{IsOrder}

and-both : (a b : Bool) → (a && b) ≡ true → (a ≡ true) × (b ≡ true)
and-both true b h = (refl, h)
and-both false b h = absurd (ground (arith, h))

mem-keep : (f : ℕ → Bool) (xs : List ℕ) (z : ℕ) → mem z (keep f xs) ≡ (mem z xs && f z)
mem-keep f [] z = refl
mem-keep f (x ∷ xs) z =
    let ih = mem-keep f xs z in
    elim (Bool-cases (x == z)) [
      | inl e ↦
          let same : x ≡ z = (==_iff x z).0 e in
          rw (same) (elim (Bool-cases (f z)) [
            | inl t ↦ rw (t) (ground (arith, t, ih))
            | inr n ↦ rw (n) (ground (arith, n, ih))
          ])
      | inr e ↦ elim (Bool-cases (f x)) [ inl t ↦ rw (t, e) ih | inr n ↦ rw (n, e) ih ]
    ]

IsBelow-keep : (f : ℕ → Bool) (a : ℕ) (xs : List ℕ) → IsBelow a xs → IsBelow a (keep f xs)
IsBelow-keep f a [] h = tt
IsBelow-keep f a (x ∷ xs) h = elim (Bool-cases (f x)) [
  | inl e ↦ rw e (h.0, IsBelow-keep f a xs h.1)
  | inr e ↦ rw e (IsBelow-keep f a xs h.1)
]

IsAscending-keep : (f : ℕ → Bool) (xs : List ℕ) → IsAscending xs → IsAscending (keep f xs)
IsAscending-keep f [] h = tt
IsAscending-keep f (x ∷ xs) h = elim (Bool-cases (f x)) [
  | inl e ↦ rw e (IsBelow-keep f x xs h.0, IsAscending-keep f xs h.1)
  | inr e ↦ rw e (IsAscending-keep f xs h.1)
]

module _ (q : JoinQuery) where
  -- The lists of the store are ascending.
  abbrev pub IsSortedStore : Type 0
  IsSortedStore =
      (id : ℕ) (pre : ℤ)
      → IsAscending (q.sub_ids_by_obj_pre id pre) × IsAscending (q.obj_ids_by_sub_pre id pre)

  -- The ids that the store has at the other end of an edge of a variable.
  abbrev pub edge_ids : (var idx : ℕ) (id : ℕ) → List ℕ
  edge_ids var idx id =
      if q.query.edge_type var idx == edge_out
      then q.sub_ids_by_obj_pre id (q.query.edge_pre_id var idx)
      else q.obj_ids_by_sub_pre id (q.query.edge_pre_id var idx)

  -- The store has the edges between the id and the values of the variables that they lead to.
  abbrev pub IsLinked : (var id : ℕ) → List ℕ → ResultVar → Type 0
  IsLinked var id [] rv = Unit {0}
  IsLinked var id (idx ∷ idxs) rv =
      ((v : ℕ)
        → q.query.edge_nei_id var idx ≡ pos v
        → mem id (edge_ids var idx (get_or rv v 0)) ≡ true)
      × IsLinked var id idxs rv

  module _ (sorted : IsSortedStore) where
    neighbor_ids-mem :
        (var idx v : ℕ) (rv : ResultVar)
        → IsAscending (neighbor_ids q var idx v rv)
          × ((z : ℕ)
              → mem z (neighbor_ids q var idx v rv) ≡ mem z (edge_ids var idx (get_or rv v 0)))
    unfolding neighbor_ids
    neighbor_ids-mem var idx v rv =
        union_list-IsAscending [] (edge_ids var idx (get_or rv v 0)) tt
          (elim (Bool-cases (q.query.edge_type var idx == edge_out)) [
            | inl e ↦ rw e (sorted (get_or rv v 0) (q.query.edge_pre_id var idx)).0
            | inr e ↦ rw e (sorted (get_or rv v 0) (q.query.edge_pre_id var idx)).1
          ])

    intersect_ids-mem :
        (xs ys : IdList)
        → IsAscending xs
        → IsAscending ys
        → IsAscending (intersect_ids xs ys).0
          × ((z : ℕ) → mem z (intersect_ids xs ys).0 ≡ (mem z xs && mem z ys))
    unfolding intersect_ids
    intersect_ids-mem xs ys h k =
        rw (copy_ids_lem ys, (intersect_list-common xs ys h k).0)
          (IsAscending-keep (λ x. mem x ys) xs h, λ z. mem-keep (λ x. mem x ys) xs z)

    add_neighbor-mem :
        (var id idx i : ℕ) (rv : ResultVar) (cands : IdList) (nei : ℤ)
        → q.query.edge_nei_id var idx ≡ nei
        → IsAscending cands
        → IsAscending (add_neighbor q var idx (suc i) rv cands nei)
          × ((mem id (add_neighbor q var idx (suc i) rv cands nei) ≡ true) ↔ (
              (mem id cands ≡ true)
              × ((v : ℕ)
                  → q.query.edge_nei_id var idx ≡ pos v
                  → mem id (edge_ids var idx (get_or rv v 0)) ≡ true)))
    add_neighbor-mem var id idx i rv cands (negsuc m) e h =
        (h, (λ k. (k, λ v f. pos-negsuc m v (sym e ∙ f)), λ k. k.0))
    add_neighbor-mem var id idx i rv cands (pos n) e h =
        let (asc, same) = neighbor_ids-mem var idx n rv in
        let (both, met) = intersect_ids-mem cands (neighbor_ids q var idx n rv) h asc in
        let split = met id ∙ ap (λ b. mem id cands && b) (same id) in
        rw later (
          both,
          (
            λ m.
                let (l, r) = and-both _ _ (sym split ∙ m) in
                (l, λ v f. rw (pos-inj n v (sym e ∙ f)) at r),
            λ m. rw (split, m.0, m.1 n e) refl,
          ),
        )
      where
        later : (suc i == 0) ≡ false
        later = ground arith

    -- The rounds after the first.
    local_loop-mem :
        (var id : ℕ) (idxs : List ℕ) (i : ℕ) (rv : ResultVar) (cands : IdList)
        → IsAscending cands
        → (mem id (local_loop q var idxs (suc i) rv cands) ≡ true)
          ↔ ((mem id cands ≡ true) × IsLinked var id idxs rv)
    unfolding local_loop
    local_loop-mem var id [] i rv cands h = (λ m. (m, tt), λ m. m.0)
    local_loop-mem var id (idx ∷ idxs) i rv cands h =
        let nei = q.query.edge_nei_id var idx in
        let next = add_neighbor q var idx (suc i) rv cands nei in
        let (asc, here) = add_neighbor-mem var id idx i rv cands nei refl h in
        let rest = local_loop-mem var id idxs (suc i) rv next asc in
        (
          λ m. let r = rest.0 m in let n = here.0 r.0 in (n.0, (n.1, r.1)),
          λ m. rest.1 ((here.1 ((m.0, m.1.0)), m.1.1)),
        )

    union_ids-mem :
        (xs : IdList)
        → IsAscending xs
        → IsAscending (union_ids [] xs).0 × ((z : ℕ) → mem z (union_ids [] xs).0 ≡ mem z xs)
    unfolding union_ids
    union_ids-mem xs h = rw (copy_ids_lem xs) (union_list-IsAscending [] xs tt h)

    -- The first round, whose edge leads to a variable.
    first_round-mem :
        (var id : ℕ) (row : List ℕ) (rv : ResultVar)
        → ((idx : ℕ) → Member idx row → (v : ℕ) × (q.query.edge_nei_id var idx ≡ pos v))
        → (mem id (local_loop q var row 0 rv []) ≡ true) ↔ ((row ≢ []) × IsLinked var id row rv)
    unfolding local_loop
    first_round-mem var id [] rv h = (λ m. absurd (ground (arith, m)), λ m. absurd (m.0 refl))
    first_round-mem var id (idx ∷ idxs) rv h =
        let (n, e) = h idx (inl refl) in
        let (asc, same) = neighbor_ids-mem var idx n rv in
        let (all, held) = union_ids-mem (neighbor_ids q var idx n rv) asc in
        let has = held id ∙ same id in
        let rest =
          local_loop-mem var id idxs 0 rv (union_ids [] (neighbor_ids q var idx n rv)).0 all in
        rw e (
          λ m.
              let r = rest.0 m in
              ((λ no. absurd (cc)), ((λ v f. rw (pos-inj n v f) at (sym has ∙ r.0)), r.1)),
          λ m. rest.1 ((has ∙ m.1.0 n refl, m.1.1)),
        )

  -- Let the lists of the store be ascending, the order have every variable once, and `generateBN`
  -- stay inside its arrays and make `bn`. Then at every place of the order but the first, the ids that
  -- the search tries are exactly those that the store links with the values chosen for all
  -- earlier variables to which the query has an edge, and none if there is no such edge.
  pub local_cands-IsLinked :
      (d id : ℕ) (rv : ResultVar)
      → IsOrder q
      → IsSortedStore
      → suc d < q.var_num
      → (mem id (local_cands q (suc d) rv) ≡ true) ↔ (
          (get_or q.bn (suc d) [] ≢ [])
          × IsLinked (q.matching_order (suc d)) id (get_or q.bn (suc d) []) rv)
  unfolding local_cands
  local_cands-IsLinked d id rv order sorted lt =
      let later : (suc d == 0) ≡ false = ground arith in
      rw later (
        first_round-mem sorted (q.matching_order (suc d)) id (get_or q.bn (suc d) []) rv (λ idx m.
          let (k, place) =
            ((built-LeadsBack q.query q.matching_order q.var_num q.bn (suc d) idx order.built lt).0
              m).1 in
          (q.matching_order k, place.1)))
