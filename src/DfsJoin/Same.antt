-- ===== src/DfsJoin/Same.antt =====
-- `dfs` of Database/Database.cpp: the answers of a search depend only on the choices so far.
use t_rdf.Base.{
  ℕ, zero, suc, ◌+◌, ◌<◌, ◌≡◌, refl, ap, ◌∙◌, Bool, List, [], ◌∷◌, set, tally, tally-append, arith,
}
use t_rdf.DfsJoin.Search.{JoinQuery, ResultVar}
use t_rdf.DfsJoin.Answers.{gather, IsOrder, next_ids, answers, binding, test, Same}
use t_rdf.DfsJoin.Chosen.{Same-set, Same-next_ids}

module _ (q : JoinQuery) where
  pub Same-binding : (n : ℕ) (rv us : ResultVar) → Same q n rv us → binding q n rv ≡ binding q n us
  Same-binding zero rv us s = refl
  Same-binding (suc n) rv us s =
      let ih = Same-binding n rv us (record {
        size_left = s.size_left;
        size_right = s.size_right;
        agree = λ k h. s.agree k (omega (arith, h));
      }) in
      rw (s.agree n (omega arith), ih) refl

  module _ (order : IsOrder q) where
    -- The answers, as values of the variables, depend only on what is chosen so far.
    module _ (p : List ℕ → Bool) where
      tally-gather :
          (f g : ℕ → List ResultVar) (ids : List ℕ)
          → ((id : ℕ) → tally (test q p) (f id) ≡ tally (test q p) (g id))
          → tally (test q p) (gather f ids) ≡ tally (test q p) (gather g ids)
      tally-gather f g [] h = refl
      tally-gather f g (id ∷ ids) h = omega (
        arith,
        tally-append (test q p) (f id) (gather f ids),
        tally-append (test q p) (g id) (gather g ids),
        h id,
        tally-gather f g ids h,
      )

      pub Same-answers :
          (left d : ℕ) (rv us : ResultVar)
          → d + left ≡ q.var_num
          → Same q d rv us
          → tally (test q p) (answers q left d rv) ≡ tally (test q p) (answers q left d us)
      unfolding answers
      Same-answers zero d rv us e s =
          let all : d ≡ q.var_num = omega (arith, e) in
          let same : Same q q.var_num rv us = rw all at s in
          let values = ap p (Same-binding q.var_num rv us same) in rw values refl
      Same-answers (suc left) d rv us e s =
          let inside : d < q.var_num = omega (arith, e) in
          ap
            (λ ids.
              tally (test q p)
                (gather (λ id. answers q left (suc d) (set rv (q.matching_order d) id)) ids))
            (Same-next_ids q order d rv us inside s)
          ∙ tally-gather (λ id. answers q left (suc d) (set rv (q.matching_order d) id))
              (λ id. answers q left (suc d) (set us (q.matching_order d) id)) (next_ids q d us)
              (λ id.
                Same-answers left (suc d) (set rv (q.matching_order d) id)
                  (set us (q.matching_order d) id) (omega (arith, e))
                  (Same-set q order d id rv us inside s))
