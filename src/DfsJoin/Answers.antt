-- ===== src/DfsJoin/Answers.antt =====
-- `dfs` of Database/Database.cpp: the answers that a search is to find, with an array
-- of its own for each call.
use t_rdf.Base.{
  ℕ, zero, suc, ◌<◌, ◌≡◌, Bool, false, List, [], ◌∷◌, ◌++◌, ◌==◌, length, get_or, set, keep,
}
use t_rdf.Base.Run.{done}
use t_rdf.DfsJoin.Backward.{generate_bn}
use t_rdf.DfsJoin.Search.{JoinQuery, ResultVar, local_cands, is_accepted}

abbrev pub gather : (ℕ → List ResultVar) → List ℕ → List ResultVar
gather f [] = []
gather f (id ∷ ids) = f id ++ gather f ids

-- The order has every variable once, and `generateBN` stays inside its arrays and makes `bn`.
pub record IsOrder (q : JoinQuery) : Type 0 where
  pub in_range : (k : ℕ) → k < q.var_num → q.matching_order k < q.var_num
  pub distinct :
      (j k : ℕ) → j < k → k < q.var_num → (q.matching_order k == q.matching_order j) ≡ false
  pub built : generate_bn q.query q.matching_order q.var_num ≡ done q.bn

module _ (q : JoinQuery) where
  abbrev pub next_ids : (cur_depth : ℕ) → ResultVar → List ℕ
  next_ids cur_depth rv = keep (is_accepted q cur_depth) (local_cands q cur_depth rv)

  unfoldable pub answers : (left cur_depth : ℕ) → ResultVar → List ResultVar
  answers zero cur_depth rv = rv ∷ []
  answers (suc left) cur_depth rv =
      gather (λ id. answers left (suc cur_depth) (set rv (q.matching_order cur_depth) id))
        (next_ids cur_depth rv)

  -- The values of the variables, those of the last place of the order first.
  abbrev pub binding : (n : ℕ) → ResultVar → List ℕ
  binding zero rv = []
  binding (suc n) rv = get_or rv (q.matching_order n) 0 ∷ binding n rv

  abbrev pub test : (List ℕ → Bool) → ResultVar → Bool
  test p rv = p (binding q.var_num rv)

  -- Two arrays of the right size agree on the variables before place `d` of the order.
  pub record Same (d : ℕ) (rv us : ResultVar) : Type 0 where
    pub size_left : length rv ≡ suc q.var_num
    pub size_right : length us ≡ suc q.var_num
    pub agree :
        (k : ℕ) → k < d → get_or rv (q.matching_order k) 0 ≡ get_or us (q.matching_order k) 0
