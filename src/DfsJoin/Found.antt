-- ===== src/DfsJoin/Found.antt =====
-- `dfs` of Database/Database.cpp: the results that it leaves, through the array that its calls share.
use t_rdf.Base.{ℕ, ◌+◌, ◌≡◌, Bool, List, tally}
use t_rdf.IdList.Ops.{IdList}
use t_rdf.DfsJoin.Search.{JoinQuery, Search, ResultVar}
use t_rdf.DfsJoin.Answers.{IsOrder, answers, test, Same}

-- How many results pass a test on the values of the variables.
abbrev pub found : JoinQuery → (List ℕ → Bool) → Search → ℕ
found q p s = tally (test q p) s.p_result_list

module _ (q : JoinQuery) (order : IsOrder q) (p : List ℕ → Bool) where
  -- What a call at a depth leaves: the values chosen before, and `n` more answers.
  pub record Outcome (d n : ℕ) (rv : ResultVar) (before after : Search) : Type 0 where
    pub same : Same q d rv after.result_var
    pub more : found q p after ≡ found q p before + n

  -- What a call at depth `d` is known to leave, from any array.
  abbrev ChildLeaves : (left d : ℕ) → (Search → Search) → Type 0
  ChildLeaves left d child =
      (s : Search) (us : ResultVar)
      → Same q d us s.result_var
      → Outcome d (tally (test q p) (answers q left d us)) us s (child s)
