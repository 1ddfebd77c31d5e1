-- ===== src/Plan/Generate.antt =====
-- `genEvaPlan` of Database/Database.cpp: the plan of a pattern group.
use t_rdf.Base.{ℕ, suc, Bool, true, false, not, ◌&&◌, List, [], ◌∷◌, ◌++◌, ◌==◌, if◌then◌else◌, map}
use t_rdf.Answers.Merge.{TempResult}
use t_rdf.Answers.Filtering.{FilterTree}
use t_rdf.Plan.Machine.{EvaPlanEle, result, join_ele, union_ele, left_ele, filter_ele}

-- `SPARQLquery::PatternGroup`, with the fields that `genEvaPlan` reads: `hasVar`, `unions`,
-- `optionals` and `filters`.
mutual
  pub data PatternGroup : Type 0 where
    group : (has_var : Bool) → Unions → Groups → List FilterTree → PatternGroup

  pub data Groups : Type 0 where
    no_groups : Groups
    more_groups : PatternGroup → Groups → Groups

  pub data Unions : Type 0 where
    no_unions : Unions
    more_unions : Groups → Unions → Unions

-- What the code pushes, and the next id.
abbrev pub Plan : Type 0
Plan = List EvaPlanEle × ℕ

module _ (basic_result : ℕ → TempResult) where
  -- `basic_result id` has the variables and the rows of the basic query `id`.
  unfoldable mutual
    pub gen_eva_plan : PatternGroup → (id : ℕ) → Plan
    gen_eva_plan (group has_var unions optionals filters) id =
        let head = if has_var then result (basic_result id) ∷ [] else [] in
        let (joined, next1) = gen_unions unions id (if has_var then suc id else id) in
        let (left, next2) = gen_optionals optionals next1 in
        (head ++ (joined ++ (left ++ map filter_ele filters)), next2)

    -- The loop over the unions, from `nextid`; a union is joined to what was pushed before it.
    pub gen_unions : Unions → (id nextid : ℕ) → Plan
    gen_unions no_unions id nextid = ([], nextid)
    gen_unions (more_unions gs us) id nextid =
        let (code, next1) = gen_union gs nextid true in
        let joined = if not (nextid == id) && not (nextid == next1) then join_ele ∷ [] else [] in
        let (rest, next2) = gen_unions us id next1 in (code ++ (joined ++ rest), next2)

    -- The loop over the groups of one union.
    pub gen_union : Groups → (nextid : ℕ) (empty : Bool) → Plan
    gen_union no_groups nextid empty = ([], nextid)
    gen_union (more_groups g gs) nextid empty =
        let (code, next1) = gen_eva_plan g nextid in
        let united = if not empty && not (nextid == next1) then union_ele ∷ [] else [] in
        let (rest, next2) = gen_union gs next1 (if nextid == next1 then empty else false) in
        (code ++ (united ++ rest), next2)

    pub gen_optionals : Groups → (nextid : ℕ) → Plan
    gen_optionals no_groups nextid = ([], nextid)
    gen_optionals (more_groups g gs) nextid =
        let (code, next1) = gen_eva_plan g nextid in
        let left = if nextid == next1 then [] else left_ele ∷ [] in
        let (rest, next2) = gen_optionals gs next1 in (code ++ (left ++ rest), next2)
