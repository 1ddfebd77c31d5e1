-- ===== src/DfsJoin/Search.antt =====
-- `dfs` of Database/Database.cpp: the recursive join of a basic query, whose calls share one array.
use t_rdf.Base.{
  ℕ, zero, suc, ◌-◌, Bool, true, false, not, ◌&&◌, ◌||◌, some, List, [], ◌∷◌, ◌++◌, ◌==◌,
  if◌then◌else◌, length, get_or, set,
}
use t_rdf.Base.Int.{ℤ, pos, negsuc}
use t_rdf.Base.Run.{done, out_of_bounds, out_of_fuel}
use t_rdf.Util.Search.{bsearch_int_uporder}
use t_rdf.Signature.Encode.{edge_out}
use t_rdf.IdList.Ops.{IdList, intersect_ids, union_list, union_ids}
use t_rdf.Query.Basic.{BasicQuery}
use t_rdf.Answers.Filtering.{obj_id_is_entity_id}

-- What a search reads: the query, the candidates of its variables, the order, the edges to earlier
-- variables for each place of the order, and two indexes of the store.
pub record JoinQuery : Type 0 where
  pub query : BasicQuery
  pub candidate_list : ℕ → IdList
  pub is_added_literal_candidate : ℕ → Bool
  pub var_num : ℕ
  pub matching_order : ℕ → ℕ
  pub bn : List (List ℕ)
  pub sub_ids_by_obj_pre : (obj_id : ℕ) (pre_id : ℤ) → List ℕ
  pub obj_ids_by_sub_pre : (sub_id : ℕ) (pre_id : ℤ) → List ℕ

-- `result_var`: a place for each variable, and one for the valid tag.
abbrev pub ResultVar : Type 0
ResultVar = List ℕ

-- The array that the calls share, and the results.
pub record Search : Type 0 where
  pub result_var : ResultVar
  pub p_result_list : List ResultVar

-- `bsearch_uporder(id) >= 0`
unfoldable pub is_found : IdList → ℕ → Bool
is_found ids id = elim (bsearch_int_uporder id (some ids) (length ids)) [
  | done (pos i) ↦ true
  | done (negsuc i) ↦ false
  | out_of_bounds ↦ false
  | out_of_fuel ↦ false
]

module _ (query : BasicQuery) (var : ℕ) where
  -- `isLiteralVariable`, from edge `i`.
  abbrev pub no_out_edge : (rounds i : ℕ) → Bool
  no_out_edge zero i = true
  no_out_edge (suc rounds) i =
      let rest = no_out_edge rounds (suc i) in
      if query.edge_type var i == edge_out then false else rest

  abbrev pub is_id : ℤ → Bool
  is_id (pos n) = true
  is_id (negsuc zero) = false
  is_id (negsuc (suc n)) = true

  abbrev pub only_variables : (rounds i : ℕ) → Bool
  only_variables zero i = true
  only_variables (suc rounds) i =
      let rest = only_variables rounds (suc i) in
      if is_id (query.edge_nei_id var i) then rest else false

  unfoldable pub is_literal_variable : Bool
  is_literal_variable = no_out_edge (query.var_degree var) 0

  unfoldable pub is_free_literal_variable : Bool
  unfolding is_literal_variable
  is_free_literal_variable =
      if is_literal_variable then only_variables (query.var_degree var) 0 else false

module _ (q : JoinQuery) where
  -- The ids that an edge to an earlier variable leaves.
  unfoldable pub neighbor_ids : (var_id idx : ℕ) (nei : ℕ) (result_var : ResultVar) → IdList
  neighbor_ids var_id idx nei result_var =
      let pre_id = q.query.edge_pre_id var_id idx in
      let id = get_or result_var nei 0 in
      let id_list =
        if q.query.edge_type var_id idx == edge_out
        then q.sub_ids_by_obj_pre id pre_id
        else q.obj_ids_by_sub_pre id pre_id in
      (union_list [] id_list).0

  -- One round of the loop below, for the neighbour at that edge.
  abbrev pub add_neighbor :
      (var_id idx i : ℕ) (result_var : ResultVar) (local_cands : IdList) → (nei : ℤ) → IdList
  add_neighbor var_id idx i result_var local_cands (negsuc m) = local_cands
  add_neighbor var_id idx i result_var local_cands (pos nei) =
      let temp_list = neighbor_ids var_id idx nei result_var in
      if i == 0
      then (union_ids local_cands temp_list).0
      else (intersect_ids local_cands temp_list).0

  -- The loop over the edges to earlier variables, in round `i`.
  unfoldable pub local_loop :
      (var_id : ℕ) (idxs : List ℕ) (i : ℕ) (result_var : ResultVar) (local_cands : IdList) → IdList
  unfolding neighbor_ids
  local_loop var_id [] i result_var local_cands = local_cands
  local_loop var_id (idx ∷ idxs) i result_var local_cands =
      local_loop var_id idxs (suc i) result_var
        (add_neighbor var_id idx i result_var local_cands (q.query.edge_nei_id var_id idx))

  -- The ids that the loop at this depth runs over.
  unfoldable pub local_cands : (cur_depth : ℕ) (result_var : ResultVar) → IdList
  unfolding local_loop
  local_cands cur_depth result_var =
      let var_id = q.matching_order cur_depth in
      if cur_depth == 0
      then q.candidate_list var_id
      else local_loop var_id (get_or q.bn cur_depth []) 0 result_var []

  unfoldable pub is_accepted : (cur_depth id : ℕ) → Bool
  unfolding is_found is_free_literal_variable
  is_accepted cur_depth id =
      let var_id = q.matching_order cur_depth in
      let should_add =
        is_free_literal_variable q.query var_id && not (q.is_added_literal_candidate var_id) in
      (cur_depth == 0)
      || (is_found (q.candidate_list var_id) id
          || (should_add && not (obj_id_is_entity_id (pos id))))

  -- The id is chosen; `child` is the call at the next depth.
  unfoldable pub visit_id : (child : Search → Search) (cur_depth id : ℕ) → Search → Search
  visit_id child cur_depth id s =
      child (record s { result_var = set s.result_var (q.matching_order cur_depth) id })

  -- The loop over the ids.
  unfoldable pub visit : (child : Search → Search) (cur_depth : ℕ) → IdList → Search → Search
  unfolding visit_id is_accepted
  visit child cur_depth [] s = s
  visit child cur_depth (id ∷ ids) s =
      visit child cur_depth ids
        (if is_accepted cur_depth id then visit_id child cur_depth id s else s)

  -- `left` is `var_num - cur_depth`, so that at 0 all variables have a value.
  unfoldable pub dfs_from : (left cur_depth : ℕ) → Search → Search
  unfolding visit local_cands
  dfs_from zero cur_depth s = record s { p_result_list = s.p_result_list ++ (s.result_var ∷ []) }
  dfs_from (suc left) cur_depth s =
      visit (dfs_from left (suc cur_depth)) cur_depth (local_cands cur_depth s.result_var) s

  -- As `join_basic_dfs_style` calls it, with `var_num` for `entity_var_num`.
  unfoldable pub dfs : (cur_depth : ℕ) → Search → Search
  unfolding dfs_from
  dfs cur_depth s = dfs_from (q.var_num - cur_depth) cur_depth s
