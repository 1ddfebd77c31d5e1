-- ===== src/Examples/DfsJoin.antt =====
-- The recursive join of Database/Database.cpp for a query of two variables with one edge, ?x p ?y.
use t_rdf.Base.{
  ◌≢◌, inl, inr, Bool-cases, ℕ, ◌≡◌, ◌<◌, ◌↔◌, refl, Bool, true, false, List, [], ◌∷◌, arith, ◌==◌,
  if◌then◌else◌, get_or,
}
use t_rdf.Base.Int.{pos}
use t_rdf.Base.Run.{read, done, out_of_bounds}
use t_rdf.Signature.BitSet.{empty}
use t_rdf.Signature.Encode.{edge_in, edge_out}
use t_rdf.Query.Basic.{BasicQuery}
use t_rdf.Util.Search.{bsearch_int_uporder, search_from, search_loop}
use t_rdf.IdList.Ops.{union_ids, union_list, union_loop, copy_ids}
use t_rdf.DfsJoin.Backward.{generate_bn, bn_row, bn_rows}
use t_rdf.DfsJoin.Rows.{Member, LeadsBack}
use t_rdf.DfsJoin.Built.{RowsHaveRoom, length_below, generate_bn-LeadsBack}
use t_rdf.DfsJoin.Search.{
  JoinQuery, Search, neighbor_ids, local_loop, local_cands, is_found, is_accepted,
  is_literal_variable, is_free_literal_variable, visit_id, visit, dfs_from, dfs,
}
use t_rdf.DfsJoin.Answers.{IsOrder}
use t_rdf.Base.Sets.{mem}
use t_rdf.DfsJoin.Linked.{IsSortedStore, IsLinked, local_cands-IsLinked}
use t_rdf.DfsJoin.Choice.{first_loop, get_var_id_first_process_when_join}

abbrev query : BasicQuery
query = record {
  var_sig = λ v. empty;
  var_degree = λ v. 1;
  edge_id = λ v k. pos 0;
  edge_nei_id = λ v k. if v == 0 then pos 1 else pos 0;
  edge_pre_id = λ v k. pos 0;
  edge_type = λ v k. if v == 0 then edge_out else edge_in;
  edge_sig = λ v w. empty;
}

-- The entity 1 has the objects 5 and 6, the entity 2 the object 6.
abbrev q : JoinQuery
q = record {
  query = query;
  candidate_list = λ v. if v == 0 then 1 ∷ 2 ∷ [] else 5 ∷ 6 ∷ [];
  is_added_literal_candidate = λ v. false;
  var_num = 2;
  matching_order = λ k. k;
  bn = [] ∷ (0 ∷ []) ∷ [];
  sub_ids_by_obj_pre = λ obj pre. [];
  obj_ids_by_sub_pre = λ sub pre. if sub == 1 then 5 ∷ 6 ∷ [] else 6 ∷ [];
}

abbrev start : Search
start = record { result_var = 0 ∷ 0 ∷ 1 ∷ []; p_result_list = [] }

join_run : dfs q 0 start ≡ record {
  result_var = 2 ∷ 6 ∷ 1 ∷ [];
  p_result_list = (1 ∷ 5 ∷ 1 ∷ []) ∷ (1 ∷ 6 ∷ 1 ∷ []) ∷ (2 ∷ 6 ∷ 1 ∷ []) ∷ [];
}
unfolding dfs dfs_from visit visit_id local_cands local_loop neighbor_ids union_ids union_list
    union_loop copy_ids is_accepted is_found bsearch_int_uporder search_from search_loop
    is_literal_variable is_free_literal_variable read
join_run = refl

-- Three edges between two variables do not fit the row.
abbrev parallel : BasicQuery
parallel = record query { var_degree = λ v. 3 }

overflow_run : generate_bn parallel (λ k. k) 2 ≡ out_of_bounds
unfolding generate_bn bn_rows bn_row
overflow_run = refl

built_run : generate_bn query (λ k. k) 2 ≡ done ([] ∷ (0 ∷ []) ∷ [])
unfolding generate_bn bn_rows bn_row
built_run = refl

q-IsOrder : IsOrder q
q-IsOrder = record {
  in_range = λ k lt. lt;
  distinct = λ j k lt le. ground (arith, lt);
  built = built_run;
}

query-RowsHaveRoom : RowsHaveRoom query (λ k. k) 2
query-RowsHaveRoom d lt js up h =
    let few = length_below js 1 up (λ j m. (h j m).0) in omega (arith, few)

generate_bn-LeadsBack_example :
    (bn : List (List ℕ)) × (generate_bn query (λ k. k) 2 ≡ done bn)
    × ((d idx : ℕ)
        → d < 2
        → Member idx (get_or bn d []) ↔ ((idx < 1) × LeadsBack query (λ k. k) d idx))
generate_bn-LeadsBack_example =
    generate_bn-LeadsBack query (λ k. k) 2 (omega arith) query-RowsHaveRoom

abbrev first_is_1 : List ℕ → Bool
first_is_1 values = get_or values 1 0 == 1

q-IsSortedStore : IsSortedStore q
q-IsSortedStore id pre = elim (Bool-cases (id == 1)) [
  | inl e ↦ rw e (tt, ((omega arith, tt), (tt, tt)))
  | inr e ↦ rw e (tt, (tt, tt))
]

local_cands-IsLinked_example :
    (mem 6 (local_cands q 1 (1 ∷ 0 ∷ 1 ∷ [])) ≡ true)
    ↔ ((get_or q.bn 1 [] ≢ []) × IsLinked q 1 6 (get_or q.bn 1 []) (1 ∷ 0 ∷ 1 ∷ []))
local_cands-IsLinked_example =
    local_cands-IsLinked q 0 6 (1 ∷ 0 ∷ 1 ∷ []) q-IsOrder q-IsSortedStore (omega arith)

-- Three variables with two edges each, all but the last with an edge out.
abbrev wider : BasicQuery
wider = record query {
  var_degree = λ v. 2;
  edge_type = λ v k. if v == 2 then edge_in else edge_out;
}

abbrev sizes : ℕ → ℕ
sizes v = if v == 0 then 5 else if v == 1 then 3 else 1

first_run : get_var_id_first_process_when_join wider sizes 3 ≡ 1
unfolding get_var_id_first_process_when_join first_loop is_literal_variable
first_run = refl
