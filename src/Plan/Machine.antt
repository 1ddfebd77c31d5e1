-- ===== src/Plan/Machine.antt =====
-- `doEvaPlan` of Database/Database.cpp: a plan is run on a stack of results.
use t_rdf.Base.{List, [], ◌∷◌}
use t_rdf.Base.Int.{ℤ}
use t_rdf.Base.Run.{Run, done, out_of_bounds, ◌>>=◌}
use t_rdf.Signature.Hash.{Text}
use t_rdf.Answers.Merge.{TempResult, merge_join, merge_union, merge_left_outer_join}
use t_rdf.Answers.Filtering.{FilterTree, do_filter}

-- `SPARQLquery::EvaPlanEle`, by its type: 'r', 'j', 'u', 'l' and 'f'.
pub data EvaPlanEle : Type 0 where
  result : TempResult → EvaPlanEle
  join_ele union_ele left_ele : EvaPlanEle
  filter_ele : FilterTree → EvaPlanEle

-- Two results are taken off the stack; there is no `top` of an empty one.
abbrev pub with_two :
    (TempResult → TempResult → Run TempResult) → List TempResult → Run (List TempResult)
with_two merge (b ∷ a ∷ stack) = merge a b >>= λ r. done (r ∷ stack)
with_two merge (b ∷ []) = out_of_bounds
with_two merge [] = out_of_bounds

abbrev pub with_one : (TempResult → Run TempResult) → List TempResult → Run (List TempResult)
with_one change (a ∷ stack) = change a >>= λ r. done (r ∷ stack)
with_one change [] = out_of_bounds

module _ (entity_by_id literal_by_id : ℤ → Text) where
  -- The body of the loop.
  unfoldable pub step : EvaPlanEle → List TempResult → Run (List TempResult)
  step (result r) stack = done (r ∷ stack)
  step join_ele stack = with_two merge_join stack
  step union_ele stack = with_two merge_union stack
  step left_ele stack = with_two merge_left_outer_join stack
  step (filter_ele tree) stack = with_one (λ a. do_filter entity_by_id literal_by_id a tree) stack

  -- `evaStack` after the plan.
  unfoldable pub do_eva_plan : List EvaPlanEle → List TempResult → Run (List TempResult)
  unfolding step
  do_eva_plan [] stack = done stack
  do_eva_plan (ele ∷ plan) stack = step ele stack >>= λ after. do_eva_plan plan after
