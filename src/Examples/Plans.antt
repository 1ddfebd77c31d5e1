-- ===== src/Examples/Plans.antt =====
-- The plan of a group with two alternatives, an optional group and a filter.
use t_rdf.Base.{
  ℕ, zero, suc, ◌+◌, ◌<◌, ◌≡◌, ◌≢◌, ◌↔◌, refl, inl, Bool, true, false, some, [], ◌∷◌, arith, ◌==◌,
  if◌then◌else◌, get_elem?, keep,
}
use t_rdf.Base.Int.{ℤ, pos, negsuc}
use t_rdf.Base.Run.{done, ◌>>=◌}
use t_rdf.Signature.Hash.{Text}
use t_rdf.Answers.Texts.{LastPlace}
use t_rdf.Answers.Kept.{HasColumns, Means, do_filter-Means}
use t_rdf.Answers.Merge.{
  Row, TempResult, index_of, map_var_loop, map_var_vec, push_new, push_first, row_matches,
  merge_row, merge_vars, or_unmatched, unmatched, outer_rows, merge_left_outer_join, put_values,
  first_rows, second_rows, merge_union,
}
use t_rdf.Answers.Filtering.{
  not_tree, and_tree, or_tree, FilterTree, compare_tree, equal, obj_id_is_entity_id, get_filter_str,
  match_filter, filter_rows, do_filter,
}
use t_rdf.Plan.Machine.{step, do_eva_plan, union_ele, left_ele, filter_ele, result}
use t_rdf.Plan.Generate.{
  PatternGroup, group, no_groups, more_groups, no_unions, more_unions, gen_eva_plan,
}
use t_rdf.Plan.Meaning.{meaning, size, IsGrounded}
use t_rdf.Plan.Run.{push}
use t_rdf.Plan.Correct.{do_eva_plan-gen_eva_plan}

abbrev x : Text
x = b'?' ∷ b'x' ∷ []

abbrev y : Text
y = b'?' ∷ b'y' ∷ []

-- Entities are named `<id>`, with one digit.
abbrev entity_by_id : ℤ → Text
entity_by_id (pos id) = b'<' ∷ (48 + id) ∷ b'>' ∷ []
entity_by_id (negsuc m) = []

abbrev literal_by_id : ℤ → Text
literal_by_id id = []

abbrev basic_result : ℕ → TempResult
basic_result id =
    if id == 0
    then record { vars = x ∷ []; res = (pos 1 ∷ []) ∷ [] }
    else if id == 1
    then record { vars = x ∷ []; res = (pos 2 ∷ []) ∷ (pos 3 ∷ []) ∷ [] }
    else record { vars = x ∷ y ∷ []; res = (pos 2 ∷ pos 5 ∷ []) ∷ [] }

abbrev leaf : PatternGroup
leaf = group true no_unions no_groups []

abbrev named_two : FilterTree
named_two = compare_tree equal x (b'<' ∷ b'2' ∷ b'>' ∷ [])

abbrev pattern_group : PatternGroup
pattern_group =
    group false (more_unions (more_groups leaf (more_groups leaf no_groups)) no_unions)
      (more_groups leaf no_groups) (named_two ∷ [])

plan_run : gen_eva_plan basic_result pattern_group 0 ≡ (
  result (basic_result 0)
      ∷ result (basic_result 1)
      ∷ union_ele
      ∷ result (basic_result 2)
      ∷ left_ele
      ∷ filter_ele named_two
      ∷ [],
  3,
)
unfolding gen_eva_plan
plan_run = refl

result_run :
    do_eva_plan entity_by_id literal_by_id (gen_eva_plan basic_result pattern_group 0).0 []
    ≡ done (record { vars = x ∷ y ∷ []; res = (pos 2 ∷ pos 5 ∷ []) ∷ [] } ∷ [])
unfolding gen_eva_plan do_eva_plan step merge_union merge_left_outer_join merge_vars map_var_vec
    map_var_loop index_of push_new push_first row_matches merge_row outer_rows or_unmatched
    unmatched put_values first_rows second_rows do_filter filter_rows match_filter get_filter_str
    obj_id_is_entity_id
result_run = refl

pattern_group-IsGrounded : IsGrounded pattern_group
unfolding IsGrounded size
pattern_group-IsGrounded = (
  inl (omega arith),
  (((inl (omega arith), tt, tt), ((inl (omega arith), tt, tt), tt)), tt),
  ((inl (omega arith), tt, tt), tt),
)

do_eva_plan-gen_eva_plan_example :
    do_eva_plan entity_by_id literal_by_id (gen_eva_plan basic_result pattern_group 0).0 []
    ≡ (meaning entity_by_id literal_by_id basic_result pattern_group 0 >>= λ o. done (push o []))
do_eva_plan-gen_eva_plan_example =
    do_eva_plan-gen_eva_plan entity_by_id literal_by_id basic_result pattern_group 0 []
      pattern_group-IsGrounded

abbrev filter : FilterTree
filter = and_tree (or_tree named_two (not_tree named_two)) (not_tree named_two)

do_filter-Means_example :
    (keeps : Row → Bool) × (do_filter entity_by_id literal_by_id (basic_result 1) filter
      ≡ done (record { vars = x ∷ []; res = keep keeps ((pos 2 ∷ []) ∷ (pos 3 ∷ []) ∷ []) }))
    × ((row : Row) → (keeps row ≡ true) ↔ Means entity_by_id literal_by_id (x ∷ []) row filter)
do_filter-Means_example =
    do_filter-Means entity_by_id literal_by_id (basic_result 1) filter ((refl, (refl, tt)))
      (omega arith) (((tt, tt), tt)) ((column, column), column)
  where
    at_x : LastPlace (x ∷ []) x 0
    at_x = (refl, λ j lt e. after j lt e)
      where
        after : (j : ℕ) → 0 < j → get_elem? (x ∷ []) j ≢ some x
        after zero lt e = absurd (omega (arith, lt))
        after (suc j) lt e = cc

    column : HasColumns (x ∷ []) named_two
    column = (λ e. (0, at_x), λ e. absurd (ground (arith, e)))

do_filter_run :
    do_filter entity_by_id literal_by_id (basic_result 1) filter
    ≡ done (record { vars = x ∷ []; res = (pos 3 ∷ []) ∷ [] })
unfolding do_filter filter_rows match_filter get_filter_str obj_id_is_entity_id push_first
do_filter_run = refl
