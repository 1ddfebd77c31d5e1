-- ===== src/Examples/Joins.antt =====
-- The joins of Database/Database.cpp on small results.
use t_rdf.Base.{◌≡◌, refl, [], ◌∷◌}
use t_rdf.Base.Int.{pos, negsuc}
use t_rdf.Base.Run.{done, Returns}
use t_rdf.Signature.Hash.{Text}
use t_rdf.Answers.Merge.{
  TempResult, index_of, map_var_loop, map_var_vec, push_new, push_first, row_matches, merge_row,
  join_row, join_rows, merge_vars, merge_join, unmatched, or_unmatched, outer_rows,
  merge_left_outer_join, put_values, first_rows, second_rows, merge_union,
}
use t_rdf.Answers.Union.{IsUnion, merge_union-IsUnion}
use t_rdf.Answers.Join.{IsJoin, merge_join-IsJoin}
use t_rdf.Answers.Outer.{IsOuterJoin, merge_left_outer_join-IsOuterJoin}

abbrev x : Text
x = b'?' ∷ b'x' ∷ []

abbrev y : Text
y = b'?' ∷ b'y' ∷ []

abbrev z : Text
z = b'?' ∷ b'z' ∷ []

abbrev left : TempResult
left = record { vars = x ∷ y ∷ []; res = (pos 1 ∷ pos 2 ∷ []) ∷ (pos 3 ∷ pos 4 ∷ []) ∷ [] }

abbrev right : TempResult
right = record {
  vars = z ∷ y ∷ [];
  res = (pos 7 ∷ pos 2 ∷ []) ∷ (pos 8 ∷ pos 2 ∷ []) ∷ (pos 9 ∷ pos 5 ∷ []) ∷ [];
}

columns_run : map_var_vec left.vars right.vars ≡ (2 ∷ 1 ∷ [], 3)
unfolding map_var_vec map_var_loop index_of
columns_run = refl

join_run :
    merge_join left right
    ≡ done (record {
      vars = x ∷ y ∷ z ∷ [];
      res = (pos 1 ∷ pos 2 ∷ pos 7 ∷ []) ∷ (pos 1 ∷ pos 2 ∷ pos 8 ∷ []) ∷ [];
    })
unfolding merge_join merge_vars map_var_vec map_var_loop index_of push_new push_first row_matches
    merge_row join_row join_rows
join_run = refl

outer_run :
    merge_left_outer_join left right
    ≡ done (record {
      vars = x ∷ y ∷ z ∷ [];
      res =
          (pos 1 ∷ pos 2 ∷ pos 7 ∷ [])
          ∷ (pos 1 ∷ pos 2 ∷ pos 8 ∷ [])
          ∷ (pos 3 ∷ pos 4 ∷ negsuc 0 ∷ [])
          ∷ [];
    })
unfolding merge_left_outer_join merge_vars map_var_vec map_var_loop index_of push_new push_first
    row_matches merge_row join_row outer_rows or_unmatched unmatched
outer_run = refl

merge_join-IsJoin_example : Returns (merge_join left right) (IsJoin left right)
unfolding map_var_vec map_var_loop index_of
merge_join-IsJoin_example =
    merge_join-IsJoin left right ((refl, (refl, tt))) ((refl, (refl, (refl, tt)))) refl

merge_left_outer_join-IsOuterJoin_example :
    Returns (merge_left_outer_join left right) (IsOuterJoin left right)
merge_left_outer_join-IsOuterJoin_example =
    merge_left_outer_join-IsOuterJoin left right ((refl, (refl, tt))) ((refl, (refl, (refl, tt))))

union_run :
    merge_union left right
    ≡ done (record {
      vars = x ∷ y ∷ z ∷ [];
      res =
          (pos 1 ∷ pos 2 ∷ negsuc 0 ∷ [])
          ∷ (pos 3 ∷ pos 4 ∷ negsuc 0 ∷ [])
          ∷ (negsuc 0 ∷ pos 2 ∷ pos 7 ∷ [])
          ∷ (negsuc 0 ∷ pos 2 ∷ pos 8 ∷ [])
          ∷ (negsuc 0 ∷ pos 5 ∷ pos 9 ∷ [])
          ∷ [];
    })
unfolding merge_union merge_vars map_var_vec map_var_loop index_of push_new push_first put_values
    unmatched first_rows second_rows
union_run = refl

merge_union-IsUnion_example : Returns (merge_union left right) (IsUnion left right)
unfolding map_var_vec map_var_loop index_of
merge_union-IsUnion_example =
    merge_union-IsUnion left right ((refl, (refl, tt))) ((refl, (refl, (refl, tt))))
      (refl, (refl, tt))
