-- ===== src/Examples/Duplicates.antt =====
-- Results of a query with one selected variable of two, before and after duplicates are removed.
use t_rdf.Base.{◌≡◌, ◌↔◌, refl, inl, inr, Bool, List, [], ◌∷◌, arith, if◌then◌else◌}
use t_rdf.Base.Int.{pos, negsuc}
use t_rdf.Answers.Merge.{Row}
use t_rdf.Answers.Rows.{In}
use t_rdf.Answers.Duplicates.{
  cell, equal_from, less_from, res_cmp, dup_step, dup_loop, dup_removal_invalid_removal,
}
use t_rdf.Answers.Order.{IsOrdered}
use t_rdf.Answers.Distinct.{IsReduced, dup_removal_invalid_removal-IsReduced}

abbrev row1 : Row
row1 = pos 4 ∷ pos 7 ∷ pos 1 ∷ []

abbrev row2 : Row
row2 = pos 5 ∷ pos 7 ∷ pos 1 ∷ []

abbrev row3 : Row
row3 = pos 4 ∷ pos 6 ∷ pos 1 ∷ []

abbrev invalid_row : Row
invalid_row = pos 5 ∷ pos 8 ∷ negsuc 0 ∷ []

abbrev insert : (Row → Row → Bool) → Row → List Row → List Row
insert less row [] = row ∷ []
insert less row (x ∷ xs) = if less row x then row ∷ x ∷ xs else x ∷ insert less row xs

abbrev sort : (Row → Row → Bool) → List Row → List Row
sort less [] = []
sort less (row ∷ rows) = insert less row (sort less rows)

reduced_run : dup_removal_invalid_removal 2 1 sort (row1 ∷ row2 ∷ row3 ∷ []) ≡ row1 ∷ row2 ∷ []
unfolding dup_removal_invalid_removal dup_loop dup_step res_cmp less_from equal_from
reduced_run = refl

-- The valid row is dropped for the invalid one behind it.
clash_run : dup_removal_invalid_removal 2 1 sort (row2 ∷ invalid_row ∷ []) ≡ []
unfolding dup_removal_invalid_removal dup_loop dup_step res_cmp less_from equal_from
clash_run = refl

rows_sorted : sort (res_cmp 2) (row1 ∷ row3 ∷ []) ≡ row3 ∷ row1 ∷ []
unfolding res_cmp less_from
rows_sorted = refl

same_rows : (w : Row) → In w (sort (res_cmp 2) (row1 ∷ row3 ∷ [])) ↔ In w (row1 ∷ row3 ∷ [])
unfolding res_cmp less_from
same_rows w = (
  λ h. elim h [ inl e ↦ inr (inl e) | inr k ↦ elim k [ inl e ↦ inl e | inr a ↦ absurd a ] ],
  λ h. elim h [ inl e ↦ inr (inl e) | inr k ↦ elim k [ inl e ↦ inl e | inr a ↦ absurd a ] ],
)

rows-IsOrdered : IsOrdered 2 (sort (res_cmp 2) (row1 ∷ row3 ∷ []))
unfolding res_cmp less_from
rows-IsOrdered = (λ y h. elim h [ inl e ↦ rw (← e) refl | inr a ↦ absurd a ], (λ y h. absurd h, tt))

tag_one : (w : Row) → In w (row1 ∷ row3 ∷ []) → cell w 2 ≡ pos 1
tag_one w h = elim h [
  | inl e ↦ rw (← e) refl
  | inr k ↦ elim k [ inl e ↦ rw (← e) refl | inr a ↦ absurd a ]
]

dup_removal_invalid_removal-IsReduced_example :
    IsReduced 2 1 (row1 ∷ row3 ∷ []) (dup_removal_invalid_removal 2 1 sort (row1 ∷ row3 ∷ []))
dup_removal_invalid_removal-IsReduced_example =
    dup_removal_invalid_removal-IsReduced 2 1 sort (row1 ∷ row3 ∷ []) same_rows rows-IsOrdered
      (omega arith) (λ w h. inl (tag_one w h)) (λ v w hv hw e s. tag_one w hw)
