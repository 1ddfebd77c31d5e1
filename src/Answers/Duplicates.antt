-- ===== src/Answers/Duplicates.antt =====
-- `dupRemoval_invalidRemoval`, `ResultEqual` and `ResultCmp` of Query/BasicQuery.cpp.
use t_rdf.Base.{
  ℕ, zero, suc, ◌+◌, Bool, true, false, not, ◌&&◌, ◌||◌, List, [], ◌==◌, if◌then◌else◌, length,
  get_or, set, take,
}
use t_rdf.Base.Int.{ℤ, negsuc, eq_ℤ, lt_ℤ}
use t_rdf.Answers.Merge.{Row}
use t_rdf.Answers.Rows.{no_value}

-- A result has a place for each variable of the graph, and the valid tag after them.
abbrev pub cell : Row → ℕ → ℤ
cell row i = get_or row i no_value

-- The loops from place `i`, with `left` rounds to go.
unfoldable pub equal_from : (a b : Row) (i left : ℕ) → Bool
equal_from a b i zero = true
equal_from a b i (suc left) = eq_ℤ (cell a i) (cell b i) && equal_from a b (suc i) left

-- `ResultEqual(result_len)`
abbrev pub res_equal : (result_len : ℕ) (a b : Row) → Bool
res_equal result_len a b = equal_from a b 0 result_len

unfoldable pub less_from : (a b : Row) (i left : ℕ) → Bool
less_from a b i zero = false
less_from a b i (suc left) =
    let rest = less_from a b (suc i) left in
    if not (eq_ℤ (cell a i) (cell b i)) then lt_ℤ (cell a i) (cell b i) else rest

-- `ResultCmp(result_len)`: the greater tag comes first.
unfoldable pub res_cmp : (result_len : ℕ) (a b : Row) → Bool
unfolding less_from
res_cmp result_len a b =
    let tag_a = cell a result_len in
    let tag_b = cell b result_len in
    if not (eq_ℤ tag_a tag_b) then lt_ℤ tag_b tag_a else less_from a b 0 result_len

abbrev pub is_invalid : (graph_var_num : ℕ) → Row → Bool
is_invalid graph_var_num row = eq_ℤ (cell row graph_var_num) (negsuc 0)

module _ (graph_var_num select_var_num : ℕ) where
  -- One round. A row that is deleted leaves NULL in a place that is not read again.
  unfoldable pub dup_step : (result_list : List Row) (i valid_num : ℕ) → List Row × ℕ
  dup_step result_list i valid_num =
      let row = get_or result_list i [] in
      let is_last = i + 1 == length result_list in
      let next = get_or result_list (i + 1) [] in
      if is_invalid graph_var_num row
      then (result_list, valid_num)
      else if is_last || not (res_equal select_var_num row next)
      then (set result_list valid_num row, suc valid_num)
      else (result_list, valid_num)

  -- The loop from place `i`, with `left` rounds to go.
  unfoldable pub dup_loop : (left : ℕ) (result_list : List Row) (i valid_num : ℕ) → List Row × ℕ
  unfolding dup_step
  dup_loop zero result_list i valid_num = (result_list, valid_num)
  dup_loop (suc left) result_list i valid_num =
      let (list, num) = dup_step result_list i valid_num in dup_loop left list (suc i) num

  unfoldable pub dup_removal_invalid_removal :
      (sort : (Row → Row → Bool) → List Row → List Row) → (result_list : List Row) → List Row
  unfolding dup_loop
  dup_removal_invalid_removal sort result_list =
      let sorted = sort (res_cmp graph_var_num) result_list in
      let (kept, valid_num) = dup_loop (length sorted) sorted 0 0 in take valid_num kept
