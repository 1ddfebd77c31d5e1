-- ===== src/DfsJoin/Choice.antt =====
-- `getVarID_FirstProcessWhenJoin` of Query/BasicQuery.cpp: the variable that a join starts with.
use t_rdf.Base.{ℕ, zero, suc, ◌≤◌, ◌<◌, ◌≡◌, Bool, false, not, ◌&&◌, ◌||◌, ltb, ◌==◌, if◌then◌else◌}
use t_rdf.Base.Int.{ℤ, pos, negsuc}
use t_rdf.Query.Basic.{BasicQuery}
use t_rdf.DfsJoin.Search.{is_literal_variable}

-- `TRIPLE_NUM_MAX`
abbrev pub triple_num_max : ℕ
triple_num_max = 1_000_000_000

module _ (query : BasicQuery) (candidate_size : ℕ → ℕ) where
  -- A variable that the loop passes over.
  abbrev pub is_passed : ℕ → Bool
  is_passed i = is_literal_variable query i || (query.var_degree i == 1)

  -- The loop from variable `i`.
  unfoldable pub first_loop : (rounds i : ℕ) (min_var : ℤ) (min_size : ℕ) → ℤ
  first_loop zero i min_var min_size = min_var
  first_loop (suc rounds) i min_var min_size =
      let smaller = not (is_passed i) && ltb (candidate_size i) min_size in
      first_loop rounds (suc i) (if smaller then pos i else min_var)
        (if smaller then candidate_size i else min_size)

  abbrev pub or_zero : ℤ → ℕ
  or_zero (pos v) = v
  or_zero (negsuc m) = 0

  unfoldable pub get_var_id_first_process_when_join : (graph_var_num : ℕ) → ℕ
  unfolding first_loop
  get_var_id_first_process_when_join graph_var_num =
      or_zero (first_loop graph_var_num 0 (negsuc 0) triple_num_max)

  -- A variable before `n` that is not passed over, with fewer candidates than every such variable
  -- before it and no more than any; or there is none with less than the greatest number.
  abbrev pub IsFirst : (n : ℕ) → ℤ → Type 0
  IsFirst n (pos v) =
      (v < n)
      × (is_passed v ≡ false)
      × (candidate_size v < triple_num_max)
      × ((i : ℕ) → i < n → is_passed i ≡ false → candidate_size v ≤ candidate_size i)
      × ((i : ℕ) → i < v → is_passed i ≡ false → candidate_size v < candidate_size i)
  IsFirst n (negsuc m) = (i : ℕ) → i < n → is_passed i ≡ false → triple_num_max ≤ candidate_size i

  -- The least number of candidates so far.
  abbrev least : ℤ → ℕ
  least (pos v) = candidate_size v
  least (negsuc m) = triple_num_max
