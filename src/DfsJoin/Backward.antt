-- ===== src/DfsJoin/Backward.antt =====
-- `generateBN` without `pre_var_num` of Database/Database.cpp: the edges to earlier variables, for each place of the order.
use t_rdf.Base.{ℕ, zero, suc, ◌-◌, Bool, true, false, List, [], ◌∷◌, ltb, length, if◌then◌else◌}
use t_rdf.Base.Run.{Run, done, out_of_bounds, ◌>>=◌}
use t_rdf.Base.Int.{ℤ, pos, negsuc}
use t_rdf.Query.Basic.{BasicQuery, put}

-- The neighbour is a variable that is visited.
abbrev pub is_visited : (visited : ℕ → Bool) → ℤ → Bool
is_visited visited (pos v) = visited v
is_visited visited (negsuc m) = false

module _ (query : BasicQuery) (order : ℕ → ℕ) where
  -- The loop over the edges of a variable, from edge `j`.
  unfoldable pub bn_row : (visited : ℕ → Bool) (var_id : ℕ) (rounds j : ℕ) → List ℕ
  bn_row visited var_id zero j = []
  bn_row visited var_id (suc rounds) j =
      let rest = bn_row visited var_id rounds (suc j) in
      if is_visited visited (query.edge_nei_id var_id j) then j ∷ rest else rest

  -- A row has `var_num` places, and the loop writes behind them where it stores more edges.
  abbrev pub store_row : (var_num : ℕ) → List ℕ → Run (List ℕ)
  store_row var_num row = if ltb var_num (length row) then out_of_bounds else done row

  -- The loop over the order, from place `i`.
  unfoldable pub bn_rows : (var_num : ℕ) (visited : ℕ → Bool) (rounds i : ℕ) → Run (List (List ℕ))
  bn_rows var_num visited zero i = done []
  bn_rows var_num visited (suc rounds) i = do
    let var_id = order i
    row ← store_row var_num (bn_row visited var_id (query.var_degree var_id) 0)
    rows ← bn_rows var_num (put visited var_id true) rounds (suc i)
    done (row ∷ rows)

  -- For place `i` of the order `bn_idx[i]`, with `bn_count[i]` edges. The place 0 stays empty.
  unfoldable pub generate_bn : (var_num : ℕ) → Run (List (List ℕ))
  generate_bn var_num = do
    rows ← bn_rows var_num (put (λ v. false) (order 0) true) (var_num - 1) 1
    done ([] ∷ rows)
