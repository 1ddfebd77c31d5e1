-- ===== src/Answers/Merge.antt =====
-- `mapVarVec`, `mergeJoin`, `mergeLeftOuterJoin` and `mergeUnion` of Database/Database.cpp, into a
-- new result.
use mathlib.Core.Option
use t_rdf.Base.{
  ℕ, suc, ◌+◌, ◌-◌, Bool, true, false, ◌&&◌, Option, none, some, List, [], ◌∷◌, ◌++◌, ltb, ◌==◌,
  if◌then◌else◌, length, set, get_elem?, take, replicate,
}
use t_rdf.Base.Int.{ℤ, negsuc, eq_ℤ}
use t_rdf.Base.Run.{Run, done, out_of_bounds, ◌>>=◌}
use t_rdf.Signature.Hash.{Text}

abbrev pub Row : Type 0
Row = List ℤ

-- `SPARQLquery::TempResult`: names of variables, and rows of an id for each.
pub record TempResult : Type 0 where
  pub vars : List Text
  pub res : List Row

abbrev pub eq_text : Text → Text → Bool
eq_text [] [] = true
eq_text [] (d ∷ b) = false
eq_text (c ∷ a) [] = false
eq_text (c ∷ a) (d ∷ b) = (c == d) && eq_text a b

-- The first place of a name, as the inner loop of `mapVarVec` finds it.
unfoldable pub index_of : Text → List Text → Option ℕ
index_of name [] = none
index_of name (x ∷ xs) = if eq_text name x then some 0 else Option.map suc (index_of name xs)

-- `mapvar[j]`, and `total_vars` afterwards.
abbrev pub place : Option ℕ → (total_vars : ℕ) → ℕ × ℕ
place (some i) total_vars = (i, total_vars)
place none total_vars = (total_vars, suc total_vars)

-- The loop over `b`: `mapvar`, and `total_vars`.
unfoldable pub map_var_loop : (a b : List Text) (total_vars : ℕ) → List ℕ × ℕ
unfolding index_of
map_var_loop a [] total_vars = ([], total_vars)
map_var_loop a (name ∷ b) total_vars =
    let here = place (index_of name a) total_vars in
    let later = map_var_loop a b here.1 in (here.0 ∷ later.0, later.1)

unfoldable pub map_var_vec : (a b : List Text) → List ℕ × ℕ
unfolding map_var_loop
map_var_vec a b = map_var_loop a b (length a)

-- The elements of `xs` in new columns: `if (mapvar[k] >= a_vars) push_back(xs[k])`.
unfoldable pub push_new {ℓ} : {A : Type ℓ} → (a_vars : ℕ) (mapvar : List ℕ) → List A → Run (List A)
push_new a_vars [] xs = done []
push_new a_vars (m ∷ mapvar) [] =
    let rest = push_new a_vars mapvar [] in if ltb m a_vars then rest else out_of_bounds
push_new a_vars (m ∷ mapvar) (x ∷ xs) =
    push_new a_vars mapvar xs >>= λ rest. done (if ltb m a_vars then rest else x ∷ rest)

-- The first `n` elements, which are copied one by one.
unfoldable pub push_first {ℓ} : {A : Type ℓ} → (n : ℕ) → List A → Run (List A)
push_first n xs = if ltb (length xs) n then out_of_bounds else done (take n xs)

-- Whether two rows have the same values in the columns they share.
unfoldable pub row_matches : (a_vars : ℕ) (row : Row) (mapvar : List ℕ) (other : Row) → Run Bool
row_matches a_vars row [] other = done true
row_matches a_vars row (m ∷ mapvar) [] =
    let rest = row_matches a_vars row mapvar [] in if ltb m a_vars then out_of_bounds else rest
row_matches a_vars row (m ∷ mapvar) (v ∷ other) =
    let rest = row_matches a_vars row mapvar other in
    let compared : Run Bool = elim (get_elem? row m) [
      | none ↦ out_of_bounds
      | some u ↦ if eq_ℤ u v then rest else done false
    ] in
    if ltb m a_vars then compared else rest

unfoldable pub merge_row : (a_vars : ℕ) (mapvar : List ℕ) (row other : Row) → Run Row
unfolding push_first push_new
merge_row a_vars mapvar row other = do
  old ← push_first a_vars row
  new ← push_new a_vars mapvar other
  done (old ++ new)

-- The rows that one row of `a` makes with the rows of `b`. There are none without a match.
unfoldable pub join_row : (a_vars : ℕ) (mapvar : List ℕ) (row : Row) → List Row → Run (List Row)
unfolding row_matches merge_row
join_row a_vars mapvar row [] = done []
join_row a_vars mapvar row (other ∷ others) = do
  matched ← row_matches a_vars row mapvar other
  let made = merge_row a_vars mapvar row other >>= λ w. done (w ∷ [])
  new ← (if matched then made else done [])
  rest ← join_row a_vars mapvar row others
  done (new ++ rest)

unfoldable pub join_rows : (a_vars : ℕ) (mapvar : List ℕ) (b rows : List Row) → Run (List Row)
unfolding join_row
join_rows a_vars mapvar b [] = done []
join_rows a_vars mapvar b (row ∷ rows) = do
  new ← join_row a_vars mapvar row b
  rest ← join_rows a_vars mapvar b rows
  done (new ++ rest)

unfoldable pub merge_vars : (a b : List Text) → Run (List Text)
unfolding map_var_vec push_new
merge_vars a b = push_new (length a) (map_var_vec a b).0 b >>= λ new. done (a ++ new)

-- Results without a common variable are not joined: the new result stays empty.
unfoldable pub merge_join : (a b : TempResult) → Run TempResult
unfolding map_var_vec merge_vars join_rows
merge_join a b =
    let (mapvar, total_vars) = map_var_vec a.vars b.vars in
    let body : Run TempResult = (do
      vars ← merge_vars a.vars b.vars
      res ← join_rows (length a.vars) mapvar b.res a.res
      done (record { vars = vars; res = res })) in
    if length a.vars + length b.vars == total_vars
    then done (record { vars = []; res = [] })
    else body

-- A row of `a` without a match, where -1 stands in the new columns.
unfoldable pub unmatched : (a_vars total_vars : ℕ) → Row → Run Row
unfolding push_first
unmatched a_vars total_vars row =
    push_first a_vars row >>= λ old. done (old ++ replicate (total_vars - a_vars) (negsuc 0))

-- `if (!has_match)`: there is a match exactly if the row has made a row.
unfoldable pub or_unmatched : (a_vars total_vars : ℕ) → Row → (made : List Row) → Run (List Row)
unfolding unmatched
or_unmatched a_vars total_vars row [] = unmatched a_vars total_vars row >>= λ w. done (w ∷ [])
or_unmatched a_vars total_vars row (w ∷ made) = done (w ∷ made)

unfoldable pub outer_rows :
    (a_vars total_vars : ℕ) (mapvar : List ℕ) (b rows : List Row) → Run (List Row)
unfolding join_row or_unmatched
outer_rows a_vars total_vars mapvar b [] = done []
outer_rows a_vars total_vars mapvar b (row ∷ rows) = do
  made ← join_row a_vars mapvar row b
  new ← or_unmatched a_vars total_vars row made
  rest ← outer_rows a_vars total_vars mapvar b rows
  done (new ++ rest)

unfoldable pub merge_left_outer_join : (a b : TempResult) → Run TempResult
unfolding map_var_vec merge_vars outer_rows
merge_left_outer_join a b = do
  let (mapvar, total_vars) = map_var_vec a.vars b.vars
  vars ← merge_vars a.vars b.vars
  res ← outer_rows (length a.vars) total_vars mapvar b.res a.res
  done (record { vars = vars; res = res })

-- The loop that writes the values into their columns.
unfoldable pub put_values : Row → (mapvar : List ℕ) → Row → Run Row
put_values row [] values = done row
put_values row (m ∷ mapvar) [] = out_of_bounds
put_values row (m ∷ mapvar) (v ∷ values) =
    let rest = put_values (set row m v) mapvar values in
    if ltb m (length row) then rest else out_of_bounds

-- A row of the first result, as `unmatched` has it: its values in the first columns, and -1 behind.
unfoldable pub first_rows : (a_vars total_vars : ℕ) → List Row → Run (List Row)
unfolding unmatched
first_rows a_vars total_vars [] = done []
first_rows a_vars total_vars (row ∷ rows) = do
  w ← unmatched a_vars total_vars row
  rest ← first_rows a_vars total_vars rows
  done (w ∷ rest)

unfoldable pub second_rows : (total_vars : ℕ) (mapvar : List ℕ) → List Row → Run (List Row)
unfolding put_values
second_rows total_vars mapvar [] = done []
second_rows total_vars mapvar (row ∷ rows) = do
  w ← put_values (replicate total_vars (negsuc 0)) mapvar row
  rest ← second_rows total_vars mapvar rows
  done (w ∷ rest)

unfoldable pub merge_union : (a b : TempResult) → Run TempResult
unfolding map_var_vec merge_vars first_rows second_rows
merge_union a b = do
  let (mapvar, total_vars) = map_var_vec a.vars b.vars
  vars ← merge_vars a.vars b.vars
  first ← first_rows (length a.vars) total_vars a.res
  second ← second_rows total_vars mapvar b.res
  done (record { vars = vars; res = first ++ second })
