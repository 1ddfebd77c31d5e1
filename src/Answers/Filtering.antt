-- ===== src/Answers/Filtering.antt =====
-- `doFilter`, `getFilterStr` and `matchFilter` of Database/Database.cpp.
use t_rdf.Base.{
  ℕ, suc, Bool, true, false, not, ◌&&◌, ◌||◌, none, some, List, [], ◌∷◌, ◌++◌, ltb, ◌==◌,
  if◌then◌else◌, length, get_elem?,
}
use t_rdf.Base.Int.{ℤ, pos, negsuc}
use t_rdf.Base.Run.{Run, done, out_of_bounds, ◌>>=◌}
use t_rdf.Signature.Hash.{Text}
use t_rdf.Answers.Merge.{Row, TempResult, eq_text, push_first}

-- `operator<` on strings compares the characters as bytes.
abbrev pub lt_text : Text → Text → Bool
lt_text a [] = false
lt_text [] (d ∷ b) = true
lt_text (c ∷ a) (d ∷ b) = ltb c d || (c == d && lt_text a b)

pub data Comparison : Type 0 where
  equal not_equal less less_or_equal greater greater_or_equal : Comparison

-- `SPARQLquery::FilterTree`, by its field `type`. The types that `matchFilter` has no case for are
-- `other`.
pub data FilterTree : Type 0 where
  not_tree : FilterTree → FilterTree
  or_tree and_tree : FilterTree → FilterTree → FilterTree
  compare_tree : Comparison → (arg1 arg2 : Text) → FilterTree
  other : FilterTree

abbrev pub compare_text : Comparison → Text → Text → Bool
compare_text equal a b = eq_text a b
compare_text not_equal a b = not (eq_text a b)
compare_text less a b = lt_text a b
compare_text less_or_equal a b = not (lt_text b a)
compare_text greater a b = lt_text b a
compare_text greater_or_equal a b = not (lt_text a b)

-- `dict`, after `dict[a.var[i]] = i` for each name: the last place of a name, and 0 for one that
-- is not there, since `operator[]` inserts it.
abbrev pub dict_loop : List Text → (i found : ℕ) → Text → ℕ
dict_loop [] i found name = found
dict_loop (x ∷ xs) i found name = dict_loop xs (suc i) (if eq_text x name then i else found) name

abbrev pub dict_of : List Text → Text → ℕ
dict_of vars name = dict_loop vars 0 0 name

-- Only the first character is dropped: `substr(1, length - 1)`.
abbrev pub drop_quote : Text → Text
drop_quote [] = []
drop_quote (c ∷ str) = if (c == b'"') || (c == 39) then str else c ∷ str

-- `LITERAL_FIRST_ID`
abbrev pub literal_first_id : ℕ
literal_first_id = 1_000_000_000

unfoldable pub obj_id_is_entity_id : ℤ → Bool
obj_id_is_entity_id (pos id) = ltb id literal_first_id
obj_id_is_entity_id (negsuc m) = true

module _ (entity_by_id literal_by_id : ℤ → Text) where
  abbrev pub name_by_id : ℤ → Text
  name_by_id id = if obj_id_is_entity_id id then entity_by_id id else literal_by_id id

  unfoldable pub get_filter_str : Row → (dict : Text → ℕ) → Text → Run Text
  unfolding obj_id_is_entity_id
  get_filter_str row dict [] = done []
  get_filter_str row dict (c ∷ arg) =
      let named : Run Text = elim (get_elem? row (dict (c ∷ arg))) [
        | none ↦ out_of_bounds
        | some id ↦ done (drop_quote (name_by_id id))
      ] in
      if c == b'?' then named else done (drop_quote (c ∷ arg))

  -- Both sides of a connective are evaluated. Without a case the function ends with no result.
  unfoldable pub match_filter : Row → (dict : Text → ℕ) → FilterTree → Run Bool
  unfolding get_filter_str
  match_filter row dict (not_tree t) = match_filter row dict t >>= λ a. done (not a)
  match_filter row dict (or_tree t u) = do
    a ← match_filter row dict t
    b ← match_filter row dict u
    done (a || b)
  match_filter row dict (and_tree t u) = do
    a ← match_filter row dict t
    b ← match_filter row dict u
    done (a && b)
  match_filter row dict (compare_tree comparison arg1 arg2) = do
    a ← get_filter_str row dict arg1
    b ← get_filter_str row dict arg2
    done (compare_text comparison a b)
  match_filter row dict other = out_of_bounds

  unfoldable pub filter_rows :
      (a_vars : ℕ) (dict : Text → ℕ) → FilterTree → List Row → Run (List Row)
  unfolding match_filter push_first
  filter_rows a_vars dict tree [] = done []
  filter_rows a_vars dict tree (row ∷ rows) = do
    matched ← match_filter row dict tree
    copied ← (if matched then (push_first a_vars row >>= λ w. done (w ∷ [])) else done [])
    rest ← filter_rows a_vars dict tree rows
    done (copied ++ rest)

  unfoldable pub do_filter : TempResult → FilterTree → Run TempResult
  unfolding filter_rows
  do_filter a tree = do
    rows ← filter_rows (length a.vars) (dict_of a.vars) tree a.res
    done (record { vars = a.vars; res = rows })
