-- ===== src/Answers/Selection.antt =====
-- `doFilter` of Database/Database.cpp: which rows it keeps.
use t_rdf.Base.{
  ℕ, suc, ◌+◌, ◌<◌, ◌≡◌, refl, Bool, false, not, ◌&&◌, ◌||◌, List, [], ◌∷◌, arith, ◌==◌,
  if◌then◌else◌, length, get_or, get_elem?-eq-get_or, keep, Bool-cases, inl, inr,
}
use t_rdf.Base.Int.{ℤ}
use t_rdf.Base.Run.{done}
use t_rdf.Signature.Hash.{Text}
use t_rdf.Answers.Merge.{Row, TempResult, eq_text, push_first}
use t_rdf.Answers.Rows.{no_value, AllLength, push_first-all}
use t_rdf.Answers.Join.{IsFull}
use t_rdf.Answers.Filtering.{
  FilterTree, not_tree, or_tree, and_tree, compare_tree, other, compare_text, dict_loop, dict_of,
  drop_quote, name_by_id, get_filter_str, match_filter, filter_rows, do_filter,
}

-- Every node of the tree has a type that `matchFilter` knows.
abbrev pub IsKnown : FilterTree → Type 0
IsKnown (not_tree t) = IsKnown t
IsKnown (or_tree t u) = IsKnown t × IsKnown u
IsKnown (and_tree t u) = IsKnown t × IsKnown u
IsKnown (compare_tree comparison arg1 arg2) = Unit {0}
IsKnown other = ⊥

dict_loop-below :
    (vars : List Text) (i found : ℕ) (name : Text)
    → found < i + length vars
    → dict_loop vars i found name < i + length vars
dict_loop-below [] i found name h = h
dict_loop-below (x ∷ vars) i found name h = elim (Bool-cases (eq_text x name)) [
  | inl e ↦ rw e (omega (arith, dict_loop-below vars (suc i) i name (omega arith)))
  | inr e ↦ rw e (omega (arith, dict_loop-below vars (suc i) found name (omega (arith, h))))
]

dict_of-below : (vars : List Text) (name : Text) → 0 < length vars → dict_of vars name < length vars
dict_of-below vars name h = omega (arith, dict_loop-below vars 0 0 name (omega (arith, h)))

module _ (entity_by_id literal_by_id : ℤ → Text) where
  -- What a comparison reads: the name of the value of a variable, or a constant.
  abbrev pub operand : Row → (dict : Text → ℕ) → Text → Text
  operand row dict [] = []
  operand row dict (c ∷ arg) =
      if c == b'?'
      then drop_quote (name_by_id entity_by_id literal_by_id (get_or row (dict (c ∷ arg)) no_value))
      else drop_quote (c ∷ arg)

  abbrev pub holds : Row → (dict : Text → ℕ) → FilterTree → Bool
  holds row dict (not_tree t) = not (holds row dict t)
  holds row dict (or_tree t u) = holds row dict t || holds row dict u
  holds row dict (and_tree t u) = holds row dict t && holds row dict u
  holds row dict (compare_tree comparison arg1 arg2) =
      compare_text comparison (operand row dict arg1) (operand row dict arg2)
  holds row dict other = false

  get_filter_str-operand :
      (row : Row) (dict : Text → ℕ) (arg : Text)
      → ((name : Text) → dict name < length row)
      → get_filter_str entity_by_id literal_by_id row dict arg ≡ done (operand row dict arg)
  unfolding get_filter_str
  get_filter_str-operand row dict [] h = refl
  get_filter_str-operand row dict (c ∷ arg) h = elim (Bool-cases (c == b'?')) [
    | inl e ↦ rw (e, get_elem?-eq-get_or row (dict (c ∷ arg)) no_value (h (c ∷ arg))) refl
    | inr e ↦ rw e refl
  ]

  match_filter-holds :
      (row : Row) (dict : Text → ℕ) (tree : FilterTree)
      → ((name : Text) → dict name < length row)
      → IsKnown tree
      → match_filter entity_by_id literal_by_id row dict tree ≡ done (holds row dict tree)
  unfolding match_filter
  match_filter-holds row dict (not_tree t) h k = rw (match_filter-holds row dict t h k) refl
  match_filter-holds row dict (or_tree t u) h k =
      rw (match_filter-holds row dict t h k.0, match_filter-holds row dict u h k.1) refl
  match_filter-holds row dict (and_tree t u) h k =
      rw (match_filter-holds row dict t h k.0, match_filter-holds row dict u h k.1) refl
  match_filter-holds row dict (compare_tree comparison arg1 arg2) h k =
      rw (get_filter_str-operand row dict arg1 h, get_filter_str-operand row dict arg2 h) refl
  match_filter-holds row dict other h k = elim k [ ]

  filter_rows-keep :
      (n : ℕ) (dict : Text → ℕ) (tree : FilterTree) (rows : List Row)
      → ((name : Text) → dict name < n)
      → IsKnown tree
      → AllLength n rows
      → filter_rows entity_by_id literal_by_id n dict tree rows
        ≡ done (keep (λ row. holds row dict tree) rows)
  unfolding filter_rows
  filter_rows-keep n dict tree [] h k full = refl
  filter_rows-keep n dict tree (row ∷ rows) h k full =
      let e = full.0 in
      let matched = match_filter-holds row dict tree (λ name. rw e (h name)) k in
      let copied : push_first n row ≡ done row = rw (← e) (push_first-all row) in
      let rest = filter_rows-keep n dict tree rows h k full.1 in
      elim (Bool-cases (holds row dict tree)) [
        | inl t ↦ rw (matched, t, copied, rest) refl
        | inr f ↦ rw (matched, f, rest) refl
      ]

  pub do_filter-rows :
      (a : TempResult) (tree : FilterTree)
      → IsFull a
      → 0 < length a.vars
      → IsKnown tree
      → do_filter entity_by_id literal_by_id a tree
        ≡ done (record { vars = a.vars; res = keep (λ row. holds row (dict_of a.vars) tree) a.res })
  unfolding do_filter
  do_filter-rows a tree full some_var known =
      rw
        (filter_rows-keep (length a.vars) (dict_of a.vars) tree a.res
          (λ name. dict_of-below a.vars name some_var) known full)
        refl
