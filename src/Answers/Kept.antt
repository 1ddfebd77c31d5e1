-- ===== src/Answers/Kept.antt =====
-- `doFilter` of Database/Database.cpp: what the rows that it keeps have in common.
use t_rdf.Base.{
  ℕ, ◌<◌, ◌≡◌, ◌≢◌, ◌↔◌, ◌⊎◌, refl, sym, Bool, true, ==_iff, List, [], ◌∷◌, arith, ◌==◌, length,
  get_or, keep, Bool-cases, inl, inr,
}
use t_rdf.Base.Int.{ℤ}
use t_rdf.Base.Run.{done}
use t_rdf.Signature.Hash.{Text}
use t_rdf.Answers.Merge.{Row, TempResult}
use t_rdf.Answers.Rows.{no_value}
use t_rdf.Answers.Join.{IsFull}
use t_rdf.Answers.Texts.{
  Compares, compare_text-Compares, LastPlace, dict_of-LastPlace, Unquoted, drop_quote-Unquoted,
  Unquoted-drop_quote,
}
use t_rdf.Answers.Filtering.{
  FilterTree, not_tree, or_tree, and_tree, compare_tree, other, dict_of, name_by_id, do_filter,
}
use t_rdf.Answers.Selection.{IsKnown, operand, holds, do_filter-rows}

-- Every variable of the filter is a column.
abbrev pub HasColumn : (vars : List Text) → (arg : Text) → Type 0
HasColumn vars [] = Unit {0}
HasColumn vars (c ∷ arg) = c ≡ b'?' → (k : ℕ) × LastPlace vars (c ∷ arg) k

abbrev pub HasColumns : (vars : List Text) → FilterTree → Type 0
HasColumns vars (not_tree t) = HasColumns vars t
HasColumns vars (or_tree t u) = HasColumns vars t × HasColumns vars u
HasColumns vars (and_tree t u) = HasColumns vars t × HasColumns vars u
HasColumns vars (compare_tree comparison arg1 arg2) = HasColumn vars arg1 × HasColumn vars arg2
HasColumns vars other = ⊥

module _ (entity_by_id literal_by_id : ℤ → Text) where
  module _ (vars : List Text) (row : Row) where
    -- The text of an argument: the name of the value in the last column of a variable, or the
    -- argument itself, without a quote in front.
    abbrev pub Reads : (arg x : Text) → Type 0
    Reads [] x = x ≡ []
    Reads (c ∷ arg) x =
        ((c ≡ b'?')
          × (k : ℕ) × LastPlace vars (c ∷ arg) k
          × Unquoted (name_by_id entity_by_id literal_by_id (get_or row k no_value)) x)
        ⊎ ((c ≢ b'?') × Unquoted (c ∷ arg) x)

    -- What a filter says of a row.
    abbrev pub Means : FilterTree → Type 0
    Means (not_tree t) = ¬ (Means t)
    Means (or_tree t u) = Means t ⊎ Means u
    Means (and_tree t u) = Means t × Means u
    Means (compare_tree comparison arg1 arg2) =
        (x : Text) × (y : Text) × Reads arg1 x × Reads arg2 y × Compares comparison x y
    Means other = ⊥

    Reads-operand :
        (arg x : Text) → Reads arg x → operand entity_by_id literal_by_id row (dict_of vars) arg ≡ x
    Reads-operand [] x h = sym h
    Reads-operand (c ∷ arg) x (inl (e, k, last, read)) =
        let is : (c == b'?') ≡ true = (==_iff c b'?').1 e in
        let column = dict_of-LastPlace vars (c ∷ arg) k last in
        rw (is, column)
          (Unquoted-drop_quote (name_by_id entity_by_id literal_by_id (get_or row k no_value)) x
            read)
    Reads-operand (c ∷ arg) x (inr (e, read)) = elim (Bool-cases (c == b'?')) [
      | inl is ↦ absurd (e ((==_iff c b'?').0 is))
      | inr plain ↦ rw plain (Unquoted-drop_quote (c ∷ arg) x read)
    ]

    operand-Reads :
        (arg : Text)
        → HasColumn vars arg
        → Reads arg (operand entity_by_id literal_by_id row (dict_of vars) arg)
    operand-Reads [] h = refl
    operand-Reads (c ∷ arg) h = elim (Bool-cases (c == b'?')) [
      | inl is ↦
          let e = (==_iff c b'?').0 is in
          let (k, last) = h e in
          rw (is, dict_of-LastPlace vars (c ∷ arg) k last)
            (inl (
              e,
              k,
              last,
              drop_quote-Unquoted (name_by_id entity_by_id literal_by_id (get_or row k no_value)),
            ))
      | inr plain ↦ rw plain (
          inr (
            (λ e. (let is = (==_iff c b'?').1 e in ground (arith, is, plain))),
            drop_quote-Unquoted (c ∷ arg),
          ))
    ]

    holds-Means :
        (tree : FilterTree)
        → HasColumns vars tree
        → (holds entity_by_id literal_by_id row (dict_of vars) tree ≡ true) ↔ Means tree
    holds-Means (not_tree t) h =
        let (to, from) = holds-Means t h in
        (
          λ e m. (let on = from m in ground (arith, on, e)),
          λ m. elim (Bool-cases (holds entity_by_id literal_by_id row (dict_of vars) t)) [
            | inl on ↦ absurd (m (to on))
            | inr off ↦ rw off refl
          ],
        )
    holds-Means (or_tree t u) h =
        let (to_t, from_t) = holds-Means t h.0 in
        let (to_u, from_u) = holds-Means u h.1 in
        (
          λ e. elim (Bool-cases (holds entity_by_id literal_by_id row (dict_of vars) t)) [
            | inl on ↦ inl (to_t on)
            | inr off ↦ inr (to_u (rw off at e))
          ],
          λ m. elim m [
            | inl k ↦ rw (from_t k) refl
            | inr k ↦ let on = from_u k in ground (arith, on)
          ],
        )
    holds-Means (and_tree t u) h =
        let (to_t, from_t) = holds-Means t h.0 in
        let (to_u, from_u) = holds-Means u h.1 in
        (
          λ e. elim (Bool-cases (holds entity_by_id literal_by_id row (dict_of vars) t)) [
            | inl on ↦ (to_t on, to_u (rw on at e))
            | inr off ↦ absurd (ground (arith, e, off))
          ],
          λ m. rw (from_t m.0, from_u m.1) refl,
        )
    holds-Means (compare_tree comparison arg1 arg2) h =
        let x = operand entity_by_id literal_by_id row (dict_of vars) arg1 in
        let y = operand entity_by_id literal_by_id row (dict_of vars) arg2 in
        let (to, from) = compare_text-Compares comparison x y in
        (
          λ e. (x, y, operand-Reads arg1 h.0, operand-Reads arg2 h.1, to e),
          λ m.
              let (u, v, read1, read2, compares) = m in
              let same1 = Reads-operand arg1 u read1 in
              let same2 = Reads-operand arg2 v read2 in
              rw (same1, same2) ((compare_text-Compares comparison u v).1 compares),
        )
    holds-Means other h = elim h [ ]

  -- If every row has a value for each variable, there is a variable, every node of the filter has a
  -- type the code knows, and every variable of the filter is a column, then the filter ends without
  -- a read outside a row and keeps, in their order, exactly the rows of which it is true: a
  -- comparison is true if the two texts are the same, or one comes before the other in the order of
  -- bytes, as its type says; a variable stands for the name of the value in its last column.
  pub do_filter-Means :
      (a : TempResult) (tree : FilterTree)
      → IsFull a
      → 0 < length a.vars
      → IsKnown tree
      → HasColumns a.vars tree
      → (keeps : Row → Bool) × (do_filter entity_by_id literal_by_id a tree
          ≡ done (record { vars = a.vars; res = keep keeps a.res }))
        × ((row : Row) → (keeps row ≡ true) ↔ Means a.vars row tree)
  do_filter-Means a tree full some_var known columns = (
    λ row. holds entity_by_id literal_by_id row (dict_of a.vars) tree,
    do_filter-rows entity_by_id literal_by_id a tree full some_var known,
    λ row. holds-Means a.vars row tree columns,
  )
