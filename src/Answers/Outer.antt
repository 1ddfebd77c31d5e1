-- ===== src/Answers/Outer.antt =====
-- Lemmas on `mergeLeftOuterJoin` of Database/Database.cpp.
use t_rdf.Base.{
  ℕ, ◌-◌, ◌≡◌, ◌↔◌, refl, sym, ◌⊎◌, inl, inr, List, [], ◌∷◌, ◌++◌, length, replicate, take,
}
use t_rdf.Base.Run.{Returns, Returns-bind}
use t_rdf.Answers.Merge.{
  Row, TempResult, join_row, or_unmatched, outer_rows, map_var_vec, merge_vars,
  merge_left_outer_join,
}
use t_rdf.Answers.Columns.{Columns, project, Agrees-length}
use t_rdf.Answers.Names.{map_var_vec-Mapped, merge_vars-project}
use t_rdf.Answers.Rows.{no_value, In, In-append, AllLength, unmatched-eq}
use t_rdf.Answers.Join.{JoinedRow, join_row-JoinedRow, IsFull}

module _ (ms : List ℕ) (n total : ℕ) (b : List Row) where
  -- A row of all columns that holds this one, and some row of the second result.
  abbrev pub Holding : Row → Row → Type 0
  Holding row w = (length w ≡ total) × (row ≡ take n w) × In (project no_value w ms) b

  -- The row with -1 in the new columns, where no row holds it and a row of the second result.
  abbrev pub Padded : Row → Row → Type 0
  Padded row w = ((v : Row) → Holding row v → ⊥) × (w ≡ row ++ replicate (total - n) no_value)

  abbrev pub Outer : List Row → Row → Type 0
  Outer rows w = ((row : Row) × In row rows × (Holding row w ⊎ Padded row w))

  OuterRow : (row : Row) → List Row → Type 0
  OuterRow row ws = (w : Row) → In w ws ↔ (Holding row w ⊎ Padded row w)

  or_unmatched-OuterRow :
      (row : Row) (made : List Row)
      → length row ≡ n
      → ((w : Row) → In w made ↔ Holding row w)
      → Returns (or_unmatched n total row made) (OuterRow row)
  unfolding or_unmatched OuterRow
  or_unmatched-OuterRow row [] e h = rw (unmatched-eq n total row e) (λ w. (
    λ k. elim k [
      | inl same ↦ inr (λ v holding. (h v).1 holding, sym same)
      | inr none_left ↦ absurd none_left
    ],
    λ k. elim k [ inl holding ↦ absurd ((h w).1 holding) | inr padded ↦ inl (sym padded.1) ],
  ))
  or_unmatched-OuterRow row (x ∷ made) e h = λ w. (
    λ k. inl ((h w).0 k),
    λ k. elim k [
      | inl holding ↦ (h w).1 holding
      | inr padded ↦ absurd (padded.0 x ((h x).0 (inl refl)))
    ],
  )

  module _ (c : Columns n n ms total) (bs : AllLength (length ms) b) where
    outer_rows-Outer :
        (rows : List Row)
        → AllLength n rows
        → Returns (outer_rows n total ms b rows) (λ ws. (w : Row) → In w ws ↔ Outer rows w)
    unfolding outer_rows OuterRow
    outer_rows-Outer [] h = λ w. (λ k. absurd k, λ k. absurd k.1)
    outer_rows-Outer (row ∷ rows) h =
        let Q : List Row → Type 0 = λ ws. (w : Row) → In w ws ↔ Outer (row ∷ rows) w in
        Returns-bind (JoinedRow ms n total c b bs row) Q (join_row n ms row b) _
          (join_row-JoinedRow ms n total c b bs row h.0)
          (λ made j.
            Returns-bind (OuterRow row) Q (or_unmatched n total row made) _
              (or_unmatched-OuterRow row made h.0 j)
              (λ new o.
                Returns-bind (λ ws. (w : Row) → In w ws ↔ Outer rows w) Q
                  (outer_rows n total ms b rows) _ (outer_rows-Outer rows h.1)
                  (λ rest r w. (
                    λ k. elim ((In-append w new rest).0 k) [
                      | inl k1 ↦ (row, inl refl, (o w).0 k1)
                      | inr k2 ↦ let (row', there, held) = (r w).0 k2 in (row', inr there, held)
                    ],
                    λ k. elim k.1 [
                      | inl same ↦ (In-append w new rest).1 (inl ((o w).1 (rw same k.2)))
                      | inr there ↦ (In-append w new rest).1 (inr ((r w).1 (k.0, there, k.2)))
                    ],
                  ))))

-- What `mergeLeftOuterJoin` leaves: the variables as in a join; the rows are those that hold a row
-- of the first result and a row of the second in their columns, and each row of the first
-- result that no such row holds, with -1 in the new columns.
pub record IsOuterJoin (a b r : TempResult) : Type 0 where
  pub first_vars : take (length a.vars) r.vars ≡ a.vars
  pub second_vars : project [] r.vars (map_var_vec a.vars b.vars).0 ≡ b.vars
  pub rows :
      (w : Row)
      → In w r.res
        ↔ Outer (map_var_vec a.vars b.vars).0 (length a.vars) (length r.vars) b.res a.res w

-- Let every row have a value for each variable. Then the left outer join ends without a read
-- outside a row, and the rows of the new result are exactly those that hold a row of the first
-- result in its columns and a row of the second in its columns, and, with -1 in the new columns,
-- the rows of the first result that no such row holds.
pub merge_left_outer_join-IsOuterJoin :
    (a b : TempResult) → IsFull a → IsFull b → Returns (merge_left_outer_join a b) (IsOuterJoin a b)
unfolding merge_left_outer_join
merge_left_outer_join-IsOuterJoin a b fa fb =
    let n = length a.vars in
    let (ms, total) = map_var_vec a.vars b.vars in
    let (c, agree) = map_var_vec-Mapped a.vars b.vars in
    let len = Agrees-length [] n a.vars ms b.vars agree in
    Returns-bind _ (IsOuterJoin a b) (merge_vars a.vars b.vars) _ (merge_vars-project a.vars b.vars)
      (λ vars v.
        Returns-bind _ (IsOuterJoin a b) (outer_rows n total ms b.res a.res) _
          (outer_rows-Outer ms n total b.res c (rw len fb) a.res fa)
          (λ res outer. record {
            first_vars = v.0;
            second_vars = v.1;
            rows = λ w. rw v.2 (outer w);
          }))
