-- ===== src/Answers/Join.antt =====
-- Lemmas on `mergeJoin` of Database/Database.cpp.
use t_rdf.Base.{
  ℕ, ◌+◌, ◌≡◌, ◌↔◌, sym, ap, ◌∙◌, inl, inr, true, false, List, [], ◌∷◌, ◌++◌, arith, Bool-cases,
  ◌==◌, length, take, drop, length-append, take-append,
}
use t_rdf.Base.Run.{done, Returns, Returns-bind, Returns-mono}
use t_rdf.Answers.Merge.{
  Row, TempResult, row_matches, merge_row, join_row, join_rows, map_var_vec, merge_vars, merge_join,
}
use t_rdf.Answers.Columns.{
  Columns, project, Agrees, extras, project_of_Agrees, Agrees-project, push_new-extras,
  length-extras, Agrees-length, Agrees-append, drop-append,
}
use t_rdf.Answers.Names.{map_var_vec-Mapped, merge_vars-project}
use t_rdf.Answers.Rows.{
  no_value, In, In-append, AllLength, row_matches-Agrees, take-drop, Agrees-prefix, push_first-all,
}

module _ (ms : List ℕ) (total : ℕ) (row : Row)
    (c : Columns (length row) (length row) ms total) where
  -- A row that holds this one, and some row in the other columns.
  abbrev Extends : Row → Row → Type 0
  Extends w other =
      (length w ≡ total) × (take (length row) w ≡ row) × (other ≡ project no_value w ms)

  merged : Row → Row
  merged other = row ++ extras no_value (length row) ms other

  merged-Extends :
      (other : Row) → Agrees no_value (length row) row ms other → Extends (merged other) other
  unfolding merged
  merged-Extends other a =
      let n = length row in
      let e = extras no_value n ms other in
      let len = Agrees-length no_value n row ms other a in
      (
        omega (
          arith,
          length-append row e,
          length-extras no_value n n total ms other (omega arith) c len,
        ),
        take-append row e,
        sym (
            project_of_Agrees no_value n n total ms (row ++ e) other (omega arith) c
              (Agrees-append no_value row e ms other a) (drop-append row e)),
      )

  Extends-merged :
      (w other : Row)
      → Extends w other
      → Agrees no_value (length row) row ms other × (merged other ≡ w)
  unfolding merged
  Extends-merged w other (len, first, e) =
      let n = length row in
      let (agree, after) = Agrees-project no_value n n total ms w (omega arith) c len in
      let split : row ++ drop n w ≡ w = ap (λ r. r ++ drop n w) (sym first) ∙ take-drop n w in
      (Agrees-prefix row (drop n w) ms other (rw (split, e) agree), rw e (rw (← after) split))

  merge_row-merged :
      (other : Row)
      → length ms ≡ length other
      → merge_row (length row) ms row other ≡ done (merged other)
  unfolding merge_row merged
  merge_row-merged other h =
      rw (push_new-extras no_value (length row) ms other h, push_first-all row)

  -- The rows made of this one are those that hold it and some row of the other result.
  abbrev Made : List Row → List Row → Type 0
  Made others ws =
      (w : Row)
      → In w ws
        ↔ ((length w ≡ total) × (take (length row) w ≡ row) × In (project no_value w ms) others)

  Made-match :
      (other : Row) (others ws : List Row)
      → Agrees no_value (length row) row ms other
      → Made others ws
      → Made (other ∷ others) (merged other ∷ ws)
  Made-match other others ws a made w = (
    λ h. elim h [
      | inl e ↦ let (len, first, same) = merged-Extends other a in rw (← e) (len, first, inl same)
      | inr k ↦ let (len, first, later) = (made w).0 k in (len, first, inr later)
    ],
    λ h. elim h.2 [
      | inl same ↦ inl (Extends-merged w other (h.0, h.1, same)).1
      | inr later ↦ inr ((made w).1 (h.0, h.1, later))
    ],
  )

  Made-skip :
      (other : Row) (others ws : List Row)
      → (Agrees no_value (length row) row ms other → ⊥)
      → Made others ws
      → Made (other ∷ others) ws
  Made-skip other others ws a made w = (
    λ k. let (len, first, later) = (made w).0 k in (len, first, inr later),
    λ h. elim h.2 [
      | inl same ↦ absurd (a (Extends-merged w other (h.0, h.1, same)).0)
      | inr later ↦ (made w).1 (h.0, h.1, later)
    ],
  )

  join_row-Made :
      (others : List Row)
      → AllLength (length ms) others
      → Returns (join_row (length row) ms row others) (Made others)
  unfolding join_row
  join_row-Made [] h = λ w. (λ k. absurd k, λ k. absurd k.2)
  join_row-Made (other ∷ others) h =
      let Q = Made (other ∷ others) in
      let rest = join_row (length row) ms row others in
      Returns-bind (λ b. (b ≡ true) ↔ Agrees no_value (length row) row ms other) Q
        (row_matches (length row) row ms other) _
        (row_matches-Agrees (length row) row ms other (omega arith) (sym h.0))
        (λ b iff. elim (Bool-cases b) [
          | inl same ↦
              rw (same, merge_row-merged other (sym h.0))
                (Returns-bind (Made others) Q rest _ (join_row-Made others h.1)
                  (λ ws made. Made-match other others ws (iff.0 same) made))
          | inr differ ↦ rw differ (
              Returns-bind (Made others) Q rest _ (join_row-Made others h.1)
                (λ ws made. Made-skip other others ws (λ a. let t = iff.1 a in cc) made))
        ])

module _ (ms : List ℕ) (n total : ℕ) (c : Columns n n ms total) (b : List Row)
    (bs : AllLength (length ms) b) where
  -- The rows are those that hold some row of the first result and some row of the second.
  abbrev Joined : List Row → List Row → Type 0
  Joined rows ws =
      (w : Row) → In w ws ↔ ((length w ≡ total) × In (take n w) rows × In (project no_value w ms) b)

  abbrev pub JoinedRow : Row → List Row → Type 0
  JoinedRow row ws =
      (w : Row) → In w ws ↔ ((length w ≡ total) × (row ≡ take n w) × In (project no_value w ms) b)

  pub join_row-JoinedRow :
      (row : Row) → length row ≡ n → Returns (join_row n ms row b) (JoinedRow row)
  join_row-JoinedRow row e = rw (← e) (
      Returns-mono _ _ (join_row (length row) ms row b) (join_row-Made ms total row (rw e c) b bs)
        (λ ws made w. (
          λ k. let (len, first, later) = (made w).0 k in (len, sym first, later),
          λ k. (made w).1 (k.0, sym k.1, k.2),
        )))

  join_rows-Joined :
      (rows : List Row) → AllLength n rows → Returns (join_rows n ms b rows) (Joined rows)
  unfolding join_rows
  join_rows-Joined [] h = λ w. (λ k. absurd k, λ k. absurd k.1)
  join_rows-Joined (row ∷ rows) h =
      Returns-bind (JoinedRow row) (Joined (row ∷ rows)) (join_row n ms row b) _
        (join_row-JoinedRow row h.0)
        (λ new made.
          Returns-bind (Joined rows) (Joined (row ∷ rows)) (join_rows n ms b rows) _
            (join_rows-Joined rows h.1)
            (λ rest joined w. (
              λ k. elim ((In-append w new rest).0 k) [
                | inl k1 ↦ let (len, first, last) = (made w).0 k1 in (len, inl first, last)
                | inr k2 ↦ let (len, first, last) = (joined w).0 k2 in (len, inr first, last)
              ],
              λ k. elim k.1 [
                | inl first ↦ (In-append w new rest).1 (inl ((made w).1 (k.0, first, k.2)))
                | inr first ↦ (In-append w new rest).1 (inr ((joined w).1 (k.0, first, k.2)))
              ],
            )))

-- Every row has a value for each variable.
abbrev pub IsFull : TempResult → Type 0
IsFull t = AllLength (length t.vars) t.res

-- What `mergeJoin` leaves: the variables of the first result come first, those of the second are
-- in the columns that `mapVarVec` gives, and the rows are all those that hold some row of
-- the first result in its columns, and some row of the second in its columns.
pub record IsJoin (a b r : TempResult) : Type 0 where
  pub first_vars : take (length a.vars) r.vars ≡ a.vars
  pub second_vars : project [] r.vars (map_var_vec a.vars b.vars).0 ≡ b.vars
  pub rows :
      (w : Row)
      → In w r.res ↔ (
          (length w ≡ length r.vars)
          × In (take (length a.vars) w) a.res
          × In (project no_value w (map_var_vec a.vars b.vars).0) b.res)

-- Let every row have a value for each variable, and let `total_vars` differ from the number of
-- all variables. Then the join ends without a read outside a row, and the rows of the new
-- result are exactly those that hold a row of the first result in its columns, and a row of the
-- second in its columns.
pub merge_join-IsJoin :
    (a b : TempResult)
    → IsFull a
    → IsFull b
    → ((length a.vars + length b.vars) == (map_var_vec a.vars b.vars).1) ≡ false
    → Returns (merge_join a b) (IsJoin a b)
unfolding merge_join
merge_join-IsJoin a b fa fb shared =
    let n = length a.vars in
    let (ms, total) = map_var_vec a.vars b.vars in
    let (c, agree) = map_var_vec-Mapped a.vars b.vars in
    let len = Agrees-length [] n a.vars ms b.vars agree in
    rw shared (
      Returns-bind _ (IsJoin a b) (merge_vars a.vars b.vars) _ (merge_vars-project a.vars b.vars)
        (λ vars v.
          Returns-bind _ (IsJoin a b) (join_rows n ms b.res a.res) _
            (join_rows-Joined ms n total c b.res (rw len fb) a.res fa)
            (λ res joined. record {
              first_vars = v.0;
              second_vars = v.1;
              rows = λ w. rw v.2 (joined w);
            })))
