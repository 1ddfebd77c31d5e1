-- ===== src/Answers/Distinct.antt =====
-- `dupRemoval_invalidRemoval` of Query/BasicQuery.cpp: the results that are left.
use t_rdf.Base.{
  ℕ, ◌≤◌, ◌≡◌, ◌↔◌, inl, inr, refl, Bool, true, false, List, [], ◌∷◌, arith, Bool-cases,
}
use t_rdf.Answers.Merge.{Row}
use t_rdf.Answers.Rows.{In}
use t_rdf.Answers.Duplicates.{res_equal, res_cmp, dup_removal_invalid_removal}
use t_rdf.Answers.Compact.{is_kept, compact, dup_removal-compact}
use t_rdf.Answers.Order.{IsOrdered, HasTag, IsValid, equal_from_refl, equal_from_trans, between_res}

module _ (graph_var_num select_var_num : ℕ) where
  abbrev pub AllTagged : List Row → Type 0
  AllTagged rows = (w : Row) → In w rows → HasTag graph_var_num w

  -- No invalid result has the selected values of a valid one.
  abbrev pub IsSeparate : List Row → Type 0
  IsSeparate rows =
      (v w : Row)
      → In v rows
      → In w rows
      → IsValid graph_var_num v
      → res_equal select_var_num v w ≡ true
      → IsValid graph_var_num w

  -- No two rows have the same selected values.
  abbrev pub IsDistinct : List Row → Type 0
  IsDistinct [] = Unit {0}
  IsDistinct (x ∷ xs) = ((y : Row) → In y xs → res_equal select_var_num x y ≡ false) × IsDistinct xs

  kept-IsValid :
      (row : Row) (rest : List Row)
      → HasTag graph_var_num row
      → is_kept graph_var_num select_var_num row rest ≡ true
      → IsValid graph_var_num row
  kept-IsValid row rest (inl v) k = v
  kept-IsValid row [] (inr v) k = absurd (ground (arith, rw v at k))
  kept-IsValid row (next ∷ rest) (inr v) k = absurd (ground (arith, rw v at k))

  kept-differs :
      (row next : Row) (rest : List Row)
      → is_kept graph_var_num select_var_num row (next ∷ rest) ≡ true
      → res_equal select_var_num row next ≡ false
  kept-differs row next rest k = ground (arith, k)

  -- A valid row is dropped for the row behind it.
  dropped-same :
      (row : Row) (rest : List Row)
      → IsValid graph_var_num row
      → is_kept graph_var_num select_var_num row rest ≡ false
      → (next : Row) × (In next rest × (res_equal select_var_num row next ≡ true))
  dropped-same row [] v k = let valid = rw v at k in absurd (ground (arith, valid))
  dropped-same row (next ∷ rest) v k =
      let valid = rw v at k in (next, (inl refl, ground (arith, valid)))

  -- A row that stays has no equal further on.
  kept-apart :
      (row : Row) (rest : List Row) (y : Row)
      → select_var_num ≤ graph_var_num
      → AllTagged (row ∷ rest)
      → IsOrdered graph_var_num (row ∷ rest)
      → is_kept graph_var_num select_var_num row rest ≡ true
      → In y rest
      → IsValid graph_var_num y
      → res_equal select_var_num row y ≡ false
  kept-apart row [] y le tags ordered kept m v = elim m [ ]
  kept-apart row (next ∷ rest) y le tags ordered kept (inl e) v =
      rw (← e) (kept-differs row next rest kept)
  kept-apart row (next ∷ rest) y le tags ordered kept (inr m) v =
      elim (Bool-cases (res_equal select_var_num row y)) [
        | inr f ↦ f
        | inl same ↦
            let valid = kept-IsValid row (next ∷ rest) (tags row (inl refl)) kept in
            let next_same =
              between_res graph_var_num select_var_num row next y le (tags next (inr (inl refl)))
                valid v (ordered.0 next (inl refl)) (ordered.1.0 y m) same in
            let differs = kept-differs row next rest kept in
            absurd (ground (arith, next_same, differs))
      ]

  compact-In :
      (rows : List Row) (w : Row)
      → AllTagged rows
      → In w (compact graph_var_num select_var_num rows)
      → In w rows × IsValid graph_var_num w
  compact-In [] w tags h = elim h [ ]
  compact-In (row ∷ rest) w tags h =
      let later : In w (compact graph_var_num select_var_num rest)
          → In w (row ∷ rest) × IsValid graph_var_num w =
        λ k. let (i, v) = compact-In rest w (λ u m. tags u (inr m)) k in (inr i, v) in
      elim (Bool-cases (is_kept graph_var_num select_var_num row rest)) [
        | inl kept ↦ elim (rw kept at h) [
          | inl e ↦ (inl e, rw (← e) (kept-IsValid row rest (tags row (inl refl)) kept))
          | inr k ↦ later k
        ]
        | inr dropped ↦ later (rw dropped at h)
      ]

  compact-represents :
      (rows : List Row) (w : Row)
      → AllTagged rows
      → IsSeparate rows
      → In w rows
      → IsValid graph_var_num w
      → (v : Row) × (In v (compact graph_var_num select_var_num rows)
          × (res_equal select_var_num w v ≡ true))
  compact-represents [] w tags sep h valid = elim h [ ]
  compact-represents (row ∷ rest) w tags sep h valid =
      let ih = λ (u : Row) (m : In u rest) (vu : IsValid graph_var_num u).
        compact-represents rest u (λ x k. tags x (inr k)) (λ a b i j. sep a b (inr i) (inr j)) m
          vu in
      elim (Bool-cases (is_kept graph_var_num select_var_num row rest)) [
        | inl kept ↦ rw kept (elim h [
          | inl e ↦ (row, (inl refl, rw e (equal_from_refl w 0 select_var_num)))
          | inr m ↦ let (v, found) = ih w m valid in (v, (inr found.0, found.1))
        ])
        | inr dropped ↦ rw dropped (elim h [
          | inl e ↦
              let v_row : IsValid graph_var_num row = rw e valid in
              let (next, near) = dropped-same row rest v_row dropped in
              let (v, found) = ih next near.0 (sep row next (inl refl) (inr near.0) v_row near.1) in
              (v, (found.0, equal_from_trans w next v 0 select_var_num (rw e at near.1) found.1))
          | inr m ↦ ih w m valid
        ])
      ]

  compact-IsDistinct :
      (rows : List Row)
      → select_var_num ≤ graph_var_num
      → AllTagged rows
      → IsOrdered graph_var_num rows
      → IsDistinct (compact graph_var_num select_var_num rows)
  compact-IsDistinct [] le tags ordered = tt
  compact-IsDistinct (row ∷ rest) le tags ordered =
      let ih = compact-IsDistinct rest le (λ w m. tags w (inr m)) ordered.1 in
      elim (Bool-cases (is_kept graph_var_num select_var_num row rest)) [
        | inl kept ↦ rw kept (
          λ y m.
              let (i, v) = compact-In rest y (λ w k. tags w (inr k)) m in
              kept-apart row rest y le tags ordered kept i v,
          ih,
        )
        | inr dropped ↦ rw dropped ih
      ]

  -- What is left: only valid results; of results that agree on the selected variables just one.
  pub record IsReduced (rows kept : List Row) : Type 0 where
    pub valid : (w : Row) → In w kept → In w rows × IsValid graph_var_num w
    pub represents :
        (w : Row)
        → In w rows
        → IsValid graph_var_num w
        → (v : Row) × (In v kept × (res_equal select_var_num w v ≡ true))
    pub distinct : IsDistinct kept

  -- Let `sort` give the same rows in the order of `ResultCmp`, let the selected variables be the
  -- first of the graph, let every row have the tag 1 or -1, and let no invalid row agree with a
  -- valid one on the selected variables. Then what is left are valid rows, among them one for
  -- each valid row that agrees with it on the selected variables, and no two that agree.
  pub dup_removal_invalid_removal-IsReduced :
      (sort : (Row → Row → Bool) → List Row → List Row) (rows : List Row)
      → ((w : Row) → In w (sort (res_cmp graph_var_num) rows) ↔ In w rows)
      → IsOrdered graph_var_num (sort (res_cmp graph_var_num) rows)
      → select_var_num ≤ graph_var_num
      → AllTagged rows
      → IsSeparate rows
      → IsReduced rows (dup_removal_invalid_removal graph_var_num select_var_num sort rows)
  dup_removal_invalid_removal-IsReduced sort rows same ordered le tags sep =
      let sorted = sort (res_cmp graph_var_num) rows in
      let all : AllTagged sorted = λ w m. tags w ((same w).0 m) in
      let apart : IsSeparate sorted = λ v w i j. sep v w ((same v).0 i) ((same w).0 j) in
      rw (dup_removal-compact graph_var_num select_var_num sort sorted rows refl) (record {
        valid = λ w m. let (i, v) = compact-In sorted w all m in ((same w).0 i, v);
        represents = λ w m v. compact-represents sorted w all apart ((same w).1 m) v;
        distinct = compact-IsDistinct sorted le all ordered;
      })
