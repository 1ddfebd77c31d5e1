-- ===== src/Answers/Compact.antt =====
-- `dupRemoval_invalidRemoval` of Query/BasicQuery.cpp: its loop moves rows within one array.
use t_rdf.Base.{
  ℕ, suc, ◌+◌, ◌≡◌, refl, sym, ap, ◌∙◌, Bool, true, false, not, ◌&&◌, List, [], ◌∷◌, ◌++◌, ◌==◌,
  if◌then◌else◌, length, get_or, set, take, arith, length-append, append_assoc, append-nil,
  Bool-cases, inl, inr, take-append,
}
use t_rdf.Answers.Merge.{Row}
use t_rdf.Answers.Duplicates.{
  res_equal, res_cmp, is_invalid, dup_step, dup_loop, dup_removal_invalid_removal,
}

module _ (graph_var_num select_var_num : ℕ) where
  -- A row stays unless it is invalid or the row behind it has the same selected values.
  abbrev pub is_kept : Row → List Row → Bool
  is_kept row [] = not (is_invalid graph_var_num row)
  is_kept row (next ∷ rest) =
      not (is_invalid graph_var_num row) && not (res_equal select_var_num row next)

  abbrev pub compact : List Row → List Row
  compact [] = []
  compact (row ∷ rest) = if is_kept row rest then row ∷ compact rest else compact rest

get_or-middle :
    (front : List Row) (row : Row) (rest : List Row)
    → get_or (front ++ (row ∷ rest)) (length front) [] ≡ row
get_or-middle [] row rest = refl
get_or-middle (x ∷ front) row rest = get_or-middle front row rest

set-middle :
    (front : List Row) (old row : Row) (rest : List Row)
    → set (front ++ (old ∷ rest)) (length front) row ≡ front ++ (row ∷ rest)
set-middle [] old row rest = refl
set-middle (x ∷ front) old row rest = ap (λ r. x ∷ r) (set-middle front old row rest)

-- What is left behind the kept rows, after `row` is moved.
abbrev behind : List Row → Row → List Row
behind [] row = []
behind (j ∷ junk) row = junk ++ (row ∷ [])

set-behind :
    (out junk : List Row) (row : Row) (rest : List Row)
    → set (out ++ (junk ++ (row ∷ rest))) (length out) row
      ≡ (out ++ (row ∷ [])) ++ (behind junk row ++ rest)
set-behind out [] row rest = set-middle out row row rest ∙ sym (append_assoc out (row ∷ []) rest)
set-behind out (j ∷ junk) row rest =
    set-middle out j row (junk ++ (row ∷ rest))
    ∙ ap (λ r. out ++ (row ∷ r)) (sym (append_assoc junk (row ∷ []) rest))
    ∙ sym (append_assoc out (row ∷ []) ((junk ++ (row ∷ [])) ++ rest))

length-behind : (junk : List Row) (row : Row) → length (behind junk row) ≡ length junk
length-behind [] row = refl
length-behind (j ∷ junk) row = rw (length-append junk (row ∷ [])) (omega arith)

module _ (graph_var_num select_var_num : ℕ) where
  -- A round keeps the row, or not.
  step-is_kept :
      (list front : List Row) (row : Row) (rest : List Row) (i v : ℕ)
      → list ≡ front ++ (row ∷ rest)
      → i ≡ length front
      → dup_step graph_var_num select_var_num list i v ≡ (
          if is_kept graph_var_num select_var_num row rest
          then (set list v row, suc v)
          else (list, v))
  unfolding dup_step
  step-is_kept list front row [] i v same place =
      let last : (i + 1 == length list) ≡ true =
        rw (same, length-append front (row ∷ []), place) (ground arith) in
      let here : get_or list i [] ≡ row = rw (same, place) (get_or-middle front row []) in
      elim (Bool-cases (is_invalid graph_var_num row)) [
        | inl e ↦ rw (here, e) refl
        | inr e ↦ rw (here, e, last) refl
      ]
  step-is_kept list front row (next ∷ rest) i v same place =
      let last : (i + 1 == length list) ≡ false =
        rw (same, length-append front (row ∷ next ∷ rest), place) (ground arith) in
      let here : get_or list i [] ≡ row =
        rw (same, place) (get_or-middle front row (next ∷ rest)) in
      let there : get_or list (i + 1) [] ≡ next =
        rw
          (
            same,
            place,
            ← length-append front (row ∷ []),
            ← append_assoc front (row ∷ []) (next ∷ rest),
          )
          (get_or-middle (front ++ (row ∷ [])) next rest) in
      elim (Bool-cases (is_invalid graph_var_num row)) [
        | inl e ↦ rw (here, e) refl
        | inr e ↦ rw (here, e, last, there) refl
      ]

  dup_loop-next :
      (left : ℕ) (list : List Row) (i v : ℕ)
      → dup_loop graph_var_num select_var_num (suc left) list i v
        ≡ dup_loop graph_var_num select_var_num left
            (dup_step graph_var_num select_var_num list i v).0
            (suc i)
            (dup_step graph_var_num select_var_num list i v).1
  unfolding dup_loop
  dup_loop-next left list i v = refl

  dup_loop-end :
      (list : List Row) (i v : ℕ) → dup_loop graph_var_num select_var_num 0 list i v ≡ (list, v)
  unfolding dup_loop
  dup_loop-end list i v = refl

  abbrev Leaves : List Row × ℕ → List Row → Type 0
  Leaves result rows = take result.1 result.0 ≡ rows

  dup_loop-compact :
      (rest out junk : List Row) (i v : ℕ)
      → i ≡ length out + length junk
      → v ≡ length out
      → Leaves
          (dup_loop graph_var_num select_var_num (length rest) (out ++ (junk ++ rest)) i v)
          (out ++ compact graph_var_num select_var_num rest)
  dup_loop-compact [] out junk i v ei ev =
      rw (dup_loop-end, ev, append-nil out) (take-append out (junk ++ []))
  dup_loop-compact (row ∷ rest) out junk i v ei ev =
      let list = out ++ (junk ++ (row ∷ rest)) in
      let same : list ≡ (out ++ junk) ++ (row ∷ rest) = sym (append_assoc out junk (row ∷ rest)) in
      let place : i ≡ length (out ++ junk) = ei ∙ sym (length-append out junk) in
      let step = step-is_kept list (out ++ junk) row rest i v same place in
      elim (Bool-cases (is_kept graph_var_num select_var_num row rest)) [
        | inl k ↦
            rw (dup_loop-next, step, k, ev, set-behind out junk row rest)
              (dup_loop-compact rest (out ++ (row ∷ [])) (behind junk row) (suc i)
                  (suc (length out))
                  (rw (length-append out (row ∷ []), length-behind junk row) (omega (arith, ei)))
                  (rw (length-append out (row ∷ [])) (omega arith))
                ∙ append_assoc out (row ∷ []) (compact graph_var_num select_var_num rest))
        | inr k ↦
            rw (dup_loop-next, step, k, ← append_assoc junk (row ∷ []) rest)
              (dup_loop-compact rest out (junk ++ (row ∷ [])) (suc i) v
                (rw (length-append junk (row ∷ [])) (omega (arith, ei))) ev)
      ]

  pub dup_removal-compact :
      (sort : (Row → Row → Bool) → List Row → List Row) (sorted rows : List Row)
      → sort (res_cmp graph_var_num) rows ≡ sorted
      → dup_removal_invalid_removal graph_var_num select_var_num sort rows
        ≡ compact graph_var_num select_var_num sorted
  unfolding dup_removal_invalid_removal
  dup_removal-compact sort sorted rows e =
      rw e (dup_loop-compact sorted [] [] 0 0 (omega arith) refl)
