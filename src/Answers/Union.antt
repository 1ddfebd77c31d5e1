-- ===== src/Answers/Union.antt =====
-- Lemmas on `mergeUnion` of Database/Database.cpp.
use t_rdf.Base.{
  ℕ, zero, suc, ◌-◌, ◌<◌, ◌≤◌, ◌≡◌, refl, sym, ◌∙◌, false, inl, inr, List, [], ◌∷◌, ◌++◌, arith,
  lt→ltb, ◌==◌, length, get_or, set, take, replicate, map, length-set, length-replicate,
}
use t_rdf.Base.Int.{ℤ}
use t_rdf.Base.Run.{done, Returns, Returns-bind, Returns-mono}
use t_rdf.Base.Sets.{mem}
use t_rdf.Answers.Merge.{
  Row, TempResult, map_var_vec, merge_vars, put_values, first_rows, second_rows, merge_union,
}
use t_rdf.Answers.Columns.{Columns, Columns-le, project, Agrees-length}
use t_rdf.Answers.Names.{map_var_vec-Mapped, merge_vars-project}
use t_rdf.Answers.Rows.{no_value, AllLength, unmatched-eq}
use t_rdf.Answers.Join.{IsFull}

-- No column is given twice.
abbrev pub IsDistinct : List ℕ → Type 0
IsDistinct [] = Unit {0}
IsDistinct (m ∷ ms) = (mem m ms ≡ false) × IsDistinct ms

-- The row has the values in the columns, and -1 in every other column.
abbrev pub Places : (ms : List ℕ) (total : ℕ) → Row → Row → Type 0
Places ms total values w =
    (length w ≡ total)
    × (project no_value w ms ≡ values)
    × ((m : ℕ) → mem m ms ≡ false → get_or w m no_value ≡ no_value)

abbrev pub AllPlaces : (ms : List ℕ) (total : ℕ) → List Row → List Row → Type 0
AllPlaces ms total [] [] = Unit {0}
AllPlaces ms total [] (w ∷ ws) = ⊥
AllPlaces ms total (row ∷ rows) [] = ⊥
AllPlaces ms total (row ∷ rows) (w ∷ ws) = Places ms total row w × AllPlaces ms total rows ws

get_or-set-other :
    (row : Row) (i m : ℕ) (v : ℤ)
    → (i == m) ≡ false
    → get_or (set row i v) m no_value ≡ get_or row m no_value
get_or-set-other [] i m v h = refl
get_or-set-other (x ∷ row) zero zero v h = cc
get_or-set-other (x ∷ row) zero (suc m) v h = refl
get_or-set-other (x ∷ row) (suc i) zero v h = refl
get_or-set-other (x ∷ row) (suc i) (suc m) v h = get_or-set-other row i m v (ground arith)

get_or-set : (row : Row) (i : ℕ) (v : ℤ) → i < length row → get_or (set row i v) i no_value ≡ v
get_or-set [] i v h = absurd (omega arith)
get_or-set (x ∷ row) zero v h = refl
get_or-set (x ∷ row) (suc i) v h = get_or-set row i v (omega arith)

-- The columns are columns of the row.
abbrev AllBelow : ℕ → List ℕ → Type 0
AllBelow total [] = Unit {0}
AllBelow total (m ∷ ms) = (m < total) × AllBelow total ms

-- What the writes leave of a row.
abbrev Written : (ms : List ℕ) (values row w : Row) → Type 0
Written ms values row w =
    (length w ≡ length row)
    × (project no_value w ms ≡ values)
    × ((m : ℕ) → mem m ms ≡ false → get_or w m no_value ≡ get_or row m no_value)

put_values-Written :
    (row : Row) (ms : List ℕ) (values : Row)
    → length ms ≡ length values
    → IsDistinct ms
    → AllBelow (length row) ms
    → Returns (put_values row ms values) (Written ms values row)
unfolding put_values
put_values-Written row [] [] h d b = (refl, refl, λ m e. refl)
put_values-Written row [] (v ∷ values) h d b = absurd (omega arith)
put_values-Written row (m ∷ ms) [] h d b = absurd (omega arith)
put_values-Written row (m ∷ ms) (v ∷ values) h d b =
    let len = length-set row m v in
    rw (lt→ltb m (length row) b.0) (
      Returns-mono (Written ms values (set row m v)) (Written (m ∷ ms) (v ∷ values) row)
        (put_values (set row m v) ms values)
        (put_values-Written (set row m v) ms values (omega arith) d.1 (rw len b.1))
        (λ w k. (
          k.0 ∙ len,
          rw (k.2 m d.0 ∙ get_or-set row m v b.0, k.1),
          λ i e. k.2 i (ground (arith, e)) ∙ get_or-set-other row m i v (ground (arith, e)),
        )))

AllBelow-Columns :
    (n next total : ℕ) (ms : List ℕ)
    → next ≤ total
    → n ≤ next
    → Columns n next ms total
    → AllBelow total ms
AllBelow-Columns n next total [] le le' c = tt
AllBelow-Columns n next total (m ∷ ms) le le' (inl old) =
    (omega (arith, old.0), AllBelow-Columns n next total ms le le' old.1)
AllBelow-Columns n next total (m ∷ ms) le le' (inr new) =
    let within = Columns-le no_value n (suc next) total ms new.1 in
    (omega (arith, new.0), AllBelow-Columns n (suc next) total ms within (omega arith) new.1)

get_or-replicate : (n m : ℕ) → get_or (replicate n no_value) m no_value ≡ no_value
get_or-replicate zero m = refl
get_or-replicate (suc n) zero = refl
get_or-replicate (suc n) (suc m) = get_or-replicate n m

second_rows-AllPlaces :
    (total : ℕ) (ms : List ℕ) (rows : List Row)
    → IsDistinct ms
    → AllBelow total ms
    → AllLength (length ms) rows
    → Returns (second_rows total ms rows) (AllPlaces ms total rows)
unfolding second_rows
second_rows-AllPlaces total ms [] d b h = tt
second_rows-AllPlaces total ms (row ∷ rows) d b h =
    let blank = replicate total no_value in
    let len = length-replicate total no_value in
    let Q = AllPlaces ms total (row ∷ rows) in
    Returns-bind (Written ms row blank) Q (put_values blank ms row) _
      (put_values-Written blank ms row (sym h.0) d (rw len b))
      (λ w k.
        Returns-bind (AllPlaces ms total rows) Q (second_rows total ms rows) _
          (second_rows-AllPlaces total ms rows d b h.1)
          (λ ws rest. ((k.0 ∙ len, k.1, λ m e. k.2 m e ∙ get_or-replicate total m), rest)))

first_rows-map :
    (n total : ℕ) (rows : List Row)
    → AllLength n rows
    → first_rows n total rows ≡ done (map (λ row. row ++ replicate (total - n) no_value) rows)
unfolding first_rows
first_rows-map n total [] h = refl
first_rows-map n total (row ∷ rows) h =
    rw (unmatched-eq n total row h.0, first_rows-map n total rows h.1)

-- What `mergeUnion` leaves: the variables as in a join; the rows of the first result in order, with
-- -1 in the new columns, and then those of the second in order, each in its columns, with -1
-- in the others.
pub record IsUnion (a b r : TempResult) : Type 0 where
  pub first_vars : take (length a.vars) r.vars ≡ a.vars
  pub second_vars : project [] r.vars (map_var_vec a.vars b.vars).0 ≡ b.vars
  pub second : List Row
  pub rows :
      r.res ≡ map (λ row. row ++ replicate (length r.vars - length a.vars) no_value) a.res ++ second
  pub places : AllPlaces (map_var_vec a.vars b.vars).0 (length r.vars) b.res second

-- Let every row have a value for each variable, and let `mapVarVec` give no column twice. Then the
-- union ends without a read or a write outside a row. It has the rows of the first result in order,
-- with -1 in the new columns, and then those of the second in order, each with its values in
-- its columns and -1 in the others.
pub merge_union-IsUnion :
    (a b : TempResult)
    → IsFull a
    → IsFull b
    → IsDistinct (map_var_vec a.vars b.vars).0
    → Returns (merge_union a b) (IsUnion a b)
unfolding merge_union
merge_union-IsUnion a b fa fb d =
    let n = length a.vars in
    let (ms, total) = map_var_vec a.vars b.vars in
    let (c, agree) = map_var_vec-Mapped a.vars b.vars in
    let len = Agrees-length [] n a.vars ms b.vars agree in
    let below =
      AllBelow-Columns n n total ms (Columns-le no_value n n total ms c) (omega arith) c in
    Returns-bind _ (IsUnion a b) (merge_vars a.vars b.vars) _ (merge_vars-project a.vars b.vars)
      (λ vars v. rw (first_rows-map n total a.res fa) (
        Returns-bind _ (IsUnion a b) (second_rows total ms b.res) _
          (second_rows-AllPlaces total ms b.res d below (rw len fb))
          (λ ws placed. record {
            first_vars = v.0;
            second_vars = v.1;
            second = ws;
            rows = rw v.2 refl;
            places = rw v.2 placed;
          })))
