-- ===== src/Answers/Rows.antt =====
-- Rows of results in Database/Database.cpp, and the matching loop of `mergeJoin`.
use t_rdf.Base.{
  ◌-◌, replicate, ℕ, zero, suc, ◌≤◌, ◌<◌, ◌≡◌, ◌↔◌, refl, sym, ap, ◌∙◌, ◌⊎◌, inl, inr, true, false,
  List, [], ◌∷◌, ◌++◌, ltb, arith, Bool-cases, ==_iff, length, get_or, take, drop, take-all,
  get_elem?-eq-get_or,
}
use t_rdf.Base.Int.{ℤ, pos, negsuc, eq_ℤ}
use t_rdf.Base.Run.{done, Returns, Returns-mono}
use t_rdf.Answers.Merge.{unmatched, Row, push_first, row_matches}
use t_rdf.Answers.Columns.{Agrees, get_or-append}

abbrev pub no_value : ℤ
no_value = negsuc 0

-- A row stands in a list of rows.
abbrev pub In : Row → List Row → Type 0
In w [] = ⊥
In w (x ∷ xs) = (x ≡ w) ⊎ In w xs

pub In-append : (w : Row) (xs ys : List Row) → In w (xs ++ ys) ↔ (In w xs ⊎ In w ys)
In-append w [] ys = (λ h. inr h, λ h. elim h [ inl a ↦ absurd a | inr b ↦ b ])
In-append w (x ∷ xs) ys =
    let (to, from) = In-append w xs ys in
    (
      λ h. elim h [
        | inl e ↦ inl (inl e)
        | inr k ↦ elim (to k) [ inl a ↦ inl (inr a) | inr b ↦ inr b ]
      ],
      λ h. elim h [
        | inl a ↦ elim a [ inl e ↦ inl e | inr k ↦ inr (from (inl k)) ]
        | inr b ↦ inr (from (inr b))
      ],
    )

-- Every row has a value for each of `n` columns, and no more.
abbrev pub AllLength : (n : ℕ) → List Row → Type 0
AllLength n [] = Unit {0}
AllLength n (r ∷ rs) = (length r ≡ n) × AllLength n rs

pub eq_ℤ-eq : (a b : ℤ) → (eq_ℤ a b ≡ true) ↔ (a ≡ b)
eq_ℤ-eq (pos a) (pos b) =
    (λ h. ap pos ((==_iff a b).0 h), λ e. let same : a ≡ b = cc in (==_iff a b).1 same)
eq_ℤ-eq (pos a) (negsuc b) = (λ h. cc, λ e. cc)
eq_ℤ-eq (negsuc a) (pos b) = (λ h. cc, λ e. cc)
eq_ℤ-eq (negsuc a) (negsuc b) =
    (λ h. ap negsuc ((==_iff a b).0 h), λ e. let same : a ≡ b = cc in (==_iff a b).1 same)

pub row_matches-Agrees :
    (n : ℕ) (row : Row) (ms : List ℕ) (other : Row)
    → n ≤ length row
    → length ms ≡ length other
    → Returns (row_matches n row ms other) (λ b. (b ≡ true) ↔ Agrees no_value n row ms other)
unfolding row_matches
row_matches-Agrees n row [] [] le h = (λ e. tt, λ a. refl)
row_matches-Agrees n row [] (v ∷ other) le h = absurd (omega arith)
row_matches-Agrees n row (m ∷ ms) [] le h = absurd (omega arith)
row_matches-Agrees n row (m ∷ ms) (v ∷ other) le h = elim (Bool-cases (ltb m n)) [
  | inl old ↦
      let lt : m < n = ground arith in
      let u = get_or row m no_value in
      rw (old, get_elem?-eq-get_or row m no_value (omega arith))
        (elim (Bool-cases (eq_ℤ u v)) [
          | inl same ↦ rw same (
              Returns-mono _ _ (row_matches n row ms other)
                (row_matches-Agrees n row ms other le (omega arith))
                (λ b iff. (λ e. (λ k. (eq_ℤ-eq u v).0 same, iff.0 e), λ a. iff.1 a.1)))
          | inr different ↦ rw different (λ e. cc, λ a. let same = (eq_ℤ-eq u v).1 (a.0 lt) in cc)
        ])
  | inr new ↦ rw new (
      Returns-mono _ _ (row_matches n row ms other)
        (row_matches-Agrees n row ms other le (omega arith))
        (λ b iff. (λ e. (λ k. absurd (ground arith), iff.0 e), λ a. iff.1 a.1)))
]

pub take-drop : {A : Type 0} (n : ℕ) (w : List A) → take n w ++ drop n w ≡ w
take-drop zero w = refl
take-drop (suc n) [] = refl
take-drop (suc n) (x ∷ w) = ap (λ r. x ∷ r) (take-drop n w)

pub Agrees-prefix :
    (w e : Row) (ms : List ℕ) (xs : Row)
    → Agrees no_value (length w) (w ++ e) ms xs
    → Agrees no_value (length w) w ms xs
Agrees-prefix w e [] [] a = tt
Agrees-prefix w e [] (x ∷ xs) a = absurd a
Agrees-prefix w e (m ∷ ms) [] a = absurd a
Agrees-prefix w e (m ∷ ms) (x ∷ xs) a =
    (λ lt. sym (get_or-append no_value w e m lt) ∙ a.0 lt, Agrees-prefix w e ms xs a.1)

pub push_first-all : (row : Row) → push_first (length row) row ≡ done row
unfolding push_first
push_first-all row =
    let enough : ltb (length row) (length row) ≡ false = ground arith in rw (enough, take-all row)

pub unmatched-eq :
    (n total : ℕ) (row : Row)
    → length row ≡ n
    → unmatched n total row ≡ done (row ++ replicate (total - n) no_value)
unfolding unmatched
unmatched-eq n total row e = rw (← e) (rw (push_first-all row))
