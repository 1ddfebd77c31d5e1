-- ===== src/Answers/Order.antt =====
-- `ResultCmp` of Query/BasicQuery.cpp: rows in order, and rows that agree on the selected variables.
use t_rdf.Base.{
  ℕ, zero, suc, ◌≤◌, ◌≡◌, ◌⊎◌, inl, inr, refl, ◌∙◌, Bool, true, false, not, ◌&&◌, List, [], ◌∷◌,
  if◌then◌else◌, arith,
}
use t_rdf.Base.Int.{ℤ, pos, negsuc, eq_ℤ, lt_ℤ}
use t_rdf.Answers.Merge.{Row}
use t_rdf.Answers.Rows.{In, eq_ℤ-eq}
use t_rdf.Answers.Duplicates.{cell, equal_from, res_equal, less_from, res_cmp}

module _ (graph_var_num : ℕ) where
  -- No element is to come before an element in front of it.
  abbrev pub IsOrdered : List Row → Type 0
  IsOrdered [] = Unit {0}
  IsOrdered (x ∷ xs) = ((y : Row) → In y xs → res_cmp graph_var_num y x ≡ false) × IsOrdered xs

  -- The valid tag is 1, or -1 for an invalid result.
  abbrev pub HasTag : Row → Type 0
  HasTag row = (cell row graph_var_num ≡ pos 1) ⊎ (cell row graph_var_num ≡ negsuc 0)

  abbrev pub IsValid : Row → Type 0
  IsValid row = cell row graph_var_num ≡ pos 1

eq_ℤ_refl : (a : ℤ) → eq_ℤ a a ≡ true
eq_ℤ_refl a = (eq_ℤ-eq a a).1 refl

pub equal_from_refl : (a : Row) (i n : ℕ) → equal_from a a i n ≡ true
unfolding equal_from
equal_from_refl a i zero = refl
equal_from_refl a i (suc n) = rw (eq_ℤ_refl (cell a i)) (equal_from_refl a (suc i) n)

and-true : (a b : Bool) → (a && b) ≡ true → (a ≡ true) × (b ≡ true)
and-true true b h = (refl, h)
and-true false b h = absurd (ground (arith, h))

pub equal_from_trans :
    (a b c : Row) (i n : ℕ)
    → equal_from a b i n ≡ true
    → equal_from b c i n ≡ true
    → equal_from a c i n ≡ true
unfolding equal_from
equal_from_trans a b c i zero h k = refl
equal_from_trans a b c i (suc n) h k =
    let (h1, h2) = and-true _ _ h in
    let (k1, k2) = and-true _ _ k in
    let same : cell a i ≡ cell c i = (eq_ℤ-eq _ _).0 h1 ∙ (eq_ℤ-eq _ _).0 k1 in
    rw ((eq_ℤ-eq (cell a i) (cell c i)).1 same) (equal_from_trans a b c (suc i) n h2 k2)

between_same :
    (x y : ℤ) (less1 less2 : Bool)
    → (if not (eq_ℤ y x) then lt_ℤ y x else less1) ≡ false
    → (if not (eq_ℤ x y) then lt_ℤ x y else less2) ≡ false
    → (eq_ℤ x y ≡ true) × (less1 ≡ false) × (less2 ≡ false)
between_same (pos x) (pos y) less1 less2 h k =
    (ground (arith, h, k), ground (arith, h, k), ground (arith, h, k))
between_same (pos x) (negsuc y) less1 less2 h k = absurd (ground (arith, h))
between_same (negsuc x) (pos y) less1 less2 h k = absurd (ground (arith, k))
between_same (negsuc x) (negsuc y) less1 less2 h k =
    (ground (arith, h, k), ground (arith, h, k), ground (arith, h, k))

-- One place of three rows in order, of which the outer ones agree.
between_place :
    (x y z : ℤ) (less1 less2 : Bool)
    → eq_ℤ x z ≡ true
    → (if not (eq_ℤ y x) then lt_ℤ y x else less1) ≡ false
    → (if not (eq_ℤ z y) then lt_ℤ z y else less2) ≡ false
    → (eq_ℤ x y ≡ true) × (less1 ≡ false) × (less2 ≡ false)
between_place x y z less1 less2 e h k =
    between_same x y less1 less2 h (rw (← (eq_ℤ-eq x z).0 e) at k)

between :
    (x y z : Row) (i n s : ℕ)
    → s ≤ n
    → less_from y x i n ≡ false
    → less_from z y i n ≡ false
    → equal_from x z i s ≡ true
    → equal_from x y i s ≡ true
unfolding equal_from less_from
between x y z i n zero le h k e = refl
between x y z i zero (suc s) le h k e = absurd (omega arith)
between x y z i (suc n) (suc s) le h k e =
    let (e1, e2) = and-true _ _ e in
    let (same, h1, k1) = between_place (cell x i) (cell y i) (cell z i) _ _ e1 h k in
    rw same (between x y z (suc i) n s (omega (arith, le)) h1 k1 e2)

module _ (graph_var_num select_var_num : ℕ) where
  between_tag :
      (y z : Row)
      → HasTag graph_var_num y
      → IsValid graph_var_num z
      → res_cmp graph_var_num z y ≡ false
      → IsValid graph_var_num y
  unfolding res_cmp
  between_tag y z (inl v) e h = v
  between_tag y z (inr v) e h = absurd (ground (arith, rw (v, e) at h))

  less-valid :
      (a b : Row)
      → IsValid graph_var_num a
      → IsValid graph_var_num b
      → res_cmp graph_var_num a b ≡ false
      → less_from a b 0 graph_var_num ≡ false
  unfolding res_cmp
  less-valid a b va vb h = rw (va, vb) at h

  pub between_res :
      (x y z : Row)
      → select_var_num ≤ graph_var_num
      → HasTag graph_var_num y
      → IsValid graph_var_num x
      → IsValid graph_var_num z
      → res_cmp graph_var_num y x ≡ false
      → res_cmp graph_var_num z y ≡ false
      → res_equal select_var_num x z ≡ true
      → res_equal select_var_num x y ≡ true
  between_res x y z le tag vx vz h k e =
      let vy = between_tag y z tag vz k in
      between x y z 0 graph_var_num select_var_num le (less-valid y x vy vx h)
        (less-valid z y vz vy k) e
