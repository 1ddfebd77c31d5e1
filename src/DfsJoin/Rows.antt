-- ===== src/DfsJoin/Rows.antt =====
-- `generateBN` of Database/Database.cpp: which edges stand in the row of a place of the order.
use t_rdf.Base.{
  ℕ, zero, suc, ◌+◌, ◌-◌, ◌≤◌, ◌<◌, ◌≡◌, ◌↔◌, ◌⊎◌, inl, inr, refl, sym, ap, Bool, true, false, List,
  [], ◌∷◌, ◌==◌, get_or, arith, Bool-cases, ==_iff,
}
use t_rdf.Base.Int.{ℤ, pos, negsuc}
use t_rdf.Query.Basic.{BasicQuery, put}
use t_rdf.DfsJoin.Backward.{is_visited, bn_row}

pub pos-inj : (a b : ℕ) → pos a ≡ pos b → a ≡ b
pos-inj a b e = cc

pub pos-negsuc {ℓ} : {A : Type ℓ} (a b : ℕ) → negsuc a ≡ pos b → A
pos-negsuc a b e = absurd (cc)

-- A number stands in a list.
abbrev pub Member : ℕ → List ℕ → Type 0
Member x [] = ⊥
Member x (y ∷ ys) = (y ≡ x) ⊎ Member x ys

module _ (query : BasicQuery) (order : ℕ → ℕ) where
  -- The visited variables are those of the first `i` places.
  pub record Visits (visited : ℕ → Bool) (i : ℕ) : Type 0 where
    pub to : (v : ℕ) → visited v ≡ true → (k : ℕ) × ((k < i) × (order k ≡ v))
    pub from : (k : ℕ) → k < i → visited (order k) ≡ true

  pub Visits-put :
      (visited : ℕ → Bool) (i : ℕ) → Visits visited i → Visits (put visited (order i) true) (suc i)
  Visits-put visited i h = record {
    to = λ v e. elim (Bool-cases (order i == v)) [
      | inl same ↦ (i, (omega arith, (==_iff (order i) v).0 same))
      | inr other ↦
          let old : visited v ≡ true = rw other at e in
          let (k, place) = h.to v old in (k, (omega (arith, place.0), place.1))
    ];
    from = λ k lt. elim (Bool-cases (order i == order k)) [
      | inl same ↦ rw same refl
      | inr other ↦
          let earlier : k < i = elim (Bool-cases (k == i)) [
            | inl e ↦ absurd (ground (arith, ap order ((==_iff k i).0 e), other))
            | inr e ↦ ground (arith, e, lt)
          ] in
          rw other (h.from k earlier)
    ];
  }

  -- The edge leads to the variable of an earlier place.
  abbrev pub LeadsBack : (d idx : ℕ) → Type 0
  LeadsBack d idx = (k : ℕ) × ((k < d) × (query.edge_nei_id (order d) idx ≡ pos (order k)))

  pub is_visited-LeadsBack :
      (visited : ℕ → Bool) (d : ℕ) (nei : ℤ)
      → Visits visited d
      → (is_visited visited nei ≡ true) ↔ ((k : ℕ) × ((k < d) × (nei ≡ pos (order k))))
  is_visited-LeadsBack visited d (pos v) h = (
    λ e. let (k, place) = h.to v e in (k, (place.0, ap pos (sym place.1))),
    λ found.
        let (k, place) = found in
        let same : v ≡ order k = pos-inj v (order k) place.1 in rw same (h.from k place.0),
  )
  is_visited-LeadsBack visited d (negsuc m) h = (
    λ e. absurd (ground (arith, e)),
    λ found. let (k, place) = found in pos-negsuc m (order k) place.1,
  )

  pub bn_row-Member :
      (visited : ℕ → Bool) (var rounds s idx : ℕ)
      → Member idx (bn_row query order visited var rounds s)
        ↔ ((s ≤ idx) × (idx < s + rounds) × (is_visited visited (query.edge_nei_id var idx) ≡ true))
  unfolding bn_row
  bn_row-Member visited var zero s idx = (λ h. elim h [ ], λ h. absurd (omega (arith, h.0, h.1)))
  bn_row-Member visited var (suc rounds) s idx =
      let ih = bn_row-Member visited var rounds (suc s) idx in
      let here = is_visited visited (query.edge_nei_id var s) in
      let Spec : Type 0 =
        (s ≤ idx)
        × (idx < s + suc rounds)
        × (is_visited visited (query.edge_nei_id var idx) ≡ true) in
      let later : Member idx (bn_row query order visited var rounds (suc s)) → Spec =
        λ m. let h = ih.0 m in (omega (arith, h.0), omega (arith, h.1), h.2) in
      let beyond : Spec
          → (s == idx) ≡ false
          → Member idx (bn_row query order visited var rounds (suc s)) =
        λ h n. ih.1 ((ground (arith, h.0, n), omega (arith, h.1), h.2)) in
      elim (Bool-cases here) [
        | inl on ↦ rw on (
          λ m. elim m [
            | inl e ↦ let on_idx = rw e at on in (omega (arith, e), omega (arith, e), on_idx)
            | inr k ↦ later k
          ],
          λ h. elim (Bool-cases (s == idx)) [
            | inl e ↦ inl ((==_iff s idx).0 e)
            | inr e ↦ inr (beyond h e)
          ],
        )
        | inr off ↦ rw off (
          later,
          λ h. beyond h (elim (Bool-cases (s == idx)) [
            | inl e ↦
                let same = (==_iff s idx).0 e in
                let off_idx = rw same at off in absurd (ground (arith, off_idx, h.2))
            | inr e ↦ e
          ]),
        )
      ]

  -- The rows, were they without an end.
  unfoldable pub rows_of : (visited : ℕ → Bool) (rounds i : ℕ) → List (List ℕ)
  rows_of visited zero i = []
  rows_of visited (suc rounds) i =
      bn_row query order visited (order i) (query.var_degree (order i)) 0
      ∷ rows_of (put visited (order i) true) rounds (suc i)

  rows_of-Visits :
      (visited : ℕ → Bool) (rounds i m : ℕ)
      → m < rounds
      → Visits visited i
      → (now : ℕ → Bool) × (Visits now (i + m)
          × (get_or (rows_of visited rounds i) m []
              ≡ bn_row query order now (order (i + m)) (query.var_degree (order (i + m))) 0))
  unfolding rows_of
  rows_of-Visits visited zero i m lt h = absurd (omega (arith, lt))
  rows_of-Visits visited (suc rounds) i zero lt h =
      let same : i + 0 ≡ i = omega arith in rw same (visited, (h, refl))
  rows_of-Visits visited (suc rounds) i (suc m) lt h =
      let same : i + suc m ≡ suc i + m = omega arith in
      rw same (
        rows_of-Visits (put visited (order i) true) rounds (suc i) m (omega (arith, lt))
          (Visits-put visited i h))

  abbrev pub first_visited : ℕ → Bool
  first_visited = put (λ v. false) (order 0) true

  pub first_visited-Visits : Visits first_visited 1
  first_visited-Visits =
      Visits-put (λ v. false) 0
        (record { to = λ v e. absurd (ground (arith, e)); from = λ k h. absurd (omega (arith, h)) })

  -- The row of a place is the edges of its variable that lead back.
  pub rows-LeadsBack :
      (var_num d idx : ℕ)
      → d < var_num
      → Member idx (get_or ([] ∷ rows_of first_visited (var_num - 1) 1) d [])
        ↔ ((idx < query.var_degree (order d)) × LeadsBack d idx)
  rows-LeadsBack var_num zero idx lt =
      (λ h. elim h [ ], λ h. let (k, place) = h.1 in absurd (omega (arith, place.0)))
  rows-LeadsBack var_num (suc d) idx lt =
      let (now, found) =
        rows_of-Visits first_visited (var_num - 1) 1 d (omega (arith, lt)) first_visited-Visits in
      let place : 1 + d ≡ suc d = omega arith in
      let visits : Visits now (suc d) = rw place at found.0 in
      let row = rw place at found.1 in
      let member = bn_row-Member now (order (suc d)) (query.var_degree (order (suc d))) 0 idx in
      let back = is_visited-LeadsBack now (suc d) (query.edge_nei_id (order (suc d)) idx) visits in
      rw row (
        λ m. let h = member.0 m in (omega (arith, h.1), back.0 h.2),
        λ h. member.1 ((omega arith, omega (arith, h.0), back.1 h.1)),
      )
