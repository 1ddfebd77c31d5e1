-- ===== src/DfsJoin/Built.antt =====
-- `generateBN` of Database/Database.cpp: the rows that it makes, inside their arrays.
use t_rdf.Base.{
  ◌⊎◌, ℕ, zero, suc, ◌+◌, ◌-◌, ◌≤◌, ◌<◌, ◌≡◌, ◌↔◌, inl, inr, refl, Bool, true, false, List, [], ◌∷◌,
  ltb, length, get_or, arith, Bool-cases,
}
use t_rdf.Base.Run.{done, out_of_bounds}
use t_rdf.Base.Sets.{IsBelow, IsAscending}
use t_rdf.Query.Basic.{BasicQuery, put}
use t_rdf.DfsJoin.Backward.{is_visited, bn_row, store_row, bn_rows, generate_bn}
use t_rdf.DfsJoin.Rows.{
  Member, Visits, Visits-put, LeadsBack, is_visited-LeadsBack, bn_row-Member, rows_of,
  first_visited, first_visited-Visits, rows-LeadsBack,
}

-- Ascending numbers below `n` are at most `n`.
length-IsAscending :
    (js : List ℕ) (a n : ℕ)
    → IsAscending js
    → ((j : ℕ) → Member j js → (a ≤ j) × (j < n))
    → length js + a ≤ n ⊎ (js ≡ [])
length-IsAscending [] a n h k = inr refl
length-IsAscending (j ∷ js) a n h k =
    inl (elim (length-IsAscending js (suc j) n h.1 (λ i m. (below j js h.0 i m, (k i (inr m)).1))) [
      | inl e ↦ omega (arith, e, (k j (inl refl)).0)
      | inr none ↦ rw none (omega (arith, (k j (inl refl)).0, (k j (inl refl)).1))
    ])
  where
    below : (j : ℕ) (js : List ℕ) → IsBelow j js → (i : ℕ) → Member i js → suc j ≤ i
    below j [] h i m = elim m [ ]
    below j (x ∷ js) h i (inl e) = omega (arith, h.0, e)
    below j (x ∷ js) h i (inr m) = below j js h.1 i m

pub length_below :
    (js : List ℕ) (n : ℕ) → IsAscending js → ((j : ℕ) → Member j js → j < n) → length js ≤ n
length_below js n h k = elim (length-IsAscending js 0 n h (λ j m. (omega arith, k j m))) [
  | inl e ↦ omega (arith, e)
  | inr none ↦ rw none (omega arith)
]

module _ (query : BasicQuery) (order : ℕ → ℕ) where
  bn_row-IsBelow :
      (visited : ℕ → Bool) (var rounds s a : ℕ)
      → a < s
      → IsBelow a (bn_row query order visited var rounds s)
  unfolding bn_row
  bn_row-IsBelow visited var zero s a h = tt
  bn_row-IsBelow visited var (suc rounds) s a h =
      let rest = bn_row-IsBelow visited var rounds (suc s) a (omega (arith, h)) in
      elim (Bool-cases (is_visited visited (query.edge_nei_id var s))) [
        | inl on ↦ rw on (h, rest)
        | inr off ↦ rw off rest
      ]

  bn_row-IsAscending :
      (visited : ℕ → Bool) (var rounds s : ℕ)
      → IsAscending (bn_row query order visited var rounds s)
  unfolding bn_row
  bn_row-IsAscending visited var zero s = tt
  bn_row-IsAscending visited var (suc rounds) s =
      let rest = bn_row-IsAscending visited var rounds (suc s) in
      elim (Bool-cases (is_visited visited (query.edge_nei_id var s))) [
        | inl on ↦ rw on (bn_row-IsBelow visited var rounds (suc s) s (omega arith), rest)
        | inr off ↦ rw off rest
      ]

  -- No place of the order has more than `var_num` edges that lead back.
  abbrev pub RowsHaveRoom : (var_num : ℕ) → Type 0
  RowsHaveRoom var_num =
      (d : ℕ)
      → d < var_num
      → (js : List ℕ) → IsAscending js
      → ((j : ℕ) → Member j js → (j < query.var_degree (order d)) × LeadsBack query order d j)
      → length js ≤ var_num

  store_row_room :
      (var_num : ℕ) (row : List ℕ)
      → length row ≤ var_num
      → store_row query order var_num row ≡ done row
  store_row_room var_num row h =
      let fits : ltb var_num (length row) ≡ false = ground (arith, h) in rw fits refl

  bn_rows-rows_of :
      (var_num : ℕ) (visited : ℕ → Bool) (rounds i : ℕ)
      → RowsHaveRoom var_num
      → i + rounds ≤ var_num
      → Visits query order visited i
      → bn_rows query order var_num visited rounds i ≡ done (rows_of query order visited rounds i)
  unfolding bn_rows rows_of
  bn_rows-rows_of var_num visited zero i room le h = refl
  bn_rows-rows_of var_num visited (suc rounds) i room le h =
      let var = order i in
      let row = bn_row query order visited var (query.var_degree var) 0 in
      let fits : length row ≤ var_num =
        room i (omega (arith, le)) row (bn_row-IsAscending visited var (query.var_degree var) 0)
          (λ j m.
            let at = (bn_row-Member query order visited var (query.var_degree var) 0 j).0 m in
            (
              omega (arith, at.1),
              (is_visited-LeadsBack query order visited i (query.edge_nei_id var j) h).0 at.2,
            )) in
      rw
        (
          store_row_room var_num row fits,
          bn_rows-rows_of var_num (put visited var true) rounds (suc i) room (omega (arith, le))
              (Visits-put query order visited i h),
        )
        refl

  store_row-cases :
      (var_num : ℕ) (row : List ℕ)
      → (store_row query order var_num row ≡ done row)
        ⊎ (store_row query order var_num row ≡ out_of_bounds)
  store_row-cases var_num row = elim (Bool-cases (ltb var_num (length row))) [
    | inl e ↦ inr (rw e refl)
    | inr e ↦ inl (rw e refl)
  ]

  -- Where the loop ends, it has made these rows.
  bn_rows-done :
      (var_num : ℕ) (visited : ℕ → Bool) (rounds i : ℕ)
      → (bn_rows query order var_num visited rounds i ≡ done (rows_of query order visited rounds i))
        ⊎ (bn_rows query order var_num visited rounds i ≡ out_of_bounds)
  unfolding bn_rows rows_of
  bn_rows-done var_num visited zero i = inl refl
  bn_rows-done var_num visited (suc rounds) i =
      let var = order i in
      elim (store_row-cases var_num (bn_row query order visited var (query.var_degree var) 0)) [
        | inl e ↦ elim (bn_rows-done var_num (put visited var true) rounds (suc i)) [
          | inl k ↦ inl (rw (e, k) refl)
          | inr k ↦ inr (rw (e, k) refl)
        ]
        | inr e ↦ inr (rw e refl)
      ]

  -- The rows that `generateBN` has made list the edges that lead back.
  pub built-LeadsBack :
      (var_num : ℕ) (bn : List (List ℕ)) (d idx : ℕ)
      → generate_bn query order var_num ≡ done bn
      → d < var_num
      → Member idx (get_or bn d [])
        ↔ ((idx < query.var_degree (order d)) × LeadsBack query order d idx)
  unfolding generate_bn
  built-LeadsBack var_num bn d idx e lt =
      elim (bn_rows-done var_num (first_visited query order) (var_num - 1) 1) [
        | inl k ↦
            let same : done ([] ∷ rows_of query order (first_visited query order) (var_num - 1) 1)
                ≡ done bn =
              rw k at e in
            let rows : [] ∷ rows_of query order (first_visited query order) (var_num - 1) 1 ≡ bn =
              done-inj same in
            let listed = rows-LeadsBack query order var_num d idx lt in rw rows at listed
        | inr k ↦ let same : out_of_bounds ≡ done bn = rw k at e in absurd (cc (same))
      ]
    where
      done-inj : {x y : List (List ℕ)} → done x ≡ done y → x ≡ y
      done-inj e = cc

  -- If no place of the order has more edges to variables of earlier places than there are
  -- variables, `generateBN` stays inside its rows, and for every place of the order lists exactly
  -- the edges of its variable that lead to the variable of an earlier place.
  pub generate_bn-LeadsBack :
      (var_num : ℕ)
      → 0 < var_num
      → RowsHaveRoom var_num
      → (bn : List (List ℕ)) × (generate_bn query order var_num ≡ done bn)
        × ((d idx : ℕ)
            → d < var_num
            → Member idx (get_or bn d [])
              ↔ ((idx < query.var_degree (order d)) × LeadsBack query order d idx))
  unfolding generate_bn
  generate_bn-LeadsBack var_num some_var room =
      let rows = rows_of query order (first_visited query order) (var_num - 1) 1 in
      let made =
        bn_rows-rows_of var_num (first_visited query order) (var_num - 1) 1 room
          (omega (arith, some_var)) (first_visited-Visits query order) in
      ([] ∷ rows, rw made refl, λ d idx lt. rows-LeadsBack query order var_num d idx lt)
