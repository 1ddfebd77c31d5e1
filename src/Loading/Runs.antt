-- ===== src/Loading/Runs.antt =====
-- Triples in the order of `_spo_cmp` or `_ops_cmp` of Database/Database.cpp: those of one subject, and
-- of one subject and predicate, stand together.
use native.Mathlib.Decide.{dec_lt}
use t_rdf.Base.{
  ℕ, ◌<◌, ◌≤◌, ◌≡◌, refl, sym, ap, ◌∙◌, inl, inr, ◌⊎◌, false, ◌&&◌, List, [], ◌∷◌, ◌==◌, ==_iff,
  keep, arith, Bool-cases,
}
use t_rdf.Base.Int.{ℤ}
use t_rdf.Loading.Compare.{IdTuple}
use t_rdf.Loading.Orders.{is_negative, Compares}
use t_rdf.Loading.Groups.{IsGrouped, IsKeyed}
use t_rdf.Loading.Storing.{has_sub, has_pair, same_sub, same_pair}

-- No triple of the list stands in front of an earlier one, by the subject and then the predicate.
module _ (sub pre : IdTuple → ℕ) where
  abbrev pub NoneBefore : IdTuple → List IdTuple → Type 0
  NoneBefore t [] = Unit {0}
  NoneBefore t (u ∷ us) = (sub t ≤ sub u) × (sub t ≡ sub u → pre t ≤ pre u) × NoneBefore t us

  abbrev pub InOrder : List IdTuple → Type 0
  InOrder [] = Unit {0}
  InOrder (t ∷ ts) = NoneBefore t ts × InOrder ts

  none_below :
      (t u : IdTuple) (us : List IdTuple)
      → NoneBefore u us
      → sub t < sub u
      → keep (same_sub sub t) us ≡ []
  none_below t u [] h lt = refl
  none_below t u (v ∷ us) h lt =
      let off : (sub t == sub v) ≡ false = ground (arith, h.0, lt) in
      rw off (none_below t u us h.2 lt)

  pub InOrder-subs : (ts : List IdTuple) → InOrder ts → IsGrouped (has_sub sub) (same_sub sub) ts
  InOrder-subs [] h = tt
  InOrder-subs (t ∷ []) h = ((λ e. refl), tt)
  InOrder-subs (t ∷ u ∷ us) h = (
    λ e.
        let off : (sub t == sub u) ≡ false = ground (arith, e) in
        let lt : sub t < sub u = ground (arith, off, h.0.0) in rw off (none_below t u us h.1.0 lt),
    InOrder-subs (u ∷ us) h.1,
  )

  no_pair_below :
      (t u : IdTuple) (us : List IdTuple)
      → NoneBefore u us
      → (sub t < sub u) ⊎ ((sub t ≡ sub u) × (pre t < pre u))
      → keep (same_pair sub pre t) us ≡ []
  no_pair_below t u [] h lt = refl
  no_pair_below t u (v ∷ us) h lt =
      let off : same_pair sub pre t v ≡ false = elim lt [
        | inl a ↦ ground (arith, h.0, a)
        | inr b ↦ elim (Bool-cases (sub t == sub v)) [
          | inl y ↦
              let same : sub u ≡ sub v = sym b.0 ∙ (==_iff (sub t) (sub v)).0 y in
              let further = h.1 same in ground (arith, y, b.1, further)
          | inr n ↦ rw n refl
        ]
      ] in
      rw off (no_pair_below t u us h.2 lt)

  pub InOrder-pairs :
      (ts : List IdTuple) → InOrder ts → IsGrouped (has_pair sub pre) (same_pair sub pre) ts
  InOrder-pairs [] h = tt
  InOrder-pairs (t ∷ []) h = ((λ e. refl), tt)
  InOrder-pairs (t ∷ u ∷ us) h = (
    λ e.
        let off : same_pair sub pre t u ≡ false = ground (arith, e) in
        let below : (sub t < sub u) ⊎ ((sub t ≡ sub u) × (pre t < pre u)) =
          elim (Bool-cases (sub t == sub u)) [
            | inl y ↦
                let same = (==_iff (sub t) (sub u)).0 y in
                let further = h.0.1 same in inr (same, ground (arith, y, off, further))
            | inr n ↦ inl (ground (arith, n, h.0.0))
          ] in
        rw off (no_pair_below t u us h.1.0 below),
    InOrder-pairs (u ∷ us) h.1,
  )

pub sub_keyed : (sub : IdTuple → ℕ) → IsKeyed (has_sub sub) (same_sub sub)
sub_keyed sub = record {
  shared = λ k t u e. ap (λ x. x == k) ((==_iff (sub t) (sub u)).0 e);
  unique = λ k t u e f. ground (arith, e, f);
  transitive = λ t u v e f. ground (arith, e, f);
}

pub pair_keyed : (sub pre : IdTuple → ℕ) → IsKeyed (has_pair sub pre) (same_pair sub pre)
pair_keyed sub pre = record {
  shared = λ k t u e.
      (let s : sub t ≡ sub u = ground (arith, e) in
        let p : pre t ≡ pre u = ground (arith, e) in λ i. (s i == k.0) && (p i == k.1));
  unique = λ k t u e f. ground (arith, e, f);
  transitive = λ t u v e f. ground (arith, e, f);
}

-- `qsort` leaves no element in front of an earlier one.
abbrev pub NoneFirst : (IdTuple → IdTuple → ℤ) → IdTuple → List IdTuple → Type 0
NoneFirst cmp t [] = Unit {0}
NoneFirst cmp t (u ∷ us) = (is_negative (cmp u t) ≡ false) × NoneFirst cmp t us

abbrev pub IsSortedBy : (IdTuple → IdTuple → ℤ) → List IdTuple → Type 0
IsSortedBy cmp [] = Unit {0}
IsSortedBy cmp (t ∷ ts) = NoneFirst cmp t ts × IsSortedBy cmp ts

module _ (cmp : IdTuple → IdTuple → ℤ) (k1 k2 k3 : IdTuple → ℕ)
    (orders : Compares cmp k1 k2 k3) where
  not_before :
      (t u : IdTuple) → is_negative (cmp u t) ≡ false → (k1 t ≤ k1 u) × (k1 t ≡ k1 u → k2 t ≤ k2 u)
  not_before t u h = (
    elim (dec_lt (k1 u) (k1 t)) [
      | yes lt ↦ absurd (cc (h, (orders.negative u t).1 (inl lt)))
      | no n ↦ omega (arith, n)
    ],
    λ e. elim (dec_lt (k2 u) (k2 t)) [
      | yes lt ↦ absurd (cc (h, (orders.negative u t).1 (inr (sym e, inl lt))))
      | no n ↦ omega (arith, n)
    ],
  )

  NoneFirst-NoneBefore :
      (t : IdTuple) (us : List IdTuple) → NoneFirst cmp t us → NoneBefore k1 k2 t us
  NoneFirst-NoneBefore t [] h = tt
  NoneFirst-NoneBefore t (u ∷ us) h =
      let (le, further) = not_before t u h.0 in (le, further, NoneFirst-NoneBefore t us h.1)

  pub IsSortedBy-InOrder : (ts : List IdTuple) → IsSortedBy cmp ts → InOrder k1 k2 ts
  IsSortedBy-InOrder [] h = tt
  IsSortedBy-InOrder (t ∷ ts) h = (NoneFirst-NoneBefore t ts h.0, IsSortedBy-InOrder ts h.1)
