-- ===== src/IdList/Intersect.antt =====
-- The in-place loop of `intersectList` in Query/IDList.cpp.
use t_rdf.Base.{
  ℕ, zero, suc, ◌+◌, ◌-◌, ◌≤◌, ◌<◌, ◌≡◌, refl, sym, ap, ◌∙◌, inl, inr, List, [], ◌∷◌, ◌++◌,
  append-nil, append_assoc, arith, ltb, lt→ltb, ◌==◌, Bool-cases, keep, length, get_or, set, take,
  drop, drop-all, drop-cons, drop-set, take-set, length-set, length-take,
}
use t_rdf.Base.Sets.{mem, IsAscending}
use t_rdf.IdList.Ops.{
  IdList, skip_below, intersect_loop, intersect_list, intersect_ids, copy_ids_lem,
}
use t_rdf.IdList.Meet.{skip, skip-less, skip-more, skip-nil, meet, meet-nil, meet-cons, meet-keep}

module _ (list : List ℕ) (x : ℕ) where
  skip_below-skip :
      (k i : ℕ) → length list ≡ i + k → drop (skip_below list x k i) list ≡ skip x (drop i list)
  unfolding skip_below
  skip_below-skip zero i e = rw (drop-all i list (omega arith), skip-nil x)
  skip_below-skip (suc k) i e =
      let cons = drop-cons i list (omega arith) in
      let lt = lt→ltb i (length list) (omega arith) in
      elim (Bool-cases (ltb (get_or list i 0) x)) [
        | inl less ↦
            rw (lt, less)
              (skip_below-skip k (suc i) (omega arith)
                ∙ sym (ap (skip x) cons ∙ skip-less x (get_or list i 0) (drop (suc i) list) less))
        | inr more ↦
            rw (lt, more)
              (cons
                ∙ sym (ap (skip x) cons ∙ skip-more x (get_or list i 0) (drop (suc i) list) more))
      ]

  skip_below-le : (k i : ℕ) → length list ≡ i + k → skip_below list x k i ≤ length list
  unfolding skip_below
  skip_below-le zero i e = omega arith
  skip_below-le (suc k) i e = ground (arith, skip_below-le k (suc i))

-- The kept front of the vector grows by the intersection of what is left.
abbrev Extends : (ids : IdList) (front more : List ℕ) → IdList × ℕ → Type 0
Extends ids front more r =
    (take r.1 r.0 ≡ front ++ more) × (r.1 ≤ length r.0) × (length r.0 ≡ length ids)

-- The write at `imf` puts `x` behind the front, and leaves what the loop still reads.
Extends-set :
    (list : List ℕ) (k it j imf : ℕ) (ids : IdList) (x : ℕ) (r : IdList × ℕ)
    → length ids ≡ it + suc k
    → imf ≤ it
    → j < length list
    → Extends
        (set ids imf x)
        (take (suc imf) (set ids imf x))
        (meet (drop (suc it) (set ids imf x)) (drop (suc j) list))
        r
    → Extends ids (take imf ids) (x ∷ meet (drop (suc it) ids) (drop (suc j) list)) r
Extends-set list k it j imf ids x r e le lt h =
    let more = meet (drop (suc it) ids) (drop (suc j) list) in
    let front = take-set imf ids x (omega arith) in
    let same = drop-set (suc it) imf ids x (omega arith) in
    (
      h.0
          ∙ ap (λ f. f ++ meet (drop (suc it) (set ids imf x)) (drop (suc j) list)) front
          ∙ ap (λ s. (take imf ids ++ (x ∷ [])) ++ meet s (drop (suc j) list)) same
          ∙ append_assoc (take imf ids) (x ∷ []) more,
      h.1,
      h.2 ∙ length-set ids imf x,
    )

module _ (list : List ℕ) where
  intersect_loop-Extends :
      (k it i imf : ℕ) (ids : IdList)
      → length ids ≡ it + k
      → imf ≤ it
      → i ≤ length list
      → Extends ids
          (take imf ids)
          (meet (drop it ids) (drop i list))
          (intersect_loop list k ids it i imf)
  unfolding intersect_loop
  intersect_loop-Extends zero it i imf ids e le lt = (
    rw (drop-all it ids (omega arith), meet-nil (drop i list), append-nil (take imf ids)),
    omega arith,
    refl,
  )
  intersect_loop-Extends (suc k) it i imf ids e le lt =
      let x = get_or ids it 0 in
      let xs = drop (suc it) ids in
      let j = skip_below list x (length list - i) i in
      let skipped = skip_below-skip list x (length list - i) i (omega arith) in
      let j_le = skip_below-le list x (length list - i) i (omega arith) in
      rw (drop-cons it ids (omega arith)) (elim (Bool-cases (j == length list)) [
        | inl over ↦
            let end = sym skipped ∙ drop-all j list (ground arith) in
            rw (over, meet-cons x xs (drop i list) [] end, append-nil (take imf ids))
              (refl, omega arith, refl)
        | inr inside ↦
            let cons = drop-cons j list (ground arith) in
            rw (inside, meet-cons x xs (drop i list) _ (sym skipped ∙ cons))
              (elim (Bool-cases (x == get_or list j 0)) [
                | inl hit ↦ rw hit (
                    Extends-set list k it j imf ids x _ e le (ground arith) (
                      intersect_loop-Extends k (suc it) (suc j) (suc imf) (set ids imf x)
                        (omega (arith, length-set ids imf x)) (omega arith) (ground arith)))
                | inr miss ↦
                    rw (miss, ← cons)
                      (intersect_loop-Extends k (suc it) j imf ids (omega arith) (omega arith) j_le)
              ])
      ])

-- What `intersectList` leaves on ascending lists: the ids that are in the other list, in order.
abbrev pub common : List ℕ → List ℕ → List ℕ
common ids list = keep (λ x. mem x list) ids

-- On ascending lists the in-place loop leaves exactly the ids that also stand in the other
-- list, in order, and the number returned is the number of ids that are gone.
pub intersect_list-common :
    (ids list : List ℕ)
    → IsAscending ids
    → IsAscending list
    → ((intersect_list ids list).0 ≡ common ids list)
      × ((intersect_list ids list).1 + length (common ids list) ≡ length ids)
unfolding intersect_list
intersect_list-common ids list a b =
    let h =
      intersect_loop-Extends list (length ids) 0 0 0 ids (omega arith) (omega arith)
        (omega arith) in
    let kept = h.0 ∙ meet-keep ids list a b in
    let n = length-take _ _ h.1 in (kept, omega (arith, ap length kept, n))

-- The overload on `IDList` does what the one on an array does.
pub intersect_ids-intersect_list :
    (ids other : IdList) → intersect_ids ids other ≡ intersect_list ids other
unfolding intersect_ids
intersect_ids-intersect_list ids other = ap (intersect_list ids) (copy_ids_lem other)
