-- ===== src/Loading/Rising.antt =====
-- The ids of a predicate that `p2s_p2o` of Database/Database.cpp keeps, for triples in their order.
use t_rdf.Base.{
  ℕ, ◌<◌, ◌≤◌, ◌≡◌, sym, ◌∙◌, inl, inr, true, false, ◌||◌, List, [], ◌∷◌, ◌++◌, map, ◌==◌, ==_iff,
  keep, arith, Bool-cases,
}
use t_rdf.Base.Sets.{mem, IsBelow, IsAscending}
use t_rdf.Loading.Compare.{IdTuple}
use t_rdf.Loading.Predicates.{ends_with, add_new}
use t_rdf.Loading.PreLists.{distinct_ids}
use t_rdf.Loading.Runs.{NoneBefore, InOrder}
use t_rdf.Loading.Turns.{has_pre}

abbrev pub AllLe : ℕ → List ℕ → Type 0
AllLe x [] = Unit {0}
AllLe x (y ∷ ys) = (y ≤ x) × AllLe x ys

abbrev AllLt : ℕ → List ℕ → Type 0
AllLt x [] = Unit {0}
AllLt x (y ∷ ys) = (y < x) × AllLt x ys

AllLe-mono : (x z : ℕ) (ys : List ℕ) → x ≤ z → AllLe x ys → AllLe z ys
AllLe-mono x z [] h k = tt
AllLe-mono x z (y ∷ ys) h k = (omega (arith, k.0), AllLe-mono x z ys h k.1)

AllLe-snoc : (x z : ℕ) (ys : List ℕ) → x ≤ z → AllLe x ys → AllLe z (ys ++ x ∷ [])
AllLe-snoc x z [] h k = (h, tt)
AllLe-snoc x z (y ∷ ys) h k = (omega (arith, k.0), AllLe-snoc x z ys h k.1)

IsBelow-snoc : (y x : ℕ) (ys : List ℕ) → IsBelow y ys → y < x → IsBelow y (ys ++ x ∷ [])
IsBelow-snoc y x [] h k = (k, tt)
IsBelow-snoc y x (z ∷ ys) h k = (h.0, IsBelow-snoc y x ys h.1 k)

IsAscending-snoc : (xs : List ℕ) (x : ℕ) → IsAscending xs → AllLt x xs → IsAscending (xs ++ x ∷ [])
IsAscending-snoc [] x h k = (tt, tt)
IsAscending-snoc (y ∷ ys) x h k = (IsBelow-snoc y x ys h.0 k.0, IsAscending-snoc ys x h.1 k.1)

mem-snoc : (y x : ℕ) (xs : List ℕ) → mem y (xs ++ x ∷ []) ≡ (mem y xs || (x == y))
mem-snoc y x [] = ground arith
mem-snoc y x (z ∷ xs) = ground (arith, mem-snoc y x xs)

ends_with-mem : (xs : List ℕ) (x : ℕ) → ends_with xs x ≡ true → mem x xs ≡ true
unfolding ends_with
ends_with-mem [] x h = cc (h)
ends_with-mem (y ∷ []) x h = ground (arith, h)
ends_with-mem (y ∷ z ∷ ys) x h = ground (arith, ends_with-mem (z ∷ ys) x h)

ends_with-AllLt :
    (xs : List ℕ) (x : ℕ) → IsAscending xs → AllLe x xs → ends_with xs x ≡ false → AllLt x xs
unfolding ends_with
ends_with-AllLt [] x h k e = tt
ends_with-AllLt (y ∷ []) x h k e = (ground (arith, k.0, e), tt)
ends_with-AllLt (y ∷ z ∷ ys) x h k e =
    (omega (arith, h.0.0, k.1.0), ends_with-AllLt (z ∷ ys) x h.1 k.1 e)

add_new-IsAscending :
    (xs : List ℕ) (x : ℕ)
    → IsAscending xs
    → AllLe x xs
    → IsAscending (add_new xs x)
      × ((y : ℕ) → mem y (add_new xs x) ≡ (mem y xs || (x == y)))
      × ((z : ℕ) → x ≤ z → AllLe z (add_new xs x))
unfolding add_new
add_new-IsAscending xs x h k = elim (Bool-cases (ends_with xs x)) [
  | inl e ↦ rw e (
    h,
    λ y. elim (Bool-cases (x == y)) [
      | inl s ↦
          (let same = (==_iff x y).0 s in
            let here = ends_with-mem xs x e in rw (s, sym same) (ground (arith, here)))
      | inr n ↦ rw n (ground arith)
    ],
    λ z le. AllLe-mono x z xs le k,
  )
  | inr e ↦ rw e (
    IsAscending-snoc xs x h (ends_with-AllLt xs x h k e),
    λ y. mem-snoc y x xs,
    λ z le. AllLe-snoc x z xs le k,
  )
]

module _ (id : IdTuple → ℕ) where
  abbrev AtLeast : ℕ → List IdTuple → Type 0
  AtLeast x [] = Unit {0}
  AtLeast x (u ∷ us) = (x ≤ id u) × AtLeast x us

  abbrev Rising : List IdTuple → Type 0
  Rising [] = Unit {0}
  Rising (t ∷ ts) = AtLeast (id t) ts × Rising ts

  abbrev Bounded : List ℕ → List IdTuple → Type 0
  Bounded xs [] = Unit {0}
  Bounded xs (t ∷ ts) = AllLe (id t) xs

  bounded_next :
      (xs : List ℕ) (t : IdTuple) (ts : List IdTuple)
      → AtLeast (id t) ts
      → ((z : ℕ) → id t ≤ z → AllLe z xs)
      → Bounded xs ts
  bounded_next xs t [] h k = tt
  bounded_next xs t (u ∷ us) h k = k (id u) h.0

  distinct_ids-IsAscending :
      (xs : List ℕ) (ts : List IdTuple)
      → IsAscending xs
      → Bounded xs ts
      → Rising ts
      → IsAscending (distinct_ids id xs ts)
        × ((y : ℕ) → mem y (distinct_ids id xs ts) ≡ (mem y xs || mem y (map id ts)))
  unfolding distinct_ids
  distinct_ids-IsAscending xs [] h b r = (h, λ y. ground arith)
  distinct_ids-IsAscending xs (t ∷ ts) h b r =
      let (asc, has, le) = add_new-IsAscending xs (id t) h b in
      let (asc', has') =
        distinct_ids-IsAscending (add_new xs (id t)) ts asc
          (bounded_next (add_new xs (id t)) t ts r.0 le) r.1 in
      (asc', λ y. has' y ∙ ground (arith, has y))

  AtLeast-keep :
      (p : ℕ) (t : IdTuple) (ts : List IdTuple)
      → t.pre_id ≡ p
      → NoneBefore (λ u. u.pre_id) id t ts
      → AtLeast (id t) (keep (has_pre p) ts)
  AtLeast-keep p t [] e h = tt
  AtLeast-keep p t (u ∷ us) e h = elim (Bool-cases (has_pre p u)) [
    | inl y ↦ rw y (h.1 (e ∙ sym ((==_iff u.pre_id p).0 y)), AtLeast-keep p t us e h.2)
    | inr n ↦ rw n (AtLeast-keep p t us e h.2)
  ]

  Rising-keep :
      (p : ℕ) (ts : List IdTuple) → InOrder (λ u. u.pre_id) id ts → Rising (keep (has_pre p) ts)
  Rising-keep p [] h = tt
  Rising-keep p (t ∷ ts) h = elim (Bool-cases (has_pre p t)) [
    | inl y ↦ rw y (AtLeast-keep p t ts ((==_iff t.pre_id p).0 y) h.0, Rising-keep p ts h.1)
    | inr n ↦ rw n (Rising-keep p ts h.1)
  ]

  -- A list has the ids of the triples with a predicate, each once, in ascending order.
  abbrev pub IsListOf : (p : ℕ) → List IdTuple → List ℕ → Type 0
  IsListOf p ts xs = IsAscending xs × ((y : ℕ) → mem y xs ≡ mem y (map id (keep (has_pre p) ts)))

  pub distinct_ids-IsListOf :
      (p : ℕ) (ts : List IdTuple)
      → InOrder (λ u. u.pre_id) id ts
      → IsListOf p ts (distinct_ids id [] (keep (has_pre p) ts))
  distinct_ids-IsListOf p ts h =
      distinct_ids-IsAscending [] (keep (has_pre p) ts) tt (start (keep (has_pre p) ts))
        (Rising-keep p ts h)
    where
      start : (us : List IdTuple) → Bounded [] us
      start [] = tt
      start (u ∷ us) = tt
