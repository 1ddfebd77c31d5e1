-- ===== src/Loading/Groups.antt =====
-- Runs of like elements in a list, gathered one after the other, against the elements of a key.
use t_rdf.Base.{
  ◌≡◌, refl, sym, ap, ◌∙◌, inl, inr, Bool, true, false, not, List, [], ◌∷◌, ◌++◌, append_assoc,
  Option, some, if◌then◌else◌, keep, arith, Bool-cases,
}

-- A list, or the value that stands for an empty one.
abbrev pub listed : {A : Type 0} → Option (List A) → List A → Option (List A)
listed d [] = d
listed d (x ∷ xs) = some (x ∷ xs)

listed-snoc :
    {A : Type 0} (d : Option (List A)) (xs : List A) (x : A)
    → listed d (xs ++ x ∷ []) ≡ some (xs ++ x ∷ [])
listed-snoc d [] x = refl
listed-snoc d (y ∷ xs) x = refl

module _ {A : Type 0} where
  keep-append : (p : A → Bool) (xs ys : List A) → keep p (xs ++ ys) ≡ keep p xs ++ keep p ys
  keep-append p [] ys = refl
  keep-append p (x ∷ xs) ys = elim (Bool-cases (p x)) [
    | inl e ↦ rw e (ap (λ r. x ∷ r) (keep-append p xs ys))
    | inr e ↦ rw e (keep-append p xs ys)
  ]

  keep_none_mono :
      (p q : A → Bool) (xs : List A)
      → ((x : A) → q x ≡ true → p x ≡ true)
      → keep p xs ≡ []
      → keep q xs ≡ []
  keep_none_mono p q [] h e = refl
  keep_none_mono p q (x ∷ xs) h e = elim (Bool-cases (q x)) [
    | inl y ↦ absurd (cc (rw (h x y) at e))
    | inr n ↦ rw n (elim (Bool-cases (p x)) [
      | inl y ↦ absurd (cc (rw y at e))
      | inr n' ↦ keep_none_mono p q xs h (rw n' at e)
    ])
  ]

-- `at k t` says that `t` has the key `k`, `same t u` that `t` and `u` have the same.
module _ {T K : Type 0} (at : K → T → Bool) (same : T → T → Bool) where
  abbrev pub ends : T → List T → Bool
  ends t [] = true
  ends t (u ∷ us) = not (same t u)

  abbrev pub emit : T → List T → (K → Option (List T)) → K → Option (List T)
  emit t group out k = if at k t then some group else out k

  -- `acc` is the run so far, and `out` has the runs that have ended.
  abbrev pub gather : (acc : List T) → List T → (out : K → Option (List T)) → K → Option (List T)
  gather acc [] out = out
  gather acc (t ∷ ts) out =
      gather (if ends t ts then [] else acc ++ t ∷ []) ts
        (if ends t ts then emit t (acc ++ t ∷ []) out else out)

  -- The elements with the same key stand together.
  abbrev pub IsGrouped : List T → Type 0
  IsGrouped [] = Unit {0}
  IsGrouped (t ∷ ts) = (ends t ts ≡ true → keep (same t) ts ≡ []) × IsGrouped ts

  abbrev pub AllSame : List T → T → Type 0
  AllSame [] t = Unit {0}
  AllSame (u ∷ us) t = (same u t ≡ true) × AllSame us t

  -- The run so far goes on with the list.
  abbrev pub GoesOn : List T → List T → Type 0
  GoesOn acc [] = acc ≡ []
  GoesOn acc (t ∷ ts) = AllSame acc t

  pub record IsKeyed : Type 0 where
    pub shared : (k : K) (t u : T) → same t u ≡ true → at k t ≡ at k u
    pub unique : (k : K) (t u : T) → at k t ≡ true → at k u ≡ true → same t u ≡ true
    pub transitive : (t u v : T) → same t u ≡ true → same u v ≡ true → same t v ≡ true

  module _ (keyed : IsKeyed) where
    keep_same :
        (k : K) (acc : List T) (t : T) → AllSame acc t → at k t ≡ true → keep (at k) acc ≡ acc
    keep_same k [] t h e = refl
    keep_same k (u ∷ us) t h e =
        rw (keyed.shared k u t h.0, e) (ap (λ r. u ∷ r) (keep_same k us t h.1 e))

    keep_other :
        (k : K) (acc : List T) (t : T) → AllSame acc t → at k t ≡ false → keep (at k) acc ≡ []
    keep_other k [] t h e = refl
    keep_other k (u ∷ us) t h e = rw (keyed.shared k u t h.0, e) (keep_other k us t h.1 e)

    AllSame-snoc :
        (acc : List T) (t u : T) → AllSame acc t → same t u ≡ true → AllSame (acc ++ t ∷ []) u
    AllSame-snoc [] t u h e = (e, tt)
    AllSame-snoc (v ∷ acc) t u h e = (keyed.transitive v t u h.0 e, AllSame-snoc acc t u h.1 e)

    goes_on :
        (acc : List T) (t : T) (ts : List T)
        → AllSame acc t
        → ends t ts ≡ false
        → GoesOn (acc ++ t ∷ []) ts
    goes_on acc t [] h e = cc (e)
    goes_on acc t (u ∷ us) h e = AllSame-snoc acc t u h (ground (arith, e))

    GoesOn-nil : (ts : List T) → GoesOn [] ts
    GoesOn-nil [] = refl
    GoesOn-nil (t ∷ ts) = tt

    -- A run that ends is all that the list has for its key.
    run_ends :
        (acc : List T) (t : T) (ts : List T) (out : K → Option (List T)) (k : K)
        → keep (same t) ts ≡ []
        → AllSame acc t
        → listed (emit t (acc ++ t ∷ []) out k) (keep (at k) ts)
          ≡ listed (out k) (keep (at k) (acc ++ t ∷ ts))
    run_ends acc t ts out k e h = elim (Bool-cases (at k t)) [
      | inl y ↦
          let none_left = keep_none_mono (same t) (at k) ts (λ u. keyed.unique k t u y) e in
          rw (y, none_left, keep-append (at k) acc (t ∷ ts), keep_same k acc t h y)
            (rw (y, none_left) (sym (listed-snoc (out k) acc t)))
      | inr n ↦ rw (n, keep-append (at k) acc (t ∷ ts), keep_other k acc t h n) (rw (n) refl)
    ]

    -- Where the elements with a key stand together, gathering the runs finds all of them.
    pub gather-keep :
        (acc ts : List T) (out : K → Option (List T)) (k : K)
        → IsGrouped ts
        → GoesOn acc ts
        → gather acc ts out k ≡ listed (out k) (keep (at k) (acc ++ ts))
    gather-keep acc [] out k g h = rw h refl
    gather-keep acc (t ∷ ts) out k g h = elim (Bool-cases (ends t ts)) [
      | inl e ↦ rw e (
          gather-keep [] ts (emit t (acc ++ t ∷ []) out) k g.1 (GoesOn-nil ts)
          ∙ run_ends acc t ts out k (g.0 e) h)
      | inr e ↦ rw e (
          gather-keep (acc ++ t ∷ []) ts out k g.1 (goes_on acc t ts h e)
          ∙ ap (λ r. listed (out k) (keep (at k) r)) (append_assoc acc (t ∷ []) ts))
    ]
