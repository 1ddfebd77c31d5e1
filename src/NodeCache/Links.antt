-- ===== src/NodeCache/Links.antt =====
-- The doubly linked list of VSTree/LRUCache.cpp: the arrays `next` and `prev` along a list of places.
use t_rdf.Base.{
  ◌≡◌, ◌≢◌, refl, sym, ap, ◌∙◌, ◌⊎◌, inl, inr, true, false, List, [], ◌∷◌, ◌++◌, arith, ==_iff,
  Bool-cases,
}
use t_rdf.Base.Int.{ℤ, pos, negsuc, eq_ℤ}
use t_rdf.NodeCache.Defs.{write}

pub eq_ℤ-true : (a b : ℤ) → eq_ℤ a b ≡ true → a ≡ b
eq_ℤ-true (pos a) (pos b) h = ap pos ((==_iff a b).0 h)
eq_ℤ-true (pos a) (negsuc b) h = cc
eq_ℤ-true (negsuc a) (pos b) h = cc
eq_ℤ-true (negsuc a) (negsuc b) h = ap negsuc ((==_iff a b).0 h)

pub eq_ℤ-self : (a : ℤ) → eq_ℤ a a ≡ true
eq_ℤ-self (pos a) = ground arith
eq_ℤ-self (negsuc a) = ground arith

pub eq_ℤ-false : (a b : ℤ) → a ≢ b → eq_ℤ a b ≡ false
eq_ℤ-false a b h = elim (Bool-cases (eq_ℤ a b)) [ inl e ↦ absurd (h (eq_ℤ-true a b e)) | inr e ↦ e ]

pub ℤ-cases : (a b : ℤ) → (a ≡ b) ⊎ (a ≢ b)
ℤ-cases a b = elim (Bool-cases (eq_ℤ a b)) [
  | inl e ↦ inl (eq_ℤ-true a b e)
  | inr n ↦ inr (λ (e : a ≡ b). let same : eq_ℤ a b ≡ true = rw e (eq_ℤ-self b) in cc (n, same))
]

module _ {A : Type 0} (f : ℤ → A) (i : ℤ) (a : A) where
  pub write_self : write f i a i ≡ a
  write_self = rw (eq_ℤ-self i) refl

  pub write_ne : (j : ℤ) → i ≢ j → write f i a j ≡ f j
  write_ne j h = rw (eq_ℤ-false i j h) refl

abbrev pub Avoids : ℤ → List ℤ → Type 0
Avoids z [] = Unit {0}
Avoids z (y ∷ ys) = (z ≢ y) × Avoids z ys

abbrev pub Distinct : List ℤ → Type 0
Distinct [] = Unit {0}
Distinct (x ∷ xs) = Avoids x xs × Distinct xs

abbrev pub last : ℤ → List ℤ → ℤ
last x [] = x
last x (y ∷ ys) = last y ys

-- From `x` the links lead through the list, both ways.
abbrev pub Follows : (next prev : ℤ → ℤ) → ℤ → List ℤ → Type 0
Follows next prev x [] = Unit {0}
Follows next prev x (y ∷ ys) = (next x ≡ y) × (prev y ≡ x) × Follows next prev y ys

pub Avoids-append : (z : ℤ) (xs ys : List ℤ) → Avoids z xs → Avoids z ys → Avoids z (xs ++ ys)
Avoids-append z [] ys h k = k
Avoids-append z (x ∷ xs) ys h k = (h.0, Avoids-append z xs ys h.1 k)

pub Avoids-append_parts : (z : ℤ) (xs ys : List ℤ) → Avoids z (xs ++ ys) → Avoids z xs × Avoids z ys
Avoids-append_parts z [] ys h = (tt, h)
Avoids-append_parts z (x ∷ xs) ys h = let r = Avoids-append_parts z xs ys h.1 in ((h.0, r.0), r.1)

pub Avoids-last : (z x : ℤ) (xs : List ℤ) → Avoids z (x ∷ xs) → z ≢ last x xs
Avoids-last z x [] h = h.0
Avoids-last z x (y ∷ ys) h = Avoids-last z y ys h.1

ne_sym : {a b : ℤ} → a ≢ b → b ≢ a
ne_sym h e = h (sym e)

-- What stands behind a part of a list is met nowhere in the part.
pub Distinct-append_parts :
    (xs ys : List ℤ)
    → Distinct (xs ++ ys)
    → Distinct xs × Distinct ys × ((z : ℤ) → Avoids z xs ⊎ Avoids z ys)
Distinct-append_parts [] ys h = (tt, h, λ z. inl tt)
Distinct-append_parts (x ∷ xs) ys h =
    let r = Distinct-append_parts xs ys h.1 in
    let a = Avoids-append_parts x xs ys h.0 in
    (
      (a.0, r.0),
      r.1,
      λ z. elim (ℤ-cases z x) [
        | inl e ↦ inr (rw e a.1)
        | inr n ↦ elim (r.2 z) [ inl k ↦ inl (n, k) | inr k ↦ inr k ]
      ],
    )

last_behind : (x : ℤ) (xs ys : List ℤ) → Distinct (x ∷ xs ++ ys) → Avoids (last x xs) ys
last_behind x [] ys h = h.0
last_behind x (y ∷ xs) ys h = last_behind y xs ys h.1

module _ (next prev : ℤ → ℤ) where
  Follows-append :
      (x : ℤ) (xs ys : List ℤ)
      → Follows next prev x xs
      → Follows next prev (last x xs) ys
      → Follows next prev x (xs ++ ys)
  Follows-append x [] ys h k = k
  Follows-append x (y ∷ xs) ys h k = (h.0, h.1, Follows-append y xs ys h.2 k)

  Follows-append_parts :
      (x : ℤ) (xs ys : List ℤ)
      → Follows next prev x (xs ++ ys)
      → Follows next prev x xs × Follows next prev (last x xs) ys
  Follows-append_parts x [] ys h = (tt, h)
  Follows-append_parts x (y ∷ xs) ys h =
      let r = Follows-append_parts y xs ys h.2 in ((h.0, h.1, r.0), r.1)

  next_elsewhere :
      (z v x : ℤ) (xs : List ℤ)
      → Avoids z (x ∷ xs)
      → Follows next prev x xs
      → Follows (write next z v) prev x xs
  next_elsewhere z v x [] a h = tt
  next_elsewhere z v x (y ∷ ys) a h =
      (write_ne next z v x a.0 ∙ h.0, h.1, next_elsewhere z v y ys a.1 h.2)

  prev_elsewhere :
      (z v x : ℤ) (xs : List ℤ)
      → Avoids z xs
      → Follows next prev x xs
      → Follows next (write prev z v) x xs
  prev_elsewhere z v x [] a h = tt
  prev_elsewhere z v x (y ∷ ys) a h =
      (h.0, write_ne prev z v y a.0 ∙ h.1, prev_elsewhere z v y ys a.1 h.2)

  next_last :
      (v x : ℤ) (xs : List ℤ)
      → Distinct (x ∷ xs)
      → Follows next prev x xs
      → Follows (write next (last x xs) v) prev x xs
  next_last v x [] d h = tt
  next_last v x (y ∷ ys) d h = (
    write_ne next (last y ys) v x (ne_sym (Avoids-last x y ys d.0)) ∙ h.0,
    h.1,
    next_last v y ys d.1 h.2,
  )

pub Avoids-without :
    (x q : ℤ) (xs ys : List ℤ) → Distinct ((x ∷ xs) ++ q ∷ ys) → Avoids q ((x ∷ xs) ++ ys)
Avoids-without x q xs ys d =
    let (dx, dy, met) = Distinct-append_parts (x ∷ xs) (q ∷ ys) d in
    let aq : Avoids q (x ∷ xs) = elim (met q) [ inl a ↦ a | inr a ↦ absurd (a.0 refl) ] in
    Avoids-append q (x ∷ xs) ys aq dy.0

module _ (next prev : ℤ → ℤ) where
  -- The links lead past a place.
  pub Follows-past :
      (x q f : ℤ) (xs ys : List ℤ)
      → Distinct ((x ∷ xs) ++ q ∷ f ∷ ys)
      → Follows next prev x (xs ++ q ∷ f ∷ ys)
      → Follows (write next (prev q) (next q)) (write prev (next q) (prev q)) x (xs ++ f ∷ ys)
  Follows-past x q f xs ys d h =
      let (front, back) = Follows-append_parts next prev x xs (q ∷ f ∷ ys) h in
      let (dx, dy, met) = Distinct-append_parts (x ∷ xs) (q ∷ f ∷ ys) d in
      let l = last x xs in
      let af : Avoids f (x ∷ xs) = elim (met f) [ inl a ↦ a | inr a ↦ absurd (a.1.0 refl) ] in
      let al = last_behind x xs (q ∷ f ∷ ys) d in
      let n1 = write next l f in
      let p1 = write prev f l in
      let first = prev_elsewhere n1 prev f l x xs af.1 (next_last next prev f x xs dx front) in
      let second =
        next_elsewhere next p1 l f f ys al.1 (prev_elsewhere next prev f l f ys dy.1.0 back.2.2) in
      rw (back.1, back.2.0)
        (Follows-append n1 p1 x xs (f ∷ ys) first
          (write_self next l f, write_self prev f l, second))

module _ (next prev : ℤ → ℤ) where
  -- A place is taken out of the list.
  pub Follows-unlink :
      (x q f v : ℤ) (xs ys : List ℤ)
      → Distinct ((x ∷ xs) ++ q ∷ f ∷ ys)
      → Follows next prev x (xs ++ q ∷ f ∷ ys)
      → Follows
          (write (write next (prev q) (next q)) q v)
          (write (write prev (next q) (prev q)) q v)
          x
          (xs ++ f ∷ ys)
  Follows-unlink x q f v xs ys d h =
      let n1 = write next (prev q) (next q) in
      let p1 = write prev (next q) (prev q) in
      let apart = Avoids-without x q xs (f ∷ ys) d in
      next_elsewhere n1 (write p1 q v) q v x (xs ++ f ∷ ys) apart
        (prev_elsewhere n1 p1 q v x (xs ++ f ∷ ys) apart.1 (Follows-past next prev x q f xs ys d h))

  -- A place is put before the last one.
  pub Follows-link :
      (x q e : ℤ) (xs : List ℤ)
      → Distinct ((x ∷ xs) ++ e ∷ [])
      → Avoids q ((x ∷ xs) ++ e ∷ [])
      → Follows next prev x (xs ++ e ∷ [])
      → Follows
          (write (write next (prev e) q) q e)
          (write (write prev e q) q (prev e))
          x
          (xs ++ q ∷ e ∷ [])
  Follows-link x q e xs d a h =
      let (front, back) = Follows-append_parts next prev x xs (e ∷ []) h in
      let (dx, dy, met) = Distinct-append_parts (x ∷ xs) (e ∷ []) d in
      let (aq, qe) = Avoids-append_parts q (x ∷ xs) (e ∷ []) a in
      let l = last x xs in
      let ae : Avoids e (x ∷ xs) = elim (met e) [ inl a ↦ a | inr a ↦ absurd (a.0 refl) ] in
      let ql : q ≢ l = Avoids-last q x xs aq in
      let n1 = write next l q in
      let p1 = write prev e q in
      let first = next_elsewhere n1 prev q e x xs aq (next_last next prev q x xs dx front) in
      let first' =
        prev_elsewhere (write n1 q e) p1 q l x xs aq.1
          (prev_elsewhere (write n1 q e) prev e q x xs ae.1 first) in
      rw (back.1) (
        Follows-append (write n1 q e) (write p1 q l) x xs (q ∷ e ∷ []) first' (
          write_ne n1 q e l ql ∙ write_self next l q,
          write_self p1 q l,
          (write_self n1 q e, write_ne p1 q l e qe.0 ∙ write_self prev e q, tt),
        ))
