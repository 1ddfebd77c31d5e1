-- ===== src/Answers/Texts.antt =====
-- The comparisons of texts in `matchFilter` of Database/Database.cpp, and the column of a name.
use t_rdf.Base.{
  ℕ, zero, suc, ◌+◌, ◌<◌, ◌≡◌, ◌≢◌, ◌↔◌, ◌⊎◌, inl, inr, refl, sym, ap, ◌∙◌, true, false, not, some,
  List, [], ◌∷◌, ◌++◌, ltb, ltb→lt, lt→ltb, ◌==◌, ==_iff, if◌then◌else◌, get_elem?, arith,
  Bool-cases,
}
use t_rdf.Signature.Hash.{Text}
use t_rdf.Answers.Merge.{eq_text}
use t_rdf.Answers.Names.{eq_text-eq, eq_text-same}
use t_rdf.Answers.Filtering.{
  lt_text, Comparison, equal, not_equal, less, less_or_equal, greater, greater_or_equal,
  compare_text, dict_loop, dict_of, drop_quote,
}

-- Two texts have a common front, behind which the first ends before the second, or has a smaller
-- byte.
abbrev pub Before : Text → Text → Type 0
Before a b =
    (p : Text) × (((d : ℕ) × (t : Text) × (a ≡ p) × (b ≡ p ++ (d ∷ t)))
      ⊎ ((c d : ℕ) × (s t : Text) × (a ≡ p ++ (c ∷ s)) × (b ≡ p ++ (d ∷ t)) × (c < d)))

abbrev pub Compares : Comparison → Text → Text → Type 0
Compares equal a b = a ≡ b
Compares not_equal a b = a ≢ b
Compares less a b = Before a b
Compares less_or_equal a b = Before a b ⊎ (a ≡ b)
Compares greater a b = Before b a
Compares greater_or_equal a b = Before b a ⊎ (a ≡ b)

Before-cons : (c : ℕ) (a b : Text) → Before a b → Before (c ∷ a) (c ∷ b)
Before-cons c a b (p, inl (d, t, e, k)) = (c ∷ p, inl (d, t, ap (λ r. c ∷ r) e, ap (λ r. c ∷ r) k))
Before-cons c a b (p, inr (x, d, s, t, e, k, lt)) =
    (c ∷ p, inr (x, d, s, t, ap (λ r. c ∷ r) e, ap (λ r. c ∷ r) k, lt))

lt_text-front : (p : Text) (d : ℕ) (t : Text) → lt_text p (p ++ (d ∷ t)) ≡ true
lt_text-front [] d t = refl
lt_text-front (c ∷ p) d t =
    let ih = lt_text-front p d t in
    let same : (c == c) ≡ true = ground arith in ground (arith, ih, same)

lt_text-byte :
    (p : Text) (c d : ℕ) (s t : Text) → c < d → lt_text (p ++ (c ∷ s)) (p ++ (d ∷ t)) ≡ true
lt_text-byte [] c d s t lt = let less : ltb c d ≡ true = lt→ltb c d lt in rw less refl
lt_text-byte (x ∷ p) c d s t lt =
    let ih = lt_text-byte p c d s t lt in
    let same : (x == x) ≡ true = ground arith in ground (arith, ih, same)

-- Either one text comes before the other, or they are the same.
lt_text-cases :
    (a b : Text)
    → ((lt_text a b ≡ true) × (lt_text b a ≡ false) × Before a b)
      ⊎ ((lt_text a b ≡ false) × (lt_text b a ≡ true) × Before b a)
      ⊎ ((lt_text a b ≡ false) × (lt_text b a ≡ false) × (a ≡ b))
lt_text-cases [] [] = inr (inr (refl, refl, refl))
lt_text-cases [] (d ∷ b) = inl (refl, refl, ([], inl (d, b, refl, refl)))
lt_text-cases (c ∷ a) [] = inr (inl (refl, refl, ([], inl (c, a, refl, refl))))
lt_text-cases (c ∷ a) (d ∷ b) = elim (Bool-cases (c == d)) [
  | inl e ↦
      let same = (==_iff c d).0 e in
      let back : (d == d) ≡ true = ground arith in
      let no : ltb d d ≡ false = ground arith in
      rw same (
        rw (back, no)
          (elim (lt_text-cases a b) [
            | inl (x, y, z) ↦ inl (x, y, Before-cons d a b z)
            | inr (inl (x, y, z)) ↦ inr (inl (x, y, Before-cons d b a z))
            | inr (inr (x, y, z)) ↦ inr (inr (x, y, ap (λ r. d ∷ r) z))
          ]))
  | inr e ↦ elim (Bool-cases (ltb c d)) [
    | inl l ↦
        let more : ltb d c ≡ false = ground (arith, l) in
        let other : (d == c) ≡ false = ground (arith, e) in
        rw (l, more, other) (inl (refl, refl, ([], inr (c, d, a, b, refl, refl, ltb→lt c d l))))
    | inr g ↦
        let less : ltb d c ≡ true = ground (arith, e, g) in
        rw (g, less, e)
          (inr (inl (refl, refl, ([], inr (d, c, b, a, refl, refl, ltb→lt d c less)))))
  ]
]

lt_text-Before : (a b : Text) → (lt_text a b ≡ true) ↔ Before a b
lt_text-Before a b = (
  λ h. elim (lt_text-cases a b) [
    | inl (x, y, z) ↦ z
    | inr (inl (x, y, z)) ↦ absurd (ground (arith, h, x))
    | inr (inr (x, y, z)) ↦ absurd (ground (arith, h, x))
  ],
  λ h. elim h.1 [
    | inl (d, t, e, k) ↦ rw (e, k) (lt_text-front h.0 d t)
    | inr (c, d, s, t, e, k, lt) ↦ rw (e, k) (lt_text-byte h.0 c d s t lt)
  ],
)

not-lt_text : (a b : Text) → (not (lt_text b a) ≡ true) ↔ (Before a b ⊎ (a ≡ b))
not-lt_text a b = (
  λ h. elim (lt_text-cases a b) [
    | inl (x, y, z) ↦ inl z
    | inr (inl (x, y, z)) ↦ absurd (ground (arith, h, y))
    | inr (inr (x, y, z)) ↦ inr z
  ],
  λ h. elim (lt_text-cases a b) [
    | inl (x, y, z) ↦ rw y refl
    | inr (inl (x, y, z)) ↦ elim h [
      | inl k ↦ absurd (let t = (lt_text-Before a b).1 k in ground (arith, t, x))
      | inr e ↦ absurd (let t = rw e at x in let u = rw e at y in ground (arith, t, u))
    ]
    | inr (inr (x, y, z)) ↦ rw y refl
  ],
)

pub compare_text-Compares :
    (comparison : Comparison) (a b : Text)
    → (compare_text comparison a b ≡ true) ↔ Compares comparison a b
compare_text-Compares equal a b = (eq_text-eq a b, λ e. ap (eq_text a) (sym e) ∙ eq_text-same a)
compare_text-Compares not_equal a b = (
  λ h e. (let same = ap (eq_text a) (sym e) ∙ eq_text-same a in ground (arith, h, same)),
  λ h. elim (Bool-cases (eq_text a b)) [
    | inl e ↦ absurd (h (eq_text-eq a b e))
    | inr e ↦ rw e refl
  ],
)
compare_text-Compares less a b = lt_text-Before a b
compare_text-Compares less_or_equal a b = not-lt_text a b
compare_text-Compares greater a b = lt_text-Before b a
compare_text-Compares greater_or_equal a b =
    let (to, from) = not-lt_text b a in
    (
      λ h. elim (to h) [ inl k ↦ inl k | inr e ↦ inr (sym e) ],
      λ h. from (elim h [ inl k ↦ inl k | inr e ↦ inr (sym e) ]),
    )

-- The last column with a name.
abbrev pub LastPlace : List Text → Text → ℕ → Type 0
LastPlace vars name k =
    (get_elem? vars k ≡ some name) × ((j : ℕ) → k < j → get_elem? vars j ≢ some name)

dict_loop-absent :
    (vars : List Text) (i found : ℕ) (name : Text)
    → ((j : ℕ) → get_elem? vars j ≢ some name)
    → dict_loop vars i found name ≡ found
dict_loop-absent [] i found name h = refl
dict_loop-absent (x ∷ vars) i found name h = elim (Bool-cases (eq_text x name)) [
  | inl e ↦ absurd (h 0 (ap some (eq_text-eq x name e)))
  | inr e ↦ rw e (dict_loop-absent vars (suc i) found name (λ j. h (suc j)))
]

dict_loop-LastPlace :
    (vars : List Text) (i found : ℕ) (name : Text) (k : ℕ)
    → LastPlace vars name k
    → dict_loop vars i found name ≡ i + k
dict_loop-LastPlace [] i found name k h = absurd (cc (h.0))
dict_loop-LastPlace (x ∷ vars) i found name zero h =
    let e : x ≡ name = cc (h.0) in
    let same : eq_text x name ≡ true = ap (eq_text x) (sym e) ∙ eq_text-same x in
    rw same (dict_loop-absent vars (suc i) i name (λ j. h.1 (suc j) (omega arith)) ∙ omega arith)
dict_loop-LastPlace (x ∷ vars) i found name (suc k) h =
    dict_loop-LastPlace vars (suc i) (if eq_text x name then i else found) name k
      (h.0, λ j lt. h.1 (suc j) (omega (arith, lt)))
    ∙ omega arith

pub dict_of-LastPlace :
    (vars : List Text) (name : Text) (k : ℕ) → LastPlace vars name k → dict_of vars name ≡ k
dict_of-LastPlace vars name k h = dict_loop-LastPlace vars 0 0 name k h ∙ omega arith

-- A text without the quote that it may start with.
abbrev pub Unquoted : (str x : Text) → Type 0
Unquoted str x =
    ((q : ℕ) × ((q ≡ b'"') ⊎ (q ≡ 39)) × (str ≡ q ∷ x))
    ⊎ ((x ≡ str) × ((q : ℕ) (t : Text) → str ≡ q ∷ t → (q ≢ b'"') × (q ≢ 39)))

pub drop_quote-Unquoted : (str : Text) → Unquoted str (drop_quote str)
drop_quote-Unquoted [] = inr (refl, λ q t e. absurd (cc (e)))
drop_quote-Unquoted (c ∷ str) = elim (Bool-cases (c == b'"')) [
  | inl e ↦ rw e (inl (c, inl ((==_iff c b'"').0 e), refl))
  | inr e ↦ elim (Bool-cases (c == 39)) [
    | inl k ↦ rw (e, k) (inl (c, inr ((==_iff c 39).0 k), refl))
    | inr k ↦
        rw (e, k)
          (inr (
            refl,
            λ q t eq.
                let same : c ≡ q = head_of c q str t eq in
                ((λ f. ground (arith, same, f, e)), (λ f. ground (arith, same, f, k))),
          ))
  ]
]
  where
    head_of : (c q : ℕ) (a b : Text) → (c ∷ a) ≡ (q ∷ b) → c ≡ q
    head_of c q a b e = cc

pub Unquoted-drop_quote : (str x : Text) → Unquoted str x → drop_quote str ≡ x
Unquoted-drop_quote str x (inl (q, inl e, k)) =
    let is : (q == b'"') ≡ true = (==_iff q b'"').1 e in rw (k, is) refl
Unquoted-drop_quote str x (inl (q, inr e, k)) =
    let is : (q == 39) ≡ true = (==_iff q 39).1 e in
    let other : (q == b'"') ≡ false = ground (arith, e) in rw (k, other, is) refl
Unquoted-drop_quote [] x (inr (e, k)) = sym e
Unquoted-drop_quote (c ∷ str) x (inr (e, k)) =
    let (one, two) = k c str refl in
    let first : (c == b'"') ≡ false = ground (arith, one) in
    let second : (c == 39) ≡ false = ground (arith, two) in rw (first, second) (sym e)
