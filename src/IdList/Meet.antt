-- ===== src/IdList/Meet.antt =====
-- The intersection of two ascending lists as one recursion, and what it is.
use t_rdf.Base.{
  ℕ, ◌≤◌, ◌≡◌, refl, sym, ap, ◌∙◌, true, false, inl, inr, List, [], ◌∷◌, arith, ltb, ltb→lt, ◌==◌,
  ==_iff, if◌then◌else◌, Bool-cases, keep,
}
use t_rdf.Base.Sets.{mem, IsBelow, IsAscending, IsBelow-mono, not-mem_of_IsBelow}

-- What is left of a list after its elements below `x`.
unfoldable pub skip : ℕ → List ℕ → List ℕ
skip x [] = []
skip x (y ∷ ys) = if ltb y x then skip x ys else y ∷ ys

-- `x` against the head of what it did not skip.
abbrev pub meet_head : ℕ → List ℕ → (List ℕ → List ℕ) → List ℕ
meet_head x [] rest = []
meet_head x (y ∷ ys) rest = if x == y then x ∷ rest ys else rest (y ∷ ys)

unfoldable pub meet : List ℕ → List ℕ → List ℕ
unfolding skip
meet [] ys = []
meet (x ∷ xs) ys = meet_head x (skip x ys) (λ r. meet xs r)

keep-none : (xs : List ℕ) → keep (λ x. mem x []) xs ≡ []
keep-none [] = refl
keep-none (x ∷ xs) = keep-none xs

-- Dropping elements below every element of `xs` does not change what is kept.
keep-cons :
    (y : ℕ) (xs ys : List ℕ)
    → IsBelow y xs
    → keep (λ x. mem x (y ∷ ys)) xs ≡ keep (λ x. mem x ys) xs
keep-cons y [] ys h = refl
keep-cons y (x ∷ xs) ys h = ground (arith, keep-cons y xs ys h.1)

IsAscending-skip : (x : ℕ) (ys : List ℕ) → IsAscending ys → IsAscending (skip x ys)
unfolding skip
IsAscending-skip x [] h = tt
IsAscending-skip x (y ∷ ys) h = elim (Bool-cases (ltb y x)) [
  | inl less ↦ rw less (IsAscending-skip x ys h.1)
  | inr more ↦ rw more h
]

pub skip-less : (x y : ℕ) (ys : List ℕ) → ltb y x ≡ true → skip x (y ∷ ys) ≡ skip x ys
unfolding skip
skip-less x y ys h = rw h

pub skip-more : (x y : ℕ) (ys : List ℕ) → ltb y x ≡ false → skip x (y ∷ ys) ≡ y ∷ ys
unfolding skip
skip-more x y ys h = rw h

pub skip-nil : (x : ℕ) → skip x [] ≡ []
unfolding skip
skip-nil x = refl

keep-skip :
    (x : ℕ) (xs ys : List ℕ)
    → IsBelow x xs
    → keep (λ z. mem z (skip x ys)) (x ∷ xs) ≡ keep (λ z. mem z ys) (x ∷ xs)
keep-skip x xs [] h = ap (λ r. keep (λ z. mem z r) (x ∷ xs)) (skip-nil x)
keep-skip x xs (y ∷ ys) h = elim (Bool-cases (ltb y x)) [
  | inl less ↦
      let lt = ltb→lt y x less in
      ap (λ r. keep (λ z. mem z r) (x ∷ xs)) (skip-less x y ys less)
      ∙ keep-skip x xs ys h
      ∙ sym (keep-cons y (x ∷ xs) ys (lt, IsBelow-mono y x xs (omega arith) h))
  | inr more ↦ ap (λ r. keep (λ z. mem z r) (x ∷ xs)) (skip-more x y ys more)
]

pub meet-nil : (ys : List ℕ) → meet [] ys ≡ []
unfolding meet
meet-nil ys = refl

-- `meet` computes by what is left of the second list.
pub meet-cons :
    (x : ℕ) (xs ys r : List ℕ) → skip x ys ≡ r → meet (x ∷ xs) ys ≡ meet_head x r (λ s. meet xs s)
unfolding meet
meet-cons x xs ys r e = ap (λ r. meet_head x r (λ s. meet xs s)) e

abbrev HeadNotBelow : ℕ → List ℕ → Type 0
HeadNotBelow x [] = Unit {0}
HeadNotBelow x (y ∷ ys) = x ≤ y

skip-HeadNotBelow : (x : ℕ) (ys : List ℕ) → HeadNotBelow x (skip x ys)
unfolding skip
skip-HeadNotBelow x [] = tt
skip-HeadNotBelow x (y ∷ ys) = elim (Bool-cases (ltb y x)) [
  | inl less ↦ rw less (skip-HeadNotBelow x ys)
  | inr more ↦ rw more (ground arith)
]

meet_head-keep :
    (x : ℕ) (xs r : List ℕ)
    → IsBelow x xs
    → IsAscending r
    → HeadNotBelow x r
    → ((ys : List ℕ) → IsAscending ys → meet xs ys ≡ keep (λ z. mem z ys) xs)
    → meet_head x r (λ ys. meet xs ys) ≡ keep (λ z. mem z r) (x ∷ xs)
meet_head-keep x xs [] b a h ih = sym (keep-none (x ∷ xs))
meet_head-keep x xs (y ∷ ys) b a h ih = elim (Bool-cases (x == y)) [
  | inl same ↦ let e = (==_iff x y).0 same in ground (arith, ih ys, keep-cons y xs ys (rw (← e) b))
  | inr other ↦ ground (arith, ih (y ∷ ys), not-mem_of_IsBelow y x ys)
]

-- On ascending lists it keeps the elements of the first that are in the second.
pub meet-keep :
    (xs ys : List ℕ) → IsAscending xs → IsAscending ys → meet xs ys ≡ keep (λ x. mem x ys) xs
unfolding meet
meet-keep [] ys h k = refl
meet-keep (x ∷ xs) ys h k =
    meet_head-keep x xs (skip x ys) h.0 (IsAscending-skip x ys k) (skip-HeadNotBelow x ys)
      (λ r a. meet-keep xs r h.1 a)
    ∙ keep-skip x xs ys h.0
