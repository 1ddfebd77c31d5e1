-- ===== src/Answers/Names.antt =====
-- Names of variables in `mapVarVec` of Database/Database.cpp.
use mathlib.Core.Option
use t_rdf.Base.{
  ℕ, suc, ◌≤◌, ◌<◌, ◌≡◌, refl, sym, inl, inr, true, Option, none, some, List, [], ◌∷◌, ◌++◌, arith,
  Bool-cases, ◌==◌, ==_iff, length, get_or, take, length-append, take-append,
}
use t_rdf.Base.Run.{Returns}
use t_rdf.Signature.Hash.{Text}
use t_rdf.Answers.Merge.{eq_text, index_of, place, map_var_loop, map_var_vec, merge_vars}
use t_rdf.Answers.Columns.{
  Columns, project, Agrees, extras, project_of_Agrees, push_new-extras, length-extras,
  Agrees-length, Agrees-append, drop-append,
}

pub eq_text-eq : (a b : Text) → eq_text a b ≡ true → a ≡ b
eq_text-eq [] [] h = refl
eq_text-eq [] (d ∷ b) h = cc
eq_text-eq (c ∷ a) [] h = cc
eq_text-eq (c ∷ a) (d ∷ b) h =
    let head = (==_iff c d).0 (ground arith) in
    let tail = eq_text-eq a b (ground arith) in rw (head, tail)

pub eq_text-same : (a : Text) → eq_text a a ≡ true
eq_text-same [] = refl
eq_text-same (c ∷ a) = let head : (c == c) ≡ true = ground arith in rw (head, eq_text-same a)

-- A place of a name in a list.
abbrev IsPlace : Text → List Text → Option ℕ → Type 0
IsPlace name xs none = Unit {0}
IsPlace name xs (some i) = (i < length xs) × (get_or xs i [] ≡ name)

IsPlace-suc :
    (name x : Text) (xs : List Text) (o : Option ℕ)
    → IsPlace name xs o
    → IsPlace name (x ∷ xs) (Option.map suc o)
IsPlace-suc name x xs none h = tt
IsPlace-suc name x xs (some i) h = (omega (arith, h.0), h.1)

index_of-IsPlace : (name : Text) (xs : List Text) → IsPlace name xs (index_of name xs)
unfolding index_of
index_of-IsPlace name [] = tt
index_of-IsPlace name (x ∷ xs) = elim (Bool-cases (eq_text name x)) [
  | inl same ↦ rw same (omega arith, sym (eq_text-eq name x same))
  | inr other ↦ rw other (IsPlace-suc name x xs (index_of name xs) (index_of-IsPlace name xs))
]

-- What `mapVarVec` gives: columns for the second list, which agree with the first.
abbrev Mapped : (a b : List Text) (next : ℕ) → List ℕ × ℕ → Type 0
Mapped a b next (ms, total) = Columns (length a) next ms total × Agrees [] (length a) a ms b

Mapped-place :
    (a b : List Text) (name : Text) (next : ℕ) (o : Option ℕ) (r : List ℕ × ℕ)
    → length a ≤ next
    → IsPlace name a o
    → Mapped a b (place o next).1 r
    → Mapped a (name ∷ b) next ((place o next).0 ∷ r.0, r.1)
Mapped-place a b name next (some i) r le at h = (inl (at.0, h.0), (λ lt. at.1, h.1))
Mapped-place a b name next none r le at h = (inr (refl, h.0), (λ lt. absurd (omega arith), h.1))

place-le : (o : Option ℕ) (next : ℕ) → next ≤ (place o next).1
place-le none next = omega arith
place-le (some i) next = omega arith

map_var_loop-Mapped :
    (a b : List Text) (next : ℕ) → length a ≤ next → Mapped a b next (map_var_loop a b next)
unfolding map_var_loop
map_var_loop-Mapped a [] next le = (refl, tt)
map_var_loop-Mapped a (name ∷ b) next le =
    let o = index_of name a in
    let next' = (place o next).1 in
    Mapped-place a b name next o (map_var_loop a b next') le (index_of-IsPlace name a)
      (map_var_loop-Mapped a b next' (omega (arith, place-le o next)))

pub map_var_vec-Mapped : (a b : List Text) → Mapped a b (length a) (map_var_vec a b)
unfolding map_var_vec
map_var_vec-Mapped a b = map_var_loop-Mapped a b (length a) (omega arith)

-- The names of a merged result start with those of the first part, and `mapVarVec` gives for each
-- name of the second part its column; `total_vars` is the number of the names.
pub merge_vars-project :
    (a b : List Text)
    → Returns (merge_vars a b) (λ vars.
      (take (length a) vars ≡ a)
      × (project [] vars (map_var_vec a b).0 ≡ b)
      × (length vars ≡ (map_var_vec a b).1))
unfolding merge_vars
merge_vars-project a b =
    let (ms, total) = map_var_vec a b in
    let (c, agree) = map_var_vec-Mapped a b in
    let len = Agrees-length [] (length a) a ms b agree in
    let e = extras [] (length a) ms b in
    rw (push_new-extras [] (length a) ms b len) (
      take-append a e,
      project_of_Agrees [] (length a) (length a) total ms (a ++ e) b (omega arith) c
          (Agrees-append [] a e ms b agree) (drop-append a e),
      omega (
        arith,
        length-append a e,
        length-extras [] (length a) (length a) total ms b (omega arith) c len,
      ),
    )
