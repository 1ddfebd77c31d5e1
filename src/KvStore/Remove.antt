-- ===== src/KvStore/Remove.antt =====
-- Lemmas on `remove_x` and `remove_xy` of KVstore/KVstore.cpp.
use t_rdf.Base.{
  ℕ, suc, ◌+◌, ◌-◌, ◌≡◌, refl, Bool, true, false, not, ◌&&◌, inl, inr, Option, none, some, List, [],
  ◌∷◌, ◌++◌, arith, ◌==◌, ==_iff, if◌then◌else◌, Bool-cases, length, length-append, take,
  take-append, take-all, keep,
}
use t_rdf.Base.Run.{done, Returns}
use t_rdf.Base.Sets.{mem, IsAscending, not-mem_of_IsBelow}
use t_rdf.KvStore.Lists.{remove_x_array, remove_x, remove_xy_array, remove_xy}
use t_rdf.KvStore.Pairs.{Pairs, flatten, mem_xy, IsBelowXy, IsAscendingXy, length-flatten}

-- The list without `x`.
abbrev pub without : ℕ → List ℕ → List ℕ
without x xs = keep (λ z. not (z == x)) xs

without-absent : (x : ℕ) (xs : List ℕ) → mem x xs ≡ false → without x xs ≡ xs
without-absent x [] h = refl
without-absent x (y ∷ ys) h = ground (arith, without-absent x ys)

remove_x_array-absent : (x : ℕ) (xs : List ℕ) → mem x xs ≡ false → remove_x_array xs x ≡ none
unfolding remove_x_array
remove_x_array-absent x [] h = refl
remove_x_array-absent x (y ∷ ys) h = ground (arith, remove_x_array-absent x ys)

remove_x_array-present :
    (x : ℕ) (xs : List ℕ)
    → mem x xs ≡ true
    → IsAscending xs
    → remove_x_array xs x ≡ some (without x xs ++ 0 ∷ [])
unfolding remove_x_array
remove_x_array-present x [] h a = cc
remove_x_array-present x (y ∷ ys) h a = elim (Bool-cases (y == x)) [
  | inl here ↦
      let e = (==_iff y x).0 here in
      let gone = not-mem_of_IsBelow y x ys (omega arith) a.0 in rw (here, without-absent x ys gone)
  | inr later ↦ rw (later, remove_x_array-present x ys (ground arith) a.1)
]

length-without :
    (x : ℕ) (xs : List ℕ)
    → IsAscending xs
    → length (without x xs) + (if mem x xs then 1 else 0) ≡ length xs
length-without x [] a = omega arith
length-without x (y ∷ ys) a = elim (Bool-cases (y == x)) [
  | inl here ↦
      let e = (==_iff y x).0 here in
      let gone = not-mem_of_IsBelow y x ys (omega arith) a.0 in
      rw (here, without-absent x ys gone) (omega arith)
  | inr later ↦ rw later (ground (arith, length-without x ys a.1))
]

remove_x-some :
    (xs ys : List ℕ) (x : ℕ)
    → remove_x_array xs x ≡ some ys
    → remove_x xs x ≡ (true, ys, length xs - 1)
unfolding remove_x
remove_x-some xs ys x e = rw (e, remove_x)

remove_x-none :
    (xs : List ℕ) (x : ℕ) → remove_x_array xs x ≡ none → remove_x xs x ≡ (false, xs, length xs)
unfolding remove_x
remove_x-none xs x e = rw (e, remove_x)

-- On an ascending list `remove_x` says whether the id was there, and the new length of the same
-- array holds the other ids, in order.
pub remove_x-without :
    (xs : List ℕ) (x : ℕ)
    → IsAscending xs
    → ((remove_x xs x).0 ≡ mem x xs)
      × (take (remove_x xs x).2 (remove_x xs x).1 ≡ without x xs)
      × (length (remove_x xs x).1 ≡ length xs)
      × ((remove_x xs x).2 + (if mem x xs then 1 else 0) ≡ length xs)
remove_x-without xs x a = elim (Bool-cases (mem x xs)) [
  | inl there ↦
      let n : length xs ≡ suc (length (without x xs)) = ground (arith, length-without x xs a) in
      let m : length xs - 1 ≡ length (without x xs) = omega arith in
      rw (remove_x-some xs _ x (remove_x_array-present x xs there a), there)
        (
          refl,
          rw m (take-append (without x xs) (0 ∷ [])),
          omega (arith, length-append (without x xs) (0 ∷ [])),
          omega arith,
        )
  | inr absent ↦
      rw
        (remove_x-none xs x (remove_x_array-absent x xs absent), absent, without-absent x xs absent)
        (refl, take-all xs, refl, omega arith)
]

abbrev pub without_xy : (x y : ℕ) → Pairs → Pairs
without_xy x y ps = keep (λ p. not (p.0 == x && p.1 == y)) ps

without_xy-absent : (x y : ℕ) (ps : Pairs) → mem_xy x y ps ≡ false → without_xy x y ps ≡ ps
without_xy-absent x y [] h = refl
without_xy-absent x y ((a, b) ∷ ps) h = ground (arith, without_xy-absent x y ps)

not-mem_xy_of_IsBelowXy : (x y : ℕ) (ps : Pairs) → IsBelowXy x y ps → mem_xy x y ps ≡ false
not-mem_xy_of_IsBelowXy x y [] h = refl
not-mem_xy_of_IsBelowXy x y ((a, b) ∷ ps) h = ground (arith, not-mem_xy_of_IsBelowXy x y ps h.1)

-- The flattened array without the pair, and two zeros at its end; or nothing, if it is absent.
abbrev removed : (x y : ℕ) → Pairs → Option (List ℕ)
removed x y ps = if mem_xy x y ps then some (flatten (without_xy x y ps) ++ 0 ∷ 0 ∷ []) else none

remove_xy_array-removed :
    (x y : ℕ) (ps : Pairs)
    → IsAscendingXy ps
    → remove_xy_array (flatten ps) x y ≡ done (removed x y ps)
unfolding remove_xy_array
remove_xy_array-removed x y [] h = refl
remove_xy_array-removed x y ((a, b) ∷ ps) h =
    rw (remove_xy_array-removed x y ps h.1) (elim (Bool-cases (a == x && b == y)) [
      | inl here ↦
          let gone : mem_xy x y ps ≡ false = ground (arith, not-mem_xy_of_IsBelowXy a b ps h.0) in
          rw (here, without_xy-absent x y ps gone)
      | inr later ↦
          rw later
            (elim (Bool-cases (mem_xy x y ps)) [ inl there ↦ rw there | inr absent ↦ rw absent ])
    ])

length-without_xy :
    (x y : ℕ) (ps : Pairs)
    → IsAscendingXy ps
    → length (without_xy x y ps) + (if mem_xy x y ps then 1 else 0) ≡ length ps
length-without_xy x y [] h = omega arith
length-without_xy x y ((a, b) ∷ ps) h = elim (Bool-cases (a == x && b == y)) [
  | inl here ↦
      let gone : mem_xy x y ps ≡ false = ground (arith, not-mem_xy_of_IsBelowXy a b ps h.0) in
      rw (here, without_xy-absent x y ps gone) (omega arith)
  | inr later ↦ rw later (ground (arith, length-without_xy x y ps h.1))
]

-- What `remove_xy` leaves: the flag, and the pairs that are left in the new length.
abbrev pub RemovedXy : (x y : ℕ) → Pairs → Bool × List ℕ × ℕ → Type 0
RemovedXy x y ps r =
    (r.0 ≡ mem_xy x y ps)
    × (take r.2 r.1 ≡ flatten (without_xy x y ps))
    × (r.2 + (if mem_xy x y ps then 2 else 0) ≡ length (flatten ps))

-- On ascending pairs `remove_xy` stays inside the array, says whether the pair was there, and
-- the new length of the same array holds the other pairs, in order.
pub remove_xy-RemovedXy :
    (ps : Pairs) (x y : ℕ)
    → IsAscendingXy ps
    → Returns (remove_xy (flatten ps) x y) (RemovedXy x y ps)
unfolding remove_xy
remove_xy-RemovedXy ps x y h =
    rw (remove_xy_array-removed x y ps h) (elim (Bool-cases (mem_xy x y ps)) [
      | inl there ↦
          let left = without_xy x y ps in
          let n : length ps ≡ suc (length left) = ground (arith, length-without_xy x y ps h) in
          let m : length (flatten ps) - 2 ≡ length (flatten left) =
            omega (arith, length-flatten ps, length-flatten left) in
          rw there
            (refl, rw m (take-append (flatten left) (0 ∷ 0 ∷ [])), omega (arith, length-flatten ps))
      | inr absent ↦
          rw (absent, without_xy-absent x y ps absent) (refl, take-all (flatten ps), omega arith)
    ])
