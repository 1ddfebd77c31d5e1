-- ===== src/IdList/Union.antt =====
-- The merge of two lists by `unionList` in Query/IDList.cpp.
use t_rdf.Base.{
  ℕ, ◌+◌, ◌≤◌, ◌<◌, ◌≡◌, refl, ap, ◌||◌, inl, inr, List, [], ◌∷◌, arith, ltb, ltb→lt, ◌==◌, ==_iff,
  Bool-cases, length,
}
use t_rdf.Base.Sets.{mem, IsBelow, IsAscending, IsBelow-mono}
use t_rdf.IdList.Ops.{union_loop, union_list}

IsBelow-union_loop :
    (z : ℕ) (xs ys : List ℕ) → IsBelow z xs → IsBelow z ys → IsBelow z (union_loop xs ys)
unfolding union_loop
IsBelow-union_loop z [] [] h k = tt
IsBelow-union_loop z [] (y ∷ ys) h k = (k.0, IsBelow-union_loop z [] ys tt k.1)
IsBelow-union_loop z (x ∷ xs) [] h k = (h.0, IsBelow-union_loop z xs [] h.1 tt)
IsBelow-union_loop z (x ∷ xs) (y ∷ ys) h k = elim (Bool-cases (x == y)) [
  | inl same ↦ rw same (h.0, IsBelow-union_loop z xs ys h.1 k.1)
  | inr other ↦ rw other (elim (Bool-cases (ltb x y)) [
    | inl less ↦ rw less (h.0, IsBelow-union_loop z xs (y ∷ ys) h.1 k)
    | inr more ↦ rw more (k.0, IsBelow-union_loop z (x ∷ xs) ys h k.1)
  ])
]

IsAscending-union_loop :
    (xs ys : List ℕ) → IsAscending xs → IsAscending ys → IsAscending (union_loop xs ys)
unfolding union_loop
IsAscending-union_loop [] [] h k = tt
IsAscending-union_loop [] (y ∷ ys) h k =
    (IsBelow-union_loop y [] ys tt k.0, IsAscending-union_loop [] ys tt k.1)
IsAscending-union_loop (x ∷ xs) [] h k =
    (IsBelow-union_loop x xs [] h.0 tt, IsAscending-union_loop xs [] h.1 tt)
IsAscending-union_loop (x ∷ xs) (y ∷ ys) h k = elim (Bool-cases (x == y)) [
  | inl same ↦
      let e = (==_iff x y).0 same in
      rw same (IsBelow-union_loop x xs ys h.0 (rw e k.0), IsAscending-union_loop xs ys h.1 k.1)
  | inr other ↦ rw other (elim (Bool-cases (ltb x y)) [
    | inl less ↦
        let lt = ltb→lt x y less in
        rw less (
          IsBelow-union_loop x xs (y ∷ ys) h.0 (lt, IsBelow-mono x y ys (omega arith) k.0),
          IsAscending-union_loop xs (y ∷ ys) h.1 k,
        )
    | inr more ↦
        let lt : y < x = ground arith in
        rw more (
          IsBelow-union_loop y (x ∷ xs) ys (lt, IsBelow-mono y x xs (omega arith) h.0) k.0,
          IsAscending-union_loop (x ∷ xs) ys h k.1,
        )
  ])
]

mem-union_loop : (z : ℕ) (xs ys : List ℕ) → mem z (union_loop xs ys) ≡ (mem z xs || mem z ys)
unfolding union_loop
mem-union_loop z [] [] = refl
mem-union_loop z [] (y ∷ ys) = ap (λ b. (y == z) || b) (mem-union_loop z [] ys)
mem-union_loop z (x ∷ xs) [] = ground (arith, mem-union_loop z xs [])
mem-union_loop z (x ∷ xs) (y ∷ ys) =
    ground
      (arith, mem-union_loop z xs ys, mem-union_loop z xs (y ∷ ys), mem-union_loop z (x ∷ xs) ys)

abbrev pub IsWithin : (n left right : ℕ) → Type 0
IsWithin n left right = (left ≤ n) × (right ≤ n) × (n ≤ left + right)

length-union_loop : (xs ys : List ℕ) → IsWithin (length (union_loop xs ys)) (length xs) (length ys)
unfolding union_loop
length-union_loop [] [] = omega arith
length-union_loop [] (y ∷ ys) = omega (arith, length-union_loop [] ys)
length-union_loop (x ∷ xs) [] = omega (arith, length-union_loop xs [])
length-union_loop (x ∷ xs) (y ∷ ys) =
    ground
      (arith, length-union_loop xs ys, length-union_loop xs (y ∷ ys), length-union_loop (x ∷ xs) ys)

-- The union of two ascending lists is ascending and holds exactly the ids of either list.
pub union_list-IsAscending :
    (ids list : List ℕ)
    → IsAscending ids
    → IsAscending list
    → IsAscending (union_list ids list).0
      × ((z : ℕ) → mem z (union_list ids list).0 ≡ (mem z ids || mem z list))
unfolding union_list
union_list-IsAscending ids list h k =
    (IsAscending-union_loop ids list h k, λ z. mem-union_loop z ids list)

-- For all lists, the merge fills at most the buffer that is allocated for it, and the number
-- returned is the number of ids that came in.
pub union_list_bounds :
    (ids list : List ℕ)
    → (length (union_list ids list).0 ≤ length ids + length list)
      × (length ids + (union_list ids list).1 ≡ length (union_list ids list).0)
unfolding union_list
union_list_bounds ids list = omega (arith, length-union_loop ids list)
