-- ===== src/KvStore/InsertX.antt =====
-- Lemmas on `insert_x` of KVstore/KVstore.cpp, by way of insertion at its place.
use t_rdf.Base.{
  ℕ, suc, ◌+◌, ◌≤◌, ◌<◌, ◌≡◌, refl, ap, ◌∙◌, Bool, true, false, not, ◌||◌, inl, inr, Option, none,
  some, List, [], ◌∷◌, ◌++◌, append-nil, arith, ltb, ltb→lt, lt→ltb, ◌==◌, ==_iff, if◌then◌else◌,
  Bool-cases, length,
}
use t_rdf.Base.Sets.{mem, IsBelow, IsAscending, IsBelow-mono}
use t_rdf.Base.Run.{done, Returns}
use t_rdf.KvStore.Lists.{insert_x_loop, insert_x_array, insert_x}

-- Insertion at its place in an ascending list, as a reference.
unfoldable pub insert_id : ℕ → List ℕ → List ℕ
insert_id x [] = x ∷ []
insert_id x (y ∷ ys) = if ltb x y then x ∷ y ∷ ys else y ∷ insert_id x ys

pub IsBelow-insert_id : (z x : ℕ) (ys : List ℕ) → z < x → IsBelow z ys → IsBelow z (insert_id x ys)
unfolding insert_id
IsBelow-insert_id z x [] h k = (h, tt)
IsBelow-insert_id z x (y ∷ ys) h k = elim (Bool-cases (ltb x y)) [
  | inl less ↦ rw less (h, k)
  | inr more ↦ rw more (k.0, IsBelow-insert_id z x ys h k.1)
]

pub IsAscending-insert_id :
    (x : ℕ) (ys : List ℕ) → mem x ys ≡ false → IsAscending ys → IsAscending (insert_id x ys)
unfolding insert_id
IsAscending-insert_id x [] h k = (tt, tt)
IsAscending-insert_id x (y ∷ ys) h k = elim (Bool-cases (ltb x y)) [
  | inl less ↦ let lt = ltb→lt x y less in rw less ((lt, IsBelow-mono x y ys (omega arith) k.0), k)
  | inr more ↦
      let lt : y < x = ground arith in
      rw more (IsBelow-insert_id y x ys lt k.0, IsAscending-insert_id x ys (ground arith) k.1)
]

pub mem-insert_id : (z x : ℕ) (ys : List ℕ) → mem z (insert_id x ys) ≡ ((x == z) || mem z ys)
unfolding insert_id
mem-insert_id z x [] = refl
mem-insert_id z x (y ∷ ys) = ground (arith, mem-insert_id z x ys)

pub length-insert_id : (x : ℕ) (ys : List ℕ) → length (insert_id x ys) ≡ suc (length ys)
unfolding insert_id
length-insert_id x [] = refl
length-insert_id x (y ∷ ys) = ground (arith, length-insert_id x ys)

-- Behind the place of `x` the loop only copies.
insert_x_loop-copy :
    (x previous : ℕ) (ys : List ℕ)
    → x ≤ previous
    → IsBelow previous ys
    → IsAscending ys
    → insert_x_loop x previous ys ≡ ys
unfolding insert_x_loop
insert_x_loop-copy x previous [] h b a = refl
insert_x_loop-copy x previous (y ∷ ys) h b a =
    ground (arith, insert_x_loop-copy x y ys (omega arith) a.0 a.1)

-- What the loop wrote, and `x` behind it if the loop did not write it.
abbrev closed : (x n : ℕ) → List ℕ → List ℕ
closed x n written = written ++ (if length written == n then x ∷ [] else [])

closed-cons : (x n y : ℕ) (ys : List ℕ) → closed x (suc n) (y ∷ ys) ≡ y ∷ closed x n ys
closed-cons x n y ys = ground arith

closed-longer : (x n : ℕ) (ys : List ℕ) → n < length ys → closed x n ys ≡ ys
closed-longer x n ys h = let ne : (length ys == n) ≡ false = ground arith in rw (ne, append-nil ys)

insert_x_loop-insert_id :
    (x previous : ℕ) (ys : List ℕ)
    → previous < x
    → mem x ys ≡ false
    → IsAscending ys
    → closed x (length ys) (insert_x_loop x previous ys) ≡ insert_id x ys
unfolding insert_x_loop insert_id
insert_x_loop-insert_id x previous [] h m a = refl
insert_x_loop-insert_id x previous (y ∷ ys) h m a = elim (Bool-cases (ltb x y)) [
  | inl less ↦
      let lt = ltb→lt x y less in
      rw (lt→ltb previous x h, less, insert_x_loop-copy x y ys (omega arith) a.0 a.1)
        (closed-longer x (suc (length ys)) (x ∷ y ∷ ys) (omega arith))
  | inr more ↦
      rw (lt→ltb previous x h, more)
        (closed-cons x (length ys) y _
          ∙ ap (λ r. y ∷ r) (insert_x_loop-insert_id x y ys (ground arith) (ground arith) a.1))
]

-- A stored list: none yet, or an array that is not empty and ascending.
abbrev pub IsIdList : Option (List ℕ) → Type 0
IsIdList none = Unit {0}
IsIdList (some []) = ⊥
IsIdList (some (x ∷ xs)) = IsAscending (x ∷ xs)

abbrev pub ids_of : Option (List ℕ) → List ℕ
ids_of none = []
ids_of (some xs) = xs

insert_x_array-insert_id :
    (x y : ℕ) (ys : List ℕ)
    → mem x (y ∷ ys) ≡ false
    → IsAscending (y ∷ ys)
    → insert_x_array (y ∷ ys) x ≡ done (insert_id x (y ∷ ys))
unfolding insert_x_array insert_id
insert_x_array-insert_id x y ys m a = elim (Bool-cases (ltb x y)) [
  | inl less ↦ rw less
  | inr more ↦ rw more (
      ap done (
        closed-cons x (length ys) y _
        ∙ ap (λ r. y ∷ r) (insert_x_loop-insert_id x y ys (ground arith) (ground arith) a.1)))
]

pub insert_x-insert_id :
    (x y : ℕ) (ys : List ℕ)
    → IsAscending (y ∷ ys)
    → mem x (y ∷ ys) ≡ false
    → insert_x (some (y ∷ ys)) x ≡ done (true, insert_id x (y ∷ ys))
unfolding insert_x
insert_x-insert_id x y ys a new = rw (new, insert_x_array-insert_id x y ys new a)

-- What an update leaves: the flag says whether the id is new; the list is ascending, holds the
-- id and the old ones and no other, and is longer by one exactly if the id is new.
pub record Inserted (x : ℕ) (xs : List ℕ) (r : Bool × List ℕ) : Type 0 where
  pub is_new : r.0 ≡ not (mem x xs)
  pub ascending : IsAscending r.1
  pub members : (z : ℕ) → mem z r.1 ≡ (x == z || mem z xs)
  pub grows : length r.1 ≡ length xs + (if mem x xs then 0 else 1)

mem-absorb : (x z : ℕ) (xs : List ℕ) → mem x xs ≡ true → mem z xs ≡ (x == z || mem z xs)
mem-absorb x z xs h = elim (Bool-cases (x == z)) [
  | inl same ↦ let e = (==_iff x z).0 same in rw same (rw e at h)
  | inr other ↦ rw other
]

insert_id-Inserted :
    (x : ℕ) (xs : List ℕ) → mem x xs ≡ false → IsAscending xs → Inserted x xs (true, insert_id x xs)
insert_id-Inserted x xs m a = record {
  is_new = rw m;
  ascending = IsAscending-insert_id x xs m a;
  members = λ z. mem-insert_id z x xs;
  grows = rw m (omega (arith, length-insert_id x xs));
}

-- On a list that is not there yet, or is an ascending array with an element, `insert_x` reads
-- nothing outside the array, leaves an ascending list that holds the id and the old ones, says
-- whether the id is new, and fills exactly the array that it allocates.
pub insert_x-Inserted :
    (list : Option (List ℕ)) (x : ℕ)
    → IsIdList list
    → Returns (insert_x list x) (Inserted x (ids_of list))
unfolding insert_x
insert_x-Inserted none x h = record {
  is_new = refl;
  ascending = (tt, tt);
  members = λ z. refl;
  grows = omega arith;
}
insert_x-Inserted (some []) x h = absurd h
insert_x-Inserted (some (y ∷ ys)) x h = elim (Bool-cases (mem x (y ∷ ys))) [
  | inl old ↦ rw old (record {
    is_new = rw old;
    ascending = h;
    members = λ z. mem-absorb x z (y ∷ ys) old;
    grows = rw old (omega arith);
  })
  | inr new ↦ rw (new, insert_x_array-insert_id x y ys new h) (insert_id-Inserted x (y ∷ ys) new h)
]
