-- ===== src/Util/Bsearch.antt =====
-- Lemmas on the searches of util/util.cpp.
use t_rdf.Base.{
  ℕ, zero, suc, ◌+◌, ◌-◌, ◌*◌, ◌/◌, ◌≤◌, ◌<◌, ◌≡◌, refl, ◌≢◌, inl, inr, Bool, true, false, some,
  List, arith, ltb, ltb→lt, ◌==◌, ==_iff, Bool-cases, [], ◌∷◌, ◌||◌, length, get_or,
}
use t_rdf.Base.Int.{ℤ, pos, negsuc}
use t_rdf.Base.Run.{Run, done, ◌>>=◌, Returns, read, read-get_or}
use t_rdf.Base.Sets.{IsBelow, IsAscending}
use t_rdf.Util.Search.{
  midpoint, search_loop, search_from, bsearch_int_uporder, bsearch_vec_uporder, is_found,
  bsearch_preid_uporder,
}

-- An index that holds the key; or -1, and no index below `n` holds it.
abbrev pub Locates : (keys : ℕ → ℕ) (n key : ℕ) → ℤ → Type 0
Locates keys n key (pos i) = (i < n) × (keys i ≡ key)
Locates keys n key (negsuc m) = (m ≡ 0) × ((i : ℕ) → i < n → keys i ≢ key)

abbrev pub IsSorted : (keys : ℕ → ℕ) (n : ℕ) → Type 0
IsSorted keys n = (i j : ℕ) → i ≤ j → j < n → keys i ≤ keys j

IsBelow-get_or : (x : ℕ) (xs : List ℕ) (j : ℕ) → IsBelow x xs → j < length xs → x < get_or xs j 0
IsBelow-get_or x [] j h lt = absurd (omega arith)
IsBelow-get_or x (y ∷ ys) zero h lt = h.0
IsBelow-get_or x (y ∷ ys) (suc j) h lt = IsBelow-get_or x ys j h.1 (omega arith)

-- A strictly ascending list is sorted.
pub IsAscending→IsSorted :
    (xs : List ℕ) → IsAscending xs → IsSorted (λ i. get_or xs i 0) (length xs)
IsAscending→IsSorted [] h i j le lt = absurd (omega arith)
IsAscending→IsSorted (x ∷ xs) h zero zero le lt = omega arith
IsAscending→IsSorted (x ∷ xs) h zero (suc j) le lt =
    omega (arith, IsBelow-get_or x xs j h.0 (omega arith))
IsAscending→IsSorted (x ∷ xs) h (suc i) zero le lt = absurd (omega arith)
IsAscending→IsSorted (x ∷ xs) h (suc i) (suc j) le lt =
    IsAscending→IsSorted xs h.1 i j (omega arith) (omega arith)

midpoint_inside : (low end : ℕ) → low < end → (low ≤ midpoint low end) × (midpoint low end < end)
midpoint_inside low end h = omega arith

module _ (key n : ℕ) (keys : ℕ → ℕ) (key_at : ℕ → Run ℕ)
    (inside : (i : ℕ) → i < n → key_at i ≡ done (keys i)) (sorted : IsSorted keys n) where
  Above-mono : (m : ℕ) → key < keys m → (i : ℕ) → m ≤ i → i < n → key < keys i
  Above-mono m h i le lt = omega (arith, sorted m i le lt)

  Below-mono : (m : ℕ) → m < n → keys m < key → (i : ℕ) → i < m + 1 → keys i < key
  Below-mono m lt h i le = omega (arith, sorted i m (omega arith) lt)

  search_loop-Locates :
      (fuel low end : ℕ)
      → end ≤ n
      → end - low < fuel
      → ((i : ℕ) → i < low → keys i < key)
      → ((i : ℕ) → end ≤ i → i < n → key < keys i)
      → Returns (search_loop key key_at fuel low end) (Locates keys n key)
  unfolding search_loop
  search_loop-Locates zero low end e f below above = absurd (omega arith)
  search_loop-Locates (suc fuel) low end e f below above = elim (Bool-cases (ltb low end)) [
    | inr empty ↦ rw empty (refl, λ i h. ground (arith, below i, above i))
    | inl more ↦
        let mid = midpoint low end in
        let m = midpoint_inside low end (ltb→lt low end more) in
        let lt : mid < n = omega arith in
        rw (more, inside mid lt)
          (elim (Bool-cases (keys mid == key)) [
            | inl hit ↦ rw hit (lt, (==_iff _ key).0 hit)
            | inr miss ↦ rw miss (elim (Bool-cases (ltb key (keys mid))) [
              | inl left ↦ rw left (
                  search_loop-Locates fuel low mid (omega arith) (omega arith) below
                    (Above-mono mid (ltb→lt key _ left)))
              | inr right ↦ rw right (
                  search_loop-Locates fuel (mid + 1) end e (omega arith)
                    (Below-mono mid lt (ground arith)) above)
            ])
          ])
  ]

  pub search_from-Locates :
      (last : ℕ) → n ≡ suc last → Returns (search_from key key_at last) (Locates keys n key)
  unfolding search_from
  search_from-Locates last e =
      rw (inside 0 (omega arith), inside last (omega arith))
        (elim (Bool-cases (keys last == key)) [
          | inl hit ↦ rw hit (omega arith, (==_iff _ key).0 hit)
          | inr miss ↦ rw miss (elim (Bool-cases (ltb (keys last) key || ltb key (keys 0))) [
            | inl out ↦ rw out (refl, λ i h. ground (arith, sorted 0 i, sorted i last))
            | inr within ↦ rw within (
                search_loop-Locates (last + 2) 0 (last + 1) (omega arith) (omega arith)
                  (λ i h. absurd (omega arith)) (λ i h k. absurd (omega arith)))
          ])
        ])

-- On a sorted array the binary search ends without a read outside the array, and returns an
-- index that holds the key, or -1 when no index holds it.
pub bsearch_int_uporder-Locates :
    (key : ℕ) (array : List ℕ)
    → IsSorted (λ i. get_or array i 0) (length array)
    → Returns
        (bsearch_int_uporder key (some array) (length array))
        (Locates (λ i. get_or array i 0) (length array) key)
unfolding bsearch_int_uporder
bsearch_int_uporder-Locates key [] sorted = (refl, λ i h. absurd (omega arith))
bsearch_int_uporder-Locates key (x ∷ xs) sorted =
    search_from-Locates key (suc (length xs)) (λ i. get_or (x ∷ xs) i 0) (read (x ∷ xs))
      (read-get_or (x ∷ xs)) sorted (length xs) refl

-- The search in a vector returns what the search in the array of its elements returns.
pub bsearch_vec_uporder-bsearch_int_uporder :
    (key : ℕ) (vec : List ℕ)
    → bsearch_vec_uporder key vec ≡ bsearch_int_uporder key (some vec) (length vec)
unfolding bsearch_vec_uporder bsearch_int_uporder
bsearch_vec_uporder-bsearch_int_uporder key [] = refl
bsearch_vec_uporder-bsearch_int_uporder key (x ∷ xs) = refl

-- The answer of the pair search: the first component of some pair is the id, or of none is.
abbrev pub Answers : (pairs : List ℕ) (n preid : ℕ) → Bool → Type 0
Answers pairs n preid true = (i : ℕ) × (i < n) × (get_or pairs (2 * i) 0 ≡ preid)
Answers pairs n preid false = (i : ℕ) → i < n → get_or pairs (2 * i) 0 ≢ preid

Locates→Answers :
    (pairs : List ℕ) (n preid : ℕ) (r : ℤ)
    → Locates (λ i. get_or pairs (2 * i) 0) n preid r
    → Answers pairs n preid (is_found r)
Locates→Answers pairs n preid (pos i) h = (i, h.0, h.1)
Locates→Answers pairs n preid (negsuc m) h = h.1

Returns-is_found :
    (pairs : List ℕ) (n preid : ℕ) (r : Run ℤ)
    → Returns r (Locates (λ i. get_or pairs (2 * i) 0) n preid)
    → Returns (r >>= λ z. done (is_found z)) (Answers pairs n preid)
Returns-is_found pairs n preid (done z) h = Locates→Answers pairs n preid z h
Returns-is_found pairs n preid Run.out_of_bounds h = h
Returns-is_found pairs n preid Run.out_of_fuel h = h

-- On a flattened list of `n` pairs that is sorted by first component, the pair search ends
-- without a read outside the list, and says exactly whether some pair begins with the id.
pub bsearch_preid_uporder-Answers :
    (preid : ℕ) (pairs : List ℕ) (n : ℕ)
    → length pairs ≡ 2 * n
    → IsSorted (λ i. get_or pairs (2 * i) 0) n
    → Returns (bsearch_preid_uporder preid pairs (length pairs)) (Answers pairs n preid)
unfolding bsearch_preid_uporder
bsearch_preid_uporder-Answers preid pairs zero e sorted =
    let none_left : length pairs ≡ 0 = omega arith in rw none_left (λ i h. absurd (omega arith))
bsearch_preid_uporder-Answers preid pairs (suc n) e sorted =
    let some_left : length pairs ≡ suc (suc (n + n)) = omega arith in
    let half : suc (suc (n + n)) / 2 ≡ suc n = omega arith in
    rw (some_left, half, bsearch_preid_uporder)
      (Returns-is_found pairs (suc n) preid _ (
        search_from-Locates preid (suc n) (λ i. get_or pairs (2 * i) 0) (λ i. read pairs (2 * i))
          (λ i h. read-get_or pairs (2 * i) (omega arith)) sorted n refl))
