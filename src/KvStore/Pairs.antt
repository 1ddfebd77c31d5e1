-- ===== src/KvStore/Pairs.antt =====
-- Lists of id pairs in lexicographic order, and the flattened arrays that hold them.
use t_rdf.Base.{
  ℕ, ◌≡◌, refl, Bool, true, false, ◌&&◌, ◌||◌, inl, inr, List, [], ◌∷◌, arith, ◌==◌, if◌then◌else◌,
  Bool-cases, length, suc, ◌+◌,
}
use t_rdf.KvStore.Lists.{lt_xy}

abbrev pub Pairs : Type 0
Pairs = List (ℕ × ℕ)

abbrev pub flatten : Pairs → List ℕ
flatten [] = []
flatten ((a, b) ∷ ps) = a ∷ b ∷ flatten ps

abbrev pub mem_xy : (x y : ℕ) → Pairs → Bool
mem_xy x y [] = false
mem_xy x y ((a, b) ∷ ps) = (a == x && b == y) || mem_xy x y ps

abbrev pub IsBelowXy : (x y : ℕ) → Pairs → Type 0
IsBelowXy x y [] = Unit {0}
IsBelowXy x y ((a, b) ∷ ps) = (lt_xy x y a b ≡ true) × IsBelowXy x y ps

abbrev pub IsAscendingXy : Pairs → Type 0
IsAscendingXy [] = Unit {0}
IsAscendingXy ((a, b) ∷ ps) = IsBelowXy a b ps × IsAscendingXy ps

pub lt_xy_trans :
    (a b c d e f : ℕ) → lt_xy a b c d ≡ true → lt_xy c d e f ≡ true → lt_xy a b e f ≡ true
lt_xy_trans a b c d e f h k = ground arith

pub lt_xy_asymm : (a b c d : ℕ) → lt_xy a b c d ≡ true → lt_xy c d a b ≡ false
lt_xy_asymm a b c d h = ground arith

pub lt_xy_total :
    (a b c d : ℕ) → lt_xy a b c d ≡ false → (a == c && b == d) ≡ false → lt_xy c d a b ≡ true
lt_xy_total a b c d h k = ground arith

pub IsBelowXy-mono :
    (a b c d : ℕ) (ps : Pairs) → lt_xy a b c d ≡ true → IsBelowXy c d ps → IsBelowXy a b ps
IsBelowXy-mono a b c d [] h k = tt
IsBelowXy-mono a b c d ((e, f) ∷ ps) h k =
    (lt_xy_trans a b c d e f h k.0, IsBelowXy-mono a b c d ps h k.1)

-- Insertion at its place, as a reference.
unfoldable pub insert_pair : (x y : ℕ) → Pairs → Pairs
insert_pair x y [] = (x, y) ∷ []
insert_pair x y ((a, b) ∷ ps) =
    if lt_xy x y a b then (x, y) ∷ (a, b) ∷ ps else (a, b) ∷ insert_pair x y ps

IsBelowXy-insert_pair :
    (a b x y : ℕ) (ps : Pairs)
    → lt_xy a b x y ≡ true
    → IsBelowXy a b ps
    → IsBelowXy a b (insert_pair x y ps)
unfolding insert_pair
IsBelowXy-insert_pair a b x y [] h k = (h, tt)
IsBelowXy-insert_pair a b x y ((c, d) ∷ ps) h k = elim (Bool-cases (lt_xy x y c d)) [
  | inl less ↦ rw less (h, k)
  | inr more ↦ rw more (k.0, IsBelowXy-insert_pair a b x y ps h k.1)
]

pub IsAscendingXy-insert_pair :
    (x y : ℕ) (ps : Pairs)
    → mem_xy x y ps ≡ false
    → IsAscendingXy ps
    → IsAscendingXy (insert_pair x y ps)
unfolding insert_pair
IsAscendingXy-insert_pair x y [] h k = (tt, tt)
IsAscendingXy-insert_pair x y ((a, b) ∷ ps) h k = elim (Bool-cases (lt_xy x y a b)) [
  | inl less ↦ rw less ((less, IsBelowXy-mono x y a b ps less k.0), k)
  | inr more ↦ rw more (
    IsBelowXy-insert_pair a b x y ps (lt_xy_total x y a b more (ground arith)) k.0,
    IsAscendingXy-insert_pair x y ps (ground arith) k.1,
  )
]

pub mem_xy-insert_pair :
    (z w x y : ℕ) (ps : Pairs)
    → mem_xy z w (insert_pair x y ps) ≡ ((x == z && y == w) || mem_xy z w ps)
unfolding insert_pair
mem_xy-insert_pair z w x y [] = refl
mem_xy-insert_pair z w x y ((a, b) ∷ ps) = ground (arith, mem_xy-insert_pair z w x y ps)

pub length-insert_pair : (x y : ℕ) (ps : Pairs) → length (insert_pair x y ps) ≡ suc (length ps)
unfolding insert_pair
length-insert_pair x y [] = refl
length-insert_pair x y ((a, b) ∷ ps) = ground (arith, length-insert_pair x y ps)

pub length-flatten : (ps : Pairs) → length (flatten ps) ≡ length ps + length ps
length-flatten [] = omega arith
length-flatten ((a, b) ∷ ps) = omega (arith, length-flatten ps)
