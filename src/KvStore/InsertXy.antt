-- ===== src/KvStore/InsertXy.antt =====
-- Lemmas on `insert_xy` of KVstore/KVstore.cpp, by way of lists of pairs.
use t_rdf.Base.{
  ℕ, suc, ◌+◌, ◌<◌, ◌≡◌, refl, ap, ◌∙◌, Bool, true, false, not, ◌&&◌, ◌||◌, inl, inr, Option, none,
  some, List, [], ◌∷◌, ◌++◌, append-nil, arith, ◌==◌, if◌then◌else◌, Bool-cases, length,
}
use t_rdf.Base.Run.{done, Returns}
use t_rdf.KvStore.Lists.{has_xy, lt_xy, insert_xy_loop, insert_xy_array, insert_xy}
use t_rdf.KvStore.Pairs.{
  Pairs, flatten, mem_xy, IsBelowXy, IsAscendingXy, lt_xy_asymm, lt_xy_total, insert_pair,
  IsAscendingXy-insert_pair, mem_xy-insert_pair, length-insert_pair,
}

has_xy-mem_xy : (x y : ℕ) (ps : Pairs) → has_xy (flatten ps) x y ≡ done (mem_xy x y ps)
unfolding has_xy
has_xy-mem_xy x y [] = refl
has_xy-mem_xy x y ((a, b) ∷ ps) = ground (arith, has_xy-mem_xy x y ps)

-- The loop of `insert_xy`, on pairs.
insert_pair_loop : (x y a b : ℕ) → Pairs → Pairs
insert_pair_loop x y a b [] = []
insert_pair_loop x y a b ((c, d) ∷ ps) =
    let copied = (c, d) ∷ insert_pair_loop x y c d ps in
    if lt_xy a b x y && lt_xy x y c d then (x, y) ∷ copied else copied

insert_xy_loop-insert_pair_loop :
    (x y a b : ℕ) (ps : Pairs)
    → insert_xy_loop x y a b (flatten ps) ≡ done (flatten (insert_pair_loop x y a b ps))
unfolding insert_xy_loop insert_pair_loop
insert_xy_loop-insert_pair_loop x y a b [] = refl
insert_xy_loop-insert_pair_loop x y a b ((c, d) ∷ ps) =
    rw (insert_xy_loop-insert_pair_loop x y c d ps)
      (elim (Bool-cases (lt_xy a b x y && lt_xy x y c d)) [
        | inl here ↦ rw here
        | inr later ↦ rw later
      ])

insert_pair_loop-copy :
    (x y a b : ℕ) (ps : Pairs)
    → lt_xy a b x y ≡ false
    → IsBelowXy a b ps
    → IsAscendingXy ps
    → insert_pair_loop x y a b ps ≡ ps
unfolding insert_pair_loop
insert_pair_loop-copy x y a b [] h k l = refl
insert_pair_loop-copy x y a b ((c, d) ∷ ps) h k l =
    let later : lt_xy c d x y ≡ false = ground arith in
    rw (h, insert_pair_loop-copy x y c d ps later l.0 l.1)

-- What the loop wrote, and the pair behind it if the loop did not write it.
abbrev closed : (x y n : ℕ) → List ℕ → List ℕ
closed x y n written = written ++ (if length written == n then x ∷ y ∷ [] else [])

closed-cons :
    (x y n a b : ℕ) (xs : List ℕ) → closed x y (suc (suc n)) (a ∷ b ∷ xs) ≡ a ∷ b ∷ closed x y n xs
closed-cons x y n a b xs = ground arith

closed-longer : (x y n : ℕ) (xs : List ℕ) → n < length xs → closed x y n xs ≡ xs
closed-longer x y n xs h =
    let ne : (length xs == n) ≡ false = ground arith in rw (ne, append-nil xs)

insert_pair_loop-insert_pair :
    (x y a b : ℕ) (ps : Pairs)
    → lt_xy a b x y ≡ true
    → mem_xy x y ps ≡ false
    → IsAscendingXy ps
    → closed x y (length (flatten ps)) (flatten (insert_pair_loop x y a b ps))
      ≡ flatten (insert_pair x y ps)
unfolding insert_pair_loop insert_pair
insert_pair_loop-insert_pair x y a b [] h m l = refl
insert_pair_loop-insert_pair x y a b ((c, d) ∷ ps) h m l = elim (Bool-cases (lt_xy x y c d)) [
  | inl less ↦
      let back = lt_xy_asymm x y c d less in
      rw (h, less, insert_pair_loop-copy x y c d ps back l.0 l.1)
        (closed-longer x y (suc (suc (length (flatten ps)))) (x ∷ y ∷ c ∷ d ∷ flatten ps)
          (omega arith))
  | inr more ↦
      rw (h, more)
        (closed-cons x y (length (flatten ps)) c d _
          ∙ ap (λ r. c ∷ d ∷ r)
              (insert_pair_loop-insert_pair x y c d ps (lt_xy_total x y c d more (ground arith))
                (ground arith) l.1))
]

insert_xy_array-insert_pair :
    (x y a b : ℕ) (ps : Pairs)
    → mem_xy x y ((a, b) ∷ ps) ≡ false
    → IsAscendingXy ((a, b) ∷ ps)
    → insert_xy_array (flatten ((a, b) ∷ ps)) x y ≡ done (flatten (insert_pair x y ((a, b) ∷ ps)))
unfolding insert_xy_array insert_pair
insert_xy_array-insert_pair x y a b ps m l = elim (Bool-cases (lt_xy x y a b)) [
  | inl less ↦ rw less
  | inr more ↦
      rw (more, insert_xy_loop-insert_pair_loop x y a b ps)
        (ap done (
          closed-cons x y (length (flatten ps)) a b _
          ∙ ap (λ r. a ∷ b ∷ r)
              (insert_pair_loop-insert_pair x y a b ps (lt_xy_total x y a b more (ground arith))
                (ground arith) l.1)))
]

-- A stored list of pairs: none yet, or a flattened array with a pair, in ascending order.
abbrev pub stored : Pairs → Option (List ℕ)
stored [] = none
stored (p ∷ ps) = some (flatten (p ∷ ps))

-- What an update leaves: the flag says whether the pair is new; the array holds pairs in
-- ascending order, the new one and the old ones and no other, one more exactly if it is new.
pub record InsertedXy (x y : ℕ) (ps : Pairs) (r : Bool × List ℕ) : Type 0 where
  pub after : Pairs
  pub is_new : r.0 ≡ not (mem_xy x y ps)
  pub array : r.1 ≡ flatten after
  pub ascending : IsAscendingXy after
  pub members : (z w : ℕ) → mem_xy z w after ≡ ((x == z && y == w) || mem_xy z w ps)
  pub grows : length after ≡ length ps + (if mem_xy x y ps then 0 else 1)

mem_xy-absorb :
    (x y z w : ℕ) (ps : Pairs)
    → mem_xy x y ps ≡ true
    → mem_xy z w ps ≡ ((x == z && y == w) || mem_xy z w ps)
mem_xy-absorb x y z w ps h = ground arith

insert_pair-InsertedXy :
    (x y : ℕ) (ps : Pairs)
    → mem_xy x y ps ≡ false
    → IsAscendingXy ps
    → InsertedXy x y ps (true, flatten (insert_pair x y ps))
insert_pair-InsertedXy x y ps m a = record {
  after = insert_pair x y ps;
  is_new = rw m;
  array = refl;
  ascending = IsAscendingXy-insert_pair x y ps m a;
  members = λ z w. mem_xy-insert_pair z w x y ps;
  grows = rw m (omega (arith, length-insert_pair x y ps));
}

-- On ascending pairs, stored flattened or not there yet, `insert_xy` reads nothing outside the
-- array, leaves the pairs ascending, the new one among the old ones, and says whether it is new.
pub insert_xy-InsertedXy :
    (ps : Pairs) (x y : ℕ)
    → IsAscendingXy ps
    → Returns (insert_xy (stored ps) x y) (InsertedXy x y ps)
unfolding insert_xy
insert_xy-InsertedXy [] x y h = record {
  after = (x, y) ∷ [];
  is_new = refl;
  array = refl;
  ascending = (tt, tt);
  members = λ z w. refl;
  grows = omega arith;
}
insert_xy-InsertedXy ((a, b) ∷ ps) x y h =
    let ps' : Pairs = (a, b) ∷ ps in
    rw (has_xy-mem_xy x y ps') (elim (Bool-cases (mem_xy x y ps')) [
      | inl old ↦ rw old (record {
        after = ps';
        is_new = rw old;
        array = refl;
        ascending = h;
        members = λ z w. mem_xy-absorb x y z w ps' old;
        grows = rw old (omega arith);
      })
      | inr new ↦
          rw (new, insert_xy_array-insert_pair x y a b ps new h)
            (insert_pair-InsertedXy x y ps' new h)
    ])
