-- ===== src/Loading/Storing.antt =====
-- The indexes of `s2o_sp2o_s2po` in Database/Database.cpp against the groups of triples that have
-- ended, and what is stored when a predicate ends.
use t_rdf.Base.{
  ℕ, ◌+◌, ◌*◌, ◌≡◌, refl, sym, ap, ◌∙◌, inl, inr, Bool, true, false, ◌||◌, ◌&&◌, List, [], ◌∷◌,
  ◌++◌, map, Option, none, some, leb, ◌==◌, ==_iff, if◌then◌else◌, length, length-append,
  length-map, take, drop, take-all, arith, Bool-cases,
}
use t_rdf.Base.Run.{done}
use t_rdf.Query.Basic.{put, put2}
use t_rdf.Loading.Compare.{IdTuple}
use t_rdf.Loading.Building.{Lists, new_arrays, slice, changes, store_pair}
use t_rdf.Loading.Groups.{emit, ends}
use t_rdf.Loading.Opening.{is_nil, pairs, Opened}

abbrev pub in_group : {A B : Type 0} → (A → B) → Option A → Option B
in_group f none = none
in_group f (some a) = some (f a)

slice_lem :
    (f : IdTuple → ℕ) (before run : List IdTuple)
    → slice (map f (before ++ run)) (some (length before)) (length run) ≡ done (map f run)
unfolding slice
slice_lem f before run =
    let fits : leb (length before + length run) (length (map f (before ++ run))) ≡ true =
      ground (arith, length-map f (before ++ run), length-append before run) in
    rw fits (ap done (behind before))
  where
    behind :
        (xs : List IdTuple) → take (length run) (drop (length xs) (map f (xs ++ run))) ≡ map f run
    behind [] = ap (λ n. take n (map f run)) (sym (length-map f run)) ∙ take-all (map f run)
    behind (x ∷ xs) = behind xs

-- `sub`, `pre` and `obj` read a triple.
abbrev pub has_sub : (sub : IdTuple → ℕ) → ℕ → IdTuple → Bool
has_sub sub s t = sub t == s

abbrev pub has_pair : (sub pre : IdTuple → ℕ) → ℕ × ℕ → IdTuple → Bool
has_pair sub pre k t = (sub t == k.0) && (pre t == k.1)

abbrev pub same_sub : (sub : IdTuple → ℕ) → IdTuple → IdTuple → Bool
same_sub sub t u = sub t == sub u

abbrev pub same_pair : (sub pre : IdTuple → ℕ) → IdTuple → IdTuple → Bool
same_pair sub pre t u = (sub t == sub u) && (pre t == pre u)

-- What a round makes of the triples since the last subject and since the last predicate.
abbrev pub left_over : Bool → List IdTuple → List IdTuple
left_over over xs = if over then [] else xs

module _ (sub pre obj : IdTuple → ℕ) where
  pub changes-ends :
      (t : IdTuple) (rest : List IdTuple)
      → changes sub t rest ≡ ends (has_sub sub) (same_sub sub) t rest
  unfolding changes
  changes-ends t [] = refl
  changes-ends t (u ∷ us) = refl

  pub changes_either-ends :
      (t : IdTuple) (rest : List IdTuple)
      → (changes sub t rest || changes pre t rest)
        ≡ ends (has_pair sub pre) (same_pair sub pre) t rest
  unfolding changes
  changes_either-ends t [] = refl
  changes_either-ends t (u ∷ us) = ground arith

  pub ends_pair :
      (t : IdTuple) (rest : List IdTuple)
      → ends (has_sub sub) (same_sub sub) t rest ≡ true
      → ends (has_pair sub pre) (same_pair sub pre) t rest ≡ true
  ends_pair t [] h = refl
  ends_pair t (u ∷ us) h = ground (arith, h)

  module _ (sort : List ℕ → List ℕ) where
    -- The indexes have the groups that ended, and the arrays the triples since then.
    pub record Gathers (c : Lists) (acc before run : List IdTuple)
        (subs : ℕ → Option (List IdTuple)) (both : ℕ × ℕ → Option (List IdTuple)) : Type 0 where
      pub sub_flag : c.sub_change ≡ is_nil acc
      pub pre_flag : c.sub_pre_change ≡ is_nil run
      pub split : acc ≡ before ++ run
      pub opened : is_nil acc ≡ false → Opened sub pre obj c acc before run
      pub s2o : (s : ℕ) → c.indexes.s2o s ≡ in_group (λ g. sort (map obj g)) (subs s)
      pub s2po : (s : ℕ) → c.indexes.s2po s ≡ in_group (pairs pre obj) (subs s)
      pub sp2o : (s p : ℕ) → c.indexes.sp2o s p ≡ in_group (map obj) (both (s, p))

    pub new_arrays-Opened :
        (c : Lists) (acc before run : List IdTuple) (subs : ℕ → Option (List IdTuple))
        (both : ℕ × ℕ → Option (List IdTuple))
        → Gathers c acc before run subs both
        → Opened sub pre obj (new_arrays c) acc before run
          × ((new_arrays c).sub_pre_change ≡ is_nil run)
          × ((new_arrays c).indexes ≡ c.indexes)
    unfolding new_arrays
    new_arrays-Opened c [] [] [] subs both g = rw (g.sub_flag) (
      record {
        split = refl;
        oids = refl;
        pids = refl;
        size = refl;
        pid_size = refl;
        room = omega arith;
        start = λ h. refl;
        len = refl;
      },
      g.pre_flag,
      refl,
    )
    new_arrays-Opened c [] [] (r ∷ run) subs both g = cc (g.split)
    new_arrays-Opened c [] (b ∷ before) run subs both g = cc (g.split)
    new_arrays-Opened c (a ∷ acc) before run subs both g =
        let same : new_arrays c ≡ c =
          ap
            (λ b.
              if b
              then (record c {
                oidlist_s = [];
                oidlist_max = 1000;
                oidlist_sp = some 0;
                oidlist_sp_len = 0;
                pidoidlist_s = [];
                pidoidlist_max = 1000 * 2;
              })
              else c)
            g.sub_flag in
        rw same (g.opened refl, g.pre_flag, refl)

    pub store_pair_lem :
        (t : IdTuple) (c : Lists) (acc before run : List IdTuple)
        → Opened sub pre obj c acc before run
        → is_nil run ≡ false
        → c.sub_pre_change ≡ true
        → store_pair sort sub pre obj t c
          ≡ done (record c {
            indexes = record c.indexes {
              sp2o = put2 c.indexes.sp2o (sub t) (pre t) (some (map obj run));
            };
            oidlist_sp = none;
            oidlist_sp_len = 0;
          })
    unfolding store_pair
    store_pair_lem t c acc before run o h e =
        let got : slice c.oidlist_s c.oidlist_sp c.oidlist_sp_len ≡ done (map obj run) =
          rw (o.oids, o.start h, o.len, o.split) (slice_lem obj before run) in
        rw e (rw got refl)

    pub is_nil-snoc : (xs : List IdTuple) (t : IdTuple) → is_nil (xs ++ t ∷ []) ≡ false
    is_nil-snoc [] t = refl
    is_nil-snoc (x ∷ xs) t = refl

    pub put-emit :
        {B : Type 0} (f : List IdTuple → B) (old : ℕ → Option B)
        (groups : ℕ → Option (List IdTuple)) (t : IdTuple) (g : List IdTuple)
        → ((s : ℕ) → old s ≡ in_group f (groups s))
        → (s : ℕ)
        → put old (sub t) (some (f g)) s
          ≡ in_group f (emit (has_sub sub) (same_sub sub) t g groups s)
    put-emit f old groups t g h s = elim (Bool-cases (sub t == s)) [
      | inl e ↦ rw e refl
      | inr e ↦ rw e (h s)
    ]

    pub put2-emit :
        {B : Type 0} (f : List IdTuple → B) (old : ℕ → ℕ → Option B)
        (groups : ℕ × ℕ → Option (List IdTuple)) (t : IdTuple) (g : List IdTuple)
        → ((s p : ℕ) → old s p ≡ in_group f (groups (s, p)))
        → (s p : ℕ)
        → put2 old (sub t) (pre t) (some (f g)) s p
          ≡ in_group f (emit (has_pair sub pre) (same_pair sub pre) t g groups (s, p))
    put2-emit f old groups t g h s p = elim (Bool-cases (sub t == s)) [
      | inl e ↦ elim (Bool-cases (pre t == p)) [
        | inl e' ↦ rw (e, e') refl
        | inr e' ↦ rw (e, e') (ap (λ x. old x p) ((==_iff (sub t) s).0 e) ∙ h s p)
      ]
      | inr e ↦ rw e (h s p)
    ]
