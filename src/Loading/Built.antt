-- ===== src/Loading/Built.antt =====
-- The indexes that `s2o_sp2o_s2po` and `o2s_op2s_o2ps` of Database/Database.cpp build, against the
-- sorted triples of each key.
use t_rdf.Base.{
  ℕ, suc, ◌+◌, ◌≤◌, ◌≡◌, refl, ap, ◌∙◌, Bool, true, false, List, [], ◌∷◌, ◌++◌, map, Option, none,
  if◌then◌else◌, length, length-append, keep, arith,
}
use t_rdf.Base.Run.{done, Returns}
use t_rdf.Loading.Compare.{IdTuple, spo_cmp, ops_cmp}
use t_rdf.Loading.Orders.{cmp-Compares}
use t_rdf.Loading.Building.{
  Indexes, Lists, no_arrays, build_loop, Sorter, s2o_sp2o_s2po, o2s_op2s_o2ps,
}
use t_rdf.Loading.Groups.{listed, ends, emit, gather, gather-keep, GoesOn}
use t_rdf.Loading.Opening.{pairs}
use t_rdf.Loading.Storing.{in_group, has_sub, has_pair, same_sub, same_pair, Gathers}
use t_rdf.Loading.Rounds.{build_step-Gathers}
use t_rdf.Loading.Runs.{
  InOrder, InOrder-subs, InOrder-pairs, sub_keyed, pair_keyed, IsSortedBy, IsSortedBy-InOrder,
}

shorter :
    (over : Bool) (acc : List IdTuple) (t : IdTuple) (n : ℕ)
    → length acc + suc n ≤ 1000000000
    → length (if over then [] else acc ++ t ∷ []) + n ≤ 1000000000
shorter true acc t n h = omega arith
shorter false acc t n h = omega (arith, length-append acc (t ∷ []))

module _ (sub pre obj : IdTuple → ℕ) (sort : List ℕ → List ℕ) where
  -- For each subject its objects, sorted, and its pairs of predicate and object in the order of the
  -- triples; for each subject and predicate the objects in this order. A key without a triple has no
  -- list.
  pub record IsBuilt (triples : List IdTuple) (indexes : Indexes) : Type 0 where
    pub s2o :
        (s : ℕ)
        → indexes.s2o s
          ≡ in_group (λ g. sort (map obj g)) (listed none (keep (has_sub sub s) triples))
    pub s2po :
        (s : ℕ)
        → indexes.s2po s ≡ in_group (pairs pre obj) (listed none (keep (has_sub sub s) triples))
    pub sp2o :
        (s p : ℕ)
        → indexes.sp2o s p
          ≡ in_group (map obj) (listed none (keep (has_pair sub pre (s, p)) triples))

  build_loop-gather :
      (ts : List IdTuple) (c : Lists) (acc before run : List IdTuple)
      (subs : ℕ → Option (List IdTuple)) (both : ℕ × ℕ → Option (List IdTuple))
      → length acc + length ts ≤ 1000000000
      → Gathers sub pre obj sort c acc before run subs both
      → (d : Lists) × (build_loop sort sub pre obj ts c ≡ done d)
        × ((s : ℕ)
            → d.indexes.s2o s
              ≡ in_group
                  (λ g. sort (map obj g))
                  (gather (has_sub sub) (same_sub sub) acc ts subs s))
        × ((s : ℕ)
            → d.indexes.s2po s
              ≡ in_group (pairs pre obj) (gather (has_sub sub) (same_sub sub) acc ts subs s))
        × ((s p : ℕ)
            → d.indexes.sp2o s p
              ≡ in_group
                  (map obj)
                  (gather (has_pair sub pre) (same_pair sub pre) run ts both (s, p)))
  unfolding build_loop
  build_loop-gather [] c acc before run subs both lt g = (c, refl, g.s2o, g.s2po, g.sp2o)
  build_loop-gather (t ∷ ts) c acc before run subs both lt g =
      let over = ends (has_sub sub) (same_sub sub) t ts in
      let pair_over = ends (has_pair sub pre) (same_pair sub pre) t ts in
      let (d, before', ran, g') =
        build_step-Gathers sub pre obj sort t ts c acc before run subs both (omega arith) g in
      rw ran (
        build_loop-gather ts d (if over then [] else acc ++ t ∷ []) before'
          (if pair_over then [] else run ++ t ∷ [])
          (if over then emit (has_sub sub) (same_sub sub) t (acc ++ t ∷ []) subs else subs)
          (if pair_over
            then emit (has_pair sub pre) (same_pair sub pre) t (run ++ t ∷ []) both
            else both)
          (shorter over acc t (length ts) lt) g')

module _ (sub pre obj : IdTuple → ℕ) (sort : List ℕ → List ℕ) where
  build_loop-IsBuilt :
      (ts : List IdTuple)
      → length ts ≤ 1000000000
      → InOrder sub pre ts
      → Returns
          (build_loop sort sub pre obj ts no_arrays)
          (λ d. IsBuilt sub pre obj sort ts d.indexes)
  unfolding no_arrays
  build_loop-IsBuilt ts lt h =
      let (d, ran, f1, f2, f3) =
        build_loop-gather sub pre obj sort ts no_arrays [] [] [] (λ s. none) (λ k. none)
          (omega arith)
          record {
            sub_flag = refl;
            pre_flag = refl;
            split = refl;
            opened = λ n. cc (n);
            s2o = λ s. refl;
            s2po = λ s. refl;
            sp2o = λ s p. refl;
          } in
      let subs = λ (s : ℕ).
        gather-keep (has_sub sub) (same_sub sub) (sub_keyed sub) [] ts (λ s. none) s
          (InOrder-subs sub pre ts h) (begins ts) in
      rw ran record {
        s2o = λ s. f1 s ∙ ap (in_group (λ g. sort (map obj g))) (subs s);
        s2po = λ s. f2 s ∙ ap (in_group (pairs pre obj)) (subs s);
        sp2o = λ s p.
            f3 s p
            ∙ ap (in_group (map obj)) (
                gather-keep (has_pair sub pre) (same_pair sub pre) (pair_keyed sub pre) [] ts
                  (λ k. none) (s, p) (InOrder-pairs sub pre ts h) (begins' ts));
      }
    where
      begins : (xs : List IdTuple) → GoesOn (has_sub sub) (same_sub sub) [] xs
      begins [] = refl
      begins (x ∷ xs) = tt

      begins' : (xs : List IdTuple) → GoesOn (has_pair sub pre) (same_pair sub pre) [] xs
      begins' [] = refl
      begins' (x ∷ xs) = tt

module _ (sort : List ℕ → List ℕ) (qsort : Sorter) (tuples : List IdTuple) where
  -- Let `qsort` leave the triples sorted, and let there be at most 10 ^ 9 of them. Then
  -- `s2o_sp2o_s2po` returns: no write leaves its array, which may grow, no size overflows, and no
  -- null pointer is stored. For each subject and predicate it has stored the objects of the sorted
  -- triples with both, in order; for each subject all its objects, sorted by `util::sort`, and its
  -- pairs of predicate and object, in order; and nothing for any other key.
  pub s2o_sp2o_s2po-IsBuilt :
      IsSortedBy spo_cmp (qsort spo_cmp tuples)
      → length (qsort spo_cmp tuples) ≤ 1000000000
      → Returns (s2o_sp2o_s2po sort qsort tuples) (λ d.
        IsBuilt
          (λ t. t.sub_id)
          (λ t. t.pre_id)
          (λ t. t.obj_id)
          sort
          (qsort spo_cmp tuples)
          d.indexes)
  unfolding s2o_sp2o_s2po
  s2o_sp2o_s2po-IsBuilt sorted lt =
      build_loop-IsBuilt (λ t. t.sub_id) (λ t. t.pre_id) (λ t. t.obj_id) sort (qsort spo_cmp tuples)
        lt
        (IsSortedBy-InOrder spo_cmp (λ t. t.sub_id) (λ t. t.pre_id) (λ t. t.obj_id) cmp-Compares.0
          (qsort spo_cmp tuples) sorted)

  -- The same for `o2s_op2s_o2ps`, with objects in place of subjects and subjects in place of
  -- objects: it returns, and has stored the subjects of the sorted triples with an object and a
  -- predicate, in order, all subjects of an object, sorted, and its pairs of predicate and subject,
  -- in order, and nothing for any other key.
  pub o2s_op2s_o2ps-IsBuilt :
      IsSortedBy ops_cmp (qsort ops_cmp tuples)
      → length (qsort ops_cmp tuples) ≤ 1000000000
      → Returns (o2s_op2s_o2ps sort qsort tuples) (λ d.
        IsBuilt
          (λ t. t.obj_id)
          (λ t. t.pre_id)
          (λ t. t.sub_id)
          sort
          (qsort ops_cmp tuples)
          d.indexes)
  unfolding o2s_op2s_o2ps
  o2s_op2s_o2ps-IsBuilt sorted lt =
      build_loop-IsBuilt (λ t. t.obj_id) (λ t. t.pre_id) (λ t. t.sub_id) sort (qsort ops_cmp tuples)
        lt
        (IsSortedBy-InOrder ops_cmp (λ t. t.obj_id) (λ t. t.pre_id) (λ t. t.sub_id) cmp-Compares.1
          (qsort ops_cmp tuples) sorted)
