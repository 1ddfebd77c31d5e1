-- ===== src/Loading/ByPredicate.antt =====
-- The files and the table that `p2s_p2o` of Database/Database.cpp leaves.
use t_rdf.Base.{ℕ, ◌+◌, ◌*◌, ◌≡◌, refl, ◌∙◌, Bool, true, false, List, [], keep, take, drop, arith}
use t_rdf.Base.Run.{done, Returns}
use t_rdf.Base.Sets.{IsAscending}
use t_rdf.Loading.Compare.{IdTuple, pso_cmp, pos_cmp}
use t_rdf.Loading.Orders.{cmp-Compares}
use t_rdf.Loading.Building.{Sorter}
use t_rdf.Loading.Opening.{is_nil}
use t_rdf.Loading.Predicates.{PreLists, pre_loop, p2s_p2o}
use t_rdf.Loading.PreLists.{distinct_ids, InTurn, pre_loop-plain_loop}
use t_rdf.Loading.Places.{start_at, length_at}
use t_rdf.Loading.Turns.{has_pre, AllBelow, Turned, plain_loop-Turned}
use t_rdf.Loading.Runs.{IsSortedBy, InOrder, IsSortedBy-InOrder}
use t_rdf.Loading.Rising.{IsListOf, distinct_ids-IsListOf}

-- The part of a file that the table gives for a predicate.
abbrev pub part : (column : ℕ) (file : List ℕ) (stat : ℕ → ℕ) (pre : ℕ) → List ℕ
part column file stat p = take (length_at column stat p) (drop (start_at column stat p) file)

-- Each predicate that a triple has, has just its ids in its part of the file.
abbrev pub HasParts : (column : ℕ) (id : IdTuple → ℕ) → List IdTuple → List ℕ → (ℕ → ℕ) → Type 0
HasParts column id ts file stat =
    (p : ℕ) → is_nil (keep (has_pre p) ts) ≡ false → IsListOf id p ts (part column file stat p)

module _ (sort : List ℕ → List ℕ) (leaves : (xs : List ℕ) → IsAscending xs → sort xs ≡ xs)
    (pre_num : ℕ) where
  loop-Turned :
      (column : ℕ) (id : IdTuple → ℕ) (ts : List IdTuple) (stat : ℕ → ℕ) (flag : Bool)
      → flag ≡ true
      → InTurn 0 ts
      → AllBelow pre_num ts
      → Turned sort pre_num column id ts
          (record { idlist = []; pre_change = flag; file = []; pre_stat = stat })
          0
          (λ p. sort (distinct_ids id [] (keep (has_pre p) ts)))
  loop-Turned column id ts stat flag e turn below =
      plain_loop-Turned sort pre_num column id ts
        (record { idlist = []; pre_change = flag; file = []; pre_stat = stat }) 0 []
        (λ p. sort (distinct_ids id [] (keep (has_pre p) ts))) turn below e (λ x. cc (x))
        (λ x. refl) refl (λ p lt. refl)
        (record {
          end = ((λ lt. elim lt [ ]), λ x. refl);
          parts = λ p lt. elim lt [ ];
          within = λ p lt. elim lt [ ];
        })

  parts-IsListOf :
      (column : ℕ) (id : IdTuple → ℕ) (ts : List IdTuple) (c : PreLists) (q : ℕ)
      → InOrder (λ u. u.pre_id) id ts
      → (t : Turned sort pre_num column id ts c q
          (λ p. sort (distinct_ids id [] (keep (has_pre p) ts))))
      → HasParts column id ts t.final.file t.final.pre_stat
  parts-IsListOf column id ts c q order t p some_left =
      let listed = distinct_ids-IsListOf id p ts order in
      let same =
        t.filed.parts p (t.covers p some_left)
        ∙ leaves (distinct_ids id [] (keep (has_pre p) ts)) listed.0 in
      rw same listed

  -- Let `qsort` sort the triples by predicate and subject, and by predicate and object, and
  -- `std::sort` leave an ascending list as it is; and let the predicates be numbered from 0 in
  -- turn, below the number of predicates. Then the first part of `p2s_p2o` returns, with no write
  -- outside the table; and at the places that the table gives for the predicate of a triple, the
  -- first file has exactly the subjects and the second file the objects of its triples, each once
  -- and in ascending order.
  pub p2s_p2o-HasParts :
      (qsort : Sorter) (tuples : List IdTuple)
      → IsSortedBy pso_cmp (qsort pso_cmp tuples)
      → IsSortedBy pos_cmp (qsort pos_cmp (qsort pso_cmp tuples))
      → InTurn 0 (qsort pso_cmp tuples)
      → InTurn 0 (qsort pos_cmp (qsort pso_cmp tuples))
      → AllBelow pre_num (qsort pso_cmp tuples)
      → AllBelow pre_num (qsort pos_cmp (qsort pso_cmp tuples))
      → Returns (p2s_p2o sort qsort pre_num tuples) (λ r.
        HasParts 0 (λ t. t.sub_id) (qsort pso_cmp tuples) r.p2s r.stat
        × HasParts 2 (λ t. t.obj_id) (qsort pos_cmp (qsort pso_cmp tuples)) r.p2o r.stat)
  unfolding p2s_p2o
  p2s_p2o-HasParts qsort tuples s1 s2 t1 t2 b1 b2 =
      let by_sub = qsort pso_cmp tuples in
      let by_obj = qsort pos_cmp by_sub in
      let c0 : PreLists = record { idlist = []; pre_change = true; file = []; pre_stat = λ i. 0 } in
      let first = loop-Turned 0 (λ t. t.sub_id) by_sub (λ i. 0) true refl t1 b1 in
      let ran1 : pre_loop sort pre_num 0 (λ t. t.sub_id) by_sub c0 ≡ done first.final =
        pre_loop-plain_loop sort pre_num 0 (λ t. t.sub_id) by_sub c0 (λ t u e f. e) ∙ first.ran in
      let c1 : PreLists = record {
        idlist = [];
        pre_change = first.final.pre_change;
        file = [];
        pre_stat = first.final.pre_stat;
      } in
      let second =
        loop-Turned 2 (λ t. t.obj_id) by_obj first.final.pre_stat first.final.pre_change first.flag
          t2 b2 in
      let ran2 : pre_loop sort pre_num 2 (λ t. t.obj_id) by_obj c1 ≡ done second.final =
        pre_loop-plain_loop sort pre_num 2 (λ t. t.obj_id) by_obj c1 (λ t u e f. f) ∙ second.ran in
      let order1 =
        IsSortedBy-InOrder pso_cmp (λ t. t.pre_id) (λ t. t.sub_id) (λ t. t.obj_id) cmp-Compares.2
          by_sub s1 in
      let order2 =
        IsSortedBy-InOrder pos_cmp (λ t. t.pre_id) (λ t. t.obj_id) (λ t. t.sub_id) cmp-Compares.3
          by_obj s2 in
      let kept : (p : ℕ)
          → part 0 first.final.file second.final.pre_stat p
            ≡ part 0 first.final.file first.final.pre_stat p =
        λ p.
          (let s =
              second.elsewhere (p * 4 + 0)
                (λ q. ((λ e. omega (arith, e)), λ e. omega (arith, e))) in
            let l =
              second.elsewhere (p * 4 + 0 + 1)
                (λ q. ((λ e. omega (arith, e)), λ e. omega (arith, e))) in
            λ i. take (l i) (drop (s i) first.final.file)) in
      rw ran1 (
        rw ran2 (
          λ p some_left.
              rw (kept p) (parts-IsListOf 0 (λ t. t.sub_id) by_sub c0 0 order1 first p some_left),
          parts-IsListOf 2 (λ t. t.obj_id) by_obj c1 0 order2 second,
        ))
