-- ===== src/Examples/Loading.antt =====
-- The comparisons of Database/Database.cpp on two triples, and the indexes of three.
use t_rdf.Base.{ℕ, ◌≡◌, refl, inl, inr, Bool, List, [], ◌∷◌, some, ltb, if◌then◌else◌, arith}
use t_rdf.Base.Run.{done, Returns, ◌>>=◌}
use t_rdf.Loading.Orders.{is_negative}
use t_rdf.Loading.Building.{
  Sorter, s2o_sp2o_s2po, o2s_op2s_o2ps, new_arrays, enlarge, append, slice, changes, add_triple,
  store_pair, store_sub, build_step,
}
use t_rdf.Base.Sets.{IsAscending, IsBelow}
use t_rdf.Loading.Predicates.{
  PreFiles, p2s_p2o, pre_loop, pre_round, pre_step, write_list, list_start, add_new, ends_with,
}
use t_rdf.Loading.ByPredicate.{HasParts, p2s_p2o-HasParts}
use t_rdf.Loading.Built.{IsBuilt, s2o_sp2o_s2po-IsBuilt, o2s_op2s_o2ps-IsBuilt}
use t_rdf.Base.Int.{pos, negsuc}
use t_rdf.Loading.Compare.{IdTuple, spo_cmp, ops_cmp, pso_cmp, pos_cmp}

abbrev a : IdTuple
a = record { sub_id = 3; pre_id = 1; obj_id = 9 }

abbrev b : IdTuple
b = record { sub_id = 5; pre_id = 1; obj_id = 7 }

spo_run : spo_cmp a b ≡ negsuc 1
unfolding spo_cmp
spo_run = refl

ops_run : ops_cmp a b ≡ pos 2
unfolding ops_cmp
ops_run = refl

pso_run : pso_cmp a b ≡ negsuc 1
unfolding pso_cmp
pso_run = refl

pos_run : pos_cmp a b ≡ pos 2
unfolding pos_cmp
pos_run = refl

-- Sorting by insertion.
abbrev put_in : {A : Type 0} (after : A → A → Bool) → A → List A → List A
put_in after t [] = t ∷ []
put_in after t (u ∷ us) = let rest = put_in after t us in if after t u then u ∷ rest else t ∷ u ∷ us

abbrev sort_by : {A : Type 0} (after : A → A → Bool) → List A → List A
sort_by after [] = []
sort_by after (t ∷ ts) = put_in after t (sort_by after ts)

abbrev sort_ids : List ℕ → List ℕ
sort_ids xs = sort_by (λ x y. ltb y x) xs

abbrev sort_triples : Sorter
sort_triples cmp ts = sort_by (λ t u. is_negative (cmp u t)) ts

abbrev c : IdTuple
c = record { sub_id = 3; pre_id = 2; obj_id = 4 }

abbrev three : List IdTuple
three = b ∷ c ∷ a ∷ []

sorted_by_sub : sort_triples spo_cmp three ≡ a ∷ c ∷ b ∷ []
unfolding spo_cmp
sorted_by_sub = refl

s2o_run :
    (s2o_sp2o_s2po sort_ids sort_triples three >>= λ d. done (d.indexes.s2o 3))
    ≡ done (some (4 ∷ 9 ∷ []))
unfolding s2o_sp2o_s2po spo_cmp new_arrays enlarge append slice changes add_triple store_pair
    store_sub build_step
s2o_run = refl

s2o_sp2o_s2po-IsBuilt_example : Returns (s2o_sp2o_s2po sort_ids sort_triples three) (λ d.
    IsBuilt
      (λ t. t.sub_id)
      (λ t. t.pre_id)
      (λ t. t.obj_id)
      sort_ids
      (sort_triples spo_cmp three)
      d.indexes)
unfolding spo_cmp
s2o_sp2o_s2po-IsBuilt_example =
    s2o_sp2o_s2po-IsBuilt sort_ids sort_triples three ((refl, (refl, tt)), ((refl, tt), (tt, tt)))
      (omega arith)

o2s_op2s_o2ps-IsBuilt_example : Returns (o2s_op2s_o2ps sort_ids sort_triples three) (λ d.
    IsBuilt
      (λ t. t.obj_id)
      (λ t. t.pre_id)
      (λ t. t.sub_id)
      sort_ids
      (sort_triples ops_cmp three)
      d.indexes)
unfolding ops_cmp
o2s_op2s_o2ps-IsBuilt_example =
    o2s_op2s_o2ps-IsBuilt sort_ids sort_triples three ((refl, (refl, tt)), ((refl, tt), (tt, tt)))
      (omega arith)

put_in_front : (x : ℕ) (ys : List ℕ) → IsBelow x ys → put_in (λ y z. ltb z y) x ys ≡ x ∷ ys
put_in_front x [] h = refl
put_in_front x (y ∷ ys) h = ground (arith, h.0)

sort_ids_leaves : (xs : List ℕ) → IsAscending xs → sort_ids xs ≡ xs
sort_ids_leaves [] h = refl
sort_ids_leaves (x ∷ xs) h = rw (sort_ids_leaves xs h.1) (put_in_front x xs h.0)

-- Predicates 0 and 1, and one triple twice.
abbrev triple_of : (s p o : ℕ) → IdTuple
triple_of s p o = record { sub_id = s; pre_id = p; obj_id = o }

abbrev four : List IdTuple
four = triple_of 5 1 7 ∷ triple_of 3 0 9 ∷ triple_of 2 0 9 ∷ triple_of 3 0 9 ∷ []

abbrev both_files : PreFiles → List ℕ × List ℕ
both_files r = (r.p2s, r.p2o)

p2s_run :
    (p2s_p2o sort_ids sort_triples 2 four >>= λ r. done (both_files r))
    ≡ done (2 ∷ 3 ∷ 5 ∷ [], 9 ∷ 7 ∷ [])
unfolding p2s_p2o pre_loop pre_round pre_step write_list list_start add_new ends_with changes
    pso_cmp pos_cmp
p2s_run = refl

p2s_p2o-HasParts_example : Returns (p2s_p2o sort_ids sort_triples 2 four) (λ r.
    HasParts 0 (λ t. t.sub_id) (sort_triples pso_cmp four) r.p2s r.stat
    × HasParts 2 (λ t. t.obj_id) (sort_triples pos_cmp (sort_triples pso_cmp four)) r.p2o r.stat)
unfolding pso_cmp pos_cmp
p2s_p2o-HasParts_example =
    p2s_p2o-HasParts sort_ids sort_ids_leaves 2 sort_triples four
      ((refl, (refl, (refl, tt))), ((refl, (refl, tt)), ((refl, tt), (tt, tt))))
      ((refl, (refl, (refl, tt))), ((refl, (refl, tt)), ((refl, tt), (tt, tt))))
      (refl, inl (refl, inl (refl, inr (refl, inl tt))))
      (refl, inl (refl, inl (refl, inr (refl, inl tt))))
      (omega arith, (omega arith, (omega arith, (omega arith, tt))))
      (omega arith, (omega arith, (omega arith, (omega arith, tt))))
