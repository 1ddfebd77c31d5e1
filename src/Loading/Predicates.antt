-- ===== src/Loading/Predicates.antt =====
-- The first part of `p2s_p2o` of Database/Database.cpp, up to the closing of its files: the subjects
-- and the objects of each predicate, one after the other in a file, and a table of where they stand.
-- The two loops are the same for subjects and objects, and are modelled once. `std::sort` and
-- `qsort` are parameters, and a file is what was written to it.
use t_rdf.Base.{
  ℕ, ◌+◌, ◌-◌, ◌*◌, Bool, true, false, ◌||◌, List, [], ◌∷◌, ◌++◌, ltb, ◌==◌, if◌then◌else◌, length,
}
use t_rdf.Base.Run.{Run, done, out_of_bounds, ◌>>=◌}
use t_rdf.Query.Basic.{put}
use t_rdf.Loading.Compare.{IdTuple, pso_cmp, pos_cmp}
use t_rdf.Loading.Building.{Sorter, changes}

-- `_sidlist_p` or `_oidlist_p`, `_pre_change`, the file of the lists, and `preStatDict`.
pub record PreLists : Type 0 where
  pub idlist : List ℕ
  pub pre_change : Bool
  pub file : List ℕ
  pub pre_stat : ℕ → ℕ

-- Whether the list is not empty and has this id at its end.
unfoldable pub ends_with : List ℕ → ℕ → Bool
ends_with [] id = false
ends_with (x ∷ []) id = x == id
ends_with (x ∷ y ∷ ys) id = ends_with (y ∷ ys) id

unfoldable pub add_new : List ℕ → ℕ → List ℕ
add_new ids id = if ends_with ids id then ids else ids ++ id ∷ []

-- `column` is 0 for subjects and 2 for objects, and `id` reads one of a triple.
module _ (sort : List ℕ → List ℕ) (pre_num column : ℕ) (id : IdTuple → ℕ) where
  -- Where the list of a predicate starts: behind that of the predicate before it.
  unfoldable pub list_start : (ℕ → ℕ) → (pre : ℕ) → ℕ
  list_start stat pre =
      if pre == 0 then 0 else stat ((pre - 1) * 4 + column) + stat ((pre - 1) * 4 + column + 1)

  -- The sorted list of a predicate that ends is written. The table has `pre_num` rows.
  unfoldable pub write_list : (pre : ℕ) → PreLists → Run PreLists
  write_list pre c =
      let ids = sort c.idlist in
      if ltb pre pre_num
      then done (record c {
        idlist = ids;
        file = c.file ++ ids;
        pre_stat =
            put (put c.pre_stat (pre * 4 + column) (list_start c.pre_stat pre))
              (pre * 4 + column + 1) (length ids);
      })
      else out_of_bounds

  unfoldable pub pre_step : IdTuple → (rest : List IdTuple) → PreLists → Run PreLists
  pre_step t rest c =
      let ids = add_new (if c.pre_change then [] else c.idlist) (id t) in
      let over = changes (λ u. u.pre_id) t rest in
      let added : PreLists = record c { idlist = ids; pre_change = over } in
      if over then write_list t.pre_id added else done added

  -- Of equal triples only the last one counts.
  unfoldable pub pre_round : IdTuple → (rest : List IdTuple) → PreLists → Run PreLists
  pre_round t rest c =
      if changes (λ u. u.sub_id) t rest
        || changes (λ u. u.pre_id) t rest
        || changes (λ u. u.obj_id) t rest
      then pre_step t rest c
      else done c

  unfoldable pub pre_loop : List IdTuple → PreLists → Run PreLists
  pre_loop [] c = done c
  pre_loop (t ∷ rest) c = pre_round t rest c >>= λ d. pre_loop rest d

-- The files of the subjects and of the objects, and the table.
pub record PreFiles : Type 0 where
  pub p2s : List ℕ
  pub p2o : List ℕ
  pub stat : ℕ → ℕ

unfoldable pub p2s_p2o : (List ℕ → List ℕ) → Sorter → (pre_num : ℕ) → List IdTuple → Run PreFiles
p2s_p2o sort qsort pre_num tuples = do
  let by_sub = qsort pso_cmp tuples
  c ←
      pre_loop sort pre_num 0 (λ t. t.sub_id) by_sub
        (record { idlist = []; pre_change = true; file = []; pre_stat = λ i. 0 })
  let by_obj = qsort pos_cmp by_sub
  d ←
      pre_loop sort pre_num 2 (λ t. t.obj_id) by_obj
        (record { idlist = []; pre_change = c.pre_change; file = []; pre_stat = c.pre_stat })
  done (record { p2s = c.file; p2o = d.file; stat = d.pre_stat })
