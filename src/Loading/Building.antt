-- ===== src/Loading/Building.antt =====
-- `s2o_sp2o_s2po` and `o2s_op2s_o2ps` of Database/Database.cpp: the lists of the indexes, built from
-- the sorted triples. The two loops are the same with subjects and objects exchanged, and are
-- modelled once; the words here are those of the first. `qsort` and `util::sort`, which calls it,
-- are parameters. An array is its filled part and its capacity, a pointer into it an offset.
use t_rdf.Base.{
  ℕ, suc, ◌+◌, ◌*◌, ◌^◌, Bool, true, not, ◌||◌, List, [], ◌∷◌, ◌++◌, Option, none, some, leb, ltb,
  ◌==◌, if◌then◌else◌, length, take, drop,
}
use t_rdf.Base.Int.{ℤ}
use t_rdf.Base.Run.{Run, done, out_of_bounds, ◌>>=◌}
use t_rdf.Query.Basic.{put, put2}
use t_rdf.Loading.Compare.{IdTuple, spo_cmp, ops_cmp}

-- The indexes subject to objects, subject and predicate to objects, and subject to pairs of
-- predicate and object. Setting a key stores a copy of the list.
pub record Indexes : Type 0 where
  pub s2o : ℕ → Option (List ℕ)
  pub sp2o : ℕ → ℕ → Option (List ℕ)
  pub s2po : ℕ → Option (List ℕ)

abbrev pub no_lists : Indexes
no_lists = record { s2o = λ s. none; sp2o = λ s p. none; s2po = λ s. none }

pub record Lists : Type 0 where
  pub oidlist_s : List ℕ
  pub oidlist_max : ℕ
  pub oidlist_sp : Option ℕ
  pub oidlist_sp_len : ℕ
  pub pidoidlist_s : List ℕ
  pub pidoidlist_max : ℕ
  pub sub_change : Bool
  pub sub_pre_change : Bool
  pub indexes : Indexes

unfoldable pub no_arrays : Lists
no_arrays = record {
  oidlist_s = [];
  oidlist_max = 0;
  oidlist_sp = none;
  oidlist_sp_len = 0;
  pidoidlist_s = [];
  pidoidlist_max = 0;
  sub_change = true;
  sub_pre_change = true;
  indexes = no_lists;
}

-- The new arrays for a new subject.
unfoldable pub new_arrays : Lists → Lists
new_arrays c =
    if c.sub_change
    then record c {
      oidlist_s = [];
      oidlist_max = 1000;
      oidlist_sp = some 0;
      oidlist_sp_len = 0;
      pidoidlist_s = [];
      pidoidlist_max = 1000 * 2;
    }
    else c

-- A full array is copied to one of ten times the size, an `int` product.
unfoldable pub enlarge : (len max : ℕ) → Run ℕ
enlarge len max =
    if len == max
    then (if ltb (max * 10) (2 ^ 31) then done (max * 10) else out_of_bounds)
    else done max

-- A write behind the filled part.
unfoldable pub append : List ℕ → (max : ℕ) → ℕ → Run (List ℕ)
append xs max x = if ltb (length xs) max then done (xs ++ x ∷ []) else out_of_bounds

-- The `len` elements that a pointer leads to; the null pointer fails an assertion of the store.
unfoldable pub slice : List ℕ → Option ℕ → (len : ℕ) → Run (List ℕ)
slice xs none len = out_of_bounds
slice xs (some start) len =
    if leb (start + len) (length xs) then done (take len (drop start xs)) else out_of_bounds

-- Whether the next triple differs from this one, or there is none.
unfoldable pub changes : (IdTuple → ℕ) → IdTuple → List IdTuple → Bool
changes key t [] = true
changes key t (u ∷ rest) = not (key t == key u)

-- `sub`, `pre` and `obj` read a triple; `sort` is `util::sort`.
module _ (sort : List ℕ → List ℕ) (sub pre obj : IdTuple → ℕ) where
  -- The object and the pair are added to the lists of the subject.
  unfoldable pub add_triple : IdTuple → Lists → Run Lists
  add_triple t c = do
    oid_max ← enlarge (length c.oidlist_s) c.oidlist_max
    pid_max ← enlarge (length c.pidoidlist_s) c.pidoidlist_max
    oids ← append c.oidlist_s oid_max (obj t)
    with_pre ← append c.pidoidlist_s pid_max (pre t)
    pids ← append with_pre pid_max (obj t)
    done (record c {
      oidlist_s = oids;
      oidlist_max = oid_max;
      oidlist_sp = if c.sub_pre_change then some (length c.oidlist_s) else c.oidlist_sp;
      oidlist_sp_len = suc c.oidlist_sp_len;
      pidoidlist_s = pids;
      pidoidlist_max = pid_max;
    })

  -- The lists that end with this triple are stored.
  unfoldable pub store_pair : IdTuple → Lists → Run Lists
  store_pair t c =
      let stored : Run Lists = (do
        xs ← slice c.oidlist_s c.oidlist_sp c.oidlist_sp_len
        done (record c {
          indexes = record c.indexes { sp2o = put2 c.indexes.sp2o (sub t) (pre t) (some xs) };
          oidlist_sp = none;
          oidlist_sp_len = 0;
        })) in
      if c.sub_pre_change then stored else done c

  unfoldable pub store_sub : IdTuple → Lists → Lists
  store_sub t c =
      if c.sub_change
      then record c {
        indexes = record c.indexes {
          s2o = put c.indexes.s2o (sub t) (some (sort c.oidlist_s));
          s2po = put c.indexes.s2po (sub t) (some c.pidoidlist_s);
        };
        oidlist_s = [];
        oidlist_sp = none;
        pidoidlist_s = [];
      }
      else c

  unfoldable pub build_step : IdTuple → (rest : List IdTuple) → Lists → Run Lists
  build_step t rest c = do
    added ← add_triple t (new_arrays c)
    let sub_changes = changes sub t rest
    let flagged : Lists = record added {
      sub_change = sub_changes;
      sub_pre_change = sub_changes || changes pre t rest;
    }
    stored ← store_pair t flagged
    done (store_sub t stored)

  unfoldable pub build_loop : List IdTuple → Lists → Run Lists
  build_loop [] c = done c
  build_loop (t ∷ rest) c = build_step t rest c >>= λ d. build_loop rest d

-- `qsort` with a comparison.
abbrev pub Sorter : Type 0
Sorter = (IdTuple → IdTuple → ℤ) → List IdTuple → List IdTuple

module _ (sort : List ℕ → List ℕ) (qsort : Sorter) where
  unfoldable pub s2o_sp2o_s2po : List IdTuple → Run Lists
  unfolding build_loop no_arrays
  s2o_sp2o_s2po tuples =
      build_loop sort (λ t. t.sub_id) (λ t. t.pre_id) (λ t. t.obj_id) (qsort spo_cmp tuples)
        no_arrays

  -- Objects in place of subjects, and subjects in place of objects.
  unfoldable pub o2s_op2s_o2ps : List IdTuple → Run Lists
  unfolding build_loop no_arrays
  o2s_op2s_o2ps tuples =
      build_loop sort (λ t. t.obj_id) (λ t. t.pre_id) (λ t. t.sub_id) (qsort ops_cmp tuples)
        no_arrays
