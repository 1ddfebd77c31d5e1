-- ===== src/KvStore/Update.antt =====
-- `updateTupleslist_insert` and `updateTupleslist_remove` of KVstore/KVstore.cpp: a triple is put
-- into, or taken out of, the six indexes. Each block gets a list, changes it, and sets it.
use t_rdf.Base.{
  ℕ, ◌+◌, Bool, true, false, ◌&&◌, Option, none, some, List, ◌==◌, if◌then◌else◌, length,
}
use t_rdf.Base.Run.{Run, done, out_of_bounds, out_of_fuel}
use t_rdf.KvStore.Lists.{insert_x, insert_xy, remove_x, remove_xy}
use t_rdf.KvStore.Memory.{
  fault, read_outside, Array, Cmd, ◌>>=◌, ◌>>◌, pure, allocate, delete, store, contents,
}
use t_rdf.KvStore.Maps.{insert, search_copy, search_shared}

abbrev pub Key : Type 0
Key = ℕ × ℕ

abbrev pub same_key : Key → Key → Bool
same_key (a, b) (c, d) = a == c && b == d

-- The index fields of the class that a triple update changes.
pub record Indexes : Type 0 where
  pub sp2o : Key → Option Array
  pub op2s : Key → Option Array
  pub s2po : ℕ → Option Array
  pub o2ps : ℕ → Option Array
  pub s2o : ℕ → Option Array
  pub o2s : ℕ → Option Array

abbrev pub lift : {A : Type 0} → Run A → Cmd A
lift (done a) = pure a
lift out_of_bounds = λ m. fault read_outside
lift out_of_fuel = λ m. fault read_outside

-- `insert_x` and `insert_xy` on an array: a new one replaces the old one, which is deleted.
unfoldable pub insert_at : (Option (List ℕ) → Run (Bool × List ℕ)) → Array → Cmd (Bool × Array)
insert_at change a = do
  list ← contents a
  (inserted, ys) ← lift (change list)
  if inserted
      then (do q ← allocate ys; delete a.vec; pure (true, record { vec = q; len = length ys }))
      else pure (false, a)

-- `remove_x` and `remove_xy` on an array, which is changed where it stands. On a null array,
-- whose length is 0, the loops do nothing.
unfoldable pub remove_at : (List ℕ → Run (Bool × List ℕ × ℕ)) → Array → Cmd (Bool × Array)
remove_at change a = do
  list ← contents a
  elim list [
    | none ↦ pure (false, a)
    | some xs ↦ do
      (removed, ys, n) ← lift (change xs)
      (if removed then store a.vec ys else pure tt)
      pure (removed, record { vec = a.vec; len = n })
  ]

module _ {K : Type 0} (same : K → K → Bool) (search : (K → Option Array) → K → Cmd Array)
    (map : K → Option Array) (key : K) where
  -- One block of the insertion: the map afterwards, and the length that is added up.
  unfoldable pub insert_block :
      (Option (List ℕ) → Run (Bool × List ℕ)) → Cmd ((K → Option Array) × ℕ)
  insert_block change = do
    a ← search map key
    (inserted, b) ← insert_at change a
    map' ← (if inserted then insert same map key b else pure map)
    delete b.vec
    pure (map', b.len)

  -- One block of the removal. With nothing left the call that removes the key is commented out.
  unfoldable pub remove_block : (List ℕ → Run (Bool × List ℕ × ℕ)) → Cmd (K → Option Array)
  remove_block change = do
    a ← search map key
    (removed, b) ← remove_at change a
    map' ← (if b.len == 0 then pure map else if removed then insert same map key b else pure map)
    delete b.vec
    pure map'

module _ (kv : Indexes) (sub pre obj : ℕ) where
  unfoldable pub update_tupleslist_insert : Cmd (Indexes × ℕ)
  update_tupleslist_insert = do
    (sp2o, n1) ← insert_block same_key search_shared kv.sp2o (sub, pre) (λ l. insert_x l obj)
    (op2s, n2) ← insert_block same_key search_shared kv.op2s (obj, pre) (λ l. insert_x l sub)
    (s2po, n3) ← insert_block ◌==◌ search_copy kv.s2po sub (λ l. insert_xy l pre obj)
    (o2ps, n4) ← insert_block ◌==◌ search_copy kv.o2ps obj (λ l. insert_xy l pre sub)
    (s2o, n5) ← insert_block ◌==◌ search_copy kv.s2o sub (λ l. insert_x l obj)
    (o2s, n6) ← insert_block ◌==◌ search_copy kv.o2s obj (λ l. insert_x l sub)
    pure (
      record { sp2o = sp2o; op2s = op2s; s2po = s2po; o2ps = o2ps; s2o = s2o; o2s = o2s },
      n1 + n2 + n3 + n4 + n5 + n6,
    )

  unfoldable pub update_tupleslist_remove : Cmd Indexes
  update_tupleslist_remove = do
    sp2o ← remove_block same_key search_shared kv.sp2o (sub, pre) (λ l. done (remove_x l obj))
    op2s ← remove_block same_key search_shared kv.op2s (obj, pre) (λ l. done (remove_x l sub))
    s2po ← remove_block ◌==◌ search_copy kv.s2po sub (λ l. remove_xy l pre obj)
    o2ps ← remove_block ◌==◌ search_copy kv.o2ps obj (λ l. remove_xy l pre sub)
    s2o ← remove_block ◌==◌ search_copy kv.s2o sub (λ l. done (remove_x l obj))
    o2s ← remove_block ◌==◌ search_copy kv.o2s obj (λ l. done (remove_x l sub))
    pure (record { sp2o = sp2o; op2s = op2s; s2po = s2po; o2ps = o2ps; s2o = s2o; o2s = o2s })
