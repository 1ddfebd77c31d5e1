-- ===== src/KvStore/Aliasing.antt =====
-- The blocks of `updateTupleslist_insert` of KVstore/KVstore.cpp on the free store, with the two
-- ways of `search` in KVstore/HashMap.h.
use t_rdf.Base.{
  ℕ, suc, ◌≡◌, refl, sym, ◌≢◌, Bool, true, false, Option, none, some, List, ◌∷◌, arith, ◌==◌,
  if◌then◌else◌, length,
}
use t_rdf.Base.Run.{Run, done}
use t_rdf.Base.Sets.{mem, IsAscending}
use t_rdf.KvStore.Lists.{insert_x}
use t_rdf.KvStore.InsertX.{insert_id, insert_x-insert_id}
use t_rdf.KvStore.Memory.{null, Memory, ok, Fault, fault, delete_of_deleted, Array, ◌>>=◌, copy}
use t_rdf.KvStore.Maps.{insert, search_copy, search_shared}
use t_rdf.KvStore.Update.{same_key, Indexes, insert_block, update_tupleslist_insert}
use t_rdf.KvStore.Holds.{
  Holds, freed, grown, allocate-grown, Holds-grown, Holds-freed, Holds-new, load-Holds,
  delete-Holds, insert_at-Holds, copy-Holds, copy-deleted,
}

module _ {K : Type 0} (same : K → K → Bool) (map : K → Option Array) (key : K) where
  insert-fault :
      (m : Memory) (v new : Array) (e : Fault)
      → map key ≡ some v
      → copy v new m ≡ fault e
      → insert same map key new m ≡ fault e
  unfolding insert
  insert-fault m v new e there h = rw there (rw (h, ◌>>=◌))

  insert-ok :
      (m m' : Memory) (v new w : Array)
      → map key ≡ some v
      → copy v new m ≡ ok w m'
      → insert same map key new m ≡ ok (λ k. if same key k then some w else map k) m'
  unfolding insert
  insert-ok m m' v new w there h = rw there (rw (h, ◌>>=◌))

  search_copy-grown :
      (m : Memory) (v : Array) (xs : List ℕ)
      → map key ≡ some v
      → Holds m v xs
      → search_copy map key m ≡ ok (record { vec = m.next; len = v.len }) (grown m xs)
  unfolding search_copy
  search_copy-grown m v xs there h =
      rw (there, search_copy) (rw (load-Holds m v xs h, ◌>>=◌) (rw (allocate-grown m xs, ◌>>=◌)))

-- What such a block leaves: the map has the changed list at the key, and no other entry has
-- changed; every array that was there, but for the replaced one, is there.
pub record Replaced {K : Type 0} (same : K → K → Bool) (map : K → Option Array) (key : K)
    (m : Memory) (v : Array) (ys : List ℕ) (map' : K → Option Array) (m' : Memory) : Type 0 where
  pub entry : Array
  pub at_key : same key key ≡ true → map' key ≡ some entry
  pub elsewhere : (k : K) → same key k ≡ false → map' k ≡ map k
  pub holds : Holds m' entry ys
  pub others : (w : Array) (zs : List ℕ) → Holds m w zs → w.vec ≢ v.vec → Holds m' w zs

module _ {K : Type 0} (same : K → K → Bool) (map : K → Option Array) (key : K) (m : Memory)
    (v : Array) (xs ys : List ℕ) (change : Option (List ℕ) → Run (Bool × List ℕ))
    (there : map key ≡ some v) (h : Holds m v xs) (e : change (some xs) ≡ done (true, ys)) where
  -- A block whose `search` hands out the array of the map deletes that array twice, whenever it
  -- has something to insert into an array that is there.
  pub insert_block-shared :
      insert_block same search_shared map key change m ≡ fault delete_of_deleted
  unfolding insert_block search_shared
  insert_block-shared =
      let m' = freed (grown m ys) v.vec in
      let b : Array = record { vec = m.next; len = length ys } in
      let gone : m'.blocks v.vec ≡ none = ground arith in
      let new : (m.next == null) ≡ false = ground (arith, h.used) in
      let twice = copy-deleted m' v b new h.not_null gone in
      rw (there, ◌>>=◌)
        (rw (insert_at-Holds m v xs ys change h e, ◌>>=◌)
          (rw (insert-fault same map key m' v b delete_of_deleted there twice, ◌>>=◌)))

  -- Let the map have an array at the key, which holds a list, and let the change return a new list
  -- and that it has inserted. A block whose `search` copies then ends, the map has an array that
  -- holds the new list at the key and no other entry has changed, and every other array that was
  -- held still is.
  pub insert_block-copy :
      (map' : K → Option Array) × (m' : Memory) × (insert_block same search_copy map key change m
        ≡ ok (map', length ys) m')
      × Replaced same map key m v ys map' m'
  unfolding insert_block
  insert_block-copy =
      let a : Array = record { vec = m.next; len = v.len } in
      let m1 = grown m xs in
      let held = Holds-new m v.len xs (omega (arith, h.used)) h.length_ok in
      let b : Array = record { vec = suc m.next; len = length ys } in
      let m2 = freed (grown m1 ys) m.next in
      let old = Holds-grown m1 v xs ys (Holds-grown m v xs xs h) in
      let old2 : Holds m2 v xs =
        Holds-freed (grown m1 ys) v xs m.next (ground (arith, h.used)) old in
      let new = Holds-new m1 (length ys) ys (omega arith) refl in
      let new2 : Holds m2 b ys = Holds-freed (grown m1 ys) b ys m.next (omega arith) new in
      let m3 = grown (freed m2 v.vec) ys in
      let w : Array = record { vec = suc (suc m.next); len = length ys } in
      let copied = copy-Holds m2 v b xs ys old2 new2 (ground (arith, h.used)) in
      let new3 : Holds m3 b ys =
        Holds-grown (freed m2 v.vec) b ys ys
          (Holds-freed m2 b ys v.vec (ground (arith, h.used)) new2) in
      (
        λ k. if same key k then some w else map k,
        freed m3 (suc m.next),
        rw (search_copy-grown same map key m v xs there h, ◌>>=◌)
            (rw (insert_at-Holds m1 a xs ys change held e, ◌>>=◌)
              (rw (insert-ok same map key m2 m3 v b w there copied, ◌>>=◌)
                (rw (delete-Holds m3 b ys new3, ◌>>=◌)))),
        record {
          entry = w;
          at_key = λ t. rw t;
          elsewhere = λ k t. rw t;
          holds =
              Holds-freed m3 w ys (suc m.next) (omega arith)
                (Holds-new (freed m2 v.vec) (length ys) ys (omega arith) refl);
          others = λ u zs hu ne.
              let h1 = Holds-grown m1 u zs ys (Holds-grown m u zs xs hu) in
              let h2 = Holds-freed (grown m1 ys) u zs m.next (ground (arith, hu.used)) h1 in
              let h3 = Holds-freed m2 u zs v.vec (λ same_array. ne (sym same_array)) h2 in
              let h4 = Holds-grown (freed m2 v.vec) u zs ys h3 in
              Holds-freed m3 u zs (suc m.next) (ground (arith, hu.used)) h4;
        },
      )

-- If the subject already has an object under the predicate, in an ascending list without the new
-- object, the insertion of the triple deletes the array of that list twice.
pub update_tupleslist_insert_deleted :
    (kv : Indexes) (sub pre obj y : ℕ) (ys : List ℕ) (v : Array) (m : Memory)
    → kv.sp2o (sub, pre) ≡ some v
    → Holds m v (y ∷ ys)
    → IsAscending (y ∷ ys)
    → mem obj (y ∷ ys) ≡ false
    → update_tupleslist_insert kv sub pre obj m ≡ fault delete_of_deleted
unfolding update_tupleslist_insert
update_tupleslist_insert_deleted kv sub pre obj y ys v m there h a absent =
    let new = insert_x-insert_id obj y ys a absent in
    let twice =
      insert_block-shared same_key kv.sp2o (sub, pre) m v (y ∷ ys) (insert_id obj (y ∷ ys))
        (λ l. insert_x l obj) there h new in
    rw (twice, ◌>>=◌)
