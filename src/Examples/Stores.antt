-- ===== src/Examples/Stores.antt =====
-- KVstore/KVstore.cpp and KVstore/HashMap.h on small stores.
use t_rdf.Base.{
  ℕ, ◌+◌, ◌≡◌, refl, true, Option, none, some, List, [], ◌∷◌, arith, ◌==◌, if◌then◌else◌, length,
  take,
}
use t_rdf.Base.Run.{done, out_of_bounds, Returns}
use t_rdf.KvStore.Lists.{
  insert_x_loop, insert_x_array, insert_x, insert_xy, remove_x_array, remove_x, remove_xy,
}
use t_rdf.KvStore.Pairs.{Pairs}
use t_rdf.KvStore.InsertX.{Inserted, insert_x-Inserted}
use t_rdf.KvStore.InsertXy.{InsertedXy, insert_xy-InsertedXy}
use t_rdf.KvStore.Remove.{RemovedXy, remove_x-without, remove_xy-RemovedXy}
use t_rdf.KvStore.Memory.{Memory, ok, fault, delete_of_deleted, Array, write}
use t_rdf.KvStore.Maps.{search_copy}
use t_rdf.KvStore.Update.{same_key, Indexes, insert_block, update_tupleslist_insert}
use t_rdf.KvStore.Holds.{Holds}
use t_rdf.KvStore.Aliasing.{Replaced, insert_block-copy, update_tupleslist_insert_deleted}

abbrev objects : List ℕ
objects = 5 ∷ 9 ∷ []

abbrev edges : Pairs
edges = (1, 4) ∷ (1, 7) ∷ (3, 2) ∷ []

insert_x_run : insert_x (some objects) 7 ≡ done (true, 5 ∷ 7 ∷ 9 ∷ [])
unfolding insert_x insert_x_array insert_x_loop
insert_x_run = refl

-- An array of length 0 that is not null is read at `_xlist[0]`.
insert_x_empty : insert_x (some []) 7 ≡ out_of_bounds
unfolding insert_x insert_x_array
insert_x_empty = refl

-- The array keeps its size: what is behind the new length is left over.
remove_x_run : remove_x objects 5 ≡ (true, 9 ∷ 0 ∷ [], 1)
unfolding remove_x remove_x_array
remove_x_run = refl

insert_x-Inserted_example : Returns (insert_x (some objects) 7) (Inserted 7 objects)
insert_x-Inserted_example = insert_x-Inserted (some objects) 7 ((omega arith, tt), (tt, tt))

insert_xy-InsertedXy_example :
    Returns (insert_xy (some (1 ∷ 4 ∷ 1 ∷ 7 ∷ 3 ∷ 2 ∷ [])) 1 6) (InsertedXy 1 6 edges)
insert_xy-InsertedXy_example =
    insert_xy-InsertedXy edges 1 6 ((refl, (refl, tt)), ((refl, tt), (tt, tt)))

remove_x-without_example :
    ((remove_x objects 9).0 ≡ true)
    × (take (remove_x objects 9).2 (remove_x objects 9).1 ≡ 5 ∷ [])
    × (length (remove_x objects 9).1 ≡ 2)
    × ((remove_x objects 9).2 + 1 ≡ 2)
remove_x-without_example = remove_x-without objects 9 ((omega arith, tt), (tt, tt))

remove_xy-RemovedXy_example :
    Returns (remove_xy (1 ∷ 4 ∷ 1 ∷ 7 ∷ 3 ∷ 2 ∷ []) 1 7) (RemovedXy 1 7 edges)
remove_xy-RemovedXy_example =
    remove_xy-RemovedXy edges 1 7 ((refl, (refl, tt)), ((refl, tt), (tt, tt)))

-- One array on the free store, at address 1, which an index holds under the key of a test.
abbrev one_array : Memory
one_array = record { blocks = write (λ p. none) 1 (some objects); next = 2 }

abbrev array : Array
array = record { vec = 1; len = 2 }

one_array-Holds : Holds one_array array objects
one_array-Holds = record { not_null = refl; allocated = refl; length_ok = refl; used = omega arith }

abbrev s2o : ℕ → Option Array
s2o s = if s == 3 then some array else none

insert_block-copy_example :
    (map' : ℕ → Option Array) × (m' : Memory) × (insert_block ◌==◌ search_copy s2o 3
        (λ l. insert_x l 7)
        one_array
      ≡ ok (map', 3) m')
    × Replaced ◌==◌ s2o 3 one_array array (5 ∷ 7 ∷ 9 ∷ []) map' m'
insert_block-copy_example =
    insert_block-copy ◌==◌ s2o 3 one_array array objects (5 ∷ 7 ∷ 9 ∷ []) (λ l. insert_x l 7) refl
      one_array-Holds insert_x_run

abbrev indexes : Indexes
indexes = record {
  sp2o = λ k. if same_key k (3, 8) then some array else none;
  op2s = λ k. none;
  s2po = λ k. none;
  o2ps = λ k. none;
  s2o = λ k. none;
  o2s = λ k. none;
}

update_tupleslist_insert_deleted_example :
    update_tupleslist_insert indexes 3 8 7 one_array ≡ fault delete_of_deleted
update_tupleslist_insert_deleted_example =
    update_tupleslist_insert_deleted indexes 3 8 7 5 (9 ∷ []) array one_array refl one_array-Holds
      ((omega arith, tt), (tt, tt)) refl
