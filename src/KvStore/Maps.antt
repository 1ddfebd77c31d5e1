-- ===== src/KvStore/Maps.antt =====
-- The maps `IVMap` and `IIVMap` of KVstore/HashMap.h, from keys to arrays.
use t_rdf.Base.{Bool, Option, none, some, if◌then◌else◌}
use t_rdf.KvStore.Memory.{null, Array, Cmd, ◌>>=◌, pure, allocate, load, copy}

-- `same` compares keys.
module _ {K : Type 0} (same : K → K → Bool) where
  -- `map[key].copy(val, len)`, where a missing entry is made with a null pointer.
  unfoldable pub insert : (K → Option Array) → K → Array → Cmd (K → Option Array)
  insert map key val = do
    let old : Array = elim (map key) [ none ↦ record { vec = null; len = 0 } | some v ↦ v ]
    v ← copy old val
    pure (λ k. if same key k then some v else map k)

module _ {K : Type 0} where
  -- `IVMap::search` allocates a copy. A miss leaves a null pointer, by the getters of KVstore.
  unfoldable pub search_copy : (K → Option Array) → K → Cmd Array
  search_copy map key = elim (map key) [
    | none ↦ pure (record { vec = null; len = 0 })
    | some v ↦ do xs ← load v.vec v.len; q ← allocate xs; pure (record { vec = q; len = v.len })
  ]

  -- `IIVMap::search` hands out the array of the map itself.
  unfoldable pub search_shared : (K → Option Array) → K → Cmd Array
  search_shared map key m = elim (map key) [
    | none ↦ pure (record { vec = null; len = 0 }) m
    | some v ↦ pure v m
  ]
