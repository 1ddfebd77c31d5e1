-- ===== src/Examples/Caches.antt =====
-- The buffer of VSTree/LRUCache.cpp on a file of numbers.
use t_rdf.Base.{
  ℕ, ◌+◌, ◌*◌, ◌^◌, ◌≡◌, refl, true, false, List, [], ◌∷◌, Option, none, some, arith, ◌==◌, ==_iff,
  Bool-cases, inl, inr,
}
use t_rdf.Base.Int.{pos}
use t_rdf.Query.Basic.{put}
use t_rdf.NodeCache.Defs.{
  NodeIo, LruCache, lru_cache, load_cache, create_cache, set_node, set_elem, swap_out, flush,
  start_index,
}
use t_rdf.NodeCache.Slots.{Fits}
use t_rdf.NodeCache.Store.{Persists}
use t_rdf.NodeCache.Swapping.{Acts}
use t_rdf.NodeCache.Memory.{set_node-Acts}
use t_rdf.NodeCache.Client.{flush-IsFlushed}
use t_rdf.NodeCache.Calls.{
  Call, set, get, update, flush_all, node, flag, run, lru_cache-Acts, new_cache_run-replay,
}
use t_rdf.NodeCache.Overflow.{swap_out_overflow}

-- A file that holds a number, or none, at each offset.
abbrev numbers : NodeIo (ℕ → Option ℕ) ℕ
numbers = record {
  write_node = λ f offset v. put f offset (some v);
  read_node = λ f offset. f offset;
  unwritten = λ f offset. 0;
  new_file = λ offset. none;
}

numbers-Persists : Persists numbers 8
numbers-Persists f a b v = elim (Bool-cases (a == b)) [
  | inl e ↦
      let same : (a * 8 == b * 8) ≡ true = ground (arith, (==_iff a b).0 e) in rw (e, same) refl
  | inr e ↦ let other : (a * 8 == b * 8) ≡ false = ground (arith, e) in rw (e, other) refl
]

abbrev counted : ℕ → Option ℕ
counted offset = some (offset + 1)

abbrev fresh_cache : LruCache (ℕ → Option ℕ) ℕ
fresh_cache = (load_cache (lru_cache (pos 5) (λ z. z) (λ z. none)) (some counted)).1

abbrev some_calls : List (Call ℕ)
some_calls = get 2 ∷ set 2 70 ∷ get 2 ∷ update 3 80 ∷ flush_all ∷ get 3 ∷ []

-- A later line is set and flushed before an earlier one.
abbrev fresh_calls : List (Call ℕ)
fresh_calls = set 1 50 ∷ flush_all ∷ set 0 60 ∷ get 0 ∷ get 1 ∷ []

new_cache_run-replay_example :
    (run numbers 8 (λ v. pos v) some_calls fresh_cache
      ≡ node (some 17) ∷ flag false ∷ node (some 70) ∷ flag true ∷ flag true ∷ node (some 80) ∷ [])
    × (run numbers 8
          (λ v. pos v)
          fresh_calls
          (create_cache numbers (lru_cache (pos 5) (λ z. z) (λ z. none)) true).1
        ≡ flag false ∷ flag true ∷ flag false ∷ node (some 60) ∷ node (some 50) ∷ [])
new_cache_run-replay_example =
    new_cache_run-replay numbers 8 (λ v. pos v) (pos 5) (λ z. z) (λ z. none) counted some_calls
      fresh_calls numbers-Persists
      (omega arith, tt, (omega arith, (omega arith, tt, (omega arith, tt, (omega arith, tt, tt)))))
      (omega arith, (omega arith, (omega arith, tt, (omega arith, tt, tt))))

-- One line set in front of the file.
abbrev one_set : LruCache (ℕ → Option ℕ) ℕ
one_set = set_node numbers 8 (λ v. pos v) fresh_cache (pos 2) (some 70)

abbrev as_set : ℕ → Option ℕ
as_set = put (λ line. some (line * 8 + 1)) 2 (some 70)

one_set-Acts : Acts numbers 8 one_set as_set
unfolding load_cache
one_set-Acts =
    set_node-Acts numbers 8 (λ v. pos v) numbers-Persists fresh_cache (λ line. some (line * 8 + 1))
      2 70 (omega arith) (lru_cache-Acts numbers 8 (pos 5) (λ z. z) (λ z. none) counted)

flush-IsFlushed_example :
    (d : LruCache (ℕ → Option ℕ) ℕ) × (g : ℕ → Option ℕ) × (flush numbers 8 (λ v. pos v) one_set
      ≡ some (true, d))
    × (d.file ≡ some g)
    × ((line : ℕ) → Fits 8 line → g (line * 8) ≡ as_set line)
    × Acts numbers 8 d as_set
flush-IsFlushed_example =
    flush-IsFlushed numbers 8 (λ v. pos v) numbers-Persists one_set as_set one_set-Acts

-- The line 2 ^ 28 at a node size of 8.
abbrev far_set : LruCache (ℕ → Option ℕ) ℕ
far_set = set_node numbers 8 (λ v. pos v) fresh_cache (pos (2 ^ 28)) (some 70)

far_set-key : far_set.keys (far_set.next start_index) ≡ pos (2 ^ 28)
unfolding set_node set_elem lru_cache load_cache
far_set-key = refl

swap_out_overflow_example :
    ((swap_out numbers 8 (λ v. pos v) far_set).file ≡ far_set.file)
    × ((swap_out numbers 8 (λ v. pos v) far_set).key2pos (pos (2 ^ 28)) ≡ none)
swap_out_overflow_example =
    swap_out_overflow numbers 8 (λ v. pos v) far_set (2 ^ 28) far_set-key (omega arith)
      (omega arith)
