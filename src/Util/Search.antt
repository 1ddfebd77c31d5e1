-- ===== src/Util/Search.antt =====
-- The searches of util/util.cpp. `high` may be -1, so the loop keeps `end`, which is `high + 1`.
use t_rdf.Base.{
  ℕ, zero, suc, ◌+◌, ◌-◌, ◌*◌, ◌/◌, Bool, true, false, ◌||◌, Option, none, some, List, ltb, ◌==◌,
  if◌then◌else◌, length,
}
use t_rdf.Base.Int.{ℤ, pos, negsuc}
use t_rdf.Base.Run.{Run, done, out_of_bounds, out_of_fuel, ◌>>=◌, read}

abbrev pub midpoint : (low end : ℕ) → ℕ
midpoint low end = (end - 1 - low) / 2 + low

-- `while (low <= high)`, where `key_at i` reads the i-th key.
unfoldable pub search_loop : (key : ℕ) (key_at : ℕ → Run ℕ) (fuel low end : ℕ) → Run ℤ
search_loop key key_at zero low end = out_of_fuel
search_loop key key_at (suc fuel) low end =
    let mid = midpoint low end in
    let lower = search_loop key key_at fuel low mid in
    let upper = search_loop key key_at fuel (mid + 1) end in
    let body =
      key_at mid >>= λ v. if v == key then done (pos mid) else if ltb key v then lower else upper in
    if ltb low end then body else done (negsuc 0)

-- The tests on the first and the last key, and then the loop, over `suc last` keys.
unfoldable pub search_from : (key : ℕ) (key_at : ℕ → Run ℕ) (last : ℕ) → Run ℤ
unfolding search_loop
search_from key key_at last = do
  first_key ← key_at 0
  last_key ← key_at last
  let absent = ltb last_key key || ltb key first_key
  let loop = search_loop key key_at (last + 2) 0 (last + 1)
  if last_key == key then done (pos last) else if absent then done (negsuc 0) else loop

-- `none` is the null pointer.
unfoldable pub bsearch_int_uporder : (key : ℕ) → Option (List ℕ) → (array_num : ℕ) → Run ℤ
bsearch_int_uporder key array zero = done (negsuc 0)
bsearch_int_uporder key none (suc last) = done (negsuc 0)
bsearch_int_uporder key (some array) (suc last) = search_from key (read array) last

unfoldable pub bsearch_vec_uporder : (key : ℕ) → List ℕ → Run ℤ
bsearch_vec_uporder key vec = elim (length vec) [
  | zero ↦ done (negsuc 0)
  | suc last ↦ search_from key (read vec) last
]

abbrev pub is_found : ℤ → Bool
is_found (pos i) = true
is_found (negsuc i) = false

-- The list holds pairs, flattened. With one element only, the last pair has index -1.
unfoldable pub bsearch_preid_uporder : (preid : ℕ) → List ℕ → (list_len : ℕ) → Run Bool
bsearch_preid_uporder preid pairs zero = done false
bsearch_preid_uporder preid pairs (suc n) = elim (suc n / 2) [
  | zero ↦ out_of_bounds
  | suc last ↦ do r ← search_from preid (λ i. read pairs (2 * i)) last; done (is_found r)
]
