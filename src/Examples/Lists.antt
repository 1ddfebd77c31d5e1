-- ===== src/Examples/Lists.antt =====
-- util/util.cpp and Query/IDList.cpp on small lists.
use t_rdf.Base.{ℕ, zero, suc, ◌+◌, ◌*◌, ◌≡◌, refl, true, ◌||◌, some, List, [], ◌∷◌, arith, get_or}
use t_rdf.Base.Int.{pos, negsuc}
use t_rdf.Base.Run.{done, out_of_bounds, Returns, read}
use t_rdf.Base.Sets.{mem, IsAscending}
use t_rdf.Util.Search.{
  search_loop, search_from, bsearch_int_uporder, bsearch_vec_uporder, bsearch_preid_uporder,
}
use t_rdf.Util.Bsearch.{
  Locates, Answers, IsSorted, IsAscending→IsSorted, bsearch_int_uporder-Locates,
  bsearch_preid_uporder-Answers,
}
use t_rdf.IdList.Ops.{intersect_list, union_list, get_id, is_exist_id, element}
use t_rdf.IdList.Intersect.{intersect_list-common}
use t_rdf.IdList.Union.{union_list-IsAscending}

abbrev ids : List ℕ
ids = 2 ∷ 5 ∷ 9 ∷ []

abbrev more : List ℕ
more = 5 ∷ 7 ∷ 9 ∷ 11 ∷ []

search_hit : bsearch_vec_uporder 5 ids ≡ done (pos 1)
unfolding bsearch_vec_uporder search_from search_loop read
search_hit = refl

search_miss : bsearch_vec_uporder 6 ids ≡ done (negsuc 0)
unfolding bsearch_vec_uporder search_from search_loop read
search_miss = refl

-- A list of one element has no last pair.
search_half_pair : bsearch_preid_uporder 6 (6 ∷ []) 1 ≡ out_of_bounds
unfolding bsearch_preid_uporder
search_half_pair = refl

intersect_run : intersect_list ids more ≡ (5 ∷ 9 ∷ [], 1)
unfolding intersect_list
intersect_run = refl

union_run : union_list ids more ≡ (2 ∷ 5 ∷ 7 ∷ 9 ∷ 11 ∷ [], 2)
unfolding union_list
union_run = refl

get_id_run : (get_id ids 1 ≡ pos 5) × (get_id ids 3 ≡ negsuc 0) × (is_exist_id ids 9 ≡ true)
unfolding get_id is_exist_id
get_id_run = (refl, refl, refl)

-- Past its end, `operator[]` refers to the first element, and there is none in an empty list.
element_run : (element ids 7 ≡ done 2) × (element [] 0 ≡ out_of_bounds)
unfolding element read
element_run = (refl, refl)

ids-IsSorted : IsSorted (λ i. get_or ids i 0) 3
ids-IsSorted = IsAscending→IsSorted ids (omega arith)

bsearch_int_uporder-Locates_example :
    Returns (bsearch_int_uporder 5 (some ids) 3) (Locates (λ i. get_or ids i 0) 3 5)
bsearch_int_uporder-Locates_example = bsearch_int_uporder-Locates 5 ids ids-IsSorted

abbrev pairs : List ℕ
pairs = 6 ∷ 1 ∷ 8 ∷ 2 ∷ []

pairs-IsSorted : IsSorted (λ i. get_or pairs (2 * i) 0) 2
pairs-IsSorted zero zero le lt = omega arith
pairs-IsSorted zero (suc zero) le lt = omega arith
pairs-IsSorted zero (suc (suc j)) le lt = absurd (omega arith)
pairs-IsSorted (suc i) zero le lt = absurd (omega arith)
pairs-IsSorted (suc zero) (suc zero) le lt = omega arith
pairs-IsSorted (suc (suc i)) (suc zero) le lt = absurd (omega arith)
pairs-IsSorted (suc i) (suc (suc j)) le lt = absurd (omega arith)

bsearch_preid_uporder-Answers_example :
    Returns (bsearch_preid_uporder 8 pairs 4) (Answers pairs 2 8)
bsearch_preid_uporder-Answers_example = bsearch_preid_uporder-Answers 8 pairs 2 refl pairs-IsSorted

intersect_list-common_example :
    ((intersect_list ids more).0 ≡ 5 ∷ 9 ∷ []) × ((intersect_list ids more).1 + 2 ≡ 3)
intersect_list-common_example = intersect_list-common ids more (omega arith) (omega arith)

union_list-IsAscending_example :
    IsAscending (union_list ids more).0
    × ((z : ℕ) → mem z (union_list ids more).0 ≡ (mem z ids || mem z more))
union_list-IsAscending_example = union_list-IsAscending ids more (omega arith) (omega arith)
