-- ===== src/Examples/Filters.antt =====
-- The filter, on an entity that stands in two triples and a query with two edges.
use t_rdf.Base.{
  ℕ, ◌<◌, ◌≤◌, ◌≡◌, ◌↔◌, refl, true, false, inl, inr, tally, List, [], ◌∷◌, arith, Bool-cases, ◌==◌,
  if◌then◌else◌,
}
use t_rdf.Base.Int.{ℤ, pos, negsuc, eq_ℤ}
use t_rdf.Signature.BitSet.{
  BitSet, Encoded, ok, overflow, out_of_range, outside_array, str_sig_length, empty,
}
use t_rdf.Signature.Hash.{Text}
use t_rdf.Signature.Encode.{edge_out, encode_predicate2entity, encode_str2entity}
use t_rdf.Signature.Bounds.{Encodes, encode_regions}
use t_rdf.Signature.Cover.{SigEntry, cover, Covers, cover-Covers}
use t_rdf.Query.Basic.{Triple, BasicQuery, encode_triples}
use t_rdf.Filter.Entity.{string_mode, Place, as_subject, as_object, encode_entity}
use t_rdf.Filter.Within.{IsPreId}
use t_rdf.Filter.Edges.{IsVar}
use t_rdf.Filter.Sound.{QueryMatched, FitsArrays, filter_complete}
use t_rdf.Filter.Candidates.{candidate_complete}
use t_rdf.Base.Run.{Returns}
use t_rdf.VsTree.Node.{Node}
use t_rdf.VsTree.Children.{Listed}
use t_rdf.VsTree.Tree.{no_children, tree, dfs, retrieve_entity_im}
use t_rdf.VsTree.Sound.{leaf_entries, AllCovered, IsSound}

abbrev some_bits : SigEntry
some_bits = record { sig = λ i. i == 3; entity_id = pos 1 }

cover-Covers_example : (cover some_bits (λ i. i == 3) ≡ true) ↔ Covers some_bits (λ i. i == 3)
cover-Covers_example = cover-Covers some_bits (λ i. i == 3)

encode_regions_example :
    Encodes
      (encode_predicate2entity (pos 12) empty edge_out)
      (λ after. (i : ℕ) → i < str_sig_length → after i ≡ false)
    × Encodes
        (encode_str2entity (b'<' ∷ b'a' ∷ b'>' ∷ []) empty)
        (λ after. (i : ℕ) → str_sig_length ≤ i → after i ≡ false)
encode_regions_example = encode_regions 12 edge_out (b'<' ∷ b'a' ∷ b'>' ∷ []) empty (omega arith)

abbrev first : Text → ℕ
first [] = 0
first (c ∷ str) = c

-- A dictionary with one predicate, `p`, and the variables `?x` and `?y` of a query.
abbrev id_by_predicate : Text → ℤ
id_by_predicate str = if first str == b'p' then pos 7 else negsuc 0

abbrev second : Text → ℕ
second [] = 0
second (c ∷ str) = first str

abbrev var_str2id : Text → ℤ
var_str2id str =
    if second str == b'x' then pos 0 else if second str == b'y' then pos 1 else negsuc 0

abbrev text_x : Text
text_x = b'?' ∷ b'x' ∷ []

abbrev text_y : Text
text_y = b'?' ∷ b'y' ∷ []

abbrev text_p : Text
text_p = b'p' ∷ []

abbrev text_a : Text
text_a = b'a' ∷ []

abbrev text_e : Text
text_e = b'e' ∷ []

-- ?x p a, and ?y p ?x
abbrev query : List Triple
query =
    record { subject = text_x; predicate = text_p; object = text_a }
    ∷ record { subject = text_y; predicate = text_p; object = text_x }
    ∷ []

-- e p a, and a p e
abbrev data_of_e : List (Place × Triple)
data_of_e =
    (as_subject, record { subject = text_e; predicate = text_p; object = text_a })
    ∷ (as_object, record { subject = text_a; predicate = text_p; object = text_e })
    ∷ []

abbrev start : BasicQuery
start = record {
  var_sig = λ v. empty;
  var_degree = λ v. 0;
  edge_id = λ v k. negsuc 0;
  edge_nei_id = λ v k. negsuc 0;
  edge_pre_id = λ v k. negsuc 0;
  edge_type = λ v k. 0;
  edge_sig = λ v w. empty;
}

id_by_predicate-IsPreId : (str : Text) → IsPreId (id_by_predicate str)
id_by_predicate-IsPreId str = elim (Bool-cases (first str == b'p')) [
  | inl known ↦ rw known (omega arith)
  | inr unknown ↦ rw unknown refl
]

var_str2id-IsVar : (str : Text) → IsVar (var_str2id str)
var_str2id-IsVar str = elim (Bool-cases (second str == b'x')) [
  | inl x ↦ rw x (omega arith)
  | inr other ↦ elim (Bool-cases (second str == b'y')) [
    | inl y ↦ rw (other, y) (omega arith)
    | inr none ↦ rw (other, none) tt
  ]
]

query-FitsArrays : FitsArrays id_by_predicate var_str2id id_by_predicate-IsPreId 0 query start
query-FitsArrays = (
  var_str2id-IsVar,
  λ w. elim (Bool-cases (0 == w)) [
    | inl e ↦ elim (Bool-cases (1 == w)) [
      | inl k ↦ rw (e, k) (omega arith)
      | inr k ↦ rw (e, k) (omega arith)
    ]
    | inr e ↦ elim (Bool-cases (1 == w)) [
      | inl k ↦ rw (e, k) (omega arith)
      | inr k ↦ rw (e, k) (omega arith)
    ]
  ],
)

filter_complete_example : Encodes (encode_entity string_mode id_by_predicate empty data_of_e) (λ d.
    Encodes
      (encode_triples id_by_predicate var_str2id 0 query start)
      (λ q. cover (record { sig = d; entity_id = pos 4 }) (q.var_sig 0) ≡ true))
filter_complete_example =
    filter_complete id_by_predicate var_str2id id_by_predicate-IsPreId 0 data_of_e query 0 (pos 4)
      start (omega arith, (omega arith, tt))
      (
        tt,
        tt,
        (λ e. inl (refl, inr refl, λ constant. refl), λ e. cc),
        (tt, tt, (λ e. cc, λ e. inr (inl (refl, inr refl, λ constant. cc))), tt),
      )
      query-FitsArrays (λ j. refl)

abbrev value : Encoded BitSet → BitSet
value (ok d) = d
value overflow = empty
value out_of_range = empty
value outside_array = empty

ok-value : (P : BitSet → Type 0) (r : Encoded BitSet) → Encodes r P → r ≡ ok (value r)
ok-value P (ok d) h = refl
ok-value P overflow h = absurd h
ok-value P out_of_range h = absurd h
ok-value P outside_array h = absurd h

abbrev sig_of_e : BitSet
sig_of_e = value (encode_entity string_mode id_by_predicate empty data_of_e)

sig_of_e-ok : encode_entity string_mode id_by_predicate empty data_of_e ≡ ok sig_of_e
sig_of_e-ok =
    ok-value _ (encode_entity string_mode id_by_predicate empty data_of_e) filter_complete_example

-- The root is a leaf with the entity alone.
abbrev root : Node
root = record {
  is_leaf = true;
  is_root = true;
  child_num = 1;
  self_file_line = pos 0;
  father_file_line = negsuc 0;
  entry = record { sig = λ i. true; entity_id = negsuc 0 };
  child_entries = λ i. record { sig = sig_of_e; entity_id = pos 4 };
  child_file_lines = λ i. negsuc 0;
}

entity-Listed :
    Listed (record { sig = sig_of_e; entity_id = pos 4 }) (leaf_entries (tree root no_children))
unfolding leaf_entries
entity-Listed = inl refl

one_node : dfs (tree root no_children) 0 ≤ 1
unfolding dfs
one_node = omega arith

root-AllCovered : AllCovered root.entry (leaf_entries (tree root no_children))
unfolding leaf_entries
root-AllCovered = ((λ i lt on. refl), tt)

root-IsSound : IsSound (tree root no_children)
unfolding IsSound
root-IsSound e = absurd (ground (arith, e))

query_matched : QueryMatched id_by_predicate var_str2id id_by_predicate-IsPreId 0 data_of_e query
query_matched = (
  tt,
  tt,
  (λ e. inl (refl, inr refl, λ constant. refl), λ e. cc),
  (tt, tt, (λ e. cc, λ e. inr (inl (refl, inr refl, λ constant. cc))), tt),
)

candidate_complete_example : Encodes (encode_triples id_by_predicate var_str2id 0 query start) (λ q.
    Returns
      (retrieve_entity_im (q.var_sig 0) 1 (tree root no_children) [])
      (λ out. 0 < tally (λ k. eq_ℤ k (pos 4)) out))
candidate_complete_example =
    candidate_complete id_by_predicate var_str2id id_by_predicate-IsPreId 0 data_of_e query 0 4
      start sig_of_e 1 root no_children [] (omega arith, (omega arith, tt)) query_matched
      query-FitsArrays (λ j. refl) sig_of_e-ok entity-Listed one_node root-AllCovered root-IsSound
