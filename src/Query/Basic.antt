-- ===== src/Query/Basic.antt =====
-- The part of Query/BasicQuery.cpp that encodes a query graph: the signature, the degree and the
-- edges of each variable, filled triple by triple.
use t_rdf.Base.{ℕ, suc, Bool, false, not, ◌&&◌, List, [], ◌∷◌, ltb, ◌==◌, if◌then◌else◌}
use t_rdf.Base.Int.{ℤ, pos, negsuc, eq_ℤ}
use t_rdf.Signature.BitSet.{BitSet, Encoded, ok, out_of_range, outside_array, ◌>>=◌}
use t_rdf.Signature.Hash.{Text}
use t_rdf.Signature.Encode.{
  edge_in, edge_out, encode_predicate2entity, encode_predicate2edge, encode_str2entity,
}

pub record Triple : Type 0 where
  pub subject : Text
  pub predicate : Text
  pub object : Text

-- The arrays of the class, indexed by variable, and by variable and place of the edge.
pub record BasicQuery : Type 0 where
  pub var_sig : ℕ → BitSet
  pub var_degree : ℕ → ℕ
  pub edge_id : ℕ → ℕ → ℤ
  pub edge_nei_id : ℕ → ℕ → ℤ
  pub edge_pre_id : ℕ → ℕ → ℤ
  pub edge_type : ℕ → ℕ → ℕ
  pub edge_sig : ℕ → ℕ → BitSet

abbrev pub no_id : ℤ
no_id = negsuc 0

abbrev pub put {ℓ} : {A : Type ℓ} → (ℕ → A) → ℕ → A → ℕ → A
put f i a j = if i == j then a else f j

abbrev pub put2 {ℓ} : {A : Type ℓ} → (ℕ → ℕ → A) → ℕ → ℕ → A → ℕ → ℕ → A
put2 f i k a = put f i (put (f i) k a)

-- `(_id == -1) && (_name.at(0) != '?')`, where `at` throws on an empty name.
unfoldable pub is_str : (id : ℤ) → Text → Encoded Bool
is_str id [] = if eq_ℤ id no_id then out_of_range else ok false
is_str id (c ∷ name) = ok (eq_ℤ id no_id && not (c == b'?'))

-- What both updates do to the signature of the variable.
unfoldable pub add_to_sig : (type : ℕ) (pre_id nei_id : ℤ) (nei : Text) → BitSet → Encoded BitSet
add_to_sig type pre_id nei_id nei bs = do
  nei_is_str ← is_str nei_id nei
  bs1 ← (if nei_is_str then encode_str2entity nei bs else ok bs)
  if eq_ℤ pre_id no_id then ok bs1 else encode_predicate2entity pre_id bs1 type

-- How many variables there are, and how many edges of each.
abbrev pub max_var_num : ℕ
max_var_num = 10

-- What both updates do to the edges of the variable, whose arrays have `max_var_num` places.
unfoldable pub add_edge :
    (var type : ℕ) (pre_id nei_id : ℤ) (line_id : ℕ) → BasicQuery → BitSet → Encoded BasicQuery
add_edge var type pre_id nei_id line_id q sig =
    let degree = q.var_degree var in
    let added : BasicQuery = record q {
      var_sig = put q.var_sig var sig;
      edge_id = put2 q.edge_id var degree (pos line_id);
      edge_nei_id = put2 q.edge_nei_id var degree nei_id;
      edge_type = put2 q.edge_type var degree type;
      edge_pre_id = put2 q.edge_pre_id var degree pre_id;
      var_degree = put q.var_degree var (suc degree);
    } in
    if ltb degree max_var_num then ok added else outside_array

-- The arrays over the variables have `max_var_num` places.
abbrev pub at_var : (var : ℕ) → Encoded BasicQuery → Encoded BasicQuery
at_var var update = if ltb var max_var_num then update else outside_array

unfoldable pub update_sub_sig :
    (sub_id : ℕ) (pre_id obj_id : ℤ) (obj : Text) (line_id : ℕ) → BasicQuery → Encoded BasicQuery
update_sub_sig sub_id pre_id obj_id obj line_id q = at_var sub_id (
    add_to_sig edge_out pre_id obj_id obj (q.var_sig sub_id) >>= λ sig.
    add_edge sub_id edge_out pre_id obj_id line_id q sig)

unfoldable pub update_obj_sig :
    (obj_id : ℕ) (pre_id sub_id : ℤ) (sub : Text) (line_id : ℕ) → BasicQuery → Encoded BasicQuery
update_obj_sig obj_id pre_id sub_id sub line_id q = at_var obj_id (
    add_to_sig edge_in pre_id sub_id sub (q.var_sig obj_id) >>= λ sig.
    add_edge obj_id edge_in pre_id sub_id line_id q sig)

-- The edge signature of two variables, for a known predicate.
unfoldable pub update_edge_sig : (sub_id obj_id pre_id : ℤ) → BasicQuery → Encoded BasicQuery
update_edge_sig (pos s) (pos o) pre_id q =
    let updated = encode_predicate2edge pre_id (q.edge_sig s o) >>= λ sig.
    ok (record q { edge_sig = put2 q.edge_sig s o sig }) in
    if eq_ℤ pre_id no_id then ok q else updated
update_edge_sig sub_id obj_id pre_id q = ok q

-- A variable id is -1 or an index.
unfoldable pub update_sub : (sub_id pre_id obj_id : ℤ) → Text → ℕ → BasicQuery → Encoded BasicQuery
update_sub (pos s) pre_id obj_id obj line_id q = update_sub_sig s pre_id obj_id obj line_id q
update_sub (negsuc n) pre_id obj_id obj line_id q = ok q

unfoldable pub update_obj : (obj_id pre_id sub_id : ℤ) → Text → ℕ → BasicQuery → Encoded BasicQuery
update_obj (pos o) pre_id sub_id sub line_id q = update_obj_sig o pre_id sub_id sub line_id q
update_obj (negsuc n) pre_id sub_id sub line_id q = ok q

module _ (id_by_predicate : Text → ℤ) (var_str2id : Text → ℤ) where
  -- The body of the loop over the triples in `encodeBasicQuery`.
  unfoldable pub encode_triple : (i : ℕ) → Triple → BasicQuery → Encoded BasicQuery
  encode_triple i t q = do
    let pre_id = id_by_predicate t.predicate
    let sub_id = var_str2id t.subject
    let obj_id = var_str2id t.object
    q1 ← update_sub sub_id pre_id obj_id t.object i q
    q2 ← update_obj obj_id pre_id sub_id t.subject i q1
    update_edge_sig sub_id obj_id pre_id q2

  unfoldable pub encode_triples : (i : ℕ) → List Triple → BasicQuery → Encoded BasicQuery
  encode_triples i [] q = ok q
  encode_triples i (t ∷ ts) q = do q' ← encode_triple i t q; encode_triples (suc i) ts q'
