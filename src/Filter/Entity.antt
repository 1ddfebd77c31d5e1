-- ===== src/Filter/Entity.antt =====
-- The signature of an entity, from the triples it stands in: Database/Database.cpp.
use t_rdf.Base.{ℕ, List, [], ◌∷◌}
use t_rdf.Base.Int.{ℤ}
use t_rdf.Signature.BitSet.{BitSet, Encoded, ok, out_of_range, ◌>>=◌}
use t_rdf.Signature.Hash.{Text}
use t_rdf.Signature.Encode.{edge_in, edge_out, encode_predicate2entity, encode_str2entity}
use t_rdf.Query.Basic.{Triple}

-- The field `encode_mode` of the class `Database`.
pub data EncodeMode : Type 0 where
  id_mode string_mode : EncodeMode

-- Where an entity stands in a triple.
pub data Place : Type 0 where
  as_subject as_object : Place

abbrev pub encode_text : EncodeMode → Text → BitSet → Encoded BitSet
encode_text id_mode str bs = ok bs
encode_text string_mode str bs = encode_str2entity str bs

module _ (mode : EncodeMode) (id_by_predicate : Text → ℤ) where
  unfoldable pub encode_triple2sub_entity_bit_set : BitSet → Triple → Encoded BitSet
  encode_triple2sub_entity_bit_set bs t = do
    bs1 ← encode_predicate2entity (id_by_predicate t.predicate) bs edge_out
    encode_text mode t.object bs1

  unfoldable pub encode_triple2obj_entity_bit_set : BitSet → Triple → Encoded BitSet
  encode_triple2obj_entity_bit_set bs t = do
    bs1 ← encode_predicate2entity (id_by_predicate t.predicate) bs edge_in
    encode_text mode t.subject bs1

  -- The triples an entity stands in are encoded one after the other, by the place it has in each.
  unfoldable pub encode_entity : BitSet → List (Place × Triple) → Encoded BitSet
  encode_entity bs [] = ok bs
  encode_entity bs ((as_subject, t) ∷ ts) = do
    bs1 ← encode_triple2sub_entity_bit_set bs t
    encode_entity bs1 ts
  encode_entity bs ((as_object, t) ∷ ts) = do
    bs1 ← encode_triple2obj_entity_bit_set bs t
    encode_entity bs1 ts

  module _ (entity_by_id literal_by_id predicate_by_id : ℕ → Text) where
    -- `getEntityByID`, and `getLiteralByID` where that gives the empty text.
    abbrev object_name : ℕ → Text → Text
    object_name id [] = literal_by_id id
    object_name id (c ∷ name) = c ∷ name

    -- `polist` is the flattened list of predicates and objects of the subject.
    unfoldable pub calculate_entity_bit_set :
        (sub_id : ℕ) (polist : List ℕ) → BitSet → Encoded BitSet
    calculate_entity_bit_set sub_id [] bs = ok bs
    calculate_entity_bit_set sub_id (pre_id ∷ []) bs = out_of_range
    calculate_entity_bit_set sub_id (pre_id ∷ obj_id ∷ rest) bs = do
      let t : Triple = record {
        subject = entity_by_id sub_id;
        predicate = predicate_by_id pre_id;
        object = object_name obj_id (entity_by_id obj_id);
      }
      bs1 ← encode_triple2sub_entity_bit_set bs t
      calculate_entity_bit_set sub_id rest bs1
