-- ===== src/Examples/Dictionaries.antt =====
-- Ids for the names of two triples.
use t_rdf.Base.{ℕ, ◌≡◌, refl, inl, inr, none, some, List, [], ◌∷◌, map, arith}
use t_rdf.Base.Run.{done, ◌>>=◌}
use t_rdf.Signature.Hash.{Text}
use t_rdf.Answers.Filtering.{literal_first_id}
use t_rdf.Dictionary.Names.{
  Dictionary, Dictionaries, TripleWithObjType, NewTuple, insert_string, insert_name, assign_id,
  is_obj_entity, is_obj_literal, assign_object, assign_tuple, assign_tuples,
}
use t_rdf.Dictionary.Consistent.{IsConsistent}
use t_rdf.Dictionary.Triples.{AllConsistent, AllExtend}
use t_rdf.Dictionary.Decoding.{named, assign_tuples-named}

abbrev no_names : Dictionary
no_names = record { string2id = λ x. none; array = []; num = 0 }

abbrev no_ids : Dictionaries
no_ids = record { entities = no_names; predicates = no_names; literals = no_names }

abbrev a_knows_b : TripleWithObjType
a_knows_b = record {
  triple = record { subject = b'a' ∷ []; predicate = b'k' ∷ []; object = b'b' ∷ [] };
  object_type = b'e';
}

-- The name of an entity is also that of a literal.
abbrev b_knows_a : TripleWithObjType
b_knows_a = record {
  triple = record { subject = b'b' ∷ []; predicate = b'k' ∷ []; object = b'a' ∷ [] };
  object_type = b'l';
}

-- The rows, and the names of the entities and literals.
abbrev Outcome : Type 0
Outcome = List NewTuple × List Text × List Text

abbrev outcome : List NewTuple × Dictionaries → Outcome
outcome (rows, d) = (rows, d.entities.array, d.literals.array)

assign_run :
    (assign_tuples (a_knows_b ∷ b_knows_a ∷ []) no_ids >>= λ r. done (outcome r))
    ≡ done (
      record { sub_id = 0; pre_id = 0; obj_id = some 1 }
          ∷ record { sub_id = 1; pre_id = 0; obj_id = some literal_first_id }
          ∷ [],
      (b'a' ∷ []) ∷ (b'b' ∷ []) ∷ [],
      (b'a' ∷ []) ∷ [],
    )
unfolding assign_tuples assign_tuple assign_object assign_id insert_string insert_name is_obj_entity
    is_obj_literal
assign_run = refl

no_names-IsConsistent : (first : ℕ) → IsConsistent first no_names
no_names-IsConsistent first = record { counted = refl; ids = λ x i e. cc; names = λ x j e. cc }

no_ids-AllConsistent : AllConsistent no_ids
no_ids-AllConsistent = record {
  entities = no_names-IsConsistent 0;
  predicates = no_names-IsConsistent 0;
  literals = no_names-IsConsistent literal_first_id;
}

assign_tuples-named_example :
    (rows : List NewTuple) × (e : Dictionaries) × (assign_tuples (a_knows_b ∷ b_knows_a ∷ []) no_ids
      ≡ done (rows, e))
    × AllConsistent e
    × AllExtend no_ids e
    × (map (named e) rows ≡ (a_knows_b.triple ∷ b_knows_a.triple ∷ []))
assign_tuples-named_example =
    assign_tuples-named (a_knows_b ∷ b_knows_a ∷ []) no_ids (inl refl, (inr refl, tt))
      no_ids-AllConsistent (omega arith)
