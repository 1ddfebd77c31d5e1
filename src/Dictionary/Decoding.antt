-- ===== src/Dictionary/Decoding.antt =====
-- The whole loop of `sub2id_pre2id_obj2id_RDFintoSignature` of Database/Database.cpp, and the names
-- of the ids that it leaves.
use t_rdf.Base.{
  ℕ, ◌+◌, ◌*◌, ◌≤◌, ◌≡◌, refl, inl, inr, true, false, Option, none, some, List, [], ◌∷◌, ltb,
  length, map, arith, lt→ltb,
}
use t_rdf.Base.Run.{done}
use t_rdf.Base.Int.{pos}
use t_rdf.Signature.Hash.{Text}
use t_rdf.Query.Basic.{Triple}
use t_rdf.Answers.Filtering.{literal_first_id, obj_id_is_entity_id}
use t_rdf.Dictionary.Names.{
  Dictionaries, TripleWithObjType, NewTuple, get_name, assign_tuples, name_of,
}
use t_rdf.Dictionary.Consistent.{Names, get_name-Names, get_elem?-lt}
use t_rdf.Dictionary.Triples.{
  AllConsistent, AllExtend, AllTyped, ObjNames, RowNames, RowNames-AllExtend,
  assign_tuple-TupleAssigned,
}

abbrev RowsName : Dictionaries → List TripleWithObjType → List NewTuple → Type 0
RowsName d [] [] = Unit {0}
RowsName d [] (row ∷ rows) = ⊥
RowsName d (t ∷ ts) [] = ⊥
RowsName d (t ∷ ts) (row ∷ rows) = RowNames d t row × RowsName d ts rows

abbrev AllAssigned : List TripleWithObjType → Dictionaries → List NewTuple → Dictionaries → Type 0
AllAssigned ts d rows e =
    (assign_tuples ts d ≡ done (rows, e))
    × AllConsistent e
    × AllExtend d e
    × RowsName e ts rows
    × (e.entities.num ≤ 2 * length ts + d.entities.num)

assign_tuples-AllAssigned :
    (ts : List TripleWithObjType) (d : Dictionaries)
    → AllTyped ts
    → AllConsistent d
    → (rows : List NewTuple) × (e : Dictionaries) × AllAssigned ts d rows e
unfolding assign_tuples
assign_tuples-AllAssigned [] d typed h =
    ([], d, (refl, h, ((λ x j at. at), (λ x j at. at), (λ x j at. at)), tt, omega arith))
assign_tuples-AllAssigned (t ∷ ts) d typed h =
    let (row, n, (run_t, good_t, (i, j, k), stands_t, num_t)) =
      assign_tuple-TupleAssigned t d typed.0 h in
    let (rows, e, (run, good, (u, v, w), stands, num)) =
      assign_tuples-AllAssigned ts n typed.1 good_t in
    (
      row ∷ rows,
      e,
      (
        rw (run_t, run) refl,
        good,
        ((λ x p at. u x p (i x p at)), (λ x p at. v x p (j x p at)), (λ x p at. w x p (k x p at))),
        (RowNames-AllExtend n e t row (u, v, w) stands_t, stands),
        omega (arith, num_t, num),
      ),
    )

-- The triple that a row stands for, with its names read back.
abbrev pub named : Dictionaries → NewTuple → Triple
named d row = record {
  subject = name_of d (pos row.sub_id);
  predicate = get_name 0 d.predicates (pos row.pre_id);
  object = elim row.obj_id [ none ↦ [] | some id ↦ name_of d (pos id) ];
}

module _ (d : Dictionaries) (h : AllConsistent d) (few : d.entities.num ≤ literal_first_id) where
  name_of-entity : (id : ℕ) (x : Text) → Names 0 d.entities id x → name_of d (pos id) ≡ x
  unfolding obj_id_is_entity_id
  name_of-entity id x (j, i, at) =
      let lt = get_elem?-lt d.entities.array j x at in
      let low : ltb id literal_first_id ≡ true =
        lt→ltb id literal_first_id (omega (arith, lt, i, h.entities.counted, few)) in
      rw low (get_name-Names 0 d.entities id x (j, i, at))

  name_of-literal :
      (id : ℕ) (x : Text) → Names literal_first_id d.literals id x → name_of d (pos id) ≡ x
  unfolding obj_id_is_entity_id
  name_of-literal id x (j, i, at) =
      let high : ltb id literal_first_id ≡ false = ground (arith, i) in
      rw high (get_name-Names literal_first_id d.literals id x (j, i, at))

  object_name :
      (t : TripleWithObjType) (obj : Option ℕ)
      → ObjNames d t obj
      → elim obj [ none ↦ [] | some id ↦ name_of d (pos id) ] ≡ t.triple.object
  object_name t none o = elim o [ ]
  object_name t (some id) (inl (c, stands)) = name_of-entity id t.triple.object stands
  object_name t (some id) (inr (c, stands)) = name_of-literal id t.triple.object stands

  named-RowNames :
      (t : TripleWithObjType) (row : NewTuple) → RowNames d t row → named d row ≡ t.triple
  named-RowNames t row (sub, pre, obj) =
      rw
        (
          name_of-entity row.sub_id t.triple.subject sub,
          get_name-Names 0 d.predicates row.pre_id t.triple.predicate pre,
          object_name t row.obj_id obj,
        )
        refl

  named-RowsName :
      (ts : List TripleWithObjType) (rows : List NewTuple)
      → RowsName d ts rows
      → map (named d) rows ≡ map (λ t. t.triple) ts
  named-RowsName [] [] o = refl
  named-RowsName [] (row ∷ rows) o = elim o [ ]
  named-RowsName (t ∷ ts) [] o = elim o [ ]
  named-RowsName (t ∷ ts) (row ∷ rows) o =
      rw (named-RowNames t row o.0, named-RowsName ts rows o.1) refl

-- Triples are given ids, in dictionaries that are consistent: in each, a name has an id exactly
-- where the id has the name. Where every object is an entity or a literal, and the entities and two
-- for each triple are at most the literals' first id, the run ends without a write outside an array,
-- the dictionaries are consistent after it, every id that had a name keeps it, and the rows read
-- back are the triples, in order.
pub assign_tuples-named :
    (ts : List TripleWithObjType) (d : Dictionaries)
    → AllTyped ts
    → AllConsistent d
    → 2 * length ts + d.entities.num ≤ literal_first_id
    → (rows : List NewTuple) × (e : Dictionaries) × (assign_tuples ts d ≡ done (rows, e))
      × AllConsistent e
      × AllExtend d e
      × (map (named e) rows ≡ map (λ t. t.triple) ts)
assign_tuples-named ts d typed h few =
    let (rows, e, (run, good, more, stands, num)) = assign_tuples-AllAssigned ts d typed h in
    (rows, e, run, good, more, named-RowsName e good (omega (arith, num, few)) ts rows stands)
