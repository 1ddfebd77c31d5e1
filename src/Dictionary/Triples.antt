-- ===== src/Dictionary/Triples.antt =====
-- `sub2id_pre2id_obj2id_RDFintoSignature` of Database/Database.cpp: the ids given to the triples of
-- a file lead back to their names.
use t_rdf.Base.{
  ℕ, suc, ◌+◌, ◌≤◌, ◌≡◌, refl, ◌⊎◌, inl, inr, true, false, Option, none, some, List, [], ◌∷◌, ◌==◌,
  arith,
}
use t_rdf.Base.Run.{done}
use t_rdf.Signature.Hash.{Text}
use t_rdf.Answers.Filtering.{literal_first_id}
use t_rdf.Dictionary.Names.{
  Dictionary, Dictionaries, TripleWithObjType, NewTuple, assign_object, assign_tuple, is_obj_entity,
  is_obj_literal,
}
use t_rdf.Dictionary.Consistent.{IsConsistent, Extends, Names, assign_id-Assigned}

pub record AllConsistent (d : Dictionaries) : Type 0 where
  pub entities : IsConsistent 0 d.entities
  pub predicates : IsConsistent 0 d.predicates
  pub literals : IsConsistent literal_first_id d.literals

abbrev pub AllExtend : (d e : Dictionaries) → Type 0
AllExtend d e =
    Extends d.entities e.entities
    × Extends d.predicates e.predicates
    × Extends d.literals e.literals

-- The type of the object is one of the two that the parser gives.
abbrev pub IsTyped : TripleWithObjType → Type 0
IsTyped t = (t.object_type ≡ b'e') ⊎ (t.object_type ≡ b'l')

abbrev pub AllTyped : List TripleWithObjType → Type 0
AllTyped [] = Unit {0}
AllTyped (t ∷ ts) = IsTyped t × AllTyped ts

abbrev pub ObjNames : Dictionaries → TripleWithObjType → Option ℕ → Type 0
ObjNames d t none = ⊥
ObjNames d t (some id) =
    ((t.object_type ≡ b'e') × Names 0 d.entities id t.triple.object)
    ⊎ ((t.object_type ≡ b'l') × Names literal_first_id d.literals id t.triple.object)

-- The ids of the row stand for the names of the triple.
abbrev pub RowNames : Dictionaries → TripleWithObjType → NewTuple → Type 0
RowNames d t row =
    Names 0 d.entities row.sub_id t.triple.subject
    × Names 0 d.predicates row.pre_id t.triple.predicate
    × ObjNames d t row.obj_id

module _ (first : ℕ) (d e : Dictionary) where
  Names-Extends : (id : ℕ) (x : Text) → Extends d e → Names first d id x → Names first e id x
  Names-Extends id x k (j, i, at) = (j, i, k x j at)

pub RowNames-AllExtend :
    (d e : Dictionaries) (t : TripleWithObjType) (row : NewTuple)
    → AllExtend d e
    → RowNames d t row
    → RowNames e t row
RowNames-AllExtend d e t row (k, l, m) (sub, pre, obj) = (
  Names-Extends 0 d.entities e.entities row.sub_id t.triple.subject k sub,
  Names-Extends 0 d.predicates e.predicates row.pre_id t.triple.predicate l pre,
  object row.obj_id obj,
)
  where
    object : (id : Option ℕ) → ObjNames d t id → ObjNames e t id
    object none o = o
    object (some id) (inl (c, n)) =
        inl (c, Names-Extends 0 d.entities e.entities id t.triple.object k n)
    object (some id) (inr (c, n)) =
        inr (c, Names-Extends literal_first_id d.literals e.literals id t.triple.object m n)

assign_object-Assigned :
    (t : TripleWithObjType) (n l : Dictionary)
    → IsTyped t
    → IsConsistent 0 n
    → IsConsistent literal_first_id l
    → (id : ℕ) × (e : Dictionary) × (m : Dictionary) × ((assign_object t n l ≡ done (some id, e, m))
        × IsConsistent 0 e
        × IsConsistent literal_first_id m
        × Extends n e
        × Extends l m
        × (((t.object_type ≡ b'e') × Names 0 e id t.triple.object)
            ⊎ ((t.object_type ≡ b'l') × Names literal_first_id m id t.triple.object))
        × (e.num ≤ suc n.num))
unfolding assign_object is_obj_entity is_obj_literal
assign_object-Assigned t n l (inl c) h k =
    let (id, e, (run, good, more, stands, num)) = assign_id-Assigned 0 t.triple.object n h in
    let test : (t.object_type == b'e') ≡ true = ground (arith, c) in
    (id, e, l, (rw (test, run) refl, good, k, more, (λ x j at. at), inl (c, stands), num))
assign_object-Assigned t n l (inr c) h k =
    let (id, m, (run, good, more, stands, num)) =
      assign_id-Assigned literal_first_id t.triple.object l k in
    let test : (t.object_type == b'e') ≡ false = ground (arith, c) in
    let test_l : (t.object_type == b'l') ≡ true = ground (arith, c) in
    (
      id,
      n,
      m,
      (rw (test, test_l, run) refl, h, good, (λ x j at. at), more, inr (c, stands), omega arith),
    )

abbrev pub TupleAssigned : TripleWithObjType → Dictionaries → NewTuple → Dictionaries → Type 0
TupleAssigned t d row e =
    (assign_tuple t d ≡ done (row, e))
    × AllConsistent e
    × AllExtend d e
    × RowNames e t row
    × (e.entities.num ≤ 2 + d.entities.num)

pub assign_tuple-TupleAssigned :
    (t : TripleWithObjType) (d : Dictionaries)
    → IsTyped t
    → AllConsistent d
    → (row : NewTuple) × (e : Dictionaries) × TupleAssigned t d row e
unfolding assign_tuple
assign_tuple-TupleAssigned t d typed h =
    let (sub, n, (run_s, good_s, more_s, stands_s, num_s)) =
      assign_id-Assigned 0 t.triple.subject d.entities h.entities in
    let (pre, p, (run_p, good_p, more_p, stands_p, num_p)) =
      assign_id-Assigned 0 t.triple.predicate d.predicates h.predicates in
    let (obj, e, l, (run_o, good_e, good_l, more_e, more_l, stands_o, num_o)) =
      assign_object-Assigned t n d.literals typed good_s h.literals in
    (
      record { sub_id = sub; pre_id = pre; obj_id = some obj },
      record { entities = e; predicates = p; literals = l },
      (
        rw (run_s, run_p, run_o) refl,
        record { entities = good_e; predicates = good_p; literals = good_l },
        ((λ x j at. more_e x j (more_s x j at)), more_p, more_l),
        (Names-Extends 0 n e sub t.triple.subject more_e stands_s, stands_p, stands_o),
        omega (arith, num_s, num_o),
      ),
    )
