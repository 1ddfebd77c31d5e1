-- ===== src/Dictionary/Names.antt =====
-- The dictionaries of KVstore/KVstore.cpp, each a `SIMap` and an `SArray` of KVstore/HashMap.h, and
-- the ids that `sub2id_pre2id_obj2id_RDFintoSignature` of Database/Database.cpp gives to names.
use t_rdf.Base.{
  ℕ, suc, ◌+◌, ◌-◌, Bool, Option, none, some, List, [], ◌∷◌, ◌++◌, ltb, ◌==◌, if◌then◌else◌, length,
  get_elem?, set,
}
use t_rdf.Base.Run.{Run, done, out_of_bounds, ◌>>=◌}
use t_rdf.Base.Int.{ℤ, pos, negsuc}
use t_rdf.Signature.Hash.{Text}
use t_rdf.Answers.Merge.{eq_text}
use t_rdf.Answers.Filtering.{literal_first_id, name_by_id}
use t_rdf.Query.Basic.{Triple}

-- `SIMap::insert`
unfoldable pub insert_string : (Text → Option ℕ) → (key : Text) → (val : ℕ) → Text → Option ℕ
insert_string string2id key val x = if eq_text key x then some val else string2id x

-- `SArray::insert`. The vector is written where the key stands, in its bounds or not.
unfoldable pub insert_name : List Text → (key : ℕ) → (val : Text) → Run (List Text)
insert_name array key val =
    if key == length array
    then done (array ++ (val ∷ []))
    else if ltb key (length array)
    then done (set array key val)
    else out_of_bounds

-- `SArray::search`
unfoldable pub search_name : List Text → (key : ℕ) → Option Text
search_name array key = if ltb key (length array) then get_elem? array key else none

-- The ids of the entities, predicates or literals, their names, and how many there are.
pub record Dictionary : Type 0 where
  pub string2id : Text → Option ℕ
  pub array : List Text
  pub num : ℕ

-- The ids begin with `first`: 0, or for literals `literal_first_id`, which `setLiteralByID`
-- subtracts. A name without an id, for which the code has -1, is `none`.
unfoldable pub assign_id : (first : ℕ) → Text → Dictionary → Run (ℕ × Dictionary)
assign_id first name d = elim (d.string2id name) [
  | some id ↦ done (id, d)
  | none ↦ do
    let id = first + d.num
    names ← insert_name d.array (id - first) name
    done (
      id,
      record { string2id = insert_string d.string2id name id; array = names; num = suc d.num },
    )
]

-- `getEntityByID` and `getPredicateByID`, with 0, and `getLiteralByID`: below the first id, the key
-- is negative and not found.
unfoldable pub get_name : (first : ℕ) → Dictionary → ℤ → Text
get_name first d (negsuc m) = []
get_name first d (pos id) =
    if ltb id first
    then []
    else elim (search_name d.array (id - first)) [ none ↦ [] | some name ↦ name ]

pub record TripleWithObjType : Type 0 where
  pub triple : Triple
  pub object_type : ℕ

-- A row of `_p_id_tuples`, where an object of neither type keeps the id -1, here `none`.
pub record NewTuple : Type 0 where
  pub sub_id : ℕ
  pub pre_id : ℕ
  pub obj_id : Option ℕ

pub record Dictionaries : Type 0 where
  pub entities : Dictionary
  pub predicates : Dictionary
  pub literals : Dictionary

unfoldable pub is_obj_entity : TripleWithObjType → Bool
is_obj_entity t = t.object_type == b'e'

unfoldable pub is_obj_literal : TripleWithObjType → Bool
is_obj_literal t = t.object_type == b'l'

unfoldable pub assign_object :
    TripleWithObjType → (entities literals : Dictionary) → Run (Option ℕ × Dictionary × Dictionary)
assign_object t entities literals =
    if is_obj_entity t
    then assign_id 0 t.triple.object entities >>= (λ r. done (some r.0, r.1, literals))
    else if is_obj_literal t
    then assign_id literal_first_id t.triple.object literals
      >>= (λ r. done (some r.0, entities, r.1))
    else done (none, entities, literals)

unfoldable pub assign_tuple : TripleWithObjType → Dictionaries → Run (NewTuple × Dictionaries)
assign_tuple t d = do
  (sub, entities) ← assign_id 0 t.triple.subject d.entities
  (pre, predicates) ← assign_id 0 t.triple.predicate d.predicates
  (obj, entities_1, literals) ← assign_object t entities d.literals
  done (
    record { sub_id = sub; pre_id = pre; obj_id = obj },
    record { entities = entities_1; predicates = predicates; literals = literals },
  )

-- The loop over the triples of the file.
unfoldable pub assign_tuples :
    List TripleWithObjType → Dictionaries → Run (List NewTuple × Dictionaries)
assign_tuples [] d = done ([], d)
assign_tuples (t ∷ ts) d = do
  (row, d_1) ← assign_tuple t d
  (rows, d_2) ← assign_tuples ts d_1
  done (row ∷ rows, d_2)

-- The name of an id, as `getFilterStr` reads it.
abbrev pub name_of : Dictionaries → ℤ → Text
name_of d = name_by_id (get_name 0 d.entities) (get_name literal_first_id d.literals)
