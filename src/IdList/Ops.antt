-- ===== src/IdList/Ops.antt =====
-- The operations of Query/IDList.cpp. An id is a number; a result of -1 is `negsuc 0`.
use t_rdf.Base.{
  ℕ, zero, suc, ◌+◌, ◌-◌, ◌≡◌, Bool, true, false, ◌&&◌, List, [], ◌∷◌, ◌++◌, ltb, ◌==◌,
  if◌then◌else◌, length, get_or, set, take, drop, drop-all, drop-cons, sym, arith,
}
use t_rdf.Base.Int.{ℤ, pos, negsuc}
use t_rdf.Base.Run.{Run, read}

-- The field `id_list`.
abbrev pub IdList : Type 0
IdList = List ℕ

unfoldable pub get_id : IdList → ℕ → ℤ
get_id ids i = if ltb i (length ids) then pos (get_or ids i 0) else negsuc 0

unfoldable pub add_id : IdList → ℕ → IdList × Bool
add_id ids id = (ids ++ id ∷ [], true)

unfoldable pub is_exist_id : IdList → ℕ → Bool
is_exist_id [] id = false
is_exist_id (x ∷ ids) id = if x == id then true else is_exist_id ids id

-- The element that `operator[]` refers to.
unfoldable pub element : IdList → ℕ → Run ℕ
element ids i = if ltb i (length ids) then read ids i else read ids 0

-- Everything from `i` on is erased.
unfoldable pub erase : IdList → ℕ → IdList
erase ids i = take i ids

-- `while (id_i < len && list[id_i] < can_id)`, with the rounds that are left.
unfoldable pub skip_below : (list : List ℕ) (can_id rounds id_i : ℕ) → ℕ
skip_below list can_id zero id_i = id_i
skip_below list can_id (suc rounds) id_i =
    let next = skip_below list can_id rounds (suc id_i) in
    if ltb id_i (length list) && ltb (get_or list id_i 0) can_id then next else id_i

-- The loop over `it`, which writes what it keeps to the front of the same vector.
unfoldable pub intersect_loop :
    (list : List ℕ) (rounds : ℕ) (ids : IdList) (it id_i index_move_forward : ℕ) → IdList × ℕ
unfolding skip_below
intersect_loop list zero ids it id_i index_move_forward = (ids, index_move_forward)
intersect_loop list (suc rounds) ids it id_i index_move_forward =
    let can_id = get_or ids it 0 in
    let j = skip_below list can_id (length list - id_i) id_i in
    let hit =
      intersect_loop list rounds (set ids index_move_forward can_id) (suc it) (suc j)
        (suc index_move_forward) in
    let miss = intersect_loop list rounds ids (suc it) j index_move_forward in
    if j == length list
    then (ids, index_move_forward)
    else if can_id == get_or list j 0
    then hit
    else miss

-- The list, and the number of ids removed.
unfoldable pub intersect_list : IdList → (list : List ℕ) → IdList × ℕ
unfolding intersect_loop
intersect_list ids list =
    let (written, kept) = intersect_loop list (length ids) ids 0 0 0 in
    (take kept written, length ids - kept)

-- The three loops that fill `temp_list`, from what is left of both lists.
unfoldable pub union_loop : (left : IdList) → (right : List ℕ) → List ℕ
union_loop [] [] = []
union_loop [] (b ∷ right) = b ∷ union_loop [] right
union_loop (a ∷ left) [] = a ∷ union_loop left []
union_loop (a ∷ left) (b ∷ right) =
    let both = a ∷ union_loop left right in
    let first = a ∷ union_loop left (b ∷ right) in
    let second = b ∷ union_loop (a ∷ left) right in
    if a == b then both else if ltb a b then first else second

-- The list, and the number of ids added.
unfoldable pub union_list : IdList → (list : List ℕ) → IdList × ℕ
unfolding union_loop
union_list ids list =
    let temp_list = union_loop ids list in (temp_list, length temp_list - length ids)

-- The copy of another list, index by index, that the overloads on `IDList` work from.
copy_loop : (ids : IdList) → (rounds i : ℕ) → List ℕ
copy_loop ids zero i = []
copy_loop ids (suc rounds) i = get_or ids i 0 ∷ copy_loop ids rounds (suc i)

unfoldable pub copy_ids : IdList → List ℕ
unfolding copy_loop
copy_ids ids = copy_loop ids (length ids) 0

unfoldable pub intersect_ids : IdList → IdList → IdList × ℕ
unfolding intersect_list copy_ids
intersect_ids ids other = intersect_list ids (copy_ids other)

unfoldable pub union_ids : IdList → IdList → IdList × ℕ
unfolding union_list copy_ids
union_ids ids other = union_list ids (copy_ids other)

copy_loop-drop :
    (rounds i : ℕ) (ids : IdList) → length ids ≡ i + rounds → copy_loop ids rounds i ≡ drop i ids
unfolding copy_loop
copy_loop-drop zero i ids e = sym (drop-all i ids (omega arith))
copy_loop-drop (suc rounds) i ids e =
    rw (copy_loop-drop rounds (suc i) ids (omega arith)) (sym (drop-cons i ids (omega arith)))

pub copy_ids_lem : (ids : IdList) → copy_ids ids ≡ ids
unfolding copy_ids
copy_ids_lem ids = copy_loop-drop (length ids) 0 ids (omega arith)
