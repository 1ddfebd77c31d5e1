-- ===== src/Dictionary/Consistent.antt =====
-- The dictionaries of KVstore/KVstore.cpp: a name and its id lead to each other, and stay so when
-- another name is given an id.
use t_rdf.Base.{
  ℕ, zero, suc, ◌+◌, ◌-◌, ◌≤◌, ◌<◌, ◌≡◌, refl, sym, ap, ◌∙◌, ◌⊎◌, inl, inr, true, false, Option,
  none, some, List, [], ◌∷◌, ◌++◌, ltb, ◌==◌, length, get_elem?, length-append, arith, Bool-cases,
  Option-cases, lt→ltb,
}
use t_rdf.Base.Run.{done}
use t_rdf.Base.Int.{pos}
use t_rdf.Signature.Hash.{Text}
use t_rdf.Answers.Merge.{eq_text}
use t_rdf.Answers.Names.{eq_text-eq, eq_text-same}
use t_rdf.Dictionary.Names.{
  Dictionary, insert_string, insert_name, search_name, assign_id, get_name,
}

pub record IsConsistent (first : ℕ) (d : Dictionary) : Type 0 where
  pub counted : length d.array ≡ d.num
  pub ids :
      (x : Text) (i : ℕ)
      → d.string2id x ≡ some i
      → (j : ℕ) × (i ≡ first + j) × (get_elem? d.array j ≡ some x)
  pub names : (x : Text) (j : ℕ) → get_elem? d.array j ≡ some x → d.string2id x ≡ some (first + j)

-- No id of `d` has lost its name in `e`.
abbrev pub Extends : (d e : Dictionary) → Type 0
Extends d e = (x : Text) (j : ℕ) → get_elem? d.array j ≡ some x → get_elem? e.array j ≡ some x

-- The id stands for the name in the dictionary.
abbrev pub Names : (first : ℕ) → Dictionary → (id : ℕ) → Text → Type 0
Names first d id x = (j : ℕ) × (id ≡ first + j) × (get_elem? d.array j ≡ some x)

module _ {A : Type 0} where
  pub get_elem?-lt : (xs : List A) (j : ℕ) (x : A) → get_elem? xs j ≡ some x → j < length xs
  get_elem?-lt [] j x h = cc
  get_elem?-lt (y ∷ xs) zero x h = omega arith
  get_elem?-lt (y ∷ xs) (suc j) x h = omega (arith, get_elem?-lt xs j x h)

  get_elem?-front :
      (xs ys : List A) (j : ℕ) (x : A) → get_elem? xs j ≡ some x → get_elem? (xs ++ ys) j ≡ some x
  get_elem?-front [] ys j x h = cc
  get_elem?-front (y ∷ xs) ys zero x h = h
  get_elem?-front (y ∷ xs) ys (suc j) x h = get_elem?-front xs ys j x h

  get_elem?-last : (xs : List A) (x : A) → get_elem? (xs ++ (x ∷ [])) (length xs) ≡ some x
  get_elem?-last [] x = refl
  get_elem?-last (y ∷ xs) x = get_elem?-last xs x

  -- An element of an extended list is an old one, or the new one.
  get_elem?-snoc :
      (xs : List A) (y x : A) (j : ℕ)
      → get_elem? (xs ++ (y ∷ [])) j ≡ some x
      → (get_elem? xs j ≡ some x) ⊎ ((j ≡ length xs) × (y ≡ x))
  get_elem?-snoc [] y x zero h = inr (refl, cc)
  get_elem?-snoc [] y x (suc j) h = cc
  get_elem?-snoc (z ∷ xs) y x zero h = inl h
  get_elem?-snoc (z ∷ xs) y x (suc j) h = elim (get_elem?-snoc xs y x j h) [
    | inl old ↦ inl old
    | inr new ↦ inr (ap suc new.0, new.1)
  ]

module _ (string2id : Text → Option ℕ) (x : Text) (v : ℕ) (y : Text) where
  insert_string-hit : eq_text x y ≡ true → insert_string string2id x v y ≡ some v
  unfolding insert_string
  insert_string-hit h = rw h refl

  insert_string-other : eq_text x y ≡ false → insert_string string2id x v y ≡ string2id y
  unfolding insert_string
  insert_string-other h = rw h refl

some-arg : {a b : ℕ} → some a ≡ some b → a ≡ b
some-arg e = cc

none-some : {a : ℕ} → ¬ (none ≡ some a)
none-some e = cc

-- A name without an id is put behind the others.
added : (first : ℕ) → Text → Dictionary → Dictionary
added first x d = record {
  string2id = insert_string d.string2id x (first + d.num);
  array = d.array ++ (x ∷ []);
  num = suc d.num;
}

assign_id-added :
    (first : ℕ) (x : Text) (d : Dictionary)
    → length d.array ≡ d.num
    → d.string2id x ≡ none
    → assign_id first x d ≡ done (first + d.num, added first x d)
unfolding assign_id insert_name added
assign_id-added first x d counted miss =
    let here : (((first + d.num) - first) == length d.array) ≡ true = ground arith in
    rw (miss, here, assign_id)

assign_id-found :
    (first : ℕ) (x : Text) (d : Dictionary) (id : ℕ)
    → d.string2id x ≡ some id
    → assign_id first x d ≡ done (id, d)
unfolding assign_id
assign_id-found first x d id e = rw (e, assign_id)

added_num : (first : ℕ) (x : Text) (d : Dictionary) → (added first x d).num ≤ suc d.num
unfolding added
added_num first x d = omega arith

module _ (first : ℕ) (x : Text) (d : Dictionary) (h : IsConsistent first d) where
  added-Extends : Extends d (added first x d)
  unfolding added
  added-Extends y j at = get_elem?-front d.array (x ∷ []) j y at

  added-Names : Names first (added first x d) (first + d.num) x
  unfolding added
  added-Names = (length d.array, ap (λ n. first + n) (sym h.counted), get_elem?-last d.array x)

  added-ids :
      (y : Text) (i : ℕ)
      → (added first x d).string2id y ≡ some i
      → Names first (added first x d) i y
  unfolding added
  added-ids y i e = elim (Bool-cases (eq_text x y)) [
    | inl same ↦
        let new : i ≡ first + length d.array =
          some-arg (sym e ∙ insert_string-hit d.string2id x (first + d.num) y same)
          ∙ ap (λ n. first + n) (sym h.counted) in
        (length d.array, new, get_elem?-last d.array x ∙ ap some (eq_text-eq x y same))
    | inr other ↦
        let old = h.ids y i (sym (insert_string-other d.string2id x (first + d.num) y other) ∙ e) in
        (old.0, old.1, get_elem?-front d.array (x ∷ []) old.0 y old.2)
  ]

  added-names :
      d.string2id x ≡ none
      → (y : Text) (j : ℕ) → get_elem? (added first x d).array j ≡ some y
      → (added first x d).string2id y ≡ some (first + j)
  unfolding added
  added-names miss y j at = elim (get_elem?-snoc d.array x y j at) [
    | inl old ↦
        let found = h.names y j old in
        elim (Bool-cases (eq_text x y)) [
          | inl same ↦ absurd (none-some (sym miss ∙ ap d.string2id (eq_text-eq x y same) ∙ found))
          | inr other ↦ insert_string-other d.string2id x (first + d.num) y other ∙ found
        ]
    | inr new ↦
        insert_string-hit d.string2id x (first + d.num) y
          (ap (eq_text x) (sym new.1) ∙ eq_text-same x)
        ∙ ap (λ n. some (first + n)) (sym h.counted ∙ sym new.0)
  ]

  added-IsConsistent : d.string2id x ≡ none → IsConsistent first (added first x d)
  unfolding added
  added-IsConsistent miss = record {
    counted = omega (arith, length-append d.array (x ∷ []), h.counted);
    ids = added-ids;
    names = added-names miss;
  }

-- Giving a name its id keeps the dictionary consistent and the older ids, and the id stands for it.
abbrev pub Assigned : (first : ℕ) → Text → (d : Dictionary) → ℕ → (e : Dictionary) → Type 0
Assigned first x d id e =
    (assign_id first x d ≡ done (id, e))
    × IsConsistent first e
    × Extends d e
    × Names first e id x
    × (e.num ≤ suc d.num)

pub assign_id-Assigned :
    (first : ℕ) (x : Text) (d : Dictionary)
    → IsConsistent first d
    → (id : ℕ) × (e : Dictionary) × Assigned first x d id e
assign_id-Assigned first x d h = elim (Option-cases (d.string2id x)) [
  | inl found ↦ (
    found.0,
    d,
    (
      assign_id-found first x d found.0 found.1,
      h,
      (λ y j at. at),
      h.ids x found.0 found.1,
      omega arith,
    ),
  )
  | inr miss ↦ (
    first + d.num,
    added first x d,
    (
      assign_id-added first x d h.counted miss,
      added-IsConsistent first x d h miss,
      added-Extends first x d h,
      added-Names first x d h,
      added_num first x d,
    ),
  )
]

-- What an id stands for is what the getters return.
pub get_name-Names :
    (first : ℕ) (d : Dictionary) (id : ℕ) (x : Text)
    → Names first d id x
    → get_name first d (pos id) ≡ x
unfolding get_name search_name
get_name-Names first d id x (j, e, at) =
    let above : ltb id first ≡ false = ground (arith, e) in
    let place : (id - first) ≡ j = omega (arith, e) in
    let inside : ltb j (length d.array) ≡ true =
      lt→ltb j (length d.array) (get_elem?-lt d.array j x at) in
    rw (above, place, inside, at) refl
