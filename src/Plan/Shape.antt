-- ===== src/Plan/Shape.antt =====
-- The ids that a plan takes up, and which groups have a result.
use t_rdf.Base.{
  ℕ, suc, ◌+◌, ◌≡◌, refl, Bool, true, false, not, ◌||◌, Option, none, some, List, [], ◌∷◌, arith,
  ◌==◌, if◌then◌else◌, ap, ◌∙◌,
}
use t_rdf.Base.Int.{ℤ}
use t_rdf.Base.Run.{
  Run, done, out_of_bounds, out_of_fuel, Yields, Yields-bind, Yields-any, Yields-mono, ◌>>=◌,
}
use t_rdf.Signature.Hash.{Text}
use t_rdf.Answers.Merge.{TempResult, merge_join, merge_union, merge_left_outer_join}
use t_rdf.Answers.Filtering.{FilterTree, do_filter}
use t_rdf.Plan.Generate.{
  PatternGroup, group, Groups, no_groups, more_groups, Unions, no_unions, more_unions, gen_eva_plan,
  gen_unions, gen_union, gen_optionals,
}
use t_rdf.Plan.Meaning.{
  size, size_groups, size_unions, combine, filtered, meaning, meaning_unions, meaning_groups,
}

abbrev pub is_some : Option TempResult → Bool
is_some none = false
is_some (some a) = true

module _ (basic_result : ℕ → TempResult) where
  mutual
    unfolding gen_eva_plan size

    gen_eva_plan-size :
        (g : PatternGroup) (id : ℕ) → (gen_eva_plan basic_result g id).1 ≡ id + size g
    gen_eva_plan-size (group true unions optionals filters) id = omega (
      arith,
      gen_unions-size unions id (suc id),
      gen_optionals-size optionals (gen_unions basic_result unions id (suc id)).1,
    )
    gen_eva_plan-size (group false unions optionals filters) id = omega (
      arith,
      gen_unions-size unions id id,
      gen_optionals-size optionals (gen_unions basic_result unions id id).1,
    )

    gen_unions-size :
        (us : Unions) (id next : ℕ) → (gen_unions basic_result us id next).1 ≡ next + size_unions us
    gen_unions-size no_unions id next = omega arith
    gen_unions-size (more_unions gs us) id next = omega (
      arith,
      gen_union-size gs next true,
      gen_unions-size us id (gen_union basic_result gs next true).1,
    )

    gen_union-size :
        (gs : Groups) (next : ℕ) (empty : Bool)
        → (gen_union basic_result gs next empty).1 ≡ next + size_groups gs
    gen_union-size no_groups next empty = omega arith
    gen_union-size (more_groups g gs) next empty =
        let next1 = (gen_eva_plan basic_result g next).1 in
        omega (
          arith,
          gen_eva_plan-size g next,
          gen_union-size gs next1 (if next == next1 then empty else false),
        )

    gen_optionals-size :
        (gs : Groups) (next : ℕ) → (gen_optionals basic_result gs next).1 ≡ next + size_groups gs
    gen_optionals-size no_groups next = omega arith
    gen_optionals-size (more_groups g gs) next = omega (
      arith,
      gen_eva_plan-size g next,
      gen_optionals-size gs (gen_eva_plan basic_result g next).1,
    )

  -- The ids of a plan are those of the basic queries of its group.
  pub gen_eva_plan-next :
      (g : PatternGroup) (id : ℕ) → (gen_eva_plan basic_result g id).1 ≡ id + size g
  gen_eva_plan-next g id = gen_eva_plan-size g id

  pub gen_unions-next :
      (us : Unions) (id next : ℕ) → (gen_unions basic_result us id next).1 ≡ next + size_unions us
  gen_unions-next us id next = gen_unions-size us id next

  pub gen_union-next :
      (gs : Groups) (next : ℕ) (empty : Bool)
      → (gen_union basic_result gs next empty).1 ≡ next + size_groups gs
  gen_union-next gs next empty = gen_union-size gs next empty

shape :
    (has_var : Bool) (r : TempResult) (u g : ℕ) (b : Bool)
    → b ≡ ((is_some (if has_var then some r else none) || not (u == 0)) || not (g == 0))
    → b ≡ not ((if has_var then 1 else 0) + (u + g) == 0)
shape true r u g b e = ground (arith, e)
shape false r u g b e = ground (arith, e)

pub combine-is_some :
    (merge : TempResult → TempResult → Run TempResult) (a b : Option TempResult)
    → Yields (combine merge a b) (λ o. is_some o ≡ (is_some a || is_some b))
combine-is_some merge none b = refl
combine-is_some merge (some a) none = refl
combine-is_some merge (some a) (some b) =
    elim (merge a b) as (λ r. Yields (r >>= λ c. done (some c)) (λ o. is_some o ≡ true)) [
      | done c ↦ refl
      | out_of_bounds ↦ tt
      | out_of_fuel ↦ tt
    ]

module _ (entity_by_id literal_by_id : ℤ → Text) (basic_result : ℕ → TempResult) where
  filtered-is_some :
      (trees : List FilterTree) (o : Option TempResult)
      → Yields (filtered entity_by_id literal_by_id trees o) (λ p. is_some p ≡ is_some o)
  filtered-is_some [] o = refl
  filtered-is_some (tree ∷ trees) none = refl
  filtered-is_some (tree ∷ trees) (some a) =
      let r = do_filter entity_by_id literal_by_id a tree in
      Yields-bind (λ r. Unit {0}) (λ p. is_some p ≡ true) r _ (Yields-any r)
        (λ r u. filtered-is_some trees (some r))

  abbrev pub HasShape : Bool → Run (Option TempResult) → Type 0
  HasShape b r = Yields r (λ o. is_some o ≡ b)

  HasShape-mono : (b c : Bool) (r : Run (Option TempResult)) → HasShape b r → b ≡ c → HasShape c r
  HasShape-mono b c r h e = Yields-mono (λ o. is_some o ≡ b) (λ o. is_some o ≡ c) r h (λ o k. k ∙ e)

  mutual
    unfolding meaning size

    group-is_some :
        (g : PatternGroup) (id : ℕ)
        → HasShape (not (size g == 0)) (meaning entity_by_id literal_by_id basic_result g id)
    group-is_some (group has_var unions optionals filters) id =
        let own = if has_var then some (basic_result id) else none in
        let next = if has_var then suc id else id in
        let shape1 = is_some own || not (size_unions unions == 0) in
        let shape2 = shape1 || not (size_groups optionals == 0) in
        let E = entity_by_id in
        let L = literal_by_id in
        let Q : Option TempResult → Type 0 =
          λ o. is_some o ≡ not (size (group has_var unions optionals filters) == 0) in
        Yields-bind (λ o. is_some o ≡ shape1) Q (meaning_unions E L basic_result unions next own) _
          (unions-is_some unions next own)
          (λ joined e1.
            Yields-bind (λ o. is_some o ≡ shape2) Q
              (meaning_groups E L basic_result merge_left_outer_join optionals
                (next + size_unions unions) joined)
              _
              (HasShape-mono _ shape2 _
                (groups-is_some merge_left_outer_join optionals (next + size_unions unions) joined)
                (ap (λ b. b || not (size_groups optionals == 0)) e1))
              (λ left e2. HasShape-mono (is_some left) _ _ (filtered-is_some filters left) (
                shape has_var (basic_result id) (size_unions unions) (size_groups optionals)
                  (is_some left) e2)))

    unions-is_some :
        (us : Unions) (id : ℕ) (o : Option TempResult)
        → HasShape
            (is_some o || not (size_unions us == 0))
            (meaning_unions entity_by_id literal_by_id basic_result us id o)
    unions-is_some no_unions id o = ground arith
    unions-is_some (more_unions gs us) id o =
        Yields-bind (λ u. is_some u ≡ not (size_groups gs == 0)) _
          (meaning_groups entity_by_id literal_by_id basic_result merge_union gs id none) _
          (groups-is_some merge_union gs id none)
          (λ u e1.
            Yields-bind (λ j. is_some j ≡ (is_some o || is_some u)) _ (combine merge_join o u) _
              (combine-is_some merge_join o u)
              (λ j e2.
                HasShape-mono (is_some j || not (size_unions us == 0)) _ _
                  (unions-is_some us (id + size_groups gs) j) (ground (arith, e1, e2))))

    groups-is_some :
        (merge : TempResult → TempResult → Run TempResult) (gs : Groups) (id : ℕ)
        (o : Option TempResult)
        → HasShape
            (is_some o || not (size_groups gs == 0))
            (meaning_groups entity_by_id literal_by_id basic_result merge gs id o)
    groups-is_some merge no_groups id o = ground arith
    groups-is_some merge (more_groups g gs) id o =
        Yields-bind (λ u. is_some u ≡ not (size g == 0)) _
          (meaning entity_by_id literal_by_id basic_result g id) _ (group-is_some g id)
          (λ u e1.
            Yields-bind (λ j. is_some j ≡ (is_some o || is_some u)) _ (combine merge o u) _
              (combine-is_some merge o u)
              (λ j e2.
                HasShape-mono (is_some j || not (size_groups gs == 0)) _ _
                  (groups-is_some merge gs (id + size g) j) (ground (arith, e1, e2))))

  pub meaning-is_some :
      (g : PatternGroup) (id : ℕ)
      → HasShape (not (size g == 0)) (meaning entity_by_id literal_by_id basic_result g id)
  meaning-is_some g id = group-is_some g id

  pub meaning_unions-is_some :
      (us : Unions) (id : ℕ) (o : Option TempResult)
      → HasShape
          (is_some o || not (size_unions us == 0))
          (meaning_unions entity_by_id literal_by_id basic_result us id o)
  meaning_unions-is_some us id o = unions-is_some us id o

  pub meaning_groups-is_some :
      (merge : TempResult → TempResult → Run TempResult) (gs : Groups) (id : ℕ)
      (o : Option TempResult)
      → HasShape
          (is_some o || not (size_groups gs == 0))
          (meaning_groups entity_by_id literal_by_id basic_result merge gs id o)
  meaning_groups-is_some merge gs id o = groups-is_some merge gs id o
