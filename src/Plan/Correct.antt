-- ===== src/Plan/Correct.antt =====
-- The plan of a pattern group, run on the stack machine, against the meaning of the group.
use t_rdf.Base.{
  ℕ, suc, ◌+◌, ◌<◌, ◌≤◌, ◌≡◌, refl, ap, ◌∙◌, ◌⊎◌, true, false, not, ◌||◌, Option, none, some, List,
  [], ◌∷◌, ◌++◌, arith, ◌==◌, if◌then◌else◌, map,
}
use t_rdf.Base.Int.{ℤ}
use t_rdf.Base.Run.{Run, done, ◌>>=◌}
use t_rdf.Signature.Hash.{Text}
use t_rdf.Answers.Merge.{TempResult, merge_join, merge_union, merge_left_outer_join}
use t_rdf.Answers.Filtering.{FilterTree}
use t_rdf.Plan.Machine.{EvaPlanEle, join_ele, union_ele, left_ele, filter_ele, step, do_eva_plan}
use t_rdf.Plan.Generate.{
  PatternGroup, group, Groups, no_groups, more_groups, Unions, no_unions, more_unions, gen_eva_plan,
  gen_unions, gen_union, gen_optionals,
}
use t_rdf.Plan.Meaning.{
  size, size_groups, size_unions, filtered, meaning, meaning_unions, meaning_groups, IsGrounded,
  AllGrounded, AllGroundedUnions,
}
use t_rdf.Plan.Shape.{
  is_some, gen_eva_plan-next, gen_unions-next, gen_union-next, meaning-is_some,
  meaning_unions-is_some, meaning_groups-is_some,
}
use t_rdf.Plan.Run.{push, exec, exec-filters, exec-then, exec-operand}
use t_rdf.Plan.Tests.{
  join_cond, next_cond, union_cond, empty_cond, left_cond, left_next, grounded_left,
  grounded_filters,
}

module _ (entity_by_id literal_by_id : ℤ → Text) (basic_result : ℕ → TempResult) where
  abbrev Means :
      List EvaPlanEle → Run (Option TempResult) → List TempResult → List TempResult → Type 0
  Means code r before s = exec entity_by_id literal_by_id code before ≡ (r >>= λ o. done (push o s))

  group_tail :
      (us : Unions) (os : Groups) (fs : List FilterTree) (next id1 : ℕ) (acc : Option TempResult)
      (joined left : List EvaPlanEle) (s : List TempResult)
      → ((0 < (if is_some acc then 1 else 0) + size_unions us) ⊎ ((size_groups os ≡ 0) × (fs ≡ [])))
      → Means joined
          (meaning_unions entity_by_id literal_by_id basic_result us next acc)
          (push acc s)
          s
      → ((j : Option TempResult)
          → ((is_some j ≡ true) ⊎ (size_groups os ≡ 0))
          → Means left
              (meaning_groups entity_by_id literal_by_id basic_result merge_left_outer_join os id1
                j)
              (push j s)
              s)
      → Means
          (joined ++ (left ++ map filter_ele fs))
          (meaning_unions entity_by_id literal_by_id basic_result us next acc >>= λ j.
            meaning_groups entity_by_id literal_by_id basic_result merge_left_outer_join os id1 j
            >>= λ l. filtered entity_by_id literal_by_id fs l)
          (push acc s)
          s
  group_tail us os fs next id1 acc joined left s grounded hu ho =
      let E = entity_by_id in
      let L = literal_by_id in
      exec-then E L (λ j. is_some j ≡ (is_some acc || not (size_unions us == 0))) joined _
        (meaning_unions E L basic_result us next acc) _ (push acc s) s s
        (meaning_unions-is_some E L basic_result us next acc) hu
        (λ j e1.
          exec-then E L (λ l. is_some l ≡ (is_some j || not (size_groups os == 0))) left _
            (meaning_groups E L basic_result merge_left_outer_join os id1 j) _ (push j s) s s
            (meaning_groups-is_some E L basic_result merge_left_outer_join os id1 j)
            (ho j (
              grounded_left (size_unions us) (size_groups os) (is_some acc) (is_some j) fs grounded
                e1))
            (λ l e2. exec-filters E L fs l s (
              grounded_filters (size_unions us) (size_groups os) (is_some acc) (is_some j)
                (is_some l) fs grounded e1 e2)))

  mutual
    unfolding gen_eva_plan meaning size IsGrounded do_eva_plan step

    group-Means :
        (g : PatternGroup) (id : ℕ) (s : List TempResult)
        → IsGrounded g
        → Means
            (gen_eva_plan basic_result g id).0
            (meaning entity_by_id literal_by_id basic_result g id)
            s
            s
    group-Means (group true us os fs) id s h = rw (gen_unions-next basic_result us id (suc id)) (
        group_tail us os fs (suc id) (suc id + size_unions us) (some (basic_result id))
          (gen_unions basic_result us id (suc id)).0
          (gen_optionals basic_result os (suc id + size_unions us)).0 s h.0
          (unions-Means us id (suc id) (some (basic_result id)) s (ground arith) (omega arith) h.1)
          (λ j k. optionals-Means os (suc id + size_unions us) j s k h.2))
    group-Means (group false us os fs) id s h = rw (gen_unions-next basic_result us id id) (
        group_tail us os fs id (id + size_unions us) none (gen_unions basic_result us id id).0
          (gen_optionals basic_result os (id + size_unions us)).0 s h.0
          (unions-Means us id id none s (ground arith) (omega arith) h.1)
          (λ j k. optionals-Means os (id + size_unions us) j s k h.2))

    unions-Means :
        (us : Unions) (id next : ℕ) (acc : Option TempResult) (s : List TempResult)
        → (next == id) ≡ not (is_some acc)
        → id ≤ next
        → AllGroundedUnions us
        → Means
            (gen_unions basic_result us id next).0
            (meaning_unions entity_by_id literal_by_id basic_result us next acc)
            (push acc s)
            s
    unions-Means no_unions id next acc s e le h = refl
    unions-Means (more_unions gs us) id next acc s e le h =
        let z = size_groups gs in
        rw (gen_union-next basic_result gs next true) (
          exec-operand entity_by_id literal_by_id join_ele merge_join (λ t. refl) z
            (gen_union basic_result gs next true).0 _ (gen_unions basic_result us id (next + z)).0 _
            _ acc s
            (meaning_groups-is_some entity_by_id literal_by_id basic_result merge_union gs next
              none)
            (union-Means gs next none (push acc s) h.0)
            (λ b k.
              ap (λ c. if c then join_ele ∷ [] else []) (join_cond next id z (is_some acc) b e k))
            (λ c k.
              unions-Means us id (next + z) c s
                (next_cond next id z (is_some acc) (not (z == 0)) (is_some c) le e refl k)
                (omega (arith, le)) h.1))

    union-Means :
        (gs : Groups) (next : ℕ) (acc : Option TempResult) (s : List TempResult)
        → AllGrounded gs
        → Means
            (gen_union basic_result gs next (not (is_some acc))).0
            (meaning_groups entity_by_id literal_by_id basic_result merge_union gs next acc)
            (push acc s)
            s
    union-Means no_groups next acc s h = refl
    union-Means (more_groups g gs) next acc s h =
        let z = size g in
        rw (gen_eva_plan-next basic_result g next) (
          exec-operand entity_by_id literal_by_id union_ele merge_union (λ t. refl) z
            (gen_eva_plan basic_result g next).0 _
            (gen_union basic_result gs (next + z)
              (if next == next + z then not (is_some acc) else false)).0
            _ _ acc s (meaning-is_some entity_by_id literal_by_id basic_result g next)
            (group-Means g next (push acc s) h.0)
            (λ b k.
              ap (λ c. if c then union_ele ∷ [] else []) (union_cond next z (is_some acc) b k))
            (λ c k.
              ap
                (λ e.
                  exec entity_by_id literal_by_id (gen_union basic_result gs (next + z) e).0
                    (push c s))
                (empty_cond next z (is_some acc) (not (z == 0)) (is_some c) refl k)
              ∙ union-Means gs (next + z) c s h.1))

    optionals-Means :
        (gs : Groups) (next : ℕ) (acc : Option TempResult) (s : List TempResult)
        → ((is_some acc ≡ true) ⊎ (size_groups gs ≡ 0))
        → AllGrounded gs
        → Means
            (gen_optionals basic_result gs next).0
            (meaning_groups entity_by_id literal_by_id basic_result merge_left_outer_join gs next
              acc)
            (push acc s)
            s
    optionals-Means no_groups next acc s k h = refl
    optionals-Means (more_groups g gs) next acc s w h =
        let z = size g in
        rw (gen_eva_plan-next basic_result g next) (
          exec-operand entity_by_id literal_by_id left_ele merge_left_outer_join (λ t. refl) z
            (gen_eva_plan basic_result g next).0 _ (gen_optionals basic_result gs (next + z)).0 _ _
            acc s (meaning-is_some entity_by_id literal_by_id basic_result g next)
            (group-Means g next (push acc s) h.0)
            (λ b k. left_cond next z (size_groups gs) (is_some acc) b (left_ele ∷ []) w k)
            (λ c k.
              optionals-Means gs (next + z) c s
                (left_next z (size_groups gs) (is_some acc) (not (z == 0)) (is_some c) w k) h.1))

  -- If the optional groups and the filters of every group have something to work on, then the
  -- plan of a pattern group, run on any stack, gives what the group means: the joined, united,
  -- left-joined and filtered result of its basic queries is pushed onto the stack, or nothing if
  -- the meaning is no result, and the run fails just where the meaning does.
  pub do_eva_plan-gen_eva_plan :
      (g : PatternGroup) (id : ℕ) (s : List TempResult)
      → IsGrounded g
      → do_eva_plan entity_by_id literal_by_id (gen_eva_plan basic_result g id).0 s
        ≡ (meaning entity_by_id literal_by_id basic_result g id >>= λ o. done (push o s))
  do_eva_plan-gen_eva_plan g id s h = group-Means g id s h
