-- ===== src/Plan/Run.antt =====
-- Runs of plans on the stack machine: `doEvaPlan` of Database/Database.cpp.
use t_rdf.Base.{
  ℕ, ◌≡◌, refl, sym, ap, ◌∙◌, ◌⊎◌, inl, inr, Bool, true, not, ◌&&◌, ◌||◌, Option, none, some, List,
  [], ◌∷◌, ◌++◌, ◌==◌, if◌then◌else◌, map,
}
use t_rdf.Base.Int.{ℤ}
use t_rdf.Base.Run.{Run, done, Yields, Yields-any, bind_assoc, bind_congr, ◌>>=◌}
use t_rdf.Signature.Hash.{Text}
use t_rdf.Answers.Merge.{TempResult}
use t_rdf.Answers.Filtering.{FilterTree, do_filter}
use t_rdf.Plan.Machine.{EvaPlanEle, filter_ele, with_two, step, do_eva_plan}
use t_rdf.Plan.Meaning.{combine, filtered}
use t_rdf.Plan.Shape.{is_some, combine-is_some}

abbrev pub push : Option TempResult → List TempResult → List TempResult
push none stack = stack
push (some a) stack = a ∷ stack

module _ (entity_by_id literal_by_id : ℤ → Text) where
  abbrev pub exec : List EvaPlanEle → List TempResult → Run (List TempResult)
  exec plan stack = do_eva_plan entity_by_id literal_by_id plan stack

  exec-append :
      (c d : List EvaPlanEle) (s : List TempResult) → exec (c ++ d) s ≡ (exec c s >>= λ t. exec d t)
  unfolding do_eva_plan
  exec-append [] d s = refl
  exec-append (e ∷ c) d s =
      bind_congr (λ t. Unit {0}) (step entity_by_id literal_by_id e s) _ _
        (Yields-any (step entity_by_id literal_by_id e s)) (λ t u. exec-append c d t)
      ∙ sym (bind_assoc (step entity_by_id literal_by_id e s) (λ t. exec c t) (λ t. exec d t))

  -- An operation on two results, where both are there.
  pub exec-combine :
      (ele : EvaPlanEle) (merge : TempResult → TempResult → Run TempResult)
      → ((s : List TempResult) → step entity_by_id literal_by_id ele s ≡ with_two merge s)
      → (a b : Option TempResult) (s : List TempResult)
      → exec (if is_some a && is_some b then ele ∷ [] else []) (push b (push a s))
        ≡ (combine merge a b >>= λ o. done (push o s))
  unfolding do_eva_plan
  exec-combine ele merge h none none s = refl
  exec-combine ele merge h none (some b) s = refl
  exec-combine ele merge h (some a) none s = refl
  exec-combine ele merge h (some a) (some b) s =
      rw (h (b ∷ a ∷ s)) (bind_assoc (merge a b) _ _ ∙ sym (bind_assoc (merge a b) _ _))

  pub exec-filters :
      (trees : List FilterTree) (o : Option TempResult) (s : List TempResult)
      → ((is_some o ≡ true) ⊎ (trees ≡ []))
      → exec (map filter_ele trees) (push o s)
        ≡ (filtered entity_by_id literal_by_id trees o >>= λ p. done (push p s))
  unfolding do_eva_plan step
  exec-filters [] o s h = refl
  exec-filters (tree ∷ trees) none s h = elim h [ inl e ↦ cc | inr e ↦ cc ]
  exec-filters (tree ∷ trees) (some a) s h =
      let d = do_filter entity_by_id literal_by_id a tree in
      bind_assoc d _ _
      ∙ bind_congr (λ r. Unit {0}) d _ _ (Yields-any d)
          (λ r u. exec-filters trees (some r) s (inl refl))
      ∙ sym (bind_assoc d _ _)

  -- Code that pushes what `r` gives, and then code for what follows.
  pub exec-then :
      (P : Option TempResult → Type 0) (c d : List EvaPlanEle) (r : Run (Option TempResult))
      (g : Option TempResult → Run (Option TempResult)) (t u s : List TempResult)
      → Yields r P
      → exec c t ≡ (r >>= λ o. done (push o u))
      → ((o : Option TempResult) → P o → exec d (push o u) ≡ (g o >>= λ q. done (push q s)))
      → exec (c ++ d) t ≡ ((r >>= g) >>= λ q. done (push q s))
  exec-then P c d r g t u s shape h k =
      exec-append c d t
      ∙ ap (λ x. x >>= λ v. exec d v) h
      ∙ bind_assoc r _ _
      ∙ bind_congr P r _ _ shape k
      ∙ sym (bind_assoc r g _)

  -- Code for an operand, the operation that combines it with what is there, and the rest.
  pub exec-operand :
      (ele : EvaPlanEle) (merge : TempResult → TempResult → Run TempResult)
      → ((s : List TempResult) → step entity_by_id literal_by_id ele s ≡ with_two merge s)
      → (z : ℕ) (code oper rest : List EvaPlanEle) (r : Run (Option TempResult))
        (g : Option TempResult → Run (Option TempResult)) (acc : Option TempResult)
        (s : List TempResult)
      → Yields r (λ b. is_some b ≡ not (z == 0))
      → exec code (push acc s) ≡ (r >>= λ o. done (push o (push acc s)))
      → ((b : Bool) → b ≡ not (z == 0) → oper ≡ (if is_some acc && b then ele ∷ [] else []))
      → ((c : Option TempResult)
          → is_some c ≡ (is_some acc || not (z == 0))
          → exec rest (push c s) ≡ (g c >>= λ q. done (push q s)))
      → exec (code ++ (oper ++ rest)) (push acc s)
        ≡ ((r >>= λ b. combine merge acc b >>= g) >>= λ q. done (push q s))
  exec-operand ele merge hs z code oper rest r g acc s shape hc ho hr =
      exec-then (λ b. is_some b ≡ not (z == 0)) code (oper ++ rest) r
        (λ b. combine merge acc b >>= g) (push acc s) (push acc s) s shape hc
        (λ b e1.
          exec-then (λ c. is_some c ≡ (is_some acc || is_some b)) oper rest (combine merge acc b) g
            (push b (push acc s)) s s (combine-is_some merge acc b)
            (ap (λ o. exec o (push b (push acc s))) (ho (is_some b) e1)
              ∙ exec-combine ele merge hs acc b s)
            (λ c e2. hr c (e2 ∙ ap (λ x. is_some acc || x) e1)))
