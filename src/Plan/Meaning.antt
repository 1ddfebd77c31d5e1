-- ===== src/Plan/Meaning.antt =====
-- What a pattern group means, as an independent description: results are combined as the group is
-- nested, and an empty group changes nothing.
use t_rdf.Base.{ℕ, suc, ◌+◌, ◌<◌, ◌≡◌, ◌⊎◌, Option, none, some, List, [], ◌∷◌, if◌then◌else◌}
use t_rdf.Base.Int.{ℤ}
use t_rdf.Base.Run.{Run, done, ◌>>=◌}
use t_rdf.Signature.Hash.{Text}
use t_rdf.Answers.Merge.{TempResult, merge_join, merge_union, merge_left_outer_join}
use t_rdf.Answers.Filtering.{FilterTree, do_filter}
use t_rdf.Plan.Generate.{
  PatternGroup, group, Groups, no_groups, more_groups, Unions, no_unions, more_unions,
}

-- The number of basic queries in a group.
unfoldable mutual
  pub size : PatternGroup → ℕ
  size (group has_var unions optionals filters) =
      (if has_var then 1 else 0) + (size_unions unions + size_groups optionals)

  pub size_groups : Groups → ℕ
  size_groups no_groups = 0
  size_groups (more_groups g gs) = size g + size_groups gs

  pub size_unions : Unions → ℕ
  size_unions no_unions = 0
  size_unions (more_unions gs us) = size_groups gs + size_unions us

-- `none` is the meaning of a group without a basic query.
abbrev pub combine :
    (TempResult → TempResult → Run TempResult)
    → Option TempResult
    → Option TempResult
    → Run (Option TempResult)
combine merge none b = done b
combine merge (some a) none = done (some a)
combine merge (some a) (some b) = merge a b >>= λ r. done (some r)

module _ (entity_by_id literal_by_id : ℤ → Text) where
  abbrev pub filtered : List FilterTree → Option TempResult → Run (Option TempResult)
  filtered [] o = done o
  filtered (tree ∷ trees) none = done none
  filtered (tree ∷ trees) (some a) =
      do_filter entity_by_id literal_by_id a tree >>= λ r. filtered trees (some r)

module _ (entity_by_id literal_by_id : ℤ → Text) (basic_result : ℕ → TempResult) where
  unfoldable mutual
    unfolding size

    pub meaning : PatternGroup → (id : ℕ) → Run (Option TempResult)
    meaning (group has_var unions optionals filters) id = do
      let own = if has_var then some (basic_result id) else none
      let next = if has_var then suc id else id
      joined ← meaning_unions unions next own
      left ← meaning_groups merge_left_outer_join optionals (next + size_unions unions) joined
      filtered entity_by_id literal_by_id filters left

    pub meaning_unions : Unions → (id : ℕ) → Option TempResult → Run (Option TempResult)
    meaning_unions no_unions id before = done before
    meaning_unions (more_unions gs us) id before = do
      united ← meaning_groups merge_union gs id none
      joined ← combine merge_join before united
      meaning_unions us (id + size_groups gs) joined

    -- Groups are combined one after the other: those of a union, or the optional ones.
    pub meaning_groups :
        (TempResult → TempResult → Run TempResult)
        → Groups
        → (id : ℕ) → Option TempResult
        → Run (Option TempResult)
    meaning_groups merge no_groups id before = done before
    meaning_groups merge (more_groups g gs) id before = do
      one ← meaning g id
      both ← combine merge before one
      meaning_groups merge gs (id + size g) both

-- Optional groups and filters have something to work on.
unfoldable mutual
  unfolding size

  pub IsGrounded : PatternGroup → Type 0
  IsGrounded (group has_var unions optionals filters) =
      ((0 < (if has_var then 1 else 0) + size_unions unions)
        ⊎ ((size_groups optionals ≡ 0) × (filters ≡ [])))
      × AllGroundedUnions unions
      × AllGrounded optionals

  pub AllGrounded : Groups → Type 0
  AllGrounded no_groups = Unit {0}
  AllGrounded (more_groups g gs) = IsGrounded g × AllGrounded gs

  pub AllGroundedUnions : Unions → Type 0
  AllGroundedUnions no_unions = Unit {0}
  AllGroundedUnions (more_unions gs us) = AllGrounded gs × AllGroundedUnions us
