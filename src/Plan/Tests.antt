-- ===== src/Plan/Tests.antt =====
-- When `genEvaPlan` of Database/Database.cpp pushes an operation.
use t_rdf.Base.{
  ℕ, ◌+◌, ◌<◌, ◌≤◌, ◌≡◌, ◌⊎◌, inl, inr, Bool, true, false, not, ◌&&◌, ◌||◌, List, [], arith, ◌==◌,
  if◌then◌else◌,
}
use t_rdf.Answers.Filtering.{FilterTree}
use t_rdf.Plan.Machine.{EvaPlanEle}

-- When an operation is pushed: if both operands are there.
pub join_cond :
    (next id z : ℕ) (a b : Bool)
    → (next == id) ≡ not a
    → b ≡ not (z == 0)
    → (not (next == id) && not (next == next + z)) ≡ (a && b)
join_cond next id z a b e f = ground (arith, e, f)

pub next_cond :
    (next id z : ℕ) (a b c : Bool)
    → id ≤ next
    → (next == id) ≡ not a
    → b ≡ not (z == 0)
    → c ≡ (a || b)
    → (next + z == id) ≡ not c
next_cond next id z a b c le e f g = ground (arith, e, f, g)

pub union_cond :
    (next z : ℕ) (a b : Bool)
    → b ≡ not (z == 0)
    → (not (not a) && not (next == next + z)) ≡ (a && b)
union_cond next z a b f = ground (arith, f)

pub empty_cond :
    (next z : ℕ) (a b c : Bool)
    → b ≡ not (z == 0)
    → c ≡ (a || b)
    → (if next == next + z then not a else false) ≡ not c
empty_cond next z a b c f g = ground (arith, f, g)

pub left_cond :
    (next z w : ℕ) (a b : Bool) (ele : List EvaPlanEle)
    → ((a ≡ true) ⊎ (z + w ≡ 0))
    → b ≡ not (z == 0)
    → (if next == next + z then [] else ele) ≡ (if a && b then ele else [])
left_cond next z w a b ele (inl k) f = ground (arith, k, f)
left_cond next z w a b ele (inr k) f = ground (arith, k, f)

pub left_next :
    (z w : ℕ) (a b c : Bool) → ((a ≡ true) ⊎ (z + w ≡ 0)) → c ≡ (a || b) → (c ≡ true) ⊎ (w ≡ 0)
left_next z w a b c (inl k) g = inl (ground (arith, k, g))
left_next z w a b c (inr k) g = inr (omega arith)

pub grounded_left :
    (u o : ℕ) (a j : Bool) (fs : List FilterTree)
    → ((0 < (if a then 1 else 0) + u) ⊎ ((o ≡ 0) × (fs ≡ [])))
    → j ≡ (a || not (u == 0))
    → (j ≡ true) ⊎ (o ≡ 0)
grounded_left u o true j fs (inl h) e = inl e
grounded_left u o false j fs (inl h) e = inl (ground (arith, h, e))
grounded_left u o a j fs (inr h) e = inr h.0

pub grounded_filters :
    (u o : ℕ) (a j l : Bool) (fs : List FilterTree)
    → ((0 < (if a then 1 else 0) + u) ⊎ ((o ≡ 0) × (fs ≡ [])))
    → j ≡ (a || not (u == 0))
    → l ≡ (j || not (o == 0))
    → (l ≡ true) ⊎ (fs ≡ [])
grounded_filters u o true j l fs (inl h) e f = inl (ground (arith, e, f))
grounded_filters u o false j l fs (inl h) e f = inl (ground (arith, h, e, f))
grounded_filters u o a j l fs (inr h) e f = inr h.1
