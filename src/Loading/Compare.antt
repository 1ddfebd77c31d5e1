-- ===== src/Loading/Compare.antt =====
-- The comparisons of Database/Database.cpp that `qsort` is called with. Ids are not negative, so the
-- difference of two is an `int`.
use t_rdf.Base.{ℕ, not, ◌==◌, if◌then◌else◌}
use t_rdf.Base.Int.{ℤ, pos, sub_ℕ}

-- The three ints that a pointer leads to.
pub record IdTuple : Type 0 where
  pub sub_id : ℕ
  pub pre_id : ℕ
  pub obj_id : ℕ

-- A block of a comparison, and what follows it.
abbrev pub block : (id_a id_b : ℕ) (rest : ℤ) → ℤ
block id_a id_b rest = if not (id_a == id_b) then sub_ℕ id_a id_b else rest

unfoldable pub spo_cmp : IdTuple → IdTuple → ℤ
spo_cmp a b = block a.sub_id b.sub_id (block a.pre_id b.pre_id (block a.obj_id b.obj_id (pos 0)))

unfoldable pub ops_cmp : IdTuple → IdTuple → ℤ
ops_cmp a b = block a.obj_id b.obj_id (block a.pre_id b.pre_id (block a.sub_id b.sub_id (pos 0)))

unfoldable pub pso_cmp : IdTuple → IdTuple → ℤ
pso_cmp a b = block a.pre_id b.pre_id (block a.sub_id b.sub_id (block a.obj_id b.obj_id (pos 0)))

unfoldable pub pos_cmp : IdTuple → IdTuple → ℤ
pos_cmp a b = block a.pre_id b.pre_id (block a.obj_id b.obj_id (block a.sub_id b.sub_id (pos 0)))
