-- ===== src/Loading/Orders.antt =====
-- The comparisons of Database/Database.cpp against the orders they are named for.
use t_rdf.Base.{
  ℕ, ◌<◌, ◌≡◌, ◌≢◌, ◌↔◌, ◌⊎◌, inl, inr, refl, ap, Bool, true, false, arith, Bool-cases, ◌==◌,
  ==_iff,
}
use t_rdf.Base.Int.{ℤ, pos, negsuc, sub_ℕ}
use t_rdf.Loading.Compare.{IdTuple, block, spo_cmp, ops_cmp, pso_cmp, pos_cmp}

abbrev pub is_negative : ℤ → Bool
is_negative (pos n) = false
is_negative (negsuc n) = true

-- The first difference decides.
abbrev pub Before : (a1 a2 a3 b1 b2 b3 : ℕ) → Type 0
Before a1 a2 a3 b1 b2 b3 = (a1 < b1) ⊎ ((a1 ≡ b1) × ((a2 < b2) ⊎ ((a2 ≡ b2) × (a3 < b3))))

-- The comparison is negative just for a tuple before another in the order of the keys, and 0 just
-- for equal tuples.
pub record Compares (cmp : IdTuple → IdTuple → ℤ) (k1 k2 k3 : IdTuple → ℕ) : Type 0 where
  pub negative :
      (a b : IdTuple)
      → (is_negative (cmp a b) ≡ true) ↔ Before (k1 a) (k2 a) (k3 a) (k1 b) (k2 b) (k3 b)
  pub zero_same : (a b : IdTuple) → (cmp a b ≡ pos 0) ↔ (a ≡ b)

sub_negative : (a b : ℕ) → (a == b) ≡ false → (is_negative (sub_ℕ a b) ≡ true) ↔ (a < b)
sub_negative a b h = (λ n. ground (arith, h, n), λ lt. ground (arith, h, lt))

sub_not_zero : (a b : ℕ) → (a == b) ≡ false → sub_ℕ a b ≢ pos 0
sub_not_zero a b h e = ground (arith, h, e)

block-negative :
    (a b : ℕ) (rest : ℤ)
    → (is_negative (block a b rest) ≡ true) ↔ ((a < b) ⊎ ((a ≡ b) × (is_negative rest ≡ true)))
block-negative a b rest = elim (Bool-cases (a == b)) [
  | inl e ↦
      let same = (==_iff a b).0 e in
      rw e (
        λ n. inr (same, n),
        λ h. elim h [ inl lt ↦ absurd (omega (arith, same, lt)) | inr k ↦ k.1 ],
      )
  | inr e ↦
      let (to, from) = sub_negative a b e in
      rw e (
        λ n. inl (to n),
        λ h. elim h [ inl lt ↦ from lt | inr k ↦ absurd (ground (arith, k.0, e)) ],
      )
]

block-zero : (a b : ℕ) (rest : ℤ) → (block a b rest ≡ pos 0) ↔ ((a ≡ b) × (rest ≡ pos 0))
block-zero a b rest = elim (Bool-cases (a == b)) [
  | inl e ↦ rw e (λ z. ((==_iff a b).0 e, z), λ h. h.1)
  | inr e ↦ rw e (λ z. absurd (sub_not_zero a b e z), λ h. absurd (ground (arith, h.0, e)))
]

blocks-Before :
    (a1 a2 a3 b1 b2 b3 : ℕ)
    → (is_negative (block a1 b1 (block a2 b2 (block a3 b3 (pos 0)))) ≡ true)
      ↔ Before a1 a2 a3 b1 b2 b3
blocks-Before a1 a2 a3 b1 b2 b3 =
    let r1 = block-negative a1 b1 (block a2 b2 (block a3 b3 (pos 0))) in
    let r2 = block-negative a2 b2 (block a3 b3 (pos 0)) in
    let r3 = block-negative a3 b3 (pos 0) in
    let last : is_negative (block a3 b3 (pos 0)) ≡ true → a3 < b3 =
      λ n. elim (r3.0 n) [ inl lt ↦ lt | inr k ↦ absurd (ground (arith, k.1)) ] in
    (
      λ n. elim (r1.0 n) [
        | inl lt ↦ inl lt
        | inr k ↦ elim (r2.0 k.1) [
          | inl lt ↦ inr (k.0, inl lt)
          | inr m ↦ inr (k.0, inr (m.0, last m.1))
        ]
      ],
      λ h. elim h [
        | inl lt ↦ r1.1 (inl lt)
        | inr k ↦ elim k.1 [
          | inl lt ↦ r1.1 (inr (k.0, r2.1 (inl lt)))
          | inr m ↦ r1.1 (inr (k.0, r2.1 (inr (m.0, r3.1 (inl m.1)))))
        ]
      ],
    )

blocks-zero :
    (a1 a2 a3 b1 b2 b3 : ℕ)
    → (block a1 b1 (block a2 b2 (block a3 b3 (pos 0))) ≡ pos 0)
      ↔ ((a1 ≡ b1) × (a2 ≡ b2) × (a3 ≡ b3))
blocks-zero a1 a2 a3 b1 b2 b3 =
    let r1 = block-zero a1 b1 (block a2 b2 (block a3 b3 (pos 0))) in
    let r2 = block-zero a2 b2 (block a3 b3 (pos 0)) in
    let r3 = block-zero a3 b3 (pos 0) in
    (
      λ z. let h1 = r1.0 z in let h2 = r2.0 h1.1 in (h1.0, h2.0, (r3.0 h2.1).0),
      λ h. r1.1 ((h.0, r2.1 ((h.1, r3.1 ((h.2, refl)))))),
    )

tuple-eq : (a b : IdTuple) → a.sub_id ≡ b.sub_id → a.pre_id ≡ b.pre_id → a.obj_id ≡ b.obj_id → a ≡ b
tuple-eq a b e f g = λ i. record { sub_id = e i; pre_id = f i; obj_id = g i }

parts :
    (a b : IdTuple) → a ≡ b → (a.sub_id ≡ b.sub_id) × (a.pre_id ≡ b.pre_id) × (a.obj_id ≡ b.obj_id)
parts a b e = (
  ap (λ (t : IdTuple). t.sub_id) e,
  ap (λ (t : IdTuple). t.pre_id) e,
  ap (λ (t : IdTuple). t.obj_id) e,
)

-- The four comparisons of triples order them by subject, predicate and object, by object, predicate
-- and subject, by predicate, subject and object, and by predicate, object and subject: each is
-- negative just if the first difference in that order says so, and 0 only for equal triples.
pub cmp-Compares :
    Compares spo_cmp (λ t. t.sub_id) (λ t. t.pre_id) (λ t. t.obj_id)
    × Compares ops_cmp (λ t. t.obj_id) (λ t. t.pre_id) (λ t. t.sub_id)
    × Compares pso_cmp (λ t. t.pre_id) (λ t. t.sub_id) (λ t. t.obj_id)
    × Compares pos_cmp (λ t. t.pre_id) (λ t. t.obj_id) (λ t. t.sub_id)
unfolding spo_cmp ops_cmp pso_cmp pos_cmp
cmp-Compares = (
  record {
    negative = λ a b. blocks-Before a.sub_id a.pre_id a.obj_id b.sub_id b.pre_id b.obj_id;
    zero_same = λ a b.
        let (to, from) = blocks-zero a.sub_id a.pre_id a.obj_id b.sub_id b.pre_id b.obj_id in
        (λ z. let h = to z in tuple-eq a b h.0 h.1 h.2, λ e. from (parts a b e));
  },
  record {
    negative = λ a b. blocks-Before a.obj_id a.pre_id a.sub_id b.obj_id b.pre_id b.sub_id;
    zero_same = λ a b.
        let (to, from) = blocks-zero a.obj_id a.pre_id a.sub_id b.obj_id b.pre_id b.sub_id in
        (
          λ z. let h = to z in tuple-eq a b h.2 h.1 h.0,
          λ e. let p = parts a b e in from (p.2, p.1, p.0),
        );
  },
  record {
    negative = λ a b. blocks-Before a.pre_id a.sub_id a.obj_id b.pre_id b.sub_id b.obj_id;
    zero_same = λ a b.
        let (to, from) = blocks-zero a.pre_id a.sub_id a.obj_id b.pre_id b.sub_id b.obj_id in
        (
          λ z. let h = to z in tuple-eq a b h.1 h.0 h.2,
          λ e. let p = parts a b e in from (p.1, p.0, p.2),
        );
  },
  record {
    negative = λ a b. blocks-Before a.pre_id a.obj_id a.sub_id b.pre_id b.obj_id b.sub_id;
    zero_same = λ a b.
        let (to, from) = blocks-zero a.pre_id a.obj_id a.sub_id b.pre_id b.obj_id b.sub_id in
        (
          λ z. let h = to z in tuple-eq a b h.2 h.0 h.1,
          λ e. let p = parts a b e in from (p.1, p.2, p.0),
        );
  },
)
