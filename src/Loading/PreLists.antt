-- ===== src/Loading/PreLists.antt =====
-- The lists of the predicates that `p2s_p2o` of Database/Database.cpp writes, and their places.
use t_rdf.Base.{
  ℕ, suc, ◌≡◌, refl, sym, ap, ◌∙◌, inl, inr, ◌⊎◌, Bool, true, false, not, ◌||◌, List, [], ◌∷◌, ◌++◌,
  ◌==◌, if◌then◌else◌, arith, Bool-cases,
}
use mathlib.Core.Path.{fun_ext}
use t_rdf.Base.Run.{Run, done, ◌>>=◌}
use t_rdf.Loading.Compare.{IdTuple}
use t_rdf.Loading.Building.{changes}
use t_rdf.Loading.Predicates.{
  PreLists, ends_with, add_new, write_list, pre_step, pre_round, pre_loop,
}

ends_with-snoc : (xs : List ℕ) (x : ℕ) → ends_with (xs ++ x ∷ []) x ≡ true
unfolding ends_with
ends_with-snoc [] x = ground arith
ends_with-snoc (y ∷ []) x = ground arith
ends_with-snoc (y ∷ z ∷ xs) x = ends_with-snoc (z ∷ xs) x

add_new_twice : (xs : List ℕ) (x : ℕ) → add_new (add_new xs x) x ≡ add_new xs x
unfolding add_new
add_new_twice xs x = elim (Bool-cases (ends_with xs x)) [
  | inl e ↦ rw e (rw e refl)
  | inr e ↦ rw e (rw (ends_with-snoc xs x) refl)
]

-- The ids of a list of triples, without one that repeats the last.
unfoldable pub distinct_ids : (id : IdTuple → ℕ) → List ℕ → List IdTuple → List ℕ
distinct_ids id xs [] = xs
distinct_ids id xs (t ∷ ts) = distinct_ids id (add_new xs (id t)) ts

pub distinct_ids-snoc :
    (id : IdTuple → ℕ) (xs : List ℕ) (ts : List IdTuple) (t : IdTuple)
    → distinct_ids id xs (ts ++ t ∷ []) ≡ add_new (distinct_ids id xs ts) (id t)
unfolding distinct_ids
distinct_ids-snoc id xs [] t = refl
distinct_ids-snoc id xs (u ∷ ts) t = distinct_ids-snoc id (add_new xs (id u)) ts t

-- The predicates are numbered in turn from `q` on.
abbrev pub InTurn : ℕ → List IdTuple → Type 0
InTurn q [] = Unit {0}
InTurn q (t ∷ ts) = (t.pre_id ≡ q) × (InTurn q ts ⊎ InTurn (suc q) ts)

pub turn_over :
    (q : ℕ) (t : IdTuple) (ts : List IdTuple)
    → InTurn q (t ∷ ts)
    → changes (λ u. u.pre_id) t ts ≡ true
    → InTurn (suc q) ts
unfolding changes
turn_over q t [] h e = tt
turn_over q t (u ∷ us) h e = elim h.1 [ inl a ↦ absurd (ground (arith, h.0, a.0, e)) | inr a ↦ a ]

pub turn_on :
    (q : ℕ) (t : IdTuple) (ts : List IdTuple)
    → InTurn q (t ∷ ts)
    → changes (λ u. u.pre_id) t ts ≡ false
    → InTurn q ts
unfolding changes
turn_on q t [] h e = tt
turn_on q t (u ∷ us) h e = elim h.1 [ inl a ↦ a | inr a ↦ absurd (ground (arith, h.0, a.0, e)) ]

module _ (sort : List ℕ → List ℕ) (pre_num column : ℕ) (id : IdTuple → ℕ) where
  -- The loop without the test for equal triples.
  unfoldable pub plain_loop : List IdTuple → PreLists → Run PreLists
  plain_loop [] c = done c
  plain_loop (t ∷ rest) c = pre_step sort pre_num column id t rest c >>= λ d. plain_loop rest d

  -- An equal triple in front changes nothing.
  pre_step_again :
      (t u : IdTuple) (us : List IdTuple) (c : PreLists)
      → id t ≡ id u
      → pre_step sort pre_num column id u us (record c {
        idlist = add_new (if c.pre_change then [] else c.idlist) (id t);
        pre_change = false;
      })
        ≡ pre_step sort pre_num column id u us c
  unfolding pre_step
  pre_step_again t u us c e =
      rw (e, add_new_twice (if c.pre_change then [] else c.idlist) (id u)) refl

  pub pre_step_on :
      (t : IdTuple) (ts : List IdTuple) (c : PreLists)
      → changes (λ v. v.pre_id) t ts ≡ false
      → pre_step sort pre_num column id t ts c
        ≡ done (record c {
          idlist = add_new (if c.pre_change then [] else c.idlist) (id t);
          pre_change = false;
        })
  unfolding pre_step
  pre_step_on t ts c e = rw e refl

  pub pre_step_over :
      (t : IdTuple) (ts : List IdTuple) (c : PreLists)
      → changes (λ v. v.pre_id) t ts ≡ true
      → pre_step sort pre_num column id t ts c
        ≡ write_list sort pre_num column id t.pre_id (record c {
          idlist = add_new (if c.pre_change then [] else c.idlist) (id t);
          pre_change = true;
        })
  unfolding pre_step
  pre_step_over t ts c e = rw e refl

  -- The loop may as well count every one of several equal triples.
  pub pre_loop-plain_loop :
      (ts : List IdTuple) (c : PreLists)
      → ((t u : IdTuple) → t.sub_id ≡ u.sub_id → t.obj_id ≡ u.obj_id → id t ≡ id u)
      → pre_loop sort pre_num column id ts c ≡ plain_loop ts c
  unfolding pre_loop pre_round plain_loop changes
  pre_loop-plain_loop [] c h = refl
  pre_loop-plain_loop (t ∷ []) c h = refl
  pre_loop-plain_loop (t ∷ u ∷ us) c h =
      let ih = λ (d : PreLists). pre_loop-plain_loop (u ∷ us) d h in
      let differs : Bool =
        not (t.sub_id == u.sub_id) || not (t.pre_id == u.pre_id) || not (t.obj_id == u.obj_id) in
      elim (Bool-cases differs) [
        | inl e ↦
            let round : pre_round sort pre_num column id t (u ∷ us) c
                ≡ pre_step sort pre_num column id t (u ∷ us) c =
              rw (e, pre_round) refl in
            rw round (ap (λ f. pre_step sort pre_num column id t (u ∷ us) c >>= f) (fun_ext ih))
        | inr e ↦
            let round : pre_round sort pre_num column id t (u ∷ us) c ≡ done c =
              rw (e, pre_round) refl in
            let same : id t ≡ id u = h t u (ground (arith, e)) (ground (arith, e)) in
            let on : not (t.pre_id == u.pre_id) ≡ false = ground (arith, e) in
            let again : plain_loop (u ∷ us) (record c {
              idlist = add_new (if c.pre_change then [] else c.idlist) (id t);
              pre_change = false;
            })
                ≡ plain_loop (u ∷ us) c =
              ap (λ r. r >>= λ d. plain_loop us d) (pre_step_again t u us c same) in
            rw (round, pre_step_on t (u ∷ us) c on) (ih c ∙ sym again)
      ]
