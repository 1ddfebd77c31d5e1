-- ===== src/Loading/Turns.antt =====
-- The loop of `p2s_p2o` in Database/Database.cpp over the predicates in turn.
use t_rdf.Base.{
  ℕ, suc, ◌<◌, ◌≤◌, ◌≡◌, refl, sym, ap, ◌∙◌, inl, inr, Bool, true, false, List, [], ◌∷◌, ◌++◌, ◌==◌,
  if◌then◌else◌, keep, arith, Bool-cases, append_assoc,
}
use t_rdf.Base.Run.{done}
use t_rdf.Loading.Compare.{IdTuple}
use t_rdf.Loading.Building.{changes}
use t_rdf.Loading.Opening.{is_nil}
use t_rdf.Loading.Predicates.{PreLists, add_new, write_list, pre_step}
use t_rdf.Loading.PreLists.{
  distinct_ids, distinct_ids-snoc, InTurn, turn_over, turn_on, plain_loop, pre_step_on,
  pre_step_over,
}
use t_rdf.Loading.Places.{Filed, SameElsewhere, SameElsewhere-trans, write_list-Filed}

abbrev pub has_pre : ℕ → IdTuple → Bool
has_pre p t = t.pre_id == p

abbrev pub AllBelow : ℕ → List IdTuple → Type 0
AllBelow n [] = Unit {0}
AllBelow n (t ∷ ts) = (t.pre_id < n) × AllBelow n ts

none_of_earlier : (p q : ℕ) (ts : List IdTuple) → p < q → InTurn q ts → keep (has_pre p) ts ≡ []
none_of_earlier p q [] lt h = refl
none_of_earlier p q (t ∷ ts) lt h =
    let off : has_pre p t ≡ false = ground (arith, lt, h.0) in
    rw off (elim h.1 [
      | inl a ↦ none_of_earlier p q ts lt a
      | inr a ↦ none_of_earlier p (suc q) ts (omega arith) a
    ])

is_nil_snoc : (xs : List IdTuple) (t : IdTuple) → is_nil (xs ++ t ∷ []) ≡ false
is_nil_snoc [] t = refl
is_nil_snoc (x ∷ xs) t = refl

more_left :
    (t : IdTuple) (ts : List IdTuple) → changes (λ u. u.pre_id) t ts ≡ false → is_nil ts ≡ false
unfolding changes
more_left t [] e = cc (e)
more_left t (u ∷ us) e = refl

module _ (sort : List ℕ → List ℕ) (pre_num column : ℕ) (id : IdTuple → ℕ) where
  ids_so_far :
      (c : PreLists) (acc : List IdTuple) (t : IdTuple)
      → c.pre_change ≡ is_nil acc
      → (is_nil acc ≡ false → c.idlist ≡ distinct_ids id [] acc)
      → add_new (if c.pre_change then [] else c.idlist) (id t) ≡ distinct_ids id [] (acc ++ t ∷ [])
  unfolding distinct_ids
  ids_so_far c [] t e h = rw e refl
  ids_so_far c (a ∷ acc) t e h = rw (e, h refl) (sym (distinct_ids-snoc id [] (a ∷ acc) t))

  -- What the loop makes of a list whose predicates are in turn from `q` on.
  pub record Turned (ts : List IdTuple) (c : PreLists) (q : ℕ) (lists : ℕ → List ℕ) : Type 0 where
    pub final : PreLists
    pub turns : ℕ
    pub ran : plain_loop sort pre_num column id ts c ≡ done final
    pub filed : Filed column final.file final.pre_stat turns lists
    pub reaches : (q ≤ turns) × (is_nil ts ≡ false → q < turns)
    pub covers : (p : ℕ) → is_nil (keep (has_pre p) ts) ≡ false → p < turns
    pub elsewhere : SameElsewhere column c.pre_stat final.pre_stat
    pub flag : final.pre_change ≡ true

  covers_cons :
      (t : IdTuple) (ts : List IdTuple) (q n : ℕ)
      → t.pre_id ≡ q
      → q < n
      → ((p : ℕ) → is_nil (keep (has_pre p) ts) ≡ false → p < n)
      → (p : ℕ) → is_nil (keep (has_pre p) (t ∷ ts)) ≡ false
      → p < n
  covers_cons t ts q n e lt h p some_left = elim (Bool-cases (has_pre p t)) [
    | inl y ↦ ground (arith, y, e, lt)
    | inr n' ↦ h p (rw n' at some_left)
  ]

  pub plain_loop-Turned :
      (ts : List IdTuple) (c : PreLists) (q : ℕ) (acc : List IdTuple) (lists : ℕ → List ℕ)
      → InTurn q ts
      → AllBelow pre_num ts
      → c.pre_change ≡ is_nil acc
      → (is_nil acc ≡ false → c.idlist ≡ distinct_ids id [] acc)
      → (is_nil ts ≡ true → is_nil acc ≡ true)
      → lists q ≡ sort (distinct_ids id [] (acc ++ keep (has_pre q) ts))
      → ((p : ℕ) → q < p → lists p ≡ sort (distinct_ids id [] (keep (has_pre p) ts)))
      → Filed column c.file c.pre_stat q lists
      → Turned ts c q lists
  unfolding plain_loop
  plain_loop-Turned [] c q acc lists turn below flag ids goes here later f = record {
    final = c;
    turns = q;
    ran = refl;
    filed = f;
    reaches = (omega arith, λ e. cc (e));
    covers = λ p e. cc (e);
    elsewhere = λ i h. refl;
    flag = flag ∙ goes refl;
  }
  plain_loop-Turned (t ∷ ts) c q acc lists turn below flag ids goes here later f =
      let on_q : has_pre q t ≡ true = ground (arith, turn.0) in
      let gathered = ids_so_far c acc t flag ids in
      let later' : (p : ℕ) → q < p → lists p ≡ sort (distinct_ids id [] (keep (has_pre p) ts)) =
        λ p lt.
          (let off : has_pre p t ≡ false = ground (arith, turn.0, lt) in rw off at (later p lt)) in
      elim (Bool-cases (changes (λ u. u.pre_id) t ts)) [
        | inl e ↦
            let turn' = turn_over q t ts turn e in
            let last : lists q ≡ sort (distinct_ids id [] (acc ++ t ∷ [])) =
              (rw (on_q, none_of_earlier q (suc q) ts (omega arith) turn') at here) in
            let added : PreLists = record c {
              idlist = add_new (if c.pre_change then [] else c.idlist) (id t);
              pre_change = true;
            } in
            let (d, wrote, filed, same, flag') =
              write_list-Filed column sort pre_num id added q lists (rw turn.0 at below.0)
                (last ∙ ap sort (sym gathered)) f in
            let after =
              plain_loop-Turned ts d (suc q) [] lists turn' below.1 flag' (λ x. cc (x)) (λ x. refl)
                (later' (suc q) (omega arith)) (λ p lt. later' p (omega arith)) filed in
            let stepped : pre_step sort pre_num column id t ts c ≡ done d =
              pre_step_over sort pre_num column id t ts c e
              ∙ ap (λ p. write_list sort pre_num column id p added) turn.0
              ∙ wrote in
            record {
              final = after.final;
              turns = after.turns;
              ran = rw stepped after.ran;
              filed = after.filed;
              reaches = (omega (arith, after.reaches.0), λ x. omega (arith, after.reaches.0));
              covers =
                  covers_cons t ts q after.turns turn.0 (omega (arith, after.reaches.0))
                    after.covers;
              elsewhere =
                  SameElsewhere-trans column c.pre_stat d.pre_stat after.final.pre_stat same
                    after.elsewhere;
              flag = after.flag;
            }
        | inr e ↦
            let turn' = turn_on q t ts turn e in
            let d : PreLists = record c {
              idlist = add_new (if c.pre_change then [] else c.idlist) (id t);
              pre_change = false;
            } in
            let more : is_nil ts ≡ false = more_left t ts e in
            let here' : lists q ≡ sort (distinct_ids id [] (acc ++ t ∷ keep (has_pre q) ts)) =
              (rw (on_q) at here) in
            let regrouped : lists q
                ≡ sort (distinct_ids id [] ((acc ++ t ∷ []) ++ keep (has_pre q) ts)) =
              rw (append_assoc acc (t ∷ []) (keep (has_pre q) ts)) here' in
            let after =
              plain_loop-Turned ts d q (acc ++ t ∷ []) lists turn' below.1 (sym (is_nil_snoc acc t))
                (λ x. gathered) (λ x. cc (x, more)) regrouped later' f in
            record {
              final = after.final;
              turns = after.turns;
              ran = rw (pre_step_on sort pre_num column id t ts c e) after.ran;
              filed = after.filed;
              reaches = (after.reaches.0, λ x. after.reaches.1 more);
              covers = covers_cons t ts q after.turns turn.0 (after.reaches.1 more) after.covers;
              elsewhere = after.elsewhere;
              flag = after.flag;
            }
      ]
