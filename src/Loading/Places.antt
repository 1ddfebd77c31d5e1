-- ===== src/Loading/Places.antt =====
-- The table of `p2s_p2o` of Database/Database.cpp: where the lists of the predicates stand.
use t_rdf.Base.{
  ℕ, zero, suc, ◌+◌, ◌-◌, ◌*◌, ◌<◌, ◌≤◌, ◌≡◌, ◌≢◌, refl, sym, ap, ◌∙◌, inl, inr, false, List, [],
  ◌∷◌, ◌++◌, lt→ltb, ◌==◌, ==_iff, if◌then◌else◌, length, length-append, take, drop, take-all,
  arith, Bool-cases,
}
use t_rdf.Base.Run.{done}
use t_rdf.Query.Basic.{put}
use t_rdf.Loading.Compare.{IdTuple}
use t_rdf.Loading.Predicates.{PreLists, list_start, write_list}

take-append_less : (l : ℕ) (xs ys : List ℕ) → l ≤ length xs → take l (xs ++ ys) ≡ take l xs
take-append_less zero xs ys h = refl
take-append_less (suc l) [] ys h = absurd (omega arith)
take-append_less (suc l) (x ∷ xs) ys h = ap (λ r. x ∷ r) (take-append_less l xs ys (omega arith))

part_before :
    (s l : ℕ) (xs ys : List ℕ) → s + l ≤ length xs → take l (drop s (xs ++ ys)) ≡ take l (drop s xs)
part_before zero l xs ys h = take-append_less l xs ys (omega arith)
part_before (suc s) l [] ys h = absurd (omega arith)
part_before (suc s) l (x ∷ xs) ys h = part_before s l xs ys (omega arith)

part_behind : (xs ys : List ℕ) → take (length ys) (drop (length xs) (xs ++ ys)) ≡ ys
part_behind [] ys = take-all ys
part_behind (x ∷ xs) ys = part_behind xs ys

module _ (column : ℕ) where
  abbrev pub start_at : (ℕ → ℕ) → ℕ → ℕ
  start_at stat p = stat (p * 4 + column)

  abbrev pub length_at : (ℕ → ℕ) → ℕ → ℕ
  length_at stat p = stat (p * 4 + column + 1)

  -- The file has the lists of the predicates before `q`, at the places of the table.
  pub record Filed (file : List ℕ) (stat : ℕ → ℕ) (q : ℕ) (lists : ℕ → List ℕ) : Type 0 where
    pub end :
        (0 < q → length file ≡ start_at stat (q - 1) + length_at stat (q - 1))
        × (q ≡ 0 → length file ≡ 0)
    pub parts : (p : ℕ) → p < q → take (length_at stat p) (drop (start_at stat p) file) ≡ lists p
    pub within : (p : ℕ) → p < q → start_at stat p + length_at stat p ≤ length file

  -- Only the entries of this column change.
  abbrev pub SameElsewhere : (ℕ → ℕ) → (ℕ → ℕ) → Type 0
  SameElsewhere stat stat' =
      (i : ℕ) → ((p : ℕ) → (i ≢ p * 4 + column) × (i ≢ p * 4 + column + 1)) → stat' i ≡ stat i

  pub SameElsewhere-trans :
      (s1 s2 s3 : ℕ → ℕ) → SameElsewhere s1 s2 → SameElsewhere s2 s3 → SameElsewhere s1 s3
  SameElsewhere-trans s1 s2 s3 h k i f = k i f ∙ h i f

  abbrev new_stat : (ℕ → ℕ) → (q start len : ℕ) → ℕ → ℕ
  new_stat stat q start len = put (put stat (q * 4 + column) start) (q * 4 + column + 1) len

  new_stat_other :
      (stat : ℕ → ℕ) (q start len p : ℕ)
      → p < q
      → (start_at (new_stat stat q start len) p ≡ start_at stat p)
        × (length_at (new_stat stat q start len) p ≡ length_at stat p)
  new_stat_other stat q start len p lt = (ground (arith, lt), ground (arith, lt))

  new_stat_self :
      (stat : ℕ → ℕ) (q start len : ℕ)
      → (start_at (new_stat stat q start len) q ≡ start)
        × (length_at (new_stat stat q start len) q ≡ len)
  new_stat_self stat q start len = (ground arith, ground arith)

  append-Filed :
      (file : List ℕ) (stat : ℕ → ℕ) (q start : ℕ) (lists : ℕ → List ℕ) (xs : List ℕ)
      → start ≡ length file
      → lists q ≡ xs
      → Filed file stat q lists
      → Filed (file ++ xs) (new_stat stat q start (length xs)) (suc q) lists
  append-Filed file stat q start lists xs at new f =
      let (self, self_len) = new_stat_self stat q start (length xs) in
      record {
        end = (
          (λ h.
              (let back : suc q - 1 ≡ q = omega arith in
                rw (back) (length-append file xs ∙ sym (λ i. (self ∙ at) i + self_len i)))),
          λ h. absurd (omega arith),
        );
        parts = λ p lt. elim (Bool-cases (p == q)) [
          | inl e ↦
              (let same = (==_iff p q).0 e in
                rw (same) (
                  (λ i. take (self_len i) (drop ((self ∙ at) i) (file ++ xs)))
                  ∙ part_behind file xs
                  ∙ sym new))
          | inr e ↦
              let before : p < q = ground (arith, e, lt) in
              let (s, l) = new_stat_other stat q start (length xs) p before in
              rw (s, l)
                (part_before (start_at stat p) (length_at stat p) file xs (f.within p before)
                  ∙ f.parts p before)
        ];
        within = λ p lt. elim (Bool-cases (p == q)) [
          | inl e ↦
              (let same = (==_iff p q).0 e in
                rw (same) (omega (arith, self, self_len, at, length-append file xs)))
          | inr e ↦
              let before : p < q = ground (arith, e, lt) in
              let (s, l) = new_stat_other stat q start (length xs) p before in
              let old = f.within p before in omega (arith, s, l, old, length-append file xs)
        ];
      }

  new_stat_elsewhere :
      (stat : ℕ → ℕ) (q start len : ℕ) → SameElsewhere stat (new_stat stat q start len)
  new_stat_elsewhere stat q start len i h =
      let (l, r) = h q in
      let off : (q * 4 + column == i) ≡ false = ground (arith, λ (e : i ≡ q * 4 + column). l e) in
      let off' : (q * 4 + column + 1 == i) ≡ false =
        ground (arith, λ (e : i ≡ q * 4 + column + 1). r e) in
      rw off' (rw off refl)

  module _ (sort : List ℕ → List ℕ) (pre_num : ℕ) (id : IdTuple → ℕ) where
    -- The list of the predicate that ends is written behind the others.
    pub write_list-Filed :
        (c : PreLists) (q : ℕ) (lists : ℕ → List ℕ)
        → q < pre_num
        → lists q ≡ sort c.idlist
        → Filed c.file c.pre_stat q lists
        → (d : PreLists) × (write_list sort pre_num column id q c ≡ done d)
          × Filed d.file d.pre_stat (suc q) lists
          × SameElsewhere c.pre_stat d.pre_stat
          × (d.pre_change ≡ c.pre_change)
    unfolding write_list list_start
    write_list-Filed c q lists lt new f =
        let start =
          if q == 0
          then 0
          else c.pre_stat ((q - 1) * 4 + column) + c.pre_stat ((q - 1) * 4 + column + 1) in
        let at : start ≡ length c.file = ground (arith, f.end.0, f.end.1) in
        (
          record c {
            idlist = sort c.idlist;
            file = c.file ++ sort c.idlist;
            pre_stat = new_stat c.pre_stat q start (length (sort c.idlist));
          },
          rw (lt→ltb q pre_num lt) refl,
          append-Filed c.file c.pre_stat q start lists (sort c.idlist) at new f,
          new_stat_elsewhere c.pre_stat q start (length (sort c.idlist)),
          refl,
        )
