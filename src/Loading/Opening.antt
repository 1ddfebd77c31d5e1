-- ===== src/Loading/Opening.antt =====
-- The arrays of `s2o_sp2o_s2po` in Database/Database.cpp while a subject is read.
use t_rdf.Base.{
  ℕ, suc, ◌*◌, ◌<◌, ◌≤◌, ◌≡◌, refl, ap, ◌∙◌, inl, inr, Bool, true, false, List, [], ◌∷◌, ◌++◌,
  append-nil, append_assoc, map, some, ◌==◌, if◌then◌else◌, length, length-append, length-map,
  arith, Bool-cases,
}
use t_rdf.Base.Sets.{mem}
use t_rdf.Base.Run.{done}
use t_rdf.Loading.Compare.{IdTuple}
use t_rdf.Loading.Building.{Lists, enlarge, append, add_triple}

-- The sizes that an array of objects has one after the other.
abbrev pub sizes : List ℕ
sizes = 1000 ∷ 10000 ∷ 100000 ∷ 1000000 ∷ 10000000 ∷ 100000000 ∷ 1000000000 ∷ []

abbrev pub is_nil : {A : Type 0} → List A → Bool
is_nil [] = true
is_nil (x ∷ xs) = false

enlarge_lem :
    (len max : ℕ)
    → mem max sizes ≡ true
    → len ≤ max
    → len < 1000000000
    → (max' : ℕ) × (enlarge len max ≡ done max')
      × (enlarge (len * 2) (max * 2) ≡ done (max' * 2))
      × (mem max' sizes ≡ true)
      × (len < max')
unfolding enlarge
enlarge_lem len max m h lt = elim (Bool-cases (len == max)) [
  | inl e ↦ (
    max * 10,
    ground (arith, m, e, lt),
    ground (arith, m, e, lt),
    ground (arith, m, e, lt),
    ground (arith, e, m),
  )
  | inr e ↦ (max, ground (arith, e), ground (arith, e), m, ground (arith, e, h))
]

append_lem : (xs : List ℕ) (max x : ℕ) → length xs < max → append xs max x ≡ done (xs ++ x ∷ [])
unfolding append
append_lem xs max x h = ground (arith, h)

-- The pairs of a list of triples, one after the other.
abbrev pub pairs : (pre obj : IdTuple → ℕ) → List IdTuple → List ℕ
pairs pre obj [] = []
pairs pre obj (t ∷ ts) = pre t ∷ obj t ∷ pairs pre obj ts

pairs-snoc :
    (pre obj : IdTuple → ℕ) (ts : List IdTuple) (t : IdTuple)
    → (pairs pre obj ts ++ pre t ∷ []) ++ obj t ∷ [] ≡ pairs pre obj (ts ++ t ∷ [])
pairs-snoc pre obj [] t = refl
pairs-snoc pre obj (u ∷ ts) t = ap (λ r. pre u ∷ obj u ∷ r) (pairs-snoc pre obj ts t)

map-snoc :
    (obj : IdTuple → ℕ) (ts : List IdTuple) (t : IdTuple)
    → map obj ts ++ obj t ∷ [] ≡ map obj (ts ++ t ∷ [])
map-snoc obj [] t = refl
map-snoc obj (u ∷ ts) t = ap (λ r. obj u ∷ r) (map-snoc obj ts t)

length-pairs :
    (pre obj : IdTuple → ℕ) (ts : List IdTuple) → length (pairs pre obj ts) ≡ length ts * 2
length-pairs pre obj [] = refl
length-pairs pre obj (t ∷ ts) = omega (arith, length-pairs pre obj ts)

module _ (sub pre obj : IdTuple → ℕ) where
  -- The arrays hold the triples `acc` of the subject, of which `run` have the last predicate.
  pub record Opened (c : Lists) (acc before run : List IdTuple) : Type 0 where
    pub split : acc ≡ before ++ run
    pub oids : c.oidlist_s ≡ map obj acc
    pub pids : c.pidoidlist_s ≡ pairs pre obj acc
    pub size : mem c.oidlist_max sizes ≡ true
    pub pid_size : c.pidoidlist_max ≡ c.oidlist_max * 2
    pub room : length acc ≤ c.oidlist_max
    pub start : is_nil run ≡ false → c.oidlist_sp ≡ some (length before)
    pub len : c.oidlist_sp_len ≡ length run

  -- One triple more fits, and then stands at the end of the run.
  pub add_triple-Opened :
      (sort : List ℕ → List ℕ) (t : IdTuple) (c : Lists) (acc before run : List IdTuple)
      → length acc < 1000000000
      → c.sub_pre_change ≡ is_nil run
      → Opened c acc before run
      → (d : Lists) × (add_triple sort sub pre obj t c ≡ done d)
        × Opened d (acc ++ t ∷ []) before (run ++ t ∷ [])
        × (d.indexes ≡ c.indexes)
  unfolding add_triple
  add_triple-Opened sort t c acc before run lt flag o =
      let (max', grown, pid_grown, size', fits) =
        enlarge_lem (length acc) c.oidlist_max o.size o.room lt in
      let oid_len : length c.oidlist_s ≡ length acc = ap length o.oids ∙ length-map obj acc in
      let pid_len : length c.pidoidlist_s ≡ length acc * 2 =
        ap length o.pids ∙ length-pairs pre obj acc in
      let d : Lists = record c {
        oidlist_s = c.oidlist_s ++ obj t ∷ [];
        oidlist_max = max';
        oidlist_sp = if c.sub_pre_change then some (length c.oidlist_s) else c.oidlist_sp;
        oidlist_sp_len = suc c.oidlist_sp_len;
        pidoidlist_s = (c.pidoidlist_s ++ pre t ∷ []) ++ obj t ∷ [];
        pidoidlist_max = max' * 2;
      } in
      let grown' : enlarge (length c.oidlist_s) c.oidlist_max ≡ done max' = rw oid_len grown in
      let pid_grown' : enlarge (length c.pidoidlist_s) c.pidoidlist_max ≡ done (max' * 2) =
        rw (pid_len, o.pid_size) pid_grown in
      let first : append c.oidlist_s max' (obj t) ≡ done (c.oidlist_s ++ obj t ∷ []) =
        append_lem c.oidlist_s max' (obj t) (omega (arith, oid_len, fits)) in
      let second : append c.pidoidlist_s (max' * 2) (pre t) ≡ done (c.pidoidlist_s ++ pre t ∷ []) =
        append_lem c.pidoidlist_s (max' * 2) (pre t) (omega (arith, pid_len, fits)) in
      let third : append (c.pidoidlist_s ++ pre t ∷ []) (max' * 2) (obj t)
          ≡ done ((c.pidoidlist_s ++ pre t ∷ []) ++ obj t ∷ []) =
        append_lem (c.pidoidlist_s ++ pre t ∷ []) (max' * 2) (obj t)
          (omega (arith, pid_len, fits, length-append c.pidoidlist_s (pre t ∷ []))) in
      (
        d,
        rw grown' (rw pid_grown' (rw first (rw second (rw third refl)))),
        record {
          split = ap (λ r. r ++ t ∷ []) o.split ∙ append_assoc before run (t ∷ []);
          oids = ap (λ r. r ++ obj t ∷ []) o.oids ∙ map-snoc obj acc t;
          pids = ap (λ r. (r ++ pre t ∷ []) ++ obj t ∷ []) o.pids ∙ pairs-snoc pre obj acc t;
          size = size';
          pid_size = refl;
          room = omega (arith, length-append acc (t ∷ []), fits);
          start = λ h. rw flag (started run o.split o.start oid_len);
          len = omega (arith, o.len, length-append run (t ∷ []));
        },
        refl,
      )
    where
      started :
          (r : List IdTuple)
          → acc ≡ before ++ r
          → (is_nil r ≡ false → c.oidlist_sp ≡ some (length before))
          → length c.oidlist_s ≡ length acc
          → (if is_nil r then some (length c.oidlist_s) else c.oidlist_sp) ≡ some (length before)
      started [] e h l = ap some (l ∙ ap length (e ∙ append-nil before))
      started (u ∷ us) e h l = h refl
