-- ===== src/Answers/Columns.antt =====
-- The columns that `mapVarVec` of Database/Database.cpp gives, and rows that are made by them.
use t_rdf.Base.{
  ℕ, zero, suc, ◌+◌, ◌≤◌, ◌<◌, ◌≡◌, refl, ap, ◌∙◌, ◌⊎◌, inl, inr, false, List, [], ◌∷◌, ◌++◌, ltb,
  lt→ltb, arith, if◌then◌else◌, length, get_or, drop, map, drop-all,
}
use t_rdf.Base.Run.{done}
use t_rdf.Answers.Merge.{push_new}

-- Columns of the second part, where `n` is the number of the first: an old one, or the next new
-- one.
abbrev pub Columns : (n next : ℕ) → List ℕ → (total : ℕ) → Type 0
Columns n next [] total = next ≡ total
Columns n next (m ∷ ms) total =
    ((m < n) × Columns n next ms total) ⊎ ((m ≡ next) × Columns n (suc next) ms total)

module _ {A : Type 0} (d : A) where
  -- The values of a row in some columns.
  abbrev pub project : (w : List A) → List ℕ → List A
  project w ms = map (λ m. get_or w m d) ms

  -- In the old columns the row has the given values.
  abbrev pub Agrees : (n : ℕ) (w : List A) (ms : List ℕ) → List A → Type 0
  Agrees n w [] [] = Unit {0}
  Agrees n w [] (x ∷ xs) = ⊥
  Agrees n w (m ∷ ms) [] = ⊥
  Agrees n w (m ∷ ms) (x ∷ xs) = (m < n → get_or w m d ≡ x) × Agrees n w ms xs

  -- The values for the new columns.
  abbrev pub extras : (n : ℕ) (ms : List ℕ) → List A → List A
  extras n [] xs = []
  extras n (m ∷ ms) [] = []
  extras n (m ∷ ms) (x ∷ xs) = if ltb m n then extras n ms xs else x ∷ extras n ms xs

  pub drop-get_or : (k : ℕ) (w : List A) → k < length w → drop k w ≡ get_or w k d ∷ drop (suc k) w
  drop-get_or k [] h = absurd (omega arith)
  drop-get_or zero (x ∷ w) h = refl
  drop-get_or (suc k) (x ∷ w) h = drop-get_or k w (omega arith)

  get_or-drop :
      (k : ℕ) (w : List A) (x : A) (xs : List A)
      → drop k w ≡ x ∷ xs
      → (get_or w k d ≡ x) × (drop (suc k) w ≡ xs)
  get_or-drop zero [] x xs h = cc
  get_or-drop (suc k) [] x xs h = cc
  get_or-drop zero (y ∷ w) x xs h = (cc, cc)
  get_or-drop (suc k) (y ∷ w) x xs h = get_or-drop k w x xs h

  pub Columns-le : (n next total : ℕ) (ms : List ℕ) → Columns n next ms total → next ≤ total
  Columns-le n next total [] c = omega arith
  Columns-le n next total (m ∷ ms) (inl old) = Columns-le n next total ms old.1
  Columns-le n next total (m ∷ ms) (inr new) = omega (arith, Columns-le n (suc next) total ms new.1)

  -- A row whose new columns hold the values of `xs`, and which agrees with it in the old ones,
  -- has `xs` in the columns.
  pub project_of_Agrees :
      (n next total : ℕ) (ms : List ℕ) (w xs : List A)
      → n ≤ next
      → Columns n next ms total
      → Agrees n w ms xs
      → drop next w ≡ extras n ms xs
      → project w ms ≡ xs
  project_of_Agrees n next total [] w [] le c a e = refl
  project_of_Agrees n next total [] w (x ∷ xs) le c a e = absurd a
  project_of_Agrees n next total (m ∷ ms) w [] le c a e = absurd a
  project_of_Agrees n next total (m ∷ ms) w (x ∷ xs) le (inl old) a e =
      let rest = project_of_Agrees n next total ms w xs le old.1 a.1 (rw (lt→ltb m n old.0) at e) in
      rw (a.0 old.0, rest)
  project_of_Agrees n next total (m ∷ ms) w (x ∷ xs) le (inr new) a e =
      let later : ltb m n ≡ false = ground (arith, new.0) in
      let (here, after) = get_or-drop next w x (extras n ms xs) (rw later at e) in
      let rest = project_of_Agrees n (suc next) total ms w xs (omega arith) new.1 a.1 after in
      rw (new.0, here, rest)

  pub Agrees-project :
      (n next total : ℕ) (ms : List ℕ) (w : List A)
      → n ≤ next
      → Columns n next ms total
      → length w ≡ total
      → Agrees n w ms (project w ms) × (drop next w ≡ extras n ms (project w ms))
  Agrees-project n next total [] w le c l = (tt, drop-all next w (omega arith))
  Agrees-project n next total (m ∷ ms) w le (inl old) l =
      let (rest, after) = Agrees-project n next total ms w le old.1 l in
      ((λ lt. refl, rest), rw (lt→ltb m n old.0) after)
  Agrees-project n next total (m ∷ ms) w le (inr new) l =
      let (rest, after) = Agrees-project n (suc next) total ms w (omega arith) new.1 l in
      let later : ltb m n ≡ false = ground (arith, new.0) in
      let within = Columns-le n (suc next) total ms new.1 in
      ((λ lt. refl, rest), rw later (rw new.0 (rw (drop-get_or next w (omega arith), after))))

  pub push_new-extras :
      (n : ℕ) (ms : List ℕ) (xs : List A)
      → length ms ≡ length xs
      → push_new n ms xs ≡ done (extras n ms xs)
  unfolding push_new
  push_new-extras n [] xs h = refl
  push_new-extras n (m ∷ ms) [] h = absurd (omega arith)
  push_new-extras n (m ∷ ms) (x ∷ xs) h = rw (push_new-extras n ms xs (omega arith))

  pub length-extras :
      (n next total : ℕ) (ms : List ℕ) (xs : List A)
      → n ≤ next
      → Columns n next ms total
      → length ms ≡ length xs
      → next + length (extras n ms xs) ≡ total
  length-extras n next total [] xs le c h = omega arith
  length-extras n next total (m ∷ ms) [] le c h = absurd (omega arith)
  length-extras n next total (m ∷ ms) (x ∷ xs) le (inl old) h =
      rw (lt→ltb m n old.0) (length-extras n next total ms xs le old.1 (omega arith))
  length-extras n next total (m ∷ ms) (x ∷ xs) le (inr new) h =
      let later : ltb m n ≡ false = ground (arith, new.0) in
      rw later
        (omega (arith, length-extras n (suc next) total ms xs (omega arith) new.1 (omega arith)))

pub Agrees-length :
    {A : Type 0} (d : A) (n : ℕ) (w : List A) (ms : List ℕ) (xs : List A)
    → Agrees d n w ms xs
    → length ms ≡ length xs
Agrees-length d n w [] [] a = refl
Agrees-length d n w [] (x ∷ xs) a = absurd a
Agrees-length d n w (m ∷ ms) [] a = absurd a
Agrees-length d n w (m ∷ ms) (x ∷ xs) a = ap suc (Agrees-length d n w ms xs a.1)

pub get_or-append :
    {A : Type 0} (d : A) (w e : List A) (m : ℕ) → m < length w → get_or (w ++ e) m d ≡ get_or w m d
get_or-append d [] e m h = absurd (omega arith)
get_or-append d (x ∷ w) e zero h = refl
get_or-append d (x ∷ w) e (suc m) h = get_or-append d w e m (omega arith)

pub Agrees-append :
    {A : Type 0} (d : A) (w e : List A) (ms : List ℕ) (xs : List A)
    → Agrees d (length w) w ms xs
    → Agrees d (length w) (w ++ e) ms xs
Agrees-append d w e [] [] a = tt
Agrees-append d w e [] (x ∷ xs) a = absurd a
Agrees-append d w e (m ∷ ms) [] a = absurd a
Agrees-append d w e (m ∷ ms) (x ∷ xs) a =
    (λ lt. get_or-append d w e m lt ∙ a.0 lt, Agrees-append d w e ms xs a.1)

pub drop-append : {A : Type 0} (w e : List A) → drop (length w) (w ++ e) ≡ e
drop-append [] e = refl
drop-append (x ∷ w) e = drop-append w e
