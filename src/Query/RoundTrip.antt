-- ===== src/Query/RoundTrip.antt =====
-- Triple/Triple.cpp: what a printed triple is read as.
use t_rdf.Base.{
  ℕ, suc, ◌+◌, ◌-◌, ◌<◌, ◌≡◌, refl, ap, ◌∙◌, true, [], ◌∷◌, ◌++◌, ◌==◌, if◌then◌else◌, length, take,
  drop, arith, Bool-cases, inl, inr, length-append, append_assoc,
}
use t_rdf.Base.Run.{done}
use t_rdf.Signature.Hash.{Text}
use t_rdf.Query.Line.{
  tab, dot, npos, size_t, through_int, sub_size, find, char_at, triple, to_string,
}
use t_rdf.Query.Reads.{
  HasNoTab, find_tab-append, find_tab-none, drop-add, drop-append, take-first, through_int-small,
  size_t-small, sub_size-small, substr-within, char_at-end, substr-whole, substr-front,
}

-- A line of three parts, and the reads that find them.
triple-parts :
    (line s p o : Text) (first second last_c : ℕ)
    → find line 0 ≡ first
    → find line (suc first) ≡ second
    → first < second
    → suc second < length line
    → length line < 0x8000_0000
    → char_at line (length line - 1) ≡ done last_c
    → (last_c == dot) ≡ true
    → take first line ≡ s
    → take (second - suc first) (drop (suc first) line) ≡ p
    → take (length line - 1 - suc second) (drop (suc second) line) ≡ o
    → triple line ≡ done (record { subject = s; predicate = p; object = o })
unfolding triple
triple-parts line s p o first second last_c hf hs lt lt2 small hc hd h1 h2 h3 =
    let one : size_t (first + 1) ≡ suc first =
      size_t-small (first + 1) (omega arith) ∙ (omega arith) in
    let two : size_t (second + 1) ≡ suc second =
      size_t-small (second + 1) (omega arith) ∙ (omega arith) in
    let end : sub_size (length line) 1 ≡ length line - 1 =
      sub_size-small (length line) 1 small (omega arith) in
    let a = substr-within line 0 first first refl (omega arith) (omega arith) in
    let b =
      substr-within line (suc first) (sub_size second (suc first)) (second - suc first)
        (sub_size-small second (suc first) (omega arith) (omega arith)) (omega arith)
        (omega arith) in
    let d =
      substr-within line (suc second) (sub_size (length line - 1) (suc second))
        (length line - 1 - suc second)
        (sub_size-small (length line - 1) (suc second) (omega arith) (omega arith)) (omega arith)
        (omega arith) in
    rw (hf, one, hs, a, h1, b, h2, end, hc, hd, two, d, h3) refl

module _ (s p o : Text) where
  abbrev line : Text
  line = to_string (record { subject = s; predicate = p; object = o })

  length-line : length line ≡ length s + length p + length o + 3
  unfolding to_string
  length-line = rw (length-append s _, length-append p _, length-append o (dot ∷ [])) (omega arith)

  drop-first : drop (suc (length s)) line ≡ p ++ (tab ∷ o ++ (dot ∷ []))
  unfolding to_string
  drop-first = drop-append s tab _

  drop-second : drop (suc (suc (length s + length p))) line ≡ o ++ (dot ∷ [])
  unfolding to_string
  drop-second =
      ap (λ k. drop k line) sum
      ∙ drop-add s (tab ∷ p ++ (tab ∷ o ++ (dot ∷ []))) (suc (suc (length p)))
      ∙ drop-append p tab (o ++ (dot ∷ []))
    where
      sum : suc (suc (length s + length p)) ≡ length s + suc (suc (length p))
      sum = omega arith

  find-first : HasNoTab s → find line 0 ≡ length s
  unfolding to_string find
  find-first h = find_tab-append s _ 0 h ∙ (omega arith)

  find-second : HasNoTab p → find line (suc (length s)) ≡ suc (length s + length p)
  unfolding find
  find-second h = rw drop-first (find_tab-append p _ (suc (length s)) h ∙ (omega arith))

  last-line : char_at line (length line - 1) ≡ done dot
  unfolding to_string
  last-line =
      let e : line ≡ (s ++ (tab ∷ p ++ (tab ∷ o))) ++ (dot ∷ []) =
        rw (append_assoc s _ _, append_assoc p _ _) refl in
      let front = s ++ (tab ∷ p ++ (tab ∷ o)) in
      ap (λ t. char_at t (length line - 1)) e
      ∙ char_at-end front dot (length line - 1) (
          rw length-line
            (rw (length-append s (tab ∷ p ++ (tab ∷ o)), length-append p (tab ∷ o)) (omega arith)))

-- A printed triple is read as itself, if its subject and its predicate hold no tab, and the line is
-- shorter than 2 ^ 31.
pub triple-to_string :
    (s p o : Text)
    → HasNoTab s
    → HasNoTab p
    → length s + length p + length o + 3 < 0x8000_0000
    → triple (to_string (record { subject = s; predicate = p; object = o }))
      ≡ done (record { subject = s; predicate = p; object = o })
unfolding to_string
triple-to_string s p o hs hp small =
    let n = length-line s p o in
    triple-parts (line s p o) s p o (length s) (suc (length s + length p)) dot (find-first s p o hs)
      (find-second s p o hp) (omega arith) (omega (arith, n)) (omega (arith, n)) (last-line s p o)
      refl (take-first _ s (length s) (line s p o) refl refl)
      (take-first _ p (suc (length s + length p) - suc (length s))
        (drop (suc (length s)) (line s p o)) (drop-first s p o) (omega arith))
      (take-first (dot ∷ []) o (length (line s p o) - 1 - suc (suc (length s + length p)))
        (drop (suc (suc (length s + length p))) (line s p o)) (drop-second s p o)
        (omega (arith, n)))

find-none : (s : Text) → HasNoTab s → find s 0 ≡ npos
unfolding find
find-none s h = find_tab-none s 0 h

size_t-npos : size_t (npos + 1) ≡ 0
unfolding size_t
size_t-npos = refl

through_int-npos : through_int npos ≡ npos
unfolding through_int
through_int-npos = refl

sub_size-npos : sub_size npos 0 ≡ npos
unfolding sub_size size_t
sub_size-npos = refl

-- A line that is not empty, has no tab and is shorter than 2 ^ 31 is not refused: it is the
-- subject, the predicate and, without a dot at its end, the object of what is read.
pub triple-no_tab :
    (s : Text) (c : ℕ)
    → HasNoTab (s ++ (c ∷ []))
    → length s < 0x7fff_ffff
    → triple (s ++ (c ∷ []))
      ≡ done (record {
        subject = s ++ (c ∷ []);
        predicate = s ++ (c ∷ []);
        object = if c == dot then s else s ++ (c ∷ []);
      })
unfolding triple
triple-no_tab s c h small =
    let line = s ++ (c ∷ []) in
    let n : length line ≡ length s + 1 = length-append s (c ∷ []) in
    let found = find-none line h in
    let zero : size_t (npos + 1) ≡ 0 = size_t-npos in
    let whole = substr-whole line npos (omega (arith, n, small)) in
    let end : sub_size (length line) 1 ≡ length s =
      sub_size-small (length line) 1 (omega (arith, n)) (omega (arith, n)) ∙ (omega (arith, n)) in
    rw
      (
        found,
        zero,
        found,
        zero,
        through_int-npos,
        sub_size-npos,
        through_int-npos,
        whole,
        end,
        char_at-end s c (length s) refl,
      )
      (elim (Bool-cases (c == dot)) [
        | inl e ↦
            rw (e, cut (length s) (omega (arith, small)), substr-front s c (length s) refl) refl
        | inr e ↦
            rw
              (
                e,
                cut (length line) (omega (arith, n, small)),
                substr-whole line (length line) (omega arith),
              )
              refl
      ])
  where
    cut : (k : ℕ) → k < 0x8000_0000 → through_int (sub_size k 0) ≡ k
    cut k small =
        ap through_int (sub_size-small k 0 small (omega arith) ∙ (omega arith))
        ∙ through_int-small k small
