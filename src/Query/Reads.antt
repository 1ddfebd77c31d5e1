-- ===== src/Query/Reads.antt =====
-- Triple/Triple.cpp: the parts of a line that `find`, `substr` and `at` read.
use t_rdf.Base.{
  ℕ, zero, suc, ◌+◌, ◌-◌, ◌<◌, ◌≤◌, ◌≡◌, refl, ap, ◌∙◌, false, [], ◌∷◌, ◌++◌, ◌==◌, length,
  get_elem?, take, drop, some, arith, take-append,
}
use t_rdf.Base.Run.{done}
use t_rdf.Signature.Hash.{Text}
use t_rdf.Query.Line.{tab, npos, size_t, through_int, sub_size, find_tab, substr, char_at}

abbrev pub HasNoTab : Text → Type 0
HasNoTab [] = Unit {0}
HasNoTab (c ∷ rest) = ((c == tab) ≡ false) × HasNoTab rest

pub find_tab-append :
    (s rest : Text) (at : ℕ) → HasNoTab s → find_tab (s ++ (tab ∷ rest)) at ≡ at + length s
unfolding find_tab
find_tab-append [] rest at h = omega arith
find_tab-append (c ∷ s) rest at h = rw h.0 (find_tab-append s rest (suc at) h.1 ∙ (omega arith))

pub find_tab-none : (s : Text) (at : ℕ) → HasNoTab s → find_tab s at ≡ npos
unfolding find_tab
find_tab-none [] at h = refl
find_tab-none (c ∷ s) at h = rw h.0 (find_tab-none s (suc at) h.1)

pub drop-add : (s rest : Text) (n : ℕ) → drop (length s + n) (s ++ rest) ≡ drop n rest
drop-add [] rest n = ap (λ k. drop k rest) (omega arith)
drop-add (d ∷ s) rest n = ap (λ k. drop k ((d ∷ s) ++ rest)) (sum (length s) n) ∙ drop-add s rest n
  where
    sum : (k n : ℕ) → suc k + n ≡ suc (k + n)
    sum k n = omega arith

pub drop-append : (s : Text) (c : ℕ) (rest : Text) → drop (suc (length s)) (s ++ (c ∷ rest)) ≡ rest
drop-append [] c rest = refl
drop-append (d ∷ s) c rest = drop-append s c rest

pub take-first : (rest s : Text) (n : ℕ) (t : Text) → t ≡ s ++ rest → n ≡ length s → take n t ≡ s
take-first rest s n t e k = rw (e, k) (take-append s rest)

pub take-long : (s : Text) (n : ℕ) → length s ≤ n → take n s ≡ s
take-long [] n h = take-none n
  where
    take-none : (n : ℕ) → take {A = ℕ} n [] ≡ []
    take-none zero = refl
    take-none (suc n) = refl
take-long (c ∷ s) zero h = absurd (omega arith)
take-long (c ∷ s) (suc n) h = ap (λ r. c ∷ r) (take-long s n (omega arith))

pub get_elem?-end : (s : Text) (c : ℕ) → get_elem? (s ++ (c ∷ [])) (length s) ≡ some c
get_elem?-end [] c = refl
get_elem?-end (d ∷ s) c = get_elem?-end s c

pub through_int-small : (n : ℕ) → n < 0x8000_0000 → through_int n ≡ n
unfolding through_int
through_int-small n h = ground (arith, h)

pub size_t-small : (n : ℕ) → n < 0x8000_0000 → size_t n ≡ n
unfolding size_t
size_t-small n h = omega (arith, h)

pub sub_size-small : (a b : ℕ) → a < 0x8000_0000 → b ≤ a → sub_size a b ≡ a - b
unfolding sub_size size_t
sub_size-small a b h k = omega (arith, h, k)

pub substr-within :
    (line : Text) (position count n : ℕ)
    → count ≡ n
    → n < 0x8000_0000
    → position ≤ length line
    → substr line position (through_int count) ≡ done (take n (drop position line))
unfolding substr
substr-within line position count n e h k = rw (e, through_int-small n h) (ground (arith, k))

pub char_at-end : (s : Text) (c : ℕ) (n : ℕ) → n ≡ length s → char_at (s ++ (c ∷ [])) n ≡ done c
unfolding char_at
char_at-end s c n e = rw (e, get_elem?-end s c, char_at) refl

pub substr-whole : (line : Text) (n : ℕ) → length line ≤ n → substr line 0 n ≡ done line
unfolding substr
substr-whole line n h = rw (take-long line n h) (ground arith)

pub substr-front : (s : Text) (c n : ℕ) → n ≡ length s → substr (s ++ (c ∷ [])) 0 n ≡ done s
unfolding substr
substr-front s c n e = rw (take-first (c ∷ []) s n (s ++ (c ∷ [])) refl e) (ground arith)
