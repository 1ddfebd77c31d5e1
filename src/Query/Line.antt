-- ===== src/Query/Line.antt =====
-- Triple/Triple.cpp: a triple read from a line, and printed.
use t_rdf.Base.{
  ℕ, suc, ◌+◌, ◌-◌, ◌%◌, [], ◌∷◌, ◌++◌, ltb, ◌==◌, if◌then◌else◌, length, get_elem?, take, drop,
  none, some,
}
use t_rdf.Base.Run.{Run, done, out_of_bounds, ◌>>=◌}
use t_rdf.Signature.Hash.{Text}
use t_rdf.Query.Basic.{Triple}

abbrev pub tab : ℕ
tab = 9

abbrev pub dot : ℕ
dot = b'.'

-- `string::npos`, the greatest `size_t`.
abbrev pub npos : ℕ
npos = 0xffff_ffff_ffff_ffff

unfoldable pub size_t : ℕ → ℕ
size_t n = n % 0x1_0000_0000_0000_0000

-- A `size_t` that is kept in an `int`, and then passed where a `size_t` is wanted.
unfoldable pub through_int : ℕ → ℕ
through_int n =
    let w = n % 0x1_0000_0000 in if ltb w 0x8000_0000 then w else w + 0xffff_ffff_0000_0000

-- `a - b` on `size_t`.
unfoldable pub sub_size : ℕ → ℕ → ℕ
unfolding size_t
sub_size a b = size_t ((a + 0x1_0000_0000_0000_0000) - b)

unfoldable pub find_tab : Text → (at : ℕ) → ℕ
find_tab [] at = npos
find_tab (c ∷ rest) at = if c == tab then at else find_tab rest (suc at)

-- `line.find('\t', position)`
unfoldable pub find : Text → ℕ → ℕ
unfolding find_tab
find line position = find_tab (drop position line) position

-- Both throw where the position is out of range.
unfoldable pub substr : Text → (position count : ℕ) → Run Text
substr line position count =
    if ltb (length line) position then out_of_bounds else done (take count (drop position line))

unfoldable pub char_at : Text → ℕ → Run ℕ
char_at line i = elim (get_elem? line i) [ none ↦ out_of_bounds | some c ↦ done c ]

-- `Triple::Triple(string _line)`
unfoldable pub triple : Text → Run Triple
unfolding find size_t through_int sub_size substr char_at
triple line = do
  let first_tab = find line 0
  let second_tab = find line (size_t (first_tab + 1))
  let pre_begin = size_t (first_tab + 1)
  let obj_begin = size_t (second_tab + 1)
  subject ← substr line 0 (through_int first_tab)
  predicate ← substr line pre_begin (through_int (sub_size second_tab pre_begin))
  last_c ← char_at line (sub_size (length line) 1)
  let obj_end = if last_c == dot then sub_size (length line) 1 else length line
  object ← substr line obj_begin (through_int (sub_size obj_end obj_begin))
  done (record { subject = subject; predicate = predicate; object = object })

-- `Triple::toString`
unfoldable pub to_string : Triple → Text
to_string t = t.subject ++ (tab ∷ t.predicate ++ (tab ∷ t.object ++ (dot ∷ [])))
