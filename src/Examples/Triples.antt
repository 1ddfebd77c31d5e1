-- ===== src/Examples/Triples.antt =====
-- A triple, printed and read.
use t_rdf.Base.{◌≡◌, refl, [], ◌∷◌, ◌++◌, arith}
use t_rdf.Base.Run.{done, out_of_bounds}
use t_rdf.Signature.Hash.{Text}
use t_rdf.Query.Line.{
  size_t, through_int, sub_size, find_tab, find, substr, char_at, triple, to_string,
}
use t_rdf.Query.RoundTrip.{triple-to_string, triple-no_tab}

abbrev s : Text
s = b'<' ∷ b's' ∷ b'>' ∷ []

abbrev o : Text
o = b'"' ∷ b'.' ∷ 9 ∷ b'"' ∷ []

read_run :
    triple (b's' ∷ 9 ∷ b'p' ∷ 9 ∷ b'o' ∷ [])
    ≡ done (record { subject = b's' ∷ []; predicate = b'p' ∷ []; object = b'o' ∷ [] })
unfolding triple find find_tab size_t through_int sub_size substr char_at
read_run = refl

-- With one tab, the object is the line.
one_tab_run :
    triple (b's' ∷ 9 ∷ b'p' ∷ [])
    ≡ done (record { subject = b's' ∷ []; predicate = b'p' ∷ []; object = b's' ∷ 9 ∷ b'p' ∷ [] })
unfolding triple find find_tab size_t through_int sub_size substr char_at
one_tab_run = refl

empty_run : triple [] ≡ out_of_bounds
unfolding triple find find_tab size_t through_int sub_size substr char_at
empty_run = refl

triple-to_string_example :
    triple (to_string (record { subject = s; predicate = s; object = o }))
    ≡ done (record { subject = s; predicate = s; object = o })
triple-to_string_example =
    triple-to_string s s o ((refl, (refl, (refl, tt)))) ((refl, (refl, (refl, tt)))) (omega arith)

triple-no_tab_example :
    triple (s ++ (b'.' ∷ []))
    ≡ done (record { subject = s ++ (b'.' ∷ []); predicate = s ++ (b'.' ∷ []); object = s })
triple-no_tab_example = triple-no_tab s b'.' ((refl, (refl, (refl, (refl, tt))))) (omega arith)
