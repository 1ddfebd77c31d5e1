-- ===== src/Filter/Data.antt =====
-- The signature of an entity (Database/Database.cpp), and the edges that its triples match.
use t_rdf.Base.{ℕ, ◌<◌, ◌≡◌, refl, ◌⊎◌, true, inl, inr, List, [], ◌∷◌}
use t_rdf.Base.Int.{ℤ, pos, negsuc, eq_ℤ}
use t_rdf.Signature.BitSet.{BitSet, Encoded, ok, ◌>>=◌}
use t_rdf.Signature.Hash.{Text}
use t_rdf.Signature.Encode.{edge_in, edge_out, encode_predicate2entity, encode_str2entity}
use t_rdf.Signature.Bounds.{
  Encodes, Encodes-mono, pre_limit, predicate_bits, text_bits, encode_predicate2entity-Adds,
  encode_str2entity-Adds,
}
use t_rdf.Query.Basic.{Triple, no_id}
use t_rdf.Filter.Entity.{
  string_mode, Place, as_subject, as_object, encode_triple2sub_entity_bit_set,
  encode_triple2obj_entity_bit_set, encode_entity,
}
use t_rdf.Filter.Within.{Encodes-bind, Within, pre_bits, Adds-Within}

-- The id of a predicate of the data.
abbrev pub IsKnown : ℤ → Type 0
IsKnown (pos n) = n < pre_limit
IsKnown (negsuc m) = ⊥

abbrev pub type_of : Place → ℕ
type_of as_subject = edge_out
type_of as_object = edge_in

-- The other end of a triple.
abbrev pub other : Place → Triple → Text
other as_subject t = t.object
other as_object t = t.subject

Within-trans : (a b c : BitSet) → Within a b → Within b c → Within a c
Within-trans a b c h k i on = k i (h i on)

module _ (idp : Text → ℤ) where
  -- The bits of the predicate and of the other end are in the signature.
  abbrev pub Contained : (d : BitSet) → Place × Triple → Type 0
  Contained d (p, t) =
      Within (pre_bits (idp t.predicate) (type_of p)) d × Within (text_bits (other p t)) d

  abbrev pub AllContained : (d : BitSet) → List (Place × Triple) → Type 0
  AllContained d [] = Unit {0}
  AllContained d (e ∷ es) = Contained d e × AllContained d es

  abbrev pub AllKnown : List (Place × Triple) → Type 0
  AllKnown [] = Unit {0}
  AllKnown ((p, t) ∷ es) = IsKnown (idp t.predicate) × AllKnown es

  encode_one : (p : Place) → BitSet → Triple → Encoded BitSet
  encode_one p bs t = encode_predicate2entity (idp t.predicate) bs (type_of p) >>= λ bs1.
      encode_str2entity (other p t) bs1

  encode_pre :
      (type : ℕ) (id : ℤ) (bs : BitSet)
      → IsKnown id
      → Encodes
          (encode_predicate2entity id bs type)
          (λ a. Within (pre_bits id type) a × Within bs a)
  encode_pre type (pos n) bs h =
      Encodes-mono (encode_predicate2entity (pos n) bs type)
        (encode_predicate2entity-Adds bs n type h)
        (λ a adds. Adds-Within (predicate_bits n type) bs a adds)
  encode_pre type (negsuc m) bs h = absurd h

  encode_one-Contained :
      (p : Place) (bs : BitSet) (t : Triple)
      → IsKnown (idp t.predicate)
      → Encodes (encode_one p bs t) (λ a. Contained a (p, t) × Within bs a)
  unfolding encode_one
  encode_one-Contained p bs t known =
      let bits = pre_bits (idp t.predicate) (type_of p) in
      Encodes-bind (λ a. Within bits a × Within bs a) (λ a. Contained a (p, t) × Within bs a)
        (encode_predicate2entity (idp t.predicate) bs (type_of p)) _
        (encode_pre (type_of p) (idp t.predicate) bs known)
        (λ b h.
          Encodes-mono (encode_str2entity (other p t) b) (encode_str2entity-Adds b (other p t))
            (λ a adds.
              let (new, old) = Adds-Within (text_bits (other p t)) b a adds in
              ((Within-trans bits b a h.0 old, new), Within-trans bs b a h.1 old)))

  encode_cons :
      (p : Place) (t : Triple) (es : List (Place × Triple)) (bs : BitSet)
      → encode_entity string_mode idp bs ((p, t) ∷ es)
        ≡ (encode_one p bs t >>= λ b. encode_entity string_mode idp b es)
  unfolding encode_entity encode_one encode_triple2sub_entity_bit_set
      encode_triple2obj_entity_bit_set
  encode_cons as_subject t es bs = refl
  encode_cons as_object t es bs = refl

  encode_nil : (bs : BitSet) → encode_entity string_mode idp bs [] ≡ ok bs
  unfolding encode_entity
  encode_nil bs = refl

  -- A signature of the data has the bits of every triple that was encoded into it.
  pub encode_entity-AllContained :
      (es : List (Place × Triple)) (bs : BitSet)
      → AllKnown es
      → Encodes (encode_entity string_mode idp bs es) (λ d. AllContained d es × Within bs d)
  encode_entity-AllContained [] bs k = rw (encode_nil bs) (tt, λ i on. on)
  encode_entity-AllContained ((p, t) ∷ es) bs k =
      let bits = pre_bits (idp t.predicate) (type_of p) in
      let text = text_bits (other p t) in
      rw (encode_cons p t es bs) (
        Encodes-bind (λ b. Contained b (p, t) × Within bs b)
          (λ d. AllContained d ((p, t) ∷ es) × Within bs d) (encode_one p bs t) _
          (encode_one-Contained p bs t k.0)
          (λ b h.
            Encodes-mono (encode_entity string_mode idp b es) (encode_entity-AllContained es b k.1)
              (λ d rest. (
                ((Within-trans bits b d h.0.0 rest.1, Within-trans text b d h.0.1 rest.1), rest.0),
                Within-trans bs b d h.1 rest.1,
              ))))

  -- An edge of the variable, at the place that the variable has in it, is matched by a triple of
  -- the entity: at the same place, with the same predicate, unless that is unknown, and with
  -- the same text at the other end, unless a variable stands there.
  abbrev pub Matches : (p : Place) (pre_id nei_id : ℤ) (nei : Text) → Place × Triple → Type 0
  Matches p pre_id nei_id nei (q, t) =
      (type_of q ≡ type_of p)
      × ((pre_id ≡ no_id) ⊎ (pre_id ≡ idp t.predicate))
      × (eq_ℤ nei_id no_id ≡ true → nei ≡ other q t)

  abbrev pub Matched : (p : Place) (pre_id nei_id : ℤ) (nei : Text) → List (Place × Triple) → Type 0
  Matched p pre_id nei_id nei [] = ⊥
  Matched p pre_id nei_id nei (e ∷ es) =
      Matches p pre_id nei_id nei e ⊎ Matched p pre_id nei_id nei es

  -- The bits that the edge adds are in `d`.
  abbrev pub EdgeWithin : (d : BitSet) (p : Place) (pre_id nei_id : ℤ) (nei : Text) → Type 0
  EdgeWithin d p pre_id nei_id nei =
      Within (pre_bits pre_id (type_of p)) d × (eq_ℤ nei_id no_id ≡ true → Within (text_bits nei) d)

  Matches-EdgeWithin :
      (d : BitSet) (p : Place) (pre_id nei_id : ℤ) (nei : Text) (e : Place × Triple)
      → Matches p pre_id nei_id nei e
      → Contained d e
      → EdgeWithin d p pre_id nei_id nei
  Matches-EdgeWithin d p pre_id nei_id nei (q, t) m c = (
    elim m.1 [ inl unknown ↦ rw unknown (λ i on. cc) | inr same ↦ rw (same, ← m.0) c.0 ],
    λ constant. rw (m.2 constant) c.1,
  )

  pub Matched-EdgeWithin :
      (d : BitSet) (p : Place) (pre_id nei_id : ℤ) (nei : Text) (es : List (Place × Triple))
      → Matched p pre_id nei_id nei es
      → AllContained d es
      → EdgeWithin d p pre_id nei_id nei
  Matched-EdgeWithin d p pre_id nei_id nei [] m c = absurd m
  Matched-EdgeWithin d p pre_id nei_id nei (e ∷ es) (inl here) c =
      Matches-EdgeWithin d p pre_id nei_id nei e here c.0
  Matched-EdgeWithin d p pre_id nei_id nei (e ∷ es) (inr later) c =
      Matched-EdgeWithin d p pre_id nei_id nei es later c.1
