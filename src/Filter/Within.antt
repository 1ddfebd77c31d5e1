-- ===== src/Filter/Within.antt =====
-- The encodings of a variable's edges in Query/BasicQuery.cpp, against a bit set that has their
-- bits.
use t_rdf.Base.{ℕ, ◌<◌, ◌≡◌, refl, Bool, true, false, [], ◌∷◌, arith, if◌then◌else◌}
use t_rdf.Base.Int.{ℤ, pos, negsuc, eq_ℤ}
use t_rdf.Signature.BitSet.{
  BitSet, empty, Encoded, ok, overflow, out_of_range, outside_array, ◌>>=◌,
}
use t_rdf.Signature.Hash.{Text}
use t_rdf.Signature.Encode.{encode_predicate2entity, encode_str2entity}
use t_rdf.Signature.Bounds.{
  Encodes, Encodes-mono, pre_limit, predicate_bits, text_bits, Adds, encode_predicate2entity-Adds,
  encode_str2entity-Adds,
}
use t_rdf.Query.Basic.{no_id, is_str, add_to_sig}

pub Encodes-bind {ℓ κ} :
    {A : Type ℓ} {B : Type κ} (P : A → Type 0) (Q : B → Type 0) (r : Encoded A) (f : A → Encoded B)
    → Encodes r P
    → ((a : A) → P a → Encodes (f a) Q)
    → Encodes (r >>= f) Q
Encodes-bind P Q (ok a) f h k = k a h
Encodes-bind P Q overflow f h k = h
Encodes-bind P Q out_of_range f h k = h
Encodes-bind P Q outside_array f h k = h

-- Every bit of the first set is a bit of the second.
abbrev pub Within : BitSet → BitSet → Type 0
Within a b = (i : ℕ) → a i ≡ true → b i ≡ true

-- An id that the predicate dictionary gives: -1 for none, or one below the limit.
abbrev pub IsPreId : ℤ → Type 0
IsPreId (pos n) = n < pre_limit
IsPreId (negsuc m) = m ≡ 0

abbrev pub pre_bits : ℤ → (type : ℕ) → BitSet
pre_bits (pos n) type = predicate_bits n type
pre_bits (negsuc m) type = empty

abbrev pub IsNonempty : Text → Type 0
IsNonempty [] = ⊥
IsNonempty (c ∷ str) = Unit {0}

pub Within-Adds : (mask a b d : BitSet) → Adds mask a b → Within mask d → Within a d → Within b d
Within-Adds mask a b d adds h k i on = ground (arith, adds i, h i, k i)

pub Adds-Within : (mask a b : BitSet) → Adds mask a b → Within mask b × Within a b
Adds-Within mask a b adds = (λ i on. ground (arith, adds i), λ i on. ground (arith, adds i))

-- Variable signatures stay within `d`, if the new bits do.
module _ (d : BitSet) where
  abbrev pub Bounded : Encoded BitSet → Type 0
  Bounded r = Encodes r (λ s. Within s d)

  nei_step :
      (nei_id : ℤ) (nei : Text) (bs : BitSet) (b : Bool)
      → (eq_ℤ nei_id no_id ≡ true → Within (text_bits nei) d)
      → (b ≡ true → eq_ℤ nei_id no_id ≡ true)
      → Within bs d
      → Bounded (if b then encode_str2entity nei bs else ok bs)
  nei_step nei_id nei bs true h e k =
      Encodes-mono (encode_str2entity nei bs) (encode_str2entity-Adds bs nei)
        (λ after adds. Within-Adds (text_bits nei) bs after d adds (h (e refl)) k)
  nei_step nei_id nei bs false h e k = k

  pre_step :
      (type : ℕ) (pre_id : ℤ) (bs : BitSet)
      → IsPreId pre_id
      → Within (pre_bits pre_id type) d
      → Within bs d
      → Bounded (if eq_ℤ pre_id no_id then ok bs else encode_predicate2entity pre_id bs type)
  pre_step type (pos n) bs lt h k =
      Encodes-mono (encode_predicate2entity (pos n) bs type)
        (encode_predicate2entity-Adds bs n type lt)
        (λ after adds. Within-Adds (predicate_bits n type) bs after d adds h k)
  pre_step type (negsuc m) bs e h k = rw e k

  is_str-ok :
      (nei_id : ℤ) (nei : Text)
      → IsNonempty nei
      → Encodes (is_str nei_id nei) (λ b. b ≡ true → eq_ℤ nei_id no_id ≡ true)
  unfolding is_str
  is_str-ok nei_id [] n = absurd n
  is_str-ok nei_id (c ∷ nei) n = λ e. ground arith

  pub add_to_sig-Within :
      (type : ℕ) (pre_id nei_id : ℤ) (nei : Text) (bs : BitSet)
      → IsPreId pre_id
      → IsNonempty nei
      → Within (pre_bits pre_id type) d
      → (eq_ℤ nei_id no_id ≡ true → Within (text_bits nei) d)
      → Within bs d
      → Bounded (add_to_sig type pre_id nei_id nei bs)
  unfolding add_to_sig
  add_to_sig-Within type pre_id nei_id nei bs p n hp hn k =
      let In : BitSet → Type 0 = λ s. Within s d in
      Encodes-bind (λ b. b ≡ true → eq_ℤ nei_id no_id ≡ true) In (is_str nei_id nei) _
        (is_str-ok nei_id nei n)
        (λ b e.
          Encodes-bind In In (if b then encode_str2entity nei bs else ok bs) _
            (nei_step nei_id nei bs b hn e k) (λ bs1 k1. pre_step type pre_id bs1 p hp k1))
