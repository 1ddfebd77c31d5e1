-- ===== src/Signature/Bounds.antt =====
-- Where the encodings of Signature/Signature.cpp set bits.
use t_rdf.Base.{
  ℕ, ◌+◌, ◌*◌, ◌%◌, ◌≤◌, ◌<◌, ◌≡◌, sym, false, ◌||◌, inl, inr, arith, lt→ltb, ◌==◌, if◌then◌else◌,
  Bool-cases,
}
use mathlib.Core.Bool.{or_assoc}
use t_rdf.Base.Int.{pos}
use t_rdf.Signature.BitSet.{
  BitSet, str_sig_length, Encoded, ok, overflow, out_of_range, outside_array, set_bit,
}
use t_rdf.Signature.Hash.{Text, simple_hash, rs_hash, js_hash, pjw_hash}
use t_rdf.Signature.Encode.{
  edge_out, seed_position, seed_preid, encode_predicate2entity, encode_predicate2edge, is_variable,
  set_hashes, encode_str2entity,
}

-- The encoding ends with a bit set that satisfies `P`.
abbrev pub Encodes {ℓ} : {A : Type ℓ} → Encoded A → (A → Type 0) → Type 0
Encodes (ok a) P = P a
Encodes overflow P = ⊥
Encodes out_of_range P = ⊥
Encodes outside_array P = ⊥

-- Predicate ids below this are encoded without overflow.
abbrev pub pre_limit : ℕ
pre_limit = 428_000

abbrev seed_of : (n type : ℕ) → ℕ
seed_of n type = if type == edge_out then n + 101 else n

-- The two bits of a predicate, and the four of a text.
abbrev pub predicate_bits : (n type : ℕ) → BitSet
predicate_bits n type i =
    (seed_of n type * 5011 % 49993 % 97 + 149 == i)
    || (seed_of n type * 5003 % 49957 % 97 + 149 == i)

abbrev text_hashes : Text → BitSet
text_hashes str i =
    (pjw_hash str % 149 == i)
    || ((js_hash str % 149 == i) || ((rs_hash str % 149 == i) || (simple_hash str % 149 == i)))

abbrev pub text_bits : Text → BitSet
text_bits str i = if is_variable str then false else text_hashes str i

-- The bits of a mask are added, and no bit is cleared.
abbrev pub Adds : (mask bs after : BitSet) → Type 0
Adds mask bs after = (i : ℕ) → after i ≡ (mask i || bs i)

pub Encodes-mono {ℓ} :
    {A : Type ℓ} {P Q : A → Type 0} (r : Encoded A)
    → Encodes r P
    → ((a : A) → P a → Q a)
    → Encodes r Q
Encodes-mono (ok a) h f = f a h
Encodes-mono overflow h f = h
Encodes-mono out_of_range h f = h
Encodes-mono outside_array h f = h

predicate_bits_below : (n type i : ℕ) → i < 149 → predicate_bits n type i ≡ false
predicate_bits_below n type i h = ground arith

text_bits_above : (str : Text) (i : ℕ) → 149 ≤ i → text_bits str i ≡ false
text_bits_above str i h = ground arith

set_bit_lem :
    (size p : ℕ) (b : BitSet) → p < size → set_bit size b (pos p) ≡ ok (λ i. (p == i) || b i)
unfolding set_bit
set_bit_lem size p b h = rw (lt→ltb p size h)

seed_position-eq :
    (s p q : ℕ) → s * p < 0x8000_0000 → seed_position (pos s) p q ≡ ok (pos (s * p % q % 97))
unfolding seed_position
seed_position-eq s p q h = rw (lt→ltb (s * p) 0x8000_0000 h)

seed_preid-eq : (n type : ℕ) → n < pre_limit → seed_preid (pos n) type ≡ ok (pos (seed_of n type))
unfolding seed_preid
seed_preid-eq n type h = ground arith

seed_of-lt : (n type : ℕ) → n < pre_limit → seed_of n type < 428_101
seed_of-lt n type h = ground arith

module _ (bs : BitSet) where
  -- The bits of a predicate are added to the signature.
  pub encode_predicate2entity-eq :
      (n type : ℕ)
      → n < pre_limit
      → encode_predicate2entity (pos n) bs type
        ≡ ok (λ i.
          (seed_of n type * 5011 % 49993 % 97 + 149 == i)
          || ((seed_of n type * 5003 % 49957 % 97 + 149 == i) || bs i))
  unfolding encode_predicate2entity
  encode_predicate2entity-eq n type h =
      let s = seed_of n type in
      let lt = seed_of-lt n type h in
      let p = s * 5003 % 49957 % 97 + 149 in
      let q = s * 5011 % 49993 % 97 + 149 in
      rw (
        seed_preid-eq n type h,
        seed_position-eq s 5003 49957 (omega arith),
        set_bit_lem 246 p bs (omega arith),
        seed_position-eq s 5011 49993 (omega arith),
        set_bit_lem 246 q (λ i. (p == i) || bs i) (omega arith),
      )

  pub encode_predicate2edge-eq :
      (n : ℕ)
      → n < pre_limit
      → encode_predicate2edge (pos n) bs
        ≡ ok (λ i. (n * 5011 % 49993 % 97 == i) || ((n * 5003 % 49957 % 97 == i) || bs i))
  unfolding encode_predicate2edge
  encode_predicate2edge-eq n h =
      let p = n * 5003 % 49957 % 97 in
      let q = n * 5011 % 49993 % 97 in
      rw (
        seed_position-eq n 5003 49957 (omega arith),
        set_bit_lem 97 p bs (omega arith),
        seed_position-eq n 5011 49993 (omega arith),
        set_bit_lem 97 q (λ i. (p == i) || bs i) (omega arith),
      )

  -- The bits of a text are added to the signature.
  pub set_hashes-eq :
      (str : Text)
      → set_hashes str bs
        ≡ ok (λ i.
          (pjw_hash str % 149 == i)
          || ((js_hash str % 149 == i)
              || ((rs_hash str % 149 == i) || ((simple_hash str % 149 == i) || bs i))))
  unfolding set_hashes
  set_hashes-eq str =
      let a : BitSet = λ i. (simple_hash str % 149 == i) || bs i in
      let b : BitSet = λ i. (rs_hash str % 149 == i) || a i in
      let c : BitSet = λ i. (js_hash str % 149 == i) || b i in
      rw (
        set_bit_lem 246 (simple_hash str % 149) bs (omega arith),
        set_bit_lem 246 (rs_hash str % 149) a (omega arith),
        set_bit_lem 246 (js_hash str % 149) b (omega arith),
        set_bit_lem 246 (pjw_hash str % 149) c (omega arith),
      )

  pub encode_predicate2entity-Adds :
      (n type : ℕ)
      → n < pre_limit
      → Encodes (encode_predicate2entity (pos n) bs type) (Adds (predicate_bits n type) bs)
  encode_predicate2entity-Adds n type h =
      rw (encode_predicate2entity-eq n type h) (λ i. sym (or_assoc _ _ (bs i)))

  pub encode_str2entity-Adds :
      (str : Text) → Encodes (encode_str2entity str bs) (Adds (text_bits str) bs)
  unfolding encode_str2entity
  encode_str2entity-Adds str = elim (Bool-cases (is_variable str)) [
    | inl variable ↦ rw variable (λ i. rw variable)
    | inr constant ↦ rw (constant, set_hashes-eq str) (λ i. rw constant (ground arith))
  ]

-- Signatures keep texts and predicates apart: up to the limit on predicate ids an encoding never
-- overflows or leaves the signature; a text changes only bits below `STR_SIG_LENGTH`, a
-- predicate only bits from there on.
pub encode_regions :
    (n type : ℕ) (str : Text) (bs : BitSet)
    → n < pre_limit
    → Encodes
        (encode_predicate2entity (pos n) bs type)
        (λ after. (i : ℕ) → i < str_sig_length → after i ≡ bs i)
      × Encodes (encode_str2entity str bs) (λ after. (i : ℕ) → str_sig_length ≤ i → after i ≡ bs i)
encode_regions n type str bs h = (
  Encodes-mono (encode_predicate2entity (pos n) bs type) (encode_predicate2entity-Adds bs n type h)
      (λ after adds i lt. rw (adds i, predicate_bits_below n type i lt)),
  Encodes-mono (encode_str2entity str bs) (encode_str2entity-Adds bs str)
      (λ after adds i le. rw (adds i, text_bits_above str i le)),
)
