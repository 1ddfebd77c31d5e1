-- ===== src/Signature/Encode.antt =====
-- The encodings of predicates and texts into signatures, from Signature/Signature.cpp.
use t_rdf.Base.{ℕ, zero, suc, ◌+◌, ◌*◌, ◌%◌, Bool, false, [], ◌∷◌, ltb, ◌==◌, if◌then◌else◌}
use t_rdf.Base.Int.{ℤ, pos, negsuc, sub_ℕ}
use t_rdf.Signature.BitSet.{
  BitSet, entity_sig_length, edge_sig_length, str_sig_length, Encoded, ok, overflow, ◌>>=◌, set_bit,
}
use t_rdf.Signature.Hash.{Text, simple_hash, rs_hash, js_hash, pjw_hash}

abbrev pub edge_in : ℕ
edge_in = b'i'

abbrev pub edge_out : ℕ
edge_out = b'o'

abbrev negate : ℕ → ℤ
negate zero = pos 0
negate (suc n) = negsuc n

-- A result outside the range of an `int` is an overflow.
abbrev int : ℤ → Encoded ℤ
int (pos n) = if ltb n 0x8000_0000 then ok (pos n) else overflow
int (negsuc n) = if ltb n 0x8000_0000 then ok (negsuc n) else overflow

abbrev plus : ℤ → ℕ → ℤ
plus (pos a) n = pos (a + n)
plus (negsuc a) n = sub_ℕ n (suc a)

abbrev times : ℤ → ℕ → ℤ
times (pos a) n = pos (a * n)
times (negsuc a) n = negate (suc a * n)

-- The remainder of C has the sign of the dividend.
abbrev rem : ℤ → ℕ → ℤ
rem (pos a) n = pos (a % n)
rem (negsuc a) n = negate (suc a % n)

-- `(a * prime1 % prime2) % EDGE_SIG_LENGTH`
unfoldable pub seed_position : ℤ → (prime1 prime2 : ℕ) → Encoded ℤ
seed_position seed prime1 prime2 = do
  product ← int (times seed prime1)
  ok (rem (rem product prime2) edge_sig_length)

-- `seed_preid`, by the type of the edge.
unfoldable pub seed_preid : ℤ → (type : ℕ) → Encoded ℤ
seed_preid pre_id type = if type == edge_out then int (plus pre_id 101) else ok pre_id

-- `PREDICATE_ENCODE_METHOD` is 1, and `primeSize` is 2.
unfoldable pub encode_predicate2entity : ℤ → BitSet → (type : ℕ) → Encoded BitSet
encode_predicate2entity pre_id bs type = do
  seed ← seed_preid pre_id type
  p ← seed_position seed 5003 49957
  bs1 ← set_bit entity_sig_length bs (plus p str_sig_length)
  q ← seed_position seed 5011 49993
  set_bit entity_sig_length bs1 (plus q str_sig_length)

unfoldable pub encode_predicate2edge : ℤ → BitSet → Encoded BitSet
encode_predicate2edge pre_id bs = do
  p ← seed_position pre_id 5003 49957
  bs1 ← set_bit edge_sig_length bs p
  q ← seed_position pre_id 5011 49993
  set_bit edge_sig_length bs1 q

-- `str[0] == '?'`
abbrev pub is_variable : Text → Bool
is_variable [] = false
is_variable (c ∷ str) = c == b'?'

unfoldable pub set_hashes : Text → BitSet → Encoded BitSet
set_hashes str bs = do
  bs1 ← set_bit entity_sig_length bs (pos (simple_hash str % str_sig_length))
  bs2 ← set_bit entity_sig_length bs1 (pos (rs_hash str % str_sig_length))
  bs3 ← set_bit entity_sig_length bs2 (pos (js_hash str % str_sig_length))
  set_bit entity_sig_length bs3 (pos (pjw_hash str % str_sig_length))

unfoldable pub encode_str2entity : Text → BitSet → Encoded BitSet
encode_str2entity str bs = if is_variable str then ok bs else set_hashes str bs
