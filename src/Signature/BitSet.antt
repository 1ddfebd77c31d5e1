-- ===== src/Signature/BitSet.antt =====
-- The fixed-size bit sets of Signature/Signature.h (`std::bitset`). Only the bits below the size
-- belong to the set.
use t_rdf.Base.{
  ℕ, zero, suc, ◌+◌, ◌<◌, ◌≡◌, refl, Bool, true, false, not, ◌&&◌, ◌||◌, arith, ltb, ◌==◌,
  if◌then◌else◌,
}
use t_rdf.Base.Int.{ℤ, pos, negsuc}

abbrev pub BitSet : Type 0
BitSet = ℕ → Bool

abbrev pub entity_sig_length : ℕ
entity_sig_length = 246

abbrev pub edge_sig_length : ℕ
edge_sig_length = 97

abbrev pub str_sig_length : ℕ
str_sig_length = 149

abbrev pub empty : BitSet
empty i = false

abbrev pub union : BitSet → BitSet → BitSet
union a b i = a i || b i

-- An encoding ends with a bit set, overflows an `int`, sets a bit that is not there, or writes
-- outside the arrays of the query.
pub data Encoded {ℓ} (A : Type ℓ) : Type ℓ where
  ok : A → Encoded A
  overflow : Encoded A
  out_of_range : Encoded A
  outside_array : Encoded A

infixl 5 ◌>>=◌
abbrev pub ◌>>=◌ {ℓ κ} : {A : Type ℓ} {B : Type κ} → Encoded A → (A → Encoded B) → Encoded B
ok a >>= f = f a
overflow >>= f = overflow
out_of_range >>= f = out_of_range
outside_array >>= f = outside_array

-- `bitset::set(pos)`, which throws for a position outside the set.
unfoldable pub set_bit : (size : ℕ) → BitSet → ℤ → Encoded BitSet
set_bit size b (pos p) = if ltb p size then ok (λ i. (p == i) || b i) else out_of_range
set_bit size b (negsuc n) = out_of_range

-- Whether a test holds at every bit of a set.
unfoldable pub all_below : ℕ → (ℕ → Bool) → Bool
all_below zero p = true
all_below (suc n) p = p n && all_below n p

-- `a == b` on bit sets of a size.
unfoldable pub eq_bits : (size : ℕ) → BitSet → BitSet → Bool
unfolding all_below
eq_bits size a b = all_below size (λ i. if a i then b i else not (b i))

-- `count()`
unfoldable pub count : (size : ℕ) → BitSet → ℕ
count zero b = 0
count (suc n) b = (if b n then 1 else 0) + count n b

pub all_below_sound : (n : ℕ) (p : ℕ → Bool) (i : ℕ) → all_below n p ≡ true → i < n → p i ≡ true
unfolding all_below
all_below_sound zero p i h lt = absurd (omega arith)
all_below_sound (suc n) p i h lt = ground (arith, all_below_sound n p i)

pub all_below_complete :
    (n : ℕ) (p : ℕ → Bool) → ((i : ℕ) → i < n → p i ≡ true) → all_below n p ≡ true
unfolding all_below
all_below_complete zero p h = refl
all_below_complete (suc n) p h =
    ground (arith, h n, all_below_complete n p (λ i lt. h i (omega arith)))
