-- ===== src/Signature/Cover.antt =====
-- Signature/SigEntry.cpp: entries of the signature tree, and the covering test.
use t_rdf.Base.{
  ℕ, zero, suc, ◌<◌, ◌≡◌, ◌↔◌, refl, Bool, true, false, not, ◌&&◌, ◌||◌, arith, if◌then◌else◌,
}
use t_rdf.Base.Int.{ℤ, negsuc}
use t_rdf.Signature.BitSet.{
  BitSet, entity_sig_length, empty, union, eq_bits, count, all_below_sound, all_below_complete,
}

pub record SigEntry : Type 0 where
  pub sig : BitSet
  pub entity_id : ℤ

-- The entry of the default constructor.
abbrev pub no_entry : SigEntry
no_entry = record { sig = empty; entity_id = negsuc 0 }

-- `operator|=` changes the signature alone.
unfoldable pub join : SigEntry → SigEntry → SigEntry
join a b = record a { sig = union a.sig b.sig }

unfoldable pub get_sig_count : SigEntry → ℕ
get_sig_count a = count entity_sig_length a.sig

-- The overload on a signature; the one on an entry passes the entry's signature.
unfoldable pub cover : SigEntry → BitSet → Bool
cover a sig = eq_bits entity_sig_length (union a.sig sig) a.sig

-- The bits of `b` that `a` lacks.
unfoldable pub x_epsilen : SigEntry → SigEntry → ℕ
x_epsilen a b = count entity_sig_length (λ i. not (a.sig i) && b.sig i)

-- Every bit of `sig` is a bit of the entry.
abbrev pub Covers : SigEntry → BitSet → Type 0
Covers a sig = (i : ℕ) → i < entity_sig_length → sig i ≡ true → a.sig i ≡ true

-- The covering test finds exactly whether every bit of the signature is a bit of the entry.
pub cover-Covers : (a : SigEntry) (sig : BitSet) → (cover a sig ≡ true) ↔ Covers a sig
unfolding cover eq_bits
cover-Covers a sig = (
  λ h i lt on. ground (
    arith,
    all_below_sound 246 (λ i. if a.sig i || sig i then a.sig i else not (a.sig i)) i h lt,
  ),
  λ h.
      all_below_complete 246 (λ i. if a.sig i || sig i then a.sig i else not (a.sig i))
        (λ i lt. ground (arith, h i lt)),
)

count-zero : (n : ℕ) (b : BitSet) → (count n b ≡ 0) ↔ ((i : ℕ) → i < n → b i ≡ false)
unfolding count
count-zero zero b = (λ h i lt. elim lt [ ], λ h. refl)
count-zero (suc n) b = (
  λ h i lt. ground (arith, (count-zero n b).0 (ground arith) i),
  λ h. ground (arith, h n, (count-zero n b).1 (λ i lt. h i (omega arith))),
)

-- The distance `xEpsilen` is 0 exactly between entries where the first covers the second.
pub x_epsilen-cover : (a b : SigEntry) → (x_epsilen a b ≡ 0) ↔ (cover a b.sig ≡ true)
unfolding x_epsilen
x_epsilen-cover a b = (
  λ h. (cover-Covers a b.sig).1 (λ i lt on. ground (arith, (count-zero 246 _).0 h i lt)),
  λ h.
      (count-zero 246 (λ i. not (a.sig i) && b.sig i)).1
        (λ i lt. ground (arith, (cover-Covers a b.sig).0 h i lt)),
)

-- A joined entry covers what the entry covers that was joined to it.
pub join-Covers : (a b : SigEntry) (sig : BitSet) → Covers b sig → Covers (join a b) sig
unfolding join
join-Covers a b sig h i lt on = ground (arith, h i lt on)
