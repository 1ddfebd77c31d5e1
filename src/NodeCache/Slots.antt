-- ===== src/NodeCache/Slots.antt =====
-- The used places of the buffer of VSTree/LRUCache.cpp, and the invariant of its arrays.
use t_rdf.Base.{
  ℕ, ◌+◌, ◌*◌, ◌^◌, ◌<◌, ◌≡◌, ◌≢◌, sym, ◌∙◌, ◌⊎◌, inl, inr, Bool, true, false, List, [], ◌∷◌, ◌++◌,
  some, arith, ◌==◌, if◌then◌else◌,
}
use t_rdf.Base.Int.{ℤ, pos}
use t_rdf.NodeCache.Defs.{LruCache, default_num, start_index, end_index}
use t_rdf.NodeCache.Links.{Avoids, Distinct, Follows}

abbrev pub place : ℕ → ℤ
place n = pos (default_num + n)

-- Where the list has a place.
abbrev pub Split : List ℤ → ℤ → Type 0
Split order z = (xs : List ℤ) × (ys : List ℤ) × (order ≡ xs ++ z ∷ ys)

abbrev pub Placed : (ℕ → Bool) → List ℤ → Type 0
Placed used [] = Unit {0}
Placed used (z ∷ zs) = ((n : ℕ) × (z ≡ place n) × (used n ≡ true)) × Placed used zs

abbrev pub with_place : (ℕ → Bool) → ℕ → ℕ → Bool
with_place used n m = if n == m then true else used m

abbrev pub without_place : (ℕ → Bool) → ℕ → ℕ → Bool
without_place used n m = if n == m then false else used m

pub place_ne : (n m : ℕ) → (n == m) ≡ false → place n ≢ place m
place_ne n m h e = ground (arith, h, e)

pub Avoids-place :
    (used : ℕ → Bool) (n : ℕ) (zs : List ℤ) → used n ≡ false → Placed used zs → Avoids (place n) zs
Avoids-place used n [] h k = tt
Avoids-place used n (z ∷ zs) h k =
    let (m, at, on) = k.0 in
    (
      λ e.
          (let same : n ≡ m = ground (arith, e ∙ at) in
            let on' = rw (sym same) at on in cc (h, on')),
      Avoids-place used n zs h k.1,
    )

pub Placed-mono :
    (used used' : ℕ → Bool) (zs : List ℤ)
    → ((n : ℕ) → used n ≡ true → Avoids (place n) zs ⊎ (used' n ≡ true))
    → Placed used zs
    → Placed used' zs
Placed-mono used used' [] h k = tt
Placed-mono used used' (z ∷ zs) h k =
    let (m, at, on) = k.0 in
    (
      (m, at, elim (h m on) [ inl a ↦ absurd (a.0 (sym at)) | inr y ↦ y ]),
      Placed-mono used used' zs (λ n u. elim (h n u) [ inl a ↦ inl a.1 | inr y ↦ inr y ]) k.1,
    )

pub Placed-append :
    (used : ℕ → Bool) (xs ys : List ℤ) → Placed used xs → Placed used ys → Placed used (xs ++ ys)
Placed-append used [] ys h k = k
Placed-append used (x ∷ xs) ys h k = (h.0, Placed-append used xs ys h.1 k)

pub Placed-append_parts :
    (used : ℕ → Bool) (xs ys : List ℤ) → Placed used (xs ++ ys) → Placed used xs × Placed used ys
Placed-append_parts used [] ys h = (tt, h)
Placed-append_parts used (x ∷ xs) ys h =
    let r = Placed-append_parts used xs ys h.1 in ((h.0, r.0), r.1)

-- A place that is in the list but is not the one between two parts is in the parts.
pub Split-append : (z q : ℤ) (xs ys : List ℤ) → z ≢ q → Split (xs ++ q ∷ ys) z → Split (xs ++ ys) z
Split-append z q [] ys n ([], vs, e) = absurd (n (cc (e)))
Split-append z q [] ys n (a ∷ us, vs, e) = (us, vs, cc (e))
Split-append z q (x ∷ xs) ys n ([], vs, e) = ([], xs ++ ys, cc (e))
Split-append z q (x ∷ xs) ys n (a ∷ us, vs, e) =
    let (us', vs', e') = Split-append z q xs ys n (us, vs, cc (e)) in (x ∷ us', vs', cc (e'))

-- The offset of a line in the file is an `int`.
abbrev pub Fits : (node_size line : ℕ) → Type 0
Fits node_size line = line * node_size < 2 ^ 31

module _ {File V : Type 0} (node_size : ℕ) where
  -- A used place: its key is a line that the map leads back from, and it has a node.
  pub record Stored (c : LruCache File V) (n : ℕ) : Type 0 where
    pub line : ℕ
    pub fits : Fits node_size line
    pub key : c.keys (place n) ≡ pos line
    pub node : V
    pub value : c.values (place n) ≡ some node
    pub indexed : c.key2pos (pos line) ≡ some (place n)

  -- The used places stand in the linked list just once, and the map leads only to used places.
  pub record Held (c : LruCache File V) (used : ℕ → Bool) (order : List ℤ) : Type 0 where
    pub chain : Follows c.next c.prev start_index (order ++ end_index ∷ [])
    pub apart : Distinct ((start_index ∷ order) ++ end_index ∷ [])
    pub stored : (n : ℕ) → used n ≡ true → Stored c n
    pub indexed :
        (k z : ℤ)
        → c.key2pos k ≡ some z
        → (n : ℕ) × (z ≡ place n) × (used n ≡ true) × (c.keys z ≡ k)
    pub listed : (n : ℕ) → used n ≡ true → Split order (place n)
    pub placed : Placed used order
