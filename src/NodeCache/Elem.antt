-- ===== src/NodeCache/Elem.antt =====
-- `setElem` and `freeElem` of VSTree/LRUCache.cpp on the used places.
use t_rdf.Base.{
  ℕ, ◌≡◌, ◌≢◌, refl, sym, ap, ◌∙◌, ◌⊎◌, inl, inr, Bool, true, false, List, [], ◌∷◌, ◌++◌,
  append_assoc, none, some, arith, ◌==◌, ==_iff, Bool-cases,
}
use t_rdf.Base.Int.{ℤ, pos}
use t_rdf.NodeCache.Defs.{LruCache, write, start_index, end_index, null_index, set_elem, free_elem}
use t_rdf.NodeCache.Links.{
  ℤ-cases, write_self, write_ne, Avoids, Distinct, Avoids-append, Avoids-append_parts,
  Distinct-append_parts, Follows, Follows-unlink, Follows-link,
}
use t_rdf.NodeCache.Slots.{
  place, place_ne, Split-append, Placed, Placed-mono, Placed-append, Placed-append_parts,
  Avoids-place, with_place, without_place, Fits, Stored, Held,
}

fresh :
    (n : ℕ) (used : ℕ → Bool) (order : List ℤ)
    → used n ≡ false
    → Placed used order
    → Avoids (place n) ((start_index ∷ order) ++ end_index ∷ [])
fresh n used order h k = (
  (λ e. ground (arith, e)),
  Avoids-append (place n) order (end_index ∷ []) (Avoids-place used n order h k)
      ((λ e. ground (arith, e)), tt),
)

pub Distinct-snoc :
    (xs : List ℤ) (q e : ℤ)
    → Distinct (xs ++ e ∷ [])
    → Avoids q (xs ++ e ∷ [])
    → Distinct (xs ++ q ∷ e ∷ [])
Distinct-snoc [] q e d a = ((a.0, tt), d)
Distinct-snoc (x ∷ xs) q e d a =
    let (l, r) = Avoids-append_parts x xs (e ∷ []) d.0 in
    (Avoids-append x xs (q ∷ e ∷ []) l ((λ m. a.0 (sym m)), r), Distinct-snoc xs q e d.1 a.1)

pub Distinct-without :
    (xs : List ℤ) (q : ℤ) (ys : List ℤ) → Distinct (xs ++ q ∷ ys) → Distinct (xs ++ ys)
Distinct-without [] q ys d = d.1
Distinct-without (x ∷ xs) q ys d =
    let (l, r) = Avoids-append_parts x xs (q ∷ ys) d.0 in
    (Avoids-append x xs ys l r.1, Distinct-without xs q ys d.1)

unlink_end :
    (next prev : ℤ → ℤ) (x q e v : ℤ) (xs ys : List ℤ)
    → Distinct ((x ∷ xs) ++ q ∷ (ys ++ e ∷ []))
    → Follows next prev x (xs ++ q ∷ (ys ++ e ∷ []))
    → Follows
        (write (write next (prev q) (next q)) q v)
        (write (write prev (next q) (prev q)) q v)
        x
        (xs ++ (ys ++ e ∷ []))
unlink_end next prev x q e v xs [] d h = Follows-unlink next prev x q e v xs [] d h
unlink_end next prev x q e v xs (y ∷ ys) d h =
    Follows-unlink next prev x q y v xs (ys ++ e ∷ []) d h

module _ {File V : Type 0} (node_size : ℕ) where
  -- An unused place is filled.
  pub set_elem-Held :
      (c : LruCache File V) (used : ℕ → Bool) (order : List ℤ) (n line : ℕ) (v : V)
      → used n ≡ false
      → c.key2pos (pos line) ≡ none
      → Fits node_size line
      → Held node_size c used order
      → Held node_size
          (set_elem c (place n) (pos line) (some v))
          (with_place used n)
          (order ++ place n ∷ [])
  unfolding set_elem
  set_elem-Held c used order n line v off none_at fits h = record {
    chain =
        rw (append_assoc order (place n ∷ []) (end_index ∷ []))
          (Follows-link c.next c.prev start_index (place n) end_index order h.apart new h.chain);
    apart =
        rw (append_assoc order (place n ∷ []) (end_index ∷ []))
          (Distinct-snoc (start_index ∷ order) (place n) end_index h.apart new);
    stored = λ m on. elim (Bool-cases (n == m)) [
      | inl e ↦ rw (sym ((==_iff n m).0 e)) record {
        line = line;
        fits = fits;
        key = write_self c.keys (place n) (pos line);
        node = v;
        value = write_self c.values (place n) (some v);
        indexed = write_self c.key2pos (pos line) (some (place n));
      }
      | inr e ↦
          let s = h.stored m (rw e at on) in
          let ne = place_ne n m e in
          let other : pos line ≢ pos s.line =
            λ (same : pos line ≡ pos s.line). cc (none_at, ap c.key2pos same, s.indexed) in
          record {
            line = s.line;
            fits = s.fits;
            key = write_ne c.keys (place n) (pos line) (place m) ne ∙ s.key;
            node = s.node;
            value = write_ne c.values (place n) (some v) (place m) ne ∙ s.value;
            indexed = write_ne c.key2pos (pos line) (some (place n)) (pos s.line) other ∙ s.indexed;
          }
    ];
    indexed = λ k z e. elim (ℤ-cases (pos line) k) [
      | inl same ↦
          let here : some (place n) ≡ some z =
            sym (write_self c.key2pos (pos line) (some (place n)))
            ∙ ap (write c.key2pos (pos line) (some (place n))) same
            ∙ e in
          let at : z ≡ place n = cc (here) in
          (
            n,
            at,
            ground arith,
            ap (write c.keys (place n) (pos line)) at
                ∙ write_self c.keys (place n) (pos line)
                ∙ same,
          )
      | inr ne ↦
          let (m, at, on, key) =
            h.indexed k z (sym (write_ne c.key2pos (pos line) (some (place n)) k ne) ∙ e) in
          let apart : (n == m) ≡ false = elim (Bool-cases (n == m)) [
            | inl y ↦ absurd (
                let same : n ≡ m = (==_iff n m).0 y in
                let on' = rw (sym same) at on in cc (off, on'))
            | inr f ↦ f
          ] in
          (
            m,
            at,
            rw apart on,
            write_ne c.keys (place n) (pos line) z (λ y. place_ne n m apart (y ∙ at)) ∙ key,
          )
    ];
    listed = λ m on. elim (Bool-cases (n == m)) [
      | inl e ↦ (order, [], ap (λ t. order ++ place t ∷ []) ((==_iff n m).0 e))
      | inr e ↦
          let (xs, ys, at) = h.listed m (rw e at on) in
          (
            xs,
            ys ++ place n ∷ [],
            ap (λ t. t ++ place n ∷ []) at ∙ append_assoc xs (place m ∷ ys) (place n ∷ []),
          )
    ];
    placed =
        Placed-append (with_place used n) order (place n ∷ [])
          (Placed-mono used (with_place used n) order (λ m on. inr (ground (arith, on))) h.placed)
          ((n, refl, ground arith), tt);
  }
    where
      new : Avoids (place n) ((start_index ∷ order) ++ end_index ∷ [])
      new = fresh n used order off h.placed

  -- A used place is emptied.
  pub free_elem-Held :
      (c : LruCache File V) (used : ℕ → Bool) (xs ys : List ℤ) (n : ℕ)
      → used n ≡ true
      → Held node_size c used (xs ++ place n ∷ ys)
      → Held node_size (free_elem c (place n)) (without_place used n) (xs ++ ys)
  unfolding free_elem
  free_elem-Held c used xs ys n on h = record {
    chain = rw (append_assoc xs ys (end_index ∷ [])) (
        unlink_end c.next c.prev start_index (place n) end_index null_index xs ys apart'
          (rw (append_assoc xs (place n ∷ ys) (end_index ∷ [])) at h.chain));
    apart =
        rw (append_assoc xs ys (end_index ∷ []))
          (Distinct-without (start_index ∷ xs) (place n) (ys ++ end_index ∷ []) apart');
    stored = λ m on'.
        let (ne, was) = other m on' in
        let s = h.stored m was in
        let ne_key : c.keys (place n) ≢ pos s.line = λ (same : c.keys (place n) ≡ pos s.line).
          place_ne n m ne (cc (ap c.key2pos (sym here.key ∙ same), here.indexed, s.indexed)) in
        record {
          line = s.line;
          fits = s.fits;
          key = write_ne c.keys (place n) null_index (place m) (place_ne n m ne) ∙ s.key;
          node = s.node;
          value = s.value;
          indexed = write_ne c.key2pos (c.keys (place n)) none (pos s.line) ne_key ∙ s.indexed;
        };
    indexed = λ k z e. elim (ℤ-cases (c.keys (place n)) k) [
      | inl same ↦ absurd (
          cc (
            sym (write_self c.key2pos (c.keys (place n)) none),
            ap (write c.key2pos (c.keys (place n)) none) same,
            e,
          ))
      | inr ne ↦
          let (m, at, was, key) =
            h.indexed k z (sym (write_ne c.key2pos (c.keys (place n)) none k ne) ∙ e) in
          let apart : (n == m) ≡ false = elim (Bool-cases (n == m)) [
            | inl y ↦
                absurd
                  (ne (ap (λ t. c.keys (place t)) ((==_iff n m).0 y) ∙ ap c.keys (sym at) ∙ key))
            | inr f ↦ f
          ] in
          (
            m,
            at,
            rw apart was,
            write_ne c.keys (place n) null_index z (λ y. place_ne n m apart (y ∙ at)) ∙ key,
          )
    ];
    listed = λ m on'.
        let (ne, was) = other m on' in
        Split-append (place m) (place n) xs ys (λ e. place_ne n m ne (sym e)) (h.listed m was);
    placed =
        let (l, r) = Placed-append_parts used xs (place n ∷ ys) h.placed in
        let (dl, dr, met) =
          Distinct-append_parts (start_index ∷ xs) (place n ∷ (ys ++ end_index ∷ [])) apart' in
        let ax : Avoids (place n) xs = elim (met (place n)) [
          | inl a ↦ a.1
          | inr a ↦ absurd (a.0 refl)
        ] in
        let ay = (Avoids-append_parts (place n) ys (end_index ∷ []) dr.0).0 in
        let keeps : (zs : List ℤ)
            → Avoids (place n) zs
            → (m : ℕ) → used m ≡ true
            → Avoids (place m) zs ⊎ (without_place used n m ≡ true) =
          λ zs a m was. elim (Bool-cases (n == m)) [
            | inl y ↦ inl (rw ((==_iff n m).0 y) at a)
            | inr f ↦ inr (rw f was)
          ] in
        Placed-append (without_place used n) xs ys
          (Placed-mono used (without_place used n) xs (keeps xs ax) l)
          (Placed-mono used (without_place used n) ys (keeps ys ay) r.1);
  }
    where
      here : Stored node_size c n
      here = h.stored n on

      apart' : Distinct ((start_index ∷ xs) ++ place n ∷ (ys ++ end_index ∷ []))
      apart' = rw (append_assoc xs (place n ∷ ys) (end_index ∷ [])) at h.apart

      other : (m : ℕ) → without_place used n m ≡ true → ((n == m) ≡ false) × (used m ≡ true)
      other m on' = elim (Bool-cases (n == m)) [
        | inl y ↦ absurd (ground (arith, y, on'))
        | inr f ↦ (f, rw f at on')
      ]
