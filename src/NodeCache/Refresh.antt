-- ===== src/NodeCache/Refresh.antt =====
-- `refresh` of VSTree/LRUCache.cpp on the used places.
use t_rdf.Base.{
  ℕ, ◌≡◌, refl, ◌∙◌, ap, inl, inr, Bool, true, List, [], ◌∷◌, ◌++◌, append_assoc, arith, ==_iff,
  Bool-cases, ◌==◌,
}
use t_rdf.Base.Int.{ℤ}
use t_rdf.NodeCache.Defs.{LruCache, write, start_index, end_index, refresh}
use t_rdf.NodeCache.Links.{Avoids, Distinct, Avoids-without, Follows, Follows-past, Follows-link}
use t_rdf.NodeCache.Slots.{place, Split-append, Placed-append, Placed-append_parts, Held}
use t_rdf.NodeCache.Elem.{Distinct-without, Distinct-snoc}

past_end :
    (next prev : ℤ → ℤ) (x q e : ℤ) (xs ys : List ℤ)
    → Distinct ((x ∷ xs) ++ q ∷ (ys ++ e ∷ []))
    → Follows next prev x (xs ++ q ∷ (ys ++ e ∷ []))
    → Follows (write next (prev q) (next q)) (write prev (next q) (prev q)) x (xs ++ (ys ++ e ∷ []))
past_end next prev x q e xs [] d h = Follows-past next prev x q e xs [] d h
past_end next prev x q e xs (y ∷ ys) d h = Follows-past next prev x q y xs (ys ++ e ∷ []) d h

module _ {File V : Type 0} (node_size : ℕ) where
  -- Refreshing a used place moves it to the end of the list, and keeps the order of the others and
  -- the rest of the invariant.
  pub refresh-Held :
      (c : LruCache File V) (used : ℕ → Bool) (xs ys : List ℤ) (n : ℕ)
      → used n ≡ true
      → Held node_size c used (xs ++ place n ∷ ys)
      → Held node_size (refresh c (place n)) used ((xs ++ ys) ++ place n ∷ [])
  unfolding refresh
  refresh-Held c used xs ys n on h = record {
    chain = rw (append_assoc (xs ++ ys) (place n ∷ []) (end_index ∷ [])) (
        Follows-link (write c.next (c.prev (place n)) (c.next (place n)))
          (write c.prev (c.next (place n)) (c.prev (place n))) start_index (place n) end_index
          (xs ++ ys) left avoids
          (rw (append_assoc xs ys (end_index ∷ [])) (
            past_end c.next c.prev start_index (place n) end_index xs ys apart'
              (rw shape at h.chain))));
    apart =
        rw (append_assoc (xs ++ ys) (place n ∷ []) (end_index ∷ []))
          (Distinct-snoc (start_index ∷ (xs ++ ys)) (place n) end_index left avoids);
    stored = λ m u.
        let s = h.stored m u in
        record {
          line = s.line;
          fits = s.fits;
          key = s.key;
          node = s.node;
          value = s.value;
          indexed = s.indexed;
        };
    indexed = h.indexed;
    listed = λ m u. elim (Bool-cases (n == m)) [
      | inl e ↦ (xs ++ ys, [], ap (λ t. (xs ++ ys) ++ place t ∷ []) ((==_iff n m).0 e))
      | inr e ↦
          let (l, r, at) =
            Split-append (place m) (place n) xs ys (λ same. ground (arith, same, e))
              (h.listed m u) in
          (
            l,
            r ++ place n ∷ [],
            ap (λ t. t ++ place n ∷ []) at ∙ append_assoc l (place m ∷ r) (place n ∷ []),
          )
    ];
    placed =
        let (l, r) = Placed-append_parts used xs (place n ∷ ys) h.placed in
        Placed-append used (xs ++ ys) (place n ∷ []) (Placed-append used xs ys l r.1)
          ((n, refl, on), tt);
  }
    where
      shape : (xs ++ place n ∷ ys) ++ end_index ∷ [] ≡ xs ++ place n ∷ (ys ++ end_index ∷ [])
      shape = append_assoc xs (place n ∷ ys) (end_index ∷ [])

      apart' : Distinct ((start_index ∷ xs) ++ place n ∷ (ys ++ end_index ∷ []))
      apart' = rw shape at h.apart

      left : Distinct ((start_index ∷ (xs ++ ys)) ++ end_index ∷ [])
      left =
          rw (append_assoc xs ys (end_index ∷ []))
            (Distinct-without (start_index ∷ xs) (place n) (ys ++ end_index ∷ []) apart')

      avoids : Avoids (place n) ((start_index ∷ (xs ++ ys)) ++ end_index ∷ [])
      avoids =
          rw (append_assoc xs ys (end_index ∷ []))
            (Avoids-without start_index (place n) xs (ys ++ end_index ∷ []) apart')
