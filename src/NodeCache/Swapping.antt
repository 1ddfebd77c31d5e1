-- ===== src/NodeCache/Swapping.antt =====
-- The places of VSTree/LRUCache.cpp that are filled: an unused one, and one that was swapped out.
use t_rdf.Base.{
  ℕ, ◌+◌, ◌*◌, ◌<◌, ◌≤◌, ◌≡◌, ◌≢◌, refl, sym, ap, ◌∙◌, inl, inr, Bool, true, false, List, [], ◌∷◌,
  ◌++◌, Option, none, some, arith, ◌==◌, ==_iff, ltb, ltb→lt, lt→ltb, Bool-cases,
}
use mathlib.Core.Path.{subst, fun_ext}
use t_rdf.Base.Int.{ℤ, pos}
use t_rdf.Query.Basic.{put}
use t_rdf.NodeCache.Defs.{
  NodeIo, LruCache, after_fread, start_index, set_elem, free_elem, read_in, swap_out, get_read,
  free_place,
}
use t_rdf.NodeCache.Links.{ℤ-cases, write_self, write_ne}
use t_rdf.NodeCache.Slots.{place, with_place, without_place, Fits}
use t_rdf.NodeCache.Store.{
  or_read, through, Persists, Buffers, Buffers-ext, set_elem-Buffers, free_elem-Buffers,
  write_out-Buffers, seek_pos-Fits,
}

nil-ne : (xs : List ℤ) (z : ℤ) (ys : List ℤ) → [] ≢ xs ++ z ∷ ys
nil-ne [] z ys e = cc
nil-ne (x ∷ xs) z ys e = cc

module _ {File V : Type 0} (io : NodeIo File V) (node_size : ℕ) where
  -- The cache works: its places are in order, there is room, the file opens, and its nodes in front
  -- of the file read as the memory `m`.
  pub record Acts (c : LruCache File V) (m : ℕ → Option V) : Type 0 where
    pub order : List ℤ
    pub current : File
    pub buffers : Buffers io node_size c (λ n. ltb n c.size) order current m
    pub room : c.size ≤ c.capacity
    pub some_room : 0 < c.capacity

  pub Acts-ext :
      (c : LruCache File V) (m m' : ℕ → Option V) → ((l : ℕ) → m l ≡ m' l) → Acts c m → Acts c m'
  Acts-ext c m m' e h = subst (Acts c) (fun_ext e) h

  -- The unused place of a cache is filled; the used ones are then those before `c.size + 1`.
  fill-Acts :
      (c : LruCache File V) (used : ℕ → Bool) (n line : ℕ) (order : List ℤ) (f : File)
      (m : ℕ → Option V) (v : V)
      → used n ≡ false
      → ((x : ℕ) → with_place used n x ≡ ltb x (c.size + 1))
      → c.size < c.capacity
      → c.key2pos (pos line) ≡ none
      → Fits node_size line
      → Buffers io node_size c used order f m
      → Acts (set_elem c (place n) (pos line) (some v)) (put m line (some v))
  unfolding set_elem
  fill-Acts c used n line order f m v off e room absent fits b = record {
    order = order ++ place n ∷ [];
    current = f;
    buffers =
        Buffers-ext io node_size (set_elem c (place n) (pos line) (some v)) (with_place used n)
          (λ x. ltb x (c.size + 1)) (order ++ place n ∷ []) f (put m line (some v))
          (put m line (some v)) e (λ l. refl)
          (set_elem-Buffers io node_size c used order f m n line v off absent fits b);
    room = omega arith;
    some_room = omega arith;
  }

  -- The place that was emptied is filled again.
  pub refill-Acts :
      (c : LruCache File V) (p : ℤ) (n line : ℕ) (order : List ℤ) (f : File) (m : ℕ → Option V)
      (v : V)
      → n < c.size
      → c.size ≤ c.capacity
      → (free_elem c p).key2pos (pos line) ≡ none
      → Fits node_size line
      → Buffers io node_size (free_elem c p) (without_place (λ x. ltb x c.size) n) order f m
      → Acts (set_elem (free_elem c p) (place n) (pos line) (some v)) (put m line (some v))
  unfolding free_elem
  refill-Acts c p n line order f m v lt room absent fits b =
      fill-Acts (free_elem c p) (without_place (λ x. ltb x c.size) n) n line order f m v
        (ground arith) (λ x. ground (arith, lt)) (omega arith) absent fits b

  pub unused-Acts :
      (c : LruCache File V) (m : ℕ → Option V) (line : ℕ) (v : V)
      → (h : Acts c m) → c.size < c.capacity
      → c.key2pos (pos line) ≡ none
      → Fits node_size line
      → Acts (set_elem c (free_place c) (pos line) (some v)) (put m line (some v))
  unused-Acts c m line v h room absent fits =
      fill-Acts c (λ x. ltb x c.size) c.size line h.order h.current m v (ground arith)
        (λ x. ground arith) room absent fits h.buffers

  -- The first place of the list is emptied after its node was written out.
  module _ (file_line : V → ℤ) (keeps : Persists io node_size) where
    swap_out-Buffers :
        (c : LruCache File V) (used : ℕ → Bool) (z : ℤ) (rest : List ℤ) (f : File)
        (m : ℕ → Option V)
        → Buffers io node_size c used (z ∷ rest) f m
        → (n : ℕ) × (g : File) × (c.next start_index ≡ place n)
          × (used n ≡ true)
          × (swap_out io node_size file_line c ≡ free_elem (record c { file = some g }) (place n))
          × Buffers io node_size
              (free_elem (record c { file = some g }) (place n))
              (without_place used n)
              rest
              g
              m
    unfolding swap_out
    swap_out-Buffers c used z rest f m b =
        let (n, at, on) = b.held.placed.0 in
        let first : c.next start_index ≡ place n = b.held.chain.0 ∙ at in
        let b' = rw at at b in
        let (g, line, key, wrote, after, back) =
          write_out-Buffers io node_size file_line c used (place n ∷ rest) f m n keeps on b' in
        let (emptied, gone) =
          free_elem-Buffers io node_size (record c { file = some g }) used [] rest g m n line on key
            after in
        let same : (l : ℕ) → put m line (io.read_node g (line * node_size)) l ≡ m l = λ l.
          elim (Bool-cases (line == l)) [
            | inl e ↦ rw e (back ∙ ap m ((==_iff line l).0 e))
            | inr e ↦ rw e refl
          ] in
        (
          n,
          g,
          first,
          on,
          rw first (rw wrote refl),
          Buffers-ext io node_size (free_elem (record c { file = some g }) (place n))
              (without_place used n) (without_place used n) rest g
              (put m line (io.read_node g (line * node_size))) m (λ x. refl) same emptied,
        )

    pub get_read_lem :
        (c : LruCache File V) (n line : ℕ) (f : File)
        → c.file ≡ some f
        → Fits node_size line
        → get_read io node_size file_line c (place n) (pos line) ≡ (
          some (after_fread io f (line * node_size)),
          set_elem c (place n) (pos line) (some (after_fread io f (line * node_size))),
        )
    unfolding get_read read_in set_elem
    get_read_lem c n line f file fits =
        rw (file, read_in)
          (rw ((seek_pos-Fits node_size line fits).1) (λ i. (
            write_self c.values (place n) (some (after_fread io f (line * node_size))) i,
            record (set_elem c (place n) (pos line) (some (after_fread io f (line * node_size)))) {
              file = file i;
            },
          )))

    -- On a full cache, the place of the first node of the list is filled again.
    pub swapped-Acts :
        (c : LruCache File V) (m : ℕ → Option V) (line : ℕ)
        → (h : Acts c m) → c.size ≡ c.capacity
        → c.key2pos (pos line) ≡ none
        → Fits node_size line
        → (n : ℕ) × (g : File) × (c.next start_index ≡ place n)
          × ((swap_out io node_size file_line c).file ≡ some g)
          × (io.read_node g (line * node_size) ≡ m line)
          × ((v : V)
              → Acts
                  (set_elem (swap_out io node_size file_line c) (place n) (pos line) (some v))
                  (put m line (some v)))
    unfolding free_elem
    swapped-Acts c m line h full absent fits = from h.order h.buffers
      where
        from :
            (order : List ℤ)
            → Buffers io node_size c (λ x. ltb x c.size) order h.current m
            → (n : ℕ) × (g : File) × (c.next start_index ≡ place n)
              × ((swap_out io node_size file_line c).file ≡ some g)
              × (io.read_node g (line * node_size) ≡ m line)
              × ((v : V)
                  → Acts
                      (set_elem (swap_out io node_size file_line c) (place n) (pos line) (some v))
                      (put m line (some v)))
        from [] b =
            let (xs, ys, e) =
              b.held.listed 0 (lt→ltb 0 c.size (omega (arith, full, h.some_room))) in
            absurd (nil-ne xs (place 0) ys e)
        from (z ∷ rest) b =
            let (n, g, first, on, out, left) =
              swap_out-Buffers c (λ x. ltb x c.size) z rest h.current m b in
            let freed = record c { file = some g } in
            let gone : (free_elem freed (place n)).key2pos (pos line) ≡ none =
              elim (ℤ-cases (c.keys (place n)) (pos line)) [
                | inl e ↦ rw e (write_self c.key2pos (pos line) none)
                | inr e ↦ write_ne c.key2pos (c.keys (place n)) none (pos line) e ∙ absent
              ] in
            let read : io.read_node g (line * node_size) ≡ m line =
              ap (λ t. or_read (through c.values t) (io.read_node g (line * node_size))) (sym gone)
              ∙ left.reads line fits in
            (
              n,
              g,
              first,
              ap (λ (t : LruCache File V). t.file) out,
              read,
              λ v. rw out (
                  refill-Acts freed (place n) n line rest g m v (ltb→lt n c.size on) h.room gone
                    fits left),
            )
