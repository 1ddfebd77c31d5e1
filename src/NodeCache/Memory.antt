-- ===== src/NodeCache/Memory.antt =====
-- `set`, `get` and `update` of VSTree/LRUCache.cpp against a memory that has a node for each line.
use t_rdf.Base.{
  Option-cases, ℕ, ◌*◌, ◌≡◌, refl, sym, ap, ◌∙◌, inl, inr, true, false, ◌++◌, Option, none, some,
  arith, ◌==◌, ==_iff, ltb, ltb→lt, Bool-cases,
}
use mathlib.Core.Path.{subst}
use t_rdf.Base.Int.{ℤ, pos}
use t_rdf.Query.Basic.{put}
use t_rdf.NodeCache.Defs.{
  NodeIo, LruCache, after_fread, start_index, set_elem, free_elem, swap_out, set_node, get_read,
  get_node, free_place,
}
use t_rdf.NodeCache.Links.{write_self}
use t_rdf.NodeCache.Slots.{place, Fits}
use t_rdf.NodeCache.Store.{or_read, through, Persists, Buffers, stored_node, free_elem-Buffers}
use t_rdf.NodeCache.Swapping.{Acts, Acts-ext, get_read_lem, swapped-Acts, refill-Acts, unused-Acts}

put_twice : {A : Type 0} (m : ℕ → A) (i j : ℕ) (a b : A) → put (put m i a) i b j ≡ put m i b j
put_twice m i j a b = elim (Bool-cases (i == j)) [ inl e ↦ rw (e) refl | inr e ↦ rw (e) refl ]

put_same : {A : Type 0} (m : ℕ → A) (i j : ℕ) → put m i (m i) j ≡ m j
put_same m i j = elim (Bool-cases (i == j)) [
  | inl e ↦ rw (e) (ap m ((==_iff i j).0 e))
  | inr e ↦ rw (e) refl
]

pos-inj : (a b : ℕ) → pos a ≡ pos b → a ≡ b
pos-inj a b e = ground (arith, e)

module _ {File V : Type 0} (io : NodeIo File V) (node_size : ℕ) where
  module _ (file_line : V → ℤ) (keeps : Persists io node_size) where
    set_node_hit :
        (c : LruCache File V) (k z : ℤ) (v : Option V)
        → c.key2pos k ≡ some z
        → set_node io node_size file_line c k v ≡ set_elem (free_elem c z) z k v
    unfolding set_node
    set_node_hit c k z v e = rw (e, set_node) refl

    set_node_room :
        (c : LruCache File V) (k : ℤ) (v : Option V)
        → c.key2pos k ≡ none
        → ltb c.size c.capacity ≡ true
        → set_node io node_size file_line c k v ≡ set_elem c (free_place c) k v
    unfolding set_node
    set_node_room c k v e lt = rw (e, set_node) (rw lt refl)

    set_node_full :
        (c : LruCache File V) (k : ℤ) (v : Option V)
        → c.key2pos k ≡ none
        → ltb c.size c.capacity ≡ false
        → set_node io node_size file_line c k v
          ≡ set_elem (swap_out io node_size file_line c) (c.next start_index) k v
    unfolding set_node
    set_node_full c k v e full = rw (e, set_node) (rw full refl)

    get_node_hit :
        (c : LruCache File V) (k z : ℤ)
        → c.key2pos k ≡ some z
        → get_node io node_size file_line c k ≡ (c.values z, c)
    unfolding get_node
    get_node_hit c k z e = rw (e, get_node) refl

    get_node_room :
        (c : LruCache File V) (k : ℤ)
        → c.key2pos k ≡ none
        → ltb c.size c.capacity ≡ true
        → get_node io node_size file_line c k ≡ get_read io node_size file_line c (free_place c) k
    unfolding get_node
    get_node_room c k e lt = rw (e, get_node) (rw lt refl)

    get_node_full :
        (c : LruCache File V) (k : ℤ)
        → c.key2pos k ≡ none
        → ltb c.size c.capacity ≡ false
        → get_node io node_size file_line c k
          ≡ get_read io node_size file_line
              (swap_out io node_size file_line c)
              (c.next start_index)
              k
    unfolding get_node
    get_node_full c k e full = rw (e, get_node) (rw full refl)

    -- Setting a node that fits the file makes the memory have it at its line, and nowhere else.
    pub set_node-Acts :
        (c : LruCache File V) (m : ℕ → Option V) (line : ℕ) (v : V)
        → Fits node_size line
        → Acts io node_size c m
        → Acts io node_size
            (set_node io node_size file_line c (pos line) (some v))
            (put m line (some v))
    set_node-Acts c m line v fits h = elim (Option-cases (c.key2pos (pos line))) [
      | inl (z, e) ↦
          let (n, at, on, key) = b.held.indexed (pos line) z e in
          let (xs, ys, split) = b.held.listed n on in
          let old = io.read_node h.current (line * node_size) in
          let (emptied, gone) =
            free_elem-Buffers io node_size c (λ x. ltb x c.size) xs ys h.current m n line on
              (rw at at key)
              (subst (λ o. Buffers io node_size c (λ x. ltb x c.size) o h.current m) split b) in
          rw (set_node_hit c (pos line) z (some v) e, at)
            (Acts-ext io node_size (set_elem (free_elem c (place n)) (place n) (pos line) (some v))
              (put (put m line old) line (some v)) (put m line (some v))
              (λ l. put_twice m line l old (some v))
              (refill-Acts io node_size c (place n) n line (xs ++ ys) h.current (put m line old) v
                (ltb→lt n c.size on) h.room gone fits emptied))
      | inr e ↦ elim (Bool-cases (ltb c.size c.capacity)) [
        | inl lt ↦
            rw (set_node_room c (pos line) (some v) e lt)
              (unused-Acts io node_size c m line v h (ltb→lt c.size c.capacity lt) e fits)
        | inr full ↦
            let (n, g, first, opened, read, filled) =
              swapped-Acts io node_size file_line keeps c m line h (ground (arith, full, h.room)) e
                fits in
            rw (set_node_full c (pos line) (some v) e full, first) (filled v)
      ]
    ]
      where
        b : Buffers io node_size c (λ n. ltb n c.size) h.order h.current m
        b = h.buffers

    -- The line that was read in holds what the memory has there.
    read-Acts :
        (c d : LruCache File V) (m : ℕ → Option V) (n line : ℕ) (f : File) (w : V)
        → d.file ≡ some f
        → Fits node_size line
        → m line ≡ some w
        → io.read_node f (line * node_size) ≡ m line
        → Acts io node_size (set_elem d (place n) (pos line) (some w)) (put m line (some w))
        → get_node io node_size file_line c (pos line)
          ≡ get_read io node_size file_line d (place n) (pos line)
        → ((get_node io node_size file_line c (pos line)).0 ≡ some w)
          × Acts io node_size (get_node io node_size file_line c (pos line)).1 m
          × ((z : ℤ) × ((get_node io node_size file_line c (pos line)).1.key2pos (pos line)
                ≡ some z))
    unfolding set_elem
    read-Acts c d m n line f w opened fits known read a e =
        let filled : after_fread io f (line * node_size) ≡ w =
          rw (read ∙ known, after_fread) refl in
        let got : get_node io node_size file_line c (pos line)
            ≡ (some w, set_elem d (place n) (pos line) (some w)) =
          e
          ∙ get_read_lem io node_size file_line keeps d n line f opened fits
          ∙ ap (λ v. (some v, set_elem d (place n) (pos line) (some v))) filled in
        rw got (
          refl,
          Acts-ext io node_size (set_elem d (place n) (pos line) (some w)) (put m line (some w)) m
              (λ l. ap (λ t. put m line t l) (sym known) ∙ put_same m line l) a,
          (place n, write_self d.key2pos (pos line) (some (place n))),
        )

    -- Getting a line that fits the file, and at which the memory has a node, returns that node, and
    -- the memory stays as it is.
    pub get_node-Acts :
        (c : LruCache File V) (m : ℕ → Option V) (line : ℕ) (w : V)
        → Fits node_size line
        → m line ≡ some w
        → Acts io node_size c m
        → ((get_node io node_size file_line c (pos line)).0 ≡ some w)
          × Acts io node_size (get_node io node_size file_line c (pos line)).1 m
          × ((z : ℤ) × ((get_node io node_size file_line c (pos line)).1.key2pos (pos line)
                ≡ some z))
    get_node-Acts c m line w fits known h = elim (Option-cases (c.key2pos (pos line))) [
      | inl (z, e) ↦
          let (n, at, on, key) = h.buffers.held.indexed (pos line) z e in
          let s = h.buffers.held.stored n on in
          let same : s.line ≡ line = pos-inj s.line line (sym s.key ∙ ap c.keys (sym at) ∙ key) in
          let holds =
            stored_node io node_size c (λ x. ltb x c.size) h.order h.current m n h.buffers on in
          rw (get_node_hit c (pos line) z e)
            (ap c.values at ∙ s.value ∙ holds ∙ ap m same ∙ known, h, (z, e))
      | inr e ↦ elim (Bool-cases (ltb c.size c.capacity)) [
        | inl lt ↦
            let seen : io.read_node h.current (line * node_size) ≡ m line =
              ap (λ t. or_read (through c.values t) (io.read_node h.current (line * node_size)))
                (sym e)
              ∙ h.buffers.reads line fits in
            read-Acts c c m c.size line h.current w h.buffers.file fits known seen
              (unused-Acts io node_size c m line w h (ltb→lt c.size c.capacity lt) e fits)
              (get_node_room c (pos line) e lt)
        | inr full ↦
            let (n, g, first, opened, read, filled) =
              swapped-Acts io node_size file_line keeps c m line h (ground (arith, full, h.room)) e
                fits in
            read-Acts c (swap_out io node_size file_line c) m n line g w opened fits known read
              (filled w)
              (get_node_full c (pos line) e full
                ∙ ap
                    (λ p.
                      get_read io node_size file_line (swap_out io node_size file_line c) p
                        (pos line))
                    first)
      ]
    ]
