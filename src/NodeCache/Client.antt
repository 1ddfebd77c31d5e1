-- ===== src/NodeCache/Client.antt =====
-- What the tree sees of the buffer of VSTree/LRUCache.cpp over a sequence of calls.
use t_rdf.Base.{
  ℕ, zero, suc, ◌+◌, ◌*◌, ◌<◌, ◌≡◌, refl, sym, ap, ◌∙◌, ◌⊎◌, inl, inr, Bool, true, List, Option,
  none, some, arith, ◌==◌, ==_iff, ltb, ltb→lt, lt→ltb, Bool-cases,
}
use t_rdf.Base.Int.{ℤ, pos}
use t_rdf.Query.Basic.{put}
use t_rdf.NodeCache.Defs.{
  NodeIo, LruCache, write, default_num, get_node, update_at, update_node, flush_loop, flush,
}
use t_rdf.NodeCache.Links.{write_self, write_ne, eq_ℤ-self}
use t_rdf.NodeCache.Slots.{place, Fits, Held, place_ne}
use t_rdf.NodeCache.Store.{
  cached, through, through_ne, or_read, Persists, node_at, Held-file, stored_node, seek_pos-Fits,
}
use t_rdf.NodeCache.Swapping.{Acts}
use t_rdf.NodeCache.Memory.{get_node-Acts}

pos-inj : (a b : ℕ) → pos a ≡ pos b → a ≡ b
pos-inj a b e = ground (arith, e)

or_read_after :
    {V : Type 0} (x : Option V) (a b t : Option V)
    → or_read x a ≡ t
    → (b ≡ t) ⊎ (b ≡ a)
    → or_read x b ≡ t
or_read_after none a b t h k = elim k [ inl e ↦ e | inr e ↦ e ∙ h ]
or_read_after (some v) a b t h k = h

module _ {File V : Type 0} (io : NodeIo File V) (node_size : ℕ) where
  -- The node of a used place is replaced.
  replace-Held :
      (c : LruCache File V) (used : ℕ → Bool) (order : List ℤ) (n : ℕ) (v : V)
      → Held node_size c used order
      → Held node_size (record c { values = write c.values (place n) (some v) }) used order
  replace-Held c used order n v h = record {
    chain = h.chain;
    apart = h.apart;
    stored = λ m on.
        let s = h.stored m on in
        elim (Bool-cases (n == m)) [
          | inl e ↦ record {
            line = s.line;
            fits = s.fits;
            key = s.key;
            node = v;
            value =
                ap (λ t. write c.values (place n) (some v) (place t)) (sym ((==_iff n m).0 e))
                ∙ write_self c.values (place n) (some v);
            indexed = s.indexed;
          }
          | inr e ↦ record {
            line = s.line;
            fits = s.fits;
            key = s.key;
            node = s.node;
            value = write_ne c.values (place n) (some v) (place m) (place_ne n m e) ∙ s.value;
            indexed = s.indexed;
          }
        ];
    indexed = h.indexed;
    listed = h.listed;
    placed = h.placed;
  }

  update_at-Acts :
      (c : LruCache File V) (m : ℕ → Option V) (line : ℕ) (z : ℤ) (v : V)
      → c.key2pos (pos line) ≡ some z
      → Acts io node_size c m
      → ((update_at c (pos line) (some v) z).0 ≡ true)
        × Acts io node_size (update_at c (pos line) (some v) z).1 (put m line (some v))
  unfolding update_at
  update_at-Acts c m line z v e h =
      let (n, at, on, key) = h.buffers.held.indexed (pos line) z e in
      let new = write c.values z (some v) in
      rw (key, eq_ℤ-self (pos line))
        (
          refl,
          record {
            order = h.order;
            current = h.current;
            buffers = record {
              held = rw at (replace-Held c (λ x. ltb x c.size) h.order n v h.buffers.held);
              file = h.buffers.file;
              reads = λ l fits.
                  let old = io.read_node h.current (l * node_size) in
                  elim (Bool-cases (line == l)) [
                    | inl e' ↦
                        let same : l ≡ line = sym ((==_iff line l).0 e') in
                        rw (e') (
                          ap (λ t. or_read t old)
                            (ap (λ t. through new (c.key2pos (pos t))) same
                              ∙ ap (through new) e
                              ∙ write_self c.values z (some v)))
                    | inr e' ↦ rw (e') (
                        ap (λ t. or_read t old)
                          (through_ne c.values z (some v) (c.key2pos (pos l)) (λ w f eq.
                            (let (k, at', on', key') = h.buffers.held.indexed (pos l) w f in
                              let same : line ≡ l =
                                pos-inj line l (sym key ∙ ap c.keys eq ∙ key') in
                              ground (arith, same, e'))))
                        ∙ h.buffers.reads l fits)
                  ];
            };
            room = h.room;
            some_room = h.some_room;
          },
        )

  module _ (file_line : V → ℤ) (keeps : Persists io node_size) where
    -- Updating a line that fits the file, and at which the memory has a node, succeeds, and makes
    -- the memory have the new node there, and nowhere else.
    pub update_node-Acts :
        (c : LruCache File V) (m : ℕ → Option V) (line : ℕ) (v w : V)
        → Fits node_size line
        → m line ≡ some w
        → Acts io node_size c m
        → ((update_node io node_size file_line c (pos line) (some v)).0 ≡ true)
          × Acts io node_size
              (update_node io node_size file_line c (pos line) (some v)).1
              (put m line (some v))
    unfolding update_node
    update_node-Acts c m line v w fits known h =
        let got = get_node-Acts io node_size file_line keeps c m line w fits known h in
        let (found, acts, place_of) = got in
        rw (found, update_node)
          (rw (place_of.1) (
            update_at-Acts (get_node io node_size file_line c (pos line)).1 m line place_of.0 v
              place_of.1 acts))

    -- The used places up to one hold in the file what the memory has.
    IsWritten : (c : LruCache File V) (m : ℕ → Option V) (f : File) (i : ℕ) → Type 0
    IsWritten c m f i =
        (n line : ℕ)
        → n < i
        → c.keys (place n) ≡ pos line
        → io.read_node f (line * node_size) ≡ m line

    flush_loop-IsWritten :
        (c : LruCache File V) (m : ℕ → Option V) (h : Acts io node_size c m) (rounds i : ℕ)
        (f : File)
        → i + rounds ≡ c.size
        → ((line : ℕ) → Fits node_size line → node_at io node_size c f line ≡ m line)
        → IsWritten c m f i
        → (g : File) × (flush_loop io node_size file_line rounds (default_num + i) c f
            ≡ some (true, g))
          × ((line : ℕ) → Fits node_size line → node_at io node_size c g line ≡ m line)
          × IsWritten c m g c.size
    unfolding flush_loop IsWritten
    flush_loop-IsWritten c m h zero i f e reads done =
        (f, refl, reads, λ n line lt key. done n line (omega arith) key)
    flush_loop-IsWritten c m h (suc rounds) i f e reads done =
        let on : ltb i c.size ≡ true = lt→ltb i c.size (omega arith) in
        let s = h.buffers.held.stored i on in
        let holds =
          stored_node io node_size c (λ x. ltb x c.size) h.order h.current m i h.buffers on in
        let g = io.write_node f (s.line * node_size) s.node in
        let after : (l : ℕ)
            → (io.read_node g (l * node_size) ≡ m l)
              ⊎ (io.read_node g (l * node_size) ≡ io.read_node f (l * node_size)) =
          λ l. elim (Bool-cases (s.line == l)) [
            | inl e' ↦
                let back = keeps f s.line l s.node in
                inl (rw e' at back ∙ holds ∙ ap m ((==_iff s.line l).0 e'))
            | inr e' ↦ let back = keeps f s.line l s.node in inr (rw e' at back)
          ] in
        let (final, ran, reads', done') =
          flush_loop-IsWritten c m h rounds (suc i) g (omega arith)
            (λ l fits.
              or_read_after (cached c (pos l)) (io.read_node f (l * node_size))
                (io.read_node g (l * node_size)) (m l) (reads l fits) (after l))
            (λ n l lt key. elim (Bool-cases (n == i)) [
              | inl e' ↦
                  let same : s.line ≡ l =
                    pos-inj s.line l
                      (sym s.key ∙ ap (λ t. c.keys (place t)) (sym ((==_iff n i).0 e')) ∙ key) in
                  let back = keeps f s.line s.line s.node in
                  let self : (s.line == s.line) ≡ true = ground arith in
                  sym (ap (λ t. io.read_node g (t * node_size)) same)
                  ∙ rw self at back
                  ∙ holds
                  ∙ ap m same
              | inr e' ↦ elim (after l) [
                | inl a ↦ a
                | inr a ↦ a ∙ done n l (ground (arith, e', lt)) key
              ]
            ]) in
        (
          final,
          rw (s.value, flush_loop)
              (rw (s.key) (
                rw ((seek_pos-Fits node_size s.line s.fits).1) (
                  let shift : suc (default_num + i) ≡ default_num + suc i = omega arith in
                  rw (shift) ran))),
          reads',
          done',
        )

    file_reads :
        (c : LruCache File V) (m : ℕ → Option V) (h : Acts io node_size c m) (g : File) (line : ℕ)
        (at : Option ℤ)
        → c.key2pos (pos line) ≡ at
        → node_at io node_size c g line ≡ m line
        → IsWritten c m g c.size
        → io.read_node g (line * node_size) ≡ m line
    unfolding IsWritten
    file_reads c m h g line none e reads done = rw e at reads
    file_reads c m h g line (some z) e reads done =
        let (n, at', on, key) = h.buffers.held.indexed (pos line) z e in
        done n line (ltb→lt n c.size on) (ap c.keys (sym at') ∙ key)

    -- Let a file be seen as the nodes last written at its lines, a write at a line changing no other,
    -- and let the cache work: its places be in order, and its nodes before those of the file be the
    -- memory `m`, which has a node or none at each line. Then flushing succeeds; afterwards the file
    -- itself has the node that the memory has, or none, at each line whose offset is below 2 ^ 31,
    -- and the cache works and still reads as the memory.
    pub flush-IsFlushed :
        (c : LruCache File V) (m : ℕ → Option V)
        → Acts io node_size c m
        → (d : LruCache File V) × (g : File) × (flush io node_size file_line c ≡ some (true, d))
          × (d.file ≡ some g)
          × ((line : ℕ) → Fits node_size line → io.read_node g (line * node_size) ≡ m line)
          × Acts io node_size d m
    unfolding flush IsWritten
    flush-IsFlushed c m h =
        let (g, ran, reads, done) =
          flush_loop-IsWritten c m h c.size 0 h.current (omega arith) h.buffers.reads
            (λ n line lt key. elim lt [ ]) in
        (
          record c { file = some g },
          g,
          rw (h.buffers.file, flush) (rw ran refl),
          refl,
          λ line fits. file_reads c m h g line (c.key2pos (pos line)) refl (reads line fits) done,
          record {
            order = h.order;
            current = g;
            buffers = record {
              held = Held-file io node_size c (λ x. ltb x c.size) h.order (some g) h.buffers.held;
              file = refl;
              reads = reads;
            };
            room = h.room;
            some_room = h.some_room;
          },
        )
