-- ===== src/NodeCache/Store.antt =====
-- `LRUCache` of VSTree/LRUCache.cpp as a memory: the cached nodes in front of the file.
use t_rdf.Base.{
  ℕ, ◌*◌, ◌≡◌, ◌≢◌, refl, sym, ap, ◌∙◌, inl, inr, Bool, true, false, List, [], ◌∷◌, ◌++◌, Option,
  none, some, arith, ◌==◌, ==_iff, Bool-cases, if◌then◌else◌,
}
use mathlib.Core.Path.{fun_ext, subst}
use t_rdf.Base.Int.{ℤ, pos}
use t_rdf.Query.Basic.{put}
use t_rdf.NodeCache.Defs.{NodeIo, LruCache, write, set_elem, free_elem, write_out, seek_pos, signed}
use t_rdf.NodeCache.Links.{write_self, write_ne}
use t_rdf.NodeCache.Elem.{set_elem-Held, free_elem-Held}
use t_rdf.NodeCache.Slots.{place, with_place, without_place, Fits, Held}

pub seek_pos-Fits :
    (node_size line : ℕ)
    → Fits node_size line
    → (seek_pos 32 node_size (pos line) ≡ pos (line * node_size))
      × (seek_pos 64 node_size (pos line) ≡ pos (line * node_size))
unfolding seek_pos signed
seek_pos-Fits node_size line h = (ground arith, ground arith)

module _ {V : Type 0} where
  abbrev pub through : (ℤ → Option V) → Option ℤ → Option V
  through values none = none
  through values (some z) = values z

  pub through_ne :
      (values : ℤ → Option V) (p : ℤ) (v : Option V) (at : Option ℤ)
      → ((z : ℤ) → at ≡ some z → p ≢ z)
      → through (write values p v) at ≡ through values at
  through_ne values p v none h = refl
  through_ne values p v (some z) h = write_ne values p v z (h z refl)

  abbrev pub or_read : Option V → Option V → Option V
  or_read none v = v
  or_read (some w) v = some w

module _ {File V : Type 0} where
  abbrev pub cached : LruCache File V → ℤ → Option V
  cached c k = through c.values (c.key2pos k)

  module _ (io : NodeIo File V) (node_size : ℕ) where
    -- A node that is written to a line is then the one last written there, and the other lines have
    -- the nodes that they had.
    abbrev pub Persists : Type 0
    Persists =
        (f : File) (a b : ℕ) (v : V)
        → io.read_node (io.write_node f (a * node_size) v) (b * node_size)
          ≡ (if a == b then some v else io.read_node f (b * node_size))

    -- The node of a line: the cached one, or else the one that was written to the file, if any.
    abbrev pub node_at : LruCache File V → File → ℕ → Option V
    node_at c f line = or_read (cached c (pos line)) (io.read_node f (line * node_size))

    -- The used places are in order, and the cache before the file reads as a memory.
    pub record Buffers (c : LruCache File V) (used : ℕ → Bool) (order : List ℤ) (f : File)
        (m : ℕ → Option V) : Type 0 where
      pub held : Held node_size c used order
      pub file : c.file ≡ some f
      pub reads : (line : ℕ) → Fits node_size line → node_at c f line ≡ m line

    pub Buffers-ext :
        (c : LruCache File V) (used used' : ℕ → Bool) (order : List ℤ) (f : File)
        (m m' : ℕ → Option V)
        → ((n : ℕ) → used n ≡ used' n)
        → ((line : ℕ) → m line ≡ m' line)
        → Buffers c used order f m
        → Buffers c used' order f m'
    Buffers-ext c used used' order f m m' e g b = record {
      held = subst (λ u. Held node_size c u order) (fun_ext e) b.held;
      file = b.file;
      reads = λ line fits. b.reads line fits ∙ g line;
    }

    -- A used place holds what the memory has at its line.
    pub stored_node :
        (c : LruCache File V) (used : ℕ → Bool) (order : List ℤ) (f : File) (m : ℕ → Option V)
        (n : ℕ) (b : Buffers c used order f m)
        → (on : used n ≡ true) → some (b.held.stored n on).node ≡ m (b.held.stored n on).line
    stored_node c used order f m n b on =
        let s = b.held.stored n on in
        let shown : node_at c f s.line ≡ some s.node = rw (s.indexed, s.value) refl in
        sym shown ∙ b.reads s.line s.fits

    -- A write to an unused place does not show in what is cached.
    through_unused :
        (c : LruCache File V) (used : ℕ → Bool) (order : List ℤ) (n : ℕ) (v : Option V) (k : ℤ)
        → used n ≡ false
        → Held node_size c used order
        → through (write c.values (place n) v) (c.key2pos k) ≡ cached c k
    through_unused c used order n v k off h =
        through_ne c.values (place n) v (c.key2pos k) (λ z e same.
          (let (m, at, on, key) = h.indexed k z e in
            let eq : n ≡ m = ground (arith, same ∙ at) in
            let on' = rw (sym eq) at on in cc (off, on')))

    pub set_elem-Buffers :
        (c : LruCache File V) (used : ℕ → Bool) (order : List ℤ) (f : File) (m : ℕ → Option V)
        (n line : ℕ) (v : V)
        → used n ≡ false
        → c.key2pos (pos line) ≡ none
        → Fits node_size line
        → Buffers c used order f m
        → Buffers
            (set_elem c (place n) (pos line) (some v))
            (with_place used n)
            (order ++ place n ∷ [])
            f
            (put m line (some v))
    unfolding set_elem
    set_elem-Buffers c used order f m n line v off absent fits b = record {
      held = set_elem-Held node_size c used order n line v off absent fits b.held;
      file = b.file;
      reads = λ l fits'. elim (Bool-cases (line == l)) [
        | inl e ↦ rw (e) (
            ap (λ t. or_read t (io.read_node f (l * node_size)))
              (write_self c.values (place n) (some v)))
        | inr e ↦ rw (e) (
            ap (λ t. or_read t (io.read_node f (l * node_size)))
              (through_unused c used order n (some v) (pos l) off b.held)
            ∙ b.reads l fits')
      ];
    }

    -- What leaves the cache is read from the file again.
    pub free_elem-Buffers :
        (c : LruCache File V) (used : ℕ → Bool) (xs ys : List ℤ) (f : File) (m : ℕ → Option V)
        (n line : ℕ)
        → used n ≡ true
        → c.keys (place n) ≡ pos line
        → Buffers c used (xs ++ place n ∷ ys) f m
        → Buffers
            (free_elem c (place n))
            (without_place used n)
            (xs ++ ys)
            f
            (put m line (io.read_node f (line * node_size)))
          × ((free_elem c (place n)).key2pos (pos line) ≡ none)
    unfolding free_elem
    free_elem-Buffers c used xs ys f m n line on key b = (
      record {
        held = free_elem-Held node_size c used xs ys n on b.held;
        file = b.file;
        reads = λ l fits'. rw key (elim (Bool-cases (line == l)) [
          | inl e ↦ rw (e) (ap (λ t. io.read_node f (t * node_size)) (sym ((==_iff line l).0 e)))
          | inr e ↦ rw (e) (b.reads l fits')
        ]);
      },
      rw key (write_self c.key2pos (pos line) none),
    )

    pub Held-file :
        (c : LruCache File V) (used : ℕ → Bool) (order : List ℤ) (g : Option File)
        → Held node_size c used order
        → Held node_size (record c { file = g }) used order
    Held-file c used order g h = record {
      chain = h.chain;
      apart = h.apart;
      stored = λ n on.
          let s = h.stored n on in
          record {
            line = s.line;
            fits = s.fits;
            key = s.key;
            node = s.node;
            value = s.value;
            indexed = s.indexed;
          };
      indexed = h.indexed;
      listed = h.listed;
      placed = h.placed;
    }

    -- Writing a cached node out changes nothing that is read.
    pub write_out-Buffers :
        (file_line : V → ℤ) (c : LruCache File V) (used : ℕ → Bool) (order : List ℤ) (f : File)
        (m : ℕ → Option V) (n : ℕ)
        → Persists
        → used n ≡ true
        → Buffers c used order f m
        → (g : File) × (line : ℕ) × (c.keys (place n) ≡ pos line)
          × (write_out io node_size file_line c (place n) (c.keys (place n))
              ≡ (true, record c { file = some g }))
          × Buffers (record c { file = some g }) used order g m
          × (io.read_node g (line * node_size) ≡ m line)
    unfolding write_out
    write_out-Buffers file_line c used order f m n keeps on b =
        let s = b.held.stored n on in
        let g = io.write_node f (s.line * node_size) s.node in
        let back = keeps f s.line s.line s.node in
        let same : (s.line == s.line) ≡ true = ground arith in
        let holds = stored_node c used order f m n b on in
        (
          g,
          s.line,
          s.key,
          rw (s.value, write_out)
              (rw (b.file) (rw (s.key) (rw ((seek_pos-Fits node_size s.line s.fits).0) refl))),
          record {
            held = Held-file c used order (some g) b.held;
            file = refl;
            reads = λ l fits. elim (Bool-cases (s.line == l)) [
              | inl e ↦
                  let at : s.line ≡ l = (==_iff s.line l).0 e in
                  let shown : cached c (pos s.line) ≡ some s.node = rw (s.indexed, s.value) refl in
                  rw (sym at) (rw (shown) holds)
              | inr e ↦
                  ap (or_read (cached c (pos l))) (let out = keeps f s.line l s.node in rw e at out)
                  ∙ b.reads l fits
            ];
          },
          rw same at back ∙ holds,
        )
