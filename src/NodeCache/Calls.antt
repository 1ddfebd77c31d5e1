-- ===== src/NodeCache/Calls.antt =====
-- Sequences of calls of the buffer of VSTree/LRUCache.cpp, and the memory that they see.
use t_rdf.Base.{
  ℕ, ◌*◌, ◌≡◌, refl, sym, ◌∙◌, ap, Bool, true, false, List, [], ◌∷◌, Option, none, some, arith,
}
use t_rdf.Base.Int.{ℤ, pos}
use t_rdf.Query.Basic.{put}
use t_rdf.NodeCache.Defs.{
  NodeIo, LruCache, create_cache, lru_cache, load_cache, create_cache, set_node, get_node,
  update_node, flush,
}
use t_rdf.NodeCache.Slots.{Fits}
use t_rdf.NodeCache.Store.{Persists}
use t_rdf.NodeCache.Swapping.{Acts}
use t_rdf.NodeCache.Memory.{set_node-Acts, get_node-Acts}
use t_rdf.NodeCache.Client.{update_node-Acts, flush-IsFlushed}

pub data Call (V : Type 0) : Type 0 where
  set : ℕ → V → Call V
  get : ℕ → Call V
  update : ℕ → V → Call V
  flush_all : Call V

pub data Reply (V : Type 0) : Type 0 where
  node : Option V → Reply V
  flag : Bool → Reply V
  fault : Reply V

module _ {File V : Type 0} (io : NodeIo File V) (node_size : ℕ) where
  module _ (file_line : V → ℤ) where
    -- The replies of the calls in order. `set` always returns false.
    unfoldable pub run : List (Call V) → LruCache File V → List (Reply V)
    run [] c = []
    run (set line v ∷ calls) c =
        flag false ∷ run calls (set_node io node_size file_line c (pos line) (some v))
    run (get line ∷ calls) c =
        let (found, d) = get_node io node_size file_line c (pos line) in node found ∷ run calls d
    run (update line v ∷ calls) c =
        let (changed, d) = update_node io node_size file_line c (pos line) (some v) in
        flag changed ∷ run calls d
    run (flush_all ∷ calls) c =
        let rest = λ (d : LruCache File V). run calls d in
        elim (flush io node_size file_line c) [
          | none ↦ fault ∷ []
          | some (flushed, d) ↦ flag flushed ∷ rest d
        ]

  -- The replies of a memory that has a node, or none, for each line.
  abbrev pub replay : List (Call V) → (ℕ → Option V) → List (Reply V)
  replay [] m = []
  replay (set line v ∷ calls) m = flag false ∷ replay calls (put m line (some v))
  replay (get line ∷ calls) m = node (m line) ∷ replay calls m
  replay (update line v ∷ calls) m = flag true ∷ replay calls (put m line (some v))
  replay (flush_all ∷ calls) m = flag true ∷ replay calls m

  abbrev pub IsThere : Option V → Type 0
  IsThere none = ⊥
  IsThere (some v) = Unit

  -- The lines of the calls fit the file, and a line that is asked for or updated has a node then: one
  -- that the memory starts with, or that an earlier call has set.
  abbrev pub AllThere : List (Call V) → (ℕ → Option V) → Type 0
  AllThere [] m = Unit {0}
  AllThere (set line v ∷ calls) m = Fits node_size line × AllThere calls (put m line (some v))
  AllThere (get line ∷ calls) m = Fits node_size line × IsThere (m line) × AllThere calls m
  AllThere (update line v ∷ calls) m =
      Fits node_size line × IsThere (m line) × AllThere calls (put m line (some v))
  AllThere (flush_all ∷ calls) m = AllThere calls m

  there : (x : Option V) → IsThere x → (w : V) × (x ≡ some w)
  there none h = absurd h
  there (some w) h = (w, refl)

  run-Acts :
      (file_line : V → ℤ) (calls : List (Call V)) (c : LruCache File V) (m : ℕ → Option V)
      → Persists io node_size
      → AllThere calls m
      → Acts io node_size c m
      → run file_line calls c ≡ replay calls m
  unfolding run
  run-Acts file_line [] c m keeps fit h = refl
  run-Acts file_line (set line v ∷ calls) c m keeps fit h =
      ap (λ r. flag false ∷ r)
        (run-Acts file_line calls (set_node io node_size file_line c (pos line) (some v))
          (put m line (some v)) keeps fit.1
          (set_node-Acts io node_size file_line keeps c m line v fit.0 h))
  run-Acts file_line (get line ∷ calls) c m keeps fit h =
      let (w, known) = there (m line) fit.1 in
      let got = get_node-Acts io node_size file_line keeps c m line w fit.0 known h in
      rw (got.0 ∙ sym known) (
        ap (λ r. node (m line) ∷ r)
          (run-Acts file_line calls (get_node io node_size file_line c (pos line)).1 m keeps fit.2
            got.1))
  run-Acts file_line (update line v ∷ calls) c m keeps fit h =
      let (w, known) = there (m line) fit.1 in
      let got = update_node-Acts io node_size file_line keeps c m line v w fit.0 known h in
      rw (got.0) (
        ap (λ r. flag true ∷ r)
          (run-Acts file_line calls (update_node io node_size file_line c (pos line) (some v)).1
            (put m line (some v)) keeps fit.2 got.1))
  run-Acts file_line (flush_all ∷ calls) c m keeps fit h =
      let (d, g, ran, at, same, acts) = flush-IsFlushed io node_size file_line keeps c m h in
      rw (ran, run) (ap (λ r. flag true ∷ r) (run-Acts file_line calls d m keeps fit acts))

  -- A new cache on a file acts as the file.
  pub lru_cache-Acts :
      (capacity : ℤ) (links : ℤ → ℤ) (nodes : ℤ → Option V) (f : File)
      → Acts io node_size
          (record (lru_cache capacity links nodes) { file = some f })
          (λ line. io.read_node f (line * node_size))
  unfolding lru_cache
  lru_cache-Acts capacity links nodes f = record {
    order = [];
    current = f;
    buffers = record {
      held = record {
        chain = (refl, refl, tt);
        apart = (((λ e. ground (arith, e)), tt), (tt, tt));
        stored = λ n on. absurd (ground (arith, on));
        indexed = λ k z e. absurd (cc (e));
        listed = λ n on. absurd (ground (arith, on));
        placed = tt;
      };
      file = refl;
      reads = λ line fits. refl;
    };
    room = omega arith;
    some_room = ground arith;
  }

  -- The nodes that a file has at its lines.
  abbrev pub nodes_of : File → ℕ → Option V
  nodes_of f line = io.read_node f (line * node_size)

  -- Let a file be seen as the nodes last written at its lines, a write at a line changing no other.
  -- Let the offsets of the lines that are called be below 2 ^ 31, and let a line that is asked for or
  -- updated be one with a node: the file that was loaded has one there, or an earlier call has set it.
  -- On a new cache of any capacity, whether it was loaded from a file or created with a new one, such
  -- a sequence of calls gets the replies of a memory that starts as the file, whatever was swapped
  -- out in between: a node that is asked for is the last one set at its line, or the one that the
  -- file had; an update and a flush succeed, and `set` returns false.
  pub new_cache_run-replay :
      (file_line : V → ℤ) (capacity : ℤ) (links : ℤ → ℤ) (nodes : ℤ → Option V) (f : File)
      (calls fresh_calls : List (Call V))
      → Persists io node_size
      → AllThere calls (nodes_of f)
      → AllThere fresh_calls (nodes_of io.new_file)
      → (run file_line calls (load_cache (lru_cache capacity links nodes) (some f)).1
          ≡ replay calls (nodes_of f))
        × (run file_line fresh_calls (create_cache io (lru_cache capacity links nodes) true).1
            ≡ replay fresh_calls (nodes_of io.new_file))
  unfolding load_cache create_cache
  new_cache_run-replay file_line capacity links nodes f calls fresh_calls keeps loaded created =
      (on_file f calls loaded, on_file io.new_file fresh_calls created)
    where
      on_file :
          (g : File) (calls : List (Call V))
          → AllThere calls (nodes_of g)
          → run file_line calls (record (lru_cache capacity links nodes) { file = some g })
            ≡ replay calls (nodes_of g)
      on_file g calls fits =
          run-Acts file_line calls (record (lru_cache capacity links nodes) { file = some g })
            (nodes_of g) keeps fits (lru_cache-Acts capacity links nodes g)
