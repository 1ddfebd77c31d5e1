-- ===== src/NodeCache/Defs.antt =====
-- `LRUCache` of VSTree/LRUCache.cpp. The arrays are functions from places, and the map `key2pos` is a
-- function from keys; a node is the value that its pointer leads to, `none` the null pointer.
-- Messages and the functions that
-- only show the sizes are left out.
use t_rdf.Base.{
  ℕ, zero, suc, ◌+◌, ◌-◌, ◌*◌, ◌%◌, ◌^◌, Bool, true, false, not, Option, none, some, ltb, ◌==◌,
  if◌then◌else◌,
}
use t_rdf.Base.Int.{ℤ, pos, negsuc, eq_ℤ}
use t_rdf.VsTree.Node.{max_child_num}

-- The files of nodes, which the system library handles, seen as the nodes last written at each
-- offset: what `fwrite` of a node at an offset leaves, the node that was written there, what is in a
-- new node after `fread` where none was, and the file that `fopen` with "wb" makes.
pub record NodeIo (File V : Type 0) : Type 0 where
  pub write_node : File → (offset : ℕ) → V → File
  pub read_node : File → (offset : ℕ) → Option V
  pub unwritten : File → (offset : ℕ) → V
  pub new_file : File

-- What a new node holds after `fread` at an offset.
abbrev pub after_fread : {File V : Type 0} → NodeIo File V → File → (offset : ℕ) → V
after_fread io f offset = elim (io.read_node f offset) [ none ↦ io.unwritten f offset | some v ↦ v ]

-- `file` is the file under `dataFilePath`, `none` if it cannot be opened.
pub record LruCache (File V : Type 0) : Type 0 where
  pub capacity : ℕ
  pub size : ℕ
  pub next : ℤ → ℤ
  pub prev : ℤ → ℤ
  pub keys : ℤ → ℤ
  pub values : ℤ → Option V
  pub key2pos : ℤ → Option ℤ
  pub file : Option File

abbrev pub default_num : ℕ
default_num = 2

abbrev pub start_index : ℤ
start_index = pos 0

abbrev pub end_index : ℤ
end_index = pos 1

abbrev pub null_index : ℤ
null_index = negsuc 0

abbrev pub default_capacity : ℕ
default_capacity = 1000000

-- An array or a map after a write.
abbrev pub write : {A : Type 0} → (ℤ → A) → ℤ → A → ℤ → A
write f i a j = if eq_ℤ i j then a else f j

-- A number as a signed integer of `w` bits.
unfoldable pub signed : (w : ℕ) → ℕ → ℤ
signed w n = let r = n % 2 ^ w in if ltb r (2 ^ (w - 1)) then pos r else negsuc (2 ^ w - 1 - r)

-- (long long)line * vNodeSize, an unsigned product of 64 bits, in a signed integer of `w` bits.
unfoldable pub seek_pos : (w node_size : ℕ) → (line : ℤ) → ℤ
unfolding signed
seek_pos w node_size (pos n) = signed w (n * node_size)
seek_pos w node_size (negsuc n) =
    signed w ((2 ^ 64 - (n * node_size + node_size) % 2 ^ 64) % 2 ^ 64)

-- The constructor. The arguments behind the first are what the new arrays hold.
unfoldable pub lru_cache :
    {File V : Type 0} (capacity : ℤ) (links : ℤ → ℤ) (nodes : ℤ → Option V) → LruCache File V
lru_cache capacity links nodes =
    let wanted : ℕ = elim capacity [
      | pos n ↦ if n == 0 then default_capacity else n
      | negsuc n ↦ default_capacity
    ] in
    record {
      capacity = if ltb wanted (max_child_num * 2000) then max_child_num * 2000 else wanted;
      size = 0;
      next = write (write links start_index end_index) end_index null_index;
      prev = write (write links start_index null_index) end_index start_index;
      keys = links;
      values = nodes;
      key2pos = λ k. none;
      file = none;
    }

module _ {File V : Type 0} where
  -- `loadCache`: the loop that would read nodes is left at once. `found` is the file under the path.
  unfoldable pub load_cache : LruCache File V → (found : Option File) → Bool × LruCache File V
  load_cache c none = (false, record c { file = none })
  load_cache c (some f) = (true, record c { file = some f })

  -- `may_open` tells whether `fopen` can make the file.
  unfoldable pub create_cache :
      NodeIo File V → LruCache File V → (may_open : Bool) → Bool × LruCache File V
  create_cache io c may_open =
      if may_open
      then (true, record c { file = some io.new_file })
      else (false, record c { file = none })

  unfoldable pub refresh : LruCache File V → ℤ → LruCache File V
  refresh c p =
      let next1 = write c.next (c.prev p) (c.next p) in
      let prev1 = write c.prev (c.next p) (c.prev p) in
      let last = prev1 end_index in
      record c {
        next = write (write next1 last p) p end_index;
        prev = write (write prev1 end_index p) p last;
      }

  -- The size is not 0 where it is decreased.
  unfoldable pub free_elem : LruCache File V → ℤ → LruCache File V
  free_elem c p = record c {
    key2pos = write c.key2pos (c.keys p) none;
    keys = write c.keys p null_index;
    next = write (write c.next (c.prev p) (c.next p)) p null_index;
    prev = write (write c.prev (c.next p) (c.prev p)) p null_index;
    size = c.size - 1;
  }

  unfoldable pub set_elem : LruCache File V → ℤ → ℤ → Option V → LruCache File V
  set_elem c p key value =
      let last = c.prev end_index in
      record c {
        key2pos = write c.key2pos key (some p);
        keys = write c.keys p key;
        values = write c.values p value;
        next = write (write c.next last p) p end_index;
        prev = write (write c.prev end_index p) p last;
        size = c.size + 1;
      }

  -- The place behind the used ones.
  abbrev pub free_place : LruCache File V → ℤ
  free_place c = pos (default_num + c.size)

  -- The end of `update`, behind the look up of the place.
  unfoldable pub update_at : LruCache File V → ℤ → Option V → ℤ → Bool × LruCache File V
  update_at c key value p =
      if not (eq_ℤ (c.keys p) key)
      then (false, c)
      else (true, record c { values = write c.values p value })

  module _ (io : NodeIo File V) (node_size : ℕ) (file_line : V → ℤ) where
    -- The line is that of the node if it is given as -1; `fseek` fails before the start of a file.
    unfoldable pub write_out : LruCache File V → ℤ → (line : ℤ) → Bool × LruCache File V
    write_out c p line = elim (c.values p) [
      | none ↦ (false, c)
      | some node ↦ elim c.file [
        | none ↦ (false, c)
        | some f ↦
            let at = if eq_ℤ line (negsuc 0) then file_line node else line in
            elim (seek_pos 32 node_size at) [
              | pos offset ↦ (true, record c { file = some (io.write_node f offset node) })
              | negsuc n ↦ (false, c)
            ]
      ]
    ]

    unfoldable pub read_in : LruCache File V → ℤ → (line : ℤ) → Bool × LruCache File V
    unfolding set_elem
    read_in c p line = elim c.file [
      | none ↦ (false, c)
      | some f ↦ elim (seek_pos 64 node_size line) [
        | pos offset ↦ (true, set_elem c p line (some (after_fread io f offset)))
        | negsuc n ↦ (false, c)
      ]
    ]

    -- The node that has been in the cache longest is written to the file and leaves the cache.
    unfoldable pub swap_out : LruCache File V → LruCache File V
    unfolding write_out free_elem
    swap_out c = let p = c.next start_index in free_elem (write_out c p (c.keys p)).1 p

    -- The result of `set` is false on every branch.
    unfoldable pub set_node : LruCache File V → ℤ → Option V → LruCache File V
    unfolding set_elem free_elem swap_out
    set_node c key value = elim (c.key2pos key) [
      | some p ↦ set_elem (free_elem c p) p key value
      | none ↦
          if ltb c.size c.capacity
          then set_elem c (free_place c) key value
          else set_elem (swap_out c) (c.next start_index) key value
    ]

    -- The node that is read at a place, if reading succeeds.
    unfoldable pub get_read : LruCache File V → ℤ → (line : ℤ) → Option V × LruCache File V
    unfolding read_in
    get_read c p line =
        let (done, c') = read_in c p line in if done then (c'.values p, c') else (none, c')

    unfoldable pub get_node : LruCache File V → ℤ → Option V × LruCache File V
    unfolding get_read swap_out
    get_node c key = elim (c.key2pos key) [
      | some p ↦ (c.values p, c)
      | none ↦
          if ltb c.size c.capacity
          then get_read c (free_place c) key
          else get_read (swap_out c) (c.next start_index) key
    ]

    -- `key2pos[_key]` has the value 0 for a key without one, and then keeps it.
    unfoldable pub update_node : LruCache File V → ℤ → Option V → Bool × LruCache File V
    unfolding get_node update_at
    update_node c key value =
        let (found, c') = get_node c key in
        elim found [
          | none ↦ (false, c')
          | some old ↦ elim (c'.key2pos key) [
            | some p ↦ update_at c' key value p
            | none ↦
                update_at (record c' { key2pos = write c'.key2pos key (some (pos 0)) }) key value
                  (pos 0)
          ]
        ]

    -- The loop of `flush` from a place on; a null pointer is read through before it is tested, which
    -- is the result `none`.
    unfoldable pub flush_loop : (rounds i : ℕ) → LruCache File V → File → Option (Bool × File)
    flush_loop zero i c f = some (true, f)
    flush_loop (suc rounds) i c f =
        let rest = λ (g : File). flush_loop rounds (suc i) c g in
        elim (c.values (pos i)) [
          | none ↦ none
          | some node ↦ elim (seek_pos 64 node_size (c.keys (pos i))) [
            | pos offset ↦ rest (io.write_node f offset node)
            | negsuc n ↦ some (false, f)
          ]
        ]

    unfoldable pub flush : LruCache File V → Option (Bool × LruCache File V)
    unfolding flush_loop
    flush c = elim c.file [
      | none ↦ some (false, c)
      | some f ↦ elim (flush_loop c.size default_num c f) [
        | none ↦ none
        | some (flushed, g) ↦ some (flushed, record c { file = some g })
      ]
    ]
