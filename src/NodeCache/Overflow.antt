-- ===== src/NodeCache/Overflow.antt =====
-- The int that `writeOut` of VSTree/LRUCache.cpp seeks to, for lines whose offset it cannot hold.
use t_rdf.Base.{
  ℕ, ◌*◌, ◌-◌, inl, inr, Option-cases, ◌<◌, ◌≤◌, ◌^◌, ◌≡◌, sym, ◌∙◌, refl, ap, false, none, arith,
}
use t_rdf.Base.Int.{ℤ, pos, negsuc}
use t_rdf.NodeCache.Defs.{
  NodeIo, LruCache, write, start_index, write_out, free_elem, swap_out, seek_pos, signed,
}
use t_rdf.NodeCache.Links.{write_self}

seek_pos_negative :
    (node_size line : ℕ)
    → 2 ^ 31 ≤ line * node_size
    → line * node_size < 2 ^ 32
    → (n : ℕ) × (seek_pos 32 node_size (pos line) ≡ negsuc n)
unfolding seek_pos signed
seek_pos_negative node_size line h k = (2 ^ 32 - 1 - line * node_size, ground arith)

module _ {File V : Type 0} (io : NodeIo File V) (node_size : ℕ) (file_line : V → ℤ) where
  write_out_overflow :
      (c : LruCache File V) (p : ℤ) (line : ℕ)
      → 2 ^ 31 ≤ line * node_size
      → line * node_size < 2 ^ 32
      → write_out io node_size file_line c p (pos line) ≡ (false, c)
  unfolding write_out
  write_out_overflow c p line h k = elim (Option-cases (c.values p)) [
    | inr e ↦ rw (e, write_out) refl
    | inl (v, e) ↦ elim (Option-cases c.file) [
      | inr e' ↦ rw (e, write_out) (rw e' (λ i. (false, record c { file = e' i })))
      | inl (f, e') ↦
          let (n, back) = seek_pos_negative node_size line h k in
          rw (e, write_out) (rw e' (rw back (λ i. (false, record c { file = e' i }))))
    ]
  ]

  -- If the offset of the first line of the list is at least 2 ^ 31 and below 2 ^ 32, then swapping
  -- it out leaves the file as it is, although the line leaves the cache: its changes are lost.
  pub swap_out_overflow :
      (c : LruCache File V) (line : ℕ)
      → c.keys (c.next start_index) ≡ pos line
      → 2 ^ 31 ≤ line * node_size
      → line * node_size < 2 ^ 32
      → ((swap_out io node_size file_line c).file ≡ c.file)
        × ((swap_out io node_size file_line c).key2pos (pos line) ≡ none)
  unfolding swap_out free_elem
  swap_out_overflow c line key h k =
      rw (key, write_out_overflow c (c.next start_index) line h k)
        (
          refl,
          ap (write c.key2pos (c.keys (c.next start_index)) none) (sym key)
              ∙ write_self c.key2pos (c.keys (c.next start_index)) none,
        )
