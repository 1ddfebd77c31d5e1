-- ===== src/VsTree/Children.antt =====
-- The children of a node of VSTree/VNode.cpp: removal, refreshing, retrieval.
use t_rdf.Base.{
  ℕ, zero, suc, ◌+◌, ◌-◌, ◌≤◌, ◌<◌, ◌≡◌, ◌↔◌, refl, ap, not, ◌∙◌, ◌⊎◌, inl, inr, true, false, List,
  [], ◌∷◌, arith, lt→ltb, ◌==◌, ==_iff, if◌then◌else◌, Bool-cases,
}
use t_rdf.Base.Int.{ℤ, pos}
use t_rdf.Signature.BitSet.{BitSet, eq_bits, all_below_sound}
use t_rdf.Signature.Cover.{SigEntry, cover, cover-Covers}
use t_rdf.Query.Basic.{put}
use t_rdf.VsTree.Node.{
  Node, shift_children, remove_child, union_children, refresh_signature, covering, retrieve_child,
  retrieve_entry,
}

-- The loop of `removeChild`, on one of the arrays.
shift {ℓ} : {A : Type ℓ} → (rounds k : ℕ) → (ℕ → A) → ℕ → A
shift zero k f = f
shift (suc rounds) k f = shift rounds (suc k) (put f k (f (suc k)))

shift-below {ℓ} : {A : Type ℓ} (rounds k : ℕ) (f : ℕ → A) (j : ℕ) → j < k → shift rounds k f j ≡ f j
unfolding shift
shift-below zero k f j h = refl
shift-below (suc rounds) k f j h =
    let other : (k == j) ≡ false = ground arith in
    shift-below rounds (suc k) (put f k (f (suc k))) j (omega arith) ∙ rw other refl

shift-moved {ℓ} :
    {A : Type ℓ} (rounds k : ℕ) (f : ℕ → A) (j : ℕ)
    → k ≤ j
    → j < k + rounds
    → shift rounds k f j ≡ f (suc j)
unfolding shift
shift-moved zero k f j le lt = absurd (omega arith)
shift-moved (suc rounds) k f j le lt = elim (Bool-cases (k == j)) [
  | inl here ↦
      let e = (==_iff k j).0 here in
      shift-below rounds (suc k) (put f k (f (suc k))) j (omega arith)
      ∙ rw here (ap (λ x. f (suc x)) e)
  | inr later ↦
      let other : (k == suc j) ≡ false = ground arith in
      shift-moved rounds (suc k) (put f k (f (suc k))) j (ground arith) (omega arith)
      ∙ rw other refl
]

shift_children-shift :
    (rounds k : ℕ) (node : Node)
    → ((shift_children rounds k node).child_entries ≡ shift rounds k node.child_entries)
      × ((shift_children rounds k node).child_file_lines ≡ shift rounds k node.child_file_lines)
unfolding shift_children shift
shift_children-shift zero k node = (refl, refl)
shift_children-shift (suc rounds) k node = shift_children-shift rounds (suc k) _

-- What a removal leaves of an array of children: those before the place, and those behind it one
-- place forward.
abbrev pub Removed {ℓ} : {A : Type ℓ} → (i n : ℕ) (before after : ℕ → A) → Type ℓ
Removed i n before after =
    ((j : ℕ) → j < i → after j ≡ before j)
    × ((j : ℕ) → i ≤ j → suc j < n → after j ≡ before (suc j))

-- The removal of a child that is there leaves the entries and the file lines of the others, in
-- their order, and one child less.
pub remove_child-Removed :
    (node : Node) (i : ℕ)
    → i < node.child_num
    → ((remove_child node (pos i)).0 ≡ true)
      × (suc (remove_child node (pos i)).1.child_num ≡ node.child_num)
      × Removed i node.child_num node.child_entries (remove_child node (pos i)).1.child_entries
      × Removed i node.child_num node.child_file_lines
          (remove_child node (pos i)).1.child_file_lines
unfolding remove_child
remove_child-Removed node i h =
    let r = node.child_num - 1 - i in
    let (entries, lines) = shift_children-shift r i node in
    rw (lt→ltb i node.child_num h) (
      refl,
      omega arith,
      rw entries (
        λ j lt. shift-below r i node.child_entries j lt,
        λ j le lt. shift-moved r i node.child_entries j le (omega arith),
      ),
      rw lines (
        λ j lt. shift-below r i node.child_file_lines j lt,
        λ j le lt. shift-moved r i node.child_file_lines j le (omega arith),
      ),
    )

union_children-child :
    (n : ℕ) (entries : ℕ → SigEntry) (j i : ℕ)
    → j < n
    → (entries j).sig i ≡ true
    → union_children n entries i ≡ true
unfolding union_children
union_children-child zero entries j i lt on = absurd (omega arith)
union_children-child (suc n) entries j i lt on = elim (Bool-cases (j == n)) [
  | inl last ↦
      let e = (==_iff j n).0 last in
      let there : (entries n).sig i ≡ true = rw e at on in ground (arith, there)
  | inr before ↦ ground (arith, union_children-child n entries j i (ground arith) on)
]

-- After a refresh the entry of a node covers whatever a child of it covers, so a search that
-- passes by the node passes by no child that covers the signature.
pub refresh_signature-cover :
    (node : Node) (j : ℕ) (sig : BitSet)
    → j < node.child_num
    → cover (node.child_entries j) sig ≡ true
    → cover (refresh_signature node).entry sig ≡ true
unfolding refresh_signature eq_bits
refresh_signature-cover node j sig lt covered =
    let joined = union_children node.child_num node.child_entries in
    let old = node.entry.sig in
    let new : (i : ℕ) → i < 246 → sig i ≡ true → joined i ≡ true = λ i below on.
      union_children-child node.child_num node.child_entries j i lt
        ((cover-Covers (node.child_entries j) sig).0 covered i below on) in
    (cover-Covers (refresh_signature node).entry sig).1 (λ i below on.
      elim (Bool-cases (eq_bits 246 joined old)) [
        | inl same ↦ rw same (
            ground (
              arith,
              new i below on,
              all_below_sound 246 (λ k. if joined k then old k else not (old k)) i same below,
            ))
        | inr differ ↦ rw differ (new i below on)
      ])

module _ {A : Type 0} where
  abbrev pub Listed : A → List A → Type 0
  Listed x [] = ⊥
  Listed x (y ∷ ys) = (y ≡ x) ⊎ Listed x ys

  -- A child at one of the places, which covers the signature, is this one.
  abbrev pub IsCovering :
      (sig : BitSet) (entries : ℕ → SigEntry) (child : ℕ → A) (i n : ℕ) → A → Type 0
  IsCovering sig entries child i n x =
      (j : ℕ) × (i ≤ j) × (j < n) × (cover (entries j) sig ≡ true) × (child j ≡ x)

  covering-IsCovering :
      (sig : BitSet) (entries : ℕ → SigEntry) (child : ℕ → A) (rounds i n : ℕ) (x : A)
      → i + rounds ≡ n
      → Listed x (covering sig entries child rounds i) ↔ IsCovering sig entries child i n x
  unfolding covering
  covering-IsCovering sig entries child zero i n x e =
      (λ h. absurd h, λ h. absurd (omega (arith, h.1, h.2)))
  covering-IsCovering sig entries child (suc rounds) i n x sum =
      let (to, from) = covering-IsCovering sig entries child rounds (suc i) n x (omega arith) in
      elim (Bool-cases (cover (entries i) sig)) [
        | inl covers ↦ rw covers (
          λ h. elim h [
            | inl e ↦ (i, omega arith, omega arith, covers, e)
            | inr k ↦ let c = to k in (c.0, omega (arith, c.1), omega (arith, c.2), c.3, c.4)
          ],
          λ c. elim (Bool-cases (i == c.0)) [
            | inl here ↦ let e = (==_iff i c.0).0 here in inl (ap child e ∙ c.4)
            | inr later ↦ inr (from (c.0, ground (arith, c.1), omega (arith, c.2), c.3, c.4))
          ],
        )
        | inr misses ↦ rw misses (
          λ k. let c = to k in (c.0, omega (arith, c.1), omega (arith, c.2), c.3, c.4),
          λ c. elim (Bool-cases (i == c.0)) [
            | inl here ↦
                let e = (==_iff i c.0).0 here in
                let covers : cover (entries i) sig ≡ true = rw e c.3 in
                absurd (ground (arith, covers))
            | inr later ↦ from (c.0, ground (arith, c.1), omega (arith, c.2), c.3, c.4)
          ],
        )
      ]

-- On an inner node `retrieveChild` succeeds, and asks for exactly the children whose entries cover
-- the signature.
pub retrieve_child-IsCovering :
    (node : Node) (sig : BitSet)
    → node.is_leaf ≡ false
    → ((retrieve_child node sig).0 ≡ true)
      × ((line : ℤ)
          → Listed line (retrieve_child node sig).1
            ↔ IsCovering sig node.child_entries node.child_file_lines 0 node.child_num line)
unfolding retrieve_child
retrieve_child-IsCovering node sig inner =
    let n = node.child_num in
    rw inner (
      refl,
      λ line.
          covering-IsCovering sig node.child_entries node.child_file_lines n 0 n line (omega arith),
    )

-- On a leaf `retrieveEntry` gives exactly the entries that cover the signature, and still returns
-- false.
pub retrieve_entry-IsCovering :
    (node : Node) (sig : BitSet)
    → node.is_leaf ≡ true
    → ((retrieve_entry node sig).0 ≡ false)
      × ((entry : SigEntry)
          → Listed entry (retrieve_entry node sig).1
            ↔ IsCovering sig node.child_entries node.child_entries 0 node.child_num entry)
unfolding retrieve_entry
retrieve_entry-IsCovering node sig leaf =
    let n = node.child_num in
    rw leaf (
      refl,
      λ entry.
          covering-IsCovering sig node.child_entries node.child_entries n 0 n entry (omega arith),
    )
