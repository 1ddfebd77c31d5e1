-- ===== src/KvStore/Memory.antt =====
-- The arrays on the free store that KVstore/HashMap.h owns and hands out: `new`, `delete[]`, and
-- the struct `IntVec`. An address is a number, and 0 is the null pointer.
use t_rdf.Base.{ℕ, suc, Option, none, some, List, ◌==◌, if◌then◌else◌, take}

abbrev pub null : ℕ
null = 0

-- The allocated arrays. `next` is the address that the next `new` returns, one never used before.
pub record Memory : Type 0 where
  pub blocks : ℕ → Option (List ℕ)
  pub next : ℕ

pub data Fault : Type 0 where
  delete_of_deleted read_of_deleted read_outside assertion_failed : Fault

pub data Outcome {ℓ} (A : Type ℓ) : Type ℓ where
  ok : A → Memory → Outcome A
  fault : Fault → Outcome A

abbrev pub Cmd : Type 0 → Type 0
Cmd A = Memory → Outcome A

infixl 5 ◌>>=◌ ◌>>◌
abbrev pub ◌>>=◌ : {A B : Type 0} → Cmd A → (A → Cmd B) → Cmd B
◌>>=◌ m f h = elim (m h) [ ok a g ↦ f a g | fault e ↦ fault e ]

abbrev pub ◌>>◌ : {B : Type 0} → Cmd (Unit {0}) → Cmd B → Cmd B
m >> k = m >>= λ _. k

abbrev pub pure : {A : Type 0} → A → Cmd A
pure a m = ok a m

abbrev pub write : (ℕ → Option (List ℕ)) → ℕ → Option (List ℕ) → ℕ → Option (List ℕ)
write blocks p b q = if p == q then b else blocks q

-- `new int[n]`, filled with the values that are written to it next.
unfoldable pub allocate : List ℕ → Cmd ℕ
allocate xs m = ok m.next (record { blocks = write m.blocks m.next (some xs); next = suc m.next })

-- `delete[] p`
unfoldable pub delete : ℕ → Cmd (Unit {0})
delete p m =
    let freed : Outcome (Unit {0}) = elim (m.blocks p) [
      | none ↦ fault delete_of_deleted
      | some xs ↦ ok tt (record m { blocks = write m.blocks p none })
    ] in
    if p == null then ok tt m else freed

-- The first `n` elements at `p`.
unfoldable pub load : (p n : ℕ) → Cmd (List ℕ)
load p n m = elim (m.blocks p) [ none ↦ fault read_of_deleted | some xs ↦ ok (take n xs) m ]

-- An element at a time is written into the array at `p`.
unfoldable pub store : (p : ℕ) → List ℕ → Cmd (Unit {0})
store p xs m = elim (m.blocks p) [
  | none ↦ fault read_of_deleted
  | some ys ↦ ok tt (record m { blocks = write m.blocks p (some xs) })
]

-- An argument pair of a pointer and a length, and what it points at.
abbrev pub Array : Type 0
Array = record { vec : ℕ; len : ℕ }

unfoldable pub contents : Array → Cmd (Option (List ℕ))
contents a =
    let loaded = load a.vec a.len >>= λ xs. pure (some xs) in
    if a.vec == null then pure none else loaded

-- `IntVec::copy(int*, int)`: what the struct holds afterwards.
unfoldable pub copy : (old new : Array) → Cmd Array
copy old new =
    let copied : Cmd Array = (do
      delete old.vec
      xs ← load new.vec new.len
      q ← allocate xs
      pure (record { vec = q; len = new.len })) in
    if new.vec == null then (λ m. fault assertion_failed) else copied
