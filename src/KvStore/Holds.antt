-- ===== src/KvStore/Holds.antt =====
-- What arrays on the free store hold, around `new`, `delete[]` and `IntVec::copy`.
use t_rdf.Base.{
  ℕ, suc, ◌<◌, ◌≡◌, refl, ◌≢◌, Bool, true, false, Option, none, some, List, arith, ◌==◌, length,
  take-all,
}
use t_rdf.Base.Run.{Run, done}
use t_rdf.KvStore.Memory.{
  null, Memory, ok, fault, delete_of_deleted, Array, ◌>>=◌, write, allocate, delete, load, contents,
  copy,
}
use t_rdf.KvStore.Update.{insert_at}

-- The array is allocated, and holds the list.
pub record Holds (m : Memory) (v : Array) (xs : List ℕ) : Type 0 where
  pub not_null : (v.vec == null) ≡ false
  pub allocated : m.blocks v.vec ≡ some xs
  pub length_ok : v.len ≡ length xs
  pub used : v.vec < m.next

abbrev pub freed : Memory → ℕ → Memory
freed m p = record m { blocks = write m.blocks p none }

abbrev pub grown : Memory → List ℕ → Memory
grown m xs = record { blocks = write m.blocks m.next (some xs); next = suc m.next }

pub allocate-grown : (m : Memory) (xs : List ℕ) → allocate xs m ≡ ok m.next (grown m xs)
unfolding allocate
allocate-grown m xs = refl

pub delete-none :
    (m : Memory) (p : ℕ)
    → (p == null) ≡ false
    → m.blocks p ≡ none
    → delete p m ≡ fault delete_of_deleted
unfolding delete
delete-none m p h k = ground arith

-- An array survives `new`, and `delete[]` of another.
pub Holds-grown : (m : Memory) (v : Array) (xs ys : List ℕ) → Holds m v xs → Holds (grown m ys) v xs
Holds-grown m v xs ys h = record {
  not_null = h.not_null;
  allocated = ground (arith, h.allocated, h.used);
  length_ok = h.length_ok;
  used = omega (arith, h.used);
}

pub Holds-freed :
    (m : Memory) (v : Array) (xs : List ℕ) (p : ℕ)
    → p ≢ v.vec
    → Holds m v xs
    → Holds (freed m p) v xs
Holds-freed m v xs p ne h = record {
  not_null = h.not_null;
  allocated = ground (arith, h.allocated);
  length_ok = h.length_ok;
  used = h.used;
}

-- `new` gives an array that holds what is written to it.
pub Holds-new :
    (m : Memory) (n : ℕ) (xs : List ℕ)
    → 0 < m.next
    → n ≡ length xs
    → Holds (grown m xs) (record { vec = m.next; len = n }) xs
Holds-new m n xs pos e = record {
  not_null = ground arith;
  allocated = ground arith;
  length_ok = e;
  used = omega arith;
}

module _ (m : Memory) (v : Array) (xs : List ℕ) (h : Holds m v xs) where
  pub load-Holds : load v.vec v.len m ≡ ok xs m
  unfolding load
  load-Holds = rw (h.allocated, load) (rw (h.length_ok, take-all xs))

  pub contents-Holds : contents v m ≡ ok (some xs) m
  unfolding contents
  contents-Holds = rw h.not_null (rw (load-Holds, ◌>>=◌))

  pub delete-Holds : delete v.vec m ≡ ok tt (freed m v.vec)
  unfolding delete
  delete-Holds = rw (h.not_null, h.allocated, delete)

-- An insertion allocates the new array and deletes the old one.
pub insert_at-Holds :
    (m : Memory) (v : Array) (xs ys : List ℕ) (change : Option (List ℕ) → Run (Bool × List ℕ))
    → Holds m v xs
    → change (some xs) ≡ done (true, ys)
    → insert_at change v m
      ≡ ok (true, record { vec = m.next; len = length ys }) (freed (grown m ys) v.vec)
unfolding insert_at
insert_at-Holds m v xs ys change h e =
    let deleted = delete-Holds (grown m ys) v xs (Holds-grown m v xs ys h) in
    rw (contents-Holds m v xs h, ◌>>=◌)
      (rw e (rw (allocate-grown m ys, ◌>>=◌) (rw (deleted, ◌>>=◌))))

pub copy-Holds :
    (m : Memory) (old new : Array) (xs ys : List ℕ)
    → Holds m old xs
    → Holds m new ys
    → old.vec ≢ new.vec
    → copy old new m ≡ ok (record { vec = m.next; len = new.len }) (grown (freed m old.vec) ys)
unfolding copy
copy-Holds m old new xs ys h k ne =
    let deleted = delete-Holds m old xs h in
    let loaded = load-Holds (freed m old.vec) new ys (Holds-freed m new ys old.vec ne k) in
    rw (k.not_null, deleted, ◌>>=◌)
      (rw (loaded, ◌>>=◌) (rw (allocate-grown (freed m old.vec) ys, ◌>>=◌)))

-- The map keeps its array, so the second `delete[]` of it fails.
pub copy-deleted :
    (m : Memory) (old new : Array)
    → (new.vec == null) ≡ false
    → (old.vec == null) ≡ false
    → m.blocks old.vec ≡ none
    → copy old new m ≡ fault delete_of_deleted
unfolding copy
copy-deleted m old new h k e = rw (h, delete-none m old.vec k e, ◌>>=◌)
