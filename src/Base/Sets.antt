-- ===== src/Base/Sets.antt =====
-- Strictly ascending lists of ids, as the program stores sets, and membership in them.
use Prim.Native.Nat.{ℕ, ◌<◌, ◌≤◌}
use mathlib.Core.Path.{◌≡◌, refl}
use mathlib.Core.Bool.{Bool, false, ◌||◌}
use mathlib.Core.List.{List, [], ◌∷◌}
use native.Mathlib.Omega.{arith}
use t_rdf.Base.Tests.{◌==◌}

abbrev pub mem : ℕ → List ℕ → Bool
mem a [] = false
mem a (x ∷ xs) = (x == a) || mem a xs

-- `a` is smaller than every element.
abbrev pub IsBelow : ℕ → List ℕ → Type 0
IsBelow a [] = Unit {0}
IsBelow a (x ∷ xs) = (a < x) × IsBelow a xs

abbrev pub IsAscending : List ℕ → Type 0
IsAscending [] = Unit {0}
IsAscending (x ∷ xs) = IsBelow x xs × IsAscending xs

pub IsBelow-mono : (a b : ℕ) (xs : List ℕ) → a ≤ b → IsBelow b xs → IsBelow a xs
IsBelow-mono a b [] h k = tt
IsBelow-mono a b (x ∷ xs) h k = (omega arith, IsBelow-mono a b xs h k.1)

pub not-mem_of_IsBelow : (a b : ℕ) (xs : List ℕ) → b ≤ a → IsBelow a xs → mem b xs ≡ false
not-mem_of_IsBelow a b [] h k = refl
not-mem_of_IsBelow a b (x ∷ xs) h k = ground (arith, not-mem_of_IsBelow a b xs h k.1)
