-- ===== src/Base/Run.antt =====
-- Code that reads arrays and loops: a run ends with a result, reads outside its array, or has
-- used up the fuel of its loops.
use Prim.Native.Nat.{ℕ, ◌<◌}
use mathlib.Core.Path.{◌≡◌, refl}
use mathlib.Core.List.{List}
use mathlib.Core.Option.{none, some}
use t_rdf.Base.Lists.{length, get_elem?, get_or, get_elem?-eq-get_or}

pub data Run {ℓ} (A : Type ℓ) : Type ℓ where
  done : A → Run A
  out_of_bounds : Run A
  out_of_fuel : Run A

infixl 5 ◌>>=◌
abbrev pub ◌>>=◌ {ℓ κ} : {A : Type ℓ} {B : Type κ} → Run A → (A → Run B) → Run B
done a >>= f = f a
out_of_bounds >>= f = out_of_bounds
out_of_fuel >>= f = out_of_fuel

-- The run ends with a result, and the result satisfies `P`.
abbrev pub Returns {ℓ} : {A : Type ℓ} → Run A → (A → Type 0) → Type 0
Returns (done a) P = P a
Returns out_of_bounds P = ⊥
Returns out_of_fuel P = ⊥

-- `array[i]`
unfoldable pub read : List ℕ → ℕ → Run ℕ
read xs i = elim (get_elem? xs i) [ none ↦ out_of_bounds | some v ↦ done v ]

pub read-get_or : (xs : List ℕ) (i : ℕ) → i < length xs → read xs i ≡ done (get_or xs i 0)
unfolding read
read-get_or xs i h = rw (get_elem?-eq-get_or xs i 0 h, read)

-- What a run returns, its continuation starts from.
pub Returns-bind :
    {A B : Type 0} (P : A → Type 0) (Q : B → Type 0) (r : Run A) (f : A → Run B)
    → Returns r P
    → ((a : A) → P a → Returns (f a) Q)
    → Returns (r >>= f) Q
Returns-bind P Q (done a) f h k = k a h
Returns-bind P Q out_of_bounds f h k = h
Returns-bind P Q out_of_fuel f h k = h

pub Returns-mono :
    {A : Type 0} (P Q : A → Type 0) (r : Run A) → Returns r P → ((a : A) → P a → Q a) → Returns r Q
Returns-mono P Q (done a) h k = k a h
Returns-mono P Q out_of_bounds h k = h
Returns-mono P Q out_of_fuel h k = h

pub bind_assoc {ℓ κ μ} :
    {A : Type ℓ} {B : Type κ} {C : Type μ} (r : Run A) (f : A → Run B) (g : B → Run C)
    → ((r >>= f) >>= g) ≡ (r >>= λ a. f a >>= g)
bind_assoc (done a) f g = refl
bind_assoc out_of_bounds f g = refl
bind_assoc out_of_fuel f g = refl

-- If the run ends with a result, it satisfies `P`.
abbrev pub Yields {ℓ} : {A : Type ℓ} → Run A → (A → Type 0) → Type 0
Yields (done a) P = P a
Yields out_of_bounds P = Unit
Yields out_of_fuel P = Unit

pub Yields-bind :
    {A B : Type 0} (P : A → Type 0) (Q : B → Type 0) (r : Run A) (f : A → Run B)
    → Yields r P
    → ((a : A) → P a → Yields (f a) Q)
    → Yields (r >>= f) Q
Yields-bind P Q (done a) f h k = k a h
Yields-bind P Q out_of_bounds f h k = tt
Yields-bind P Q out_of_fuel f h k = tt

pub bind_congr :
    {A B : Type 0} (P : A → Type 0) (r : Run A) (f g : A → Run B)
    → Yields r P
    → ((a : A) → P a → f a ≡ g a)
    → (r >>= f) ≡ (r >>= g)
bind_congr P (done a) f g h k = k a h
bind_congr P out_of_bounds f g h k = refl
bind_congr P out_of_fuel f g h k = refl

pub Yields-any : {A : Type 0} (r : Run A) → Yields r (λ a. Unit {0})
Yields-any (done a) = tt
Yields-any out_of_bounds = tt
Yields-any out_of_fuel = tt

pub Yields-mono :
    {A : Type 0} (P Q : A → Type 0) (r : Run A) → Yields r P → ((a : A) → P a → Q a) → Yields r Q
Yields-mono P Q (done a) h k = k a h
Yields-mono P Q out_of_bounds h k = tt
Yields-mono P Q out_of_fuel h k = tt
