-- ===== src/KvStore/Lists.antt =====
-- The list updates of KVstore/KVstore.cpp. An array argument is `none` for the null pointer; its
-- length is the one passed with it. What is returned is the flag and the array afterwards.
use mathlib.Core.Option
use t_rdf.Base.{
  ℕ, ◌-◌, Bool, true, false, ◌&&◌, ◌||◌, Option, none, some, List, [], ◌∷◌, ◌++◌, ltb, ◌==◌,
  if◌then◌else◌, length,
}
use t_rdf.Base.Sets.{mem}
use t_rdf.Base.Run.{Run, done, out_of_bounds, ◌>>=◌}

-- What the `while` loop of `insert_x` writes behind the first element. `previous` is
-- `_xlist[i-1]`, and the list is what starts at `_xlist[i]`.
unfoldable pub insert_x_loop : (x previous : ℕ) → List ℕ → List ℕ
insert_x_loop x previous [] = []
insert_x_loop x previous (current ∷ rest) =
    let copied = current ∷ insert_x_loop x current rest in
    if ltb previous x && ltb x current then x ∷ copied else copied

-- The new array, for an array that is not null. An empty one has no `_xlist[0]`.
unfoldable pub insert_x_array : List ℕ → ℕ → Run (List ℕ)
unfolding insert_x_loop
insert_x_array [] x = out_of_bounds
insert_x_array (head ∷ rest) x =
    let written = head ∷ insert_x_loop x head rest in
    let tail = if length written == length (head ∷ rest) then x ∷ [] else [] in
    if ltb x head then done (x ∷ head ∷ rest) else done (written ++ tail)

unfoldable pub insert_x : Option (List ℕ) → ℕ → Run (Bool × List ℕ)
unfolding insert_x_array
insert_x none x = done (true, x ∷ [])
insert_x (some xs) x =
    let inserted = insert_x_array xs x >>= λ ys. done (true, ys) in
    if mem x xs then done (false, xs) else inserted

-- The duplicate check of `insert_xy` over a flattened list of pairs.
unfoldable pub has_xy : List ℕ → (x y : ℕ) → Run Bool
has_xy [] x y = done false
has_xy (a ∷ []) x y = if a == x then out_of_bounds else done false
has_xy (a ∷ b ∷ rest) x y =
    let later = has_xy rest x y in if a == x && b == y then done true else later

abbrev pub lt_xy : (a b c d : ℕ) → Bool
lt_xy a b c d = ltb a c || (a == c && ltb b d)

unfoldable pub insert_xy_loop : (x y a b : ℕ) → List ℕ → Run (List ℕ)
insert_xy_loop x y a b [] = done []
insert_xy_loop x y a b (c ∷ []) = out_of_bounds
insert_xy_loop x y a b (c ∷ d ∷ rest) = do
  written ← insert_xy_loop x y c d rest
  let copied = c ∷ d ∷ written
  done (if lt_xy a b x y && lt_xy x y c d then x ∷ y ∷ copied else copied)

unfoldable pub insert_xy_array : List ℕ → (x y : ℕ) → Run (List ℕ)
unfolding insert_xy_loop
insert_xy_array [] x y = out_of_bounds
insert_xy_array (a ∷ []) x y = out_of_bounds
insert_xy_array (a ∷ b ∷ rest) x y =
    let body = insert_xy_loop x y a b rest >>= λ more.
    let written = a ∷ b ∷ more in
    let tail = if length written == length (a ∷ b ∷ rest) then x ∷ y ∷ [] else [] in
    done (written ++ tail) in
    if lt_xy x y a b then done (x ∷ y ∷ a ∷ b ∷ rest) else body

unfoldable pub insert_xy : Option (List ℕ) → (x y : ℕ) → Run (Bool × List ℕ)
unfolding has_xy insert_xy_array
insert_xy none x y = done (true, x ∷ y ∷ [])
insert_xy (some xs) x y = do
  found ← has_xy xs x y
  let inserted = insert_xy_array xs x y >>= λ ys. done (true, ys)
  if found then done (false, xs) else inserted

-- The array after the elements behind the first `x` have moved one place forward; its last
-- place is 0.
unfoldable pub remove_x_array : List ℕ → ℕ → Option (List ℕ)
remove_x_array [] x = none
remove_x_array (y ∷ ys) x =
    let later = Option.map (λ zs. y ∷ zs) (remove_x_array ys x) in
    if y == x then some (ys ++ 0 ∷ []) else later

-- The flag, the array and the new length.
unfoldable pub remove_x : List ℕ → ℕ → Bool × List ℕ × ℕ
unfolding remove_x_array
remove_x xs x = elim (remove_x_array xs x) [
  | none ↦ (false, xs, length xs)
  | some ys ↦ (true, ys, length xs - 1)
]

unfoldable pub remove_xy_array : List ℕ → (x y : ℕ) → Run (Option (List ℕ))
remove_xy_array [] x y = done none
remove_xy_array (a ∷ []) x y = if a == x then out_of_bounds else done none
remove_xy_array (a ∷ b ∷ rest) x y = do
  later ← remove_xy_array rest x y
  let kept = Option.map (λ zs. a ∷ b ∷ zs) later
  done (if a == x && b == y then some (rest ++ 0 ∷ 0 ∷ []) else kept)

unfoldable pub remove_xy : List ℕ → (x y : ℕ) → Run (Bool × List ℕ × ℕ)
unfolding remove_xy_array
remove_xy xs x y = do
  found ← remove_xy_array xs x y
  done (elim found [ none ↦ (false, xs, length xs) | some ys ↦ (true, ys, length xs - 2) ])
