-- ===== src/Matrix/Views.antt =====
-- Sub-regions, slices and transposes are views: their cells are cells of the region they come from.
use mathlib.Core.List.{reverse, reverse-cons, reverse-reverse}
use petabricks.Base.{
  ℕ, zero, suc, ◌+◌, ◌≤◌, ◌<◌, ◌≡◌, refl, ap, true, List, [], ◌∷◌, ◌++◌, map, arith, length,
  length-append,
}
use petabricks.Base.Int.{ℤ, pos, negsuc}
use petabricks.Matrix.{
  Region, coord_to_ptr, transposed, region, slice, contains, contains_from, without, unit_coord,
  sub_coords,
}
use petabricks.Matrix.Coord.{InBounds, zeros}
use petabricks.Matrix.Coord.Bound.{add_coords, IsBox}
use petabricks.Matrix.Layout.{dot}

dot-add_coords :
    (ms c d : List ℕ) → length c ≡ length d → dot ms (add_coords c d) ≡ dot ms c + dot ms d
unfolding dot
dot-add_coords [] c d h = refl
dot-add_coords (m ∷ ms) [] [] h = refl
dot-add_coords (m ∷ ms) [] (y ∷ d) h = absurd (omega arith)
dot-add_coords (m ∷ ms) (x ∷ c) [] h = absurd (omega arith)
dot-add_coords (m ∷ ms) (x ∷ c) (y ∷ d) h = omega (arith, dot-add_coords ms c d (omega arith))

-- Corners below the sizes.
abbrev Within : List ℕ → List ℕ → Type 0
Within [] [] = Unit {0}
Within (s ∷ ss) (x ∷ c) = (x ≤ s) × Within ss c
Within _ _ = ⊥

add_coords-InBounds :
    (ss c1 c2 c : List ℕ)
    → IsBox c1 c2
    → Within ss c2
    → InBounds (sub_coords c2 c1) c
    → InBounds ss (add_coords c1 c) × (length c1 ≡ length c)
add_coords-InBounds [] [] [] [] k w b = (tt, refl)
add_coords-InBounds (s ∷ ss) [] [] [] k w b = absurd w
add_coords-InBounds ss [] [] (x ∷ c) k w b = absurd b
add_coords-InBounds ss [] (e ∷ c2) c k w b = absurd k
add_coords-InBounds ss (a ∷ c1) [] c k w b = absurd k
add_coords-InBounds ss (a ∷ c1) (e ∷ c2) [] k w b = absurd b
add_coords-InBounds [] (a ∷ c1) (e ∷ c2) (x ∷ c) k w b = absurd w
add_coords-InBounds (s ∷ ss) (a ∷ c1) (e ∷ c2) (x ∷ c) k w b =
    let (p, q) = add_coords-InBounds ss c1 c2 c k.1 w.1 b.1 in ((omega arith, p), omega arith)

-- Cell `c` of the part of a region between two corners, which lie inside the region, is cell
-- `c1 + c` of the region, and is inside the region if `c` is inside the part.
region_cell :
    (r : Region) (c1 c2 c : List ℕ)
    → IsBox c1 c2
    → Within r.sizes c2
    → InBounds (region r c1 c2).sizes c
    → (coord_to_ptr (region r c1 c2) c ≡ coord_to_ptr r (add_coords c1 c))
      × InBounds r.sizes (add_coords c1 c)
unfolding coord_to_ptr region
region_cell r c1 c2 c k w b =
    let (inside, same) = add_coords-InBounds r.sizes c1 c2 c k w b in
    (omega (arith, dot-add_coords r.multipliers c1 c same), inside)

dot-zeros : (ss ms : List ℕ) → dot ms (zeros ss) ≡ 0
unfolding dot
dot-zeros [] [] = refl
dot-zeros [] (m ∷ ms) = refl
dot-zeros (s ∷ ss) [] = refl
dot-zeros (s ∷ ss) (m ∷ ms) = omega (arith, dot-zeros ss ms)

-- The coordinate with `at` put in at dimension `d`.
abbrev pub put_in : ℕ → ℕ → List ℕ → List ℕ
put_in zero at c = at ∷ c
put_in (suc d) at [] = at ∷ []
put_in (suc d) at (x ∷ c) = x ∷ put_in d at c

slice-dot :
    (d at : ℕ) (ss ms c : List ℕ)
    → length ss ≡ length ms
    → suc (length c) ≡ length ss
    → d < length ss
    → dot ms (unit_coord d at ss) + dot (without d ms) c ≡ dot ms (put_in d at c)
unfolding dot
slice-dot d at [] ms c h k l = absurd (omega arith)
slice-dot d at (s ∷ ss) [] c h k l = absurd (omega arith)
slice-dot zero at (s ∷ ss) (m ∷ ms) c h k l = omega (arith, dot-zeros ss ms)
slice-dot (suc d) at (s ∷ ss) (m ∷ ms) [] h k l = absurd (omega arith)
slice-dot (suc d) at (s ∷ ss) (m ∷ ms) (x ∷ c) h k l =
    omega (arith, slice-dot d at ss ms c (omega arith) (omega arith) (omega arith))

-- Cell `c` of a slice at `at` through dimension `d` is the cell of the region whose coordinate is
-- `c` with `at` put in at `d`.
coord_to_ptr-slice :
    (r : Region) (d at : ℕ) (c : List ℕ)
    → length r.sizes ≡ length r.multipliers
    → suc (length c) ≡ length r.sizes
    → d < length r.sizes
    → coord_to_ptr (slice r d at) c ≡ coord_to_ptr r (put_in d at c)
unfolding coord_to_ptr slice
coord_to_ptr-slice r d at c h k l = omega (arith, slice-dot d at r.sizes r.multipliers c h k l)

dot-append :
    (ms ns c d : List ℕ) → length ms ≡ length c → dot (ms ++ ns) (c ++ d) ≡ dot ms c + dot ns d
unfolding dot
dot-append [] ns [] d h = omega arith
dot-append [] ns (x ∷ c) d h = absurd (omega arith)
dot-append (m ∷ ms) ns [] d h = absurd (omega arith)
dot-append (m ∷ ms) ns (x ∷ c) d h = omega (arith, dot-append ms ns c d (omega arith))

length-reverse : (xs : List ℕ) → length (reverse xs) ≡ length xs
length-reverse [] = refl
length-reverse (x ∷ xs) =
    omega
      (arith, ap length (reverse-cons x xs), length-append (reverse xs) (x ∷ []), length-reverse xs)

dot-reverse : (ms c : List ℕ) → length ms ≡ length c → dot (reverse ms) (reverse c) ≡ dot ms c
unfolding dot
dot-reverse [] [] h = refl
dot-reverse [] (x ∷ c) h = absurd (omega arith)
dot-reverse (m ∷ ms) [] h = absurd (omega arith)
dot-reverse (m ∷ ms) (x ∷ c) h =
    rw (reverse-cons m ms, reverse-cons x c)
      (omega (
        arith,
        dot-append (reverse ms) (m ∷ []) (reverse c) (x ∷ [])
            (omega (arith, length-reverse ms, length-reverse c)),
        dot-reverse ms c (omega arith),
      ))

-- A transpose has the same cells under the reversed coordinates, and its own transpose is the
-- region again.
pub transposed_lem :
    (r : Region) (c : List ℕ)
    → length r.multipliers ≡ length c
    → (coord_to_ptr (transposed r) (reverse c) ≡ coord_to_ptr r c) × (transposed (transposed r) ≡ r)
unfolding coord_to_ptr transposed
transposed_lem r c h = (
  ap (λ k. r.base + k) (dot-reverse r.multipliers c h),
  rw (reverse-reverse r.sizes, reverse-reverse r.multipliers) refl,
)

contains_from-InBounds :
    (ss : List ℕ) (c : List ℤ)
    → length ss ≡ length c
    → contains_from ss c ≡ true
    → (d : List ℕ) × (c ≡ map pos d) × InBounds ss d
unfolding contains_from
contains_from-InBounds [] [] h e = ([], refl, tt)
contains_from-InBounds [] (x ∷ c) h e = absurd (omega arith)
contains_from-InBounds (s ∷ ss) [] h e = absurd (omega arith)
contains_from-InBounds (s ∷ ss) (negsuc x ∷ c) h e = absurd (ground arith)
contains_from-InBounds (s ∷ ss) (pos x ∷ c) h e =
    let (d, same, inside) = contains_from-InBounds ss c (omega arith) (ground arith) in
    (x ∷ d, ap (◌∷◌ (pos x)) same, (ground arith, inside))

InBounds-contains_from : (ss d : List ℕ) → InBounds ss d → contains_from ss (map pos d) ≡ true
unfolding contains_from
InBounds-contains_from [] [] b = refl
InBounds-contains_from [] (x ∷ d) b = absurd b
InBounds-contains_from (s ∷ ss) [] b = absurd b
InBounds-contains_from (s ∷ ss) (x ∷ d) b = ground (arith, InBounds-contains_from ss d b.1)

-- A coordinate of the region's dimension that `contains` accepts has no negative entry, and is
-- inside the sizes.
contains-InBounds :
    (r : Region) (c : List ℤ)
    → length r.sizes ≡ length c
    → contains r c ≡ true
    → (d : List ℕ) × (c ≡ map pos d) × InBounds r.sizes d
unfolding contains
contains-InBounds r c h e = contains_from-InBounds r.sizes c h e

-- `contains` accepts every coordinate inside the sizes.
InBounds-contains : (r : Region) (d : List ℕ) → InBounds r.sizes d → contains r (map pos d) ≡ true
unfolding contains
InBounds-contains r d b = InBounds-contains_from r.sizes d b
