-- ===== src/Matrix/Coord/Bound.antt =====
-- `incCoordWithBound` is `incCoord` on the box between its bounds, moved to the lower bound.
use petabricks.Base.{
  ℕ, ◌+◌, ◌-◌, ◌≤◌, ◌<◌, ◌≡◌, refl, ap, none, some, List, [], ◌∷◌, arith, product,
}
use petabricks.Matrix.Coord.{
  Stepped, carry_from, inc_coord, carry_bound, inc_coord_with_bound, InBounds, carry, zeros,
}
use petabricks.Matrix.Coord.Rank.{
  coord_at, coord_at-zero, coord_at-InBounds, StepsTo, inc_coord-StepsTo,
}

abbrev pub add_coords : List ℕ → List ℕ → List ℕ
add_coords (b ∷ bs) (x ∷ c) = (b + x) ∷ add_coords bs c
add_coords _ _ = []

-- The sizes of the box between two corners.
abbrev pub extents : List ℕ → List ℕ → List ℕ
extents (b ∷ bs) (e ∷ es) = (e - b) ∷ extents bs es
extents _ _ = []

-- The lower corner is below the upper one, in the same dimension.
abbrev pub IsBox : List ℕ → List ℕ → Type 0
IsBox [] [] = Unit {0}
IsBox (b ∷ bs) (e ∷ es) = (b ≤ e) × IsBox bs es
IsBox _ _ = ⊥

abbrev pub moved : List ℕ → Stepped → Stepped
moved bs (r, c) = (r, add_coords bs c)

carry-moved :
    (b : ℕ) (bs : List ℕ) (r : Stepped) → carry b (moved bs r) ≡ moved (b ∷ bs) (carry 0 r)
carry-moved b bs (r, c) = let e : b + 0 ≡ b = omega arith in rw e refl

carry_bound-moved :
    (i b e : ℕ) (bs es : List ℕ) (x : ℕ) (c : List ℕ)
    → b ≤ e
    → IsBox bs es
    → InBounds (extents bs es) c
    → carry_bound i (b ∷ bs) (e ∷ es) (add_coords (b ∷ bs) (x ∷ c))
      ≡ moved (b ∷ bs) (carry_from i (extents (b ∷ bs) (e ∷ es)) (x ∷ c))
unfolding carry_bound carry_from
carry_bound-moved i b e [] [] x [] h k n = ground arith
carry_bound-moved i b e [] [] x (y ∷ c) h k n = absurd n
carry_bound-moved i b e [] (e' ∷ es) x c h k n = absurd k
carry_bound-moved i b e (b' ∷ bs) [] x c h k n = absurd k
carry_bound-moved i b e (b' ∷ bs) (e' ∷ es) x [] h k n = absurd n
carry_bound-moved i b e (b' ∷ bs) (e' ∷ es) x (y ∷ c) h k n =
    let same : b' + y + 1 ≡ b' + (y + 1) = omega arith in
    rw same (
      ground (
        arith,
        carry_bound-moved (i + 1) b' e' bs es (y + 1) c k.0 k.1 n.1,
        carry-moved b (b' ∷ bs) (carry_from (i + 1) (extents (b' ∷ bs) (e' ∷ es)) ((y + 1) ∷ c)),
      ))

-- One increment within bounds is one increment of the offset from the lower bound.
inc_coord_with_bound-moved :
    (bs es c : List ℕ)
    → IsBox bs es
    → InBounds (extents bs es) c
    → inc_coord_with_bound bs es (add_coords bs c) ≡ moved bs (inc_coord (extents bs es) c)
unfolding inc_coord_with_bound inc_coord
inc_coord_with_bound-moved [] [] [] k n = refl
inc_coord_with_bound-moved [] [] (x ∷ c) k n = absurd n
inc_coord_with_bound-moved [] (e ∷ es) c k n = absurd k
inc_coord_with_bound-moved (b ∷ bs) [] c k n = absurd k
inc_coord_with_bound-moved (b ∷ bs) (e ∷ es) [] k n = absurd n
inc_coord_with_bound-moved (b ∷ bs) (e ∷ es) (x ∷ c) k n =
    let same : b + x + 1 ≡ b + (x + 1) = omega arith in
    rw same (carry_bound-moved 0 b e bs es (x + 1) c k.0 k.1 n.1)

-- The coordinates of a box, by their places.
abbrev pub box_at : List ℕ → List ℕ → ℕ → List ℕ
box_at bs es n = add_coords bs (coord_at (extents bs es) n)

moved-StepsTo :
    (bs : List ℕ) (place : ℕ → List ℕ) (total n : ℕ) (r : Stepped)
    → StepsTo place total n r
    → StepsTo (λ k. add_coords bs (place k)) total n (moved bs r)
moved-StepsTo bs place total n (some i, c) v = (v.0, ap (add_coords bs) v.1)
moved-StepsTo bs place total n (none, c) v = v

-- `incCoordWithBound` goes through the coordinates between two corners of one dimension in the order
-- of their places, and ends after the last.
pub inc_coord_with_bound-StepsTo :
    (bs es : List ℕ) (n : ℕ)
    → IsBox bs es
    → n < product (extents bs es)
    → StepsTo
        (box_at bs es)
        (product (extents bs es))
        n
        (inc_coord_with_bound bs es (box_at bs es n))
inc_coord_with_bound-StepsTo bs es n k h =
    let ss = extents bs es in
    rw (inc_coord_with_bound-moved bs es (coord_at ss n) k (coord_at-InBounds ss n h)) (
      moved-StepsTo bs (coord_at ss) (product ss) n (inc_coord ss (coord_at ss n))
        (inc_coord-StepsTo ss n h))

-- The first coordinate of a box is its lower corner.
pub box_at-zero : (bs es : List ℕ) → IsBox bs es → box_at bs es 0 ≡ bs
box_at-zero bs es k = rw (coord_at-zero (extents bs es)) (add_coords-zeros bs es k)
  where
    add_coords-zeros : (bs es : List ℕ) → IsBox bs es → add_coords bs (zeros (extents bs es)) ≡ bs
    add_coords-zeros [] [] k = refl
    add_coords-zeros [] (e ∷ es) k = absurd k
    add_coords-zeros (b ∷ bs) [] k = absurd k
    add_coords-zeros (b ∷ bs) (e ∷ es) k =
        let z : b + 0 ≡ b = omega arith in rw z (ap (◌∷◌ b) (add_coords-zeros bs es k.1))
