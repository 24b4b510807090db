-- ===== src/Matrix/Coord.antt =====
-- `incCoord` and `incCoordWithBound` of runtime/matrixregion.h (and their copies in
-- runtime/matrixstorage.h): a coordinate is stepped like an odometer, dimension 0 first.
pub mod Rank
pub mod Bound
use petabricks.Base.{
  ℕ, zero, suc, ◌+◌, ◌≤◌, ◌<◌, Bool, Option, none, some, List, [], ◌∷◌, leb, if◌then◌else◌,
}

-- The result: the largest dimension that was incremented, or `none` for -1; and the coordinate.
abbrev pub Stepped : Type 0
Stepped = Option ℕ × List ℕ

abbrev pub carry : ℕ → Stepped → Stepped
carry x (r, c) = (r, x ∷ c)

-- The loop from dimension `i` on, whose entry has been incremented. `sizes` has no fewer entries
-- than the coordinate.
unfoldable pub carry_from : ℕ → List ℕ → List ℕ → Stepped
carry_from i (s ∷ s' ∷ ss) (x ∷ y ∷ c) =
    let rest = carry_from (i + 1) (s' ∷ ss) ((y + 1) ∷ c) in
    if leb s x then carry 0 rest else (some i, x ∷ y ∷ c)
carry_from i (s ∷ ss) (x ∷ c) = if leb s x then (none, x ∷ c) else (some i, x ∷ c)
carry_from i _ c = (none, c)

unfoldable pub inc_coord : List ℕ → List ℕ → Stepped
inc_coord sizes [] = (none, [])
inc_coord sizes (x ∷ c) = carry_from 0 sizes ((x + 1) ∷ c)

unfoldable pub carry_bound : ℕ → List ℕ → List ℕ → List ℕ → Stepped
carry_bound i (b ∷ bs) (e ∷ e' ∷ es) (x ∷ y ∷ c) =
    let rest = carry_bound (i + 1) bs (e' ∷ es) ((y + 1) ∷ c) in
    if leb e x then carry b rest else (some i, x ∷ y ∷ c)
carry_bound i _ (e ∷ es) (x ∷ c) = if leb e x then (none, x ∷ c) else (some i, x ∷ c)
carry_bound i _ _ c = (none, c)

unfoldable pub inc_coord_with_bound : List ℕ → List ℕ → List ℕ → Stepped
inc_coord_with_bound c1 c2 [] = (none, [])
inc_coord_with_bound c1 c2 (x ∷ c) = carry_bound 0 c1 c2 ((x + 1) ∷ c)

-- A coordinate inside the sizes, of the same dimension.
abbrev pub InBounds : List ℕ → List ℕ → Type 0
InBounds [] [] = Unit {0}
InBounds (s ∷ ss) (x ∷ c) = (x < s) × InBounds ss c
InBounds _ _ = ⊥

-- `memset(coord, 0, sizeof coord)`
abbrev pub zeros : List ℕ → List ℕ
zeros [] = []
zeros (s ∷ ss) = 0 ∷ zeros ss
