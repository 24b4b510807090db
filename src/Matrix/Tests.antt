-- ===== src/Matrix/Tests.antt =====
-- The theorems about regions at concrete inputs.
use petabricks.Base.{ℕ, ◌≡◌, ◌≤◌, ◌+◌, ◌*◌, refl, true, arith, none, some, List, [], ◌∷◌, product}
use petabricks.Base.Int.{ℤ, pos}
use petabricks.Matrix.{Region, allocate, with_layout, count, region, contains}
use petabricks.Matrix.Coord.{InBounds, inc_coord, carry_from, zeros}
use petabricks.Matrix.Coord.Rank.{coord_at}
use petabricks.Matrix.Loop.{coord_loop, for_range, coord_loop-sizes}
use petabricks.Matrix.Layout.{descending, stock_layout}
use petabricks.Matrix.Copy.{Memory, cell, region_copy_out, region_copy_in}
use petabricks.Matrix.Copy.Arrays.{region_copy_stock_roundtrip}

-- A 3 by 4 matrix in buffer 1.
abbrev grid : Region
grid = record {
  storage = some (record { ident = 0; count = 12 });
  base = 0;
  sizes = 3 ∷ 4 ∷ [];
  multipliers = 1 ∷ 3 ∷ [];
}

allocate-grid : allocate 0 (3 ∷ 4 ∷ []) ≡ grid
unfolding allocate stock_layout
allocate-grid = refl

inc_coord-carries : inc_coord (3 ∷ 4 ∷ []) (2 ∷ 1 ∷ []) ≡ (some 1, 0 ∷ 2 ∷ [])
unfolding inc_coord carry_from
inc_coord-carries = refl

inc_coord-ends : inc_coord (3 ∷ 4 ∷ []) (2 ∷ 3 ∷ []) ≡ (none, 0 ∷ 4 ∷ [])
unfolding inc_coord carry_from
inc_coord-ends = refl

abbrev sizes : List ℕ
sizes = 3 ∷ 4 ∷ []

abbrev spot : List ℕ
spot = 2 ∷ 1 ∷ []

spot-InBounds : InBounds sizes spot
spot-InBounds = (omega arith, (omega arith, tt))

-- Cell values that tell offsets apart.
abbrev numbered : Memory ℕ
numbered b a = 100 * b + a

abbrev low : List ℕ
low = 1 ∷ 1 ∷ []

-- A body that adds up the first entries.
abbrev add_first : List ℕ → ℕ → ℕ
add_first [] n = n
add_first (x ∷ c) n = n + x

coord_loop-sizes_example :
    coord_loop (inc_coord sizes) add_first 12 (zeros sizes) 0
    ≡ some (for_range (product sizes) 0 (λ k. add_first (coord_at sizes k)) 0)
coord_loop-sizes_example = coord_loop-sizes sizes add_first 12 0 (omega arith) (omega arith)

part-InBounds : InBounds (region grid low sizes).sizes (1 ∷ 2 ∷ [])
unfolding region
part-InBounds = (omega arith, (omega arith, tt))

abbrev signed : List ℤ
signed = pos 2 ∷ pos 1 ∷ []

signed-inside : contains grid signed ≡ true
unfolding contains
signed-inside = refl

grid-fits : count grid ≤ 12
unfolding count
grid-fits = omega arith

region_copy_stock_roundtrip_example :
    let s = with_layout (some (record { ident = 4; count = 12 })) 0 sizes descending in
    (m m' : Memory ℕ) × (region_copy_out 12 grid 7 numbered ≡ some (count grid, m))
    × (region_copy_in 12 s 7 m ≡ some (count s, m'))
    × (cell m' s spot ≡ cell numbered grid spot)
region_copy_stock_roundtrip_example =
    region_copy_stock_roundtrip 12 grid (some (record { ident = 4; count = 12 })) 0 descending 7
      numbered spot grid-fits (omega arith) (omega arith) spot-InBounds

abbrev no_cells : Region
no_cells = record {
  storage = some (record { ident = 0; count = 0 });
  base = 0;
  sizes = 0 ∷ [];
  multipliers = 1 ∷ [];
}
