-- ===== src/Matrix.antt =====
-- runtime/matrixregion.h: a region is a view of a storage, by a base, a size and a multiplier for
-- each dimension. Pointers are offsets from the storage's first element, and the dimension of the
-- template is the length of the lists. `IndexT` is `int`; the offsets of a region that fits its
-- storage are below the storage's count, and the model does not wrap.
pub mod Coord
pub mod Loop
pub mod Layout
pub mod Views
pub mod Copy
mod Tests
use petabricks.Base.{
  ℕ, zero, suc, ◌+◌, ◌-◌, ◌*◌, ◌≡◌, Bool, true, false, ◌&&◌, Option, none, some, List, [], ◌∷◌, ltb,
  leb, ◌==◌, if◌then◌else◌, product, sum, length,
}
use mathlib.Core.List.{reverse}
use petabricks.Base.Int.{ℤ, pos, ltb_ℤ}
use petabricks.Matrix.Coord.{zeros}
use petabricks.Matrix.Layout.{dot, StockLayout, ascending, stock_layout}

-- A `MatrixStorage`: which one it is, and its element count.
pub record Storage : Type 0 where
  pub ident : ℕ
  pub count : ℕ

-- `MatrixRegionMembers`. The storage may be null.
pub record Region : Type 0 where
  pub storage : Option Storage
  pub base : ℕ
  pub sizes : List ℕ
  pub multipliers : List ℕ

-- Number of elements.
unfoldable pub count : Region → ℕ
count r = product r.sizes

unfoldable perimeter : Region → ℕ
perimeter r = sum r.sizes

unfoldable pub interval_size : List ℕ → List ℕ → ℕ
interval_size (a ∷ c1) (b ∷ c2) = (b - a) * interval_size c1 c2
interval_size _ _ = 1

-- The constructor with a stock layout.
unfoldable pub with_layout : Option Storage → ℕ → List ℕ → StockLayout → Region
with_layout s b sizes l = record {
  storage = s;
  base = b;
  sizes = sizes;
  multipliers = stock_layout l sizes;
}

-- `allocate`, without COLUMN_MAJOR: `ident` is the new storage.
unfoldable pub allocate : ℕ → List ℕ → Region
unfolding with_layout
allocate ident sizes =
    with_layout (some (record { ident = ident; count = product sizes })) 0 sizes ascending

-- The offset of a cell.
unfoldable pub coord_to_ptr : Region → List ℕ → ℕ
coord_to_ptr r c = r.base + dot r.multipliers c

abbrev pub same_sizes : List ℕ → List ℕ → Bool
same_sizes [] [] = true
same_sizes (s ∷ ss) (x ∷ xs) = s == x && same_sizes ss xs
same_sizes _ _ = false

-- A null base is a region with no storage.
unfoldable pub is_size : Region → List ℕ → Bool
is_size r sizes = elim r.storage [ none ↦ false | some s ↦ same_sizes r.sizes sizes ]

unfoldable pub transposed : Region → Region
transposed r = record r { sizes = reverse r.sizes; multipliers = reverse r.multipliers }

abbrev pub sub_coords : List ℕ → List ℕ → List ℕ
sub_coords (b ∷ c2) (a ∷ c1) = (b - a) ∷ sub_coords c2 c1
sub_coords _ _ = []

-- The part of a region between two corners.
unfoldable pub region : Region → List ℕ → List ℕ → Region
unfolding coord_to_ptr
region r c1 c2 = record r { base = coord_to_ptr r c1; sizes = sub_coords c2 c1 }

-- The list without its entry `d`: the two loops of `slice`.
abbrev pub without : ℕ → List ℕ → List ℕ
without d [] = []
without zero (x ∷ xs) = xs
without (suc d) (x ∷ xs) = x ∷ without d xs

-- Zeros, but for the position in dimension `d`.
abbrev pub unit_coord : ℕ → ℕ → List ℕ → List ℕ
unit_coord d at [] = []
unit_coord zero at (s ∷ ss) = at ∷ zeros ss
unit_coord (suc d) at (s ∷ ss) = 0 ∷ unit_coord d at ss

unfoldable pub slice : Region → ℕ → ℕ → Region
unfolding coord_to_ptr
slice r d at = record r {
  base = coord_to_ptr r (unit_coord d at r.sizes);
  sizes = without d r.sizes;
  multipliers = without d r.multipliers;
}

-- A coordinate given by the user may be negative.
unfoldable pub contains_from : List ℕ → List ℤ → Bool
contains_from (s ∷ ss) (x ∷ c) =
    let rest = contains_from ss c in
    if ltb_ℤ x (pos 0) then false else if ltb_ℤ x (pos s) then rest else false
contains_from _ _ = true

unfoldable pub contains : Region → List ℤ → Bool
unfolding contains_from
contains r c = contains_from r.sizes c

unfoldable pub is_entire_buffer : Region → Bool
unfolding count
is_entire_buffer r =
    if length r.sizes == 0
    then true
    else elim r.storage [ none ↦ false | some s ↦ s.count == count r ]
