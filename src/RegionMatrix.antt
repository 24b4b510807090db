-- ===== src/RegionMatrix.antt =====
-- runtime/regionmatrix.h: `RegionMatrix`, a view of distributed data: an offset, a size, a flag for
-- the transpose, and the dimensions that have been sliced away with their positions. Its cells are
-- cells of the data of its handler, whose dimension may be larger. Dimensions are lists, and the two
-- arrays of `RegionMatrixSliceInfo` are a list of pairs. `none` is an access outside of an array.
pub mod Coords
pub mod Slicing
pub mod Local
pub mod Cells
pub mod Serial
mod Tests
use mathlib.Core.List.{reverse}
use petabricks.Base.{
  ℕ, zero, suc, ◌+◌, ◌-◌, ◌*◌, Bool, true, false, ◌&&◌, Option, none, some, List, [], ◌∷◌, leb,
  ◌==◌, if◌then◌else◌, length, get_elem?, product,
}
use petabricks.Base.Int.{ℤ}
use petabricks.Matrix.{Region, Storage, same_sizes, sub_coords, without, contains_from}
use petabricks.Matrix
use petabricks.Matrix.Coord.{Stepped}
use petabricks.Matrix.Coord
use petabricks.Matrix.Coord.Bound.{add_coords}
use petabricks.Split.{same_coord}

abbrev pub Slices : Type 0
Slices = List (ℕ × ℕ)

-- What a region knows of its `RegionHandler`: which one it is, the sizes of its data, how it is known
-- to other processes (a process and a number there), and two settings.
pub record Handler : Type 0 where
  pub number : ℕ
  pub data_size : List ℕ
  pub host : ℕ
  pub remote : ℕ
  pub is_data_split : Bool
  pub migration_type : ℕ

pub record RegionMatrix : Type 0 where
  pub size : List ℕ
  pub split_offset : List ℕ
  pub is_transposed : Bool
  pub slices : Slices
  pub handler : Handler

abbrev zero_offset : List ℕ → List ℕ
zero_offset [] = []
zero_offset (s ∷ ss) = 0 ∷ zero_offset ss

-- `init(size, handler)`
unfoldable of_handler : List ℕ → Handler → RegionMatrix
of_handler size h = record {
  size = size;
  split_offset = zero_offset size;
  is_transposed = false;
  slices = [];
  handler = h;
}

-- The list as the user of the region indexes it: entry `i` is entry `D - 1 - i` of a transpose.
abbrev pub oriented : Bool → List ℕ → List ℕ
oriented true xs = reverse xs
oriented false xs = xs

-- `size(i)` for each `i`.
abbrev sizes_of : RegionMatrix → List ℕ
sizes_of r = oriented r.is_transposed r.size

unfoldable pub is_size : RegionMatrix → List ℕ → Bool
is_size r sizes = same_sizes (sizes_of r) sizes

unfoldable pub contains : RegionMatrix → List ℤ → Bool
contains r c = contains_from (sizes_of r) c

unfoldable pub count : RegionMatrix → ℕ
count r = product r.size

unfoldable pub inc_coord : RegionMatrix → List ℕ → Stepped
inc_coord r c = Coord.inc_coord (sizes_of r) c

-- Whether the next slice is at dimension `d`, its position, and the slices after it.
abbrev pub at_slice : ℕ → Slices → Bool
at_slice d [] = false
at_slice d ((e, p) ∷ slices) = d == e

abbrev pub position : Slices → ℕ
position [] = 0
position ((e, p) ∷ slices) = p

abbrev pub rest_of {ℓ} : {A : Type ℓ} → List A → List A
rest_of [] = []
rest_of (x ∷ xs) = xs

-- A dimension that is not sliced: the next coordinate plus the next offset, before the others.
abbrev pub keep : List ℕ → List ℕ → List ℕ → List ℕ
keep (o ∷ offset) (x ∷ c) rest = (x + o) ∷ rest
keep _ _ rest = []

-- `regionDataCoord` from data dimension `d` on, of which `n` are left.
unfoldable pub data_coord : ℕ → ℕ → Slices → List ℕ → List ℕ → List ℕ
data_coord d zero slices offset c = []
data_coord d (suc n) slices offset c =
    let sliced = data_coord (d + 1) n (rest_of slices) offset c in
    let kept = data_coord (d + 1) n slices (rest_of offset) (rest_of c) in
    if at_slice d slices then position slices ∷ sliced else keep offset c kept

unfoldable pub region_data_coord : RegionMatrix → List ℕ → List ℕ
region_data_coord r c =
    data_coord 0 (length r.handler.data_size) r.slices r.split_offset (oriented r.is_transposed c)

-- `splitRegion`
unfoldable pub split_region : RegionMatrix → List ℕ → List ℕ → RegionMatrix
split_region r offset size = record r {
  size = oriented r.is_transposed size;
  split_offset = add_coords r.split_offset (oriented r.is_transposed offset);
}

-- `region`
unfoldable pub region : RegionMatrix → List ℕ → List ℕ → RegionMatrix
unfolding split_region
region r c1 c2 = split_region r c1 (sub_coords c2 c1)

-- The pair for the new slice, at data dimension `d`, where the offset is read.
abbrev pair_at : ℕ → ℕ → Option ℕ → Option (ℕ × ℕ)
pair_at d pos none = none
pair_at d pos (some o) = some (d, pos + o)

unfoldable pub slice_pair : List ℕ → ℕ → ℕ → Option (ℕ × ℕ)
slice_pair offset d pos = pair_at d pos (get_elem? offset d)

abbrev cons_some {ℓ} : {A : Type ℓ} → A → Option (List A) → Option (List A)
cons_some x none = none
cons_some x (some xs) = some (x ∷ xs)

-- Before the first slice that is kept after it.
place_slice : Option (ℕ × ℕ) → Slices → Option Slices
place_slice none slices = none
place_slice (some new) slices = some (new ∷ slices)

-- The loop of `sliceRegion` over the slices that the region has already, as long as the new one has
-- not been added; after the last of them it reads on.
unfoldable pub insert_slice : List ℕ → ℕ → ℕ → Slices → Option Slices
unfolding place_slice
insert_slice offset d pos [] = none
insert_slice offset d pos ((e, p) ∷ slices) =
    let rest = insert_slice offset (d + 1) pos slices in
    if leb e d
    then cons_some (e, p) rest
    else place_slice (slice_pair offset d pos) ((e, p) ∷ slices)

unfoldable pub slice_slices : List ℕ → ℕ → ℕ → Slices → Option Slices
unfolding place_slice
slice_slices offset d pos [] = place_slice (slice_pair offset d pos) []
slice_slices offset d pos (s ∷ slices) = insert_slice offset d pos (s ∷ slices)

sliced : RegionMatrix → ℕ → Option Slices → Option RegionMatrix
sliced r d none = none
sliced r d (some slices) =
    some (record r {
      size = without d r.size;
      split_offset = without d r.split_offset;
      slices = slices;
    })

-- The dimension of the arrays that the user's dimension `d` is.
abbrev pub own_dimension : RegionMatrix → ℕ → ℕ
own_dimension r d = if r.is_transposed then length r.size - d - 1 else d

-- `sliceRegion`
unfoldable pub slice_region : RegionMatrix → ℕ → ℕ → Option RegionMatrix
unfolding sliced
slice_region r d pos =
    let e = own_dimension r d in sliced r e (slice_slices r.split_offset e pos r.slices)

-- `transposed`
unfoldable pub transposed : RegionMatrix → RegionMatrix
transposed r = record r { is_transposed = if r.is_transposed then false else true }

-- What `computeMatrixRegionMetaData` adds for a dimension that is not sliced.
abbrev keep_meta : ℕ → List ℕ → ℕ × List ℕ → ℕ × List ℕ
keep_meta mult [] r = (0, [])
keep_meta mult (o ∷ offset) (start, ms) = (mult * o + start, mult ∷ ms)

abbrev add_start : ℕ → ℕ × List ℕ → ℕ × List ℕ
add_start n (start, ms) = (n + start, ms)

-- Its loop from data dimension `d` on: what it adds to the start, and the multipliers.
unfoldable pub meta_data : ℕ → ℕ → Slices → List ℕ → List ℕ → ℕ × List ℕ
meta_data d mult slices offset [] = (0, [])
meta_data d mult slices offset (s ∷ size) =
    let sliced = meta_data (d + 1) (mult * s) (rest_of slices) offset size in
    let kept = meta_data (d + 1) (mult * s) slices (rest_of offset) size in
    if at_slice d slices
    then add_start (mult * position slices) sliced
    else keep_meta mult offset kept

-- `_toLocalRegion` of a region whose data is in one storage here.
unfoldable pub to_local_region : RegionMatrix → Option Storage → Region
to_local_region r storage =
    let (start, ms) = meta_data 0 1 r.slices r.split_offset r.handler.data_size in
    let local : Region = record {
      storage = storage;
      base = start;
      sizes = r.size;
      multipliers = ms;
    } in
    if r.is_transposed then Matrix.transposed local else local

-- The data of a region's handler, by the coordinate there.
abbrev pub Store : Type 0 → Type 0
Store E = List ℕ → E

module _ {E : Type 0} where
  unfoldable pub read_cell : RegionMatrix → Store E → List ℕ → E
  read_cell r store c = store (region_data_coord r c)

  unfoldable pub write_cell : RegionMatrix → Store E → List ℕ → E → Store E
  write_cell r store c v d = if same_coord d (region_data_coord r c) then v else store d
