-- ===== src/RegionMatrix/Tests.antt =====
-- Small distributed regions: a matrix of 4 by 3 by 2, a part of it, and a slice of the part.
use petabricks.Base.{ℕ, ◌≡◌, refl, true, false, none, some, [], ◌∷◌, arith}
use petabricks.Matrix.{coord_to_ptr}
use petabricks.Matrix.Layout.{dot, ascending_from}
use petabricks.Matrix.Coord.{InBounds}
use petabricks.Matrix.Coord.Bound.{add_coords}
use petabricks.Matrix.Views.{put_in}
use petabricks.RegionMatrix.{
  Handler, RegionMatrix, Store, split_region, slice_region, region_data_coord, read_cell,
  write_cell, to_local_region, data_coord, meta_data,
}
use petabricks.RegionMatrix.Coords.{region_data_coord-split_region}
use petabricks.RegionMatrix.Slicing.{region_data_coord-slice_region, slice_region-twice}
use petabricks.RegionMatrix.Local.{to_local_region-data}
use petabricks.RegionMatrix.Cells.{region_read_cell-write_cell}
use petabricks.RegionMatrix.Serial.{Widths, serialize, unserialize, HandlerDb}
use petabricks.RegionMatrix.Serial.RoundTrip.{handler_at, unserialize-serialize}

abbrev matrix_data : Handler
matrix_data = record {
  number = 7;
  data_size = 4 ∷ 3 ∷ 2 ∷ [];
  host = 1;
  remote = 9;
  is_data_split = false;
  migration_type = 0;
}

-- The part from (1, 0, 1) on, of 3 by 2 by 1, and its slice at dimension 2, seen transposed.
abbrev part : RegionMatrix
part = record {
  size = 3 ∷ 2 ∷ 1 ∷ [];
  split_offset = 1 ∷ 0 ∷ 1 ∷ [];
  is_transposed = false;
  slices = [];
  handler = matrix_data;
}

abbrev sliced_part : RegionMatrix
sliced_part = record {
  size = 3 ∷ 2 ∷ [];
  split_offset = 1 ∷ 0 ∷ [];
  is_transposed = true;
  slices = (2, 1) ∷ [];
  handler = matrix_data;
}

abbrev cells : Store ℕ
cells c = 0

sliced_part_cell : region_data_coord sliced_part (1 ∷ 2 ∷ []) ≡ 3 ∷ 1 ∷ 1 ∷ []
unfolding region_data_coord data_coord
sliced_part_cell = refl

written_cell : InBounds (4 ∷ 3 ∷ 2 ∷ []) (region_data_coord sliced_part (1 ∷ 2 ∷ []))
unfolding region_data_coord data_coord
written_cell = (omega arith, (omega arith, (omega arith, tt)))

kept_cell : InBounds (4 ∷ 3 ∷ 2 ∷ []) (region_data_coord sliced_part (0 ∷ 2 ∷ []))
unfolding region_data_coord data_coord
kept_cell = (omega arith, (omega arith, (omega arith, tt)))

region_read_cell-write_cell_example :
    (read_cell sliced_part (write_cell sliced_part cells (1 ∷ 2 ∷ []) 5) (1 ∷ 2 ∷ []) ≡ 5)
    × (read_cell sliced_part (write_cell sliced_part cells (1 ∷ 2 ∷ []) 5) (0 ∷ 2 ∷ [])
        ≡ read_cell sliced_part cells (0 ∷ 2 ∷ []))
    × (read_cell
          (split_region sliced_part (1 ∷ 0 ∷ []) (1 ∷ 3 ∷ []))
          (write_cell sliced_part cells (1 ∷ 2 ∷ []) 5)
          (0 ∷ 2 ∷ [])
        ≡ 5)
region_read_cell-write_cell_example =
    region_read_cell-write_cell sliced_part cells (1 ∷ 2 ∷ []) (0 ∷ 2 ∷ []) (1 ∷ 0 ∷ [])
      (1 ∷ 3 ∷ []) (0 ∷ 2 ∷ []) 5 refl refl refl written_cell kept_cell
      (λ e. absurd (ground (arith, e))) refl refl refl

region_data_coord-split_region_example :
    region_data_coord (split_region sliced_part (1 ∷ 0 ∷ []) (1 ∷ 2 ∷ [])) (0 ∷ 1 ∷ [])
    ≡ region_data_coord sliced_part (add_coords (1 ∷ 0 ∷ []) (0 ∷ 1 ∷ []))
region_data_coord-split_region_example =
    region_data_coord-split_region sliced_part (1 ∷ 0 ∷ []) (1 ∷ 2 ∷ []) (0 ∷ 1 ∷ []) refl refl

region_data_coord-slice_region_example :
    (r' : RegionMatrix) × (slice_region sliced_part 0 1 ≡ some r')
    × (region_data_coord r' (2 ∷ []) ≡ region_data_coord sliced_part (put_in 0 1 (2 ∷ [])))
region_data_coord-slice_region_example =
    region_data_coord-slice_region sliced_part 0 1 (2 ∷ []) refl refl (omega arith) (omega arith)

-- Dimension 0, and then what was dimension 1.
slice_region-twice_example :
    (r' : RegionMatrix) × (slice_region part 0 1 ≡ some r') × (slice_region r' 0 1 ≡ none)
slice_region-twice_example =
    slice_region-twice part 0 0 1 1 refl refl (omega arith) (omega arith) refl

to_local_region-data_example :
    coord_to_ptr (to_local_region sliced_part none) (1 ∷ 2 ∷ [])
    ≡ dot (ascending_from 1 (4 ∷ 3 ∷ 2 ∷ [])) (region_data_coord sliced_part (1 ∷ 2 ∷ []))
unfolding meta_data
to_local_region-data_example = to_local_region-data sliced_part none (1 ∷ 2 ∷ []) refl refl

abbrev widths : Widths
widths = record { of_int = 4; of_index = 4; of_bool = 1; of_name = 24 }

-- A process that knows no handler yet.
abbrev receiver : HandlerDb
receiver = record { self = 0; own = λ n. matrix_data; known = []; fresh = 3 }

unserialize-serialize_example :
    unserialize 2 receiver (serialize sliced_part)
    ≡ some (
      record sliced_part { handler = (handler_at receiver matrix_data).0 },
      (handler_at receiver matrix_data).1,
    )
unserialize-serialize_example = unserialize-serialize receiver sliced_part refl
