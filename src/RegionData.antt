-- ===== src/RegionData.antt =====
-- The data of a region in this process: the helpers of runtime/regiondatai.cpp and `RegionDataRaw` of
-- runtime/regiondataraw.cpp, whose cells are in one storage. The memory is a value for each buffer and
-- offset, as in Matrix/Copy, and the loops take fuel for their rounds.
pub mod Parts
pub mod Whole
pub mod Loops
pub mod Copies
pub mod Remote
pub mod Cache
pub mod Alloc
mod Tests
use petabricks.Base.{
  ℕ, zero, suc, ◌+◌, ◌-◌, ◌*◌, ◌%◌, Bool, true, false, ◌&&◌, Option, none, some, List, [], ◌∷◌, ltb,
  leb, ◌==◌, if◌then◌else◌, length, product, take, and_then,
}
use petabricks.Matrix.{Storage, interval_size}
use petabricks.Matrix.Layout.{dot, ascending_from}
use petabricks.Matrix.Coord.{inc_coord, zeros}
use petabricks.Matrix.Loop.{coord_loop}
use petabricks.Matrix.Copy.{Memory, buffer, write}
use petabricks.RegionMatrix.{Slices, data_coord}

-- `RegionMatrixMetadata`: a part of the data, which a message asks for.
pub record Metadata : Type 0 where
  pub split_offset : List ℕ
  pub size : List ℕ
  pub slices : Slices

unfoldable pub size_to_multipliers : List ℕ → List ℕ
unfolding ascending_from
size_to_multipliers size = ascending_from 1 size

unfoldable pub to_region_data_coord : Metadata → List ℕ → List ℕ
unfolding data_coord
to_region_data_coord m c = data_coord 0 (length m.size + length m.slices) m.slices m.split_offset c

unfoldable pub coord_to_offset : List ℕ → List ℕ → ℕ
unfolding dot
coord_to_offset c multipliers = dot multipliers c

unfoldable pub to_region_data_index : Metadata → List ℕ → List ℕ → ℕ
unfolding to_region_data_coord coord_to_offset
to_region_data_index m multipliers c = coord_to_offset (to_region_data_coord m c) multipliers

-- The local array of the multipliers of a scratch storage, which has `d` entries; `toRegionDataIndex`
-- reads one more for each slice of the scratch part, so a sliced part is read past the array (`none`);
-- and with no dimensions `sizeToMultipliers` writes past it.
unfoldable pub scratch_multipliers : ℕ → Metadata → List ℕ → Option (List ℕ)
unfolding size_to_multipliers
scratch_multipliers d scratch_m scratch_size =
    if leb 1 d && length scratch_m.slices == 0
    then some (size_to_multipliers (take d scratch_size))
    else none

-- `RegionDataRaw`. The storage is null until it is allocated.
pub record Raw : Type 0 where
  pub size : List ℕ
  pub multipliers : List ℕ
  pub storage : Option Storage

-- The number of cells that were allocated, and the data; `ident` is the new storage.
unfoldable pub alloc_data : ℕ → Raw → ℕ × Raw
alloc_data ident raw = elim raw.storage [
  | some s ↦ (0, raw)
  | none ↦ (
    product raw.size,
    record raw { storage = some (record { ident = ident; count = product raw.size }) },
  )
]

unfoldable pub coord_offset : Raw → List ℕ → ℕ
unfolding dot
coord_offset raw c = dot raw.multipliers c

module _ {E : Type 0} where
  -- `memcpy` of `n` elements from the start of a buffer to that of another.
  abbrev pub copy_elements : ℕ → ℕ → ℕ → Memory E → Memory E
  copy_elements n source target mem b a = if b == target && ltb a n then mem source a else mem b a

  -- `init(dimensions, size, data)`: the data is in a buffer, or null.
  unfoldable pub init : ℕ → List ℕ → Option ℕ → Memory E → Raw × Memory E
  unfolding size_to_multipliers alloc_data
  init ident size data_buffer mem =
      let empty : Raw = record {
        size = size;
        multipliers = size_to_multipliers size;
        storage = none;
      } in
      elim data_buffer [
        | none ↦ (empty, mem)
        | some source ↦
            let (n, raw) = alloc_data ident empty in
            (raw, copy_elements n source (buffer raw.storage) mem)
      ]

  unfoldable pub read_cell : Raw → Memory E → List ℕ → E
  unfolding coord_offset
  read_cell raw mem c = mem (buffer raw.storage) (coord_offset raw c)

  unfoldable pub write_cell : Raw → Memory E → List ℕ → E → Memory E
  unfolding coord_offset
  write_cell raw mem c v = write mem (buffer raw.storage) (coord_offset raw c) v

  -- `copyToScratchMatrixStorage`: from the part `m` to the part `scratch_m` of a scratch storage, which
  -- has the same dimensions by an assertion.
  unfoldable pub copy_to_scratch :
      ℕ → Raw → Metadata → Storage → Metadata → List ℕ → Memory E → Option (Memory E)
  unfolding to_region_data_index scratch_multipliers
  copy_to_scratch fuel raw m scratch scratch_m scratch_size mem =
      if length m.size == length scratch_m.size
      then and_then (scratch_multipliers (length m.size) scratch_m scratch_size) (λ multipliers.
        coord_loop (inc_coord m.size)
          (λ c mem'.
            write mem' (buffer (some scratch)) (to_region_data_index scratch_m multipliers c)
              (mem' (buffer raw.storage) (to_region_data_index m raw.multipliers c)))
          fuel (zeros m.size) mem)
      else none

  -- `copyFromScratchMatrixStorage`
  unfoldable pub copy_from_scratch :
      ℕ → Raw → Metadata → Storage → Metadata → List ℕ → Memory E → Option (Memory E)
  unfolding to_region_data_index scratch_multipliers
  copy_from_scratch fuel raw m scratch scratch_m scratch_size mem =
      and_then (scratch_multipliers (length m.size) scratch_m scratch_size) (λ multipliers.
        coord_loop (inc_coord m.size)
          (λ c mem'.
            write mem' (buffer raw.storage) (to_region_data_index m raw.multipliers c)
              (mem' (buffer (some scratch)) (to_region_data_index scratch_m multipliers c)))
          fuel (zeros m.size) mem)

  -- What a loop that counts its rounds leaves.
  abbrev pub memory_of : Option (ℕ × Memory E) → Option (Memory E)
  memory_of none = none
  memory_of (some (n, mem)) = some mem

  abbrev pub with_count : ℕ → Option (ℕ × Memory E) → Option (ℕ × Memory E)
  with_count count none = none
  with_count count (some (n, mem)) = some (count, mem)

  -- `processCopyToMatrixStorageMsg`: the reply's count, and the memory with the reply's storage, which
  -- is the buffer `reply`.
  unfoldable pub process_copy_to : ℕ → Raw → Metadata → ℕ → Memory E → Option (ℕ × Memory E)
  unfolding to_region_data_index
  process_copy_to fuel raw m reply mem = with_count (product m.size) (
      coord_loop (inc_coord m.size)
        (λ c (n, mem'). (
          n + 1,
          write mem' reply n (mem' (buffer raw.storage) (to_region_data_index m raw.multipliers c)),
        ))
        fuel (zeros m.size) (0, mem))

  -- `processCopyFromMatrixStorageMsg`: the message's storage is the buffer `message`.
  unfoldable pub process_copy_from : ℕ → Raw → Metadata → ℕ → Memory E → Option (Memory E)
  unfolding to_region_data_index
  process_copy_from fuel raw m message mem = memory_of (
      coord_loop (inc_coord m.size)
        (λ c (n, mem'). (
          n + 1,
          write mem' (buffer raw.storage) (to_region_data_index m raw.multipliers c)
              (mem' message n),
        ))
        fuel (zeros m.size) (0, mem))

-- `hosts(begin, end)`: this process has all of them.
unfoldable pub hosts : ℕ → List ℕ → List ℕ → List (ℕ × ℕ)
unfolding interval_size
hosts self begins ends = (self, interval_size begins ends) ∷ []
