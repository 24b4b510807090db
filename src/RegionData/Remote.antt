-- ===== src/RegionData/Remote.antt =====
-- `RegionDataRemote` of runtime/regiondataremote.cpp, of data that is not split: the other process has
-- a `RegionDataRaw`, and a message is answered before the next one is sent. The memory holds the
-- buffers of both processes.
pub mod Copies
use petabricks.Base.{
  ℕ, ◌+◌, Option, none, some, List, ◌==◌, if◌then◌else◌, length, product, and_then,
}
use petabricks.Matrix.{Storage}
use petabricks.Matrix.Coord.{inc_coord, zeros}
use petabricks.Matrix.Loop.{coord_loop}
use petabricks.Matrix.Copy.{Memory, buffer, write}
use petabricks.RegionData.{
  Metadata, Raw, scratch_multipliers, to_region_data_index, process_copy_to, process_copy_from,
  copy_elements, memory_of,
}

module _ {E : Type 0} where
  -- What is done with the reply, which is the buffer `reply` and has `n` entries.
  unfoldable pub unpack :
      ℕ → ℕ → ℕ → List ℕ → Storage → Metadata → List ℕ → Memory E → Option (Memory E)
  unfolding to_region_data_index scratch_multipliers
  unpack fuel n reply size scratch scratch_m scratch_size mem =
      if n == scratch.count
      then some (copy_elements n reply (buffer (some scratch)) mem)
      else and_then (scratch_multipliers (length size) scratch_m scratch_size) (λ multipliers.
        memory_of (
          coord_loop (inc_coord size)
            (λ c (n, mem'). (
              n + 1,
              write mem' (buffer (some scratch)) (to_region_data_index scratch_m multipliers c)
                  (mem' reply n),
            ))
            fuel (zeros size) (0, mem)))

  -- `copyToScratchMatrixStorage`
  unfoldable pub copy_to_scratch :
      ℕ → Raw → Metadata → ℕ → Storage → Metadata → List ℕ → Memory E → Option (Memory E)
  unfolding unpack process_copy_to
  copy_to_scratch fuel raw m reply scratch scratch_m scratch_size mem =
      and_then (process_copy_to fuel raw m reply mem)
        (λ (n, mem'). unpack fuel n reply m.size scratch scratch_m scratch_size mem')

  -- The storage of the message, which is the buffer `message`.
  unfoldable pub pack :
      ℕ → ℕ → ℕ → List ℕ → Storage → Metadata → List ℕ → Memory E → Option (Memory E)
  unfolding to_region_data_index scratch_multipliers
  pack fuel n message size scratch scratch_m scratch_size mem =
      if n == scratch.count
      then some (copy_elements n (buffer (some scratch)) message mem)
      else and_then (scratch_multipliers (length size) scratch_m scratch_size) (λ multipliers.
        memory_of (
          coord_loop (inc_coord size)
            (λ c (n, mem'). (
              n + 1,
              write mem' message n
                  (mem' (buffer (some scratch)) (to_region_data_index scratch_m multipliers c)),
            ))
            fuel (zeros size) (0, mem)))

  -- `copyFromScratchMatrixStorage`
  unfoldable pub copy_from_scratch :
      ℕ → Raw → Metadata → ℕ → Storage → Metadata → List ℕ → Memory E → Option (Memory E)
  unfolding pack process_copy_from
  copy_from_scratch fuel raw m message scratch scratch_m scratch_size mem =
      and_then (pack fuel (product m.size) message m.size scratch scratch_m scratch_size mem)
        (λ mem'. process_copy_from fuel raw m message mem')
