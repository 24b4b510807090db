-- ===== src/RegionData/Copies.antt =====
-- The copies between a `RegionDataRaw` and a scratch storage, and those that serve the messages.
use petabricks.Base.{ℕ, ◌≤◌, ◌<◌, ◌≡◌, ◌≢◌, refl, sym, ap, some, List, [], length, product, ==_iff}
use petabricks.Matrix.{Storage}
use petabricks.Matrix.Coord.{InBounds}
use petabricks.Matrix.Coord.Rank.{rank}
use petabricks.Matrix.Copy.{Memory, buffer}
use petabricks.RegionData.{
  Metadata, Raw, size_to_multipliers, copy_to_scratch, copy_from_scratch, process_copy_to,
  process_copy_from, memory_of, with_count,
}
use petabricks.RegionData.Parts.{Fits, index, scratch_multipliers-Fits}
use petabricks.RegionData.Loops.{IsOutside, IsCopied, loop_cells, counted_cells, collected_cells}

-- The storage is laid out by its sizes.
abbrev pub IsLaidOut : Raw → Type 0
IsLaidOut raw = raw.multipliers ≡ size_to_multipliers raw.size

module _ {E : Type 0} where
  -- `copyToScratchMatrixStorage` of a part that fits the data into a part of the same size that fits
  -- the scratch storage ends, with a round of fuel for each cell. Then each cell of the scratch part is
  -- that of the data; an offset of the scratch storage that is not in its part, and the other buffers,
  -- have not changed. The two storages are different,
  -- and the scratch part has a dimension and no slices.
  copy_to_scratch_cells :
      (fuel : ℕ) (raw : Raw) (m scratch_m : Metadata) (scratch : Storage) (scratch_size : List ℕ)
      (mem : Memory E) (c : List ℕ) (a : ℕ)
      → IsLaidOut raw
      → Fits scratch_m scratch_size
      → scratch_m.size ≡ m.size
      → scratch_m.slices ≡ []
      → 0 < length m.size
      → product m.size ≤ fuel
      → buffer raw.storage ≢ buffer (some scratch)
      → InBounds m.size c
      → IsOutside scratch_m scratch_size a
      → (mem' : Memory E) × (copy_to_scratch fuel raw m scratch scratch_m scratch_size mem
          ≡ some mem')
        × IsCopied mem mem'
            (buffer raw.storage)
            (index m raw.size c)
            (buffer (some scratch))
            (index scratch_m scratch_size c)
            a
  unfolding copy_to_scratch
  copy_to_scratch_cells fuel raw m scratch_m scratch scratch_size mem c a l f e k p h d i out =
      rw
        (
          l,
          (==_iff (length m.size) (length scratch_m.size)).1 (ap length (sym e)),
          scratch_multipliers-Fits scratch_m scratch_size m.size f e k p,
        )
        (loop_cells fuel scratch_m scratch_size m.size (buffer raw.storage) (buffer (some scratch))
          (index m raw.size) mem c a f e h d i out)

  -- `copyFromScratchMatrixStorage` ends in the same way, and then each cell of the part is that of the
  -- scratch part; the rest of the data and the other buffers have not changed. The parts fit, and
  -- the scratch part has a dimension and no slices.
  copy_from_scratch_cells :
      (fuel : ℕ) (raw : Raw) (m scratch_m : Metadata) (scratch : Storage) (scratch_size : List ℕ)
      (mem : Memory E) (c : List ℕ) (a : ℕ)
      → IsLaidOut raw
      → Fits m raw.size
      → Fits scratch_m scratch_size
      → scratch_m.size ≡ m.size
      → scratch_m.slices ≡ []
      → 0 < length m.size
      → product m.size ≤ fuel
      → buffer (some scratch) ≢ buffer raw.storage
      → InBounds m.size c
      → IsOutside m raw.size a
      → (mem' : Memory E) × (copy_from_scratch fuel raw m scratch scratch_m scratch_size mem
          ≡ some mem')
        × IsCopied mem mem'
            (buffer (some scratch))
            (index scratch_m scratch_size c)
            (buffer raw.storage)
            (index m raw.size c)
            a
  unfolding copy_from_scratch
  copy_from_scratch_cells fuel raw m scratch_m scratch scratch_size mem c a l f f' e k p h d i out =
      rw (l, scratch_multipliers-Fits scratch_m scratch_size m.size f' e k p)
        (loop_cells fuel m raw.size m.size (buffer (some scratch)) (buffer raw.storage)
          (index scratch_m scratch_size) mem c a f refl h d i out)

  -- The reply that `processCopyToMatrixStorageMsg` makes, with a round of fuel for each cell, has the
  -- number of cells of the part that was asked for, and at the place of each cell, in the order of
  -- `incCoord`, that cell of the data. Nothing else has changed.
  pub process_copy_to_cells :
      (fuel : ℕ) (raw : Raw) (m : Metadata) (reply : ℕ) (mem : Memory E) (c : List ℕ) (a : ℕ)
      → IsLaidOut raw
      → product m.size ≤ fuel
      → buffer raw.storage ≢ reply
      → InBounds m.size c
      → product m.size ≤ a
      → (mem' : Memory E) × (process_copy_to fuel raw m reply mem ≡ some (product m.size, mem'))
        × IsCopied mem mem' (buffer raw.storage) (index m raw.size c) reply (rank m.size c) a
  unfolding process_copy_to
  process_copy_to_cells fuel raw m reply mem c a l h d i out =
      let (mem', loop, copied) =
        collected_cells fuel m.size (buffer raw.storage) reply (index m raw.size) mem c a h d i
          out in
      (mem', rw l (ap (with_count (product m.size)) loop), copied)

  -- `processCopyFromMatrixStorageMsg` of a part that fits the data ends, with a round of fuel for each
  -- cell. Then each cell of the part is the entry of the message at its place; the rest of the data and
  -- the other buffers have not changed.
  pub process_copy_from_cells :
      (fuel : ℕ) (raw : Raw) (m : Metadata) (message : ℕ) (mem : Memory E) (c : List ℕ) (a : ℕ)
      → IsLaidOut raw
      → Fits m raw.size
      → product m.size ≤ fuel
      → message ≢ buffer raw.storage
      → InBounds m.size c
      → IsOutside m raw.size a
      → (mem' : Memory E) × (process_copy_from fuel raw m message mem ≡ some mem')
        × IsCopied mem mem' message (rank m.size c) (buffer raw.storage) (index m raw.size c) a
  unfolding process_copy_from
  process_copy_from_cells fuel raw m message mem c a l f h d i out =
      let (mem', loop, copied) =
        counted_cells fuel m raw.size m.size message (buffer raw.storage) mem c a f refl h d i
          out in
      (mem', rw l (ap memory_of loop), copied)
