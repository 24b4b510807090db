-- ===== src/Matrix/Copy.antt =====
-- The copying loops of runtime/matrixregion.h, `to_c_array` and `from_c_array` of
-- runtime/petabricks.h. The memory is a value for each buffer and offset; the loops take fuel for
-- their rounds.
pub mod Transfer
pub mod Boxes
pub mod Arrays
use petabricks.Base.{
  ℕ, zero, suc, ◌+◌, Bool, true, false, ◌&&◌, Option, none, some, List, [], ◌∷◌, leb, ◌==◌,
  if◌then◌else◌, length, ltb,
}
use petabricks.Matrix.{Region, Storage, coord_to_ptr, is_entire_buffer}
use petabricks.Matrix.Coord.{inc_coord, inc_coord_with_bound, zeros}
use petabricks.Matrix.Loop.{coord_loop}

abbrev pub Memory : Type 0 → Type 0
Memory E = ℕ → ℕ → E

-- Which buffer a region's storage is; 0 is the null pointer.
abbrev pub buffer : Option Storage → ℕ
buffer none = 0
buffer (some s) = suc s.ident

abbrev pub same_storage : Region → Region → Bool
same_storage r s = buffer r.storage == buffer s.storage

-- Some dimension of the box is empty.
abbrev pub is_flat : List ℕ → List ℕ → Bool
is_flat (a ∷ c1) (b ∷ c2) = if leb b a then true else is_flat c1 c2
is_flat _ _ = false

module _ {E : Type 0} where
  abbrev pub write : Memory E → ℕ → ℕ → E → Memory E
  write mem b a x b' a' = if b' == b && a' == a then x else mem b' a'

  -- `cell(coord)`
  abbrev pub cell : Memory E → Region → List ℕ → E
  cell mem r c = mem (buffer r.storage) (coord_to_ptr r c)

  abbrev pub set_cell : Memory E → Region → List ℕ → E → Memory E
  set_cell mem r c = write mem (buffer r.storage) (coord_to_ptr r c)

  -- `_regioncopy(out, in)`: `out` is the start of a buffer.
  unfoldable pub region_copy_out : ℕ → Region → ℕ → Memory E → Option (ℕ × Memory E)
  region_copy_out fuel r out mem =
      coord_loop (inc_coord r.sizes) (λ c (n, m). (n + 1, write m out n (cell m r c))) fuel
        (zeros r.sizes) (0, mem)

  -- `_regioncopy(out, in)` the other way.
  unfoldable pub region_copy_in : ℕ → Region → ℕ → Memory E → Option (ℕ × Memory E)
  region_copy_in fuel r inp mem =
      coord_loop (inc_coord r.sizes) (λ c (n, m). (n + 1, set_cell m r c (m inp n))) fuel
        (zeros r.sizes) (0, mem)

  -- `copyTo(dst)`
  unfoldable copy_to : ℕ → Region → Region → Memory E → Option (Memory E)
  copy_to fuel src dst mem =
      if same_storage src dst
      then some mem
      else coord_loop (inc_coord src.sizes) (λ c m. set_cell m dst c (cell m src c)) fuel
          (zeros src.sizes) mem

  -- `copyTo(dst, c1, c2)`
  unfoldable pub copy_to_box : ℕ → Region → Region → List ℕ → List ℕ → Memory E → Option (Memory E)
  copy_to_box fuel src dst c1 c2 mem =
      if same_storage src dst
      then some mem
      else if is_flat c1 c2
      then some mem
      else coord_loop (inc_coord_with_bound c1 c2) (λ c m. set_cell m dst c (cell m src c)) fuel c1
          mem

  -- The loop of `copyTo(dst, begins, ends)`.
  unfoldable copy_to_each :
      ℕ → Region → Region → List (List ℕ × List ℕ) → Memory E → Option (Memory E)
  copy_to_each fuel src dst [] mem = some mem
  copy_to_each fuel src dst ((c1, c2) ∷ boxes) mem = elim (copy_to_box fuel src dst c1 c2 mem) [
    | none ↦ none
    | some m ↦ copy_to_each fuel src dst boxes m
  ]

  -- `copyTo(dst, begins, ends)`
  unfoldable copy_to_boxes :
      ℕ → Region → Region → List (List ℕ × List ℕ) → Memory E → Option (Memory E)
  copy_to_boxes fuel src dst boxes mem = if same_storage src dst then some mem else elim boxes [
    | [] ↦ copy_to fuel src dst mem
    | b ∷ bs ↦ copy_to_each fuel src dst (b ∷ bs) mem
  ]

  -- `to_c_array`: the buffer that holds the array, `fresh` if one is allocated.
  unfoldable to_c_array : ℕ → Region → ℕ → Memory E → Option (ℕ × Memory E)
  to_c_array fuel r fresh mem =
      if ltb 0 (length r.sizes) && is_entire_buffer r
      then some (buffer r.storage, mem)
      else elim (region_copy_out fuel r fresh mem) [ none ↦ none | some (n, m) ↦ some (fresh, m) ]

  -- `from_c_array`, of an array in the buffer `array`.
  unfoldable from_c_array : ℕ → Region → ℕ → Memory E → Option (Memory E)
  from_c_array fuel r array mem =
      if ltb 0 (length r.sizes) && (buffer r.storage == array)
      then some mem
      else elim (region_copy_in fuel r array mem) [ none ↦ none | some (n, m) ↦ some m ]
