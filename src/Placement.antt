-- ===== src/Placement.antt =====
-- runtime/regionhandler.cpp: where `RegionHandler::allocData` puts the data of a region, and
-- `allocHost` of runtime/remotehost.h, which numbers the processes. `distribution_size` and the
-- split sizes are above 0 where the source divides by them.
pub mod Hosts
pub mod Order
pub mod Filled
pub mod Parts
pub mod Lines
mod Tests
use petabricks.Base.{
  ℕ, zero, suc, ◌+◌, ◌-◌, ◌*◌, ◌/◌, ◌%◌, Bool, true, false, not, ◌&&◌, ◌||◌, Option, none, some,
  List, [], ◌∷◌, ◌++◌, ltb, leb, ◌==◌, if◌then◌else◌, length, get_elem?, and_then,
}
use petabricks.Split.{Split, create_part, alloc_data}
use petabricks.Split

-- `RegionDataDistributions`
pub data Distribution : Type 0 where
  local one_remote n_by_row n_by_col n_by_block n_by_block_transposed : Distribution

-- The other processes, in the order in which they are known, and this one's number.
pub record HostDb : Type 0 where
  pub hosts : List ℕ
  pub alloc_host_number : ℕ

abbrev process_of : Option ℕ → Option (Option ℕ)
process_of none = none
process_of (some h) = some (some h)

-- `allocHost`: `some none` is the null pointer, for this process; `none` is a read past the hosts.
unfoldable pub alloc_host : HostDb → ℕ → Option (Option ℕ)
alloc_host db i =
    if ltb i db.alloc_host_number
    then process_of (get_elem? db.hosts i)
    else if i == db.alloc_host_number
    then some none
    else process_of (get_elem? db.hosts (i - 1))

-- `static int numHosts`
abbrev pub num_hosts : HostDb → ℕ
num_hosts db = length db.hosts + 1

unfoldable is_size_larger_than_distributed_cutoff : List ℕ → ℕ → Bool
is_size_larger_than_distributed_cutoff [] cutoff = false
is_size_larger_than_distributed_cutoff (s ∷ size) cutoff =
    if leb cutoff s then true else is_size_larger_than_distributed_cutoff size cutoff

-- A part and the number of the process that it is created on, in the order of creation.
abbrev pub Placing : Type 0
Placing = List (ℕ × ℕ)

-- `if (r >= numHosts) r = 0;`
abbrev pub wrapped : ℕ → ℕ → ℕ
wrapped n r = if leb n r then 0 else r

-- The loop of `allocDataNBySlice` and of the last branch of `allocDataNByBlock`: `n` parts from `i` on.
unfoldable pub place_each : ℕ → ℕ → ℕ → ℕ → Placing
place_each n_hosts zero i r = []
place_each n_hosts (suc n) i r = (i, r) ∷ place_each n_hosts n (i + 1) (wrapped n_hosts r)

-- The inner loops of `allocDataNByBlock`: `n` parts of a line from `i` on, of a line of `m`; `index` is
-- the number of a part. The parts, and `r` after them.
unfoldable pub place_line : ℕ → (ℕ → ℕ) → ℕ → Bool → ℕ → ℕ → ℕ → Placing × ℕ
place_line n_hosts index m has_extra zero i r = ([], r)
place_line n_hosts index m has_extra (suc n) i r =
    let next = if not has_extra || not (i + 2 == m) then r + 1 else r in
    let (rest, last) = place_line n_hosts index m has_extra n (i + 1) (wrapped n_hosts next) in
    ((index i, r) ∷ rest, last)

-- The outer loops: `k` lines from `j` on, of `l` lines of `m` parts. `begin` is where the line before
-- began.
unfoldable pub place_lines : ℕ → (ℕ → ℕ → ℕ) → ℕ → ℕ → Bool → Bool → ℕ → ℕ → ℕ → ℕ → Placing
unfolding place_line
place_lines n_hosts index l m extra_line extra zero j begin r = []
place_lines n_hosts index l m extra_line extra (suc k) j begin r =
    let r' = if extra_line && (j + 1 == l) then begin else r in
    let (line, last) = place_line n_hosts (index j) m extra m 0 r' in
    line ++ place_lines n_hosts index l m extra_line extra k (j + 1) r' last

-- A part of the size, rounded up where a remainder is not left over for a part of its own.
abbrev pub at_least_one : ℕ → ℕ
at_least_one n = if n == 0 then 1 else n

-- `numCols` and `numRows`
abbrev pub num_parts_of : ℕ → ℕ → ℕ
num_parts_of s p = if s % p == 0 then s / p else s / p + 1

-- The split size of `allocDataNBySlice`.
unfoldable pub slice_split : List ℕ → ℕ → ℕ → List ℕ
slice_split [] n d = []
slice_split (s ∷ size) n zero = at_least_one (s / n) ∷ size
slice_split (s ∷ size) n (suc d) = s ∷ slice_split size n d

-- Whether `allocDataNByBlock` has a part of its own for the remainder.
abbrev pub has_extra : ℕ → ℕ → Bool
has_extra s n = not (s % n == 0)

-- Its split size, in two dimensions and in others.
unfoldable block_split_2d : List ℕ → ℕ → List ℕ
block_split_2d [] n = []
block_split_2d (s ∷ size) n = at_least_one (s / n) ∷ block_split_2d size n

unfoldable block_split : List ℕ → ℕ → List ℕ
block_split [] n = []
block_split (s ∷ size) n =
    at_least_one (if has_extra s n then s / n + 1 else s / n) ∷ block_split size n

-- `createPart` of each.
unfoldable pub create_parts : HostDb → Placing → Split → Option Split
unfolding alloc_host create_part
create_parts db [] s = some s
create_parts db ((i, r) ∷ placing) s =
    and_then (alloc_host db r)
      (λ host. and_then (create_part s i host) (λ s'. create_parts db placing s'))

-- `if (distributionSize > numHosts) distributionSize = numHosts;`
abbrev pub clamped : ℕ → ℕ → ℕ
clamped n_hosts n = if ltb n_hosts n then n_hosts else n

unfoldable pub alloc_data_n_by_slice : HostDb → List ℕ → ℕ → ℕ → Option Split
unfolding slice_split place_each create_parts alloc_data
alloc_data_n_by_slice db size distribution_size d =
    let s = Split.init size (slice_split size (clamped (num_hosts db) distribution_size) d) in
    and_then (create_parts db (place_each (num_hosts db) s.num_parts 0 0) s) alloc_data

-- The parts of a matrix of two dimensions: lines are rows, or columns if transposed.
unfoldable pub place_blocks : ℕ → Bool → Bool → Bool → ℕ → ℕ → Placing
unfolding place_lines
place_blocks n_hosts transposed extra_col extra_row cols rows =
    if transposed
    then place_lines n_hosts (λ i j. j * cols + i) cols rows extra_col extra_row cols 0 0 0
    else place_lines n_hosts (λ j i. j * cols + i) rows cols extra_row extra_col rows 0 0 0

unfoldable pub alloc_data_n_by_block : HostDb → List ℕ → ℕ → Bool → Option Split
unfolding block_split_2d block_split place_blocks place_each create_parts alloc_data
alloc_data_n_by_block db (w ∷ h ∷ []) distribution_size transposed =
    let n = clamped (num_hosts db) distribution_size in
    let s = Split.init (w ∷ h ∷ []) (block_split_2d (w ∷ h ∷ []) n) in
    let cols = num_parts_of w (at_least_one (w / n)) in
    let rows = num_parts_of h (at_least_one (h / n)) in
    let placing =
      place_blocks (num_hosts db) transposed (has_extra w n) (has_extra h n) cols rows in
    and_then (create_parts db placing s) alloc_data
alloc_data_n_by_block db size distribution_size transposed =
    let n = clamped (num_hosts db) distribution_size in
    let s = Split.init size (block_split size n) in
    and_then (create_parts db (place_each (num_hosts db) s.num_parts 0 0) s) alloc_data

-- What a handler without data gets: local data, data on one other process, or split data.
pub data Allocated : Type 0 where
  raw : List ℕ → Allocated
  remote : ℕ → List ℕ → Allocated
  parts : Split → Allocated

abbrev in_parts : Option Split → Option Allocated
in_parts none = none
in_parts (some s) = some (parts s)

-- `allocDataOneRemoteNode`: `random` is what `randInt(0, numHosts)` returns.
unfoldable alloc_data_one_remote_node : HostDb → List ℕ → ℕ → Option Allocated
alloc_data_one_remote_node db size random = elim db.hosts [
  | [] ↦ some (raw size)
  | h ∷ hs ↦ elim (get_elem? db.hosts random) [ none ↦ none | some host ↦ some (remote host size) ]
]

-- `_D >= 2 && size[1] >= distributedCutoff`
abbrev has_many_rows : List ℕ → ℕ → Bool
has_many_rows (w ∷ h ∷ size) cutoff = leb cutoff h
has_many_rows _ cutoff = false

abbrev has_many_cols : List ℕ → ℕ → Bool
has_many_cols (w ∷ size) cutoff = leb cutoff w
has_many_cols [] cutoff = false

-- `allocData` of a handler that has no data yet.
unfoldable alloc_region_data : HostDb → List ℕ → ℕ → Distribution → ℕ → ℕ → Option Allocated
unfolding is_size_larger_than_distributed_cutoff alloc_data_one_remote_node alloc_data_n_by_slice
    alloc_data_n_by_block
alloc_region_data db size cutoff local n random = some (raw size)
alloc_region_data db size cutoff one_remote n random =
    if is_size_larger_than_distributed_cutoff size cutoff
    then alloc_data_one_remote_node db size random
    else some (raw size)
alloc_region_data db size cutoff n_by_row n random =
    if has_many_rows size cutoff
    then in_parts (alloc_data_n_by_slice db size n 1)
    else some (raw size)
alloc_region_data db size cutoff n_by_col n random =
    if has_many_cols size cutoff
    then in_parts (alloc_data_n_by_slice db size n 0)
    else some (raw size)
alloc_region_data db size cutoff n_by_block n random =
    if is_size_larger_than_distributed_cutoff size cutoff
    then in_parts (alloc_data_n_by_block db size n false)
    else some (raw size)
alloc_region_data db size cutoff n_by_block_transposed n random =
    if is_size_larger_than_distributed_cutoff size cutoff
    then in_parts (alloc_data_n_by_block db size n true)
    else some (raw size)
