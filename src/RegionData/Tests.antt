-- ===== src/RegionData/Tests.antt =====
-- Runs of the operations of RegionData on small data: a matrix of 3 by 2 in storage 0, of which a part
-- of one column is copied to a scratch storage.
use petabricks.Base.{
  ℕ, ◌+◌, ◌*◌, ◌≡◌, refl, ◌||◌, ◌==◌, if◌then◌else◌, some, List, [], ◌∷◌, arith, product, All, ◌≤◌,
}
use petabricks.Matrix.{Storage}
use petabricks.Matrix.Coord.Rank.{rank}
use petabricks.Matrix.Layout.{dot}
use petabricks.Matrix.Copy.{Memory, buffer}
use petabricks.RegionData.{Metadata, Raw, size_to_multipliers, alloc_data, init, read_cell}
use petabricks.RegionData.Parts.{Fits, index, index-lt}
use petabricks.RegionData.Loops.{IsOutside}
use petabricks.RegionData.Copies.{IsLaidOut}
use petabricks.RegionData.Alloc.{init-read_cell}
use petabricks.RegionData.Remote
use petabricks.RegionData.Remote.Copies.{
  remote_copy_to_scratch_cells, remote_copy_from_scratch_cells,
}
use petabricks.RegionData.Cache.{Remote, of_size}
use petabricks.RegionData.Cache.Runs.{
  Access, IsInside, read, write, forget, run_cached, run_direct, run_cached-direct,
}

abbrev raw : Raw
raw = record {
  size = 3 ∷ 2 ∷ [];
  multipliers = size_to_multipliers (3 ∷ 2 ∷ []);
  storage = some (record { ident = 0; count = 6 });
}

-- Column 1, and where it goes in a scratch storage of 4.
abbrev column : Metadata
column = record { split_offset = 0 ∷ []; size = 2 ∷ []; slices = (0, 1) ∷ [] }

abbrev inner : Metadata
inner = record { split_offset = 1 ∷ []; size = 2 ∷ []; slices = [] }

abbrev scratch : Storage
scratch = record { ident = 1; count = 4 }

abbrev memory : Memory ℕ
memory b a = 10 * b + a

init-read_cell_example :
    let (raw, mem') = init 0 (3 ∷ 2 ∷ []) (some 5) memory in
    IsLaidOut raw
    × (read_cell raw mem' (1 ∷ 1 ∷ []) ≡ memory 5 (rank (3 ∷ 2 ∷ []) (1 ∷ 1 ∷ [])))
    × (alloc_data 7 raw ≡ (0, raw))
init-read_cell_example =
    init-read_cell 0 7 (3 ∷ 2 ∷ []) 5 memory (1 ∷ 1 ∷ []) (omega arith, (omega arith, tt))

inner-Fits : Fits inner (4 ∷ [])
inner-Fits = ((omega arith, (refl, refl)), refl)

column-Fits : Fits column (3 ∷ 2 ∷ [])
column-Fits = ((omega arith, (omega arith, (refl, refl))), refl)

-- Nothing of a part is beyond the data.
outside :
    (m : Metadata) (data_size : List ℕ) (a : ℕ)
    → Fits m data_size
    → product data_size ≤ a
    → IsOutside m data_size a
outside m data_size a f h c b e = absurd (omega (arith, index-lt m data_size c f b, e))

remote_copy_to_scratch_cells_example :
    (mem' : Memory ℕ) × (Remote.copy_to_scratch 2 raw column 7 scratch inner (4 ∷ []) memory
      ≡ some mem')
    × (mem' (buffer (some scratch)) (index inner (4 ∷ []) (1 ∷ []))
        ≡ memory (buffer raw.storage) (index column raw.size (1 ∷ [])))
    × (mem' (buffer (some scratch)) 9 ≡ memory (buffer (some scratch)) 9)
    × ((b a' : ℕ)
        → mem' b a' ≡ (if b == buffer (some scratch) || b == 7 then mem' b a' else memory b a'))
remote_copy_to_scratch_cells_example =
    remote_copy_to_scratch_cells 2 raw column inner 7 scratch (4 ∷ []) memory (1 ∷ []) 9 refl
      inner-Fits refl refl refl (omega arith) (omega arith) (omega arith) (omega arith, tt)
      (outside inner (4 ∷ []) 9 inner-Fits (omega arith))

remote_copy_from_scratch_cells_example :
    (mem' : Memory ℕ) × (Remote.copy_from_scratch 2 raw column 7 scratch inner (4 ∷ []) memory
      ≡ some mem')
    × (mem' (buffer raw.storage) (index column raw.size (1 ∷ []))
        ≡ memory (buffer (some scratch)) (index inner (4 ∷ []) (1 ∷ [])))
    × (mem' (buffer raw.storage) 9 ≡ memory (buffer raw.storage) 9)
    × ((b a' : ℕ)
        → mem' b a' ≡ (if b == 7 || b == buffer raw.storage then mem' b a' else memory b a'))
remote_copy_from_scratch_cells_example =
    remote_copy_from_scratch_cells 2 raw column inner 7 scratch (4 ∷ []) memory (1 ∷ []) 9 refl
      column-Fits inner-Fits refl refl refl (omega arith) (omega arith) (omega arith)
      (omega arith, tt) (outside column (3 ∷ 2 ∷ []) 9 column-Fits (omega arith))

abbrev remote : Remote ℕ
remote = record { count = 6; cells = λ a. a + 10 }

abbrev program : List (Access ℕ)
program =
    read (1 ∷ 1 ∷ []) ∷ write (1 ∷ 1 ∷ []) 3 ∷ read (1 ∷ 1 ∷ []) ∷ forget ∷ read (0 ∷ 1 ∷ []) ∷ []

inside : All (IsInside (1 ∷ 3 ∷ []) 6) program
unfolding dot
inside = (omega arith, (omega arith, (omega arith, (tt, (omega arith, tt)))))

run_cached-direct_example :
    run_cached (λ a. 0) remote (of_size (1 ∷ 3 ∷ []) 2 2) program
    ≡ run_direct (1 ∷ 3 ∷ []) remote program
run_cached-direct_example =
    run_cached-direct (λ a. 0) remote program (1 ∷ 3 ∷ []) 2 2 (omega arith) (omega arith) inside
