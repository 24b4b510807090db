-- ===== src/Split/Tests.antt =====
-- The theorems about the cut of a matrix at concrete inputs: 5 by 4 cells, in parts of 2 by 3.
use petabricks.Base.{ℕ, ◌≡◌, ◌<◌, refl, arith, true, Option, none, some, List, [], ◌∷◌, product}
use petabricks.Matrix.Coord.{InBounds}
use petabricks.Matrix.Coord.Rank.{StepsTo}
use petabricks.Split.{
  Split, Part, here, host, create_part, alloc_from, alloc_data, Store, init, parts_size_of,
  sizes_of_part, coord_to_part, inc_part_coord, is_region_in_one_part,
}
use petabricks.Split.Parts.{IsSplit, quotients, global_coord, coord_to_part-global}
use petabricks.Split.Alloc.{Allocated, alloc_data-Allocated}
use petabricks.Split.Walk.{part_counts, part_at, inc_part_coord-StepsTo, is_region_in_one_part_lem}

abbrev sizes : List ℕ
sizes = 5 ∷ 4 ∷ []

abbrev split : List ℕ
split = 2 ∷ 3 ∷ []

coord_to_part-last : coord_to_part (init sizes split) (4 ∷ 3 ∷ []) ≡ (5, 0 ∷ 0 ∷ [])
unfolding coord_to_part init
coord_to_part-last = refl

sizes_of_part-last : sizes_of_part (init sizes split) 5 ≡ 1 ∷ 1 ∷ []
unfolding sizes_of_part init
sizes_of_part-last = refl

sizes-IsSplit : IsSplit sizes split
sizes-IsSplit = (omega arith, (omega arith, tt))

part_3-InBounds : InBounds (sizes_of_part (init sizes split) 3) (1 ∷ 0 ∷ [])
unfolding sizes_of_part init
part_3-InBounds = (omega arith, (omega arith, tt))

part_3-exists : 3 < (init sizes split).num_parts
unfolding init
part_3-exists = omega arith

coord_to_part-global_example :
    let c = global_coord sizes split 3 (1 ∷ 0 ∷ []) in
    InBounds sizes c × (coord_to_part (init sizes split) c ≡ (3, 1 ∷ 0 ∷ []))
coord_to_part-global_example =
    coord_to_part-global sizes split 3 (1 ∷ 0 ∷ []) sizes-IsSplit part_3-exists part_3-InBounds

abbrev far : List ℕ
far = 4 ∷ 2 ∷ []

abbrev corner_cell : List ℕ
corner_cell = 4 ∷ 3 ∷ []

abbrev empty_store : Store ℕ
empty_store o d = 0

abbrev far_part : Part
far_part = record { sizes = 1 ∷ 3 ∷ []; holder = here }

-- The parts of the two cells; the others are null.
abbrev two_parts : List (Option Part)
two_parts =
    none
    ∷ none
    ∷ some far_part
    ∷ none
    ∷ none
    ∷ some (record { sizes = 1 ∷ 1 ∷ []; holder = host 3 })
    ∷ []

abbrev low : List ℕ
low = 2 ∷ 0 ∷ []

walk-exists : 1 < product (part_counts split low sizes)
unfolding parts_size_of
walk-exists = omega arith

inc_part_coord-StepsTo_example :
    StepsTo
      (part_at split low sizes)
      (product (part_counts split low sizes))
      1
      (inc_part_coord split low sizes (part_at split low sizes 1))
inc_part_coord-StepsTo_example =
    inc_part_coord-StepsTo 2 (3 ∷ []) low sizes 1
      (omega arith, omega arith, (omega arith, omega arith, tt)) walk-exists

one_part : is_region_in_one_part split low (4 ∷ 3 ∷ []) ≡ true
unfolding is_region_in_one_part
one_part = refl

is_region_in_one_part_lem_example : quotients split (3 ∷ 2 ∷ []) ≡ quotients split low
is_region_in_one_part_lem_example =
    is_region_in_one_part_lem split low corner_cell (3 ∷ 2 ∷ [])
      (
        omega arith,
        refl,
        omega arith,
        omega arith,
        (omega arith, refl, omega arith, omega arith, tt),
      )
      one_part

-- The cut with its last part made.
abbrev last_made : Split
last_made = record {
  size = sizes;
  split_size = split;
  parts_size = 3 ∷ 2 ∷ [];
  num_parts = 6;
  parts_multipliers = 1 ∷ 3 ∷ [];
  parts =
      none ∷ none ∷ none ∷ none ∷ none ∷ some (record { sizes = 1 ∷ 1 ∷ []; holder = here }) ∷ [];
}

alloc_data-missing : alloc_data (init sizes split) ≡ none
unfolding alloc_data alloc_from init create_part
alloc_data-missing = refl

alloc_data-Allocated_example : Allocated last_made 5 0 (alloc_data last_made)
alloc_data-Allocated_example = alloc_data-Allocated last_made (omega arith) refl
