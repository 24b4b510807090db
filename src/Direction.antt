-- ===== src/Direction.antt =====
-- compiler/matrixdependency.h and .cpp: `DependencyDirection`, which says for each dimension on which
-- cells a rule depends, and `SplitRegionCmp` of compiler/iterationorders.cpp, which puts the parts of
-- an iteration in an order. The directions are the bits of a mask for each dimension; `operator[]` is
-- used inside the dimensions, and the model has D_NONE outside of them.
pub mod Merge
pub mod Compare
mod Tests
use Prim.Native.Nat.{bit_and, bit_or}
use petabricks.Base.{
  ℕ, zero, suc, ◌+◌, ◌-◌, ◌<◌, Bool, true, false, not, ◌||◌, Option, none, some, List, [], ◌∷◌, ltb,
  ◌==◌, if◌then◌else◌, length, get_or, replicate,
}
use petabricks.Matrix.{without}

-- `DirectionT`
abbrev pub d_none : ℕ
d_none = 0

abbrev pub d_lt : ℕ
d_lt = 1

abbrev d_eq : ℕ
d_eq = 2

abbrev pub d_gt : ℕ
d_gt = 4

abbrev d_multioutput : ℕ
d_multioutput = 8

abbrev pub Direction : Type 0
Direction = List ℕ

-- The first constructor.
unfoldable of_dimensions : ℕ → ℕ → Direction
of_dimensions dimensions dir = replicate dimensions dir

-- The constructor that merges two.
unfoldable pub merge : Direction → Direction → Direction
merge [] [] = []
merge (l ∷ left) [] = bit_or d_none l ∷ merge left []
merge [] (r ∷ right) = bit_or d_none r ∷ merge [] right
merge (l ∷ left) (r ∷ right) = bit_or (bit_or d_none l) r ∷ merge left right

-- `operator[]`
abbrev pub at : Direction → ℕ → ℕ
at direction d = get_or direction d d_none

or_at : Direction → ℕ → ℕ → Direction
or_at [] d dir = []
or_at (x ∷ xs) zero dir = bit_or x dir ∷ xs
or_at (x ∷ xs) (suc d) dir = x ∷ or_at xs d dir

-- `addDirection`; `none` is the failed JASSERT.
unfoldable add_direction : Direction → ℕ → ℕ → Option Direction
unfolding or_at
add_direction direction d dir =
    if ltb d (length direction) then some (or_at direction d dir) else none

unfoldable remove_dimension : Direction → ℕ → Option Direction
remove_dimension direction d = if ltb d (length direction) then some (without d direction) else none

unfoldable is_multioutput : Direction → Bool
is_multioutput [] = false
is_multioutput (x ∷ xs) = if bit_and x d_multioutput == 0 then is_multioutput xs else true

-- `x & ~D_MULTIOUTPUT`
unfoldable remove_multioutput : Direction → Direction
remove_multioutput [] = []
remove_multioutput (x ∷ xs) = (x - bit_and x d_multioutput) ∷ remove_multioutput xs

unfoldable is_none : Direction → Bool
is_none [] = true
is_none (x ∷ xs) = if x == 0 then is_none xs else false

unfoldable pub can_iterate_forward : Direction → ℕ → Bool
can_iterate_forward direction d = bit_and (at direction d) d_gt == 0

unfoldable pub can_iterate_backward : Direction → ℕ → Bool
can_iterate_backward direction d = bit_and (at direction d) d_lt == 0

-- Whether `genLoopBegin` and `SplitRegionCmp` go forward in a dimension.
unfoldable pub goes_forward : Direction → ℕ → Bool
unfolding can_iterate_forward can_iterate_backward
goes_forward direction d = can_iterate_forward direction d || not (can_iterate_backward direction d)

-- `SplitRegionCmp` from dimension `d` on, of the part numbers of two regions.
unfoldable pub compare_from : Direction → ℕ → List ℕ → List ℕ → Bool
unfolding goes_forward
compare_from order d (x ∷ a) (y ∷ b) =
    let rest = compare_from order (d + 1) a b in
    if x == y then rest else if goes_forward order d then ltb x y else ltb y x
compare_from order d _ _ = false

unfoldable pub split_region_cmp : Direction → List ℕ → List ℕ → Bool
unfolding compare_from
split_region_cmp order a b = compare_from order 0 a b
