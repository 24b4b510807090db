-- ===== src/Direction/Tests.antt =====
-- A rule that depends on smaller cells in dimension 0, and on larger ones in dimension 1.
use petabricks.Base.{◌≡◌, refl, true, false, not, [], ◌∷◌, if◌then◌else◌}
use petabricks.Split.{same_coord}
use petabricks.Direction.{
  Direction, d_lt, d_gt, can_iterate_forward, can_iterate_backward, goes_forward, compare_from,
  split_region_cmp,
}
use petabricks.Direction.Compare.{split_region_cmp-total}

abbrev up_and_down : Direction
up_and_down = d_lt ∷ d_gt ∷ []

-- Backward in dimension 1.
later_first : split_region_cmp up_and_down (0 ∷ 1 ∷ []) (0 ∷ 0 ∷ []) ≡ true
unfolding split_region_cmp compare_from goes_forward can_iterate_forward can_iterate_backward
later_first = refl

then_next : split_region_cmp up_and_down (0 ∷ 0 ∷ []) (1 ∷ 1 ∷ []) ≡ true
unfolding split_region_cmp compare_from goes_forward can_iterate_forward can_iterate_backward
then_next = refl

split_region_cmp-total_example : split_region_cmp up_and_down (0 ∷ 1 ∷ []) (0 ∷ 0 ∷ []) ≡ (
    if same_coord (0 ∷ 1 ∷ []) (0 ∷ 0 ∷ [])
    then false
    else not (split_region_cmp up_and_down (0 ∷ 0 ∷ []) (0 ∷ 1 ∷ [])))
split_region_cmp-total_example = split_region_cmp-total up_and_down (0 ∷ 1 ∷ []) (0 ∷ 0 ∷ []) refl
