-- ===== src/Pool/Tests.antt =====
-- The theorems about the pool at concrete inputs.
use petabricks.Base.{◌≡◌, refl, arith, none, some, [], ◌∷◌, ◌==◌, ◌^◌, if◌then◌else◌}
use petabricks.Pool.{Pool, remove, shrink, clear, before_pool, thread, slot_index, get_random}
use petabricks.Pool.Members.{IsPacked, Removed, Picked, remove-Removed, get_random-Picked}

-- Threads 4, 5 and 6, of which 5 has gone.
abbrev three_slots : Pool
three_slots = record {
  slots = λ i. if i == 0 then some 4 else if i == 2 then some 6 else none;
  count = 3;
}

three_slots-IsPacked : IsPacked three_slots
three_slots-IsPacked i = ground arith

shrink-last : shrink (clear three_slots 6) 3 ≡ some 1
unfolding shrink
shrink-last = refl

remove-Removed_example : Removed three_slots 6 (remove three_slots 6)
remove-Removed_example = remove-Removed three_slots 6 three_slots-IsPacked

victim : get_random three_slots 4 (3 ∷ 1 ∷ 5 ∷ []) ≡ thread 6
unfolding get_random slot_index
victim = refl

-- The least `int` is no multiple of 3.
negative : get_random three_slots 4 (3 ∷ 2 ^ 31 ∷ []) ≡ before_pool
unfolding get_random slot_index
negative = refl

get_random-Picked_example :
    Picked three_slots 4 (3 ∷ 1 ∷ 5 ∷ []) (get_random three_slots 4 (3 ∷ 1 ∷ 5 ∷ []))
get_random-Picked_example = get_random-Picked three_slots 4 (3 ∷ 1 ∷ 5 ∷ []) (omega arith)
