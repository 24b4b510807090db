-- ===== src/Memo/Tests.antt =====
-- A transform of one matrix of 2 by 2.
use petabricks.Base.{ℕ, ◌+◌, ◌≡◌, refl, true, false, some, none, [], ◌∷◌, arith}
use petabricks.Memo.{
  number, same_double, Info, Instance, hash_of, same_dimensions, lacks_hash, compute_data_hash,
  is_metadata_match, is_data_match, all_match, instances_match, hash_inputs, memoize,
}
use petabricks.Memo.Hits.{memoize_again, memoize_hit, AllAgree}

abbrev matrix : ℕ → Info
matrix s = record {
  storage = some s;
  base_offset = 0;
  dimensions = some 2;
  count = 4;
  multipliers = 1 ∷ 2 ∷ [];
  sizes = 2 ∷ 2 ∷ [];
  extra_val = number 0;
  hash = 0;
}

abbrev call : ℕ → Instance
call s = record { inputs = matrix 1 ∷ []; outputs = matrix s ∷ [] }

-- The site before the first call.
abbrev nothing : Instance
nothing = record {
  inputs = record (matrix 0) { storage = none; dimensions = none } ∷ [];
  outputs = record (matrix 0) { storage = none; dimensions = none } ∷ [];
}

abbrev digest : ℕ → ℕ
digest s = s + 5

call_match : all_match is_metadata_match (call 3).outputs (call 2).outputs ≡ true
unfolding all_match is_metadata_match same_dimensions
call_match = refl

first_call : (memoize digest (call 2) nothing).0 ≡ false
unfolding memoize instances_match all_match is_metadata_match same_dimensions hash_inputs
    compute_data_hash
first_call = refl

second_call : (memoize digest (call 3) (hash_inputs digest (call 2))).0 ≡ true
unfolding memoize instances_match all_match is_metadata_match is_data_match same_double lacks_hash
    same_dimensions hash_inputs compute_data_hash hash_of
second_call = refl

memoize_again_example : memoize digest (call 3) (memoize digest (call 2) nothing).2 ≡ (
  true,
  record (hash_inputs digest (call 3)) { outputs = (call 2).outputs },
  hash_inputs digest (call 2),
)
memoize_again_example =
    memoize_again digest (call 2) (call 3) nothing (λ s e. absurd (omega arith)) ((2, refl), tt)
      ((0, refl), tt) refl call_match first_call

memoize_hit_example :
    AllAgree (hash_inputs digest (call 3)).inputs (hash_inputs digest (call 2)).inputs
    × ((memoize digest (call 3) (hash_inputs digest (call 2))).1.outputs
        ≡ (hash_inputs digest (call 2)).outputs)
    × ((memoize digest (call 3) (hash_inputs digest (call 2))).2 ≡ hash_inputs digest (call 2))
unfolding hash_inputs
memoize_hit_example = memoize_hit digest (call 3) (hash_inputs digest (call 2)) refl second_call
