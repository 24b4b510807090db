-- ===== src/Memo.antt =====
-- runtime/memoization.h: a site remembers the last call of a transform and its outputs; with
-- `MatrixStorageInfo` of runtime/matrixstorage.cpp, without OpenCL, by which it knows matrices. A hash
-- is a number, 0 for `HashT()`; `digest` is the hash of the data that a storage has at the moment.
pub mod Hits
mod Tests
use petabricks.Base.{
  ℕ, ◌-◌, Bool, true, false, ◌&&◌, Option, none, some, List, [], ◌∷◌, map, ◌==◌, if◌then◌else◌,
  product,
}
use petabricks.Matrix.{same_sizes}

-- A `double`, by its value.
pub data Double : Type 0 where
  nan : Double
  number : ℕ → Double

-- `==` on doubles: NaN is not equal to itself.
unfoldable pub same_double : Double → Double → Bool
same_double (number v) (number w) = v == w
same_double _ _ = false

-- `MatrixStorageInfo`: the storage may be null, and the dimension is `none` for -1.
pub record Info : Type 0 where
  pub storage : Option ℕ
  pub base_offset : ℕ
  pub dimensions : Option ℕ
  pub count : ℕ
  pub multipliers : List ℕ
  pub sizes : List ℕ
  pub extra_val : Double
  pub hash : ℕ

-- `setStorage`, of a base at an offset of the storage's data.
unfoldable set_storage : Option ℕ → ℕ → Info → Info
set_storage (some s) offset info = record info { storage = some s; base_offset = offset; hash = 0 }
set_storage none offset info = record info { storage = none; base_offset = 0; hash = 0 }

unfoldable set_size : ℕ → List ℕ → Info → Info
set_size dim sizes info = record info {
  dimensions = some dim;
  sizes = sizes;
  count = product sizes;
}

unfoldable set_multipliers : List ℕ → Info → Info
set_multipliers multipliers info = record info { multipliers = multipliers }

unfoldable set_size_multipliers : ℕ → List ℕ → List ℕ → Info → Info
unfolding set_size set_multipliers
set_size_multipliers dim multipliers sizes info =
    set_multipliers multipliers (set_size dim sizes info)

unfoldable set_extra_val : Double → Info → Info
set_extra_val v info = record info { extra_val = v }

unfoldable pub hash_of : (ℕ → ℕ) → Option ℕ → ℕ
hash_of digest none = 0
hash_of digest (some s) = digest s

unfoldable pub compute_data_hash : (ℕ → ℕ) → Info → Info
unfolding hash_of
compute_data_hash digest info = record info { hash = hash_of digest info.storage }

-- `reset`, with the default extra value.
unfoldable pub reset : Double → Info → Info
unfolding set_extra_val set_storage
reset default_val info = record (set_storage none 0 (set_extra_val default_val info)) {
  dimensions = none;
}

unfoldable release_storage : Info → Info
release_storage info = record info { storage = none }

unfoldable pub same_dimensions : Option ℕ → Option ℕ → Bool
same_dimensions (some d) (some e) = d == e
same_dimensions _ _ = false

unfoldable pub is_metadata_match : Info → Info → Bool
unfolding same_dimensions
is_metadata_match info that =
    same_dimensions info.dimensions that.dimensions
    && (info.base_offset == that.base_offset
        && (same_sizes info.multipliers that.multipliers && same_sizes info.sizes that.sizes))

-- A storage whose hash has not been computed.
unfoldable pub lacks_hash : Info → Bool
lacks_hash info = elim info.storage [ none ↦ false | some s ↦ info.hash == 0 ]

unfoldable pub is_data_match : Info → Info → Bool
unfolding lacks_hash same_double
is_data_match info that =
    if same_double info.extra_val that.extra_val
    then (if lacks_hash info then false else info.hash == that.hash)
    else false

-- `MemoizationInstance`
pub record Instance : Type 0 where
  pub inputs : List Info
  pub outputs : List Info

-- The two loops of `isMetadataMatch`, and that of `isInputDataMatch`.
unfoldable pub all_match : (Info → Info → Bool) → List Info → List Info → Bool
all_match test (x ∷ xs) (y ∷ ys) =
    let rest = all_match test xs ys in if test x y then rest else false
all_match test _ _ = true

unfoldable pub instances_match : Instance → Instance → Bool
unfolding all_match is_metadata_match is_data_match
instances_match mi that =
    all_match is_metadata_match mi.inputs that.inputs
    && (all_match is_metadata_match mi.outputs that.outputs
        && all_match is_data_match mi.inputs that.inputs)

unfoldable pub hash_inputs : (ℕ → ℕ) → Instance → Instance
unfolding compute_data_hash
hash_inputs digest mi = record mi { inputs = map (compute_data_hash digest) mi.inputs }

unfoldable set_outputs : Instance → Instance → Instance
set_outputs that mi = record mi { outputs = that.outputs }

-- `memoize`: whether the outputs are known, the instance, and what the site remembers.
unfoldable pub memoize : (ℕ → ℕ) → Instance → Instance → Bool × Instance × Instance
unfolding hash_inputs instances_match set_outputs
memoize digest mi last =
    let hashed = hash_inputs digest mi in
    if instances_match hashed last
    then (true, set_outputs last hashed, last)
    else (false, hashed, hashed)
