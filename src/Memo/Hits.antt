-- ===== src/Memo/Hits.antt =====
-- When the site gives out what it remembers.
use petabricks.Base.{
  ℕ, ◌≡◌, ◌≢◌, refl, sym, ap, ◌∙◌, Bool, true, false, false≢true, ◌&&◌, inl, inr, Bool-cases,
  Option, none, some, List, [], ◌∷◌, map, All, ◌==◌, ==_iff, if◌then◌else◌, length, length-map,
  arith,
}
use petabricks.Matrix.{same_sizes}
use petabricks.Memo.{
  Double, nan, number, same_double, Info, Instance, hash_of, same_dimensions, lacks_hash,
  compute_data_hash, is_metadata_match, is_data_match, all_match, instances_match, hash_inputs,
  memoize,
}

-- An input whose shape has been set.
abbrev HasShape : Info → Type 0
HasShape info = (d : ℕ) × (info.dimensions ≡ some d)

-- An input whose extra value is not NaN.
abbrev HasNumber : Info → Type 0
HasNumber info = (v : ℕ) × (info.extra_val ≡ number v)

same_sizes_refl : (xs : List ℕ) → same_sizes xs xs ≡ true
same_sizes_refl [] = refl
same_sizes_refl (x ∷ xs) = ground (arith, same_sizes_refl xs)

same : (a : ℕ) → (a == a) ≡ true
same a = (==_iff a a).1 refl

is_metadata_match_refl : (info : Info) → HasShape info → is_metadata_match info info ≡ true
unfolding is_metadata_match same_dimensions
is_metadata_match_refl info (d, e) =
    rw
      (
        e,
        same d,
        same info.base_offset,
        same_sizes_refl info.multipliers,
        same_sizes_refl info.sizes,
      )
      refl

lacks_hash-compute :
    (digest : ℕ → ℕ) (info : Info)
    → ((s : ℕ) → digest s ≢ 0)
    → lacks_hash (compute_data_hash digest info) ≡ false
unfolding lacks_hash compute_data_hash hash_of
lacks_hash-compute digest info h = go info.storage
  where
    go :
        (storage : Option ℕ)
        → lacks_hash (compute_data_hash digest (record info { storage = storage })) ≡ false
    go none = refl
    go (some s) = let ne = h s in ground arith

is_data_match_refl :
    (digest : ℕ → ℕ) (info : Info)
    → ((s : ℕ) → digest s ≢ 0)
    → HasNumber info
    → is_data_match (compute_data_hash digest info) (compute_data_hash digest info) ≡ true
unfolding is_data_match same_double compute_data_hash
is_data_match_refl digest info h (v, e) =
    rw (e, same v, lacks_hash-compute digest info h, same (compute_data_hash digest info).hash) refl

inputs_refl :
    (digest : ℕ → ℕ) (inputs : List Info)
    → ((s : ℕ) → digest s ≢ 0)
    → All HasShape inputs
    → All HasNumber inputs
    → let hashed = map (compute_data_hash digest) inputs in
      (all_match is_metadata_match hashed hashed ≡ true)
      × (all_match is_data_match hashed hashed ≡ true)
unfolding all_match compute_data_hash
inputs_refl digest [] h k w = (refl, refl)
inputs_refl digest (x ∷ xs) h k w =
    let (p, q) = inputs_refl digest xs h k.1 w.1 in
    (
      rw (is_metadata_match_refl (compute_data_hash digest x) k.0) p,
      rw (is_data_match_refl digest x h w.0) q,
    )

again_match :
    (digest : ℕ → ℕ) (mi again : Instance)
    → ((s : ℕ) → digest s ≢ 0)
    → All HasShape mi.inputs
    → All HasNumber mi.inputs
    → again.inputs ≡ mi.inputs
    → all_match is_metadata_match again.outputs mi.outputs ≡ true
    → instances_match (hash_inputs digest again) (hash_inputs digest mi) ≡ true
unfolding instances_match hash_inputs
again_match digest mi again h k w e o =
    let (p, q) = inputs_refl digest mi.inputs h k w in rw (e, p, o, q) refl

-- Once a call has been computed, the same call again, with the same inputs and outputs of the same
-- shapes, gets the outputs of the first, and the site remembers the first. The shapes of the inputs have
-- been set, no extra value of an input is NaN, and no hash of data is `HashT()`.
pub memoize_again :
    (digest : ℕ → ℕ) (mi again last : Instance)
    → ((s : ℕ) → digest s ≢ 0)
    → All HasShape mi.inputs
    → All HasNumber mi.inputs
    → again.inputs ≡ mi.inputs
    → all_match is_metadata_match again.outputs mi.outputs ≡ true
    → (memoize digest mi last).0 ≡ false
    → memoize digest again (memoize digest mi last).2
      ≡ (true, record (hash_inputs digest again) { outputs = mi.outputs }, hash_inputs digest mi)
unfolding memoize
memoize_again digest mi again last h k w e o miss =
    let match = again_match digest mi again h k w e o in
    elim (Bool-cases (instances_match (hash_inputs digest mi) last)) [
      | inl q ↦ absurd (false≢true (sym (rw q at miss)))
      | inr q ↦ rw (q, match) refl
    ]

-- What two inputs have in common.
abbrev Agrees : Info → Info → Type 0
Agrees x y =
    (x.dimensions ≡ y.dimensions)
    × (x.base_offset ≡ y.base_offset)
    × (x.sizes ≡ y.sizes)
    × (x.multipliers ≡ y.multipliers)
    × (x.extra_val ≡ y.extra_val)
    × (x.hash ≡ y.hash)

abbrev pub AllAgree : List Info → List Info → Type 0
AllAgree [] [] = Unit {0}
AllAgree (x ∷ xs) (y ∷ ys) = Agrees x y × AllAgree xs ys
AllAgree _ _ = ⊥

and_split : (a b : Bool) → a && b ≡ true → (a ≡ true) × (b ≡ true)
and_split true b h = (refl, h)
and_split false b h = absurd (false≢true h)

if_split : (a b : Bool) → (if a then b else false) ≡ true → (a ≡ true) × (b ≡ true)
if_split true b h = (refl, h)
if_split false b h = absurd (false≢true h)

unless_split : (a b : Bool) → (if a then false else b) ≡ true → b ≡ true
unless_split true b h = absurd (false≢true h)
unless_split false b h = h

same_dimensions-eq : (d e : Option ℕ) → same_dimensions d e ≡ true → d ≡ e
unfolding same_dimensions
same_dimensions-eq none e h = absurd (false≢true h)
same_dimensions-eq (some d) none h = absurd (false≢true h)
same_dimensions-eq (some d) (some e) h = ap some ((==_iff d e).0 h)

same_double-eq : (x y : Double) → same_double x y ≡ true → x ≡ y
unfolding same_double
same_double-eq nan y h = absurd (false≢true h)
same_double-eq (number v) nan h = absurd (false≢true h)
same_double-eq (number v) (number w) h = ap number ((==_iff v w).0 h)

same_sizes-eq : (xs ys : List ℕ) → same_sizes xs ys ≡ true → xs ≡ ys
same_sizes-eq [] [] h = refl
same_sizes-eq [] (y ∷ ys) h = absurd (false≢true h)
same_sizes-eq (x ∷ xs) [] h = absurd (false≢true h)
same_sizes-eq (x ∷ xs) (y ∷ ys) h =
    let (p, q) = and_split (x == y) (same_sizes xs ys) h in
    rw ((==_iff x y).0 p, same_sizes-eq xs ys q) refl

match-Agrees : (x y : Info) → is_metadata_match x y ≡ true → is_data_match x y ≡ true → Agrees x y
unfolding is_metadata_match is_data_match
match-Agrees x y h k =
    let (d, h1) = and_split (same_dimensions x.dimensions y.dimensions) _ h in
    let (b, h2) = and_split (x.base_offset == y.base_offset) _ h1 in
    let (m, s) = and_split (same_sizes x.multipliers y.multipliers) _ h2 in
    let (v, k1) = if_split (same_double x.extra_val y.extra_val) _ k in
    let g = unless_split (lacks_hash x) _ k1 in
    (
      same_dimensions-eq x.dimensions y.dimensions d,
      (==_iff x.base_offset y.base_offset).0 b,
      same_sizes-eq x.sizes y.sizes s,
      same_sizes-eq x.multipliers y.multipliers m,
      same_double-eq x.extra_val y.extra_val v,
      (==_iff x.hash y.hash).0 g,
    )

all_match-AllAgree :
    (xs ys : List Info)
    → length xs ≡ length ys
    → all_match is_metadata_match xs ys ≡ true
    → all_match is_data_match xs ys ≡ true
    → AllAgree xs ys
unfolding all_match
all_match-AllAgree [] [] l h k = tt
all_match-AllAgree [] (y ∷ ys) l h k = absurd (omega arith)
all_match-AllAgree (x ∷ xs) [] l h k = absurd (omega arith)
all_match-AllAgree (x ∷ xs) (y ∷ ys) l h k =
    let (p, h') = if_split (is_metadata_match x y) _ h in
    let (q, k') = if_split (is_data_match x y) _ k in
    (match-Agrees x y p q, all_match-AllAgree xs ys (omega arith) h' k')

-- When a call gets outputs that the site remembers, each of its inputs has the shape of the remembered
-- input and data of the same hash, the outputs are the remembered ones, and the site remembers what it
-- did. The site has seen calls of as many inputs.
pub memoize_hit :
    (digest : ℕ → ℕ) (mi last : Instance)
    → length mi.inputs ≡ length last.inputs
    → (memoize digest mi last).0 ≡ true
    → AllAgree (hash_inputs digest mi).inputs last.inputs
      × ((memoize digest mi last).1.outputs ≡ last.outputs)
      × ((memoize digest mi last).2 ≡ last)
unfolding memoize instances_match hash_inputs
memoize_hit digest mi last l hit =
    elim (Bool-cases (instances_match (hash_inputs digest mi) last)) [
      | inr q ↦ absurd (false≢true (rw q at hit))
      | inl q ↦
          let (p, r) =
            and_split (all_match is_metadata_match (hash_inputs digest mi).inputs last.inputs) _
              q in
          let (_, s) =
            and_split (all_match is_metadata_match (hash_inputs digest mi).outputs last.outputs) _
              r in
          (
            all_match-AllAgree (hash_inputs digest mi).inputs last.inputs
                (length-map mi.inputs (compute_data_hash digest) ∙ l) p s,
            rw q refl,
            rw q refl,
          )
    ]
