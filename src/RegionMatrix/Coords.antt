-- ===== src/RegionMatrix/Coords.antt =====
-- Sub-regions, slices and transposes of a distributed region have the cells that they should.
use mathlib.Core.List.{reverse, reverse-cons, reverse-reverse}
use petabricks.Base.{
  ℕ, zero, suc, ◌+◌, ◌<◌, ◌≤◌, ◌≡◌, refl, ap, ◌∙◌, Bool, true, false, none, some, List, [], ◌∷◌,
  ◌++◌, Bool-cases, inl, inr, arith, ◌==◌, if◌then◌else◌, length, get_elem?, length-append,
}
use petabricks.Matrix.{without}
use petabricks.Matrix.Coord.Bound.{add_coords}
use petabricks.Matrix.Views.{put_in}
use petabricks.RegionMatrix.{
  RegionMatrix, Slices, at_slice, position, rest_of, oriented, data_coord, region_data_coord,
  split_region, transposed,
}

data_coord-add :
    (n d : ℕ) (ss : Slices) (os bs c : List ℕ)
    → length os ≡ length c
    → length bs ≡ length c
    → data_coord d n ss (add_coords os bs) c ≡ data_coord d n ss os (add_coords bs c)
unfolding data_coord
data_coord-add zero d ss os bs c h k = refl
data_coord-add (suc n) d ss [] [] [] h k = elim (Bool-cases (at_slice d ss)) [
  | inl q ↦ rw q (ap (◌∷◌ (position ss)) (data_coord-add n (d + 1) (rest_of ss) [] [] [] h k))
  | inr q ↦ rw q refl
]
data_coord-add (suc n) d ss (o ∷ os) (b ∷ bs) (x ∷ c) h k =
    let m : x + (o + b) ≡ b + x + o = omega arith in
    elim (Bool-cases (at_slice d ss)) [
      | inl q ↦ rw q (
          ap (◌∷◌ (position ss))
            (data_coord-add n (d + 1) (rest_of ss) (o ∷ os) (b ∷ bs) (x ∷ c) h k))
      | inr q ↦
          rw (q, m)
            (ap (◌∷◌ (b + x + o)) (data_coord-add n (d + 1) ss os bs c (omega arith) (omega arith)))
    ]
data_coord-add (suc n) d ss [] (b ∷ bs) [] h k = absurd (omega arith)
data_coord-add (suc n) d ss [] bs (x ∷ c) h k = absurd (omega arith)
data_coord-add (suc n) d ss (o ∷ os) bs [] h k = absurd (omega arith)
data_coord-add (suc n) d ss (o ∷ os) [] (x ∷ c) h k = absurd (omega arith)

add_coords-append :
    (xs ys us vs : List ℕ)
    → length xs ≡ length us
    → add_coords (xs ++ ys) (us ++ vs) ≡ add_coords xs us ++ add_coords ys vs
add_coords-append [] ys [] vs h = refl
add_coords-append [] ys (u ∷ us) vs h = absurd (omega arith)
add_coords-append (x ∷ xs) ys [] vs h = absurd (omega arith)
add_coords-append (x ∷ xs) ys (u ∷ us) vs h =
    ap (◌∷◌ (x + u)) (add_coords-append xs ys us vs (omega arith))

pub length-reverse : (xs : List ℕ) → length (reverse xs) ≡ length xs
length-reverse [] = refl
length-reverse (x ∷ xs) =
    rw reverse-cons (omega (arith, length-append {0} (reverse xs) (x ∷ []), length-reverse xs))

add_coords-reverse :
    (xs ys : List ℕ)
    → length xs ≡ length ys
    → add_coords (reverse xs) (reverse ys) ≡ reverse (add_coords xs ys)
add_coords-reverse [] [] h = refl
add_coords-reverse [] (y ∷ ys) h = absurd (omega arith)
add_coords-reverse (x ∷ xs) [] h = absurd (omega arith)
add_coords-reverse (x ∷ xs) (y ∷ ys) h =
    rw (reverse-cons, reverse-cons, reverse-cons)
      (add_coords-append (reverse xs) (x ∷ []) (reverse ys) (y ∷ [])
          (omega (arith, length-reverse xs, length-reverse ys))
        ∙ ap (λ l. l ++ (x + y) ∷ []) (add_coords-reverse xs ys (omega arith)))

add_coords-oriented :
    (t : Bool) (xs ys : List ℕ)
    → length xs ≡ length ys
    → add_coords (oriented t xs) (oriented t ys) ≡ oriented t (add_coords xs ys)
add_coords-oriented true xs ys h = add_coords-reverse xs ys h
add_coords-oriented false xs ys h = refl

pub length-oriented : (t : Bool) (xs : List ℕ) → length (oriented t xs) ≡ length xs
length-oriented true xs = length-reverse xs
length-oriented false xs = refl

-- Cell `c` of the part of a distributed region at an offset is the cell of the region at the offset
-- plus `c`, transposed or sliced as the region may be. The offset and `c` have its dimension.
pub region_data_coord-split_region :
    (r : RegionMatrix) (offset size c : List ℕ)
    → length offset ≡ length r.split_offset
    → length c ≡ length r.split_offset
    → region_data_coord (split_region r offset size) c ≡ region_data_coord r (add_coords offset c)
unfolding region_data_coord split_region
region_data_coord-split_region r offset size c h k =
    let t = r.is_transposed in
    data_coord-add (length r.handler.data_size) 0 r.slices r.split_offset (oriented t offset)
      (oriented t c) (omega (arith, length-oriented t c))
      (omega (arith, length-oriented t c, length-oriented t offset))
    ∙ ap (data_coord 0 (length r.handler.data_size) r.slices r.split_offset)
        (add_coords-oriented t offset c (omega arith))

oriented-reverse :
    (t : Bool) (c : List ℕ) → oriented (if t then false else true) (reverse c) ≡ oriented t c
oriented-reverse true c = refl
oriented-reverse false c = reverse-reverse c

flip_flip : (t : Bool) → (if (if t then false else true) then false else true) ≡ t
flip_flip true = refl
flip_flip false = refl

-- A transpose has the same cells under the reversed coordinates, and its own transpose is the region
-- again.
region_data_coord-transposed :
    (r : RegionMatrix) (c : List ℕ)
    → (region_data_coord (transposed r) (reverse c) ≡ region_data_coord r c)
      × (transposed (transposed r) ≡ r)
unfolding region_data_coord transposed
region_data_coord-transposed r c = (
  ap (data_coord 0 (length r.handler.data_size) r.slices r.split_offset)
      (oriented-reverse r.is_transposed c),
  ap (λ t. record r { is_transposed = t }) (flip_flip r.is_transposed),
)

-- The heads of the slices lie above the dimension.
abbrev pub Above : ℕ → Slices → Type 0
Above d [] = Unit {0}
Above d ((e, p) ∷ ss) = d < e

at_slice-Above : (d : ℕ) (ss : Slices) → Above d ss → at_slice d ss ≡ false
at_slice-Above d [] h = refl
at_slice-Above d ((e, p) ∷ ss) h = ground arith

Above-le : (d e : ℕ) (ss : Slices) → Above e ss → d ≤ e → Above d ss
Above-le d e [] h k = tt
Above-le d e ((f, p) ∷ ss) h k = omega arith

get_elem?-none : (xs : List ℕ) (k : ℕ) → length xs ≡ 0 → get_elem? xs k ≡ none
get_elem?-none [] k h = refl
get_elem?-none (x ∷ xs) k h = absurd (omega arith)

-- One more slice at `k` dimensions from here, before all others.
data_coord-put_in :
    (n d k pos o : ℕ) (ss : Slices) (os c : List ℕ)
    → get_elem? os k ≡ some o
    → length c + 1 ≡ length os
    → Above (d + k) ss
    → data_coord d n ((d + k, pos + o) ∷ ss) (without k os) c
      ≡ data_coord d n ss os (put_in k pos c)
unfolding data_coord
data_coord-put_in zero d k pos o ss os c e h above = refl
data_coord-put_in (suc n) d k pos o ss [] c e h above = absurd (ground (arith, e))
data_coord-put_in (suc n) d zero pos o ss (o' ∷ os) c e h above =
    let q : d + 0 ≡ d = omega arith in
    let same : (d == d) ≡ true = ground arith in
    let val : o' ≡ o = ground arith in rw (q, same, at_slice-Above d ss (rw q at above), val) refl
data_coord-put_in (suc n) d (suc k) pos o ss (o' ∷ os) [] e h above =
    absurd (ground (arith, get_elem?-none os k))
data_coord-put_in (suc n) d (suc k) pos o ss (o' ∷ os) (x ∷ c) e h above =
    let other : (d == d + suc k) ≡ false = ground arith in
    let q : d + suc k ≡ d + 1 + k = omega arith in
    rw (other, at_slice-Above d ss (Above-le d (d + suc k) ss above (omega arith)), q)
      (ap (◌∷◌ (x + o'))
        (data_coord-put_in n (d + 1) k pos o ss os c e (omega arith) (rw q at above)))

pub data_coord-put_in_first :
    (n k pos o : ℕ) (ss : Slices) (os c : List ℕ)
    → get_elem? os k ≡ some o
    → length c + 1 ≡ length os
    → Above k ss
    → data_coord 0 n ((k, pos + o) ∷ ss) (without k os) c ≡ data_coord 0 n ss os (put_in k pos c)
data_coord-put_in_first n k pos o ss os c e h above =
    let z : 0 + k ≡ k = omega arith in
    rw z at (data_coord-put_in n 0 k pos o ss os c e h (rw z above))
