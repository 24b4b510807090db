-- ===== src/RegionMatrix/Slicing.antt =====
-- `sliceRegion`: right where the new slice comes before all that the region has, and wrong after them.
use mathlib.Core.List.{reverse, reverse-cons}
use petabricks.Base.{
  ℕ, zero, suc, ◌+◌, ◌-◌, ◌≤◌, ◌<◌, ◌≡◌, refl, sym, ap, ◌∙◌, Bool, true, false, none, some, List,
  [], ◌∷◌, ◌++◌, arith, ltb, leb, if◌then◌else◌, length, get_elem?,
}
use petabricks.Matrix.{without}
use petabricks.Matrix.Views.{put_in}
use petabricks.RegionMatrix.{
  RegionMatrix, Slices, oriented, data_coord, region_data_coord, slice_pair, place_slice,
  insert_slice, slice_slices, sliced, own_dimension, slice_region,
}
use petabricks.RegionMatrix.Coords.{Above, data_coord-put_in_first, length-reverse, length-oriented}

put_in-end : (xs : List ℕ) (pos : ℕ) → put_in (length xs) pos xs ≡ xs ++ pos ∷ []
put_in-end [] pos = refl
put_in-end (x ∷ xs) pos = ap (◌∷◌ x) (put_in-end xs pos)

put_in-append :
    (k pos : ℕ) (xs ys : List ℕ) → k ≤ length xs → put_in k pos (xs ++ ys) ≡ put_in k pos xs ++ ys
put_in-append zero pos xs ys h = refl
put_in-append (suc k) pos [] ys h = absurd (omega arith)
put_in-append (suc k) pos (x ∷ xs) ys h = ap (◌∷◌ x) (put_in-append k pos xs ys (omega arith))

reverse-put_in :
    (d pos : ℕ) (c : List ℕ)
    → d ≤ length c
    → reverse (put_in d pos c) ≡ put_in (length c - d) pos (reverse c)
reverse-put_in zero pos c h =
    let e : length c - 0 ≡ length (reverse c) = omega (arith, length-reverse c) in
    rw (e, reverse-cons) (sym (put_in-end (reverse c) pos))
reverse-put_in (suc d) pos [] h = absurd (omega arith)
reverse-put_in (suc d) pos (x ∷ c) h =
    let e : suc (length c) - suc d ≡ length c - d = omega arith in
    rw (reverse-cons, reverse-cons, e)
      (ap (λ l. l ++ x ∷ []) (reverse-put_in d pos c (omega arith))
        ∙ sym (
            put_in-append (length c - d) pos (reverse c) (x ∷ [])
              (omega (arith, length-reverse c))))

get_elem?-some : (xs : List ℕ) (i : ℕ) → i < length xs → (x : ℕ) × (get_elem? xs i ≡ some x)
get_elem?-some [] i h = absurd (omega arith)
get_elem?-some (x ∷ xs) zero h = (x, refl)
get_elem?-some (x ∷ xs) (suc i) h = get_elem?-some xs i (omega arith)

slice_slices-Above :
    (os : List ℕ) (d pos o : ℕ) (ss : Slices)
    → get_elem? os d ≡ some o
    → Above d ss
    → slice_slices os d pos ss ≡ some ((d, pos + o) ∷ ss)
unfolding slice_slices insert_slice slice_pair place_slice
slice_slices-Above os d pos o [] e h = rw e refl
slice_slices-Above os d pos o ((f, p) ∷ ss) e h =
    let k : leb f d ≡ false = ground arith in rw (k, e) refl

oriented-put_in :
    (r : RegionMatrix) (d pos : ℕ) (c : List ℕ) (t : Bool)
    → r.is_transposed ≡ t
    → length c + 1 ≡ length r.size
    → d < length r.size
    → put_in (own_dimension r d) pos (oriented t c) ≡ oriented t (put_in d pos c)
oriented-put_in r d pos c true e h k =
    let m : length r.size - d - 1 ≡ length c - d = omega arith in
    rw (e, m) (sym (reverse-put_in d pos c (omega arith)))
oriented-put_in r d pos c false e h k = rw e refl

own_dimension-lt :
    (r : RegionMatrix) (d : ℕ) → d < length r.size → own_dimension r d < length r.size
own_dimension-lt r d h = ground arith

-- Slicing a region of `D` dimensions at dimension `d`, which comes before all that have been sliced
-- from it, succeeds, and cell `c` of the slice, of one dimension less, is the cell of the region
-- whose coordinate is `c` with the position put in at `d`; transposed or not.
pub region_data_coord-slice_region :
    (r : RegionMatrix) (d pos : ℕ) (c : List ℕ)
    → length r.size ≡ length r.split_offset
    → length c + 1 ≡ length r.size
    → d < length r.size
    → Above (own_dimension r d) r.slices
    → (r' : RegionMatrix) × (slice_region r d pos ≡ some r')
      × (region_data_coord r' c ≡ region_data_coord r (put_in d pos c))
unfolding slice_region region_data_coord sliced
region_data_coord-slice_region r d pos c same h k above =
    let e = own_dimension r d in
    let t = r.is_transposed in
    let (o, at) = get_elem?-some r.split_offset e (omega (arith, own_dimension-lt r d k)) in
    let ss = slice_slices-Above r.split_offset e pos o r.slices at above in
    (
      record r {
        size = without e r.size;
        split_offset = without e r.split_offset;
        slices = (e, pos + o) ∷ r.slices;
      },
      ap (sliced r e) ss,
      data_coord-put_in_first (length r.handler.data_size) e pos o r.slices r.split_offset
            (oriented t c) at (omega (arith, length-oriented t c)) above
          ∙ ap (data_coord 0 (length r.handler.data_size) r.slices r.split_offset)
              (oriented-put_in r d pos c t refl h k),
    )

-- No slice lies above the dimension, which moves up by one past each of them.
abbrev AllBelow : ℕ → Slices → Type 0
AllBelow d [] = Unit {0}
AllBelow d ((e, p) ∷ ss) = (e ≤ d) × AllBelow (d + 1) ss

insert_slice-AllBelow :
    (os : List ℕ) (d pos : ℕ) (ss : Slices) → AllBelow d ss → insert_slice os d pos ss ≡ none
unfolding insert_slice
insert_slice-AllBelow os d pos [] h = refl
insert_slice-AllBelow os d pos ((e, p) ∷ ss) (h, k) =
    let q : leb e d ≡ true = ground arith in rw (q, insert_slice-AllBelow os (d + 1) pos ss k) refl

length-without : (i : ℕ) (xs : List ℕ) → i < length xs → length (without i xs) + 1 ≡ length xs
length-without i [] h = absurd (omega arith)
length-without zero (x ∷ xs) h = omega arith
length-without (suc i) (x ∷ xs) h = omega (arith, length-without i xs (omega arith))

-- Of a region that has not been sliced, a slice succeeds; but a slice of that slice reads past the end
-- of the slices where it is at the same dimension or a later one, or, of a transposed region, at an
-- earlier one.
pub slice_region-twice :
    (r : RegionMatrix) (d e pos pos' : ℕ)
    → r.slices ≡ []
    → length r.size ≡ length r.split_offset
    → d < length r.size
    → e + 1 < length r.size
    → (if r.is_transposed then ltb e d else leb d e) ≡ true
    → (r' : RegionMatrix) × (slice_region r d pos ≡ some r') × (slice_region r' e pos' ≡ none)
unfolding slice_region slice_slices sliced
slice_region-twice r d e pos pos' none_yet same h h' order =
    let k = own_dimension r d in
    let (o, at) = get_elem?-some r.split_offset k (omega (arith, own_dimension-lt r d h)) in
    let ss = slice_slices-Above r.split_offset k pos o [] at tt in
    let r' : RegionMatrix = record r {
      size = without k r.size;
      split_offset = without k r.split_offset;
      slices = (k, pos + o) ∷ [];
    } in
    let shorter = length-without k r.size (own_dimension-lt r d h) in
    let after : k ≤ own_dimension r' e = ground (arith, shorter, order) in
    (
      r',
      ap (sliced r k) (ap (slice_slices r.split_offset k pos) none_yet ∙ ss),
      ap (sliced r' (own_dimension r' e))
          (insert_slice-AllBelow r'.split_offset (own_dimension r' e) pos' r'.slices (after, tt)),
    )
