-- ===== src/RegionMatrix/Local.antt =====
-- A region whose data is here, as a `MatrixRegion`: the offset that `computeMatrixRegionMetaData`
-- computes is the one that `RegionDataRaw` computes from the data's coordinate.
use mathlib.Core.List.{reverse, reverse-reverse}
use petabricks.Base.{
  ℕ, ◌+◌, ◌*◌, ◌≡◌, refl, subst, ◌∙◌, Bool, true, false, Bool-cases, inl, inr, Option, List, [],
  ◌∷◌, arith, if◌then◌else◌, length,
}
use petabricks.Matrix.{Region, Storage, coord_to_ptr}
use petabricks.Matrix
use petabricks.Matrix.Layout.{dot, ascending_from}
use petabricks.Matrix.Views.{transposed_lem}
use petabricks.RegionMatrix.Coords.{length-reverse}
use petabricks.RegionMatrix.{
  RegionMatrix, Slices, oriented, at_slice, rest_of, data_coord, region_data_coord, meta_data,
  to_local_region,
}

meta_data-dot :
    (sizes : List ℕ) (d mult : ℕ) (ss : Slices) (os c : List ℕ)
    → length os ≡ length c
    → let (start, ms) = meta_data d mult ss os sizes in
      start + dot ms c ≡ dot (ascending_from mult sizes) (data_coord d (length sizes) ss os c)
unfolding meta_data data_coord dot ascending_from
meta_data-dot [] d mult ss os c h = refl
meta_data-dot (s ∷ sizes) d mult ss [] [] h = elim (Bool-cases (at_slice d ss)) [
  | inl q ↦ rw q (omega (arith, meta_data-dot sizes (d + 1) (mult * s) (rest_of ss) [] [] h))
  | inr q ↦ rw q refl
]
meta_data-dot (s ∷ sizes) d mult ss (o ∷ os) (x ∷ c) h = elim (Bool-cases (at_slice d ss)) [
  | inl q ↦
      rw q (omega (arith, meta_data-dot sizes (d + 1) (mult * s) (rest_of ss) (o ∷ os) (x ∷ c) h))
  | inr q ↦ rw q (grind (arith, meta_data-dot sizes (d + 1) (mult * s) ss os c (omega arith)))
]
meta_data-dot (s ∷ sizes) d mult ss [] (x ∷ c) h = absurd (omega arith)
meta_data-dot (s ∷ sizes) d mult ss (o ∷ os) [] h = absurd (omega arith)

-- The view that `_toLocalRegion` makes of a region, transposed or sliced, finds each cell where
-- `RegionDataRaw` finds it: at the offset of the cell's coordinate in the data. The coordinate has the
-- dimension of the region, and each of its dimensions is one of the data's that is not sliced away.
pub to_local_region-data :
    (r : RegionMatrix) (storage : Option Storage) (c : List ℕ)
    → length r.split_offset ≡ length c
    → length (meta_data 0 1 r.slices r.split_offset r.handler.data_size).1 ≡ length c
    → coord_to_ptr (to_local_region r storage) c
      ≡ dot (ascending_from 1 r.handler.data_size) (region_data_coord r c)
unfolding to_local_region region_data_coord coord_to_ptr
to_local_region-data r storage c h k = by_flag r.is_transposed refl
  where
    local : Region
    local =
        let (start, ms) = meta_data 0 1 r.slices r.split_offset r.handler.data_size in
        record { storage = storage; base = start; sizes = r.size; multipliers = ms }

    by_flag :
        (t : Bool)
        → r.is_transposed ≡ t
        → coord_to_ptr (if r.is_transposed then Matrix.transposed local else local) c
          ≡ dot (ascending_from 1 r.handler.data_size) (
              data_coord 0
                (length r.handler.data_size)
                r.slices
                r.split_offset
                (oriented r.is_transposed c))
    by_flag true e =
        let (same, _) = transposed_lem local (reverse c) (omega (arith, length-reverse c)) in
        rw e (
          subst (λ c'. coord_to_ptr (Matrix.transposed local) c' ≡ coord_to_ptr local (reverse c))
            (reverse-reverse c) same
          ∙ meta_data-dot r.handler.data_size 0 1 r.slices r.split_offset (reverse c)
              (omega (arith, length-reverse c)))
    by_flag false e = rw e (meta_data-dot r.handler.data_size 0 1 r.slices r.split_offset c h)
