-- ===== src/RegionMatrix/Cells.antt =====
-- The cells of a distributed region: `readCell` and `writeCell` through the coordinates of the data.
use petabricks.Base.{
  ℕ, zero, suc, ◌+◌, ◌≡◌, ◌≢◌, refl, sym, ap, ◌∙◌, Bool, true, false, List, [], ◌∷◌, Bool-cases,
  inl, inr, arith, if◌then◌else◌, length,
}
use mathlib.Core.List.{reverse, reverse-reverse}
use petabricks.Split.{same_coord}
use petabricks.Split.Cells.{same_coord_refl, same_coord-eq}
use petabricks.RegionMatrix.{
  RegionMatrix, Slices, at_slice, position, rest_of, keep, oriented, data_coord, region_data_coord,
  split_region, read_cell, write_cell, Store,
}
use petabricks.RegionMatrix.Coords.{length-oriented, region_data_coord-split_region}
use petabricks.Matrix.Coord.{InBounds}
use petabricks.Matrix.Coord.Bound.{add_coords}

-- How many of the data's `n` dimensions from `d` on are not sliced.
abbrev pub unsliced : ℕ → ℕ → Slices → ℕ
unsliced d zero ss = 0
unsliced d (suc n) ss =
    let there = unsliced (d + 1) n (rest_of ss) in
    let here = unsliced (d + 1) n ss in if at_slice d ss then there else here + 1

cons_eq : (x y : ℕ) (xs ys : List ℕ) → x ∷ xs ≡ y ∷ ys → (x ≡ y) × (xs ≡ ys)
cons_eq x y xs ys h = (cc, cc)

pub data_coord-injective :
    (n d : ℕ) (ss : Slices) (os c c' : List ℕ)
    → length os ≡ unsliced d n ss
    → length c ≡ length os
    → length c' ≡ length os
    → data_coord d n ss os c ≡ data_coord d n ss os c'
    → c ≡ c'
unfolding data_coord
data_coord-injective zero d ss os [] [] h k k' e = refl
data_coord-injective zero d ss os (x ∷ c) c' h k k' e = absurd (omega arith)
data_coord-injective zero d ss os c (x ∷ c') h k k' e = absurd (omega arith)
data_coord-injective (suc n) d ss os c c' h k k' e = elim (Bool-cases (at_slice d ss)) [
  | inl q ↦
      let e' : position ss ∷ data_coord (d + 1) n (rest_of ss) os c
          ≡ position ss ∷ data_coord (d + 1) n (rest_of ss) os c' =
        rw q at e in
      data_coord-injective n (d + 1) (rest_of ss) os c c' (rw q at h) k k' cc
  | inr q ↦ kept (data_coord-injective n (d + 1) ss) os c c' (rw q at h) k k' (rw q at e)
]
  where
    Injective : Type 0
    Injective =
        (os c c' : List ℕ)
        → length os ≡ unsliced (d + 1) n ss
        → length c ≡ length os
        → length c' ≡ length os
        → data_coord (d + 1) n ss os c ≡ data_coord (d + 1) n ss os c'
        → c ≡ c'

    kept :
        Injective
        → (os c c' : List ℕ) → length os ≡ unsliced (d + 1) n ss + 1
        → length c ≡ length os
        → length c' ≡ length os
        → keep os c (data_coord (d + 1) n ss (rest_of os) (rest_of c))
          ≡ keep os c' (data_coord (d + 1) n ss (rest_of os) (rest_of c'))
        → c ≡ c'
    kept rec [] c c' h k k' e = absurd (omega arith)
    kept rec (o ∷ os) [] c' h k k' e = absurd (omega arith)
    kept rec (o ∷ os) c [] h k k' e = absurd (omega arith)
    kept rec (o ∷ os) (x ∷ c) (y ∷ c') h k k' e =
        let (p, q) =
          cons_eq (x + o) (y + o) (data_coord (d + 1) n ss os c) (data_coord (d + 1) n ss os c')
            e in
        let r : x ≡ y = omega arith in
        rw (r, rec os c c' (omega arith) (omega arith) (omega arith) q) refl

oriented-injective : (t : Bool) (c c' : List ℕ) → oriented t c ≡ oriented t c' → c ≡ c'
oriented-injective true c c' h = sym (reverse-reverse c) ∙ ap reverse h ∙ reverse-reverse c'
oriented-injective false c c' h = h

-- Different cells of a region are different cells of its data, when the region has one dimension for
-- each of the data's that is not sliced away.
region_data_coord-injective :
    (r : RegionMatrix) (c c' : List ℕ)
    → length r.split_offset ≡ unsliced 0 (length r.handler.data_size) r.slices
    → length c ≡ length r.split_offset
    → length c' ≡ length r.split_offset
    → region_data_coord r c ≡ region_data_coord r c'
    → c ≡ c'
unfolding region_data_coord
region_data_coord-injective r c c' h k k' e =
    let t = r.is_transposed in
    oriented-injective t c c' (
      data_coord-injective (length r.handler.data_size) 0 r.slices r.split_offset (oriented t c)
        (oriented t c') h (length-oriented t c ∙ k) (length-oriented t c' ∙ k') e)

module _ {E : Type 0} where
  -- A cell of a region that has been written reads as the value, through this region and, at the place
  -- of the cell there, through a part that splitRegion makes of it; every other cell of the region reads
  -- as before. The cells are inside the data, and the region has one dimension for each of the data's
  -- that is not sliced away.
  pub region_read_cell-write_cell :
      (r : RegionMatrix) (store : Store E) (c c' start part_size d : List ℕ) (v : E)
      → length r.split_offset ≡ unsliced 0 (length r.handler.data_size) r.slices
      → length c ≡ length r.split_offset
      → length c' ≡ length r.split_offset
      → InBounds r.handler.data_size (region_data_coord r c)
      → InBounds r.handler.data_size (region_data_coord r c')
      → c ≢ c'
      → length start ≡ length r.split_offset
      → length d ≡ length r.split_offset
      → c ≡ add_coords start d
      → (read_cell r (write_cell r store c v) c ≡ v)
        × (read_cell r (write_cell r store c v) c' ≡ read_cell r store c')
        × (read_cell (split_region r start part_size) (write_cell r store c v) d ≡ v)
  unfolding read_cell write_cell
  region_read_cell-write_cell r store c c' start part_size d v h k k' b b' ne s l e = (
    rw (same_coord_refl (region_data_coord r c)) refl,
    elim (Bool-cases (same_coord (region_data_coord r c') (region_data_coord r c))) [
      | inl same ↦ absurd (
          ne (
            sym (
              region_data_coord-injective r c' c h k' k
                (same_coord-eq (region_data_coord r c') (region_data_coord r c) same))))
      | inr differs ↦ rw differs refl
    ],
    let place : region_data_coord (split_region r start part_size) d ≡ region_data_coord r c =
          region_data_coord-split_region r start part_size d s l
          ∙ ap (region_data_coord r) (sym e) in
        rw (place, same_coord_refl (region_data_coord r c)) refl,
  )
