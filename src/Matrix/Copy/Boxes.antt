-- ===== src/Matrix/Copy/Boxes.antt =====
-- `copyTo`: what it copies, and what it leaves alone.
use petabricks.Base.{
  ℕ, ◌+◌, ◌≤◌, ◌<◌, ◌≡◌, ◌≢◌, refl, subst, true, false, ◌⊎◌, inl, inr, some, List, [], ◌∷◌, arith,
  product,
}
use petabricks.Matrix.{Region, coord_to_ptr}
use petabricks.Matrix.Coord.{InBounds}
use petabricks.Matrix.Coord.Bound.{IsBox, extents, box_at, add_coords}
use petabricks.Matrix.Coord.Rank.{rank, rank-lt, coord_at-rank}
use petabricks.Matrix.Loop.{coord_loop-box, for_range}
use petabricks.Matrix.Copy.{Memory, buffer, cell, same_storage, is_flat, copy_to_box}
use petabricks.Matrix.Copy.Transfer.{
  transfer, Separate, transfer_other, transfer_miss, transfer_hit,
}

-- No dimension of the box is empty.
abbrev IsOpenBox : List ℕ → List ℕ → Type 0
IsOpenBox [] [] = Unit {0}
IsOpenBox (a ∷ c1) (b ∷ c2) = (a < b) × IsOpenBox c1 c2
IsOpenBox _ _ = ⊥

IsOpenBox-IsBox :
    (c1 c2 : List ℕ)
    → IsOpenBox c1 c2
    → IsBox c1 c2 × (0 < product (extents c1 c2)) × (is_flat c1 c2 ≡ false)
IsOpenBox-IsBox [] [] o = (tt, omega arith, refl)
IsOpenBox-IsBox [] (b ∷ c2) o = absurd o
IsOpenBox-IsBox (a ∷ c1) [] o = absurd o
IsOpenBox-IsBox (a ∷ c1) (b ∷ c2) o =
    let (box, pos, flat) = IsOpenBox-IsBox c1 c2 o.1 in
    ((omega arith, box), grind arith, ground arith)

-- The offset of the cell at a place of a box.
abbrev ptr_box : Region → List ℕ → List ℕ → ℕ → ℕ
ptr_box r c1 c2 k = coord_to_ptr r (box_at c1 c2 k)

-- Some dimension of the box is empty.
abbrev IsFlat : List ℕ → List ℕ → Type 0
IsFlat (a ∷ c1) (b ∷ c2) = (b ≤ a) ⊎ IsFlat c1 c2
IsFlat _ _ = ⊥

is_flat-IsFlat : (c1 c2 : List ℕ) → IsFlat c1 c2 → is_flat c1 c2 ≡ true
is_flat-IsFlat [] [] e = absurd e
is_flat-IsFlat [] (b ∷ c2) e = absurd e
is_flat-IsFlat (a ∷ c1) [] e = absurd e
is_flat-IsFlat (a ∷ c1) (b ∷ c2) (inl e) = ground arith
is_flat-IsFlat (a ∷ c1) (b ∷ c2) (inr e) = ground (arith, is_flat-IsFlat c1 c2 e)

module _ {E : Type 0} where
  copied_box : Region → Region → List ℕ → List ℕ → Memory E → Memory E
  copied_box src dst c1 c2 =
      for_range (product (extents c1 c2)) 0
        (transfer (buffer src.storage) (buffer dst.storage) (ptr_box src c1 c2) (ptr_box dst c1 c2))

  copy_to_box_lem :
      (fuel : ℕ) (src dst : Region) (c1 c2 : List ℕ) (mem : Memory E)
      → buffer src.storage ≢ buffer dst.storage
      → IsOpenBox c1 c2
      → product (extents c1 c2) ≤ fuel
      → copy_to_box fuel src dst c1 c2 mem ≡ some (copied_box src dst c1 c2 mem)
  unfolding copy_to_box copied_box
  copy_to_box_lem fuel src dst c1 c2 mem d o h =
      let (box, pos, flat) = IsOpenBox-IsBox c1 c2 o in
      let other : same_storage src dst ≡ false = ground arith in
      rw (other, flat) (coord_loop-box c1 c2 _ fuel mem box pos h)

  -- A bounded `copyTo` between different storages, over a box that is empty in no dimension and
  -- whose cells are distinct in the destination, ends with fuel for the box. Then every cell of the
  -- box is that of the source; an offset of the destination that no cell of the box has, and every
  -- other buffer, is as before.
  copy_to_box_cells :
      (fuel : ℕ) (src dst : Region) (c1 c2 : List ℕ) (mem : Memory E) (c : List ℕ) (a b a' : ℕ)
      → buffer src.storage ≢ buffer dst.storage
      → IsOpenBox c1 c2
      → product (extents c1 c2) ≤ fuel
      → Separate (ptr_box dst c1 c2) 0 (0 + product (extents c1 c2))
      → InBounds (extents c1 c2) c
      → ((k : ℕ) → 0 ≤ k → k < 0 + product (extents c1 c2) → ptr_box dst c1 c2 k ≢ a)
      → b ≢ buffer dst.storage
      → (m : Memory E) × (copy_to_box fuel src dst c1 c2 mem ≡ some m)
        × (cell m dst (add_coords c1 c) ≡ cell mem src (add_coords c1 c))
        × (m (buffer dst.storage) a ≡ mem (buffer dst.storage) a)
        × (m b a' ≡ mem b a')
  unfolding copied_box
  copy_to_box_cells fuel src dst c1 c2 mem c a b a' d o h separate i miss other =
      let lt = rank-lt (extents c1 c2) c i in
      let total = product (extents c1 c2) in
      let bs = buffer src.storage in
      let bd = buffer dst.storage in
      let from = ptr_box src c1 c2 in
      let to = ptr_box dst c1 c2 in
      let m = copied_box src dst c1 c2 mem in
      let place = rank (extents c1 c2) c in
      (
        m,
        copy_to_box_lem fuel src dst c1 c2 mem d o h,
        subst (λ k. cell m dst (add_coords c1 k) ≡ cell mem src (add_coords c1 k))
            (coord_at-rank (extents c1 c2) c i)
            (transfer_hit bs bd from to total 0 place mem d separate (omega arith) (omega arith)),
        transfer_miss bs bd from to total 0 mem a miss,
        transfer_other bs bd from to total 0 mem b a' other,
      )

  -- Where the storages are one, or a dimension of the box is empty, `copyTo` changes nothing,
  -- whatever the fuel.
  copy_to_box_skips :
      (fuel : ℕ) (src dst : Region) (c1 c2 : List ℕ) (mem : Memory E)
      → (buffer src.storage ≡ buffer dst.storage) ⊎ IsFlat c1 c2
      → copy_to_box fuel src dst c1 c2 mem ≡ some mem
  unfolding copy_to_box
  copy_to_box_skips fuel src dst c1 c2 mem (inl e) = ground arith
  copy_to_box_skips fuel src dst c1 c2 mem (inr e) = ground (arith, is_flat-IsFlat c1 c2 e)
