-- ===== src/RegionData/Parts.antt =====
-- A part of the data that a message names: where its cells are.
use petabricks.Base.{
  ℕ, suc, ◌+◌, ◌≤◌, ◌<◌, ◌≡◌, refl, sym, ap, ◌∙◌, inl, inr, Bool-cases, List, [], ◌∷◌, true, false,
  leb, ◌==◌, if◌then◌else◌, some, length, take-length, arith, product,
}
use petabricks.Matrix.Coord.{InBounds}
use petabricks.Matrix.Coord.Rank.{coord_at, coord_at-InBounds, rank, rank-coord_at}
use petabricks.Matrix.Layout.{dot, stock_layout, ascending}
use petabricks.Matrix.Layout.Stock.{stock_layout-dot-lt, stock_layout-dot-injective}
use petabricks.Matrix.Copy.Transfer.{Separate}
use petabricks.RegionMatrix.{Slices, at_slice, position, rest_of, keep, data_coord}
use petabricks.RegionMatrix.Cells.{unsliced, data_coord-injective}
use petabricks.RegionData.{
  Metadata, size_to_multipliers, to_region_data_coord, coord_to_offset, to_region_data_index,
  scratch_multipliers,
}

-- A dimension that is not sliced: the offset plus the size is at most the data's.
abbrev pub FitsHead : List ℕ → List ℕ → ℕ → Type 0
FitsHead (o ∷ offset) (n ∷ size) s = o + n ≤ s
FitsHead _ _ s = ⊥

-- From data dimension `d` on, the part is inside the data.
abbrev pub FitsFrom : ℕ → Slices → List ℕ → List ℕ → List ℕ → Type 0
FitsFrom d ss offset size [] = (length offset ≡ 0) × (length size ≡ 0)
FitsFrom d ss offset size (s ∷ data_size) =
    if at_slice d ss
    then (position ss < s) × FitsFrom (d + 1) (rest_of ss) offset size data_size
    else FitsHead offset size s × FitsFrom (d + 1) ss (rest_of offset) (rest_of size) data_size

kept_length :
    (offset size : List ℕ) (s n : ℕ)
    → FitsHead offset size s
    → (length (rest_of offset) ≡ n) × (length (rest_of size) ≡ length (rest_of offset))
    → (length offset ≡ n + 1) × (length size ≡ length offset)
kept_length [] size s n f h = absurd f
kept_length (o ∷ offset) [] s n f h = absurd f
kept_length (o ∷ offset) (z ∷ size) s n f h = (omega arith, omega arith)

FitsFrom-length :
    (d : ℕ) (ss : Slices) (offset size data_size : List ℕ)
    → FitsFrom d ss offset size data_size
    → (length offset ≡ unsliced d (length data_size) ss) × (length size ≡ length offset)
FitsFrom-length d ss offset size [] h = (h.0, h.1 ∙ sym h.0)
FitsFrom-length d ss offset size (s ∷ data_size) h = elim (Bool-cases (at_slice d ss)) [
  | inl q ↦ rw q (FitsFrom-length (d + 1) (rest_of ss) offset size data_size (rw q at h).1)
  | inr q ↦
      let (f, g) = rw q at h in
      rw q (
        kept_length offset size s (unsliced (d + 1) (length data_size) ss) f
          (FitsFrom-length (d + 1) ss (rest_of offset) (rest_of size) data_size g))
]

kept_InBounds :
    (offset size c rest data_size : List ℕ) (s : ℕ)
    → FitsHead offset size s
    → InBounds size c
    → (InBounds (rest_of size) (rest_of c) → InBounds data_size rest)
    → InBounds (s ∷ data_size) (keep offset c rest)
kept_InBounds [] size c rest data_size s f b g = absurd f
kept_InBounds (o ∷ offset) [] c rest data_size s f b g = absurd f
kept_InBounds (o ∷ offset) (z ∷ size) [] rest data_size s f b g = absurd b
kept_InBounds (o ∷ offset) (z ∷ size) (x ∷ c) rest data_size s f b g =
    (omega (arith, b.0, f), g b.1)

-- A cell inside a part that fits is a cell inside the data.
pub data_coord-InBounds :
    (d : ℕ) (ss : Slices) (offset size data_size c : List ℕ)
    → FitsFrom d ss offset size data_size
    → InBounds size c
    → InBounds data_size (data_coord d (length data_size) ss offset c)
unfolding data_coord
data_coord-InBounds d ss offset size [] c h b = tt
data_coord-InBounds d ss offset size (s ∷ data_size) c h b = elim (Bool-cases (at_slice d ss)) [
  | inl q ↦
      let (f, g) = rw q at h in
      rw q (f, data_coord-InBounds (d + 1) (rest_of ss) offset size data_size c g b)
  | inr q ↦
      let (f, g) = rw q at h in
      rw q (
        kept_InBounds offset size c _ data_size s f b (λ b'.
          data_coord-InBounds (d + 1) ss (rest_of offset) (rest_of size) data_size (rest_of c) g
            b'))
]

InBounds-length : (size c : List ℕ) → InBounds size c → length c ≡ length size
InBounds-length [] [] b = refl
InBounds-length [] (x ∷ c) b = absurd b
InBounds-length (s ∷ size) [] b = absurd b
InBounds-length (s ∷ size) (x ∷ c) b = ap suc (InBounds-length size c b.1)

-- The part fits data of these sizes, and has one dimension for each that is not sliced.
abbrev pub Fits : Metadata → List ℕ → Type 0
Fits m data_size =
    FitsFrom 0 m.slices m.split_offset m.size data_size
    × (length m.size + length m.slices ≡ length data_size)

-- The index of a cell of the part in the data.
abbrev pub index : Metadata → List ℕ → List ℕ → ℕ
index m data_size = to_region_data_index m (size_to_multipliers data_size)

pub index-coord :
    (m : Metadata) (data_size c : List ℕ)
    → Fits m data_size
    → index m data_size c
      ≡ dot
          (stock_layout ascending data_size)
          (data_coord 0 (length data_size) m.slices m.split_offset c)
unfolding to_region_data_index to_region_data_coord size_to_multipliers coord_to_offset stock_layout
index-coord m data_size c h = rw h.1 refl

-- Inside the storage.
pub index-lt :
    (m : Metadata) (data_size c : List ℕ)
    → Fits m data_size
    → InBounds m.size c
    → index m data_size c < product data_size
index-lt m data_size c h b = rw (index-coord m data_size c h) (
    stock_layout-dot-lt ascending data_size _
      (data_coord-InBounds 0 m.slices m.split_offset m.size data_size c h.0 b))

index-injective :
    (m : Metadata) (data_size c c' : List ℕ)
    → Fits m data_size
    → InBounds m.size c
    → InBounds m.size c'
    → index m data_size c ≡ index m data_size c'
    → c ≡ c'
index-injective m data_size c c' h b b' e =
    let (k, k') = FitsFrom-length 0 m.slices m.split_offset m.size data_size h.0 in
    data_coord-injective (length data_size) 0 m.slices m.split_offset c c' k
      (InBounds-length m.size c b ∙ k') (InBounds-length m.size c' b' ∙ k')
      (stock_layout-dot-injective ascending data_size _ _
        (data_coord-InBounds 0 m.slices m.split_offset m.size data_size c h.0 b)
        (data_coord-InBounds 0 m.slices m.split_offset m.size data_size c' h.0 b')
        (sym (index-coord m data_size c h) ∙ e ∙ index-coord m data_size c' h))

-- The index of the cell at a place in the order of `incCoord`.
abbrev index_at : Metadata → List ℕ → ℕ → ℕ
index_at m data_size k = index m data_size (coord_at m.size k)

pub Separate-index_at :
    (m : Metadata) (data_size : List ℕ)
    → Fits m data_size
    → Separate (index_at m data_size) 0 (0 + product m.size)
Separate-index_at m data_size h k l p q t e =
    let ik = coord_at-InBounds m.size k (omega arith) in
    let il = coord_at-InBounds m.size l (omega arith) in
    absurd (
      omega (
        arith,
        ap (rank m.size)
            (index-injective m data_size (coord_at m.size k) (coord_at m.size l) h ik il e),
        rank-coord_at m.size k (omega arith),
        rank-coord_at m.size l (omega arith),
      ))

-- A scratch part of one dimension or more, with no slices, has all of its multipliers.
pub scratch_multipliers-Fits :
    (m : Metadata) (data_size size : List ℕ)
    → Fits m data_size
    → m.size ≡ size
    → m.slices ≡ []
    → 0 < length size
    → scratch_multipliers (length size) m data_size ≡ some (size_to_multipliers data_size)
unfolding scratch_multipliers size_to_multipliers
scratch_multipliers-Fits m data_size size f e k p =
    let n : length size ≡ length data_size = omega (arith, f.1, ap length e, ap length k) in
    let one : leb 1 (length data_size) ≡ true = ground arith in
    rw (k, n, one, take-length data_size) refl

-- With no dimensions the part is all of the data.
pub has_dimensions :
    (m : Metadata) (data_size size : List ℕ) (count : ℕ)
    → Fits m data_size
    → m.size ≡ size
    → m.slices ≡ []
    → count ≡ product data_size
    → (product size == count) ≡ false
    → 0 < length size
has_dimensions m data_size size count f e k total q =
    by_size size data_size (omega (arith, f.1, ap length e, ap length k)) (rw total at q)
  where
    by_size :
        (xs ys : List ℕ)
        → length xs ≡ length ys
        → (product xs == product ys) ≡ false
        → 0 < length xs
    by_size [] [] h q = absurd (ground arith)
    by_size [] (y ∷ ys) h q = absurd (omega arith)
    by_size (x ∷ xs) ys h q = omega arith
