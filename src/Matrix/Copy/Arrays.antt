-- ===== src/Matrix/Copy/Arrays.antt =====
-- `_regioncopy`: the cells of a region, in the order of `incCoord`, are the entries of the array.
use petabricks.Base.{
  ℕ, zero, suc, ◌+◌, ◌≤◌, ◌<◌, ◌≡◌, ◌≢◌, refl, sym, ap, ◌∙◌, Option, some, List, [], ◌∷◌, arith,
  product,
}
use petabricks.Matrix.{Region, Storage, coord_to_ptr, count, with_layout}
use petabricks.Matrix.Layout.{StockLayout}
use petabricks.Matrix.Layout.Stock.{stock_layout-dot-injective}
use petabricks.Matrix.Coord.{inc_coord, InBounds, carry_from}
use petabricks.Matrix.Coord.Rank.{
  coord_at, coord_at-InBounds, rank, rank-lt, coord_at-rank, rank-coord_at,
}
use petabricks.Matrix.Loop.{coord_loop, coord_loop-sizes, for_range}
use petabricks.Matrix.Copy.{Memory, buffer, write, cell, set_cell, region_copy_out, region_copy_in}
use petabricks.Matrix.Copy.Transfer.{transfer, Separate, transfer_other, transfer_hit}

-- The offset of the cell at a place.
abbrev ptr_at : Region → ℕ → ℕ
ptr_at r k = coord_to_ptr r (coord_at r.sizes k)

-- Different cells inside the sizes are at different offsets.
abbrev HasDistinctCells : Region → Type 0
HasDistinctCells r =
    (c d : List ℕ)
    → InBounds r.sizes c
    → InBounds r.sizes d
    → coord_to_ptr r c ≡ coord_to_ptr r d
    → c ≡ d

Separate-ptr_at : (r : Region) → HasDistinctCells r → Separate (ptr_at r) 0 (0 + count r)
unfolding count
Separate-ptr_at r distinct k l p q t e =
    let ik = coord_at-InBounds r.sizes k (omega arith) in
    let il = coord_at-InBounds r.sizes l (omega arith) in
    absurd (
      omega (
        arith,
        ap (rank r.sizes) (distinct (coord_at r.sizes k) (coord_at r.sizes l) ik il e),
        rank-coord_at r.sizes k (omega arith),
        rank-coord_at r.sizes l (omega arith),
      ))

-- A region with a stock layout has distinct cells.
with_layout-HasDistinctCells :
    (s : Option Storage) (b : ℕ) (sizes : List ℕ) (l : StockLayout)
    → HasDistinctCells (with_layout s b sizes l)
unfolding with_layout coord_to_ptr
with_layout-HasDistinctCells s b sizes l c d ic id e =
    stock_layout-dot-injective l sizes c d ic id (omega arith)

module _ {E : Type 0} where
  -- A loop that also counts its rounds.
  pub counted :
      (body : ℕ → ℕ → Memory E → Memory E) (n i : ℕ) (mem : Memory E)
      → for_range n i (λ k (s : ℕ × Memory E). (s.0 + 1, body s.0 k s.1)) (i, mem)
        ≡ (i + n, for_range n i (λ k. body k k) mem)
  counted body zero i mem = ap (λ k. (k, mem)) (omega arith)
  counted body (suc n) i mem =
      counted body n (i + 1) (body i i mem)
      ∙ ap (λ k. (k, for_range n (i + 1) (λ k. body k k) (body i i mem))) (omega arith)

  copied_out : Region → ℕ → Memory E → Memory E
  copied_out r out = for_range (count r) 0 (transfer (buffer r.storage) out (ptr_at r) (λ k. k))

  copied_in : Region → ℕ → Memory E → Memory E
  copied_in r inp = for_range (count r) 0 (transfer inp (buffer r.storage) (λ k. k) (ptr_at r))

  region_copy_out_lem :
      (fuel : ℕ) (r : Region) (out : ℕ) (mem : Memory E)
      → 0 < count r
      → count r ≤ fuel
      → region_copy_out fuel r out mem ≡ some (count r, copied_out r out mem)
  unfolding region_copy_out count copied_out
  region_copy_out_lem fuel r out mem p h =
      coord_loop-sizes r.sizes _ fuel (0, mem) p h
      ∙ ap some (
          counted (λ j k m. write m out j (cell m r (coord_at r.sizes k))) (product r.sizes) 0 mem
          ∙ ap (λ k. (k, copied_out r out mem)) (omega arith))

  region_copy_in_lem :
      (fuel : ℕ) (r : Region) (inp : ℕ) (mem : Memory E)
      → 0 < count r
      → count r ≤ fuel
      → region_copy_in fuel r inp mem ≡ some (count r, copied_in r inp mem)
  unfolding region_copy_in count copied_in
  region_copy_in_lem fuel r inp mem p h =
      coord_loop-sizes r.sizes _ fuel (0, mem) p h
      ∙ ap some (
          counted (λ j k m. set_cell m r (coord_at r.sizes k) (m inp j)) (product r.sizes) 0 mem
          ∙ ap (λ k. (k, copied_in r inp mem)) (omega arith))

  -- With fuel for the cells of a region that is not empty, the first `_regioncopy` ends after one
  -- round for each cell. Then entry `rank c` of the array is cell `c` of the region, for every `c`
  -- inside the sizes, and no other buffer has changed.
  region_copy_out_cells :
      (fuel : ℕ) (r : Region) (out : ℕ) (mem : Memory E) (c : List ℕ) (b a : ℕ)
      → count r ≤ fuel
      → out ≢ buffer r.storage
      → InBounds r.sizes c
      → b ≢ out
      → (m : Memory E) × (region_copy_out fuel r out mem ≡ some (count r, m))
        × (m out (rank r.sizes c) ≡ cell mem r c)
        × (m b a ≡ mem b a)
  unfolding count copied_out
  region_copy_out_cells fuel r out mem c b a h d i ne =
      let lt = rank-lt r.sizes c i in
      (
        copied_out r out mem,
        region_copy_out_lem fuel r out mem (omega arith) h,
        transfer_hit (buffer r.storage) out (ptr_at r) (λ k. k) (count r) 0 (rank r.sizes c) mem
              (λ e. d (sym e)) (λ k l p q t. omega arith) (omega arith) (omega arith)
            ∙ ap (cell mem r) (coord_at-rank r.sizes c i),
        transfer_other (buffer r.storage) out (ptr_at r) (λ k. k) (count r) 0 mem b a ne,
      )

  -- The other `_regioncopy` into a region whose cells are distinct: cell `c` gets entry `rank c`.
  region_copy_in_cells :
      (fuel : ℕ) (r : Region) (inp : ℕ) (mem : Memory E) (c : List ℕ) (b a : ℕ)
      → count r ≤ fuel
      → inp ≢ buffer r.storage
      → HasDistinctCells r
      → InBounds r.sizes c
      → b ≢ buffer r.storage
      → (m : Memory E) × (region_copy_in fuel r inp mem ≡ some (count r, m))
        × (cell m r c ≡ mem inp (rank r.sizes c))
        × (m b a ≡ mem b a)
  unfolding count copied_in
  region_copy_in_cells fuel r inp mem c b a h d distinct i ne =
      let lt = rank-lt r.sizes c i in
      (
        copied_in r inp mem,
        region_copy_in_lem fuel r inp mem (omega arith) h,
        ap (cell (copied_in r inp mem) r) (sym (coord_at-rank r.sizes c i))
            ∙ transfer_hit inp (buffer r.storage) (λ k. k) (ptr_at r) (count r) 0 (rank r.sizes c)
                mem d (Separate-ptr_at r distinct) (omega arith) (omega arith),
        transfer_other inp (buffer r.storage) (λ k. k) (ptr_at r) (count r) 0 mem b a ne,
      )

  -- Copying a region out to an array, and the array in to another region of the same sizes with
  -- distinct cells, makes every cell of the second region that of the first.
  region_copy_roundtrip :
      (fuel : ℕ) (r s : Region) (array : ℕ) (mem : Memory E) (c : List ℕ)
      → count r ≤ fuel
      → r.sizes ≡ s.sizes
      → HasDistinctCells s
      → array ≢ buffer r.storage
      → array ≢ buffer s.storage
      → InBounds r.sizes c
      → (m m' : Memory E) × (region_copy_out fuel r array mem ≡ some (count r, m))
        × (region_copy_in fuel s array m ≡ some (count s, m'))
        × (cell m' s c ≡ cell mem r c)
  unfolding count
  region_copy_roundtrip fuel r s array mem c h same distinct dr ds i =
      let (m, out, got, _) =
        region_copy_out_cells fuel r array mem c (suc array) 0 h dr i (omega arith) in
      let (m', in', put, _) =
        region_copy_in_cells fuel s array m c array 0 (rw (← same) h) ds distinct (rw (← same) i)
          ds in
      (m, m', out, in', put ∙ ap (λ ss. m array (rank ss c)) (sym same) ∙ got)

  -- An empty region of one dimension still costs one round of the loop, which writes to the first
  -- entry of an array that has none, and reads a cell outside the region.
  region_copy_out_empty :
      (fuel : ℕ) (r : Region) (out : ℕ) (mem : Memory E)
      → r.sizes ≡ 0 ∷ []
      → (count r ≡ 0)
        × (region_copy_out (suc fuel) r out mem ≡ some (1, write mem out 0 (cell mem r (0 ∷ []))))
  unfolding region_copy_out count coord_loop inc_coord carry_from
  region_copy_out_empty fuel r out mem e = (rw e refl, rw e refl)

  -- Copying a region out to an array in a buffer of its own, and the array in to a region of the
  -- same sizes with a stock layout in whatever storage, ends, with a round of fuel for each cell,
  -- and makes every cell of the second region that of the first.
  pub region_copy_stock_roundtrip :
      (fuel : ℕ) (r : Region) (st : Option Storage) (base : ℕ) (l : StockLayout) (array : ℕ)
      (mem : Memory E) (c : List ℕ)
      → count r ≤ fuel
      → array ≢ buffer r.storage
      → array ≢ buffer st
      → InBounds r.sizes c
      → let s = with_layout st base r.sizes l in
        (m m' : Memory E) × (region_copy_out fuel r array mem ≡ some (count r, m))
        × (region_copy_in fuel s array m ≡ some (count s, m'))
        × (cell m' s c ≡ cell mem r c)
  unfolding with_layout
  region_copy_stock_roundtrip fuel r st base l array mem c h dr ds i =
      region_copy_roundtrip fuel r (with_layout st base r.sizes l) array mem c h refl
        (with_layout-HasDistinctCells st base r.sizes l) dr ds i
