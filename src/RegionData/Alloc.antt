-- ===== src/RegionData/Alloc.antt =====
-- `RegionDataRaw` when it is made and allocated, and its cells.
use petabricks.Base.{
  ℕ, suc, ◌<◌, ◌≡◌, ◌≢◌, refl, sym, ap, ◌∙◌, true, false, some, List, ◌==◌, ==_iff, arith, product,
}
use petabricks.Matrix.Coord.{InBounds}
use petabricks.Matrix.Coord.Rank.{rank, rank-lt}
use petabricks.Matrix.Layout.{dot}
use petabricks.Matrix.Layout.Stock.{ascending-dot, stock_layout-dot-injective}
use petabricks.Matrix.Layout.{stock_layout, ascending}
use petabricks.Matrix.Copy.{Memory, buffer}
use petabricks.RegionData.{
  Raw, size_to_multipliers, alloc_data, coord_offset, init, copy_elements, read_cell, write_cell,
}
use petabricks.RegionData.Copies.{IsLaidOut}

laid_out :
    (raw : Raw) (c : List ℕ)
    → IsLaidOut raw
    → coord_offset raw c ≡ dot (stock_layout ascending raw.size) c
unfolding coord_offset size_to_multipliers stock_layout
laid_out raw c l = ap (λ ms. dot ms c) l

init_place : (size c : List ℕ) → InBounds size c → dot (size_to_multipliers size) c ≡ rank size c
unfolding size_to_multipliers stock_layout
init_place size c i = ascending-dot size c i

differ : (a b : ℕ) → a ≢ b → (a == b) ≡ false
differ a b h = ground arith

module _ {E : Type 0} where
  -- Data made from a buffer of values is laid out by its sizes and has, at each coordinate inside them,
  -- the value at the coordinate's place in the order of `incCoord`; another `allocData` allocates nothing
  -- and leaves it as it is.
  pub init-read_cell :
      (ident other : ℕ) (size : List ℕ) (source : ℕ) (mem : Memory E) (c : List ℕ)
      → InBounds size c
      → let (raw, mem') = init ident size (some source) mem in
        IsLaidOut raw
        × (read_cell raw mem' c ≡ mem source (rank size c))
        × (alloc_data other raw ≡ (0, raw))
  unfolding init read_cell alloc_data
  init-read_cell ident other size source mem c i =
      let lt : rank size c < product size = rank-lt size c i in
      let place : dot (size_to_multipliers size) c ≡ rank size c = init_place size c i in
      (refl, rw place (copied lt), refl)
    where
      copied :
          rank size c < product size
          → copy_elements (product size) source (suc ident) mem (suc ident) (rank size c)
            ≡ mem source (rank size c)
      copied lt = ground (arith, lt)

  -- A cell of data that is laid out by its sizes reads as the value that was written to it, and every
  -- other cell inside the sizes as before.
  raw_read_cell-write_cell :
      (raw : Raw) (mem : Memory E) (c d : List ℕ) (v : E)
      → IsLaidOut raw
      → InBounds raw.size c
      → InBounds raw.size d
      → c ≢ d
      → (read_cell raw (write_cell raw mem c v) c ≡ v)
        × (read_cell raw (write_cell raw mem c v) d ≡ read_cell raw mem d)
  unfolding read_cell write_cell
  raw_read_cell-write_cell raw mem c d v l i j ne =
      let apart : coord_offset raw d ≢ coord_offset raw c = λ e. ne (
        stock_layout-dot-injective ascending raw.size c d i j
          (sym (laid_out raw c l) ∙ sym e ∙ laid_out raw d l)) in
      let same : (coord_offset raw c == coord_offset raw c) ≡ true =
        (==_iff (coord_offset raw c) (coord_offset raw c)).1 refl in
      let here : (buffer raw.storage == buffer raw.storage) ≡ true =
        (==_iff (buffer raw.storage) (buffer raw.storage)).1 refl in
      (rw (here, same) refl, rw (here, differ (coord_offset raw d) (coord_offset raw c) apart) refl)
