-- ===== src/RegionData/Loops.antt =====
-- The loops over the cells of a part by which the data and a buffer are copied to each other, as in
-- runtime/regiondataraw.cpp and runtime/regiondataremote.cpp.
use petabricks.Base.{
  ℕ, ◌+◌, ◌≤◌, ◌<◌, ◌≡◌, ◌≢◌, sym, ap, subst, ◌∙◌, some, List, ◌==◌, if◌then◌else◌, unless, arith,
  product,
}
use petabricks.Matrix.Coord.{InBounds, inc_coord, zeros}
use petabricks.Matrix.Coord.Rank.{coord_at, coord_at-InBounds, rank, rank-lt, coord_at-rank}
use petabricks.Matrix.Loop.{coord_loop, coord_loop-sizes, for_range}
use petabricks.Matrix.Copy.{Memory, write}
use petabricks.Matrix.Copy.Arrays.{counted}
use petabricks.Matrix.Copy.Transfer.{
  transfer, Separate, transfer_other, transfer_miss, transfer_hit,
}
use petabricks.RegionData.{Metadata}
use petabricks.RegionData.Parts.{Fits, index, Separate-index_at}

-- No cell of the part is at the offset.
abbrev pub IsOutside : Metadata → List ℕ → ℕ → Type 0
IsOutside m data_size a = (c : List ℕ) → InBounds m.size c → index m data_size c ≢ a

module _ {E : Type 0} where
  -- What a loop over the cells of a part has done: the cell `c` is copied, and the offset `a` of the
  -- target and the other buffers have not changed.
  abbrev pub IsCopied : Memory E → Memory E → ℕ → ℕ → ℕ → ℕ → ℕ → Type 0
  IsCopied mem m source from target to a =
      (m target to ≡ mem source from)
      × (m target a ≡ mem target a)
      × ((b a' : ℕ) → m b a' ≡ (if b == target then m b a' else mem b a'))

  -- The rounds of a loop that runs through the places of the sizes.
  transfer_cells :
      (size : List ℕ) (source target : ℕ) (from to : ℕ → ℕ) (mem : Memory E) (c : List ℕ) (a : ℕ)
      → source ≢ target
      → Separate to 0 (0 + product size)
      → InBounds size c
      → ((k : ℕ) → k < product size → to k ≢ a)
      → IsCopied mem
          (for_range (product size) 0 (transfer source target from to) mem)
          source
          (from (rank size c))
          target
          (to (rank size c))
          a
  transfer_cells size source target from to mem c a d separate i miss =
      let lt = rank-lt size c i in
      (
        transfer_hit source target from to (product size) 0 (rank size c) mem d separate
            (omega arith) (omega arith),
        transfer_miss source target from to (product size) 0 mem a (λ k p q. miss k (omega arith)),
        λ b a'.
            unless b target _ (mem b a')
              (transfer_other source target from to (product size) 0 mem b a'),
      )

  -- The same where the target's offsets are those of a part that fits its data.
  part_cells :
      (m : Metadata) (data_size size : List ℕ) (source target : ℕ) (from : ℕ → ℕ) (mem : Memory E)
      (c : List ℕ) (a : ℕ)
      → Fits m data_size
      → m.size ≡ size
      → source ≢ target
      → InBounds size c
      → IsOutside m data_size a
      → IsCopied mem
          (for_range
            (product size)
            0
            (transfer source target from (λ k. index m data_size (coord_at size k)))
            mem)
          source
          (from (rank size c))
          target
          (index m data_size c)
          a
  part_cells m data_size size source target from mem c a f e d i out =
      let to : ℕ → ℕ = λ k. index m data_size (coord_at size k) in
      let separate : Separate to 0 (0 + product size) =
        subst (λ ss. Separate (λ k. index m data_size (coord_at ss k)) 0 (0 + product ss)) e
          (Separate-index_at m data_size f) in
      let miss : (k : ℕ) → k < product size → to k ≢ a = λ k p.
        out (coord_at size k)
          (subst (λ ss. InBounds ss (coord_at size k)) (sym e) (coord_at-InBounds size k p)) in
      subst
        (λ x.
          IsCopied mem (for_range (product size) 0 (transfer source target from to) mem) source
            (from (rank size c)) target (index m data_size x) a)
        (coord_at-rank size c i)
        (transfer_cells size source target from to mem c a d separate i miss)

  -- A loop that copies to a part of a buffer from the places that `from` gives.
  pub loop_cells :
      (fuel : ℕ) (m : Metadata) (data_size size : List ℕ) (source target : ℕ) (from : List ℕ → ℕ)
      (mem : Memory E) (c : List ℕ) (a : ℕ)
      → Fits m data_size
      → m.size ≡ size
      → product size ≤ fuel
      → source ≢ target
      → InBounds size c
      → IsOutside m data_size a
      → (mem' : Memory E) × (coord_loop
            (inc_coord size)
            (λ x mem'. write mem' target (index m data_size x) (mem' source (from x)))
            fuel
            (zeros size)
            mem
          ≡ some mem')
        × IsCopied mem mem' source (from c) target (index m data_size c) a
  loop_cells fuel m data_size size source target from mem c a f e h d i out =
      let lt = rank-lt size c i in
      let to : ℕ → ℕ = λ k. index m data_size (coord_at size k) in
      let mem' =
        for_range (product size) 0 (transfer source target (λ k. from (coord_at size k)) to) mem in
      (
        mem',
        coord_loop-sizes size _ fuel mem (omega arith) h,
        subst (λ x. IsCopied mem mem' source (from x) target (index m data_size c) a)
            (coord_at-rank size c i)
            (part_cells m data_size size source target (λ k. from (coord_at size k)) mem c a f e d i
              out),
      )

  -- A loop that copies to a part of a buffer from the first entries of another.
  pub counted_cells :
      (fuel : ℕ) (m : Metadata) (data_size size : List ℕ) (source target : ℕ) (mem : Memory E)
      (c : List ℕ) (a : ℕ)
      → Fits m data_size
      → m.size ≡ size
      → product size ≤ fuel
      → source ≢ target
      → InBounds size c
      → IsOutside m data_size a
      → (mem' : Memory E) × (coord_loop {S = ℕ × Memory E}
            (inc_coord size)
            (λ x (n, mem'). (n + 1, write mem' target (index m data_size x) (mem' source n)))
            fuel
            (zeros size)
            (0, mem)
          ≡ some (product size, mem'))
        × IsCopied mem mem' source (rank size c) target (index m data_size c) a
  counted_cells fuel m data_size size source target mem c a f e h d i out =
      let lt = rank-lt size c i in
      let to : ℕ → ℕ = λ k. index m data_size (coord_at size k) in
      let mem' = for_range (product size) 0 (transfer source target (λ k. k) to) mem in
      (
        mem',
        coord_loop-sizes size _ fuel (0, mem) (omega arith) h
            ∙ ap some (
                counted (λ n k m'. write m' target (to k) (m' source n)) (product size) 0 mem
                ∙ ap (λ k. (k, mem')) (omega arith)),
        part_cells m data_size size source target (λ k. k) mem c a f e d i out,
      )

  -- A loop that copies from the places that `from` gives to the first entries of another buffer.
  pub collected_cells :
      (fuel : ℕ) (size : List ℕ) (source target : ℕ) (from : List ℕ → ℕ) (mem : Memory E)
      (c : List ℕ) (a : ℕ)
      → product size ≤ fuel
      → source ≢ target
      → InBounds size c
      → product size ≤ a
      → (mem' : Memory E) × (coord_loop {S = ℕ × Memory E}
            (inc_coord size)
            (λ x (n, mem'). (n + 1, write mem' target n (mem' source (from x))))
            fuel
            (zeros size)
            (0, mem)
          ≡ some (product size, mem'))
        × IsCopied mem mem' source (from c) target (rank size c) a
  collected_cells fuel size source target from mem c a h d i out =
      let lt = rank-lt size c i in
      let place : ℕ → ℕ = λ k. from (coord_at size k) in
      let mem' = for_range (product size) 0 (transfer source target place (λ k. k)) mem in
      (
        mem',
        coord_loop-sizes size _ fuel (0, mem) (omega arith) h
            ∙ ap some (
                counted (λ n k m'. write m' target n (m' source (place k))) (product size) 0 mem
                ∙ ap (λ k. (k, mem')) (omega arith)),
        subst (λ x. IsCopied mem mem' source (from x) target (rank size c) a)
            (coord_at-rank size c i)
            (transfer_cells size source target place (λ k. k) mem c a d (λ k k' p q t. omega arith)
              i (λ k p. omega arith)),
      )
