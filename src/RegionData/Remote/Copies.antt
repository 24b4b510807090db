-- ===== src/RegionData/Remote/Copies.antt =====
-- The copies of a `RegionDataRemote` do what the same copies do where the data is.
use petabricks.Base.{
  ℕ, ◌≤◌, ◌<◌, ◌≡◌, ◌≢◌, refl, sym, ap, subst, ◌∙◌, false≢true, inl, inr, Bool-cases, some, List,
  [], ltb, ltb→lt, ◌||◌, and_then, unless, apart, ◌==◌, ==_iff, if◌then◌else◌, arith, product,
}
use petabricks.Matrix.{Storage}
use petabricks.Matrix.Coord.{InBounds}
use petabricks.Matrix.Coord.Rank.{rank, rank-lt, coord_at, coord_at-InBounds, rank-coord_at}
use petabricks.Matrix.Copy.{Memory, buffer}
use petabricks.RegionData.{Metadata, Raw, process_copy_from, copy_elements, memory_of}
use petabricks.RegionData.Parts.{Fits, index, scratch_multipliers-Fits, has_dimensions}
use petabricks.RegionData.Whole.{index-whole}
use petabricks.RegionData.Loops.{IsOutside, IsCopied, counted_cells, collected_cells}
use petabricks.RegionData.Copies.{IsLaidOut, process_copy_to_cells, process_copy_from_cells}
use petabricks.RegionData.Remote.{unpack, pack, copy_to_scratch, copy_from_scratch}

-- An offset outside of a part that is the whole data is beyond its cells.
IsOutside-whole :
    (m : Metadata) (data_size : List ℕ) (a : ℕ)
    → Fits m data_size
    → product m.size ≡ product data_size
    → IsOutside m data_size a
    → product m.size ≤ a
IsOutside-whole m data_size a f e out = elim (Bool-cases (ltb a (product m.size))) [
  | inl q ↦
      let p = ltb→lt a (product m.size) q in
      let b = coord_at-InBounds m.size a p in
      absurd (
        out (coord_at m.size a) b
          (index-whole m data_size (coord_at m.size a) f b e ∙ rank-coord_at m.size a p))
  | inr q ↦ ground arith
]

unless_both {ℓ} :
    {A : Type ℓ} (b t u : ℕ) (x y : A)
    → (b ≢ t → b ≢ u → x ≡ y)
    → x ≡ (if b == t || b == u then x else y)
unless_both b t u x y h = elim (Bool-cases (b == t)) [
  | inl e ↦ rw e refl
  | inr e ↦ rw e (unless b u x y (h (λ q. false≢true (sym e ∙ (==_iff b t).1 q))))
]

module _ {E : Type 0} where
  copy_elements_cells :
      (n source target : ℕ) (mem : Memory E) (k a : ℕ)
      → k < n
      → n ≤ a
      → IsCopied mem (copy_elements n source target mem) source k target k a
  copy_elements_cells n source target mem k a h h' =
      (ground arith, ground arith, λ b a'. unless b target _ (mem b a') (unwritten b a'))
    where
      unwritten : (b a' : ℕ) → b ≢ target → copy_elements n source target mem b a' ≡ mem b a'
      unwritten b a' other = ground arith

  unpack_cells :
      (fuel : ℕ) (reply : ℕ) (scratch : Storage) (scratch_m : Metadata) (scratch_size : List ℕ)
      (size : List ℕ) (mem : Memory E) (c : List ℕ) (a : ℕ)
      → Fits scratch_m scratch_size
      → scratch_m.size ≡ size
      → scratch_m.slices ≡ []
      → scratch.count ≡ product scratch_size
      → product size ≤ fuel
      → reply ≢ buffer (some scratch)
      → InBounds size c
      → IsOutside scratch_m scratch_size a
      → (mem' : Memory E) × (unpack fuel
            (product size)
            reply
            size
            scratch
            scratch_m
            scratch_size
            mem
          ≡ some mem')
        × IsCopied mem mem' reply
            (rank size c)
            (buffer (some scratch))
            (index scratch_m scratch_size c)
            a
  unfolding unpack
  unpack_cells fuel reply scratch scratch_m scratch_size size mem c a f e u k h d i out =
      elim (Bool-cases (product size == scratch.count)) [
        | inl q ↦
            let total : product scratch_m.size ≡ product scratch_size =
              ap product e ∙ (==_iff (product size) scratch.count).0 q ∙ k in
            let lt = rank-lt size c i in
            let inside : InBounds scratch_m.size c = subst (λ ss. InBounds ss c) (sym e) i in
            let place : index scratch_m scratch_size c ≡ rank size c =
              index-whole scratch_m scratch_size c f inside total ∙ ap (λ ss. rank ss c) e in
            let far = IsOutside-whole scratch_m scratch_size a f total out in
            (
              copy_elements (product size) reply (buffer (some scratch)) mem,
              rw q refl,
              subst
                  (λ x.
                    IsCopied mem (copy_elements (product size) reply (buffer (some scratch)) mem)
                      reply (rank size c) (buffer (some scratch)) x a)
                  (sym place)
                  (copy_elements_cells (product size) reply (buffer (some scratch)) mem
                    (rank size c) a lt (rw (ap product e) at far)),
            )
        | inr q ↦
            let (mem', loop, copied) =
              counted_cells fuel scratch_m scratch_size size reply (buffer (some scratch)) mem c a f
                e h d i out in
            (
              mem',
              rw
                  (
                    q,
                    scratch_multipliers-Fits scratch_m scratch_size size f e u
                        (has_dimensions scratch_m scratch_size size scratch.count f e u k q),
                  )
                  (ap memory_of loop),
              copied,
            )
      ]

  -- `copyToScratchMatrixStorage` of data that another process has: the reply of that process, put into
  -- the scratch storage at once or cell by cell, leaves there what the same copy would leave where the
  -- data is. It ends, with a round of fuel for each cell; each cell of the scratch part is that of the
  -- data; an offset of the scratch storage that is not in its part, and every buffer but the scratch
  -- storage and the reply, have not changed. The scratch part has no slices and fits its storage,
  -- which has a place for each cell of its sizes, and the three buffers are different.
  pub remote_copy_to_scratch_cells :
      (fuel : ℕ) (raw : Raw) (m scratch_m : Metadata) (reply : ℕ) (scratch : Storage)
      (scratch_size : List ℕ) (mem : Memory E) (c : List ℕ) (a : ℕ)
      → IsLaidOut raw
      → Fits scratch_m scratch_size
      → scratch_m.size ≡ m.size
      → scratch_m.slices ≡ []
      → scratch.count ≡ product scratch_size
      → product m.size ≤ fuel
      → buffer raw.storage ≢ reply
      → reply ≢ buffer (some scratch)
      → InBounds m.size c
      → IsOutside scratch_m scratch_size a
      → (mem' : Memory E) × (copy_to_scratch fuel raw m reply scratch scratch_m scratch_size mem
          ≡ some mem')
        × (mem' (buffer (some scratch)) (index scratch_m scratch_size c)
            ≡ mem (buffer raw.storage) (index m raw.size c))
        × (mem' (buffer (some scratch)) a ≡ mem (buffer (some scratch)) a)
        × ((b a' : ℕ)
            → mem' b a'
              ≡ (if b == buffer (some scratch) || b == reply then mem' b a' else mem b a'))
  unfolding copy_to_scratch
  remote_copy_to_scratch_cells fuel raw m scratch_m reply scratch scratch_size mem c a l f e u k h d
        d' i out =
      let s = buffer (some scratch) in
      let (mem1, asked, (got, _, same)) =
        process_copy_to_cells fuel raw m reply mem c (product m.size) l h d i (omega arith) in
      let (mem2, unpacked, (put, rest, kept)) =
        unpack_cells fuel reply scratch scratch_m scratch_size m.size mem1 c a f e u k h d' i out in
      (
        mem2,
        ap
              (λ o.
                and_then o
                  (λ (n, mem'). unpack fuel n reply m.size scratch scratch_m scratch_size mem'))
              asked
            ∙ unpacked,
        put ∙ got,
        rest ∙ apart s reply _ _ (same s a) (λ q. d' (sym q)),
        λ b a'. unless_both b (buffer (some scratch)) reply _ (mem b a') (λ other other'.
            apart b (buffer (some scratch)) _ _ (kept b a') other
            ∙ apart b reply _ _ (same b a') other'),
      )

  pack_cells :
      (fuel : ℕ) (message : ℕ) (scratch : Storage) (scratch_m : Metadata) (scratch_size : List ℕ)
      (size : List ℕ) (mem : Memory E) (c : List ℕ)
      → Fits scratch_m scratch_size
      → scratch_m.size ≡ size
      → scratch_m.slices ≡ []
      → scratch.count ≡ product scratch_size
      → product size ≤ fuel
      → buffer (some scratch) ≢ message
      → InBounds size c
      → (mem' : Memory E) × (pack fuel
            (product size)
            message
            size
            scratch
            scratch_m
            scratch_size
            mem
          ≡ some mem')
        × IsCopied mem mem'
            (buffer (some scratch))
            (index scratch_m scratch_size c)
            message
            (rank size c)
            (product size)
  unfolding pack
  pack_cells fuel message scratch scratch_m scratch_size size mem c f e u k h d i =
      elim (Bool-cases (product size == scratch.count)) [
        | inl q ↦
            let total : product scratch_m.size ≡ product scratch_size =
              ap product e ∙ (==_iff (product size) scratch.count).0 q ∙ k in
            let inside : InBounds scratch_m.size c = subst (λ ss. InBounds ss c) (sym e) i in
            let place : index scratch_m scratch_size c ≡ rank size c =
              index-whole scratch_m scratch_size c f inside total ∙ ap (λ ss. rank ss c) e in
            let mem' = copy_elements (product size) (buffer (some scratch)) message mem in
            (
              mem',
              rw q refl,
              subst
                  (λ x.
                    IsCopied mem mem' (buffer (some scratch)) x message (rank size c)
                      (product size))
                  (sym place)
                  (copy_elements_cells (product size) (buffer (some scratch)) message mem
                    (rank size c) (product size) (rank-lt size c i) (omega arith)),
            )
        | inr q ↦
            let (mem', loop, copied) =
              collected_cells fuel size (buffer (some scratch)) message
                (index scratch_m scratch_size) mem c (product size) h d i (omega arith) in
            (
              mem',
              rw
                  (
                    q,
                    scratch_multipliers-Fits scratch_m scratch_size size f e u
                        (has_dimensions scratch_m scratch_size size scratch.count f e u k q),
                  )
                  (ap memory_of loop),
              copied,
            )
      ]

  -- `copyFromScratchMatrixStorage` of data that another process has: the message, filled from the
  -- scratch storage at once or cell by cell, makes that process write what the same copy would write
  -- where the data is. It ends, with a round of fuel for each cell; each cell of the part is that of
  -- the scratch part; the rest of the data, and every buffer but the data and the message, have not
  -- changed. Both parts fit, the scratch part has no slices, its storage has a place for each cell of its
  -- sizes, and the three buffers are different.
  pub remote_copy_from_scratch_cells :
      (fuel : ℕ) (raw : Raw) (m scratch_m : Metadata) (message : ℕ) (scratch : Storage)
      (scratch_size : List ℕ) (mem : Memory E) (c : List ℕ) (a : ℕ)
      → IsLaidOut raw
      → Fits m raw.size
      → Fits scratch_m scratch_size
      → scratch_m.size ≡ m.size
      → scratch_m.slices ≡ []
      → scratch.count ≡ product scratch_size
      → product m.size ≤ fuel
      → buffer (some scratch) ≢ message
      → message ≢ buffer raw.storage
      → InBounds m.size c
      → IsOutside m raw.size a
      → (mem' : Memory E) × (copy_from_scratch fuel raw m message scratch scratch_m scratch_size mem
          ≡ some mem')
        × (mem' (buffer raw.storage) (index m raw.size c)
            ≡ mem (buffer (some scratch)) (index scratch_m scratch_size c))
        × (mem' (buffer raw.storage) a ≡ mem (buffer raw.storage) a)
        × ((b a' : ℕ)
            → mem' b a' ≡ (if b == message || b == buffer raw.storage then mem' b a' else mem b a'))
  unfolding copy_from_scratch
  remote_copy_from_scratch_cells fuel raw m scratch_m message scratch scratch_size mem c a l f f' e
        u k h d d' i out =
      let (mem1, packed, (got, _, same)) =
        pack_cells fuel message scratch scratch_m scratch_size m.size mem c f' e u k h d i in
      let (mem2, sent, (put, rest, kept)) =
        process_copy_from_cells fuel raw m message mem1 c a l f h d' i out in
      (
        mem2,
        ap (λ o. and_then o (process_copy_from fuel raw m message)) packed ∙ sent,
        put ∙ got,
        rest
            ∙ apart (buffer raw.storage) message _ _ (same (buffer raw.storage) a)
                (λ q. d' (sym q)),
        λ b a'. unless_both b message (buffer raw.storage) _ (mem b a') (λ other other'.
            apart b (buffer raw.storage) _ _ (kept b a') other'
            ∙ apart b message _ _ (same b a') other),
      )
