-- ===== src/RegionData/Cache/Runs.antt =====
-- The cache is not seen: a program that reads and writes through it does what it would do without it.
use petabricks.Base.{
  ℕ, ◌<◌, ◌≡◌, refl, ap, ◌∙◌, Bool, true, false, List, [], ◌∷◌, if◌then◌else◌, All,
}
use petabricks.Matrix.Layout.{dot}
use petabricks.RegionData.Cache.{
  Remote, Cache, write_by_cache, offset, read_cell, write_cell, invalidate, of_size,
}
use petabricks.RegionData.Cache.Coherent.{IsCoherent, read_cell-IsCoherent}
use petabricks.RegionData.Cache.Writes.{write_cell-IsCoherent}

-- What is done with the data.
pub data Access (E : Type 0) : Type 0 where
  read : List ℕ → Access E
  write : List ℕ → E → Access E
  forget : Access E

module _ {E : Type 0} where
  -- Through the cache: what is read, and the data at the end.
  unfoldable pub run_cached : (ℕ → E) → Remote E → Cache E → List (Access E) → List E × Remote E
  unfolding read_cell write_cell invalidate
  run_cached fresh remote cache [] = ([], remote)
  run_cached fresh remote cache (read c ∷ accesses) =
      let (v, cache') = read_cell fresh remote cache c in
      let (vs, end) = run_cached fresh remote cache' accesses in (v ∷ vs, end)
  run_cached fresh remote cache (write c v ∷ accesses) =
      let (remote', cache') = write_cell fresh remote cache c v in
      run_cached fresh remote' cache' accesses
  run_cached fresh remote cache (forget ∷ accesses) =
      run_cached fresh remote (invalidate cache) accesses

  -- The data itself.
  unfoldable pub run_direct : List ℕ → Remote E → List (Access E) → List E × Remote E
  unfolding write_by_cache
  run_direct multipliers remote [] = ([], remote)
  run_direct multipliers remote (read c ∷ accesses) =
      let (vs, end) = run_direct multipliers remote accesses in
      (remote.cells (dot multipliers c) ∷ vs, end)
  run_direct multipliers remote (write c v ∷ accesses) =
      run_direct multipliers (write_by_cache remote (dot multipliers c) v) accesses
  run_direct multipliers remote (forget ∷ accesses) = run_direct multipliers remote accesses

  -- What is read is inside the data.
  abbrev pub IsInside : List ℕ → ℕ → Access E → Type 0
  IsInside multipliers count (read c) = dot multipliers c < count
  IsInside multipliers count (write c v) = dot multipliers c < count
  IsInside multipliers count forget = Unit {0}

  abbrev HasSizes : List ℕ → ℕ → ℕ → Cache E → Type 0
  HasSizes multipliers size num cache =
      (cache.multipliers ≡ multipliers) × (cache.line_size ≡ size) × (cache.num_lines ≡ num)

  if_sizes :
      (b : Bool) (multipliers : List ℕ) (size num : ℕ) (x y : E × Cache E)
      → HasSizes multipliers size num x.1
      → HasSizes multipliers size num y.1
      → HasSizes multipliers size num (if b then x else y).1
  if_sizes true multipliers size num x y h k = h
  if_sizes false multipliers size num x y h k = k

  read_cell-HasSizes :
      (fresh : ℕ → E) (remote : Remote E) (cache : Cache E) (c : List ℕ) (multipliers : List ℕ)
      (size num : ℕ)
      → HasSizes multipliers size num cache
      → HasSizes multipliers size num (read_cell fresh remote cache c).1
  unfolding read_cell
  read_cell-HasSizes fresh remote cache c multipliers size num h =
      if_sizes _ multipliers size num _ _ h h

  write_cell-HasSizes :
      (fresh : ℕ → E) (remote : Remote E) (cache : Cache E) (c : List ℕ) (v : E)
      (multipliers : List ℕ) (size num : ℕ)
      → HasSizes multipliers size num cache
      → HasSizes multipliers size num (write_cell fresh remote cache c v).1
  unfolding write_cell
  write_cell-HasSizes fresh remote cache c v multipliers size num h = h

  run_from :
      (fresh : ℕ → E) (remote : Remote E) (cache : Cache E) (accesses : List (Access E))
      (multipliers : List ℕ) (size num : ℕ)
      → 0 < size
      → 0 < num
      → HasSizes multipliers size num cache
      → IsCoherent size num remote cache
      → All (IsInside multipliers remote.count) accesses
      → run_cached fresh remote cache accesses ≡ run_direct multipliers remote accesses
  unfolding run_cached run_direct invalidate offset write_by_cache
  run_from fresh remote cache [] multipliers size num p q s h i = refl
  run_from fresh remote cache (read c ∷ accesses) multipliers size num p q s h i =
      let here : offset cache c ≡ dot multipliers c = ap (λ ms. dot ms c) s.0 in
      let (got, h') =
        read_cell-IsCoherent size num fresh remote cache c p q s.1 s.2 (rw here i.0) h in
      let s' = read_cell-HasSizes fresh remote cache c multipliers size num s in
      let rest =
        run_from fresh remote (read_cell fresh remote cache c).1 accesses multipliers size num p q
          s' h' i.1 in
      let out = run_direct multipliers remote accesses in
      ap (λ (r : List E × Remote E). ((read_cell fresh remote cache c).0 ∷ r.0, r.1)) rest
      ∙ ap (λ v. (v ∷ out.0, out.1)) (got ∙ ap remote.cells here)
  run_from fresh remote cache (write c v ∷ accesses) multipliers size num p q s h i =
      let here : offset cache c ≡ dot multipliers c = ap (λ ms. dot ms c) s.0 in
      let (same, h') = write_cell-IsCoherent size num fresh remote cache c v p q s.1 s.2 h in
      let s' = write_cell-HasSizes fresh remote cache c v multipliers size num s in
      let (remote', cache') = write_cell fresh remote cache c v in
      run_from fresh remote' cache' accesses multipliers size num p q s' h' i.1
      ∙ ap (λ r. run_direct multipliers r accesses)
          (same ∙ ap (λ o. write_by_cache remote o v) here)
  run_from fresh remote cache (forget ∷ accesses) multipliers size num p q s h i =
      run_from fresh remote (invalidate cache) accesses multipliers size num p q s (λ k. tt) i.1

  -- A program of reads, writes and invalidations, run through a new cache of lines of any size and
  -- number, reads the values that it would read from the data itself, and leaves the data as it would.
  -- Its reads and writes are inside the data, and no other process writes.
  pub run_cached-direct :
      (fresh : ℕ → E) (remote : Remote E) (accesses : List (Access E)) (multipliers : List ℕ)
      (size num : ℕ)
      → 0 < size
      → 0 < num
      → All (IsInside multipliers remote.count) accesses
      → run_cached fresh remote (of_size multipliers size num) accesses
        ≡ run_direct multipliers remote accesses
  unfolding of_size
  run_cached-direct fresh remote accesses multipliers size num p q i =
      run_from fresh remote (of_size multipliers size num) accesses multipliers size num p q
        (refl, refl, refl) (λ k. tt) i
