-- ===== src/RegionData/Cache/Coherent.antt =====
-- What is in the cache is what the other process has, after each operation.
use petabricks.Base.{
  ℕ, ◌+◌, ◌-◌, ◌%◌, ◌<◌, ◌≡◌, refl, sym, ap, subst, ◌∙◌, Bool, true, false, false≢true, ◌&&◌,
  Option, none, some, inl, inr, Bool-cases, leb, ltb, ◌==◌, ==_iff, if◌then◌else◌, arith,
}
use mathlib.Core.List.{List}
use petabricks.RegionData.Cache.{
  Remote, Line, Cache, page_start, key_of, element_offset, read_by_cache, new_line, line_or,
  get_cache_line, put_line, is_hit, offset, read_cell,
}
use petabricks.RegionData.Cache.Places.{Parts, line_places, same_line}

pub hit_split : (v a b : Bool) → v && (a && b) ≡ true → (a ≡ true) × (v && b ≡ true)
hit_split false a b h = absurd (false≢true h)
hit_split true false b h = absurd (false≢true h)
hit_split true true b h = (refl, h)

-- The number of values in a reply.
values_lt :
    (size left i : ℕ)
    → 0 < size
    → 0 < left
    → leb i ((if ltb size left then size else left) - 1) ≡ true
    → i < size
values_lt size left i h k p = ground arith

lt-values :
    (size left i : ℕ)
    → i < size
    → i < left
    → ltb i ((if ltb size left then size else left) - 1 + 1) ≡ true
lt-values size left i h k = ground arith

values_end : (n i : ℕ) → leb i n ≡ true → ltb i (n + 1) ≡ true
values_end n i h = ground arith

zero_leb : (i : ℕ) → leb 0 i ≡ true
zero_leb i = ground arith

module _ {E : Type 0} where
  -- The line has a cell at this place.
  abbrev pub covers : Line E → ℕ → Bool
  covers line i = line.is_valid && (leb line.start i && leb i line.last)

module _ {E : Type 0} (size num : ℕ) where
  -- The cells of a line are those of the data.
  abbrev pub IsFresh : (ℕ → E) → ℕ → Line E → Type 0
  IsFresh cells key line =
      (i : ℕ)
      → if covers line i
        then (line.base i ≡ cells (line.offset + key + i))
          × Parts size num (line.offset + key + i) line.offset key i
        else Unit {0}

  abbrev pub IsFreshAt : (ℕ → E) → ℕ → Option (Line E) → Type 0
  IsFreshAt cells key none = Unit {0}
  IsFreshAt cells key (some line) = IsFresh cells key line

  abbrev pub IsCoherent : Remote E → Cache E → Type 0
  IsCoherent remote cache = (key : ℕ) → IsFreshAt remote.cells key (cache.lines key)

  pub get_cache_line-IsFresh :
      (remote : Remote E) (cache : Cache E) (fresh : ℕ → E) (key : ℕ)
      → IsCoherent remote cache
      → IsFresh remote.cells key (get_cache_line cache fresh key)
  unfolding get_cache_line
  get_cache_line-IsFresh remote cache fresh key h = go (cache.lines key) (h key)
    where
      go :
          (line : Option (Line E))
          → IsFreshAt remote.cells key line
          → IsFresh remote.cells key (line_or line (new_line fresh))
      go none k = λ i. tt
      go (some line) k = k

  put_line-IsCoherent :
      (remote : Remote E) (cache : Cache E) (key : ℕ) (line : Line E)
      → IsCoherent remote cache
      → IsFresh remote.cells key line
      → IsCoherent remote (put_line cache key line)
  put_line-IsCoherent remote cache key line h k key' = elim (Bool-cases (key' == key)) [
    | inl e ↦ rw e (subst (λ x. IsFresh remote.cells x line) (sym ((==_iff key' key).0 e)) k)
    | inr e ↦ rw e (h key')
  ]

  -- A hit reads the cell of the data.
  hit_read :
      (remote : Remote E) (line : Line E) (o : ℕ)
      → 0 < size
      → 0 < num
      → IsFresh remote.cells (key_of size num o) line
      → is_hit line (page_start size num o) (element_offset size num o) ≡ true
      → line.base (element_offset size num o) ≡ remote.cells o
  hit_read remote line o p q h hit =
      let page = page_start size num o in
      let e = element_offset size num o in
      let key = key_of size num o in
      let (at_page, there) =
        hit_split line.is_valid (line.offset == page) (leb line.start e && leb e line.last) hit in
      let (same, _) = rw there at (h e) in
      let (whole, _, _) = line_places size num o p q in
      let place : line.offset + key + e ≡ o =
        ap (λ x. x + key + e) ((==_iff line.offset page).0 at_page) ∙ whole in
      same ∙ ap remote.cells place

  -- A line that was just read.
  fetched : Remote E → ℕ → Line E → Line E
  fetched remote o line = record (read_by_cache remote size o line) {
    is_valid = true;
    offset = page_start size num o;
  }

  fetched-IsFresh :
      (remote : Remote E) (line : Line E) (o : ℕ)
      → 0 < size
      → 0 < num
      → o < remote.count
      → IsFresh remote.cells (key_of size num o) (fetched remote o line)
  unfolding fetched read_by_cache
  fetched-IsFresh remote line o p q b i =
      let left = remote.count - (o - o % size) in
      let last = (if ltb size left then size else left) - 1 in
      let (whole, begin, _) = line_places size num o p q in
      elim (Bool-cases (leb i last)) [
        | inl k ↦
            rw (zero_leb i, k, values_end last i k)
              (
                ap (λ x. remote.cells (x + i)) begin,
                same_line size num o i p q (values_lt size left i p (omega arith) k),
              )
        | inr k ↦ rw (zero_leb i, k) tt
      ]

  fetched_read :
      (remote : Remote E) (line : Line E) (o : ℕ)
      → 0 < size
      → 0 < num
      → o < remote.count
      → (fetched remote o line).base (element_offset size num o) ≡ remote.cells o
  unfolding fetched read_by_cache
  fetched_read remote line o p q b =
      let (whole, begin, inside) = line_places size num o p q in
      let e = element_offset size num o in
      let left : e < remote.count - (o - o % size) = omega (arith, whole, begin) in
      rw (lt-values size (remote.count - (o - o % size)) e inside left)
        (ap remote.cells (ap (λ x. x + e) begin ∙ whole))

  -- What `readCell` returns is the cell of the data, and the cache stays right.
  pub read_cell-IsCoherent :
      (fresh : ℕ → E) (remote : Remote E) (cache : Cache E) (c : List ℕ)
      → 0 < size
      → 0 < num
      → cache.line_size ≡ size
      → cache.num_lines ≡ num
      → offset cache c < remote.count
      → IsCoherent remote cache
      → let (v, cache') = read_cell fresh remote cache c in
        (v ≡ remote.cells (offset cache c)) × IsCoherent remote cache'
  unfolding read_cell fetched
  read_cell-IsCoherent fresh remote cache c p q es en b h =
      let o = offset cache c in
      let page = page_start size num o in
      let e = element_offset size num o in
      let key = key_of size num o in
      let line = get_cache_line cache fresh key in
      let line_ok = get_cache_line-IsFresh remote cache fresh key h in
      elim (Bool-cases (is_hit line page e)) [
        | inl hit ↦
            rw (es, en, hit)
              (
                hit_read remote line o p q line_ok hit,
                put_line-IsCoherent remote cache key line h line_ok,
              )
        | inr miss ↦
            rw (es, en, miss)
              (
                fetched_read remote line o p q b,
                put_line-IsCoherent remote cache key (fetched remote o line) h
                    (fetched-IsFresh remote line o p q b),
              )
      ]
