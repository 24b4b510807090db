-- ===== src/RegionData/Cache.antt =====
-- runtime/regiondataremotecache.cpp: the cache of the cells of remote data, in lines, of which there is
-- one for each place in a page; with the messages `processReadCellCacheMsg` of
-- runtime/regiondataraw.cpp, `readByCache` and `writeByCache` of runtime/regiondataremote.cpp that it
-- sends. No other process writes the data in the meantime.
pub mod Places
pub mod Coherent
pub mod Writes
pub mod Runs
use petabricks.Base.{
  ℕ, ◌+◌, ◌-◌, ◌*◌, ◌%◌, Bool, true, false, ◌&&◌, Option, none, some, List, [], ◌∷◌, ltb, leb, ◌==◌,
  if◌then◌else◌,
}
use petabricks.Matrix.Layout.{dot}

-- The storage of the other process.
pub record Remote (E : Type 0) : Type 0 where
  pub count : ℕ
  pub cells : ℕ → E

-- `RegionDataRemoteCacheLine`
pub record Line (E : Type 0) : Type 0 where
  pub is_valid : Bool
  pub offset : ℕ
  pub start : ℕ
  pub last : ℕ
  pub base : ℕ → E

-- `RegionDataRemoteCache`; the lines are a map.
pub record Cache (E : Type 0) : Type 0 where
  pub multipliers : List ℕ
  pub line_size : ℕ
  pub num_lines : ℕ
  pub lines : ℕ → Option (Line E)

-- `ReadCellCacheReplyMessage`: the last index is its field `end`.
pub record Reply (E : Type 0) : Type 0 where
  pub start : ℕ
  pub last : ℕ
  pub values : ℕ → E

abbrev page_size : ℕ → ℕ → ℕ
page_size line num = line * num

-- The place of an offset: in its page, the page's start, in the line, and the line's key.
abbrev pub page_offset : ℕ → ℕ → ℕ → ℕ
page_offset line num o = o % page_size line num

abbrev pub page_start : ℕ → ℕ → ℕ → ℕ
page_start line num o = o - page_offset line num o

abbrev pub element_offset : ℕ → ℕ → ℕ → ℕ
element_offset line num o = page_offset line num o % line

abbrev pub key_of : ℕ → ℕ → ℕ → ℕ
key_of line num o = page_offset line num o - element_offset line num o

module _ {E : Type 0} where
  -- `processReadCellCacheMsg` of an offset inside the storage.
  unfoldable process_read_cell_cache : Remote E → ℕ → ℕ → Reply E
  process_read_cell_cache remote line o =
      let start_offset = o - o % line in
      let left = remote.count - start_offset in
      let num_values = if ltb line left then line else left in
      record { start = 0; last = num_values - 1; values = λ i. remote.cells (start_offset + i) }

  -- `readByCache`
  unfoldable pub read_by_cache : Remote E → ℕ → ℕ → Line E → Line E
  unfolding process_read_cell_cache
  read_by_cache remote line o cache_line =
      let r = process_read_cell_cache remote line o in
      record cache_line {
        start = r.start;
        last = r.last;
        base = λ i. if ltb i (r.last + 1) then r.values i else cache_line.base i;
      }

  -- `writeByCache`, which the other process answers by writing the cell.
  unfoldable pub write_by_cache : Remote E → ℕ → E → Remote E
  write_by_cache remote o v = record remote { cells = λ a. if a == o then v else remote.cells a }

  -- A new line is not valid; the rest of it is not read. `fresh` is what is in new memory.
  abbrev pub new_line : (ℕ → E) → Line E
  new_line fresh = record { is_valid = false; offset = 0; start = 0; last = 0; base = fresh }

  abbrev pub line_or : Option (Line E) → Line E → Line E
  line_or none new = new
  line_or (some line) new = line

  -- `getCacheLine`; the line that it adds is put back by those that call it.
  unfoldable pub get_cache_line : Cache E → (ℕ → E) → ℕ → Line E
  get_cache_line cache fresh key = line_or (cache.lines key) (new_line fresh)

  -- The line is changed where it is.
  abbrev pub put_line : Cache E → ℕ → Line E → Cache E
  put_line cache key line = record cache {
    lines = λ k. if k == key then some line else cache.lines k;
  }

  abbrev pub is_hit : Line E → ℕ → ℕ → Bool
  is_hit line offset element =
      line.is_valid && (line.offset == offset && (leb line.start element && leb element line.last))

  -- `offset`
  unfoldable pub offset : Cache E → List ℕ → ℕ
  unfolding dot
  offset cache c = dot cache.multipliers c

  -- `readCell`
  unfoldable pub read_cell : (ℕ → E) → Remote E → Cache E → List ℕ → E × Cache E
  unfolding offset get_cache_line read_by_cache
  read_cell fresh remote cache c =
      let o = offset cache c in
      let page = page_start cache.line_size cache.num_lines o in
      let element = element_offset cache.line_size cache.num_lines o in
      let key = key_of cache.line_size cache.num_lines o in
      let line = get_cache_line cache fresh key in
      let got = record (read_by_cache remote cache.line_size o line) {
        is_valid = true;
        offset = page;
      } in
      if is_hit line page element
      then (line.base element, put_line cache key line)
      else (got.base element, put_line cache key got)

  -- `writeCell`
  unfoldable pub write_cell : (ℕ → E) → Remote E → Cache E → List ℕ → E → Remote E × Cache E
  unfolding offset get_cache_line write_by_cache
  write_cell fresh remote cache c v =
      let o = offset cache c in
      let page = page_start cache.line_size cache.num_lines o in
      let element = element_offset cache.line_size cache.num_lines o in
      let key = key_of cache.line_size cache.num_lines o in
      let line = get_cache_line cache fresh key in
      let changed = record line { base = λ i. if i == element then v else line.base i } in
      let line' = if is_hit line page element then changed else line in
      (write_by_cache remote o v, put_line cache key line')

  -- `invalidate`
  unfoldable pub invalidate : Cache E → Cache E
  invalidate cache = record cache { lines = λ k. none }

-- The constructors; the second has the default sizes.
unfoldable pub of_size : {E : Type 0} → List ℕ → ℕ → ℕ → Cache E
of_size multipliers line num = record {
  multipliers = multipliers;
  line_size = line;
  num_lines = num;
  lines = λ k. none;
}

unfoldable of_default : {E : Type 0} → List ℕ → Cache E
unfolding of_size
of_default multipliers = of_size multipliers 16 16
