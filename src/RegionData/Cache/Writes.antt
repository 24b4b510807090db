-- ===== src/RegionData/Cache/Writes.antt =====
-- A write through the cache.
use petabricks.Base.{
  ℕ, ◌+◌, ◌<◌, ◌≡◌, ◌≢◌, refl, sym, ap, subst, ◌∙◌, Bool, true, false, false≢true, ◌&&◌, Option,
  none, some, List, inl, inr, Bool-cases, leb, ◌==◌, ==_iff, if◌then◌else◌, arith,
}
use petabricks.RegionData.Cache.{
  Remote, Line, Cache, page_start, key_of, element_offset, write_by_cache, get_cache_line, put_line,
  is_hit, offset, write_cell,
}
use petabricks.RegionData.Cache.Places.{Parts, line_places}
use petabricks.RegionData.Cache.Coherent.{
  covers, IsFresh, IsFreshAt, IsCoherent, get_cache_line-IsFresh, hit_split,
}

==-false : (a b : ℕ) → a ≢ b → (a == b) ≡ false
==-false a b h = ground arith

hit_join : (v a b : Bool) → a ≡ true → v && b ≡ true → v && (a && b) ≡ true
hit_join true a b h k = rw h k
hit_join false a b h k = k

module _ {E : Type 0} (size num : ℕ) where
  -- The data after a write at `o`.
  abbrev written : (ℕ → E) → ℕ → E → ℕ → E
  written cells o v a = if a == o then v else cells a

  -- A line without the cell that is written.
  IsFresh-other :
      (cells : ℕ → E) (key o : ℕ) (v : E) (line : Line E)
      → ((i : ℕ) → covers line i ≡ true → line.offset + key + i ≢ o)
      → IsFresh size num cells key line
      → IsFresh size num (written cells o v) key line
  IsFresh-other cells key o v line ne h i = elim (Bool-cases (covers line i)) [
    | inl q ↦
        let (same, parts) = rw q at (h i) in
        rw q (same ∙ sym (rw (==-false (line.offset + key + i) o (ne i q)) refl), parts)
    | inr q ↦ rw q tt
  ]

  IsFresh-hit :
      (cells : ℕ → E) (o : ℕ) (v : E) (line : Line E)
      → 0 < size
      → 0 < num
      → is_hit line (page_start size num o) (element_offset size num o) ≡ true
      → IsFresh size num cells (key_of size num o) line
      → IsFresh size num
          (written cells o v)
          (key_of size num o)
          (record line { base = λ i. if i == element_offset size num o then v else line.base i })
  IsFresh-hit cells o v line p q hit h i =
      let page = page_start size num o in
      let e = element_offset size num o in
      let key = key_of size num o in
      let (whole, _, _) = line_places size num o p q in
      let (at_page, there) =
        hit_split line.is_valid (line.offset == page) (leb line.start e && leb e line.last) hit in
      let place : line.offset + key + e ≡ o =
        ap (λ x. x + key + e) ((==_iff line.offset page).0 at_page) ∙ whole in
      elim (Bool-cases (covers line i)) [
        | inr k ↦ rw k tt
        | inl k ↦
            let (same, parts) = rw k at (h i) in
            elim (Bool-cases (i == e)) [
              | inl s ↦
                  let ie = (==_iff i e).0 s in
                  rw (k, s)
                    (
                      sym (
                          rw
                            ((==_iff (line.offset + key + i) o).1
                              (ap (λ x. line.offset + key + x) ie ∙ place))
                            refl),
                      parts,
                    )
              | inr s ↦
                  let ne : line.offset + key + i ≢ o = λ r.
                    let ie : i ≡ e = omega (arith, r, place) in
                    false≢true (sym s ∙ (==_iff i e).1 ie) in
                  rw (k, s) (same ∙ sym (rw (==-false (line.offset + key + i) o ne) refl), parts)
            ]
      ]

  IsFresh-miss :
      (cells : ℕ → E) (o : ℕ) (v : E) (line : Line E)
      → is_hit line (page_start size num o) (element_offset size num o) ≡ false
      → IsFresh size num cells (key_of size num o) line
      → IsFresh size num (written cells o v) (key_of size num o) line
  IsFresh-miss cells o v line miss h = IsFresh-other cells (key_of size num o) o v line outside h
    where
      outside : (i : ℕ) → covers line i ≡ true → line.offset + key_of size num o + i ≢ o
      outside i k r =
          let (_, parts) = rw k at (h i) in
          let (at_page, _, at_element) =
            subst (λ x. Parts size num x line.offset (key_of size num o) i) r parts in
          let hit =
            hit_join line.is_valid (line.offset == page_start size num o)
              (leb line.start (element_offset size num o)
                && leb (element_offset size num o) line.last)
              ((==_iff line.offset (page_start size num o)).1 (sym at_page))
              (subst (λ x. line.is_valid && (leb line.start x && leb x line.last) ≡ true)
                (sym at_element) k) in
          false≢true (sym miss ∙ hit)

  -- The lines of other keys.
  IsFreshAt-other :
      (cells : ℕ → E) (key o : ℕ) (v : E) (line : Option (Line E))
      → key ≢ key_of size num o
      → IsFreshAt size num cells key line
      → IsFreshAt size num (written cells o v) key line
  IsFreshAt-other cells key o v none ne h = tt
  IsFreshAt-other cells key o v (some line) ne h = IsFresh-other cells key o v line outside h
    where
      outside : (i : ℕ) → covers line i ≡ true → line.offset + key + i ≢ o
      outside i k r =
          let (_, parts) = rw k at (h i) in
          let (_, at_key, _) = subst (λ x. Parts size num x line.offset key i) r parts in
          ne (sym at_key)

  IsCoherent-write :
      (remote : Remote E) (cache : Cache E) (o : ℕ) (v : E) (line : Line E)
      → IsCoherent size num remote cache
      → IsFresh size num (written remote.cells o v) (key_of size num o) line
      → IsCoherent size num (write_by_cache remote o v) (put_line cache (key_of size num o) line)
  unfolding write_by_cache
  IsCoherent-write remote cache o v line h k key = elim (Bool-cases (key == key_of size num o)) [
    | inl e ↦ rw e (
        subst (λ x. IsFresh size num (written remote.cells o v) x line)
          (sym ((==_iff key (key_of size num o)).0 e)) k)
    | inr e ↦ rw e (
        IsFreshAt-other remote.cells key o v (cache.lines key)
          (λ q. false≢true (sym e ∙ (==_iff key (key_of size num o)).1 q)) (h key))
  ]

  -- `writeCell` writes the cell of the data, and the cache stays right.
  pub write_cell-IsCoherent :
      (fresh : ℕ → E) (remote : Remote E) (cache : Cache E) (c : List ℕ) (v : E)
      → 0 < size
      → 0 < num
      → cache.line_size ≡ size
      → cache.num_lines ≡ num
      → IsCoherent size num remote cache
      → let (remote', cache') = write_cell fresh remote cache c v in
        (remote' ≡ write_by_cache remote (offset cache c) v) × IsCoherent size num remote' cache'
  unfolding write_cell
  write_cell-IsCoherent fresh remote cache c v p q es en h =
      let o = offset cache c in
      let page = page_start size num o in
      let e = element_offset size num o in
      let key = key_of size num o in
      let line = get_cache_line cache fresh key in
      let line_ok = get_cache_line-IsFresh size num remote cache fresh key h in
      elim (Bool-cases (is_hit line page e)) [
        | inl hit ↦
            rw (es, en, hit)
              (
                refl,
                IsCoherent-write remote cache o v _ h
                    (IsFresh-hit remote.cells o v line p q hit line_ok),
              )
        | inr miss ↦
            rw (es, en, miss)
              (
                refl,
                IsCoherent-write remote cache o v line h
                    (IsFresh-miss remote.cells o v line miss line_ok),
              )
      ]
