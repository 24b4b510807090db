-- ===== src/RegionData/Cache/Places.antt =====
-- An offset is the start of its page, the key of its line and its place in the line.
use native.Mathlib.Nat.{mul-add-mod_self_left, mod-eq_of_lt, mod-lt, div-add-mod}
use petabricks.Base.{ℕ, ◌+◌, ◌-◌, ◌*◌, ◌/◌, ◌%◌, ◌<◌, ◌≡◌, refl, subst, ◌∙◌, arith}
use petabricks.RegionData.Cache.{page_offset, page_start, element_offset, key_of}

-- The offset of element `e` of line `b` of page `a`.
at_place : ℕ → ℕ → ℕ → ℕ → ℕ → ℕ
at_place line num a b e = line * num * a + (line * b + e)

line_lt : (line num b e : ℕ) → e < line → b < num → line * b + e < line * num
line_lt line num b e h k = grind arith

-- The parts of an offset.
abbrev pub Parts : ℕ → ℕ → ℕ → ℕ → ℕ → ℕ → Type 0
Parts line num o page key e =
    (page_start line num o ≡ page) × (key_of line num o ≡ key) × (element_offset line num o ≡ e)

Parts-at_place :
    (line num a b e : ℕ)
    → e < line
    → b < num
    → Parts line num (at_place line num a b e) (line * num * a) (line * b) e
unfolding at_place
Parts-at_place line num a b e h k =
    let o = at_place line num a b e in
    let p : page_offset line num o ≡ line * b + e =
      mul-add-mod_self_left (line * num) a (line * b + e)
      ∙ mod-eq_of_lt (line_lt line num b e h k) in
    let q : (line * b + e) % line ≡ e = mul-add-mod_self_left line b e ∙ mod-eq_of_lt h in
    (rw p (omega arith), rw (p, q) (omega arith), rw (p, q) refl)

at_place-parts :
    (line num o : ℕ) → at_place line num (o / line / num) (o / line % num) (o % line) ≡ o
unfolding at_place
at_place-parts line num o =
    let p = div-add-mod o line in
    let q = div-add-mod (o / line) num in
    let r : line * (o / line) ≡ line * num * (o / line / num) + line * (o / line % num) =
      grind arith in
    omega arith

-- The start of the line is where the other process starts its reply, and each cell of the line has its
-- page and its key.
pub line_places :
    (line num o : ℕ)
    → 0 < line
    → 0 < num
    → (page_start line num o + key_of line num o + element_offset line num o ≡ o)
      × (o - o % line ≡ page_start line num o + key_of line num o)
      × (element_offset line num o < line)
unfolding at_place
line_places line num o h k =
    let a = o / line / num in
    let b = o / line % num in
    let (p, q, r) =
      subst (λ x. Parts line num x (line * num * a) (line * b) (o % line))
        (at_place-parts line num o)
        (Parts-at_place line num a b (o % line) (mod-lt o h) (mod-lt (o / line) k)) in
    let s : line * num * a + (line * b + o % line) ≡ o = at_place-parts line num o in
    let t = mod-lt o h in (rw (p, q, r) (omega arith), rw (p, q) (omega arith), rw r t)

pub same_line :
    (line num o i : ℕ)
    → 0 < line
    → 0 < num
    → i < line
    → Parts line num
        (page_start line num o + key_of line num o + i)
        (page_start line num o)
        (key_of line num o)
        i
unfolding at_place
same_line line num o i h k p =
    let a = o / line / num in
    let b = o / line % num in
    let (q, r, s) =
      subst (λ x. Parts line num x (line * num * a) (line * b) (o % line))
        (at_place-parts line num o)
        (Parts-at_place line num a b (o % line) (mod-lt o h) (mod-lt (o / line) k)) in
    let t : at_place line num a b i ≡ line * num * a + line * b + i = omega arith in
    rw (q, r)
      (subst (λ x. Parts line num x (line * num * a) (line * b) i) t
        (Parts-at_place line num a b i p (mod-lt (o / line) k)))
