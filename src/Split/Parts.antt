-- ===== src/Split/Parts.antt =====
-- The parts of a split matrix: each cell lies in one part, at one place there, and each place of
-- each part is a cell.
use native.Mathlib.Nat.{div-add-mod}
use petabricks.Base.{
  ℕ, ◌+◌, ◌-◌, ◌*◌, ◌/◌, ◌%◌, ◌<◌, ◌≡◌, refl, sym, ap, ◌∙◌, List, [], ◌∷◌, arith, ltb,
  if◌then◌else◌, ◌==◌,
}
use petabricks.Split.{
  init, parts_size_of, multipliers_from, parts_coord, part_offset, part_sizes, sizes_of_part,
  part_index, coord_in_part, coord_to_part,
}
use petabricks.Matrix.Coord.{InBounds}
use petabricks.Matrix.Coord.Bound.{add_coords}
use petabricks.Matrix.Coord.Rank.{
  rank, rank-lt, coord_at, coord_at-rank, coord_at-InBounds, rank-coord_at,
}

-- A split size for each dimension, and none of them 0.
abbrev pub IsSplit : List ℕ → List ℕ → Type 0
IsSplit [] [] = Unit {0}
IsSplit (s ∷ size) (p ∷ split) = (0 < p) × IsSplit size split
IsSplit _ _ = ⊥

-- The coordinate of the part that a cell lies in.
abbrev pub quotients : List ℕ → List ℕ → List ℕ
quotients (p ∷ split) (x ∷ c) = x / p ∷ quotients split c
quotients _ _ = []

parts_coord-eq : (ns : List ℕ) (t : ℕ) → parts_coord ns t ≡ coord_at ns t
unfolding parts_coord
parts_coord-eq [] t = refl
parts_coord-eq (n ∷ ns) t = ap (◌∷◌ (t % n)) (parts_coord-eq ns (t / n))

quotient-lt : (s p x : ℕ) → 0 < p → x < s → x / p < (if s % p == 0 then s / p else s / p + 1)
quotient-lt s p x h k = ground (arith, div-lt_of s p x h k)
  where
    div-lt_of : (s p x : ℕ) → 0 < p → x < s → (s % p ≡ 0 → x / p < s / p) × (x / p < s / p + 1)
    div-lt_of s p x h k = (λ e. grind arith, grind arith)

quotients-InBounds :
    (size split c : List ℕ)
    → IsSplit size split
    → InBounds size c
    → InBounds (parts_size_of size split) (quotients split c)
unfolding parts_size_of
quotients-InBounds [] [] [] v b = tt
quotients-InBounds [] [] (x ∷ c) v b = absurd b
quotients-InBounds [] (p ∷ split) c v b = absurd v
quotients-InBounds (s ∷ size) [] c v b = absurd v
quotients-InBounds (s ∷ size) (p ∷ split) [] v b = absurd b
quotients-InBounds (s ∷ size) (p ∷ split) (x ∷ c) v b =
    (quotient-lt s p x v.0 b.0, quotients-InBounds size split c v.1 b.1)

part_index-rank :
    (m : ℕ) (ns split c : List ℕ)
    → InBounds ns (quotients split c)
    → part_index split (multipliers_from m ns) c ≡ m * rank ns (quotients split c)
unfolding part_index multipliers_from
part_index-rank m [] [] c b = omega arith
part_index-rank m [] (p ∷ split) [] b = omega arith
part_index-rank m [] (p ∷ split) (x ∷ c) b = absurd b
part_index-rank m (n ∷ ns) [] c b = absurd b
part_index-rank m (n ∷ ns) (p ∷ split) [] b = absurd b
part_index-rank m (n ∷ ns) (p ∷ split) (x ∷ c) b =
    omega (arith, part_index-rank (m * n) ns split c b.1)

remainder-lt :
    (s p x : ℕ) → 0 < p → x < s → x % p < (if ltb s (p * (x / p) + p) then s - p * (x / p) else p)
remainder-lt s p x h k = ground arith

coord_in_part-InBounds :
    (size split c : List ℕ)
    → IsSplit size split
    → InBounds size c
    → InBounds
        (part_sizes size split (part_offset split (quotients split c)))
        (coord_in_part split c)
unfolding part_sizes part_offset coord_in_part
coord_in_part-InBounds [] [] [] v b = tt
coord_in_part-InBounds [] [] (x ∷ c) v b = absurd b
coord_in_part-InBounds [] (p ∷ split) c v b = absurd v
coord_in_part-InBounds (s ∷ size) [] c v b = absurd v
coord_in_part-InBounds (s ∷ size) (p ∷ split) [] v b = absurd b
coord_in_part-InBounds (s ∷ size) (p ∷ split) (x ∷ c) v b =
    (remainder-lt s p x v.0 b.0, coord_in_part-InBounds size split c v.1 b.1)

-- Each dimension has a split size that is not 0.
-- A cell of the matrix lies in a part that exists, inside that part's size.
coord_to_part-InBounds :
    (size split c : List ℕ)
    → IsSplit size split
    → InBounds size c
    → let s = init size split in
      let (i, d) = coord_to_part s c in (i < s.num_parts) × InBounds (sizes_of_part s i) d
unfolding coord_to_part init sizes_of_part
coord_to_part-InBounds size split c v b =
    let ns = parts_size_of size split in
    let q = quotients-InBounds size split c v b in
    let e : part_index split (multipliers_from 1 ns) c ≡ rank ns (quotients split c) =
      omega (arith, part_index-rank 1 ns split c q) in
    let k : parts_coord ns (rank ns (quotients split c)) ≡ quotients split c =
      parts_coord-eq ns _ ∙ coord_at-rank ns (quotients split c) q in
    rw e (rank-lt ns (quotients split c) q, rw k (coord_in_part-InBounds size split c v b))

-- The cell of the matrix at place `d` of part `i`.
abbrev pub global_coord : List ℕ → List ℕ → ℕ → List ℕ → List ℕ
global_coord size split i d =
    add_coords (part_offset split (parts_coord (parts_size_of size split) i)) d

local_lt :
    (s p q d : ℕ)
    → 0 < p
    → d < (if ltb s (p * q + p) then s - p * q else p)
    → (p * q + d < s) × (d < p)
local_lt s p q d h k = ground arith

global-InBounds :
    (size split q d : List ℕ)
    → IsSplit size split
    → InBounds (parts_size_of size split) q
    → InBounds (part_sizes size split (part_offset split q)) d
    → let c = add_coords (part_offset split q) d in
      InBounds size c × (quotients split c ≡ q) × (coord_in_part split c ≡ d)
unfolding part_sizes part_offset parts_size_of coord_in_part
global-InBounds [] [] [] [] v b e = (tt, refl, refl)
global-InBounds [] [] [] (x ∷ d) v b e = absurd e
global-InBounds [] [] (x ∷ q) d v b e = absurd b
global-InBounds [] (p ∷ split) q d v b e = absurd v
global-InBounds (s ∷ size) [] q d v b e = absurd v
global-InBounds (s ∷ size) (p ∷ split) [] d v b e = absurd b
global-InBounds (s ∷ size) (p ∷ split) (x ∷ q) [] v b e = absurd e
global-InBounds (s ∷ size) (p ∷ split) (x ∷ q) (y ∷ d) v b e =
    let (inside, same, place) = global-InBounds size split q d v.1 b.1 e.1 in
    let (lt, lp) = local_lt s p x y v.0 e.0 in
    let e₀ : (p * x + y) / p ≡ x = grind arith in
    let e₁ : (p * x + y) % p ≡ y = grind arith in
    ((lt, inside), rw (e₀, same) refl, rw (e₁, place) refl)

-- Each dimension has a split size that is not 0.
-- A place `d` inside the size of a part `i` that exists is a cell of the matrix, and that cell is
-- found at place `d` of part `i`.
pub coord_to_part-global :
    (size split : List ℕ) (i : ℕ) (d : List ℕ)
    → IsSplit size split
    → i < (init size split).num_parts
    → InBounds (sizes_of_part (init size split) i) d
    → InBounds size (global_coord size split i d)
      × (coord_to_part (init size split) (global_coord size split i d) ≡ (i, d))
unfolding coord_to_part init sizes_of_part
coord_to_part-global size split i d v h b =
    let ns = parts_size_of size split in
    let q = parts_coord ns i in
    let e = parts_coord-eq ns i in
    let bq : InBounds ns q = rw e (coord_at-InBounds ns i h) in
    let (inside, same, place) = global-InBounds size split q d v bq b in
    let c = global_coord size split i d in
    let index : part_index split (multipliers_from 1 ns) c ≡ i = omega (
      arith,
      part_index-rank 1 ns split c (rw same bq),
      ap (rank ns) (same ∙ e),
      rank-coord_at ns i h,
    ) in
    (inside, rw (index, place) refl)

quotients-injective :
    (size split c d : List ℕ)
    → IsSplit size split
    → InBounds size c
    → InBounds size d
    → quotients split c ≡ quotients split d
    → coord_in_part split c ≡ coord_in_part split d
    → c ≡ d
unfolding coord_in_part
quotients-injective [] [] [] [] v b b' e k = refl
quotients-injective [] [] (x ∷ c) d v b b' e k = absurd b
quotients-injective [] [] [] (y ∷ d) v b b' e k = absurd b'
quotients-injective [] (p ∷ split) c d v b b' e k = absurd v
quotients-injective (s ∷ size) [] c d v b b' e k = absurd v
quotients-injective (s ∷ size) (p ∷ split) [] d v b b' e k = absurd b
quotients-injective (s ∷ size) (p ∷ split) (x ∷ c) [] v b b' e k = absurd b'
quotients-injective (s ∷ size) (p ∷ split) (x ∷ c) (y ∷ d) v b b' e k =
    let high : x / p ≡ y / p = cc in
    let low : x % p ≡ y % p = cc in
    let same : x ≡ y =
      omega (arith, ap (λ (n : ℕ). p * n) high, div-add-mod x p, div-add-mod y p) in
    rw same (ap (◌∷◌ y) (quotients-injective size split c d v.1 b.1 b'.1 (cc) (cc)))

-- Each dimension has a split size that is not 0.
-- Two cells of the matrix at one place of one part are one cell.
pub coord_to_part-injective :
    (size split c d : List ℕ)
    → IsSplit size split
    → InBounds size c
    → InBounds size d
    → coord_to_part (init size split) c ≡ coord_to_part (init size split) d
    → c ≡ d
unfolding coord_to_part init
coord_to_part-injective size split c d v b b' e =
    let ns = parts_size_of size split in
    let qc = quotients-InBounds size split c v b in
    let qd = quotients-InBounds size split d v b' in
    let ranks : rank ns (quotients split c) ≡ rank ns (quotients split d) = omega (
      arith,
      ap (λ (r : ℕ × List ℕ). r.0) e,
      part_index-rank 1 ns split c qc,
      part_index-rank 1 ns split d qd,
    ) in
    quotients-injective size split c d v b b'
      (sym (coord_at-rank ns _ qc) ∙ ap (coord_at ns) ranks ∙ coord_at-rank ns _ qd)
      (ap (λ (r : ℕ × List ℕ). r.1) e)
