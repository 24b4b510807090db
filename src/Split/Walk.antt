-- ===== src/Split/Walk.antt =====
-- `incPartCoord` goes through the parts that meet a region, and `isRegionInOnePart` says whether
-- there is but one.
use native.Mathlib.Nat.{div-add-mod}
use petabricks.Base.{
  ℕ, ◌+◌, ◌-◌, ◌*◌, ◌/◌, ◌%◌, ◌≤◌, ◌<◌, ◌≡◌, refl, ap, true, none, some, List, [], ◌∷◌, arith, leb,
  if◌then◌else◌, ◌==◌, product,
}
use petabricks.Split.{inc_part_coord, carry_part, is_region_in_one_part, parts_size_of}
use petabricks.Split.Parts.{quotients}
use petabricks.Matrix.Coord.{Stepped, carry, carry_from, inc_coord, InBounds}
use petabricks.Matrix.Coord.Rank.{coord_at, coord_at-InBounds, StepsTo, inc_coord-StepsTo}
use petabricks.Matrix.Coord.Bound.{extents}

-- The corner of the part at `c`, counted in parts from the corner `bs`.
abbrev corner : List ℕ → List ℕ → List ℕ → List ℕ
corner (p ∷ ps) (b ∷ bs) (x ∷ c) = (b + p * x) ∷ corner ps bs c
corner _ _ _ = []

abbrev pub part_counts : List ℕ → List ℕ → List ℕ → List ℕ
part_counts ps bs es = parts_size_of (extents bs es) ps

-- Split sizes that are not 0, and a box, of one dimension.
abbrev IsWalk : List ℕ → List ℕ → List ℕ → Type 0
IsWalk [] [] [] = Unit {0}
IsWalk (p ∷ ps) (b ∷ bs) (e ∷ es) = (0 < p) × (b ≤ e) × IsWalk ps bs es
IsWalk _ _ _ = ⊥

abbrev cornered : List ℕ → List ℕ → Stepped → Stepped
cornered ps bs (r, c) = (r, corner ps bs c)

ceiling : ℕ → ℕ → ℕ
ceiling n p = if n % p == 0 then n / p else n / p + 1

ceiling-le : (n p x : ℕ) → 0 < p → n ≤ p * x → ceiling n p ≤ x
unfolding ceiling
ceiling-le n p x h k = ground (arith, exact, above)
  where
    exact : n % p ≡ 0 → n / p ≤ x
    exact e = grind arith

    above : 0 < n % p → n / p + 1 ≤ x
    above e = grind arith

le-ceiling : (n p x : ℕ) → 0 < p → ceiling n p ≤ x → n ≤ p * x
unfolding ceiling
le-ceiling n p x h k = ground (arith, exact, above)
  where
    exact : n % p ≡ 0 → n / p ≤ x → n ≤ p * x
    exact e l = grind arith

    above : n / p + 1 ≤ x → n ≤ p * x
    above l = grind arith

leb-eq : (a b c d : ℕ) → (a ≤ b → c ≤ d) → (c ≤ d → a ≤ b) → leb a b ≡ leb c d
leb-eq a b c d h k = ground arith

-- Stepping past the end is stepping through all of the parts.
past_end : (p b e x : ℕ) → 0 < p → b ≤ e → leb e (b + p * x) ≡ leb (ceiling (e - b) p) x
past_end p b e x h k =
    leb-eq e (b + p * x) (ceiling (e - b) p) x (λ l. ceiling-le (e - b) p x h (omega arith))
      (λ l. omega (arith, le-ceiling (e - b) p x h l))

carry-cornered :
    (p b : ℕ) (ps bs : List ℕ) (r : Stepped)
    → carry b (cornered ps bs r) ≡ cornered (p ∷ ps) (b ∷ bs) (carry 0 r)
carry-cornered p b ps bs (r, c) = let e : b + p * 0 ≡ b = omega arith in rw e refl

stepped : (p b x : ℕ) → b + p * x + p ≡ b + p * (x + 1)
stepped p b x = omega arith

carry_part-cornered :
    (i p b e : ℕ) (ps bs es : List ℕ) (x : ℕ) (c : List ℕ)
    → 0 < p
    → b ≤ e
    → IsWalk ps bs es
    → InBounds (part_counts ps bs es) c
    → carry_part i (p ∷ ps) (b ∷ bs) (e ∷ es) (corner (p ∷ ps) (b ∷ bs) (x ∷ c))
      ≡ cornered (p ∷ ps) (b ∷ bs) (carry_from i (part_counts (p ∷ ps) (b ∷ bs) (e ∷ es)) (x ∷ c))
unfolding carry_part carry_from parts_size_of ceiling
carry_part-cornered i p b e [] [] [] x [] h k w n = ground (arith, past_end p b e x h k)
carry_part-cornered i p b e [] [] [] x (y ∷ c) h k w n = absurd n
carry_part-cornered i p b e [] [] (e' ∷ es) x c h k w n = absurd w
carry_part-cornered i p b e [] (b' ∷ bs) es x c h k w n = absurd w
carry_part-cornered i p b e (p' ∷ ps) [] es x c h k w n = absurd w
carry_part-cornered i p b e (p' ∷ ps) (b' ∷ bs) [] x c h k w n = absurd w
carry_part-cornered i p b e (p' ∷ ps) (b' ∷ bs) (e' ∷ es) x [] h k w n = absurd n
carry_part-cornered i p b e (p' ∷ ps) (b' ∷ bs) (e' ∷ es) x (y ∷ c) h k w n =
    rw (stepped p' b' y, past_end p b e x h k)
      (ground (
        arith,
        carry_part-cornered (i + 1) p' b' e' ps bs es (y + 1) c w.0 w.1 w.2 n.1,
        carry-cornered p b (p' ∷ ps) (b' ∷ bs)
            (carry_from (i + 1) (part_counts (p' ∷ ps) (b' ∷ bs) (e' ∷ es)) ((y + 1) ∷ c)),
      ))

inc_part_coord-cornered :
    (p : ℕ) (ps : List ℕ) (bs es c : List ℕ)
    → IsWalk (p ∷ ps) bs es
    → InBounds (part_counts (p ∷ ps) bs es) c
    → inc_part_coord (p ∷ ps) bs es (corner (p ∷ ps) bs c)
      ≡ cornered (p ∷ ps) bs (inc_coord (part_counts (p ∷ ps) bs es) c)
unfolding inc_part_coord inc_coord parts_size_of
inc_part_coord-cornered p ps [] es c w n = absurd w
inc_part_coord-cornered p ps (b ∷ bs) [] c w n = absurd w
inc_part_coord-cornered p ps (b ∷ bs) (e ∷ es) [] w n = absurd n
inc_part_coord-cornered p ps (b ∷ bs) (e ∷ es) (x ∷ c) w n =
    rw (stepped p b x) (carry_part-cornered 0 p b e ps bs es (x + 1) c w.0 w.1 w.2 n.1)

-- The corner of the part at a place of the walk.
abbrev pub part_at : List ℕ → List ℕ → List ℕ → ℕ → List ℕ
part_at ps bs es n = corner ps bs (coord_at (part_counts ps bs es) n)

cornered-StepsTo :
    (ps bs : List ℕ) (place : ℕ → List ℕ) (total n : ℕ) (r : Stepped)
    → StepsTo place total n r
    → StepsTo (λ k. corner ps bs (place k)) total n (cornered ps bs r)
cornered-StepsTo ps bs place total n (some i, c) v = (v.0, ap (corner ps bs) v.1)
cornered-StepsTo ps bs place total n (none, c) v = v

-- Each dimension has a split size that is not 0.
-- From the corner of one part between the bounds `incPartCoord` goes to the corner of the next, in
-- the order of their places, and it returns -1 after the last.
pub inc_part_coord-StepsTo :
    (p : ℕ) (ps bs es : List ℕ) (n : ℕ)
    → IsWalk (p ∷ ps) bs es
    → n < product (part_counts (p ∷ ps) bs es)
    → StepsTo
        (part_at (p ∷ ps) bs es)
        (product (part_counts (p ∷ ps) bs es))
        n
        (inc_part_coord (p ∷ ps) bs es (part_at (p ∷ ps) bs es n))
inc_part_coord-StepsTo p ps bs es n w h =
    let counts = part_counts (p ∷ ps) bs es in
    rw (inc_part_coord-cornered p ps bs es (coord_at counts n) w (coord_at-InBounds counts n h)) (
      cornered-StepsTo (p ∷ ps) bs (coord_at counts) (product counts) n
        (inc_coord counts (coord_at counts n)) (inc_coord-StepsTo counts n h))

-- A coordinate between two corners, of which the lower one is a corner of a part.
abbrev IsAlignedBox : List ℕ → List ℕ → List ℕ → List ℕ → Type 0
IsAlignedBox [] [] [] [] = Unit {0}
IsAlignedBox (p ∷ ps) (b ∷ bs) (e ∷ es) (x ∷ c) =
    (0 < p) × (b % p ≡ 0) × (b ≤ x) × (x < e) × IsAlignedBox ps bs es c
IsAlignedBox _ _ _ _ = ⊥

one_quotient : (p b e x : ℕ) → 0 < p → b % p ≡ 0 → b ≤ x → x < e → e ≤ b + p → x / p ≡ b / p
one_quotient p b e x h k l m n =
    let q = b / p in
    let eb : b ≡ p * q = omega (arith, div-add-mod b p) in
    between p q x h (omega arith) (omega arith)
  where
    between : (p q x : ℕ) → 0 < p → p * q ≤ x → x < p * q + p → x / p ≡ q
    between p q x h l m = grind arith

-- Each dimension has a split size that is not 0.
-- If `isRegionInOnePart` accepts a region whose lower corner is a corner of a part, every cell of the region lies in the part at its lower
-- corner.
pub is_region_in_one_part_lem :
    (ps bs es c : List ℕ)
    → IsAlignedBox ps bs es c
    → is_region_in_one_part ps bs es ≡ true
    → quotients ps c ≡ quotients ps bs
unfolding is_region_in_one_part
is_region_in_one_part_lem [] [] [] [] v h = refl
is_region_in_one_part_lem (p ∷ ps) (b ∷ bs) (e ∷ es) (x ∷ c) v h =
    let fits : e ≤ b + p = ground arith in
    rw (one_quotient p b e x v.0 v.1 v.2 v.3 fits)
      (ap (◌∷◌ (b / p)) (is_region_in_one_part_lem ps bs es c v.4 (ground arith)))
is_region_in_one_part_lem ps bs es c v h = absurd v
