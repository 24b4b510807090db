-- ===== src/RegionData/Whole.antt =====
-- A part with as many cells as the data is all of it: its cells are in the data's order.
use native.Mathlib.Decide.{ℕ_discrete}
use petabricks.Base.{
  ℕ, zero, suc, ◌+◌, ◌*◌, ◌≤◌, ◌<◌, ◌≡◌, refl, sym, ◌∙◌, inl, inr, Bool-cases, List, [], ◌∷◌,
  length, arith, product,
}
use petabricks.Matrix.Coord.{InBounds}
use petabricks.Matrix.Coord.Rank.{rank, rank-lt}
use petabricks.Matrix.Layout.Stock.{ascending-dot}
use petabricks.RegionMatrix.{Slices, at_slice, position, rest_of, keep, data_coord}
use petabricks.RegionData.{Metadata}
use petabricks.RegionData.Parts.{FitsHead, FitsFrom, Fits, index, index-coord, data_coord-InBounds}

mul-le : (a b c d : ℕ) → a ≤ c → b ≤ d → a * b ≤ c * d
mul-le a b c d h k = grind arith

kept_product :
    (offset size : List ℕ) (s p : ℕ)
    → FitsHead offset size s
    → product (rest_of size) ≤ p
    → product size ≤ s * p
kept_product [] size s p f h = absurd f
kept_product (o ∷ offset) [] s p f h = absurd f
kept_product (o ∷ offset) (z ∷ size) s p f h = mul-le z (product size) s p (omega arith) h

product-FitsFrom :
    (d : ℕ) (ss : Slices) (offset size data_size : List ℕ)
    → FitsFrom d ss offset size data_size
    → product size ≤ product data_size
product-FitsFrom d ss offset [] [] h = omega arith
product-FitsFrom d ss offset (z ∷ size) [] h = absurd (omega (arith, h.1))
product-FitsFrom d ss offset size (s ∷ data_size) h = elim (Bool-cases (at_slice d ss)) [
  | inl q ↦
      let (f, g) = rw q at h in
      let k = product-FitsFrom (d + 1) (rest_of ss) offset size data_size g in
      omega (arith, mul-le 1 (product size) s (product data_size) (omega arith) k)
  | inr q ↦
      let (f, g) = rw q at h in
      kept_product offset size s (product data_size) f
        (product-FitsFrom (d + 1) ss (rest_of offset) (rest_of size) data_size g)
]

factor_first : (n s p q : ℕ) → p ≤ q → 0 < n * p → n * p ≡ s * q → (n + 1 ≤ s) → ⊥
factor_first n zero p q k pos e h = omega arith
factor_first n (suc s) zero q k pos e h = grind arith
factor_first n (suc s) (suc p) q k pos e h =
    let m = mul-le (n + 1) (suc p) (suc s) q (omega arith) k in grind arith

factors_eq : (n s p q : ℕ) → n ≤ s → p ≤ q → 0 < n * p → n * p ≡ s * q → (n ≡ s) × (p ≡ q)
factors_eq n s p q h k pos e = elim (ℕ_discrete n s) [
  | no ne ↦ absurd (factor_first n s p q k pos e (omega arith))
  | yes same ↦ elim (ℕ_discrete p q) [
    | yes same' ↦ (same, same')
    | no ne ↦
        let c : n * p ≡ p * n = grind arith in
        let c' : s * q ≡ q * s = grind arith in
        absurd (factor_first p q n s h (rw (← c) pos) (sym c ∙ e ∙ c') (omega arith))
  ]
]

product_right : (z p : ℕ) → 0 < z * p → 0 < p
product_right z zero h = grind arith
product_right z (suc p) h = omega arith

kept_rank :
    (offset size c rest data_size : List ℕ) (s : ℕ)
    → FitsHead offset size s
    → InBounds size c
    → product (rest_of size) ≤ product data_size
    → 0 < product size
    → product size ≡ s * product data_size
    → (0 < product (rest_of size)
        → product (rest_of size) ≡ product data_size
        → InBounds (rest_of size) (rest_of c)
        → rank data_size rest ≡ rank (rest_of size) (rest_of c))
    → rank (s ∷ data_size) (keep offset c rest) ≡ rank size c
kept_rank [] size c rest data_size s f b k pos e ih = absurd f
kept_rank (o ∷ offset) [] c rest data_size s f b k pos e ih = absurd f
kept_rank (o ∷ offset) (z ∷ size) [] rest data_size s f b k pos e ih = absurd b
kept_rank (o ∷ offset) (z ∷ size) (x ∷ c) rest data_size s f b k pos e ih =
    let (zs, pq) = factors_eq z s (product size) (product data_size) (omega arith) k pos e in
    let r = ih (product_right z (product size) pos) pq b.1 in
    let o0 : o ≡ 0 = omega arith in rw (o0, r, ← zs) (omega arith)

whole_rank :
    (d : ℕ) (ss : Slices) (offset size data_size c : List ℕ)
    → FitsFrom d ss offset size data_size
    → 0 < product size
    → product size ≡ product data_size
    → InBounds size c
    → rank data_size (data_coord d (length data_size) ss offset c) ≡ rank size c
unfolding data_coord
whole_rank d ss offset [] [] c h pos e b = refl
whole_rank d ss offset (z ∷ size) [] c h pos e b = absurd (omega (arith, h.1))
whole_rank d ss offset size (s ∷ data_size) c h pos e b = elim (Bool-cases (at_slice d ss)) [
  | inl q ↦
      let (f, g) = rw q at h in
      let k = product-FitsFrom (d + 1) (rest_of ss) offset size data_size g in
      let one : 1 * product size ≡ s * product data_size = omega (arith, e) in
      let (s1, pq) =
        factors_eq 1 s (product size) (product data_size) (omega arith) k (omega arith) one in
      let p0 : position ss ≡ 0 = omega arith in
      rw (q, p0, ← s1)
        (omega (arith, whole_rank (d + 1) (rest_of ss) offset size data_size c g pos pq b))
  | inr q ↦
      let (f, g) = rw q at h in
      rw q (
        kept_rank offset size c _ data_size s f b
          (product-FitsFrom (d + 1) ss (rest_of offset) (rest_of size) data_size g) pos e
          (λ pos' pq b'.
            whole_rank (d + 1) ss (rest_of offset) (rest_of size) data_size (rest_of c) g pos' pq
              b'))
]

-- The index of a cell of such a part is its place in the order of `incCoord`.
pub index-whole :
    (m : Metadata) (data_size c : List ℕ)
    → Fits m data_size
    → InBounds m.size c
    → product m.size ≡ product data_size
    → index m data_size c ≡ rank m.size c
index-whole m data_size c h b e =
    let lt = rank-lt m.size c b in
    index-coord m data_size c h
    ∙ ascending-dot data_size _
        (data_coord-InBounds 0 m.slices m.split_offset m.size data_size c h.0 b)
    ∙ whole_rank 0 m.slices m.split_offset m.size data_size c h.0 (omega arith) e b
