-- ===== src/Matrix/Layout/Stock.antt =====
-- The stock layouts put the cells of a region next to one another, each in a place of its own.
use petabricks.Base.{
  ℕ, ◌+◌, ◌*◌, ◌/◌, ◌%◌, ◌<◌, ◌≡◌, refl, sym, ap, ◌∙◌, List, [], ◌∷◌, arith, product,
}
use petabricks.Matrix.Coord.{InBounds}
use petabricks.Matrix.Coord.Rank.{rank, rank-lt, coord_at-rank, coord_at, digit_low, digit_high}
use petabricks.Matrix.Layout.{
  dot, StockLayout, ascending, descending, ascending_from, descending_loop, stock_layout,
}

ascending_from-dot :
    (m : ℕ) (ss c : List ℕ) → InBounds ss c → dot (ascending_from m ss) c ≡ m * rank ss c
unfolding dot ascending_from
ascending_from-dot m [] [] b = omega arith
ascending_from-dot m [] (x ∷ c) b = absurd b
ascending_from-dot m (s ∷ ss) [] b = absurd b
ascending_from-dot m (s ∷ ss) (x ∷ c) b = omega (arith, ascending_from-dot (m * s) ss c b.1)

-- In the ascending layout a cell's offset is its place in the order of `incCoord`.
pub ascending-dot : (ss c : List ℕ) → InBounds ss c → dot (stock_layout ascending ss) c ≡ rank ss c
unfolding stock_layout
ascending-dot ss c b = omega (arith, ascending_from-dot 1 ss c b)

-- The place of a coordinate if the last dimension goes fastest.
abbrev row_rank : List ℕ → List ℕ → ℕ
row_rank (s ∷ ss) (x ∷ c) = product ss * x + row_rank ss c
row_rank _ _ = 0

descending_loop-product : (ss : List ℕ) → (descending_loop ss).1 ≡ product ss
unfolding descending_loop
descending_loop-product [] = refl
descending_loop-product (s ∷ ss) = omega (arith, ap (λ (k : ℕ). k * s) (descending_loop-product ss))

descending-dot : (ss c : List ℕ) → dot (stock_layout descending ss) c ≡ row_rank ss c
unfolding stock_layout dot descending_loop
descending-dot [] [] = refl
descending-dot [] (x ∷ c) = refl
descending-dot (s ∷ ss) [] = refl
descending-dot (s ∷ ss) (x ∷ c) =
    rw (descending_loop-product ss) (ap (λ (k : ℕ). product ss * x + k) (descending-dot ss c))

row_rank-lt : (ss c : List ℕ) → InBounds ss c → row_rank ss c < product ss
row_rank-lt [] [] b = omega arith
row_rank-lt [] (x ∷ c) b = absurd b
row_rank-lt (s ∷ ss) [] b = absurd b
row_rank-lt (s ∷ ss) (x ∷ c) b = grind (arith, row_rank-lt ss c b.1)

-- A cell inside the sizes is inside the buffer, in both layouts.
pub stock_layout-dot-lt :
    (l : StockLayout) (ss c : List ℕ) → InBounds ss c → dot (stock_layout l ss) c < product ss
stock_layout-dot-lt ascending ss c b = rw (ascending-dot ss c b) (rank-lt ss c b)
stock_layout-dot-lt descending ss c b = rw (descending-dot ss c) (row_rank-lt ss c b)

digits_unique : (p x y a b : ℕ) → a < p → b < p → p * x + a ≡ p * y + b → (x ≡ y) × (a ≡ b)
digits_unique p x y a b h k e =
    let e' : a + p * x ≡ b + p * y = omega arith in
    (
      sym (digit_high p a x h) ∙ ap (λ (n : ℕ). n / p) e' ∙ digit_high p b y k,
      sym (digit_low p a x h) ∙ ap (λ (n : ℕ). n % p) e' ∙ digit_low p b y k,
    )

row_rank-injective :
    (ss c d : List ℕ) → InBounds ss c → InBounds ss d → row_rank ss c ≡ row_rank ss d → c ≡ d
row_rank-injective [] [] [] b b' e = refl
row_rank-injective [] (x ∷ c) d b b' e = absurd b
row_rank-injective [] [] (y ∷ d) b b' e = absurd b'
row_rank-injective (s ∷ ss) [] d b b' e = absurd b
row_rank-injective (s ∷ ss) (x ∷ c) [] b b' e = absurd b'
row_rank-injective (s ∷ ss) (x ∷ c) (y ∷ d) b b' e =
    let (e₀, e₁) =
      digits_unique (product ss) x y (row_rank ss c) (row_rank ss d) (row_rank-lt ss c b.1)
        (row_rank-lt ss d b'.1) e in
    rw e₀ (ap (◌∷◌ y) (row_rank-injective ss c d b.1 b'.1 e₁))

rank-injective : (ss c d : List ℕ) → InBounds ss c → InBounds ss d → rank ss c ≡ rank ss d → c ≡ d
rank-injective ss c d b b' e =
    sym (coord_at-rank ss c b) ∙ ap (coord_at ss) e ∙ coord_at-rank ss d b'

-- Two cells inside the sizes that share an offset are one cell, in both layouts.
pub stock_layout-dot-injective :
    (l : StockLayout) (ss c d : List ℕ)
    → InBounds ss c
    → InBounds ss d
    → dot (stock_layout l ss) c ≡ dot (stock_layout l ss) d
    → c ≡ d
stock_layout-dot-injective ascending ss c d b b' e =
    rank-injective ss c d b b' (sym (ascending-dot ss c b) ∙ e ∙ ascending-dot ss d b')
stock_layout-dot-injective descending ss c d b b' e =
    row_rank-injective ss c d b b' (sym (descending-dot ss c) ∙ e ∙ descending-dot ss d)
