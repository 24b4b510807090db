-- ===== src/Matrix/Layout.antt =====
-- `coordToPtr` and `setStockLayout` of runtime/matrixregion.h.
pub mod Stock
use petabricks.Base.{ℕ, ◌+◌, ◌*◌, List, [], ◌∷◌}

-- The sum of multipliers times coordinates.
unfoldable pub dot : List ℕ → List ℕ → ℕ
dot (m ∷ ms) (x ∷ c) = m * x + dot ms c
dot _ _ = 0

pub data StockLayout : Type 0 where
  ascending descending : StockLayout

-- The two loops, which carry `mult`.
unfoldable pub ascending_from : ℕ → List ℕ → List ℕ
ascending_from mult [] = []
ascending_from mult (s ∷ ss) = mult ∷ ascending_from (mult * s) ss

-- From the last dimension to the first: the multipliers of the later ones, and `mult` after them.
unfoldable pub descending_loop : List ℕ → List ℕ × ℕ
descending_loop [] = ([], 1)
descending_loop (s ∷ ss) = let (ms, mult) = descending_loop ss in (mult ∷ ms, mult * s)

unfoldable pub stock_layout : StockLayout → List ℕ → List ℕ
unfolding ascending_from descending_loop
stock_layout ascending sizes = ascending_from 1 sizes
stock_layout descending sizes = (descending_loop sizes).0
