-- ===== src/Split/Cells.antt =====
-- `readCell` and `writeCell` of a split matrix go to the cell, and to no other.
use petabricks.Base.{ℕ, ◌≡◌, refl, true, List, [], ◌∷◌, arith}
use petabricks.Split.{Split, same_coord}

pub same_coord_refl : (c : List ℕ) → same_coord c c ≡ true
same_coord_refl [] = refl
same_coord_refl (x ∷ c) = ground (arith, same_coord_refl c)

pub same_coord-eq : (c d : List ℕ) → same_coord c d ≡ true → c ≡ d
same_coord-eq [] [] h = refl
same_coord-eq [] (y ∷ d) h = cc
same_coord-eq (x ∷ c) [] h = cc
same_coord-eq (x ∷ c) (y ∷ d) h = ground (arith, same_coord-eq c d)
