-- ===== src/Placement/Order.antt =====
-- The loops of the placements go through the parts in an order, each once.
use native.Mathlib.Nat.{mod-lt, mod-add-div}
use petabricks.Base.{
  ℕ, zero, suc, ◌+◌, ◌*◌, ◌/◌, ◌%◌, ◌<◌, ◌≤◌, ◌≡◌, refl, sym, ap, subst, ◌∙◌, Bool, true, false,
  not, ◌&&◌, ◌||◌, [], ◌∷◌, ◌++◌, ◌==◌, if◌then◌else◌, length, length-append, arith,
}
use petabricks.Placement.{
  HostDb, num_hosts, Placing, wrapped, place_each, place_line, place_lines, place_blocks,
}
use petabricks.Placement.Filled.{Follows, IsInjective}

Follows-append :
    (db : HostDb) (order : ℕ → ℕ) (n t : ℕ) (xs ys : Placing)
    → Follows db order n t xs
    → Follows db order n (t + length xs) ys
    → Follows db order n t (xs ++ ys)
Follows-append db order n t [] ys f g = subst (λ x. Follows db order n x ys) (omega arith) g
Follows-append db order n t ((i, r) ∷ xs) ys (lt, e, h, f) g = (
  lt,
  e,
  h,
  Follows-append db order n (t + 1) xs ys f (subst (λ x. Follows db order n x ys) (omega arith) g),
)

wrapped-lt : (n r : ℕ) → 0 < n → wrapped n r < n
wrapped-lt n r h = ground arith

pub place_each-Follows :
    (db : HostDb) (total n i r : ℕ)
    → i + n ≤ total
    → r < num_hosts db
    → Follows db (λ x. x) total i (place_each (num_hosts db) n i r)
unfolding place_each
place_each-Follows db total zero i r h k = tt
place_each-Follows db total (suc n) i r h k = (
  omega arith,
  refl,
  k,
  place_each-Follows db total n (i + 1) _ (omega arith) (wrapped-lt (num_hosts db) r (omega arith)),
)

pub length-place_each : (n_hosts n i r : ℕ) → length (place_each n_hosts n i r) ≡ n
unfolding place_each
length-place_each n_hosts zero i r = refl
length-place_each n_hosts (suc n) i r =
    ap suc (length-place_each n_hosts n (i + 1) (wrapped n_hosts r))

module _ (db : HostDb) (order : ℕ → ℕ) (total : ℕ) where
  -- The parts of a line are at the places from `base` on.
  place_line-Follows :
      (index : ℕ → ℕ) (m base : ℕ) (extra : Bool)
      → ((k : ℕ) → k < m → (index k < total) × (order (index k) ≡ base + k))
      → (n i r : ℕ) → i + n ≤ m
      → r < num_hosts db
      → let (line, last) = place_line (num_hosts db) index m extra n i r in
        Follows db order total (base + i) line × (last < num_hosts db) × (length line ≡ n)
  unfolding place_line
  place_line-Follows index m base extra at zero i r h k = (tt, k, refl)
  place_line-Follows index m base extra at (suc n) i r h k =
      let next = if not extra || not (i + 2 == m) then r + 1 else r in
      let (f, last, len) =
        place_line-Follows index m base extra at n (i + 1) (wrapped (num_hosts db) next)
          (omega arith) (wrapped-lt (num_hosts db) next (omega arith)) in
      let (lt, e) = at i (omega arith) in
      let rest = place_line (num_hosts db) index m extra n (i + 1) (wrapped (num_hosts db) next) in
      let step : base + (i + 1) ≡ base + i + 1 = omega arith in
      ((lt, e, k, subst (λ x. Follows db order total x rest.0) step f), last, ap suc len)

  if_lt : (b : Bool) (x y n : ℕ) → x < n → y < n → (if b then x else y) < n
  if_lt true x y n h k = h
  if_lt false x y n h k = k

  place_lines-Follows :
      (index : ℕ → ℕ → ℕ) (l m : ℕ) (extra_line extra : Bool)
      → ((j i : ℕ) → j < l → i < m → (index j i < total) × (order (index j i) ≡ j * m + i))
      → (k j begin r : ℕ) → j + k ≤ l
      → begin < num_hosts db
      → r < num_hosts db
      → let placing = place_lines (num_hosts db) index l m extra_line extra k j begin r in
        Follows db order total (j * m) placing × (length placing ≡ k * m)
  unfolding place_lines
  place_lines-Follows index l m extra_line extra at zero j begin r h b c = (tt, grind arith)
  place_lines-Follows index l m extra_line extra at (suc k) j begin r h b c =
      let r' = if extra_line && (j + 1 == l) then begin else r in
      let r'-lt = if_lt (extra_line && (j + 1 == l)) begin r (num_hosts db) b c in
      let (f, last, len) =
        place_line-Follows (index j) m (j * m) extra (λ i p. at j i (omega arith) p) m 0 r'
          (omega arith) r'-lt in
      let line = place_line (num_hosts db) (index j) m extra m 0 r' in
      let (g, lens) =
        place_lines-Follows index l m extra_line extra at k (j + 1) r' line.1 (omega arith) r'-lt
          last in
      let rest = place_lines (num_hosts db) index l m extra_line extra k (j + 1) r' line.1 in
      let total_length : (x y : ℕ) → x ≡ m → y ≡ k * m → x + y ≡ suc k * m =
        λ x y p q. grind arith in
      let from : j * m + 0 ≡ j * m = omega arith in
      let next : (j + 1) * m ≡ j * m + length line.0 = grind (arith, len) in
      (
        Follows-append db order total (j * m) line.0 rest
            (subst (λ x. Follows db order total x line.0) from f)
            (subst (λ x. Follows db order total x rest) next g),
        length-append {0} line.0 rest ∙ total_length (length line.0) (length rest) len lens,
      )

-- The order of the parts when columns are lines.
abbrev by_columns : ℕ → ℕ → ℕ → ℕ
by_columns cols rows x = x % cols * rows + x / cols

abbrev pub order_of : Bool → ℕ → ℕ → ℕ → ℕ
order_of true cols rows x = by_columns cols rows x
order_of false cols rows x = x

digits : (m x q : ℕ) → x < m → ((q * m + x) % m ≡ x) × ((q * m + x) / m ≡ q)
digits m x q h = (grind arith, grind arith)

place_lt : (m n x q : ℕ) → x < m → q < n → q * m + x < n * m
place_lt m n x q h k = grind arith

times_comm : (a b : ℕ) → a * b ≡ b * a
times_comm a b = grind arith

from_zero :
    (db : HostDb) (order : ℕ → ℕ) (total m : ℕ) (placing : Placing)
    → Follows db order total (0 * m) placing
    → Follows db order total 0 placing
from_zero db order total m placing f = subst (λ x. Follows db order total x placing) (omega arith) f

-- The row of a part, and that there is a column.
row_lt : (cols rows i : ℕ) → i < cols * rows → (i / cols < rows) × (0 < cols)
row_lt zero rows i h = absurd (grind arith)
row_lt (suc cols) rows i h = (grind arith, omega arith)

pub place_blocks-Follows :
    (db : HostDb) (transposed extra_col extra_row : Bool) (cols rows : ℕ)
    → let placing = place_blocks (num_hosts db) transposed extra_col extra_row cols rows in
      Follows db (order_of transposed cols rows) (cols * rows) 0 placing
      × (length placing ≡ cols * rows)
unfolding place_blocks
place_blocks-Follows db true extra_col extra_row cols rows =
    let (f, l) =
      place_lines-Follows db (by_columns cols rows) (cols * rows) (λ i j. j * cols + i) cols rows
        extra_col extra_row at cols 0 0 0 (omega arith) (omega arith) (omega arith) in
    (from_zero db (by_columns cols rows) (cols * rows) rows _ f, l)
  where
    at :
        (i j : ℕ)
        → i < cols
        → j < rows
        → (j * cols + i < cols * rows) × (by_columns cols rows (j * cols + i) ≡ i * rows + j)
    at i j p q =
        let (low, high) = digits cols i j p in
        (rw (times_comm cols rows) (place_lt cols rows i j p q), rw (low, high) refl)
place_blocks-Follows db false extra_col extra_row cols rows =
    let (f, l) =
      place_lines-Follows db (λ x. x) (cols * rows) (λ j i. j * cols + i) rows cols extra_row
        extra_col (λ j i p q. (rw (times_comm cols rows) (place_lt cols rows i j q p), refl)) rows 0
        0 0 (omega arith) (omega arith) (omega arith) in
    (from_zero db (λ x. x) (cols * rows) cols _ f, l ∙ times_comm rows cols)

pub order_of-IsInjective :
    (transposed : Bool) (cols rows : ℕ) → IsInjective (order_of transposed cols rows) (cols * rows)
order_of-IsInjective true cols rows i j p q e =
    let (ri, c) = row_lt cols rows i p in
    let (rj, _) = row_lt cols rows j q in
    let (low, high) = digits rows (i / cols) (i % cols) ri in
    let (low', high') = digits rows (j / cols) (j % cols) rj in
    let quotient : i / cols ≡ j / cols = sym low ∙ ap (λ x. x % rows) e ∙ low' in
    let rest : i % cols ≡ j % cols = sym high ∙ ap (λ x. x / rows) e ∙ high' in
    sym (mod-add-div i cols) ∙ rw (quotient, rest) refl ∙ mod-add-div j cols
order_of-IsInjective false cols rows i j p q e = e

pub order_of-lt :
    (transposed : Bool) (cols rows i : ℕ)
    → i < cols * rows
    → order_of transposed cols rows i < cols * rows
order_of-lt true cols rows i h =
    let (r, c) = row_lt cols rows i h in place_lt rows cols (i / cols) (i % cols) r (mod-lt i c)
order_of-lt false cols rows i h = h
