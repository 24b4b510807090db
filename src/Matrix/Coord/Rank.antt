-- ===== src/Matrix/Coord/Rank.antt =====
-- The place of a coordinate in the order in which `incCoord` goes through them.
use native.Mathlib.Nat.{zero-div, zero-mod}
use petabricks.Base.{
  ℕ, zero, suc, ◌+◌, ◌*◌, ◌/◌, ◌%◌, ◌≤◌, ◌<◌, ◌≡◌, refl, ap, inl, inr, none, some, List, [], ◌∷◌,
  leb, Bool-cases, true, subst, sym, arith, product,
}
use petabricks.Matrix.Coord.{Stepped, carry_from, inc_coord, InBounds, zeros, carry}

abbrev pub rank : List ℕ → List ℕ → ℕ
rank (s ∷ ss) (x ∷ c) = x + s * rank ss c
rank _ _ = 0

-- The coordinate at a place.
abbrev pub coord_at : List ℕ → ℕ → List ℕ
coord_at [] n = []
coord_at (s ∷ ss) n = n % s ∷ coord_at ss (n / s)

pub rank-lt : (ss c : List ℕ) → InBounds ss c → rank ss c < product ss
rank-lt [] [] b = omega arith
rank-lt (s ∷ ss) [] b = absurd b
rank-lt [] (x ∷ c) b = absurd b
rank-lt (s ∷ ss) (x ∷ c) b = grind (arith, rank-lt ss c b.1)

pub digit_low : (s x q : ℕ) → x < s → (x + s * q) % s ≡ x
digit_low s x q h = grind arith

pub digit_high : (s x q : ℕ) → x < s → (x + s * q) / s ≡ q
digit_high s x q h = grind arith

pub coord_at-rank : (ss c : List ℕ) → InBounds ss c → coord_at ss (rank ss c) ≡ c
coord_at-rank [] [] b = refl
coord_at-rank (s ∷ ss) [] b = absurd b
coord_at-rank [] (x ∷ c) b = absurd b
coord_at-rank (s ∷ ss) (x ∷ c) b =
    rw (digit_low s x (rank ss c) b.0, digit_high s x (rank ss c) b.0)
      (ap (◌∷◌ x) (coord_at-rank ss c b.1))

div-lt : (n s q : ℕ) → n < s * q → n / s < q
div-lt n s q h = grind arith

pub coord_at-InBounds : (ss : List ℕ) (n : ℕ) → n < product ss → InBounds ss (coord_at ss n)
coord_at-InBounds [] n h = tt
coord_at-InBounds (zero ∷ ss) n h = absurd (omega arith)
coord_at-InBounds (suc s ∷ ss) n h =
    (omega arith, coord_at-InBounds ss (n / suc s) (div-lt n (suc s) (product ss) h))

pub rank-coord_at : (ss : List ℕ) (n : ℕ) → n < product ss → rank ss (coord_at ss n) ≡ n
rank-coord_at [] n h = omega arith
rank-coord_at (s ∷ ss) n h =
    rw (rank-coord_at ss (n / s) (div-lt n s (product ss) h)) (div_split n s)
  where
    div_split : (n s : ℕ) → n % s + s * (n / s) ≡ n
    div_split n s = grind arith

-- What one increment does: the next place, or the end.
abbrev Next : List ℕ → ℕ → Stepped → Type 0
Next ss n (some i, c) = InBounds ss c × (rank ss c ≡ n)
Next ss n (none, c) = product ss ≡ n

carry-Next :
    (s : ℕ) (ss : List ℕ) (n : ℕ) (r : Stepped)
    → 0 < s
    → Next ss n r
    → Next (s ∷ ss) (s * n) (carry 0 r)
carry-Next s ss n (some i, c) h v = ((h, v.0), rw v.1 (omega arith))
carry-Next s ss n (none, c) h v = ap (λ (k : ℕ). s * k) v

carry_sum : (s x y q : ℕ) → x ≤ s → leb s x ≡ true → x + s * (y + q) ≡ s * (y + 1 + q)
carry_sum s x y q h full = ground arith

-- The loop from a dimension whose entry has just been incremented.
carry_from-Next :
    (i s : ℕ) (ss : List ℕ) (x : ℕ) (c : List ℕ)
    → 0 < s
    → x ≤ s
    → InBounds ss c
    → Next (s ∷ ss) (x + s * rank ss c) (carry_from i (s ∷ ss) (x ∷ c))
unfolding carry_from
carry_from-Next i s [] x [] p h b = ground arith
carry_from-Next i s [] x (y ∷ c) p h b = absurd b
carry_from-Next i s (s' ∷ ss) x [] p h b = absurd b
carry_from-Next i s (s' ∷ ss) x (y ∷ c) p h b =
    let rest = carry_from-Next (i + 1) s' ss (y + 1) c (omega arith) (omega arith) b.1 in
    let all = carry-Next s (s' ∷ ss) (y + 1 + s' * rank ss c) _ p rest in
    elim (Bool-cases (leb s x)) [
      | inl full ↦ rw full (
          let e : x + s * (y + s' * rank ss c) ≡ s * (y + 1 + s' * rank ss c) =
            carry_sum s x y (s' * rank ss c) h full in
          rw e all)
      | inr more ↦ rw more ((ground arith, b), refl)
    ]

-- One increment of a coordinate inside the sizes goes to the next place, or ends at the last.
inc_coord-Next : (ss c : List ℕ) → InBounds ss c → Next ss (rank ss c + 1) (inc_coord ss c)
unfolding inc_coord
inc_coord-Next [] [] b = refl
inc_coord-Next (s ∷ ss) [] b = absurd b
inc_coord-Next [] (x ∷ c) b = absurd b
inc_coord-Next (s ∷ ss) (x ∷ c) b =
    let e : x + s * rank ss c + 1 ≡ x + 1 + s * rank ss c = omega arith in
    rw e (carry_from-Next 0 s ss (x + 1) c (omega arith) (omega arith) b.1)

-- The first coordinate.
pub coord_at-zero : (ss : List ℕ) → coord_at ss 0 ≡ zeros ss
coord_at-zero [] = refl
coord_at-zero (s ∷ ss) =
    let e : 0 / s ≡ 0 = zero-div s in
    let k : 0 % s ≡ 0 = zero-mod s in rw (k, e) (ap (◌∷◌ 0) (coord_at-zero ss))

-- From place `n` the increment goes to place `n + 1`, or ends if there is none.
abbrev pub StepsTo : (ℕ → List ℕ) → ℕ → ℕ → Stepped → Type 0
StepsTo place total n (some i, c) = (n + 1 < total) × (c ≡ place (n + 1))
StepsTo place total n (none, c) = total ≡ n + 1

StepsTo-of_Next :
    (ss : List ℕ) (n : ℕ) (r : Stepped) → Next ss (n + 1) r → StepsTo (coord_at ss) (product ss) n r
StepsTo-of_Next ss n (some i, c) v = (
  subst (λ k. k < product ss) v.1 (rank-lt ss c v.0),
  sym (subst (λ k. coord_at ss k ≡ c) v.1 (coord_at-rank ss c v.0)),
)
StepsTo-of_Next ss n (none, c) v = v

-- `incCoord` goes through the coordinates in the order of their places, and ends after the last.
pub inc_coord-StepsTo :
    (ss : List ℕ) (n : ℕ)
    → n < product ss
    → StepsTo (coord_at ss) (product ss) n (inc_coord ss (coord_at ss n))
inc_coord-StepsTo ss n h = StepsTo-of_Next ss n _ (
    subst (λ k. Next ss (k + 1) (inc_coord ss (coord_at ss n))) (rank-coord_at ss n h)
      (inc_coord-Next ss (coord_at ss n) (coord_at-InBounds ss n h)))
