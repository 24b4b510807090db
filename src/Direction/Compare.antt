-- ===== src/Direction/Compare.antt =====
-- `SplitRegionCmp` is an order, as `std::sort` requires.
use petabricks.Base.{
  ℕ, ◌+◌, ◌≡◌, refl, sym, ◌∙◌, Bool, true, false, false≢true, not, inl, inr, Bool-cases, List, [],
  ◌∷◌, ltb, ◌==◌, ==_iff, if◌then◌else◌, length, arith,
}
use petabricks.Split.{same_coord}
use petabricks.Direction.{Direction, goes_forward, compare_from, split_region_cmp}

-- One dimension.
abbrev before : Bool → ℕ → ℕ → Bool
before f x y = if f then ltb x y else ltb y x

before-total : (f : Bool) (x y : ℕ) → (x == y) ≡ false → before f x y ≡ not (before f y x)
before-total true x y h = ground arith
before-total false x y h = ground arith

==_comm : (x y : ℕ) → (x == y) ≡ (y == x)
==_comm x y = ground arith

compare_from-total :
    (order : Direction) (d : ℕ) (a b : List ℕ)
    → length a ≡ length b
    → compare_from order d a b ≡ (if same_coord a b then false else not (compare_from order d b a))
unfolding compare_from
compare_from-total order d [] [] h = refl
compare_from-total order d [] (y ∷ b) h = absurd (omega arith)
compare_from-total order d (x ∷ a) [] h = absurd (omega arith)
compare_from-total order d (x ∷ a) (y ∷ b) h = elim (Bool-cases (x == y)) [
  | inl q ↦ rw (q, sym (==_comm x y) ∙ q) (compare_from-total order (d + 1) a b (omega arith))
  | inr q ↦ rw (q, sym (==_comm x y) ∙ q) (before-total (goes_forward order d) x y q)
]

before_trans :
    (f : Bool) (x y z : ℕ)
    → (x == y) ≡ false
    → (y == z) ≡ false
    → before f x y ≡ true
    → before f y z ≡ true
    → ((x == z) ≡ false) × (before f x z ≡ true)
before_trans true x y z h k p q = (ground arith, ground arith)
before_trans false x y z h k p q = (ground arith, ground arith)

compare_from_trans :
    (order : Direction) (d : ℕ) (a b c : List ℕ)
    → compare_from order d a b ≡ true
    → compare_from order d b c ≡ true
    → compare_from order d a c ≡ true
unfolding compare_from
compare_from_trans order d [] b c p q = absurd (false≢true p)
compare_from_trans order d (x ∷ a) [] c p q = absurd (false≢true p)
compare_from_trans order d (x ∷ a) (y ∷ b) [] p q = absurd (false≢true q)
compare_from_trans order d (x ∷ a) (y ∷ b) (z ∷ c) p q = elim (Bool-cases (x == y)) [
  | inl e ↦ elim (Bool-cases (y == z)) [
    | inl f ↦
        let g : (x == z) ≡ true = ground arith in
        rw g (compare_from_trans order (d + 1) a b c (rw e at p) (rw f at q))
    | inr f ↦ let xy : y ≡ x = sym ((==_iff x y).0 e) in rw ((rw xy at f)) (rw xy at (rw f at q))
  ]
  | inr e ↦ elim (Bool-cases (y == z)) [
    | inl f ↦ let yz : y ≡ z = (==_iff y z).0 f in rw ((rw yz at e)) (rw yz at (rw e at p))
    | inr f ↦
        let (g, r) = before_trans (goes_forward order d) x y z e f (rw e at p) (rw f at q) in rw g r
  ]
]

-- Of two regions of one dimension that have not the same part numbers, exactly one comes first, whatever
-- the order; and a region does not come before one of the same part numbers.
pub split_region_cmp-total :
    (order : Direction) (a b : List ℕ)
    → length a ≡ length b
    → split_region_cmp order a b
      ≡ (if same_coord a b then false else not (split_region_cmp order b a))
unfolding split_region_cmp
split_region_cmp-total order a b h = compare_from-total order 0 a b h

-- A region that comes before one that comes before a third comes before the third.
split_region_cmp_trans :
    (order : Direction) (a b c : List ℕ)
    → split_region_cmp order a b ≡ true
    → split_region_cmp order b c ≡ true
    → split_region_cmp order a c ≡ true
unfolding split_region_cmp
split_region_cmp_trans order a b c p q = compare_from_trans order 0 a b c p q
