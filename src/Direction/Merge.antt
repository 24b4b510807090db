-- ===== src/Direction/Merge.antt =====
-- Merging two directions asks for what both ask for.
use Prim.Native.Nat.{bit_and, bit_or}
use petabricks.Base.{
  ℕ, zero, suc, ◌<◌, ◌≡◌, refl, sym, ap, ◌∙◌, Bool, true, false, false≢true, not, ◌&&◌, [], ◌∷◌,
  All, ◌==◌, arith,
}
use native.Mathlib.Decide.{ℕ_discrete}
use petabricks.Direction.{
  Direction, d_none, d_lt, d_gt, merge, at, can_iterate_forward, can_iterate_backward,
}

-- Of every number below `n`.
abbrev all_below : ℕ → (ℕ → Bool) → Bool
all_below zero f = true
all_below (suc n) f = f n && all_below n f

and_left : (a b : Bool) → a && b ≡ true → a ≡ true
and_left true b h = refl
and_left false b h = h

and_right : (a b : Bool) → a && b ≡ true → b ≡ true
and_right true b h = h
and_right false b h = absurd (false≢true h)

all_below-get : (n : ℕ) (f : ℕ → Bool) (x : ℕ) → all_below n f ≡ true → x < n → f x ≡ true
all_below-get zero f x h lt = absurd (omega arith)
all_below-get (suc n) f x h lt = elim (ℕ_discrete n x) [
  | yes e ↦ ap f (sym e) ∙ and_left (f n) (all_below n f) h
  | no ne ↦ all_below-get n f x (and_right (f n) (all_below n f) h) (omega arith)
]

-- The masks of the four directions.
abbrev IsMask : ℕ → Type 0
IsMask x = x < 16

both_masks :
    (f : ℕ → ℕ → Bool) (x y : ℕ)
    → all_below 16 (λ a. all_below 16 (f a)) ≡ true
    → IsMask x
    → IsMask y
    → f x y ≡ true
both_masks f x y h p q =
    all_below-get 16 (f x) y (all_below-get 16 (λ a. all_below 16 (f a)) x h p) q

abbrev same : Bool → Bool → Bool
same true b = b
same false b = not b

same-eq : (a b : Bool) → same a b ≡ true → a ≡ b
same-eq true true h = refl
same-eq true false h = absurd (false≢true h)
same-eq false true h = absurd (false≢true h)
same-eq false false h = refl

-- Whether a mask has not the direction.
abbrev lacks : ℕ → ℕ → Bool
lacks dir x = bit_and x dir == 0

-- A direction that is missing in both masks is missing in the merged one.
abbrev both_lack : ℕ → ℕ → ℕ → Bool
both_lack dir a b = same (lacks dir (bit_or (bit_or d_none a) b)) (lacks dir a && lacks dir b)

abbrev one_lacks : ℕ → ℕ → Bool
one_lacks dir a = same (lacks dir (bit_or d_none a)) (lacks dir a)

abbrev IsDirection : ℕ → Type 0
IsDirection dir =
    (all_below 16 (λ a. all_below 16 (both_lack dir a)) ≡ true)
    × (all_below 16 (one_lacks dir) ≡ true)
    × (lacks dir d_none ≡ true)

and_true : (a : Bool) → a && true ≡ a
and_true true = refl
and_true false = refl

merge-lacks :
    (dir : ℕ) (left right : Direction) (d : ℕ)
    → IsDirection dir
    → All IsMask left
    → All IsMask right
    → lacks dir (at (merge left right) d) ≡ lacks dir (at left d) && lacks dir (at right d)
unfolding merge
merge-lacks dir [] [] d (both, one, none) l r = rw none refl
merge-lacks dir (x ∷ left) [] zero (both, one, none) l r =
    rw none
      (same-eq _ _ (all_below-get 16 (one_lacks dir) x one l.0) ∙ sym (and_true (lacks dir x)))
merge-lacks dir (x ∷ left) [] (suc d) h l r = merge-lacks dir left [] d h l.1 r
merge-lacks dir [] (y ∷ right) zero (both, one, none) l r =
    rw none (same-eq _ _ (all_below-get 16 (one_lacks dir) y one r.0))
merge-lacks dir [] (y ∷ right) (suc d) h l r = merge-lacks dir [] right d h l r.1
merge-lacks dir (x ∷ left) (y ∷ right) zero (both, one, none) l r =
    same-eq _ _ (both_masks (both_lack dir) x y both l.0 r.0)
merge-lacks dir (x ∷ left) (y ∷ right) (suc d) h l r = merge-lacks dir left right d h l.1 r.1

-- Where the masks of two directions are of the four bits, merging them allows an order, forward or
-- backward, in a dimension if, and only if, both allow it there, one that has not the dimension included.
merge-can_iterate :
    (left right : Direction) (d : ℕ)
    → All IsMask left
    → All IsMask right
    → (can_iterate_forward (merge left right) d
        ≡ can_iterate_forward left d && can_iterate_forward right d)
      × (can_iterate_backward (merge left right) d
          ≡ can_iterate_backward left d && can_iterate_backward right d)
unfolding can_iterate_forward can_iterate_backward
merge-can_iterate left right d l r = (
  merge-lacks d_gt left right d (refl, refl, refl) l r,
  merge-lacks d_lt left right d (refl, refl, refl) l r,
)
