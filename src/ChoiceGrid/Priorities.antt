-- ===== src/ChoiceGrid/Priorities.antt =====
-- What `applyRulePriorities` leaves of a set of rules.
use petabricks.Base.{
  ℕ, ◌+◌, ◌*◌, ◌≤◌, ◌<◌, ◌≡◌, refl, Bool, true, false, not, ◌&&◌, ◌||◌, Bool-cases, inl, inr, List,
  [], ◌∷◌, arith, ltb, leb, ◌==◌, if◌then◌else◌,
}
use petabricks.ChoiceGrid.{Rule, rank_of, priorities_after, apply_rule_priorities}

-- No rule of the list has a lower priority and no where clause.
unfoldable is_wanted : List Rule → Rule → Bool
is_wanted [] r = true
is_wanted (s ∷ rs) r = (s.has_where_clause || leb r.priority s.priority) && is_wanted rs r

unfoldable pub wanted_of : List Rule → List Rule → List Rule
unfolding is_wanted
wanted_of all [] = []
wanted_of all (r ∷ rs) = let rest = wanted_of all rs in if is_wanted all r then r ∷ rest else rest

-- Each rule is not after the next, in the order of `RulePriCmp`, ids aside.
unfoldable pub is_ordered_from : ℕ → List Rule → Bool
unfolding rank_of
is_ordered_from n [] = true
is_ordered_from n (r ∷ rs) = leb n (rank_of r) && is_ordered_from (rank_of r) rs

is_wanted-ordered :
    (n : ℕ) (r : Rule) (rs : List Rule)
    → r.priority * 2 ≤ n
    → is_ordered_from n rs ≡ true
    → is_wanted rs r ≡ true
unfolding is_wanted is_ordered_from rank_of
is_wanted-ordered n r [] h o = refl
is_wanted-ordered n r (s ∷ rs) h o = ground (arith, is_wanted-ordered (rank_of s) r rs)

-- A rule without a where clause keeps out all that have a higher priority.
none-wanted_of :
    (l : Rule) (n : ℕ) (others rs : List Rule)
    → l.has_where_clause ≡ false
    → l.priority * 2 + 1 < n
    → is_ordered_from n rs ≡ true
    → wanted_of (l ∷ others) rs ≡ []
unfolding wanted_of is_wanted is_ordered_from rank_of
none-wanted_of l n others [] w h o = refl
none-wanted_of l n others (r ∷ rs) w h o = ground (arith, none-wanted_of l (rank_of r) others rs w)

-- A rule that keeps out no more than the next one.
wanted_of-cons :
    (l r : Rule) (others rs : List Rule)
    → (l.has_where_clause || (l.priority == r.priority && not r.has_where_clause)) ≡ true
    → wanted_of (l ∷ (r ∷ others)) rs ≡ wanted_of (r ∷ others) rs
unfolding wanted_of is_wanted
wanted_of-cons l r others [] h = refl
wanted_of-cons l r others (s ∷ rs) h = ground (arith, wanted_of-cons l r others rs h)

priorities_after-wanted_of :
    (l : Rule) (rs : List Rule)
    → is_ordered_from (rank_of l) rs ≡ true
    → priorities_after l rs ≡ wanted_of (l ∷ rs) rs
unfolding priorities_after wanted_of is_wanted is_ordered_from rank_of
priorities_after-wanted_of l [] o = refl
priorities_after-wanted_of l (r ∷ rs) o =
    elim (Bool-cases (ltb l.priority r.priority && not l.has_where_clause)) [
      | inl k ↦
          ground (arith, none-wanted_of l (rank_of r) (r ∷ rs) rs (ground arith) (ground arith))
      | inr k ↦ ground (
        arith,
        is_wanted-ordered (rank_of r) r rs (ground arith),
        wanted_of-cons l r rs rs (ground arith),
        priorities_after-wanted_of r rs,
      )
    ]

-- In a set that is ordered, the rules that are left are those for which no rule of the set has a lower
-- priority and no where clause; the comparison of neighbours is enough.
pub apply_rule_priorities-wanted_of :
    (rs : List Rule) → is_ordered_from 0 rs ≡ true → apply_rule_priorities rs ≡ wanted_of rs rs
unfolding apply_rule_priorities wanted_of is_wanted is_ordered_from rank_of
apply_rule_priorities-wanted_of [] o = refl
apply_rule_priorities-wanted_of (r ∷ rs) o =
    ground
      (arith, is_wanted-ordered (rank_of r) r rs (ground arith), priorities_after-wanted_of r rs)
