-- ===== src/ChoiceGrid/Order.antt =====
-- The sets that are built stay in the order of `RulePriCmp`.
use petabricks.Base.{ℕ, ◌≤◌, ◌≡◌, refl, true, some, List, [], ◌∷◌, arith}
use petabricks.ChoiceGrid.{
  Rule, rank_of, comes_before, put_rule, insert_rule, erase_rule, Maxima, Descriptor, activate,
}
use petabricks.ChoiceGrid.Locate.{active_at, active_in}
use petabricks.ChoiceGrid.Priorities.{is_ordered_from}

is_ordered_from-less :
    (n k : ℕ) (rs : List Rule) → n ≤ k → is_ordered_from k rs ≡ true → is_ordered_from n rs ≡ true
unfolding is_ordered_from
is_ordered_from-less n k [] h o = refl
is_ordered_from-less n k (r ∷ rs) h o = ground arith

is_ordered_from-put_rule :
    (n : ℕ) (r : Rule) (rs : List Rule)
    → n ≤ rank_of r
    → is_ordered_from n rs ≡ true
    → is_ordered_from n (put_rule r rs) ≡ true
unfolding is_ordered_from put_rule comes_before
is_ordered_from-put_rule n r [] h o = ground arith
is_ordered_from-put_rule n r (s ∷ rs) h o =
    ground (arith, is_ordered_from-put_rule (rank_of s) r rs)

is_ordered_from-erase_rule :
    (n : ℕ) (r : Rule) (rs : List Rule)
    → is_ordered_from n rs ≡ true
    → is_ordered_from n (erase_rule r rs) ≡ true
unfolding is_ordered_from erase_rule
is_ordered_from-erase_rule n r [] o = refl
is_ordered_from-erase_rule n r (s ∷ rs) o = ground (
  arith,
  is_ordered_from-erase_rule (rank_of s) r rs,
  is_ordered_from-less n (rank_of s) (erase_rule r rs),
)

is_ordered_from-activate :
    {F : Type 0} (allowed : List Rule) (rd : Descriptor F) (active : List Rule)
    → is_ordered_from 0 active ≡ true
    → is_ordered_from 0 (activate allowed rd active) ≡ true
unfolding activate insert_rule
is_ordered_from-activate allowed rd active o =
    ground (
      arith,
      is_ordered_from-put_rule 0 rd.rule active,
      is_ordered_from-erase_rule 0 rd.rule active,
    )

module _ {F : Type 0} (m : Maxima F) where
  is_ordered_from-active_at :
      (allowed : List Rule) (x : ℕ) (rds : List (Descriptor F)) (active : List Rule)
      → is_ordered_from 0 active ≡ true
      → is_ordered_from 0 (active_at m allowed x rds active) ≡ true
  unfolding active_at
  is_ordered_from-active_at allowed x [] active o = o
  is_ordered_from-active_at allowed x (rd ∷ rds) active o = ground (
    arith,
    is_ordered_from-active_at allowed x rds (activate allowed rd active),
    is_ordered_from-activate allowed rd active o,
  )

  pub is_ordered_from-active_in :
      (dimensions : List (List (Descriptor F))) (allowed : List Rule) (xs : List ℕ)
      (rules : List Rule)
      → is_ordered_from 0 allowed ≡ true
      → active_in m dimensions allowed xs ≡ some rules
      → is_ordered_from 0 rules ≡ true
  unfolding active_in is_ordered_from
  is_ordered_from-active_in [] allowed [] rules o e = ground (arith, o, e)
  is_ordered_from-active_in (boundaries ∷ rest) allowed (x ∷ xs) rules o e = ground (
    arith,
    e,
    is_ordered_from-active_in rest (active_at m allowed x boundaries []) xs rules,
    is_ordered_from-active_at allowed x boundaries [] refl,
  )
  is_ordered_from-active_in _ allowed _ rules o e = absurd (ground (arith, e))
