-- ===== src/ChoiceGrid/Tests.antt =====
-- The theorems about choice grids at a grid of two dimensions.
use petabricks.Base.{ℕ, ◌≡◌, refl, true, false, ◌&&◌, some, List, [], ◌∷◌, ◌==◌}
use petabricks.ChoiceGrid.{
  Rule, rank_of, comes_before, has_rule, put_rule, insert_rule, erase_rule, priorities_after,
  apply_rule_priorities, Maxima, Descriptor, activate, sweep, construct_from,
}
use petabricks.ChoiceGrid.Active.{turns_of, is_sorted_from}
use petabricks.ChoiceGrid.Correct.{
  is_in_box, HasBox, construct_from-wanted_of, construct_from-locate,
}
use petabricks.ChoiceGrid.Locate.{locate, active_in}
use petabricks.ChoiceGrid.Priorities.{is_ordered_from, wanted_of}

-- Formulas that are numbers.
abbrev numbers : Maxima ℕ
numbers = record {
  zero_formula = 0;
  one_formula = 1;
  value = λ p. p;
  is_same = λ p q. p == q;
  value_zero = refl;
  is_same_lem = λ p q. refl;
}

abbrev first_rule : Rule
first_rule = record { id = 1; priority = 1; has_where_clause = false }

abbrev second_rule : Rule
second_rule = record { id = 2; priority = 2; has_where_clause = false }

abbrev begins : Rule → ℕ → Descriptor ℕ
begins r p = record { is_begin = true; rule = r; position = p }

abbrev ends : Rule → ℕ → Descriptor ℕ
ends r p = record { is_begin = false; rule = r; position = p }

-- The second rule has all of a matrix of 4 by 2, the first its two inner columns.
abbrev columns : List (Descriptor ℕ)
columns = begins second_rule 0 ∷ begins first_rule 1 ∷ ends first_rule 3 ∷ ends second_rule 4 ∷ []

abbrev rows : List (Descriptor ℕ)
rows = begins second_rule 0 ∷ begins first_rule 0 ∷ ends second_rule 2 ∷ ends first_rule 2 ∷ []

abbrev both_rules : List Rule
both_rules = first_rule ∷ second_rule ∷ []

abbrev matrix : List (List (Descriptor ℕ))
matrix = columns ∷ rows ∷ []

abbrev whole : List (ℕ × ℕ)
whole = (0, 4) ∷ (0, 2) ∷ []

matrix-HasBox : HasBox numbers 2 matrix whole
unfolding HasBox turns_of is_sorted_from
matrix-HasBox = (refl, refl, (refl, refl, tt))

located_inside :
    locate numbers (construct_from numbers matrix both_rules) (2 ∷ 1 ∷ []) ≡ some (first_rule ∷ [])
unfolding locate construct_from sweep activate has_rule insert_rule put_rule comes_before rank_of
    erase_rule apply_rule_priorities priorities_after
located_inside = refl

located_outside :
    locate numbers (construct_from numbers matrix both_rules) (3 ∷ 1 ∷ []) ≡ some (second_rule ∷ [])
unfolding locate construct_from sweep activate has_rule insert_rule put_rule comes_before rank_of
    erase_rule apply_rule_priorities priorities_after
located_outside = refl

both_rules_ordered : is_ordered_from 0 both_rules ≡ true
unfolding is_ordered_from rank_of
both_rules_ordered = refl

in_whole : is_in_box whole (2 ∷ 1 ∷ []) ≡ true
unfolding is_in_box
in_whole = refl

construct_from-wanted_of_example :
    (rules : List Rule) × (active_in numbers matrix both_rules (2 ∷ 1 ∷ []) ≡ some rules)
    × (has_rule 2 rules ≡ (has_rule 2 both_rules && is_in_box whole (2 ∷ 1 ∷ [])))
    × (first_rule ∷ [] ≡ wanted_of rules rules)
construct_from-wanted_of_example =
    construct_from-wanted_of numbers matrix both_rules (2 ∷ 1 ∷ []) 2 whole (first_rule ∷ []) refl
      both_rules_ordered matrix-HasBox located_inside

construct_from-locate_example :
    (found : List Rule) × (locate numbers (construct_from numbers matrix both_rules) (2 ∷ 1 ∷ [])
      ≡ some found)
construct_from-locate_example =
    construct_from-locate numbers matrix both_rules (2 ∷ 1 ∷ []) 2 whole refl matrix-HasBox in_whole
