-- ===== src/ChoiceGrid.antt =====
-- compiler/choicegrid.cpp: the division of a matrix into regions that the same rules can compute, with
-- the rules' order and descriptors of compiler/rule.h and rule.cpp. Maxima, which compares formulas, is
-- a parameter. A set of rules is the list of its elements in the order of `RulePriCmp`; a rule is known
-- by its id.
pub mod Priorities
pub mod Locate
pub mod Active
pub mod Order
pub mod Correct
mod Tests
use petabricks.Base.{
  ℕ, ◌+◌, ◌*◌, ◌≡◌, Bool, true, false, not, ◌&&◌, ◌||◌, List, [], ◌∷◌, ltb, ◌==◌, if◌then◌else◌,
}

pub record Rule : Type 0 where
  pub id : ℕ
  pub priority : ℕ
  pub has_where_clause : Bool

-- The number that `RulePriCmp` compares, and one more, since the source's can be -1.
unfoldable pub rank_of : Rule → ℕ
rank_of r = r.priority * 2 + (if r.has_where_clause then 0 else 1)

unfoldable pub comes_before : Rule → Rule → Bool
unfolding rank_of
comes_before r s = if rank_of r == rank_of s then ltb r.id s.id else ltb (rank_of r) (rank_of s)

-- `find` in a set.
unfoldable pub has_rule : ℕ → List Rule → Bool
has_rule i [] = false
has_rule i (r ∷ rs) = r.id == i || has_rule i rs

unfoldable pub put_rule : Rule → List Rule → List Rule
unfolding comes_before
put_rule r [] = r ∷ []
put_rule r (s ∷ rs) =
    let rest = put_rule r rs in if comes_before r s then r ∷ (s ∷ rs) else s ∷ rest

-- `insert` and `erase`
unfoldable pub insert_rule : Rule → List Rule → List Rule
unfolding has_rule put_rule
insert_rule r rs = if has_rule r.id rs then rs else put_rule r rs

unfoldable pub erase_rule : Rule → List Rule → List Rule
erase_rule r [] = []
erase_rule r (s ∷ rs) = let rest = erase_rule r rs in if s.id == r.id then rest else s ∷ rest

-- `applyRulePriorities`, with the rule before.
unfoldable pub priorities_after : Rule → List Rule → List Rule
priorities_after l [] = []
priorities_after l (r ∷ rs) =
    let rest = priorities_after r rs in
    if ltb l.priority r.priority && not l.has_where_clause then [] else r ∷ rest

unfoldable pub apply_rule_priorities : List Rule → List Rule
unfolding priorities_after
apply_rule_priorities [] = []
apply_rule_priorities (r ∷ rs) = r ∷ priorities_after r rs

-- What the source asks of Maxima: whether two positions are the same. It answers by their values.
pub record Maxima (F : Type 0) : Type 0 where
  pub zero_formula : F
  pub one_formula : F
  pub value : F → ℕ
  pub is_same : F → F → Bool
  pub value_zero : value zero_formula ≡ 0
  pub is_same_lem : (p q : F) → is_same p q ≡ (value p == value q)

-- `RuleDescriptor`: where the region of a rule begins or ends in a dimension.
pub record Descriptor (F : Type 0) : Type 0 where
  pub is_begin : Bool
  pub rule : Rule
  pub position : F

-- `ChoiceGrid`: an element with its begin, end and rules, what it is in the next dimension, and the next
-- element; a root that has a begin and nothing else yet; or a null pointer.
pub data Grid (F : Type 0) : Type 0 where
  nothing : Grid F
  unfinished : F → Grid F
  element : F → F → List Rule → Grid F → Grid F → Grid F

-- The rules that are active after a descriptor.
unfoldable pub activate : {F : Type 0} → List Rule → Descriptor F → List Rule → List Rule
unfolding has_rule insert_rule erase_rule
activate allowed rd active =
    if has_rule rd.rule.id allowed
    then if rd.is_begin then insert_rule rd.rule active else erase_rule rd.rule active
    else active

module _ {F : Type 0} (m : Maxima F) where
  -- The loop of `constructFrom` over the boundaries, from the element that begins at `begin`, which is
  -- the root or not; `finish` gives an element its rules and what it is in the next dimension. An
  -- element is linked to the one before when it is finished.
  unfoldable pub sweep :
      (List Rule → List Rule × Grid F)
      → List Rule
      → Bool
      → List (Descriptor F)
      → F
      → List Rule
      → Grid F
  unfolding activate
  sweep finish allowed true [] begin active = unfinished begin
  sweep finish allowed false [] begin active = nothing
  sweep finish allowed is_root (rd ∷ rds) begin active =
      let same_element = sweep finish allowed is_root rds begin (activate allowed rd active) in
      let next_element = sweep finish allowed false rds rd.position (activate allowed rd active) in
      if m.is_same rd.position begin
      then same_element
      else element begin rd.position (finish active).0 (finish active).1 next_element

  unfoldable pub construct_from : List (List (Descriptor F)) → List Rule → Grid F
  unfolding sweep apply_rule_priorities
  construct_from [] allowed =
      element m.zero_formula m.one_formula (apply_rule_priorities allowed) nothing nothing
  construct_from (boundaries ∷ []) allowed =
      sweep (λ active. (apply_rule_priorities active, nothing)) allowed true boundaries
        m.zero_formula []
  construct_from (boundaries ∷ (next ∷ rest)) allowed =
      sweep (λ active. (active, construct_from (next ∷ rest) active)) allowed true boundaries
        m.zero_formula []
