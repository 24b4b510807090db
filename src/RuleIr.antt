-- ===== src/RuleIr.antt =====
-- compiler/ruleir.h: the tree of a rule's body. A statement has the parts that the passes and the
-- printer read: one expression for a condition or a switch, three for a loop. Annotations are left out,
-- and with them the loops `for_enough`, which ExpansionPass turns into these.
pub mod Meaning
pub mod Expand
pub mod Body
use Prim.Native.String.{String}
use text.Mathlib.Text.{◌==◌}
use petabricks.Base.{Bool, true, false, ◌||◌}

-- `RIRExpr`: its text and its parts.
mutual
  pub data Expr : Type 0 where
    expr : String → Exprs → Expr

  pub data Exprs : Type 0 where
    nil : Exprs
    cons : Expr → Exprs → Exprs

-- `RIRBasicStmt`, `RIRRawStmt`, `RIRLoopStmt` with declaration, test, increment and body, `RIRIfStmt`
-- without and with an else part, `RIRSwitchStmt`, `RIRBlockStmt`; and `RIRBlock`.
mutual
  pub data Stmt : Type 0 where
    basic : Exprs → Stmt
    raw : String → Stmt
    loop : Expr → Expr → Expr → Stmt → Stmt
    cond : Expr → Stmt → Stmt
    cond_else : Expr → Stmt → Stmt → Stmt
    switch : Expr → Stmt → Stmt
    block : Block → Stmt

  pub data Block : Type 0 where
    stop : Block
    then_do : Stmt → Block → Block

unfoldable mutual
  pub contains_leaf : Expr → String → Bool
  contains_leaf (expr s nil) val = s == val
  contains_leaf (expr s (cons p ps)) val = contains_leaf p val || any_leaf ps val

  pub any_leaf : Exprs → String → Bool
  any_leaf nil val = false
  any_leaf (cons p ps) val = contains_leaf p val || any_leaf ps val

unfoldable mutual
  pub leaf_in : Stmt → String → Bool
  leaf_in (basic es) val = any_leaf es val
  leaf_in (raw t) val = false
  leaf_in (loop d t i s) val =
      (contains_leaf d val || (contains_leaf t val || contains_leaf i val)) || leaf_in s val
  leaf_in (cond e s) val = contains_leaf e val || leaf_in s val
  leaf_in (cond_else e s r) val = contains_leaf e val || (leaf_in s val || leaf_in r val)
  leaf_in (switch e s) val = contains_leaf e val || leaf_in s val
  leaf_in (block b) val = leaf_in_block b val

  pub leaf_in_block : Block → String → Bool
  leaf_in_block stop val = false
  leaf_in_block (then_do s b) val = leaf_in s val || leaf_in_block b val
