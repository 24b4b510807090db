-- ===== src/RuleIr/Expand.antt =====
-- ExpansionPass of compiler/rircompilerpass.cpp, as it puts braces around the parts of conditionals and
-- loops and around loops. What it does to expressions, and to loops that are `for_enough`, is left out.
pub mod Correct
pub mod Blocks
use petabricks.RuleIr.{Stmt, basic, raw, loop, cond, cond_else, switch, block, Block, stop, then_do}

-- A loop gets a block of its own, `outer_for_scope`.
unfoldable pub scoped : Stmt → Stmt
scoped (loop d t i s) = block (then_do (loop d t i s) stop)
scoped s = s

-- A statement whose parent is a loop, a conditional or a switch gets braces, and then its parent is a
-- block.
unfoldable pub braced : Stmt → Stmt
unfolding scoped
braced (block b) = block b
braced s = block (then_do (scoped s) stop)

-- A statement after its own parts, which does not depend on its parent.
unfoldable mutual
  unfolding braced scoped

  pub expand_stmt : Stmt → Stmt
  expand_stmt (basic es) = basic es
  expand_stmt (raw t) = raw t
  expand_stmt (loop d t i s) = loop d t i (braced (expand_stmt s))
  expand_stmt (cond e s) = cond e (braced (expand_stmt s))
  expand_stmt (cond_else e s r) = cond_else e (braced (expand_stmt s)) (braced (expand_stmt r))
  expand_stmt (switch e s) = switch e (braced (expand_stmt s))
  expand_stmt (block b) = block (expand_block b)

  pub expand_block : Block → Block
  expand_block stop = stop
  expand_block (then_do s b) = then_do (scoped (expand_stmt s)) (expand_block b)
