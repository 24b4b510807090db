-- ===== src/RuleIr/Expand/Blocks.antt =====
-- After ExpansionPass the parts of loops and conditionals are blocks.
use petabricks.RuleIr.{Stmt, basic, raw, loop, cond, cond_else, switch, block, Block, stop, then_do}
use petabricks.RuleIr.Expand.{scoped, braced, expand_stmt, expand_block}

abbrev pub IsBlock : Stmt → Type 0
IsBlock (block b) = Unit {0}
IsBlock _ = ⊥

-- The parts of a statement are blocks.
unfoldable mutual
  pub HasBlocks : Stmt → Type 0
  HasBlocks (loop d t i s) = IsBlock s × HasBlocks s
  HasBlocks (cond e s) = IsBlock s × HasBlocks s
  HasBlocks (cond_else e s r) = (IsBlock s × HasBlocks s) × (IsBlock r × HasBlocks r)
  HasBlocks (block b) = AllHaveBlocks b
  HasBlocks _ = Unit {0}

  pub AllHaveBlocks : Block → Type 0
  AllHaveBlocks stop = Unit {0}
  AllHaveBlocks (then_do s b) = HasBlocks s × AllHaveBlocks b

braced-IsBlock : (s : Stmt) → IsBlock (braced s)
unfolding braced
braced-IsBlock (block b) = tt
braced-IsBlock _ = tt

scoped-HasBlocks : (s : Stmt) → HasBlocks s → HasBlocks (scoped s)
unfolding scoped HasBlocks
scoped-HasBlocks (loop d t i s) h = (h, tt)
scoped-HasBlocks _ h = h

braced-HasBlocks : (s : Stmt) → HasBlocks s → HasBlocks (braced s)
unfolding braced HasBlocks
braced-HasBlocks (block b) h = h
braced-HasBlocks s h = (scoped-HasBlocks s h, tt)

mutual
  unfolding expand_stmt HasBlocks

  expand_stmt-HasBlocks : (s : Stmt) → HasBlocks (expand_stmt s)
  expand_stmt-HasBlocks (basic es) = tt
  expand_stmt-HasBlocks (raw t) = tt
  expand_stmt-HasBlocks (loop d t i s) =
      (braced-IsBlock _, braced-HasBlocks _ (expand_stmt-HasBlocks s))
  expand_stmt-HasBlocks (cond e s) =
      (braced-IsBlock _, braced-HasBlocks _ (expand_stmt-HasBlocks s))
  expand_stmt-HasBlocks (cond_else e s r) = (
    (braced-IsBlock _, braced-HasBlocks _ (expand_stmt-HasBlocks s)),
    (braced-IsBlock _, braced-HasBlocks _ (expand_stmt-HasBlocks r)),
  )
  expand_stmt-HasBlocks (switch e s) = tt
  expand_stmt-HasBlocks (block b) = expand_block-HasBlocks b

  pub expand_block-HasBlocks : (b : Block) → AllHaveBlocks (expand_block b)
  expand_block-HasBlocks stop = tt
  expand_block-HasBlocks (then_do s b) =
      (scoped-HasBlocks _ (expand_stmt-HasBlocks s), expand_block-HasBlocks b)
