-- ===== src/RuleIr/Body/Printable.antt =====
-- The bodies that the pass can write, which braces do not change.
use Prim.Native.String.{String}
use petabricks.Base.{◌≡◌, Bool, true, false, refl, ◌∙◌, arith}
use petabricks.RuleIr.{
  Stmt, basic, raw, loop, cond, cond_else, switch, block, Block, stop, then_do, leaf_in,
  leaf_in_block,
}
use petabricks.RuleIr.Meaning.{Kind, breaks, continues, kind_of}
use petabricks.RuleIr.Expand.{scoped, braced, expand_stmt, expand_block}
use petabricks.RuleIr.Body.{needs_expansion}
use petabricks.RuleIr.Body.Shapes.{in_loop}

-- A `break` or `continue` stands in a loop.
abbrev pub Placed : Kind → Bool → Type 0
Placed breaks in_loop = in_loop ≡ true
Placed continues in_loop = in_loop ≡ true
Placed _ in_loop = Unit {0}

-- Each `break` and `continue` of a statement stands in a loop, and no `switch` has one of them or a place
-- to wait.
unfoldable mutual
  pub IsPrintable : Stmt → Bool → Type 0
  IsPrintable (basic es) in_loop = Placed (kind_of es) in_loop
  IsPrintable (raw t) in_loop = Unit {0}
  IsPrintable (loop d t i s) in_loop = IsPrintable s true
  IsPrintable (cond e s) in_loop = IsPrintable s in_loop
  IsPrintable (cond_else e s r) in_loop = IsPrintable s in_loop × IsPrintable r in_loop
  IsPrintable (switch e s) in_loop = needs_expansion (switch e s) ≡ false
  IsPrintable (block b) in_loop = IsPrintableBlock b in_loop

  pub IsPrintableBlock : Block → Bool → Type 0
  IsPrintableBlock stop in_loop = Unit {0}
  IsPrintableBlock (then_do s b) in_loop = IsPrintable s in_loop × IsPrintableBlock b in_loop

scoped-IsPrintable :
    (s : Stmt) (in_loop : Bool) → IsPrintable s in_loop → IsPrintable (scoped s) in_loop
unfolding scoped IsPrintable
scoped-IsPrintable (loop d t i s) in_loop h = (h, tt)
scoped-IsPrintable _ in_loop h = h

braced-IsPrintable :
    (s : Stmt) (in_loop : Bool) → IsPrintable s in_loop → IsPrintable (braced s) in_loop
unfolding braced IsPrintable
braced-IsPrintable (block b) in_loop h = h
braced-IsPrintable s in_loop h = (scoped-IsPrintable s in_loop h, tt)

leaf_in-scoped : (s : Stmt) (val : String) → leaf_in (scoped s) val ≡ leaf_in s val
unfolding scoped leaf_in
leaf_in-scoped (loop d t i s) val = ground arith
leaf_in-scoped _ val = refl

leaf_in-braced : (s : Stmt) (val : String) → leaf_in (braced s) val ≡ leaf_in s val
unfolding braced leaf_in
leaf_in-braced (block b) val = refl
leaf_in-braced s val = ground (arith, leaf_in-scoped s val)

-- The braces hide no word of a body.
mutual
  unfolding expand_stmt leaf_in

  leaf_in-expand_stmt : (s : Stmt) (val : String) → leaf_in (expand_stmt s) val ≡ leaf_in s val
  leaf_in-expand_stmt (basic es) val = refl
  leaf_in-expand_stmt (raw t) val = refl
  leaf_in-expand_stmt (loop d t i s) val =
      rw (leaf_in-braced (expand_stmt s) val, leaf_in-expand_stmt s val) refl
  leaf_in-expand_stmt (cond e s) val =
      rw (leaf_in-braced (expand_stmt s) val, leaf_in-expand_stmt s val) refl
  leaf_in-expand_stmt (cond_else e s r) val =
      rw
        (
          leaf_in-braced (expand_stmt s) val,
          leaf_in-expand_stmt s val,
          leaf_in-braced (expand_stmt r) val,
          leaf_in-expand_stmt r val,
        )
        refl
  leaf_in-expand_stmt (switch e s) val =
      rw (leaf_in-braced (expand_stmt s) val, leaf_in-expand_stmt s val) refl
  leaf_in-expand_stmt (block b) val = leaf_in-expand_block b val

  leaf_in-expand_block :
      (b : Block) (val : String) → leaf_in_block (expand_block b) val ≡ leaf_in_block b val
  leaf_in-expand_block stop val = refl
  leaf_in-expand_block (then_do s b) val =
      rw (leaf_in-scoped (expand_stmt s) val, leaf_in-expand_stmt s val, leaf_in-expand_block b val)
        refl

needs-expand_stmt : (s : Stmt) → needs_expansion (expand_stmt s) ≡ needs_expansion s
unfolding needs_expansion
needs-expand_stmt s =
    rw
      (
        leaf_in-expand_stmt s "SYNC",
        leaf_in-expand_stmt s "CALL",
        leaf_in-expand_stmt s "SPAWN",
        leaf_in-expand_stmt s "break",
        leaf_in-expand_stmt s "continue",
      )
      refl

mutual
  unfolding expand_stmt IsPrintable

  expand_stmt-IsPrintable :
      (s : Stmt) (in_loop : Bool) → IsPrintable s in_loop → IsPrintable (expand_stmt s) in_loop
  expand_stmt-IsPrintable (basic es) in_loop h = h
  expand_stmt-IsPrintable (raw t) in_loop h = tt
  expand_stmt-IsPrintable (loop d t i s) in_loop h =
      braced-IsPrintable (expand_stmt s) true (expand_stmt-IsPrintable s true h)
  expand_stmt-IsPrintable (cond e s) in_loop h =
      braced-IsPrintable (expand_stmt s) in_loop (expand_stmt-IsPrintable s in_loop h)
  expand_stmt-IsPrintable (cond_else e s r) in_loop h = (
    braced-IsPrintable (expand_stmt s) in_loop (expand_stmt-IsPrintable s in_loop h.0),
    braced-IsPrintable (expand_stmt r) in_loop (expand_stmt-IsPrintable r in_loop h.1),
  )
  expand_stmt-IsPrintable (switch e s) in_loop h = needs-expand_stmt (switch e s) ∙ h
  expand_stmt-IsPrintable (block b) in_loop h = expand_block-IsPrintable b in_loop h

  pub expand_block-IsPrintable :
      (b : Block) (in_loop : Bool)
      → IsPrintableBlock b in_loop
      → IsPrintableBlock (expand_block b) in_loop
  expand_block-IsPrintable stop in_loop h = tt
  expand_block-IsPrintable (then_do s b) in_loop h = (
    scoped-IsPrintable (expand_stmt s) in_loop (expand_stmt-IsPrintable s in_loop h.0),
    expand_block-IsPrintable b in_loop h.1,
  )
