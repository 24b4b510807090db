-- ===== src/RuleIr/Body/Total.antt =====
-- No assertion of the pass fails on a body that it can write.
use Prim.Native.String.{String}
use petabricks.Base.{
  ◌≡◌, Bool, true, false, some, List, [], ◌∷◌, refl, sym, if◌then◌else◌, subst, false≢true,
}
use petabricks.RuleIr.{
  Expr, Stmt, basic, raw, loop, cond, cond_else, switch, block, Block, stop, then_do,
}
use petabricks.RuleIr.Meaning.{Kind, breaks, continues, syncs, calls, spawns, plain, kind_of}
use petabricks.RuleIr.Expand.{expand_block}
use petabricks.RuleIr.Body.{
  Name, Line, Gen, Writer, ◌>>◌, write, stmt_text, comment, continue_jump, jump_last, jump_break,
  jump_continue, print_kind, needs_expansion, expand_cond, expand_cond_else, expand_loop,
  print_stmt, print_extracted, print_block, print_body,
}
use petabricks.RuleIr.Body.Shapes.{in_loop, in_cond}
use petabricks.RuleIr.Body.Labels.{Grows, print_stmt-Grows, print_extracted-Grows}
use petabricks.RuleIr.Expand.Blocks.{IsBlock, HasBlocks, AllHaveBlocks, expand_block-HasBlocks}
use petabricks.RuleIr.Body.Printable.{
  Placed, IsPrintable, IsPrintableBlock, expand_block-IsPrintable,
}

abbrev NonEmpty : List Name → Type 0
NonEmpty [] = ⊥
NonEmpty (n ∷ ns) = Unit {0}

-- In a loop there are targets.
abbrev HasTargets : Gen → Bool → Type 0
HasTargets g true = NonEmpty g.break_targets × NonEmpty g.continue_targets
HasTargets g false = Unit {0}

abbrev Total : Writer → Bool → Type 0
Total m in_loop = (g : Gen) → HasTargets g in_loop → (r : List Line × Gen) × (m g ≡ some r)

Grows-HasTargets :
    (g : Gen) (ls : List Line) (g' : Gen) (in_loop : Bool)
    → Grows g ls g'
    → HasTargets g in_loop
    → HasTargets g' in_loop
Grows-HasTargets g ls g' true w t =
    (subst NonEmpty (sym w.breaks_kept) t.0, subst NonEmpty (sym w.continues_kept) t.1)
Grows-HasTargets g ls g' false w t = tt

Targets-in_cond : (g : Gen) (in_loop : Bool) → HasTargets g in_loop → HasTargets (in_cond g) in_loop
Targets-in_cond g true t = t
Targets-in_cond g false t = t

jump_last-Total :
    (ns : List Name) (g : Gen) → NonEmpty ns → (r : List Line × Gen) × (jump_last ns g ≡ some r)
unfolding jump_last continue_jump
jump_last-Total [] g h = absurd h
jump_last-Total (n ∷ ns) g h = (_, refl)

print_kind-Total :
    (κ : Kind) (s : Stmt) (in_loop : Bool) → Placed κ in_loop → Total (print_kind κ s) in_loop
unfolding print_kind jump_break jump_continue
print_kind-Total breaks s true h g t =
    let ((ls, g'), q) = jump_last-Total g.break_targets g t.0 in rw q (_, refl)
print_kind-Total breaks s false h g t = absurd (false≢true h)
print_kind-Total continues s true h g t =
    let ((ls, g'), q) = jump_last-Total g.continue_targets g t.1 in rw q (_, refl)
print_kind-Total continues s false h g t = absurd (false≢true h)
print_kind-Total syncs s in_loop h g t = (_, refl)
print_kind-Total calls s in_loop h g t = (_, refl)
print_kind-Total spawns s in_loop h g t = (_, refl)
print_kind-Total plain s in_loop h g t = (_, refl)

expand_loop-Total :
    (d t i : Expr) (body : Writer) (in_loop : Bool)
    → Total body true
    → Total (expand_loop d t i body) in_loop
unfolding expand_loop
expand_loop-Total d t i body l h g _ = let ((ls, g'), q) = h (in_loop g) (tt, tt) in rw q (_, refl)

expand_cond-Total :
    (e : Expr) (part : Writer) (in_loop : Bool)
    → Total part in_loop
    → Total (expand_cond e part) in_loop
unfolding expand_cond
expand_cond-Total e part l h g t =
    let ((ls, g'), q) = h (in_cond g) (Targets-in_cond g l t) in rw q (_, refl)

expand_cond_else-Total :
    (e : Expr) (part other : Writer) (in_loop : Bool)
    → ((g : Gen) (ls : List Line) (g' : Gen) → part g ≡ some (ls, g') → Grows g ls g')
    → Total part in_loop
    → Total other in_loop
    → Total (expand_cond_else e part other) in_loop
unfolding expand_cond_else
expand_cond_else-Total e part other l w h k g t =
    let t' = Targets-in_cond g l t in
    let ((ls, g₁), q) = h (in_cond g) t' in
    let ((ls', g₂), q') = k g₁ (Grows-HasTargets (in_cond g) ls g₁ l (w (in_cond g) ls g₁ q) t') in
    rw (q, q') (_, refl)

choice-Total :
    (b : Bool) (m : Writer) (s : Stmt) (in_loop : Bool)
    → Total m in_loop
    → Total (if b then m else write (stmt_text s)) in_loop
choice-Total true m s l h = h
choice-Total false m s l h = λ g t. (_, refl)

comment-Total :
    (t : String) (k : Writer) (in_loop : Bool)
    → Total k in_loop
    → Total (write (comment t) >> k) in_loop
comment-Total t k l h = λ g u. let ((ls, g'), q) = h g u in rw q (_, refl)

mutual
  unfolding print_stmt HasBlocks IsPrintable

  print_stmt-Total :
      (s : Stmt) (in_loop : Bool)
      → HasBlocks s
      → IsPrintable s in_loop
      → Total (print_stmt s) in_loop
  print_stmt-Total (basic es) l b p = print_kind-Total (kind_of es) (basic es) l p
  print_stmt-Total (raw t) l b p = λ g t'. (_, refl)
  print_stmt-Total (loop d t i s) l b p =
      choice-Total (needs_expansion (loop d t i s)) (expand_loop d t i (print_extracted s))
        (loop d t i s) l
        (expand_loop-Total d t i (print_extracted s) l (print_extracted-Total s true b.0 b.1 p))
  print_stmt-Total (cond e s) l b p =
      choice-Total (needs_expansion (cond e s)) (expand_cond e (print_extracted s)) (cond e s) l
        (expand_cond-Total e (print_extracted s) l (print_extracted-Total s l b.0 b.1 p))
  print_stmt-Total (cond_else e s r) l b p =
      choice-Total (needs_expansion (cond_else e s r))
        (expand_cond_else e (print_extracted s) (print_extracted r)) (cond_else e s r) l
        (expand_cond_else-Total e (print_extracted s) (print_extracted r) l
          (print_extracted-Grows s) (print_extracted-Total s l b.0.0 b.0.1 p.0)
          (print_extracted-Total r l b.1.0 b.1.1 p.1))
  print_stmt-Total (switch e s) l b p = λ g t. rw p (_, refl)
  print_stmt-Total (block x) l b p =
      choice-Total (needs_expansion (block x))
        (write (comment "expanded block statement") >> print_block x) (block x) l
        (comment-Total "expanded block statement" (print_block x) l (print_block-Total x l b p))

  print_extracted-Total :
      (s : Stmt) (in_loop : Bool)
      → IsBlock s
      → HasBlocks s
      → IsPrintable s in_loop
      → Total (print_extracted s) in_loop
  print_extracted-Total (block x) l i b p = print_block-Total x l b p
  print_extracted-Total _ l i b p = absurd i

  print_block-Total :
      (b : Block) (in_loop : Bool)
      → AllHaveBlocks b
      → IsPrintableBlock b in_loop
      → Total (print_block b) in_loop
  print_block-Total stop l b p = λ g t. (_, refl)
  print_block-Total (then_do s x) l b p = λ g t.
      let ((ls, g₁), q) = print_stmt-Total s l b.0 p.0 g t in
      let ((ls', g₂), q') =
        print_block-Total x l b.1 p.1 g₁
          (Grows-HasTargets g ls g₁ l (print_stmt-Grows s g ls g₁ q) t) in
      rw (q, q') (_, refl)

-- The pass writes each body that ExpansionPass has gone over, where each `break` and `continue` stands in
-- a loop and no `switch` has one of them or a place to wait: no assertion fails.
pub print_body-expand_block :
    (b : Block) (g : Gen)
    → IsPrintableBlock b false
    → (r : List Line × Gen) × (print_body (expand_block b) g ≡ some r)
unfolding print_body
print_body-expand_block b g p =
    let ((ls, g'), q) =
      print_block-Total (expand_block b) false (expand_block-HasBlocks b)
        (expand_block-IsPrintable b false p) g tt in
    rw q (_, refl)
