-- ===== src/RuleIr/Body/Machine.antt =====
-- How the functions that the pass writes run.
use Prim.Native.String.{String}
use petabricks.Base.{true, false, ◌≡◌, Option, none, some, List, [], ◌∷◌, if◌then◌else◌}
use petabricks.RuleIr.{Expr, Stmt}
use petabricks.RuleIr.Meaning.{normal, returned, Cpp, Exec, is_leaf}
use petabricks.RuleIr.Body.{
  Name, same_name, Line, comment, stmt_text, expr_text, begin_if_not, begin_if_continuation,
  else_line, end_if, return_call, return_task, return_hook, return_void, begin_func,
}

-- The lines after the head of a function.
unfoldable pub find : Name → List Line → Option (List Line)
unfolding same_name
find n [] = none
find n (begin_func m ∷ ls) = let rest = find n ls in if same_name m n then some ls else rest
find n (_ ∷ ls) = find n ls

-- The lines after the end of an `if`, or after its `else`.
unfoldable pub after_if : List Line → List Line
after_if [] = []
after_if (end_if ∷ ls) = ls
after_if (else_line ∷ ls) = ls
after_if (_ ∷ ls) = after_if ls

module _ {S : Type 0} (c : Cpp S) (program : List Line) where
  -- `Halts ls σ ρ`: from the lines `ls` in the state `σ`, the rule's task comes to its end in `ρ`. The
  -- text of a statement does what the statement does; that of a basic one waits for nothing.
  pub data Halts : List Line → S → S → Type 0 where
    comments : {t : String} {ls : List Line} {σ ρ : S} → Halts ls σ ρ → Halts (comment t ∷ ls) σ ρ
    leaf_on :
        {s : Stmt} {ls : List Line} {σ σ₁ ρ : S}
        → is_leaf s ≡ true
        → c.leaf s σ ≡ (false, σ₁)
        → Halts ls σ₁ ρ
        → Halts (stmt_text s ∷ ls) σ ρ
    leaf_out :
        {s : Stmt} {ls : List Line} {σ ρ : S}
        → is_leaf s ≡ true
        → c.leaf s σ ≡ (true, ρ)
        → Halts (stmt_text s ∷ ls) σ ρ
    inner_on :
        {s : Stmt} {ls : List Line} {σ σ₁ ρ : S}
        → is_leaf s ≡ false
        → Exec c s σ normal σ₁
        → Halts ls σ₁ ρ
        → Halts (stmt_text s ∷ ls) σ ρ
    inner_out :
        {s : Stmt} {ls : List Line} {σ ρ : S}
        → is_leaf s ≡ false
        → Exec c s σ returned ρ
        → Halts (stmt_text s ∷ ls) σ ρ
    evals :
        {e : Expr} {ls : List Line} {σ σ₁ ρ : S}
        → c.eval e σ ≡ σ₁
        → Halts ls σ₁ ρ
        → Halts (expr_text e ∷ ls) σ ρ
    if_entered :
        {e : Expr} {ls : List Line} {σ σ₁ ρ : S}
        → c.test e σ ≡ (false, σ₁)
        → Halts ls σ₁ ρ
        → Halts (begin_if_not e ∷ ls) σ ρ
    if_passed :
        {e : Expr} {ls : List Line} {σ σ₁ ρ : S}
        → c.test e σ ≡ (true, σ₁)
        → Halts (after_if ls) σ₁ ρ
        → Halts (begin_if_not e ∷ ls) σ ρ
    continuation_used :
        {ls : List Line} {σ ρ : S}
        → c.uses_continuation σ ≡ true
        → Halts ls σ ρ
        → Halts (begin_if_continuation ∷ ls) σ ρ
    continuation_unused :
        {ls : List Line} {σ ρ : S}
        → c.uses_continuation σ ≡ false
        → Halts (after_if ls) σ ρ
        → Halts (begin_if_continuation ∷ ls) σ ρ
    if_ends : {ls : List Line} {σ ρ : S} → Halts ls σ ρ → Halts (end_if ∷ ls) σ ρ
    calls :
        {n : Name} {ls ls' : List Line} {σ ρ : S}
        → find n program ≡ some ls'
        → Halts ls' σ ρ
        → Halts (return_call n ∷ ls) σ ρ
    task_runs :
        {n : Name} {ls ls' : List Line} {σ σ₁ ρ : S}
        → find n program ≡ some ls'
        → c.resume σ ≡ σ₁
        → Halts ls' σ₁ ρ
        → Halts (return_task n ∷ ls) σ ρ
    hook_runs :
        {n : Name} {ls ls' : List Line} {σ σ₁ ρ : S}
        → find n program ≡ some ls'
        → c.sync σ ≡ σ₁
        → Halts ls' σ₁ ρ
        → Halts (return_hook n ∷ ls) σ ρ
    halts : {ls : List Line} {σ : S} → Halts (return_void ∷ ls) σ σ
