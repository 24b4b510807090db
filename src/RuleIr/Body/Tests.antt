-- ===== src/RuleIr/Body/Tests.antt =====
-- A loop that spawns, and leaves when a test holds.
use Prim.Native.String.{String}
use petabricks.Base.{◌↔◌, ℕ, ◌+◌, ◌≤◌, ◌≡◌, true, false, Option, some, List, [], refl, ltb}
use petabricks.RuleIr.{
  Expr, Exprs, expr, nil, cons, basic, loop, cond, block, Block, stop, then_do, contains_leaf,
  any_leaf, leaf_in,
}
use petabricks.RuleIr.Meaning.{kind_of, breaks, normal, Cpp, Exec, Rounds, Run}
use petabricks.RuleIr.Expand.{expand_block}
use petabricks.RuleIr.Expand.Correct.{Run-expand_block}
use petabricks.RuleIr.Body.{Line, Gen, print_body}
use petabricks.RuleIr.Body.Machine.{Halts}
use petabricks.RuleIr.Body.Labels.{heads}
use petabricks.RuleIr.Body.Printable.{IsPrintable, IsPrintableBlock}
use petabricks.RuleIr.Body.Total.{print_body-expand_block}
use petabricks.RuleIr.Body.Whole.{expand_block-print_body-Halts}
use petabricks.RuleIr.Body.Scoped.{AllFound, print_body-AllFound}

abbrev word : String → Expr
word s = expr s nil

abbrev breaking : Exprs
breaking = cons (word "break") nil

abbrev spawning : Exprs
spawning = cons (expr "" (cons (word "SPAWN") (cons (word "(f)") nil))) nil

-- `for(int i=0; i<n; ++i) { if(p) break; SPAWN(f); }`, the `if` without braces.
abbrev sample : Block
sample =
    then_do
      (loop (word "int i=0") (word "i<n") (word "++i")
        (block (then_do (cond (word "p") (basic breaking)) (then_do (basic spawning) stop))))
      stop

abbrev start : Gen
start = record { counter = 0; break_targets = []; continue_targets = [] }

-- A state is a number, and each test is whether it is below 3.
abbrev machine : Cpp ℕ
machine = record {
  leaf = λ s σ. (false, σ + 10);
  eval = λ e σ. σ + 1;
  test = λ e σ. (ltb σ 3, σ);
  sync = λ σ. σ + 100;
  uses_continuation = λ σ. true;
  resume = λ σ. σ + 1000;
}

breaking_kind : kind_of breaking ≡ breaks
unfolding kind_of any_leaf contains_leaf
breaking_kind = refl

sample-Run : Run machine sample 0 normal 1
sample-Run =
    Run.next
      (Exec.looping refl (
        Rounds.broken refl
          (Exec.running (Run.jumped (Exec.chosen refl (Exec.breaking breaking_kind)) (λ e. cc)))))
      Run.done

sample-IsPrintableBlock : IsPrintableBlock sample false
unfolding IsPrintable kind_of any_leaf contains_leaf
sample-IsPrintableBlock = ((refl, (tt, tt)), tt)

sample_lines : Option (List Line × Gen)
unfolding print_body expand_block contains_leaf leaf_in
sample_lines = print_body (expand_block sample) start

expand_block-print_body-Halts_example :
    (ls : List Line) × (g' : Gen) × (print_body (expand_block sample) start ≡ some (ls, g'))
    × Halts machine ls ls 0 1
expand_block-print_body-Halts_example =
    expand_block-print_body-Halts machine sample start 0 1 normal (λ e s σ. refl)
      sample-IsPrintableBlock sample-Run

print_body-expand_block_example :
    (r : List Line × Gen) × (print_body (expand_block sample) start ≡ some r)
print_body-expand_block_example = print_body-expand_block sample start sample-IsPrintableBlock

Run-expand_block_example :
    (Run machine sample 0 normal 1) ↔ (Run machine (expand_block sample) 0 normal 1)
Run-expand_block_example = Run-expand_block machine sample 0 1 normal (λ e s σ. refl)

print_body-AllFound_example :
    AllFound
      (print_body-expand_block sample start sample-IsPrintableBlock).0.0
      (print_body-expand_block sample start sample-IsPrintableBlock).0.0
    × ((k : ℕ) → heads k (print_body-expand_block sample start sample-IsPrintableBlock).0.0 ≤ 1)
print_body-AllFound_example =
    print_body-AllFound (expand_block sample) 0
      (print_body-expand_block sample start sample-IsPrintableBlock).0.0
      (print_body-expand_block sample start sample-IsPrintableBlock).0.1
      (print_body-expand_block sample start sample-IsPrintableBlock).1
