-- ===== src/RuleIr/Body/Whole.antt =====
-- The two passes together, from the body of a rule to the functions.
use petabricks.Base.{◌≡◌, false, ◌⊎◌, inl, inr, refl, some, List, false≢true}
use petabricks.RuleIr.{Exprs, Stmt, Block}
use petabricks.RuleIr.Meaning.{
  breaks, continues, kind_of, Signal, normal, broke, continued, returned, Cpp, Exec, Run,
}
use petabricks.RuleIr.Expand.{expand_block}
use petabricks.RuleIr.Expand.Correct.{IgnoresBraces, Run-expand_block}
use petabricks.RuleIr.Body.{Line, Gen, print_body}
use petabricks.RuleIr.Body.Machine.{Halts}
use petabricks.RuleIr.Body.Quiet.{Quiet, Rounds-Quiet}
use petabricks.RuleIr.Body.Printable.{Placed, IsPrintable, IsPrintableBlock}
use petabricks.RuleIr.Body.Total.{print_body-expand_block}
use petabricks.RuleIr.Body.Correct.{print_body-Halts}

Quiet-ends : (sg : Signal) → Quiet sg → (sg ≡ normal) ⊎ (sg ≡ returned)
Quiet-ends normal h = inl refl
Quiet-ends returned h = inr refl
Quiet-ends broke h = absurd h
Quiet-ends continued h = absurd h

Placed-breaks : (es : Exprs) → kind_of es ≡ breaks → Placed (kind_of es) false → ⊥
Placed-breaks es e h = false≢true (rw e at h)

Placed-continues : (es : Exprs) → kind_of es ≡ continues → Placed (kind_of es) false → ⊥
Placed-continues es e h = false≢true (rw e at h)

module _ {S : Type 0} {c : Cpp S} where
  mutual
    unfolding IsPrintable

    Exec-ends :
        {s : Stmt} {σ σ' : S} {sg : Signal} → Exec c s σ sg σ' → IsPrintable s false → Quiet sg
    Exec-ends (Exec.goes_on p q) h = tt
    Exec-ends (Exec.leaves p q) h = tt
    Exec-ends (Exec.breaking {es} p) h = absurd (Placed-breaks es p h)
    Exec-ends (Exec.continuing {es} p) h = absurd (Placed-continues es p h)
    Exec-ends (Exec.syncing p q) h = tt
    Exec-ends (Exec.calling p q r) h = tt
    Exec-ends (Exec.call_leaves p q) h = tt
    Exec-ends (Exec.spawning p q r) h = tt
    Exec-ends (Exec.spawn_leaves p q) h = tt
    Exec-ends (Exec.looping p r) h = Rounds-Quiet r
    Exec-ends (Exec.chosen p d) h = Exec-ends d h
    Exec-ends (Exec.skipped p) h = tt
    Exec-ends (Exec.then_chosen p d) h = Exec-ends d h.0
    Exec-ends (Exec.else_chosen p d) h = Exec-ends d h.1
    Exec-ends (Exec.running r) h = Run-ends r h

    Run-ends :
        {b : Block} {σ σ' : S} {sg : Signal} → Run c b σ sg σ' → IsPrintableBlock b false → Quiet sg
    Run-ends Run.done h = tt
    Run-ends (Run.next d r) h = Run-ends r h.1
    Run-ends (Run.jumped d n) h = Exec-ends d h.0

-- The two passes write functions for each body in which every `break` and `continue` stands in a loop and
-- no `switch` has one of them or a place to wait; and in whatever state the body ends, the functions end
-- in that state. What the text of a `switch` does is not changed by braces around its parts.
pub expand_block-print_body-Halts :
    {S : Type 0} (c : Cpp S) (b : Block) (g : Gen) (σ ρ : S) (sg : Signal)
    → IgnoresBraces c
    → IsPrintableBlock b false
    → Run c b σ sg ρ
    → (ls : List Line) × (g' : Gen) × (print_body (expand_block b) g ≡ some (ls, g'))
      × Halts c ls ls σ ρ
expand_block-print_body-Halts c b g σ ρ sg same p r =
    let ((ls, g'), q) = print_body-expand_block b g p in
    (
      ls,
      g',
      q,
      print_body-Halts c (expand_block b) g ls g' σ ρ sg q ((Run-expand_block c b σ ρ sg same).0 r)
          (Quiet-ends sg (Run-ends r p)),
    )
