-- ===== src/RuleIr/Expand/Correct.antt =====
-- The braces change nothing that a body does.
use petabricks.Base.{◌↔◌, sym, ◌≡◌, true, refl, ◌∙◌, false≢true}
use petabricks.RuleIr.{
  Expr, Stmt, basic, raw, loop, cond, cond_else, switch, block, Block, stop, then_do,
}
use petabricks.RuleIr.Meaning.{Signal, Cpp, Exec, Rounds, Run, is_plain}
use petabricks.RuleIr.Expand.{scoped, braced, expand_stmt, expand_block}

-- The braces around the parts of a switch do not change what its text does.
abbrev pub IgnoresBraces : {S : Type 0} → Cpp S → Type 0
IgnoresBraces {S} c =
    (e : Expr) (s : Stmt) (σ : S)
    → c.leaf (switch e (braced (expand_stmt s))) σ ≡ c.leaf (switch e s) σ

plain-expand_stmt :
    {S : Type 0} (c : Cpp S) (s : Stmt) (σ : S)
    → IgnoresBraces c
    → is_plain s ≡ true
    → (is_plain (expand_stmt s) ≡ true) × (c.leaf (expand_stmt s) σ ≡ c.leaf s σ)
unfolding expand_stmt is_plain
plain-expand_stmt c (basic es) σ same p = (p, refl)
plain-expand_stmt c (raw t) σ same p = (refl, refl)
plain-expand_stmt c (switch e s) σ same p = (refl, same e s σ)
plain-expand_stmt c _ σ same p = absurd (false≢true p)

module _ {S : Type 0} {c : Cpp S} where
  Run-single :
      {s : Stmt} {σ σ' : S} {sg : Signal} → Exec c s σ sg σ' → Run c (then_do s stop) σ sg σ'
  Run-single {sg = Signal.normal} d = Run.next d Run.done
  Run-single {sg = Signal.broke} d = Run.jumped d (λ e. cc)
  Run-single {sg = Signal.continued} d = Run.jumped d (λ e. cc)
  Run-single {sg = Signal.returned} d = Run.jumped d (λ e. cc)

  Exec-scoped : (s : Stmt) {σ σ' : S} {sg : Signal} → Exec c s σ sg σ' → Exec c (scoped s) σ sg σ'
  unfolding scoped
  Exec-scoped (loop d t i s) x = Exec.running (Run-single x)
  Exec-scoped _ x = x

  Exec-braced : (s : Stmt) {σ σ' : S} {sg : Signal} → Exec c s σ sg σ' → Exec c (braced s) σ sg σ'
  unfolding braced scoped
  Exec-braced (block b) x = x
  Exec-braced (loop d t i s) x = Exec.running (Run-single (Exec.running (Run-single x)))
  Exec-braced _ x = Exec.running (Run-single x)

  mutual
    unfolding expand_stmt

    Exec-expand_stmt :
        {s : Stmt} {σ σ' : S} {sg : Signal}
        → IgnoresBraces c
        → Exec c s σ sg σ'
        → Exec c (expand_stmt s) σ sg σ'
    Exec-expand_stmt {σ = σ} same (Exec.goes_on {s} p q) =
        let (p', e) = plain-expand_stmt c s σ same p in Exec.goes_on p' (e ∙ q)
    Exec-expand_stmt {σ = σ} same (Exec.leaves {s} p q) =
        let (p', e) = plain-expand_stmt c s σ same p in Exec.leaves p' (e ∙ q)
    Exec-expand_stmt same (Exec.breaking p) = Exec.breaking p
    Exec-expand_stmt same (Exec.continuing p) = Exec.continuing p
    Exec-expand_stmt same (Exec.syncing p q) = Exec.syncing p q
    Exec-expand_stmt same (Exec.calling p q r) = Exec.calling p q r
    Exec-expand_stmt same (Exec.call_leaves p q) = Exec.call_leaves p q
    Exec-expand_stmt same (Exec.spawning p q r) = Exec.spawning p q r
    Exec-expand_stmt same (Exec.spawn_leaves p q) = Exec.spawn_leaves p q
    Exec-expand_stmt same (Exec.looping p r) = Exec.looping p (Rounds-expand same r)
    Exec-expand_stmt same (Exec.chosen p d) =
        Exec.chosen p (Exec-braced _ (Exec-expand_stmt same d))
    Exec-expand_stmt same (Exec.skipped p) = Exec.skipped p
    Exec-expand_stmt same (Exec.then_chosen p d) =
        Exec.then_chosen p (Exec-braced _ (Exec-expand_stmt same d))
    Exec-expand_stmt same (Exec.else_chosen p d) =
        Exec.else_chosen p (Exec-braced _ (Exec-expand_stmt same d))
    Exec-expand_stmt same (Exec.running r) = Exec.running (Run-braced same r)

    Rounds-expand :
        {t i : Expr} {s : Stmt} {σ σ' : S} {sg : Signal}
        → IgnoresBraces c
        → Rounds c t i s σ sg σ'
        → Rounds c t i (braced (expand_stmt s)) σ sg σ'
    Rounds-expand same (Rounds.ended p) = Rounds.ended p
    Rounds-expand same (Rounds.again p d e r) =
        Rounds.again p (Exec-braced _ (Exec-expand_stmt same d)) e (Rounds-expand same r)
    Rounds-expand same (Rounds.cut_short p d e r) =
        Rounds.cut_short p (Exec-braced _ (Exec-expand_stmt same d)) e (Rounds-expand same r)
    Rounds-expand same (Rounds.broken p d) =
        Rounds.broken p (Exec-braced _ (Exec-expand_stmt same d))
    Rounds-expand same (Rounds.left p d) = Rounds.left p (Exec-braced _ (Exec-expand_stmt same d))

    Run-braced :
        {b : Block} {σ σ' : S} {sg : Signal}
        → IgnoresBraces c
        → Run c b σ sg σ'
        → Run c (expand_block b) σ sg σ'
    Run-braced same Run.done = Run.done
    Run-braced same (Run.next d r) =
        Run.next (Exec-scoped _ (Exec-expand_stmt same d)) (Run-braced same r)
    Run-braced same (Run.jumped d n) = Run.jumped (Exec-scoped _ (Exec-expand_stmt same d)) n

  Run-single_inv :
      {s : Stmt} {σ σ' : S} {sg : Signal} → Run c (then_do s stop) σ sg σ' → Exec c s σ sg σ'
  Run-single_inv (Run.next d Run.done) = d
  Run-single_inv (Run.jumped d n) = d

  Exec-block_inv : {b : Block} {σ σ' : S} {sg : Signal} → Exec c (block b) σ sg σ' → Run c b σ sg σ'
  unfolding is_plain
  Exec-block_inv (Exec.running r) = r
  Exec-block_inv (Exec.goes_on p q) = absurd (false≢true p)
  Exec-block_inv (Exec.leaves p q) = absurd (false≢true p)

  Exec-single_inv :
      {s : Stmt} {σ σ' : S} {sg : Signal}
      → Exec c (block (then_do s stop)) σ sg σ'
      → Exec c s σ sg σ'
  Exec-single_inv x = Run-single_inv (Exec-block_inv x)

  Exec-scoped_inv :
      (s : Stmt) {σ σ' : S} {sg : Signal} → Exec c (scoped s) σ sg σ' → Exec c s σ sg σ'
  unfolding scoped
  Exec-scoped_inv (loop d t i s) x = Exec-single_inv x
  Exec-scoped_inv _ x = x

  Exec-braced_inv :
      (s : Stmt) {σ σ' : S} {sg : Signal} → Exec c (braced s) σ sg σ' → Exec c s σ sg σ'
  unfolding braced
  Exec-braced_inv (block b) x = x
  Exec-braced_inv s x = Exec-scoped_inv s (Exec-single_inv x)

  -- Rounds of a loop with another body that does at least the same.
  Rounds-map :
      {t i : Expr} {s s' : Stmt} {σ σ' : S} {sg : Signal}
      → ((σ σ' : S) (sg : Signal) → Exec c s σ sg σ' → Exec c s' σ sg σ')
      → Rounds c t i s σ sg σ'
      → Rounds c t i s' σ sg σ'
  Rounds-map f (Rounds.ended p) = Rounds.ended p
  Rounds-map f (Rounds.again p d e r) = Rounds.again p (f _ _ _ d) e (Rounds-map f r)
  Rounds-map f (Rounds.cut_short p d e r) = Rounds.cut_short p (f _ _ _ d) e (Rounds-map f r)
  Rounds-map f (Rounds.broken p d) = Rounds.broken p (f _ _ _ d)
  Rounds-map f (Rounds.left p d) = Rounds.left p (f _ _ _ d)

  mutual
    unfolding expand_stmt is_plain

    Exec-unexpand :
        (s : Stmt) {σ σ' : S} {sg : Signal}
        → IgnoresBraces c
        → Exec c (expand_stmt s) σ sg σ'
        → Exec c s σ sg σ'
    Exec-unexpand (basic es) same x = x
    Exec-unexpand (raw t) same x = x
    Exec-unexpand (loop d t i s) same (Exec.looping p r) =
        Exec.looping p
          (Rounds-map (λ _ _ _ x. Exec-unexpand s same (Exec-braced_inv (expand_stmt s) x)) r)
    Exec-unexpand (cond e s) same (Exec.chosen p x) =
        Exec.chosen p (Exec-unexpand s same (Exec-braced_inv (expand_stmt s) x))
    Exec-unexpand (cond e s) same (Exec.skipped p) = Exec.skipped p
    Exec-unexpand (cond_else e s r) same (Exec.then_chosen p x) =
        Exec.then_chosen p (Exec-unexpand s same (Exec-braced_inv (expand_stmt s) x))
    Exec-unexpand (cond_else e s r) same (Exec.else_chosen p x) =
        Exec.else_chosen p (Exec-unexpand r same (Exec-braced_inv (expand_stmt r) x))
    Exec-unexpand (switch e s) {σ = σ} same (Exec.goes_on p q) =
        Exec.goes_on refl (sym (same e s σ) ∙ q)
    Exec-unexpand (switch e s) {σ = σ} same (Exec.leaves p q) =
        Exec.leaves refl (sym (same e s σ) ∙ q)
    Exec-unexpand (block b) same (Exec.running r) = Exec.running (Run-unexpand b same r)
    Exec-unexpand (loop d t i s) same (Exec.goes_on p q) = absurd (false≢true p)
    Exec-unexpand (loop d t i s) same (Exec.leaves p q) = absurd (false≢true p)
    Exec-unexpand (cond e s) same (Exec.goes_on p q) = absurd (false≢true p)
    Exec-unexpand (cond e s) same (Exec.leaves p q) = absurd (false≢true p)
    Exec-unexpand (cond_else e s r) same (Exec.goes_on p q) = absurd (false≢true p)
    Exec-unexpand (cond_else e s r) same (Exec.leaves p q) = absurd (false≢true p)
    Exec-unexpand (block b) same (Exec.goes_on p q) = absurd (false≢true p)
    Exec-unexpand (block b) same (Exec.leaves p q) = absurd (false≢true p)

    Run-unexpand :
        (b : Block) {σ σ' : S} {sg : Signal}
        → IgnoresBraces c
        → Run c (expand_block b) σ sg σ'
        → Run c b σ sg σ'
    Run-unexpand stop same r = r
    Run-unexpand (then_do s b) same (Run.next x r) =
        Run.next (Exec-unexpand s same (Exec-scoped_inv (expand_stmt s) x)) (Run-unexpand b same r)
    Run-unexpand (then_do s b) same (Run.jumped x n) =
        Run.jumped (Exec-unexpand s same (Exec-scoped_inv (expand_stmt s) x)) n

-- A body ends in a state with a signal if, and only if, it does so after ExpansionPass has put its braces
-- in. What the text of a `switch` does is not changed by braces around its parts.
pub Run-expand_block :
    {S : Type 0} (c : Cpp S) (b : Block) (σ σ' : S) (sg : Signal)
    → IgnoresBraces c
    → (Run c b σ sg σ') ↔ (Run c (expand_block b) σ sg σ')
Run-expand_block c b σ σ' sg same = (λ r. Run-braced same r, λ r. Run-unexpand b same r)
