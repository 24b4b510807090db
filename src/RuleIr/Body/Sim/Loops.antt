-- ===== src/RuleIr/Body/Sim/Loops.antt =====
-- The lines of a loop do what it does.
use petabricks.Base.{◌≡◌, true, false, some, List, [], ◌∷◌, ◌++◌, append_assoc, subst}
use petabricks.RuleIr.{Expr}
use petabricks.RuleIr.Meaning.{Signal, normal, broke, returned, Cpp}
use petabricks.RuleIr.Body.{Writer, end_if, expand_loop, Name, Line, begin_if_not, return_call, Gen}
use petabricks.RuleIr.Body.Machine.{find, after_if, Halts}
use petabricks.RuleIr.Body.Shapes.{
  in_loop, after_body, loop_body, jbody, jinc, jafter, expand_loop_lines,
}
use petabricks.RuleIr.Body.Linked.{loop_links, Linked}
use petabricks.RuleIr.Body.Sim.{After, Sim}

module _ {S : Type 0} (c : Cpp S) (program : List Line) where
  -- The same of the rounds of a loop, from the start of its function on.
  pub record RoundsSim (t i : Expr) (body : Writer) (σ : S) (sg : Signal) (σ' : S) : Type 0 where
    pub run :
        (g : Gen) (inner : List Line) (g₁ : Gen) (post : List Line) (ρ : S)
        → body (in_loop g) ≡ some (inner, g₁)
        → Linked program (inner ++ after_body g i post)
        → find (jbody g) program ≡ some (loop_body g t i inner post)
        → After c program sg g post σ' ρ
        → Halts c program (loop_body g t i inner post) σ ρ

  pub call_alone :
      {n : Name} {ls : List Line} {σ ρ : S}
      → Halts c program (return_call n ∷ ls) σ ρ
      → Halts c program (return_call n ∷ []) σ ρ
  call_alone (Halts.calls f h) = Halts.calls f h

  pub rounds_ended :
      {t i : Expr} {body : Writer} {σ σ' : S}
      → c.test t σ ≡ (false, σ')
      → RoundsSim t i body σ normal σ'
  rounds_ended {i = i} p = record {
    run = λ g inner g₁ post ρ q l f a.
        Halts.if_entered p (Halts.calls (loop_links program g i inner post l).1 a);
  }

  -- The body ends, or continues with the next round.
  pub rounds_go_on :
      {t i : Expr} {body : Writer} {σ σ₁ σ₂ σ₃ σ' : S} {sg sg' : Signal}
      → c.test t σ ≡ (true, σ₁)
      → Sim c program body σ₁ sg' σ₂
      → c.eval i σ₂ ≡ σ₃
      → RoundsSim t i body σ₃ sg σ'
      → ((g : Gen) (ls : List Line) (ρ : S)
          → Halts c program (return_call (jinc g) ∷ ls) σ₂ ρ
          → After c program sg' (in_loop g) (return_call (jinc g) ∷ ls) σ₂ ρ)
      → RoundsSim t i body σ sg σ'
  unfolding after_if
  rounds_go_on {i = i} p sim e more into = record {
    run = λ g inner g₁ post ρ q l f a. Halts.if_passed p (
        sim.run (in_loop g) inner g₁ (after_body g i post) ρ q l (
          into g _ ρ (
            Halts.calls (loop_links program g i inner post l).0
              (Halts.evals e (Halts.calls f (more.run g inner g₁ post ρ q l f a))))));
  }

  pub rounds_broken :
      {t i : Expr} {body : Writer} {σ σ₁ σ' : S}
      → c.test t σ ≡ (true, σ₁)
      → Sim c program body σ₁ broke σ'
      → RoundsSim t i body σ normal σ'
  unfolding after_if
  rounds_broken {i = i} p sim = record {
    run = λ g inner g₁ post ρ q l f a. Halts.if_passed p (
        sim.run (in_loop g) inner g₁ (after_body g i post) ρ q l
          (Halts.calls (loop_links program g i inner post l).1 a));
  }

  pub rounds_left :
      {t i : Expr} {body : Writer} {σ σ₁ σ' : S}
      → c.test t σ ≡ (true, σ₁)
      → Sim c program body σ₁ returned σ'
      → RoundsSim t i body σ returned σ'
  unfolding after_if
  rounds_left {i = i} p sim = record {
    run = λ g inner g₁ post ρ q l f a.
        Halts.if_passed p (sim.run (in_loop g) inner g₁ (after_body g i post) ρ q l a);
  }

  pub Sim-loop :
      {d t i : Expr} {body : Writer} {σ σ₁ σ' : S} {sg : Signal}
      → c.eval d σ ≡ σ₁
      → RoundsSim t i body σ₁ sg σ'
      → Sim c program (expand_loop d t i body) σ sg σ'
  Sim-loop {d} {t} {i} {body} p more = record {
    run = λ g ls g' post ρ h l a.
        let (inner, g₁, q, e, _) = expand_loop_lines d t i body g ls g' h in
        let (f, l') = (rw e at l) in
        let joined = append_assoc inner (after_body g i []) post in
        let start : find (jbody g) program ≡ some (loop_body g t i inner post) =
          subst
            (λ x.
              find (jbody g) program
              ≡ some (begin_if_not t ∷ (return_call (jafter g) ∷ (end_if ∷ x))))
            joined f in
        rw e (
          Halts.comments (
            Halts.evals p (
              Halts.calls start
                (more.run g inner g₁ post ρ q (subst (Linked program) joined l') start a))));
  }
