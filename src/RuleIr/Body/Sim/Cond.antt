-- ===== src/RuleIr/Body/Sim/Cond.antt =====
-- The lines of a conditional do what it does.
use petabricks.Base.{◌≡◌, true, false, some, List, [], append_assoc, refl, sym, subst}
use petabricks.RuleIr.{Expr}
use petabricks.RuleIr.Meaning.{Signal, normal, Cpp}
use petabricks.RuleIr.Body.{Writer, expand_cond, expand_cond_else, Line, Gen}
use petabricks.RuleIr.Body.Machine.{after_if, Halts}
use petabricks.RuleIr.Body.Shapes.{
  in_cond, label, jafter, expand_cond_lines, expand_cond_else_lines,
}
use petabricks.RuleIr.Body.Labels.{Grows}
use petabricks.RuleIr.Body.Linked.{cond_else_links, Linked, Linked-append}
use petabricks.RuleIr.Body.Sim.{Sim, After-targets, After-call}

module _ {S : Type 0} (c : Cpp S) (program : List Line) where
  pub Sim-chosen :
      {e : Expr} {part : Writer} {σ σ₁ σ' : S} {sg : Signal}
      → c.test e σ ≡ (true, σ₁)
      → Sim c program part σ₁ sg σ'
      → Sim c program (expand_cond e part) σ sg σ'
  unfolding after_if
  Sim-chosen {e} {part} {σ₁ = σ₁} {σ' = σ'} {sg = sg} p sim = record {
    run = λ g ls g' post ρ h l a.
        let (inner, q, k) = expand_cond_lines e part g ls g' h in
        let (f, l') = (rw k at l) in
        let joined = append_assoc inner (label (jafter g) []) post in
        let l'' = subst (Linked program) joined l' in
        let found = (Linked-append program inner (label (jafter g) post) l'').0 in
        rw k (
          Halts.comments (
            Halts.if_passed p (
              Halts.calls f (
                subst (λ x. Halts c program x σ₁ ρ) (sym joined)
                  (sim.run (in_cond g) inner g' (label (jafter g) post) ρ q l'' (
                    After-targets c program sg g (in_cond g) _ σ' ρ refl refl
                      (After-call c program sg (jafter g) g post _ σ' ρ found a)))))));
  }

  pub Sim-skipped :
      {e : Expr} (part : Writer) {σ σ' : S}
      → c.test e σ ≡ (false, σ')
      → Sim c program (expand_cond e part) σ normal σ'
  Sim-skipped {e} part p = record {
    run = λ g ls g' post ρ h l a.
        let (inner, q, k) = expand_cond_lines e part g ls g' h in
        let (f, l') = (rw k at l) in
        let l'' = subst (Linked program) (append_assoc inner (label (jafter g) []) post) l' in
        let found = (Linked-append program inner (label (jafter g) post) l'').0 in
        rw k (Halts.comments (Halts.if_entered p (Halts.calls found a)));
  }

  pub Sim-then :
      {e : Expr} {m : Writer} (k : Writer) {σ σ₁ σ' : S} {sg : Signal}
      → c.test e σ ≡ (true, σ₁)
      → Sim c program m σ₁ sg σ'
      → Sim c program (expand_cond_else e m k) σ sg σ'
  unfolding after_if
  Sim-then {e} {m} k {σ₁ = σ₁} {σ' = σ'} {sg = sg} p sim = record {
    run = λ g ls g' post ρ h l a.
        let (t, g₁, r, q, q', eq) = expand_cond_else_lines e m k g ls g' h in
        let (f, l') = (rw eq at l) in
        let (joined, l'', _, _, found) = cond_else_links program g t r post l' in
        rw eq (
          Halts.comments (
            Halts.if_passed p (
              Halts.calls f (
                subst (λ x. Halts c program x σ₁ ρ) (sym joined)
                  (sim.run (in_cond g) t g₁ _ ρ q l'' (
                    After-targets c program sg g (in_cond g) _ σ' ρ refl refl
                      (After-call c program sg (jafter g) g post _ σ' ρ found a)))))));
  }

  pub Sim-else :
      {e : Expr} {m k : Writer} {σ σ₁ σ' : S} {sg : Signal}
      → ((g : Gen) (ls : List Line) (g' : Gen) → m g ≡ some (ls, g') → Grows g ls g')
      → c.test e σ ≡ (false, σ₁)
      → Sim c program k σ₁ sg σ'
      → Sim c program (expand_cond_else e m k) σ sg σ'
  Sim-else {e} {m} {k} {σ' = σ'} {sg = sg} w p sim = record {
    run = λ g ls g' post ρ h l a.
        let (t, g₁, r, q, q', eq) = expand_cond_else_lines e m k g ls g' h in
        let (f, l') = (rw eq at l) in
        let (joined, _, start, l'', found) = cond_else_links program g t r post l' in
        let kept = w (in_cond g) t g₁ q in
        rw eq (
          Halts.comments (
            Halts.if_entered p (
              Halts.calls start (
                sim.run g₁ r g' (label (jafter g) post) ρ q' l'' (
                  After-targets c program sg g g₁ _ σ' ρ kept.breaks_kept kept.continues_kept
                    (After-call c program sg (jafter g) g post _ σ' ρ found a))))));
  }
