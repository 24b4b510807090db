-- ===== src/RuleIr/Body/Correct.antt =====
-- The functions that the pass writes do what the body does.
use petabricks.Base.{
  ◌≡◌, some, List, ◌++◌, append_assoc, ◌⊎◌, refl, sym, subst, inl, inr, false≢true,
}
use petabricks.RuleIr.{Expr, Stmt, basic, loop, cond, cond_else, block, Block}
use petabricks.RuleIr.Meaning.{is_leaf, is_plain, Signal, normal, returned, Cpp, Exec, Rounds, Run}
use petabricks.RuleIr.Body.{
  ◌>>◌, write, comment, expand_cond, expand_cond_else, expand_loop, Line, Gen, print_kind,
  print_stmt, print_extracted, print_block, print_body, jump_break, jump_continue,
}
use petabricks.RuleIr.Body.Machine.{Halts}
use petabricks.RuleIr.Body.Shapes.{seq_lines, body_lines, ending, not-some, wrote}
use petabricks.RuleIr.Body.Labels.{print_stmt-Grows, print_extracted-Grows}
use petabricks.RuleIr.Body.Linked.{Linked, Linked-append, print_body-Linked}
use petabricks.RuleIr.Body.Sim.{
  plain_lines, After, leaf_out_at, After-jump, yields, Sim, Sim-choice, Sim-jump, After-targets,
  Sim-comment,
}
use petabricks.RuleIr.Body.Sim.Cond.{Sim-chosen, Sim-skipped, Sim-then, Sim-else}
use petabricks.RuleIr.Body.Sim.Loops.{
  RoundsSim, call_alone, rounds_ended, rounds_go_on, rounds_broken, rounds_left, Sim-loop,
}

module _ {S : Type 0} (c : Cpp S) (program : List Line) where
  mutual
    unfolding print_stmt is_leaf is_plain print_kind

    Sim-print_stmt :
        {s : Stmt} {σ σ' : S} {sg : Signal}
        → Exec c s σ sg σ'
        → Sim c program (print_stmt s) σ sg σ'
    Sim-print_stmt (Exec.goes_on {s} p q) = record {
      run = λ g ls g' post ρ h l a.
          let (k, e) = plain_lines s g ls g' p h in rw e (Halts.leaf_on k q a);
    }
    Sim-print_stmt (Exec.leaves {s} p q) = record {
      run = λ g ls g' post ρ h l a.
          let (k, e) = plain_lines s g ls g' p h in rw e (leaf_out_at c program k q a);
    }
    Sim-print_stmt (Exec.breaking {es} {σ} p) = record {
      run = λ g ls g' post ρ h l a.
          Sim-jump c program "break;" σ ρ g.break_targets jump_break g ls g' post (λ b q. q)
            (rw p at h) a;
    }
    Sim-print_stmt (Exec.continuing {es} {σ} p) = record {
      run = λ g ls g' post ρ h l a.
          Sim-jump c program "continue;" σ ρ g.continue_targets jump_continue g ls g' post
            (λ b q. q) (rw p at h) a;
    }
    Sim-print_stmt (Exec.syncing {es} p q) = record {
      run = λ g ls g' post ρ h l a.
          let e = wrote (rw p at h) in rw e (Halts.comments (Halts.hook_runs (rw e at l).0 q a));
    }
    Sim-print_stmt (Exec.calling {es} p q r) = record {
      run = λ g ls g' post ρ h l a.
          let e = wrote (rw p at h) in
          rw e (
            Halts.leaf_on {s = basic es} refl q
              (Halts.comments (Halts.hook_runs (rw e at l).0 r a)));
    }
    Sim-print_stmt (Exec.call_leaves {es} p q) = record {
      run = λ g ls g' post ρ h l a.
          rw (wrote (rw p at h)) (leaf_out_at c program {s = basic es} refl q a);
    }
    Sim-print_stmt (Exec.spawning {es} {σ₁ = σ₁} {σ' = σ'} p q r) = record {
      run = λ g ls g' post ρ h l a.
          let e = wrote (rw p at h) in
          rw e (
            Halts.leaf_on {s = basic es} refl q
              (yields c program _ _ post σ₁ σ' ρ (rw e at l).0 r a));
    }
    Sim-print_stmt (Exec.spawn_leaves {es} p q) = record {
      run = λ g ls g' post ρ h l a.
          rw (wrote (rw p at h)) (leaf_out_at c program {s = basic es} refl q a);
    }
    Sim-print_stmt (Exec.looping {d} {t} {i} {s} p r) =
        Sim-choice c program (loop d t i s) (expand_loop d t i (print_extracted s)) refl
          (Exec.looping p r) (Sim-loop c program p (RoundsSim-Rounds r))
    Sim-print_stmt (Exec.chosen {e} {s} p d) =
        Sim-choice c program (cond e s) (expand_cond e (print_extracted s)) refl (Exec.chosen p d)
          (Sim-chosen c program p (Sim-print_extracted s d))
    Sim-print_stmt (Exec.skipped {e} {s} p) =
        Sim-choice c program (cond e s) (expand_cond e (print_extracted s)) refl (Exec.skipped p)
          (Sim-skipped c program (print_extracted s) p)
    Sim-print_stmt (Exec.then_chosen {e} {s} {r} p d) =
        Sim-choice c program (cond_else e s r)
          (expand_cond_else e (print_extracted s) (print_extracted r)) refl (Exec.then_chosen p d)
          (Sim-then c program (print_extracted r) p (Sim-print_extracted s d))
    Sim-print_stmt (Exec.else_chosen {e} {s} {r} p d) =
        Sim-choice c program (cond_else e s r)
          (expand_cond_else e (print_extracted s) (print_extracted r)) refl (Exec.else_chosen p d)
          (Sim-else c program (print_extracted-Grows s) p (Sim-print_extracted r d))
    Sim-print_stmt (Exec.running {b} r) =
        Sim-choice c program (block b) (write (comment "expanded block statement") >> print_block b)
          refl (Exec.running r)
          (Sim-comment c program "expanded block statement" (Sim-print_block r))

    Sim-print_extracted :
        (s : Stmt) {σ σ' : S} {sg : Signal}
        → Exec c s σ sg σ'
        → Sim c program (print_extracted s) σ sg σ'
    Sim-print_extracted (block b) (Exec.running r) = Sim-print_block r
    Sim-print_extracted (block b) (Exec.goes_on p q) = absurd (false≢true p)
    Sim-print_extracted (block b) (Exec.leaves p q) = absurd (false≢true p)
    Sim-print_extracted _ d = record { run = λ g ls g' post ρ h l a. absurd (not-some h) }

    Sim-print_block :
        {b : Block} {σ σ' : S} {sg : Signal}
        → Run c b σ sg σ'
        → Sim c program (print_block b) σ sg σ'
    Sim-print_block Run.done = record { run = λ g ls g' post ρ h l a. rw (wrote h) a }
    Sim-print_block (Run.next {s} {b} {σ' = σ'} {sg = sg} d r) = record {
      run = λ g ls g' post ρ h l a.
          let (x, g₁, y, q, q', e) = seq_lines (print_stmt s) (print_block b) g ls g' h in
          let kept = print_stmt-Grows s g x g₁ q in
          let l' = subst (Linked program) (append_assoc x y post) (rw e at l) in
          rw (e, append_assoc x y post)
            ((Sim-print_stmt d).run g x g₁ (y ++ post) ρ q l' (
              (Sim-print_block r).run g₁ y g' post ρ q' (Linked-append program x (y ++ post) l') (
                After-targets c program sg g g₁ post σ' ρ kept.breaks_kept kept.continues_kept a)));
    }
    Sim-print_block (Run.jumped {s} {b} {σ' = σ'} {sg = sg} d n) = record {
      run = λ g ls g' post ρ h l a.
          let (x, g₁, y, q, q', e) = seq_lines (print_stmt s) (print_block b) g ls g' h in
          let l' = subst (Linked program) (append_assoc x y post) (rw e at l) in
          rw (e, append_assoc x y post)
            ((Sim-print_stmt d).run g x g₁ (y ++ post) ρ q l'
              (After-jump c program sg g post (y ++ post) σ' ρ n a));
    }

    RoundsSim-Rounds :
        {t i : Expr} {s : Stmt} {σ σ' : S} {sg : Signal}
        → Rounds c t i s σ sg σ'
        → RoundsSim c program t i (print_extracted s) σ sg σ'
    RoundsSim-Rounds (Rounds.ended p) = rounds_ended c program p
    RoundsSim-Rounds (Rounds.again {s = s} p d e r) =
        rounds_go_on c program p (Sim-print_extracted s d) e (RoundsSim-Rounds r) (λ g ls ρ a. a)
    RoundsSim-Rounds (Rounds.cut_short {s = s} p d e r) =
        rounds_go_on c program p (Sim-print_extracted s d) e (RoundsSim-Rounds r)
          (λ g ls ρ a. call_alone c program a)
    RoundsSim-Rounds (Rounds.broken {s = s} p d) =
        rounds_broken c program p (Sim-print_extracted s d)
    RoundsSim-Rounds (Rounds.left {s = s} p d) = rounds_left c program p (Sim-print_extracted s d)

-- When the body of a rule comes to its end or returns in a state, so do the functions that the pass
-- writes for it, from the first line on, in the same state: loops, jumps out of them, conditionals,
-- spawns and syncs included. The pass has written them.
pub print_body-Halts :
    {S : Type 0} (c : Cpp S) (b : Block) (g : Gen) (ls : List Line) (g' : Gen) (σ ρ : S)
    (sg : Signal)
    → print_body b g ≡ some (ls, g')
    → Run c b σ sg ρ
    → (sg ≡ normal) ⊎ (sg ≡ returned)
    → Halts c ls ls σ ρ
print_body-Halts c b g ls g' σ ρ sg h r k =
    let (a, q, e) = body_lines b g ls g' h in
    let linked = subst (Linked ls) e (print_body-Linked b g ls g' h) in
    subst (λ x. Halts c ls x σ ρ) (sym e)
      ((Sim-print_block c ls r).run g a g' ending ρ q linked (ends k))
  where
    ends : (sg ≡ normal) ⊎ (sg ≡ returned) → After c ls sg g ending ρ ρ
    ends (inl n) = rw n Halts.halts
    ends (inr n) = rw n refl
