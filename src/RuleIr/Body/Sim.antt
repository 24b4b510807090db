-- ===== src/RuleIr/Body/Sim.antt =====
-- What it is for the lines of a statement to do what the statement does, and the statements that the
-- pass does not take apart.
pub mod Cond
pub mod Loops
use Prim.Native.String.{String}
use petabricks.Base.{
  ℕ, ◌≡◌, ◌≢◌, Bool, true, false, ◌||◌, Option, none, some, List, [], ◌∷◌, ◌++◌, append_assoc,
  append-nil, ◌⊎◌, refl, sym, ap, subst, ◌∙◌, inl, inr, Bool-cases, false≢true, if◌then◌else◌,
  arith,
}
use petabricks.RuleIr.{
  Expr, Exprs, Stmt, basic, raw, loop, cond, cond_else, switch, block, Block, stop, then_do,
  leaf_in, leaf_in_block, any_leaf,
}
use petabricks.RuleIr.Meaning.{
  Kind, breaks, continues, syncs, calls, spawns, plain, kind_of, is_leaf, is_plain, Signal, normal,
  broke, continued, returned, Cpp, yield, Exec, Rounds, Run,
}
use petabricks.RuleIr.Body.{
  Writer, ◌>>◌, write, comment, begin_if_continuation, return_task, else_line, end_if, expand_cond,
  expand_cond_else, expand_loop, Name, Line, begin_if_not, expr_text, stmt_text, return_call, Gen,
  print_kind, print_stmt, print_extracted, print_block, print_body, needs_expansion, jump_last,
  continue_jump, jump_break, jump_continue,
}
use petabricks.RuleIr.Body.Machine.{find, after_if, Halts}
use petabricks.RuleIr.Body.Shapes.{
  in_cond, jthen, jelse, label, in_loop, after_body, loop_body, jbody, jinc, jafter, comment_lines,
  expand_loop_lines, expand_cond_lines, expand_cond_else_lines, seq_lines, body_lines, ending,
  not-some, wrote, sent,
}
use petabricks.RuleIr.Body.Labels.{Grows, print_stmt-Grows, print_extracted-Grows}
use petabricks.RuleIr.Body.Quiet.{needs-no_jump, Exec-Quiet}
use petabricks.RuleIr.Body.Linked.{Linked, Linked-append, print_body-Linked}

plain-kind : (es : Exprs) → is_plain (basic es) ≡ true → kind_of es ≡ plain
unfolding is_plain
plain-kind es h = ground arith

-- A plain statement is printed as it is.
pub plain_lines :
    (s : Stmt) (g : Gen) (ls : List Line) (g' : Gen)
    → is_plain s ≡ true
    → print_stmt s g ≡ some (ls, g')
    → (is_leaf s ≡ true) × (ls ≡ stmt_text s ∷ [])
unfolding print_stmt is_leaf is_plain
plain_lines (basic es) g ls g' p h = (refl, wrote (rw (plain-kind es p) at h))
plain_lines (raw t) g ls g' p h = (refl, wrote h)
plain_lines (loop d t i s) g ls g' p h = absurd (false≢true p)
plain_lines (cond e s) g ls g' p h = absurd (false≢true p)
plain_lines (cond_else e s r) g ls g' p h = absurd (false≢true p)
plain_lines (switch e s) g ls g' p h = elim (Bool-cases (needs_expansion (switch e s))) [
  | inl q ↦ absurd (not-some (rw q at h))
  | inr q ↦ (refl, wrote (rw q at h))
]
plain_lines (block b) g ls g' p h = absurd (false≢true p)

module _ {S : Type 0} (c : Cpp S) (program : List Line) where
  -- What a jump to the last target does.
  abbrev Jumps : List Name → S → S → Type 0
  Jumps [] σ ρ = ⊥
  Jumps (n ∷ ns) σ ρ = Halts c program (return_call n ∷ []) σ ρ

  -- The task ends in `ρ` after a statement that has ended with the signal, before the lines.
  abbrev pub After : Signal → Gen → List Line → S → S → Type 0
  After normal g ls σ ρ = Halts c program ls σ ρ
  After broke g ls σ ρ = Jumps g.break_targets σ ρ
  After continued g ls σ ρ = Jumps g.continue_targets σ ρ
  After returned g ls σ ρ = σ ≡ ρ

  call_drops :
      {n : Name} {ls : List Line} {σ ρ : S}
      → Halts c program (return_call n ∷ []) σ ρ
      → Halts c program (return_call n ∷ ls) σ ρ
  call_drops (Halts.calls f h) = Halts.calls f h

  jump_last-Halts :
      (ns : List Name) (g : Gen) (ls : List Line) (g' : Gen) (post : List Line) (σ ρ : S)
      → jump_last ns g ≡ some (ls, g')
      → Jumps ns σ ρ
      → Halts c program (ls ++ post) σ ρ
  unfolding jump_last continue_jump
  jump_last-Halts [] g ls g' post σ ρ h j = absurd j
  jump_last-Halts (n ∷ ns) g ls g' post σ ρ h j = rw (wrote h) (call_drops j)

  pub leaf_out_at :
      {s : Stmt} {ls : List Line} {σ σ' ρ : S}
      → is_leaf s ≡ true
      → c.leaf s σ ≡ (true, σ')
      → σ' ≡ ρ
      → Halts c program (stmt_text s ∷ ls) σ ρ
  leaf_out_at p q e = Halts.leaf_out p (rw (sym e) q)

  -- A statement that is not taken apart.
  whole-Halts :
      (sg : Signal) (s : Stmt) (g : Gen) (post : List Line) (σ σ' ρ : S)
      → is_leaf s ≡ false
      → needs_expansion s ≡ false
      → Exec c s σ sg σ'
      → After sg g post σ' ρ
      → Halts c program (stmt_text s ∷ post) σ ρ
  whole-Halts normal s g post σ σ' ρ l n d a = Halts.inner_on l d a
  whole-Halts returned s g post σ σ' ρ l n d a =
      Halts.inner_out l (subst (λ x. Exec c s σ returned x) a d)
  whole-Halts broke s g post σ σ' ρ l n d a =
      absurd (Exec-Quiet d (needs-no_jump s n).0 (needs-no_jump s n).1)
  whole-Halts continued s g post σ σ' ρ l n d a =
      absurd (Exec-Quiet d (needs-no_jump s n).0 (needs-no_jump s n).1)

  pub After-jump :
      (sg : Signal) (g : Gen) (post ls : List Line) (σ ρ : S)
      → sg ≢ normal
      → After sg g post σ ρ
      → After sg g ls σ ρ
  After-jump normal g post ls σ ρ n a = absurd (n refl)
  After-jump broke g post ls σ ρ n a = a
  After-jump continued g post ls σ ρ n a = a
  After-jump returned g post ls σ ρ n a = a

  -- Between a spawn and the rest of the body.
  pub yields :
      (n : Name) (ls ls' : List Line) (σ σ' ρ : S)
      → find n program ≡ some ls'
      → yield c σ ≡ σ'
      → Halts c program ls' σ' ρ
      → Halts c program
          (begin_if_continuation ∷ (return_task n ∷ (else_line ∷ (return_call n ∷ (end_if ∷ ls)))))
          σ
          ρ
  unfolding yield after_if
  yields n ls ls' σ σ' ρ f e a = elim (Bool-cases (c.uses_continuation σ)) [
    | inl q ↦ Halts.continuation_used q (Halts.task_runs f (rw q at e) a)
    | inr q ↦ Halts.continuation_unused q (Halts.calls f (rw (sym (rw q at e)) at a))
  ]

  -- What the pass writes for a statement, before other lines, does what the statement does.
  pub record Sim (print : Writer) (σ : S) (sg : Signal) (σ' : S) : Type 0 where
    pub run :
        (g : Gen) (ls : List Line) (g' : Gen) (post : List Line) (ρ : S)
        → print g ≡ some (ls, g')
        → Linked program (ls ++ post)
        → After sg g post σ' ρ
        → Halts c program (ls ++ post) σ ρ

  -- A statement is taken apart or printed as it is.
  pub Sim-choice :
      (s : Stmt) (m : Writer) {σ σ' : S} {sg : Signal}
      → is_leaf s ≡ false
      → Exec c s σ sg σ'
      → Sim m σ sg σ'
      → Sim (if needs_expansion s then m else write (stmt_text s)) σ sg σ'
  Sim-choice s m {σ} {σ'} {sg} leaf d sim = record {
    run = λ g ls g' post ρ h l a. elim (Bool-cases (needs_expansion s)) [
      | inl q ↦ sim.run g ls g' post ρ (rw q at h) l a
      | inr q ↦ rw (wrote (rw q at h)) (whole-Halts sg s g post σ σ' ρ leaf q d a)
    ];
  }

  pub Sim-jump :
      (t : String) (σ ρ : S) (ns : List Name) (k : Writer) (g : Gen) (ls : List Line) (g' : Gen)
      (post : List Line)
      → ((b : List Line) → k g ≡ some (b, g') → jump_last ns g ≡ some (b, g'))
      → (write (comment t) >> k) g ≡ some (ls, g')
      → Jumps ns σ ρ
      → Halts c program (ls ++ post) σ ρ
  Sim-jump t σ ρ ns k g ls g' post j h a =
      let (b, q, e) = comment_lines t k g ls g' h in
      rw e (Halts.comments (jump_last-Halts ns g b g' post σ ρ (j b q) a))

  -- The targets are the same, and the lines before `post` call the function that it is.
  pub After-targets :
      (sg : Signal) (g g' : Gen) (ls : List Line) (σ ρ : S)
      → g'.break_targets ≡ g.break_targets
      → g'.continue_targets ≡ g.continue_targets
      → After sg g ls σ ρ
      → After sg g' ls σ ρ
  After-targets normal g g' ls σ ρ p q a = a
  After-targets broke g g' ls σ ρ p q a = subst (λ ns. Jumps ns σ ρ) (sym p) a
  After-targets continued g g' ls σ ρ p q a = subst (λ ns. Jumps ns σ ρ) (sym q) a
  After-targets returned g g' ls σ ρ p q a = a

  pub After-call :
      (sg : Signal) (n : Name) (g : Gen) (post ls : List Line) (σ ρ : S)
      → find n program ≡ some post
      → After sg g post σ ρ
      → After sg g (return_call n ∷ ls) σ ρ
  After-call normal n g post ls σ ρ f a = Halts.calls f a
  After-call broke n g post ls σ ρ f a = a
  After-call continued n g post ls σ ρ f a = a
  After-call returned n g post ls σ ρ f a = a

  pub Sim-comment :
      (t : String) {k : Writer} {σ σ' : S} {sg : Signal}
      → Sim k σ sg σ'
      → Sim (write (comment t) >> k) σ sg σ'
  Sim-comment t {k} sim = record {
    run = λ g ls g' post ρ h l a.
        let (b, q, e) = comment_lines t k g ls g' h in
        rw e (Halts.comments (sim.run g b g' post ρ q (rw e at l) a));
  }
