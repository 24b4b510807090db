-- ===== src/RuleIr/Body/Labels.antt =====
-- The functions that the pass starts have different names, and it leaves the targets as they were.
use Prim.Native.String.{String}
use petabricks.Base.{
  ℕ, ◌+◌, ◌≤◌, ◌≡◌, Bool, true, false, Option, some, List, [], ◌∷◌, ◌++◌, ltb, ◌==◌, if◌then◌else◌,
  arith, refl, ap, ◌∙◌,
}
use petabricks.RuleIr.{
  Expr, Stmt, basic, raw, loop, cond, cond_else, switch, block, Block, stop, then_do,
}
use petabricks.RuleIr.Meaning.{Kind, breaks, continues, syncs, calls, spawns, plain, kind_of}
use petabricks.RuleIr.Body.{
  Name, Line, begin_func, return_call, expand_cond, expand_cond_else, expand_loop, Gen, Writer,
  ◌>>◌, fail, write, comment, stmt_text, pop_last, print_kind, print_stmt, print_extracted,
  print_block, jump_last, jump_break, continue_jump, jump_continue, needs_expansion,
}
use petabricks.RuleIr.Body.Shapes.{
  not-some, comment_lines, jafter, jelse, after_body, in_loop, in_cond, label, wrote, sent,
  expand_cond_lines, expand_cond_else_lines, expand_loop_lines, seq_lines,
}

-- How many functions of a number start in the lines.
abbrev pub heads : ℕ → List Line → ℕ
heads k [] = 0
heads k (begin_func n ∷ ls) = (if n.number == k then 1 else 0) + heads k ls
heads k (_ ∷ ls) = heads k ls

pub heads-append : (k : ℕ) (xs ys : List Line) → heads k (xs ++ ys) ≡ heads k xs + heads k ys
heads-append k [] ys = omega arith
heads-append k (begin_func n ∷ xs) ys = omega (arith, heads-append k xs ys)
heads-append k (_ ∷ xs) ys = heads-append k xs ys

abbrev between : ℕ → ℕ → ℕ → ℕ
between lo hi k = if ltb k lo then 0 else if ltb k hi then 1 else 0

-- A call writes `ls` and leaves `g'`: its names have the numbers in between, each once.
pub record Grows (g : Gen) (ls : List Line) (g' : Gen) : Type 0 where
  pub counted : g.counter ≤ g'.counter
  pub named : (k : ℕ) → heads k ls ≤ between g.counter g'.counter k
  pub breaks_kept : g'.break_targets ≡ g.break_targets
  pub continues_kept : g'.continue_targets ≡ g.continue_targets

Grows-same :
    {g g₁ g' : Gen} {ls ls₁ : List Line}
    → ◌≡◌ {A = Option (List Line × Gen)} (some (ls₁, g₁)) (some (ls, g'))
    → Grows g ls₁ g₁
    → Grows g ls g'
Grows-same {g} e w = rw (wrote e, sent e) w

Grows-seq :
    {g g₁ g₂ : Gen} {xs ys : List Line} → Grows g xs g₁ → Grows g₁ ys g₂ → Grows g (xs ++ ys) g₂
Grows-seq {g} {g₁} {g₂} {xs} {ys} v w = record {
  counted = omega (arith, v.counted, w.counted);
  named = λ k. ground (arith, heads-append k xs ys, v.named k, w.named k, v.counted, w.counted);
  breaks_kept = w.breaks_kept ∙ v.breaks_kept;
  continues_kept = w.continues_kept ∙ v.continues_kept;
}

-- Lines that start no function.
Grows-plain : (g : Gen) (ls : List Line) → ((k : ℕ) → heads k ls ≡ 0) → Grows g ls g
Grows-plain g ls h = record {
  counted = omega arith;
  named = λ k. omega (arith, h k);
  breaks_kept = refl;
  continues_kept = refl;
}

Grows-comment :
    {t : String} {g g' : Gen} {ls : List Line} → Grows g ls g' → Grows g (comment t ∷ ls) g'
Grows-comment w = record {
  counted = w.counted;
  named = w.named;
  breaks_kept = w.breaks_kept;
  continues_kept = w.continues_kept;
}

written-Grows :
    (s : Stmt) (g : Gen) (ls : List Line) (g' : Gen)
    → write (stmt_text s) g ≡ some (ls, g')
    → Grows g ls g'
written-Grows s g ls g' h = Grows-same h (Grows-plain g (stmt_text s ∷ []) (λ k. refl))

jump_last-Grows :
    (ns : List Name) (g : Gen) (ls : List Line) (g' : Gen)
    → jump_last ns g ≡ some (ls, g')
    → Grows g ls g'
unfolding jump_last continue_jump
jump_last-Grows [] g ls g' h = absurd (not-some h)
jump_last-Grows (n ∷ ns) g ls g' h = Grows-same h (Grows-plain g (return_call n ∷ []) (λ k. refl))

print_kind-Grows :
    (κ : Kind) (s : Stmt) (g : Gen) (ls : List Line) (g' : Gen)
    → print_kind κ s g ≡ some (ls, g')
    → Grows g ls g'
unfolding print_kind
print_kind-Grows breaks s g ls g' h =
    let (b, q, e) = comment_lines "break;" jump_break g ls g' h in
    rw e (Grows-comment (jump_last-Grows g.break_targets g b g' q))
print_kind-Grows continues s g ls g' h =
    let (b, q, e) = comment_lines "continue;" jump_continue g ls g' h in
    rw e (Grows-comment (jump_last-Grows g.continue_targets g b g' q))
print_kind-Grows syncs s g ls g' h = Grows-same h (record {
  counted = omega arith;
  named = λ k. ground arith;
  breaks_kept = refl;
  continues_kept = refl;
})
print_kind-Grows calls s g ls g' h = Grows-same h (record {
  counted = omega arith;
  named = λ k. ground arith;
  breaks_kept = refl;
  continues_kept = refl;
})
print_kind-Grows spawns s g ls g' h = Grows-same h (record {
  counted = omega arith;
  named = λ k. ground arith;
  breaks_kept = refl;
  continues_kept = refl;
})
print_kind-Grows plain s g ls g' h = written-Grows s g ls g' h

expand_loop-Grows :
    (d t i : Expr) (body : Writer) (g : Gen) (ls : List Line) (g' : Gen)
    → ((g : Gen) (ls : List Line) (g' : Gen) → body g ≡ some (ls, g') → Grows g ls g')
    → expand_loop d t i body g ≡ some (ls, g')
    → Grows g ls g'
unfolding pop_last
expand_loop-Grows d t i body g ls g' w h =
    let (inner, g₁, q, e, f) = expand_loop_lines d t i body g ls g' h in
    let v = w (in_loop g) inner g₁ q in
    rw (e, f)
      (record {
        counted = omega (arith, v.counted);
        named = λ k. ground (arith, heads-append k inner (after_body g i []), v.named k, v.counted);
        breaks_kept = ap pop_last v.breaks_kept;
        continues_kept = ap pop_last v.continues_kept;
      })

expand_cond-Grows :
    (e : Expr) (then_part : Writer) (g : Gen) (ls : List Line) (g' : Gen)
    → ((g : Gen) (ls : List Line) (g' : Gen) → then_part g ≡ some (ls, g') → Grows g ls g')
    → expand_cond e then_part g ≡ some (ls, g')
    → Grows g ls g'
expand_cond-Grows e then_part g ls g' w h =
    let (inner, q, e') = expand_cond_lines e then_part g ls g' h in
    let v = w (in_cond g) inner g' q in
    rw e' (record {
      counted = omega (arith, v.counted);
      named = λ k. ground (arith, heads-append k inner (label (jafter g) []), v.named k, v.counted);
      breaks_kept = v.breaks_kept;
      continues_kept = v.continues_kept;
    })

expand_cond_else-Grows :
    (e : Expr) (then_part else_part : Writer) (g : Gen) (ls : List Line) (g' : Gen)
    → ((g : Gen) (ls : List Line) (g' : Gen) → then_part g ≡ some (ls, g') → Grows g ls g')
    → ((g : Gen) (ls : List Line) (g' : Gen) → else_part g ≡ some (ls, g') → Grows g ls g')
    → expand_cond_else e then_part else_part g ≡ some (ls, g')
    → Grows g ls g'
expand_cond_else-Grows e then_part else_part g ls g' w w' h =
    let (a, g₁, b, q, q', e') = expand_cond_else_lines e then_part else_part g ls g' h in
    let v = w (in_cond g) a g₁ q in
    let v' = w' g₁ b g' q' in
    let rest = return_call (jafter g) ∷ label (jelse g) (b ++ label (jafter g) []) in
    rw e' (record {
      counted = omega (arith, v.counted, v'.counted);
      named = λ k. ground (
        arith,
        heads-append k a rest,
        heads-append k b (label (jafter g) []),
        v.named k,
        v.counted,
        v'.named k,
        v'.counted,
      );
      breaks_kept = v'.breaks_kept ∙ v.breaks_kept;
      continues_kept = v'.continues_kept ∙ v.continues_kept;
    })

choice-Grows :
    (b : Bool) (m k : Writer) (g : Gen) (ls : List Line) (g' : Gen)
    → (m g ≡ some (ls, g') → Grows g ls g')
    → (k g ≡ some (ls, g') → Grows g ls g')
    → (if b then m else k) g ≡ some (ls, g')
    → Grows g ls g'
choice-Grows true m k g ls g' w v h = w h
choice-Grows false m k g ls g' w v h = v h

mutual
  unfolding print_stmt

  pub print_stmt-Grows :
      (s : Stmt) (g : Gen) (ls : List Line) (g' : Gen)
      → print_stmt s g ≡ some (ls, g')
      → Grows g ls g'
  print_stmt-Grows (basic es) g ls g' h = print_kind-Grows (kind_of es) (basic es) g ls g' h
  print_stmt-Grows (raw t) g ls g' h = written-Grows (raw t) g ls g' h
  print_stmt-Grows (loop d t i s) g ls g' h =
      choice-Grows (needs_expansion (loop d t i s)) (expand_loop d t i (print_extracted s))
        (write (stmt_text (loop d t i s))) g ls g'
        (expand_loop-Grows d t i (print_extracted s) g ls g' (print_extracted-Grows s))
        (λ p. written-Grows _ g ls g' p) h
  print_stmt-Grows (cond e s) g ls g' h =
      choice-Grows (needs_expansion (cond e s)) (expand_cond e (print_extracted s))
        (write (stmt_text (cond e s))) g ls g'
        (expand_cond-Grows e (print_extracted s) g ls g' (print_extracted-Grows s))
        (λ p. written-Grows _ g ls g' p) h
  print_stmt-Grows (cond_else e s r) g ls g' h =
      choice-Grows (needs_expansion (cond_else e s r))
        (expand_cond_else e (print_extracted s) (print_extracted r))
        (write (stmt_text (cond_else e s r))) g ls g'
        (expand_cond_else-Grows e (print_extracted s) (print_extracted r) g ls g'
          (print_extracted-Grows s) (print_extracted-Grows r))
        (λ p. written-Grows _ g ls g' p) h
  print_stmt-Grows (switch e s) g ls g' h =
      choice-Grows (needs_expansion (switch e s)) fail (write (stmt_text (switch e s))) g ls g'
        (λ p. absurd (not-some p)) (λ p. written-Grows _ g ls g' p) h
  print_stmt-Grows (block b) g ls g' h =
      choice-Grows (needs_expansion (block b))
        (write (comment "expanded block statement") >> print_block b) (write (stmt_text (block b)))
        g ls g'
        (λ p.
          let (c, q, e) = comment_lines "expanded block statement" (print_block b) g ls g' p in
          rw e (Grows-comment (print_block-Grows b g c g' q)))
        (λ p. written-Grows _ g ls g' p) h

  pub print_extracted-Grows :
      (s : Stmt) (g : Gen) (ls : List Line) (g' : Gen)
      → print_extracted s g ≡ some (ls, g')
      → Grows g ls g'
  print_extracted-Grows (block b) g ls g' h = print_block-Grows b g ls g' h
  print_extracted-Grows _ g ls g' h = absurd (not-some h)

  pub print_block-Grows :
      (b : Block) (g : Gen) (ls : List Line) (g' : Gen)
      → print_block b g ≡ some (ls, g')
      → Grows g ls g'
  print_block-Grows stop g ls g' h = Grows-same h (Grows-plain g [] (λ k. refl))
  print_block-Grows (then_do s b) g ls g' h =
      let (a, g₁, c, q, q', e) = seq_lines (print_stmt s) (print_block b) g ls g' h in
      rw e (Grows-seq (print_stmt-Grows s g a g₁ q) (print_block-Grows b g₁ c g' q'))
