-- ===== src/RuleIr/Body/Scoped.antt =====
-- Each call in what the pass writes is of a function that it writes.
use Prim.Native.String.{String}
use petabricks.Base.{
  ℕ, ◌≤◌, ◌≡◌, Bool, true, false, some, List, [], ◌∷◌, ◌++◌, append_assoc, sym, subst,
  if◌then◌else◌,
}
use petabricks.RuleIr.{
  Expr, Stmt, basic, raw, loop, cond, cond_else, switch, block, Block, stop, then_do,
}
use petabricks.RuleIr.Meaning.{Kind, breaks, continues, syncs, calls, spawns, plain, kind_of}
use petabricks.RuleIr.Body.{
  Name, Line, Gen, Writer, ◌>>◌, write, stmt_text, comment, return_call, return_task, return_hook,
  continue_jump, jump_last, print_kind, needs_expansion, expand_cond, expand_cond_else, expand_loop,
  print_stmt, print_extracted, print_block, print_body,
}
use petabricks.RuleIr.Body.Machine.{find}
use petabricks.RuleIr.Body.Shapes.{
  in_loop, in_cond, jafter, jelse, label, after_body, not-some, wrote, comment_lines, seq_lines,
  body_lines, ending, expand_cond_lines, expand_cond_else_lines, expand_loop_lines,
}
use petabricks.RuleIr.Body.Labels.{heads, Grows, print_stmt-Grows, print_extracted-Grows}
use petabricks.RuleIr.Body.Linked.{
  cond_else_links, loop_links, print_body-heads, Linked, Linked-append, print_body-Linked,
}

abbrev IsFound : List Line → Name → Type 0
IsFound program n = (ls : List Line) × (find n program ≡ some ls)

-- Each function that the lines call starts in `program`.
abbrev pub AllFound : List Line → List Line → Type 0
AllFound program [] = Unit {0}
AllFound program (return_call n ∷ ls) = IsFound program n × AllFound program ls
AllFound program (return_task n ∷ ls) = IsFound program n × AllFound program ls
AllFound program (return_hook n ∷ ls) = IsFound program n × AllFound program ls
AllFound program (_ ∷ ls) = AllFound program ls

abbrev TargetsFound : List Line → List Name → Type 0
TargetsFound program [] = Unit {0}
TargetsFound program (n ∷ ns) = IsFound program n × TargetsFound program ns

AllFound-append :
    (program xs ys : List Line)
    → AllFound program xs
    → AllFound program ys
    → AllFound program (xs ++ ys)
AllFound-append program [] ys h k = k
AllFound-append program (return_call n ∷ xs) ys h k = (h.0, AllFound-append program xs ys h.1 k)
AllFound-append program (return_task n ∷ xs) ys h k = (h.0, AllFound-append program xs ys h.1 k)
AllFound-append program (return_hook n ∷ xs) ys h k = (h.0, AllFound-append program xs ys h.1 k)
AllFound-append program (_ ∷ xs) ys h k = AllFound-append program xs ys h k

module _ (program : List Line) where
  -- What a call writes, with known targets, calls only functions that start.
  record IsScoped (m : Writer) : Type 0 where
    run :
        (g : Gen) (ls : List Line) (g' : Gen) (post : List Line)
        → m g ≡ some (ls, g')
        → Linked program (ls ++ post)
        → TargetsFound program g.break_targets
        → TargetsFound program g.continue_targets
        → AllFound program ls

  jump_last-found :
      (ns : List Name) (g : Gen) (ls : List Line) (g' : Gen)
      → jump_last ns g ≡ some (ls, g')
      → TargetsFound program ns
      → AllFound program ls
  unfolding jump_last continue_jump
  jump_last-found [] g ls g' h t = absurd (not-some h)
  jump_last-found (n ∷ ns) g ls g' h t = rw (wrote h) (t.0, tt)

  comment-IsScoped : (t : String) {k : Writer} → IsScoped k → IsScoped (write (comment t) >> k)
  comment-IsScoped t {k} w = record {
    run = λ g ls g' post h l b c.
        let (x, q, e) = comment_lines t k g ls g' h in rw e (w.run g x g' post q (rw e at l) b c);
  }

  written-IsScoped : (s : Stmt) → IsScoped (write (stmt_text s))
  written-IsScoped s = record { run = λ g ls g' post h l b c. rw (wrote h) tt }

  print_kind-IsScoped : (κ : Kind) (s : Stmt) → IsScoped (print_kind κ s)
  unfolding print_kind
  print_kind-IsScoped breaks s =
      comment-IsScoped "break;"
        (record { run = λ g ls g' post h l b c. jump_last-found g.break_targets g ls g' h b })
  print_kind-IsScoped continues s =
      comment-IsScoped "continue;"
        (record { run = λ g ls g' post h l b c. jump_last-found g.continue_targets g ls g' h c })
  print_kind-IsScoped syncs s = record {
    run = λ g ls g' post h l b c. let e = wrote h in rw e ((post, (rw e at l).0), tt);
  }
  print_kind-IsScoped calls s = record {
    run = λ g ls g' post h l b c. let e = wrote h in rw e ((post, (rw e at l).0), tt);
  }
  print_kind-IsScoped spawns s = record {
    run = λ g ls g' post h l b c.
        let e = wrote h in let f = (rw e at l).0 in rw e ((post, f), ((post, f), tt));
  }
  print_kind-IsScoped plain s = written-IsScoped s

  choice-IsScoped :
      (b : Bool) {m k : Writer} → IsScoped m → IsScoped k → IsScoped (if b then m else k)
  choice-IsScoped true w v = w
  choice-IsScoped false w v = v

  expand_cond-IsScoped : (e : Expr) (part : Writer) → IsScoped part → IsScoped (expand_cond e part)
  expand_cond-IsScoped e part w = record {
    run = λ g ls g' post h l b c.
        let (inner, q, k) = expand_cond_lines e part g ls g' h in
        let (f, l') = (rw k at l) in
        let l'' = subst (Linked program) (append_assoc inner (label (jafter g) []) post) l' in
        let found = (Linked-append program inner (label (jafter g) post) l'').0 in
        rw k (
          (post, found),
          (
            (_, f),
            AllFound-append program inner (label (jafter g) [])
                (w.run (in_cond g) inner g' (label (jafter g) post) q l'' b c) ((post, found), tt),
          ),
        );
  }

  expand_cond_else-IsScoped :
      (e : Expr) (m k : Writer)
      → ((g : Gen) (ls : List Line) (g' : Gen) → m g ≡ some (ls, g') → Grows g ls g')
      → IsScoped m
      → IsScoped k
      → IsScoped (expand_cond_else e m k)
  expand_cond_else-IsScoped e m k grows w v = record {
    run = λ g ls g' post h l b c.
        let (t, g₁, r, q, q', eq) = expand_cond_else_lines e m k g ls g' h in
        let (f, l') = (rw eq at l) in
        let (_, l'', start, l₂, found) = cond_else_links program g t r post l' in
        let kept = grows (in_cond g) t g₁ q in
        rw eq (
          (_, start),
          (
            (_, f),
            AllFound-append program t
                (return_call (jafter g) ∷ label (jelse g) (r ++ label (jafter g) []))
                (w.run (in_cond g) t g₁ _ q l'' b c)
                (
                  (post, found),
                  (
                    (_, start),
                    AllFound-append program r (label (jafter g) [])
                        (v.run g₁ r g' (label (jafter g) post) q' l₂
                          (subst (TargetsFound program) (sym kept.breaks_kept) b)
                          (subst (TargetsFound program) (sym kept.continues_kept) c))
                        ((post, found), tt),
                  ),
                ),
          ),
        );
  }

  expand_loop-IsScoped :
      (d t i : Expr) (body : Writer) → IsScoped body → IsScoped (expand_loop d t i body)
  expand_loop-IsScoped d t i body w = record {
    run = λ g ls g' post h l b c.
        let (inner, g₁, q, e, _) = expand_loop_lines d t i body g ls g' h in
        let (f, l') = (rw e at l) in
        let l'' = subst (Linked program) (append_assoc inner (after_body g i []) post) l' in
        let (inc, after) = loop_links program g i inner post l'' in
        rw e (
          (_, f),
          (
            (post, after),
            AllFound-append program inner (after_body g i [])
                (w.run (in_loop g) inner g₁ (after_body g i post) q l'' ((post, after), b)
                  ((_, inc), c))
                ((_, inc), ((_, f), ((post, after), tt))),
          ),
        );
  }

  mutual
    unfolding print_stmt

    print_stmt-IsScoped : (s : Stmt) → IsScoped (print_stmt s)
    print_stmt-IsScoped (basic es) = print_kind-IsScoped (kind_of es) (basic es)
    print_stmt-IsScoped (raw t) = written-IsScoped (raw t)
    print_stmt-IsScoped (loop d t i s) =
        choice-IsScoped (needs_expansion (loop d t i s))
          (expand_loop-IsScoped d t i (print_extracted s) (print_extracted-IsScoped s))
          (written-IsScoped (loop d t i s))
    print_stmt-IsScoped (cond e s) =
        choice-IsScoped (needs_expansion (cond e s))
          (expand_cond-IsScoped e (print_extracted s) (print_extracted-IsScoped s))
          (written-IsScoped (cond e s))
    print_stmt-IsScoped (cond_else e s r) =
        choice-IsScoped (needs_expansion (cond_else e s r))
          (expand_cond_else-IsScoped e (print_extracted s) (print_extracted r)
            (print_extracted-Grows s) (print_extracted-IsScoped s) (print_extracted-IsScoped r))
          (written-IsScoped (cond_else e s r))
    print_stmt-IsScoped (switch e s) =
        choice-IsScoped (needs_expansion (switch e s))
          (record { run = λ g ls g' post h l b c. absurd (not-some h) })
          (written-IsScoped (switch e s))
    print_stmt-IsScoped (block b) =
        choice-IsScoped (needs_expansion (block b))
          (comment-IsScoped "expanded block statement" (print_block-IsScoped b))
          (written-IsScoped (block b))

    print_extracted-IsScoped : (s : Stmt) → IsScoped (print_extracted s)
    print_extracted-IsScoped (block b) = print_block-IsScoped b
    print_extracted-IsScoped _ = record { run = λ g ls g' post h l b c. absurd (not-some h) }

    print_block-IsScoped : (b : Block) → IsScoped (print_block b)
    print_block-IsScoped stop = record { run = λ g ls g' post h l b c. rw (wrote h) tt }
    print_block-IsScoped (then_do s x) = record {
      run = λ g ls g' post h l b c.
          let (xs, g₁, ys, q, q', e) = seq_lines (print_stmt s) (print_block x) g ls g' h in
          let kept = print_stmt-Grows s g xs g₁ q in
          let l' = subst (Linked program) (append_assoc xs ys post) (rw e at l) in
          rw e (
            AllFound-append program xs ys
              ((print_stmt-IsScoped s).run g xs g₁ (ys ++ post) q l' b c)
              ((print_block-IsScoped x).run g₁ ys g' post q'
                (Linked-append program xs (ys ++ post) l')
                (subst (TargetsFound program) (sym kept.breaks_kept) b)
                (subst (TargetsFound program) (sym kept.continues_kept) c)));
    }

-- In the functions that are written for a whole body, each call is of a function that is written once,
-- and so has one meaning.
pub print_body-AllFound :
    (b : Block) (counter : ℕ) (ls : List Line) (g' : Gen)
    → print_body b (record { counter = counter; break_targets = []; continue_targets = [] })
      ≡ some (ls, g')
    → AllFound ls ls × ((k : ℕ) → heads k ls ≤ 1)
print_body-AllFound b counter ls g' h =
    let g : Gen = record { counter = counter; break_targets = []; continue_targets = [] } in
    let (a, q, e) = body_lines b g ls g' h in
    let linked = subst (Linked ls) e (print_body-Linked b g ls g' h) in
    (
      subst (AllFound ls) (sym e) (
          AllFound-append ls a ending ((print_block-IsScoped ls b).run g a g' ending q linked tt tt)
            tt),
      λ k. print_body-heads b g ls g' k h,
    )
