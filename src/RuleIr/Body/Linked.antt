-- ===== src/RuleIr/Body/Linked.antt =====
-- Each function of a body is found by its name.
use text.Mathlib.TextPositions.{eq_refl}
use petabricks.Base.{
  ap, ◌∙◌, ℕ, ◌+◌, ◌≤◌, ◌≡◌, true, false, some, List, [], ◌∷◌, ◌++◌, append_assoc, ◌==◌, arith,
  refl, subst, ==_iff, inl, inr, Bool-cases,
}
use petabricks.RuleIr.{Expr, Block}
use petabricks.RuleIr.Body.{
  return_call, expr_text, Name, same_name, Line, begin_func, Gen, print_body,
}
use petabricks.RuleIr.Body.Machine.{find}
use petabricks.RuleIr.Body.Shapes.{
  jafter, jelse, jbody, jinc, label, after_body, ending, body_lines,
}
use petabricks.RuleIr.Body.Labels.{heads, heads-append, print_block-Grows}

-- In `program`, each function that starts in the lines is what follows there.
abbrev pub Linked : List Line → List Line → Type 0
Linked program [] = Unit {0}
Linked program (begin_func n ∷ ls) = (find n program ≡ some ls) × Linked program ls
Linked program (_ ∷ ls) = Linked program ls

pub Linked-append : (program xs ys : List Line) → Linked program (xs ++ ys) → Linked program ys
Linked-append program [] ys h = h
Linked-append program (begin_func n ∷ xs) ys h = Linked-append program xs ys h.1
Linked-append program (_ ∷ xs) ys h = Linked-append program xs ys h

same_name_refl : (n : Name) → same_name n n ≡ true
unfolding same_name
same_name_refl n = rw ((==_iff n.number n.number).1 refl, eq_refl n.base) refl

same_name_apart : (m n : Name) → m.number == n.number ≡ false → same_name m n ≡ false
unfolding same_name
same_name_apart m n e = rw e refl

find_past :
    (n : Name) (xs ls : List Line)
    → heads n.number xs ≡ 0
    → find n (xs ++ begin_func n ∷ ls) ≡ some ls
unfolding find
find_past n [] ls h = rw (same_name_refl n) refl
find_past n (begin_func m ∷ xs) ls h = elim (Bool-cases (m.number == n.number)) [
  | inl e ↦ absurd (omega (arith, (rw e at h)))
  | inr e ↦ rw (same_name_apart m n e) (find_past n xs ls (omega (arith, (rw e at h))))
]
find_past n (_ ∷ xs) ls h = find_past n xs ls h

alone :
    (n : Name) (xs ls : List Line)
    → heads n.number (xs ++ begin_func n ∷ ls) ≤ 1
    → heads n.number xs ≡ 0
alone n xs ls h = omega (arith, heads-append n.number xs (begin_func n ∷ ls), own n.number ls n)
  where
    own :
        (k : ℕ) (ls : List Line) (n : Name)
        → heads n.number (begin_func n ∷ ls) ≡ 1 + heads n.number ls
    own k ls n = ground arith

-- The lines `ls` after `xs`, where no two functions have the same number.
Linked-after : (xs ls : List Line) → ((k : ℕ) → heads k (xs ++ ls) ≤ 1) → Linked (xs ++ ls) ls
Linked-after xs [] h = tt
Linked-after xs (begin_func n ∷ ls) h = (
  find_past n xs ls (alone n xs ls (h n.number)),
  subst (λ p. Linked p ls) (append_assoc xs (begin_func n ∷ []) ls)
      (Linked-after (xs ++ begin_func n ∷ []) ls
        (λ k. rw (append_assoc xs (begin_func n ∷ []) ls) (h k))),
)
Linked-after xs (l ∷ ls) h =
    subst (λ p. Linked p ls) (append_assoc xs (l ∷ []) ls)
      (Linked-after (xs ++ l ∷ []) ls (λ k. rw (append_assoc xs (l ∷ []) ls) (h k)))

-- Where the pass writes a body, no two of the functions have the same number.
pub print_body-heads :
    (b : Block) (g : Gen) (ls : List Line) (g' : Gen) (k : ℕ)
    → print_body b g ≡ some (ls, g')
    → heads k ls ≤ 1
print_body-heads b g ls g' k h =
    let (a, p, e) = body_lines b g ls g' h in
    rw e (ground (arith, heads-append k a ending, (print_block-Grows b g a g' p).named k))

pub print_body-Linked :
    (b : Block) (g : Gen) (ls : List Line) (g' : Gen)
    → print_body b g ≡ some (ls, g')
    → Linked ls ls
print_body-Linked b g ls g' h = Linked-after [] ls (λ k. print_body-heads b g ls g' k h)

module _ (program : List Line) where
  -- The lines of an `if` with an else part, and where its functions start.
  pub cond_else_links :
      (g : Gen) (t r post : List Line)
      → Linked program
          ((t ++ (return_call (jafter g) ∷ label (jelse g) (r ++ label (jafter g) []))) ++ post)
      → ((t ++ (return_call (jafter g) ∷ label (jelse g) (r ++ label (jafter g) []))) ++ post
          ≡ t ++ (return_call (jafter g) ∷ label (jelse g) (r ++ label (jafter g) post)))
        × Linked program
            (t ++ (return_call (jafter g) ∷ label (jelse g) (r ++ label (jafter g) post)))
        × (find (jelse g) program ≡ some (r ++ label (jafter g) post))
        × Linked program (r ++ label (jafter g) post)
        × (find (jafter g) program ≡ some post)
  cond_else_links g t r post l =
      let rest = return_call (jafter g) ∷ label (jelse g) (r ++ label (jafter g) []) in
      let inner = append_assoc r (label (jafter g) []) post in
      let joined =
        append_assoc t rest post
        ∙ ap (λ x. t ++ (return_call (jafter g) ∷ label (jelse g) x)) inner in
      let l' = subst (Linked program) joined l in
      let after_t =
        Linked-append program t
          (return_call (jafter g) ∷ label (jelse g) (r ++ label (jafter g) post)) l' in
      let after_r = Linked-append program r (label (jafter g) post) after_t.1 in
      (joined, l', after_t.0, after_t.1, after_r.0)

  -- Where the functions of a loop start.
  pub loop_links :
      (g : Gen) (i : Expr) (inner post : List Line)
      → Linked program (inner ++ after_body g i post)
      → (find (jinc g) program
          ≡ some (expr_text i ∷ (return_call (jbody g) ∷ label (jafter g) post)))
        × (find (jafter g) program ≡ some post)
  loop_links g i inner post l =
      let after = Linked-append program inner (after_body g i post) l in (after.0, after.1.0)
