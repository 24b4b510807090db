-- ===== src/RuleIr/Body/Shapes.antt =====
-- What the pass writes for a statement that it takes apart, around what it writes for its parts.
use Prim.Native.String.{String}
use petabricks.Base.{
  ap, ◌∙◌, sym, ℕ, ◌+◌, ◌≡◌, Option, none, some, List, [], ◌∷◌, ◌++◌, inl, inr, Option-cases,
}
use petabricks.RuleIr.{Expr, Block}
use petabricks.RuleIr.Body.{
  Name, Line, comment, expr_text, begin_if_not, end_if, return_call, end_func, begin_func, Gen,
  Writer, ◌>>◌, write, return_void, print_block, print_body, pop_last, expand_cond,
  expand_cond_else, expand_loop,
}

-- A function ends with a call of the next.
abbrev pub label : Name → List Line → List Line
label n ls = return_call n ∷ (end_func ∷ (begin_func n ∷ ls))

pub not-some : {o : List Line × Gen} → ◌≡◌ {A = Option (List Line × Gen)} none (some o) → ⊥
not-some h = cc

pub wrote :
    {ls ls' : List Line} {g g' : Gen}
    → ◌≡◌ {A = Option (List Line × Gen)} (some (ls, g)) (some (ls', g'))
    → ls' ≡ ls
wrote h = cc

pub sent :
    {ls ls' : List Line} {g g' : Gen}
    → ◌≡◌ {A = Option (List Line × Gen)} (some (ls, g)) (some (ls', g'))
    → g' ≡ g
sent h = cc

abbrev after_names : ℕ → Gen → Gen
after_names k g = record g { counter = k }

abbrev pub jbody : Gen → Name
jbody g = record { base = "loopbody_"; number = g.counter }

abbrev pub jinc : Gen → Name
jinc g = record { base = "increment_"; number = g.counter + 1 }

abbrev pub jafter : Gen → Name
jafter g = record { base = "after_"; number = g.counter + 1 + 1 }

abbrev pub jthen : Gen → Name
jthen g = record { base = "then_"; number = g.counter }

abbrev pub jelse : Gen → Name
jelse g = record { base = "else_"; number = g.counter + 1 }

-- The generator in the body of a loop, and after it.
abbrev pub in_loop : Gen → Gen
in_loop g = record {
  counter = g.counter + 1 + 1 + 1;
  break_targets = jafter g ∷ g.break_targets;
  continue_targets = jinc g ∷ g.continue_targets;
}

abbrev out_of_loop : Gen → Gen
out_of_loop g = record g {
  break_targets = pop_last g.break_targets;
  continue_targets = pop_last g.continue_targets;
}

abbrev pub after_body : Gen → Expr → List Line → List Line
after_body g i ls = label (jinc g) (expr_text i ∷ (return_call (jbody g) ∷ label (jafter g) ls))

abbrev pub loop_body : Gen → Expr → Expr → List Line → List Line → List Line
loop_body g t i inner ls =
    begin_if_not t ∷ (return_call (jafter g) ∷ (end_if ∷ (inner ++ after_body g i ls)))

abbrev pub in_cond : Gen → Gen
in_cond g = record g { counter = g.counter + 1 + 1 + 1 }

abbrev cond_lines : Gen → Expr → Name → List Line → List Line
cond_lines g e jelse ls =
    comment "expanded if statement"
    ∷ (begin_if_not e ∷ (return_call jelse ∷ (end_if ∷ label (jthen g) ls)))

pub expand_cond_lines :
    (e : Expr) (then_part : Writer) (g : Gen) (ls : List Line) (g' : Gen)
    → expand_cond e then_part g ≡ some (ls, g')
    → (inner : List Line) × (then_part (in_cond g) ≡ some (inner, g'))
      × (ls ≡ cond_lines g e (jafter g) (inner ++ label (jafter g) []))
unfolding expand_cond
expand_cond_lines e then_part g ls g' h = elim (Option-cases (then_part (in_cond g))) [
  | inl q ↦ absurd (not-some (rw q at h))
  | inr ((inner, g₁), q) ↦
      let k = (rw q at h) in (inner, q ∙ ap (λ x. some (inner, x)) (sym (sent k)), wrote k)
]

pub expand_cond_else_lines :
    (e : Expr) (then_part else_part : Writer) (g : Gen) (ls : List Line) (g' : Gen)
    → expand_cond_else e then_part else_part g ≡ some (ls, g')
    → (t : List Line) × (g₁ : Gen) × (r : List Line) × (then_part (in_cond g) ≡ some (t, g₁))
      × (else_part g₁ ≡ some (r, g'))
      × (ls
          ≡ cond_lines g e
              (jelse g)
              (t ++ (return_call (jafter g) ∷ label (jelse g) (r ++ label (jafter g) []))))
unfolding expand_cond_else
expand_cond_else_lines e then_part else_part g ls g' h =
    elim (Option-cases (then_part (in_cond g))) [
      | inl q ↦ absurd (not-some (rw q at h))
      | inr ((t, g₁), q) ↦ elim (Option-cases (else_part g₁)) [
        | inl p ↦ absurd (not-some (rw (q, p) at h))
        | inr ((r, g₂), p) ↦
            let k = (rw (q, p) at h) in
            (t, g₁, r, q, p ∙ ap (λ x. some (r, x)) (sym (sent k)), wrote k)
      ]
    ]

pub expand_loop_lines :
    (d t i : Expr) (body : Writer) (g : Gen) (ls : List Line) (g' : Gen)
    → expand_loop d t i body g ≡ some (ls, g')
    → (inner : List Line) × (g₁ : Gen) × (body (in_loop g) ≡ some (inner, g₁))
      × (ls
          ≡ comment "expanded loop statement"
            ∷ (expr_text d ∷ label (jbody g) (loop_body g t i inner [])))
      × (g' ≡ out_of_loop g₁)
unfolding expand_loop
expand_loop_lines d t i body g ls g' h = elim (Option-cases (body (in_loop g))) [
  | inl q ↦ absurd (not-some (rw q at h))
  | inr ((inner, g₁), q) ↦ let k = (rw q at h) in (inner, g₁, q, wrote k, sent k)
]

pub seq_lines :
    (m k : Writer) (g : Gen) (ls : List Line) (g' : Gen)
    → (m >> k) g ≡ some (ls, g')
    → (a : List Line) × (g₁ : Gen) × (b : List Line) × (m g ≡ some (a, g₁))
      × (k g₁ ≡ some (b, g'))
      × (ls ≡ a ++ b)
seq_lines m k g ls g' h = elim (Option-cases (m g)) [
  | inl q ↦ absurd (not-some (rw q at h))
  | inr ((a, g₁), q) ↦ elim (Option-cases (k g₁)) [
    | inl p ↦ absurd (not-some (rw (q, p) at h))
    | inr ((b, g₂), p) ↦
        let e = (rw (q, p) at h) in (a, g₁, b, q, p ∙ ap (λ x. some (b, x)) (sym (sent e)), wrote e)
  ]
]

pub comment_lines :
    (t : String) (k : Writer) (g : Gen) (ls : List Line) (g' : Gen)
    → (write (comment t) >> k) g ≡ some (ls, g')
    → (b : List Line) × (k g ≡ some (b, g')) × (ls ≡ comment t ∷ b)
comment_lines t k g ls g' h = elim (Option-cases (k g)) [
  | inl p ↦ absurd (not-some (rw p at h))
  | inr ((b, g₂), p) ↦ let e = (rw p at h) in (b, p ∙ ap (λ x. some (b, x)) (sym (sent e)), wrote e)
]

-- The end of a body.
abbrev pub ending : List Line
ending = return_void ∷ (end_func ∷ [])

pub body_lines :
    (b : Block) (g : Gen) (ls : List Line) (g' : Gen)
    → print_body b g ≡ some (ls, g')
    → (a : List Line) × (print_block b g ≡ some (a, g')) × (ls ≡ a ++ ending)
unfolding print_body
body_lines b g ls g' h = elim (Option-cases (print_block b g)) [
  | inl p ↦ absurd (not-some (rw p at h))
  | inr ((a, g₁), p) ↦ let e = (rw p at h) in (a, p ∙ ap (λ x. some (a, x)) (sym (sent e)), wrote e)
]
