-- ===== src/RuleIr/Body/Quiet.antt =====
-- A statement without `break` and `continue` leaves no loop.
use petabricks.Base.{◌≡◌, Bool, true, false, ◌||◌, refl, false≢true, arith, sym, ◌∙◌}
use petabricks.RuleIr.{Expr, Exprs, Stmt, Block, leaf_in, leaf_in_block, any_leaf}
use petabricks.RuleIr.Meaning.{
  breaks, continues, kind_of, Signal, normal, returned, Cpp, Exec, Rounds, Run,
}
use petabricks.RuleIr.Body.{needs_expansion}

abbrev pub Quiet : Signal → Type 0
Quiet normal = Unit {0}
Quiet returned = Unit {0}
Quiet _ = ⊥

has_break : (es : Exprs) → kind_of es ≡ breaks → any_leaf es "break" ≡ true
unfolding kind_of
has_break es h = ground arith

has_continue : (es : Exprs) → kind_of es ≡ continues → any_leaf es "continue" ≡ true
unfolding kind_of
has_continue es h = ground arith

or_split : (a b : Bool) → a || b ≡ false → (a ≡ false) × (b ≡ false)
or_split true b h = cc
or_split false b h = (refl, h)

-- A statement that the pass does not take apart has no jump.
pub needs-no_jump :
    (s : Stmt)
    → needs_expansion s ≡ false
    → (leaf_in s "break" ≡ false) × (leaf_in s "continue" ≡ false)
unfolding needs_expansion
needs-no_jump s h = (ground arith, ground arith)

module _ {S : Type 0} {c : Cpp S} where
  pub Rounds-Quiet :
      {t i : Expr} {s : Stmt} {σ σ' : S} {sg : Signal} → Rounds c t i s σ sg σ' → Quiet sg
  Rounds-Quiet (Rounds.ended p) = tt
  Rounds-Quiet (Rounds.again p d e r) = Rounds-Quiet r
  Rounds-Quiet (Rounds.cut_short p d e r) = Rounds-Quiet r
  Rounds-Quiet (Rounds.broken p d) = tt
  Rounds-Quiet (Rounds.left p d) = tt

  mutual
    unfolding leaf_in

    pub Exec-Quiet :
        {s : Stmt} {σ σ' : S} {sg : Signal}
        → Exec c s σ sg σ'
        → leaf_in s "break" ≡ false
        → leaf_in s "continue" ≡ false
        → Quiet sg
    Exec-Quiet (Exec.goes_on p q) h k = tt
    Exec-Quiet (Exec.leaves p q) h k = tt
    Exec-Quiet (Exec.breaking {es} p) h k = absurd (false≢true (sym h ∙ has_break es p))
    Exec-Quiet (Exec.continuing {es} p) h k = absurd (false≢true (sym k ∙ has_continue es p))
    Exec-Quiet (Exec.syncing p q) h k = tt
    Exec-Quiet (Exec.calling p q r) h k = tt
    Exec-Quiet (Exec.call_leaves p q) h k = tt
    Exec-Quiet (Exec.spawning p q r) h k = tt
    Exec-Quiet (Exec.spawn_leaves p q) h k = tt
    Exec-Quiet (Exec.looping p r) h k = Rounds-Quiet r
    Exec-Quiet (Exec.chosen p d) h k = Exec-Quiet d (or_split _ _ h).1 (or_split _ _ k).1
    Exec-Quiet (Exec.skipped p) h k = tt
    Exec-Quiet (Exec.then_chosen p d) h k =
        Exec-Quiet d (or_split _ _ (or_split _ _ h).1).0 (or_split _ _ (or_split _ _ k).1).0
    Exec-Quiet (Exec.else_chosen p d) h k =
        Exec-Quiet d (or_split _ _ (or_split _ _ h).1).1 (or_split _ _ (or_split _ _ k).1).1
    Exec-Quiet (Exec.running r) h k = Run-Quiet r h k

    Run-Quiet :
        {b : Block} {σ σ' : S} {sg : Signal}
        → Run c b σ sg σ'
        → leaf_in_block b "break" ≡ false
        → leaf_in_block b "continue" ≡ false
        → Quiet sg
    Run-Quiet Run.done h k = tt
    Run-Quiet (Run.next d r) h k = Run-Quiet r (or_split _ _ h).1 (or_split _ _ k).1
    Run-Quiet (Run.jumped d n) h k = Exec-Quiet d (or_split _ _ h).0 (or_split _ _ k).0
