-- ===== src/RuleIr/Meaning.antt =====
-- What a rule's body does. The C++ text of a statement or an expression, and what other tasks do while
-- the body waits, are functions of the state, which are parameters.
use petabricks.Base.{Bool, true, false, ◌≡◌, ◌≢◌, if◌then◌else◌}
use petabricks.RuleIr.{
  Expr, Exprs, Stmt, basic, raw, loop, cond, cond_else, switch, block, Block, stop, then_do,
  any_leaf,
}

-- What a basic statement is for.
pub data Kind : Type 0 where
  breaks continues syncs calls spawns plain : Kind

unfoldable pub kind_of : Exprs → Kind
unfolding any_leaf
kind_of es =
    if any_leaf es "break"
    then breaks
    else if any_leaf es "continue"
    then continues
    else if any_leaf es "SYNC"
    then syncs
    else if any_leaf es "CALL"
    then calls
    else if any_leaf es "SPAWN"
    then spawns
    else plain

-- The statements that are not taken apart here.
unfoldable pub is_leaf : Stmt → Bool
is_leaf (basic es) = true
is_leaf (raw t) = true
is_leaf (switch e s) = true
is_leaf _ = false

unfoldable pub is_plain : Stmt → Bool
unfolding kind_of
is_plain (basic es) = elim (kind_of es) [ plain ↦ true | _ ↦ false ]
is_plain (raw t) = true
is_plain (switch e s) = true
is_plain _ = false

pub data Signal : Type 0 where
  normal broke continued returned : Signal

pub record Cpp (S : Type 0) : Type 0 where
  -- Whether the text of a statement returns from the function, and the state after it.
  pub leaf : Stmt → S → Bool × S
  pub eval : Expr → S → S
  pub test : Expr → S → Bool × S
  -- The tasks that have been spawned, and all that they wait for, have run.
  pub sync : S → S
  -- `useContinuation()`, and then other tasks may have run.
  pub uses_continuation : S → Bool
  pub resume : S → S

-- After a spawn.
unfoldable pub yield : {S : Type 0} → Cpp S → S → S
yield c σ = if c.uses_continuation σ then c.resume σ else σ

module _ {S : Type 0} (c : Cpp S) where
  mutual
    -- `Exec s σ sg σ'`: the statement started in `σ` ends in `σ'`, with the signal `sg`.
    pub data Exec : Stmt → S → Signal → S → Type 0 where
      goes_on :
          {s : Stmt} {σ σ' : S} → is_plain s ≡ true → c.leaf s σ ≡ (false, σ') → Exec s σ normal σ'
      leaves :
          {s : Stmt} {σ σ' : S} → is_plain s ≡ true → c.leaf s σ ≡ (true, σ') → Exec s σ returned σ'
      breaking : {es : Exprs} {σ : S} → kind_of es ≡ breaks → Exec (basic es) σ broke σ
      continuing : {es : Exprs} {σ : S} → kind_of es ≡ continues → Exec (basic es) σ continued σ
      syncing :
          {es : Exprs} {σ σ' : S} → kind_of es ≡ syncs → c.sync σ ≡ σ' → Exec (basic es) σ normal σ'
      calling :
          {es : Exprs} {σ σ₁ σ' : S}
          → kind_of es ≡ calls
          → c.leaf (basic es) σ ≡ (false, σ₁)
          → c.sync σ₁ ≡ σ'
          → Exec (basic es) σ normal σ'
      call_leaves :
          {es : Exprs} {σ σ' : S}
          → kind_of es ≡ calls
          → c.leaf (basic es) σ ≡ (true, σ')
          → Exec (basic es) σ returned σ'
      spawning :
          {es : Exprs} {σ σ₁ σ' : S}
          → kind_of es ≡ spawns
          → c.leaf (basic es) σ ≡ (false, σ₁)
          → yield c σ₁ ≡ σ'
          → Exec (basic es) σ normal σ'
      spawn_leaves :
          {es : Exprs} {σ σ' : S}
          → kind_of es ≡ spawns
          → c.leaf (basic es) σ ≡ (true, σ')
          → Exec (basic es) σ returned σ'
      looping :
          {d t i : Expr} {s : Stmt} {σ σ₁ σ' : S} {sg : Signal}
          → c.eval d σ ≡ σ₁
          → Rounds t i s σ₁ sg σ'
          → Exec (loop d t i s) σ sg σ'
      chosen :
          {e : Expr} {s : Stmt} {σ σ₁ σ' : S} {sg : Signal}
          → c.test e σ ≡ (true, σ₁)
          → Exec s σ₁ sg σ'
          → Exec (cond e s) σ sg σ'
      skipped :
          {e : Expr} {s : Stmt} {σ σ' : S} → c.test e σ ≡ (false, σ') → Exec (cond e s) σ normal σ'
      then_chosen :
          {e : Expr} {s r : Stmt} {σ σ₁ σ' : S} {sg : Signal}
          → c.test e σ ≡ (true, σ₁)
          → Exec s σ₁ sg σ'
          → Exec (cond_else e s r) σ sg σ'
      else_chosen :
          {e : Expr} {s r : Stmt} {σ σ₁ σ' : S} {sg : Signal}
          → c.test e σ ≡ (false, σ₁)
          → Exec r σ₁ sg σ'
          → Exec (cond_else e s r) σ sg σ'
      running : {b : Block} {σ σ' : S} {sg : Signal} → Run b σ sg σ' → Exec (block b) σ sg σ'

    -- The rounds of a loop, from its test on.
    pub data Rounds : Expr → Expr → Stmt → S → Signal → S → Type 0 where
      ended :
          {t i : Expr} {s : Stmt} {σ σ' : S} → c.test t σ ≡ (false, σ') → Rounds t i s σ normal σ'
      again :
          {t i : Expr} {s : Stmt} {σ σ₁ σ₂ σ₃ σ' : S} {sg : Signal}
          → c.test t σ ≡ (true, σ₁)
          → Exec s σ₁ normal σ₂
          → c.eval i σ₂ ≡ σ₃
          → Rounds t i s σ₃ sg σ'
          → Rounds t i s σ sg σ'
      cut_short :
          {t i : Expr} {s : Stmt} {σ σ₁ σ₂ σ₃ σ' : S} {sg : Signal}
          → c.test t σ ≡ (true, σ₁)
          → Exec s σ₁ continued σ₂
          → c.eval i σ₂ ≡ σ₃
          → Rounds t i s σ₃ sg σ'
          → Rounds t i s σ sg σ'
      broken :
          {t i : Expr} {s : Stmt} {σ σ₁ σ' : S}
          → c.test t σ ≡ (true, σ₁)
          → Exec s σ₁ broke σ'
          → Rounds t i s σ normal σ'
      left :
          {t i : Expr} {s : Stmt} {σ σ₁ σ' : S}
          → c.test t σ ≡ (true, σ₁)
          → Exec s σ₁ returned σ'
          → Rounds t i s σ returned σ'

    pub data Run : Block → S → Signal → S → Type 0 where
      done : {σ : S} → Run stop σ normal σ
      next :
          {s : Stmt} {b : Block} {σ σ₁ σ' : S} {sg : Signal}
          → Exec s σ normal σ₁
          → Run b σ₁ sg σ'
          → Run (then_do s b) σ sg σ'
      jumped :
          {s : Stmt} {b : Block} {σ σ' : S} {sg : Signal}
          → Exec s σ sg σ'
          → sg ≢ normal
          → Run (then_do s b) σ sg σ'
