-- ===== src/Deque/Interleaving/Conservation.antt =====
-- The deque as a list of tasks, oldest first: every move of an interleaving is one move of it.
use mathlib.Core.List.{Perm, perm_middle}
use mathlib.Core.List.Perm
use petabricks.Base.{
  ℕ, ◌+◌, ◌-◌, ◌≤◌, ◌<◌, ◌≡◌, refl, List, [], ◌∷◌, ◌++◌, sym, ◌∙◌, append_assoc, append-nil, arith,
}
use petabricks.Deque.{Deque, init}
use petabricks.Deque.Interleaving.{
  Owner, State, Thief, Move, Event, silent, pushed, popped, stolen, found_empty, found_empty_locked,
  steal_failed, call_push, call_pop, owner_goes, thief_goes, owner_step, thief_step, start_push,
  start_pop, step, run,
}
use petabricks.Deque.Interleaving.Owner.{
  idle, push_reset, push_store, push_bump, push_grow, pop_dec, pop_check, pop_wait,
}
use petabricks.Deque.Interleaving.Thief.{absent, locked, take}
use petabricks.Deque.Interleaving.Invariant.{
  settled_head, settled_tail, IsSound, ThiefOk, at, step-IsSound, init-IsSound,
}
use petabricks.Deque.Interleaving.Window.{slice, slice-nil, slice-snoc, slice-cons, slice-write}

settled_head-le : (th : Thief) (h hi : ℕ) → ThiefOk th h hi → settled_head th h ≤ hi
settled_head-le absent h hi v = omega arith
settled_head-le _ h hi v = omega arith

module _ {A : Type 0} where
  abbrev pub contents : State A → List A
  contents s = slice s.deque.array (settled_head s.thief s.deque.h) (settled_tail s.owner s.deque.t)

  -- What an event does to the abstract deque.
  abbrev Effect : Event A → List A → List A → Type 0
  Effect (pushed x) before after = after ≡ before ++ x ∷ []
  Effect (popped x) before after = before ≡ after ++ x ∷ []
  Effect (stolen x) before after = before ≡ x ∷ after
  Effect found_empty_locked before after = (before ≡ []) × (after ≡ [])
  Effect _ before after = after ≡ before

  abbrev pub Refines : State A → State A × Event A → Type 0
  Refines s r = Effect r.1 (contents s) (contents r.0)

  thief_step-Refines :
      (d : Deque A) (o : Owner A) (th : Thief)
      → IsSound (at d o th)
      → Refines (at d o th) (thief_step (at d o th) th)
  unfolding thief_step
  thief_step-Refines d o take v =
      let hi = settled_tail o d.t in ground (arith, slice-cons d.array (d.h - 1) hi)
  thief_step-Refines d o _ v = ground arith

  owner_step-Refines :
      (d : Deque A) (o : Owner A) (th : Thief)
      → IsSound (at d o th)
      → Refines (at d o th) (owner_step (at d o th) o)
  unfolding owner_step
  owner_step-Refines d (push_reset x) absent v =
      ground (arith, slice-nil d.array d.h d.t, slice-nil d.array 0 0)
  owner_step-Refines d (push_reset x) _ v = refl
  owner_step-Refines d (push_store x) th v =
      slice-write d.array d.t x (settled_head th d.h) d.t (settled_head-le th d.h d.t v.thief_ok)
        (omega arith)
  owner_step-Refines d (push_bump x) th v =
      ground (
        arith,
        slice-snoc d.array (settled_head th d.h) d.t (settled_head-le th d.h d.t v.thief_ok),
      )
  owner_step-Refines d push_grow absent v = ground arith
  owner_step-Refines d pop_dec th v = let e : d.t - 1 + 1 ≡ d.t = omega arith in rw e
  owner_step-Refines d pop_check absent v = ground (arith, slice-snoc d.array d.h d.t)
  owner_step-Refines d pop_check locked v = ground (arith, slice-snoc d.array d.h d.t)
  owner_step-Refines d pop_check _ v = ground (arith, slice-snoc d.array (d.h - 1) d.t)
  owner_step-Refines d pop_wait absent v =
      let e : d.h < d.t → d.t - 1 + 1 ≡ d.t = λ p. omega arith in
      ground (arith, slice-nil d.array d.h d.t, slice-snoc d.array d.h (d.t - 1), e)
  owner_step-Refines d _ th v = ground arith

  start_pop-Refines :
      (d : Deque A) (o : Owner A) (th : Thief) → Refines (at d o th) (start_pop (at d o th) o)
  unfolding start_pop
  start_pop-Refines d idle th = ground arith
  start_pop-Refines d _ th = refl

  start_push-Refines :
      (d : Deque A) (o : Owner A) (th : Thief) (x : A)
      → contents (start_push (at d o th) x o) ≡ contents (at d o th)
  unfolding start_push
  start_push-Refines d idle th x = ground arith
  start_push-Refines d _ th x = refl

  -- One move of a sound state adds the pushed task at the end of the contents, takes the popped
  -- task from the end or the stolen one from the front, or leaves the contents alone; and
  -- `pop_top` returns NULL with the lock held only where the contents are empty.
  pub step-Refines : (s : State A) (m : Move A) → IsSound s → Refines s (step s m)
  unfolding step
  step-Refines s (call_push x) v = start_push-Refines s.deque s.owner s.thief x
  step-Refines s call_pop v = start_pop-Refines s.deque s.owner s.thief
  step-Refines s owner_goes v = owner_step-Refines s.deque s.owner s.thief v
  step-Refines s thief_goes v = thief_step-Refines s.deque s.owner s.thief v

  abbrev pub pushes : List (Event A) → List A
  pushes [] = []
  pushes (pushed x ∷ es) = x ∷ pushes es
  pushes (_ ∷ es) = pushes es

  -- The tasks handed out, to the owner or to a thief.
  abbrev pub takes : List (Event A) → List A
  takes [] = []
  takes (popped x ∷ es) = x ∷ takes es
  takes (stolen x ∷ es) = x ∷ takes es
  takes (_ ∷ es) = takes es

  abbrev Balance : List A → List (Event A) → List A → Type 0
  Balance before es after = Perm (before ++ pushes es) (takes es ++ after)

  Balance-cons :
      (e : Event A) (es : List (Event A)) (before middle after : List A)
      → Effect e before middle
      → Balance middle es after
      → Balance before (e ∷ es) after
  Balance-cons (pushed x) es before middle after h p = rw (h, append_assoc) at p
  Balance-cons (popped x) es before middle after h p =
      rw (h, append_assoc) (Perm.trans (perm_middle middle (pushes es)) (Perm.cons x p))
  Balance-cons (stolen x) es before middle after h p = rw h (Perm.cons x p)
  Balance-cons found_empty_locked es before middle after h p = rw (h.0 ∙ sym h.1) p
  Balance-cons silent es before middle after h p = rw (← h) p
  Balance-cons found_empty es before middle after h p = rw (← h) p
  Balance-cons steal_failed es before middle after h p = rw (← h) p

  run-Balance :
      (s : State A) (ms : List (Move A))
      → IsSound s
      → Balance (contents s) (run s ms).1 (contents (run s ms).0)
  unfolding run
  run-Balance s [] v = rw append-nil (Perm.refl _)
  run-Balance s (m ∷ ms) v =
      let (s₁, e) = step s m in
      let (s₂, es) = run s₁ ms in
      Balance-cons e es (contents s) (contents s₁) (contents s₂) (step-Refines s m v)
        (run-Balance s₁ ms (step-IsSound s m v))

  -- Whatever the schedule, the tasks pushed on a new deque are those handed out to the owner and to
  -- the thieves together with those that it still holds: none is lost, and none is handed out twice.
  pub run_conserves :
      (cells : ℕ → A) (ms : List (Move A))
      → let (s, es) = run (at (init cells) idle absent) ms in
        Perm (pushes es) (takes es ++ contents s)
  unfolding init
  run_conserves cells ms =
      rw (slice-nil cells 0 0 (omega arith)) at
        (run-Balance (at (init cells) idle absent) ms (init-IsSound cells))
