-- ===== src/Task/Liveness.antt =====
-- The threads finish what has been enqueued.
use petabricks.Base.{
  ℕ, ◌≤◌, ◌<◌, ◌≡◌, refl, subst, Bool, true, false, ◌&&◌, false≢true, Bool-cases, ◌⊎◌, inl, inr,
  Option, none, some, List, [], ◌∷◌, length, arith, leb, ◌==◌,
}
use petabricks.Task.{Runtime, may_run, decrement_predecessors}
use petabricks.Task.Step.{
  remove_at, remove_at-occurrences, Move, notifies, starts, starts_remote, finishes, cancels,
  cancels_ready, start, start_remote, notify, finish, cancel, cancel_ready, bind, step, run_moves,
}
use petabricks.Task.Invariant.{After}
use petabricks.Task.Held.{HeldOnce}
use petabricks.Task.Sound.{IsSound}
use petabricks.Task.Sound.Finish.{Taken, Taken-Known}
use petabricks.Task.Progress.{
  AllScheduled, Ranked, AllDone, CanTurn, AllScheduled-below, can-progress,
}
use petabricks.Task.Safety.{no_tasks, step-IsSound, reached-IsSound}
use petabricks.Task.Turns.{
  is_turn, work, length-remove_at, Turned, started-Turned, complete-Turned, wake-Turned,
}

-- One turn.
starts-Turned :
    (r : Runtime) (i : ℕ) (o : Option (ℕ × List ℕ))
    → remove_at i r.ready ≡ o
    → After (Turned r) (bind o (start r))
unfolding start work
starts-Turned r i none e = tt
starts-Turned r i (some (a, rest)) e = elim (Bool-cases (may_run (r.tasks a))) [
  | inl k ↦ rw k (started-Turned r _ refl refl (omega (arith, length-remove_at i r.ready a rest e)))
  | inr k ↦ rw k tt
]

starts_remote-Turned :
    (r : Runtime) (i : ℕ) (o : Option (ℕ × List ℕ))
    → remove_at i r.remote ≡ o
    → After (Turned r) (bind o (start_remote r))
unfolding start_remote work
starts_remote-Turned r i none e = tt
starts_remote-Turned r i (some (a, rest)) e = elim (Bool-cases (may_run (r.tasks a))) [
  | inl k ↦
      rw k (started-Turned r _ refl refl (omega (arith, length-remove_at i r.remote a rest e)))
  | inr k ↦ rw k tt
]

finishes-Turned :
    (r : Runtime) (i : ℕ) (o : Option (ℕ × List ℕ))
    → remove_at i r.running ≡ o
    → HeldOnce r
    → After (Turned r) (bind o (finish r))
unfolding finish work
finishes-Turned r i none e once = tt
finishes-Turned r i (some (a, rest)) e once =
    let r' : Runtime = record r { running = rest } in
    let gone : Taken r r' a = λ t. ground (arith, remove_at-occurrences i r.running a rest t e) in
    complete-Turned r r' a false (Taken-Known r r' a gone once) refl refl
      (omega (arith, length-remove_at i r.running a rest e))

cancels-Turned :
    (r : Runtime) (i : ℕ) (o : Option (ℕ × List ℕ))
    → remove_at i r.cancelled ≡ o
    → HeldOnce r
    → After (Turned r) (bind o (cancel r))
unfolding cancel work
cancels-Turned r i none e once = tt
cancels-Turned r i (some (a, rest)) e once = elim (Bool-cases (may_run (r.tasks a))) [
  | inl k ↦
      let r' : Runtime = record r { cancelled = rest } in
      let gone : Taken r r' a =
        λ t. ground (arith, remove_at-occurrences i r.cancelled a rest t e) in
      rw k (
        complete-Turned r r' a true (Taken-Known r r' a gone once) refl refl
          (omega (arith, length-remove_at i r.cancelled a rest e)))
  | inr k ↦ rw k tt
]

cancels_ready-Turned :
    (r : Runtime) (i : ℕ) (o : Option (ℕ × List ℕ))
    → remove_at i r.ready ≡ o
    → HeldOnce r
    → After (Turned r) (bind o (cancel_ready r))
unfolding cancel_ready work
cancels_ready-Turned r i none e once = tt
cancels_ready-Turned r i (some (a, rest)) e once = elim (Bool-cases (may_run (r.tasks a))) [
  | inl k ↦
      let r' : Runtime = record r { ready = rest } in
      let gone : Taken r r' a = λ t. ground (arith, remove_at-occurrences i r.ready a rest t e) in
      rw k (
        complete-Turned r r' a true (Taken-Known r r' a gone once) refl refl
          (omega (arith, length-remove_at i r.ready a rest e)))
  | inr k ↦ rw k tt
]

notifies-Turned :
    (r : Runtime) (i : ℕ) (o : Option ((ℕ × Bool) × List (ℕ × Bool)))
    → remove_at i r.notices ≡ o
    → After (Turned r) (bind o (notify r))
unfolding notify decrement_predecessors work
notifies-Turned r i none e = tt
notifies-Turned r i (some ((a, b), rest)) e =
    elim (Bool-cases ((r.tasks a).num_predecessors == 0)) [
      | inl k ↦ rw k tt
      | inr k ↦ rw k (
          wake-Turned r (record r { notices = rest }) a _ (r.tasks a).state _ b refl refl refl
            (omega (arith, length-remove_at i r.notices (a, b) rest e)))
    ]

step-Turned : (r : Runtime) (m : Move) → is_turn m ≡ true → HeldOnce r → After (Turned r) (step r m)
unfolding step is_turn
step-Turned r (notifies i) h once = notifies-Turned r i (remove_at i r.notices) refl
step-Turned r (starts i) h once = starts-Turned r i (remove_at i r.ready) refl
step-Turned r (starts_remote i) h once = starts_remote-Turned r i (remove_at i r.remote) refl
step-Turned r (finishes i) h once = finishes-Turned r i (remove_at i r.running) refl once
step-Turned r (cancels i) h once = cancels-Turned r i (remove_at i r.cancelled) refl once
step-Turned r (cancels_ready i) h once = cancels_ready-Turned r i (remove_at i r.ready) refl once
step-Turned r _ h once = absurd (false≢true h)

unfoldable pub all_turns : List Move → Bool
unfolding is_turn
all_turns [] = true
all_turns (m ∷ ms) = is_turn m && all_turns ms

Turned-AllScheduled : (r r' : Runtime) → Turned r r' → AllScheduled r → AllScheduled r'
Turned-AllScheduled r r' turn all t = elim (Bool-cases (leb r'.fresh t)) [
  | inl k ↦ rw k refl
  | inr k ↦
      let lt : t < r.fresh = ground (arith, turn.same_tasks) in
      rw k (turn.stays_scheduled t (AllScheduled-below r t all lt))
]

Turned-Ranked : (rank : ℕ → ℕ) (r r' : Runtime) → Turned r r' → Ranked rank r → Ranked rank r'
Turned-Ranked rank r r' turn ranked a b =
    ground (arith, turn.same_tasks, turn.fewer a b, ranked a b)

After-Turned :
    (r r' : Runtime) (o : Option Runtime) (ms : List Move)
    → After IsSound o
    → After (Turned r) o
    → bind o (λ r₁. run_moves r₁ ms) ≡ some r'
    → (r₁ : Runtime) × IsSound r₁ × Turned r r₁ × (run_moves r₁ ms ≡ some r')
After-Turned r r' none ms ok turn e = absurd (ground arith)
After-Turned r r' (some r₁) ms ok turn e = (r₁, ok, turn, e)

-- From a runtime that is sound.
from-AllDone :
    (rank : ℕ → ℕ) (turns : List Move) (r r' : Runtime)
    → IsSound r
    → AllScheduled r
    → Ranked rank r
    → all_turns turns ≡ true
    → run_moves r turns ≡ some r'
    → (length turns ≤ work r) × (AllDone r' ⊎ CanTurn r')
unfolding run_moves all_turns
from-AllDone rank [] r r' ok all ranked h e =
    let same : r ≡ r' = ground (arith, e) in
    (omega arith, subst (λ q. AllDone q ⊎ CanTurn q) same (can-progress rank r ok all ranked))
from-AllDone rank (m ∷ ms) r r' ok all ranked h e =
    let turn₁ = step-Turned r m (ground arith) ok.1 in
    let (r₁, ok₁, turn, e₁) = After-Turned r r' (step r m) ms (step-IsSound r m ok) turn₁ e in
    let (few, goal) =
      from-AllDone rank ms r₁ r' ok₁ (Turned-AllScheduled r r₁ turn all)
        (Turned-Ranked rank r r₁ turn ranked) (ground arith) e₁ in
    (omega (arith, turn.less, few), goal)

-- From a runtime that the threads reach in which every task has been enqueued and has the type of its
-- state, and where ranks show that no tasks wait for each other: as long as each `run()` returns with
-- no continuation, the threads take no more turns than `work` says, in any order; and after any of
-- them every task is done, or another turn can be taken.
pub turns-AllDone :
    (rank : ℕ → ℕ) (ms turns : List Move) (r r' : Runtime)
    → run_moves no_tasks ms ≡ some r
    → AllScheduled r
    → Ranked rank r
    → all_turns turns ≡ true
    → run_moves r turns ≡ some r'
    → (length turns ≤ work r) × (AllDone r' ⊎ CanTurn r')
turns-AllDone rank ms turns r r' e all ranked h e' =
    from-AllDone rank turns r r' (reached-IsSound ms r e) all ranked h e'
