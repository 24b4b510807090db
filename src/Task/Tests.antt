-- ===== src/Task/Tests.antt =====
-- The theorems about tasks at a concrete run.
use petabricks.Base.{
  ℕ, zero, suc, ◌+◌, ◌≤◌, ◌≡◌, ◌⊎◌, refl, true, false, arith, Option, none, some, List, [], ◌∷◌,
  ltb, if◌then◌else◌,
}
use petabricks.Task.{
  Runtime, create, depends_on, enqueue, decrement_predecessors, may_run, complete,
}
use petabricks.Task.Count.{occurrences, noticed}
use petabricks.Task.Step.{
  Move, creates, depends, enqueues, notifies, starts, finishes, remove_at, step, run_moves, start,
  finish, notify,
}
use petabricks.Task.Invariant.{After}
use petabricks.Task.Sound.{IsSound}
use petabricks.Task.Turns.{is_scheduled, work}
use petabricks.Task.Progress.{AllScheduled, Ranked, AllDone, CanTurn}
use petabricks.Task.Liveness.{all_turns, turns-AllDone}
use petabricks.Task.Safety.{no_tasks, run_moves-IsSound, starts-Free}

-- Task 1 has waited for task 0, which has run, and is ready.
abbrev second_ready : List Move
second_ready =
    creates false 1
    ∷ creates false 1
    ∷ depends 2 1 0
    ∷ enqueues 0
    ∷ enqueues 1
    ∷ starts 0
    ∷ finishes 0
    ∷ notifies 0
    ∷ []

abbrev or_else : Option Runtime → Runtime
or_else none = no_tasks
or_else (some r) = r

abbrev after_second : Runtime
after_second = or_else (run_moves no_tasks second_ready)

second_runs : run_moves no_tasks second_ready ≡ some after_second
unfolding run_moves step create depends_on enqueue may_run complete remove_at start finish notify
    decrement_predecessors
second_runs = refl

second_is_ready : remove_at 0 after_second.ready ≡ some (1, [])
unfolding run_moves step create depends_on enqueue may_run complete remove_at start finish notify
    decrement_predecessors
second_is_ready = refl

run_moves-IsSound_example : After IsSound (run_moves no_tasks second_ready)
run_moves-IsSound_example = run_moves-IsSound second_ready

starts-Free_example :
    let r = after_second in
    (occurrences 1 []
        + occurrences 1 r.remote
        + occurrences 1 r.running
        + occurrences 1 r.cancelled
        + noticed 1 r.notices
      ≡ 0)
    × ((b : ℕ) → (if ltb b r.fresh then occurrences 1 (r.tasks b).dependents else 0) ≡ 0)
starts-Free_example = starts-Free second_ready after_second 0 1 [] second_runs second_is_ready

-- Task 1 waits for task 0, and both have been enqueued.
abbrev both_enqueued : List Move
both_enqueued = creates false 1 ∷ creates false 1 ∷ depends 2 1 0 ∷ enqueues 0 ∷ enqueues 1 ∷ []

abbrev all_five : List Move
all_five = starts 0 ∷ finishes 0 ∷ notifies 0 ∷ starts 0 ∷ finishes 0 ∷ []

abbrev before_turns : Runtime
before_turns = or_else (run_moves no_tasks both_enqueued)

abbrev after_turns : Runtime
after_turns = or_else (run_moves before_turns all_five)

both_run : run_moves no_tasks both_enqueued ≡ some before_turns
unfolding run_moves step create depends_on enqueue
both_run = refl

five_run : run_moves before_turns all_five ≡ some after_turns
unfolding run_moves step create depends_on enqueue may_run complete remove_at start finish notify
    decrement_predecessors
five_run = refl

before_turns-AllScheduled : AllScheduled before_turns
unfolding run_moves step create depends_on enqueue is_scheduled
before_turns-AllScheduled zero = refl
before_turns-AllScheduled (suc zero) = refl
before_turns-AllScheduled (suc (suc t)) = ground arith

before_turns-Ranked : Ranked (λ t. t) before_turns
unfolding run_moves step create depends_on enqueue
before_turns-Ranked a zero = ground arith
before_turns-Ranked a (suc zero) = ground arith
before_turns-Ranked a (suc (suc b)) = ground arith

five_are_turns : all_turns all_five ≡ true
unfolding all_turns
five_are_turns = refl

turns-AllDone_example : (5 ≤ work before_turns) × (AllDone after_turns ⊎ CanTurn after_turns)
turns-AllDone_example =
    turns-AllDone (λ t. t) both_enqueued all_five before_turns after_turns both_run
      before_turns-AllScheduled before_turns-Ranked five_are_turns five_run
