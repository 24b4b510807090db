-- ===== src/Deque/Interleaving/Tests.antt =====
-- The theorems about the deque at concrete inputs.
use petabricks.Base.{ℕ, ◌≡◌, ◌<◌, refl, arith, List, [], ◌∷◌, ◌++◌, All}
use mathlib.Core.List.{Perm}
use petabricks.Deque.{Deque, init}
use petabricks.Deque.Interleaving.{
  Move, idle, call_push, call_pop, owner_goes, thief_goes, run, step,
}
use petabricks.Deque.Interleaving.Thief.{absent}
use petabricks.Deque.Interleaving.Invariant.{
  at, IsSound, owner_cells, thief_cells, run-accesses_in_bounds,
}
use petabricks.Deque.Interleaving.Conservation.{
  Refines, contents, pushes, takes, step-Refines, run_conserves,
}
use petabricks.Deque.Interleaving.Alone.{IsValid}

abbrev zeroed : ℕ → ℕ
zeroed i = 0

-- Two tasks are pushed; then the owner and a thief race for them, and the thief is not done.
abbrev race : List (Move ℕ)
race =
    call_push 7
    ∷ owner_goes
    ∷ owner_goes
    ∷ owner_goes
    ∷ owner_goes
    ∷ call_push 8
    ∷ owner_goes
    ∷ owner_goes
    ∷ owner_goes
    ∷ thief_goes
    ∷ call_pop
    ∷ thief_goes
    ∷ owner_goes
    ∷ thief_goes
    ∷ owner_goes
    ∷ thief_goes
    ∷ call_pop
    ∷ thief_goes
    ∷ []

race-takes : takes (run (at (init zeroed) idle absent) race).1 ≡ 8 ∷ 7 ∷ []
unfolding init run step
race-takes = refl

run_conserves_example :
    let (s, es) = run (at (init zeroed) idle absent) race in
    Perm (pushes es) (takes es ++ contents s)
run_conserves_example = run_conserves zeroed race

run-accesses_in_bounds_example :
    let s = (run (at (init zeroed) idle absent) race).0 in
    All (λ i. i < s.deque.size) (owner_cells s.owner s.deque)
    × All (λ i. i < s.deque.size) (thief_cells s.thief s.deque)
run-accesses_in_bounds_example = run-accesses_in_bounds zeroed race

abbrev ascending : ℕ → ℕ
ascending i = i

abbrev three_tasks : Deque ℕ
three_tasks = record { size = 10; array = ascending; h = 2; t = 5 }

three_tasks-IsSound : IsSound (at three_tasks idle absent)
three_tasks-IsSound = record { thief_ok = omega arith; owner_ok = tt; room = omega arith }

three_tasks-IsValid : IsValid three_tasks
three_tasks-IsValid = record { ordered = omega arith; room = omega arith }

step-Refines_example :
    Refines (at three_tasks idle absent) (step (at three_tasks idle absent) (call_push 9))
step-Refines_example = step-Refines (at three_tasks idle absent) (call_push 9) three_tasks-IsSound
