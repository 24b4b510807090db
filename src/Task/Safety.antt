-- ===== src/Task/Safety.antt =====
-- What holds after every step of the threads.
use petabricks.Base.{
  ℕ, ◌+◌, ◌≤◌, ◌≡◌, refl, subst, Bool, true, false, ◌&&◌, Bool-cases, inl, inr, Option, none, some,
  List, [], ◌∷◌, arith, ltb, if◌then◌else◌,
}
use petabricks.Task.{TaskState, Runtime, s_new, s_ready, s_remote_ready, blank, may_run}
use petabricks.Task.Count.{occurrences, noticed, listed, waits, listed-zero}
use petabricks.Task.Step.{
  remove_at, remove_at-occurrences, Move, creates, depends, enqueues, notifies, starts,
  starts_remote, finishes, continues, cancels, cancels_ready, exists, start, start_remote, notify,
  finish, finish_with, cancel, cancel_ready, bind, step, run_moves,
}
use petabricks.Task.Invariant.{After}
use petabricks.Task.Held.{held, live}
use petabricks.Task.Sound.{
  IsSound, depends_on-IsSound, enqueue-IsSound, notify-IsSound, create-IsSound,
}
use petabricks.Task.Sound.Finish.{Taken, Taken-Idle, finished-IsSound, continued-IsSound}

-- The soundness of one step.
started-IsSound :
    (r r' : Runtime) (a : ℕ)
    → ((t : ℕ) → held r' t ≡ held r t)
    → r'.tasks ≡ r.tasks
    → r'.fresh ≡ r.fresh
    → r'.notices ≡ r.notices
    → IsSound r
    → IsSound r'
started-IsSound r r' a same et ef en (inv, once, named) =
    (rw (et, ef, en) inv, (λ t. rw (et, ef) (rw (same t) (once t))), rw (et, ef) named)

starts-IsSound :
    (r : Runtime) (i : ℕ) (o : Option (ℕ × List ℕ))
    → remove_at i r.ready ≡ o
    → IsSound r
    → After IsSound (bind o (start r))
unfolding start
starts-IsSound r i none e ok = tt
starts-IsSound r i (some (a, rest)) e ok = elim (Bool-cases (may_run (r.tasks a))) [
  | inl k ↦ rw k (
      started-IsSound r (record r { ready = rest; running = a ∷ r.running }) a
        (λ t. ground (arith, remove_at-occurrences i r.ready a rest t e)) refl refl refl ok)
  | inr k ↦ rw k tt
]

starts_remote-IsSound :
    (r : Runtime) (i : ℕ) (o : Option (ℕ × List ℕ))
    → remove_at i r.remote ≡ o
    → IsSound r
    → After IsSound (bind o (start_remote r))
unfolding start_remote
starts_remote-IsSound r i none e ok = tt
starts_remote-IsSound r i (some (a, rest)) e ok = elim (Bool-cases (may_run (r.tasks a))) [
  | inl k ↦ rw k (
      started-IsSound r (record r { remote = rest; running = a ∷ r.running }) a
        (λ t. ground (arith, remove_at-occurrences i r.remote a rest t e)) refl refl refl ok)
  | inr k ↦ rw k tt
]

finishes-IsSound :
    (r : Runtime) (i : ℕ) (o : Option (ℕ × List ℕ))
    → remove_at i r.running ≡ o
    → IsSound r
    → After IsSound (bind o (finish r))
unfolding finish
finishes-IsSound r i none e ok = tt
finishes-IsSound r i (some (a, rest)) e ok =
    finished-IsSound r (record r { running = rest }) a false
      (λ t. ground (arith, remove_at-occurrences i r.running a rest t e)) refl refl refl ok

continues-IsSound :
    (r : Runtime) (i k : ℕ) (o : Option (ℕ × List ℕ))
    → remove_at i r.running ≡ o
    → IsSound r
    → After IsSound (bind o (finish_with r k))
unfolding finish_with
continues-IsSound r i k none e ok = tt
continues-IsSound r i k (some (a, rest)) e ok = elim (Bool-cases (ltb k r.fresh)) [
  | inl h ↦ rw h (
      continued-IsSound r (record r { running = rest }) a k
        (λ t. ground (arith, remove_at-occurrences i r.running a rest t e)) refl refl refl
        (ground arith) ok)
  | inr h ↦ rw h tt
]

cancels-IsSound :
    (r : Runtime) (i : ℕ) (o : Option (ℕ × List ℕ))
    → remove_at i r.cancelled ≡ o
    → IsSound r
    → After IsSound (bind o (cancel r))
unfolding cancel
cancels-IsSound r i none e ok = tt
cancels-IsSound r i (some (a, rest)) e ok = elim (Bool-cases (may_run (r.tasks a))) [
  | inl k ↦ rw k (
      finished-IsSound r (record r { cancelled = rest }) a true
        (λ t. ground (arith, remove_at-occurrences i r.cancelled a rest t e)) refl refl refl ok)
  | inr k ↦ rw k tt
]

cancels_ready-IsSound :
    (r : Runtime) (i : ℕ) (o : Option (ℕ × List ℕ))
    → remove_at i r.ready ≡ o
    → IsSound r
    → After IsSound (bind o (cancel_ready r))
unfolding cancel_ready
cancels_ready-IsSound r i none e ok = tt
cancels_ready-IsSound r i (some (a, rest)) e ok = elim (Bool-cases (may_run (r.tasks a))) [
  | inl k ↦ rw k (
      finished-IsSound r (record r { ready = rest }) a true
        (λ t. ground (arith, remove_at-occurrences i r.ready a rest t e)) refl refl refl ok)
  | inr k ↦ rw k tt
]

notifies-IsSound :
    (r : Runtime) (i : ℕ) (o : Option ((ℕ × Bool) × List (ℕ × Bool)))
    → remove_at i r.notices ≡ o
    → IsSound r
    → After IsSound (bind o (notify r))
notifies-IsSound r i none e ok = tt
notifies-IsSound r i (some ((a, b), rest)) e ok =
    let (r', k, sound) = notify-IsSound r i a b rest e ok in rw k sound

pub step-IsSound : (r : Runtime) (m : Move) → IsSound r → After IsSound (step r m)
unfolding step
step-IsSound r (creates b bits) ok = create-IsSound r b bits ok
step-IsSound r (depends fuel a b) ok = elim (Bool-cases (exists r a && exists r b)) [
  | inl e ↦ rw e (depends_on-IsSound fuel r a (some b) (ground arith) (ground arith) ok)
  | inr e ↦ rw e tt
]
step-IsSound r (enqueues a) ok = elim (Bool-cases (exists r a)) [
  | inl e ↦ rw e (enqueue-IsSound r a (ground arith) ok)
  | inr e ↦ rw e tt
]
step-IsSound r (notifies i) ok = notifies-IsSound r i (remove_at i r.notices) refl ok
step-IsSound r (starts i) ok = starts-IsSound r i (remove_at i r.ready) refl ok
step-IsSound r (starts_remote i) ok = starts_remote-IsSound r i (remove_at i r.remote) refl ok
step-IsSound r (finishes i) ok = finishes-IsSound r i (remove_at i r.running) refl ok
step-IsSound r (continues i k) ok = continues-IsSound r i k (remove_at i r.running) refl ok
step-IsSound r (cancels i) ok = cancels-IsSound r i (remove_at i r.cancelled) refl ok
step-IsSound r (cancels_ready i) ok = cancels_ready-IsSound r i (remove_at i r.ready) refl ok

-- Before any task is created.
abbrev pub no_tasks : Runtime
no_tasks = record {
  tasks = λ t. blank s_new 0;
  fresh = 0;
  ready = [];
  remote = [];
  running = [];
  notices = [];
  cancelled = [];
}

no_tasks-IsSound : IsSound no_tasks
unfolding waits listed
no_tasks-IsSound = ((λ t. ((refl, tt), ground arith)), (λ t. (refl, ground arith)), λ t. refl)

bind-After :
    (o : Option Runtime) (f : Runtime → Option Runtime)
    → ((r : Runtime) → IsSound r → After IsSound (f r))
    → After IsSound o
    → After IsSound (bind o f)
bind-After none f h ok = tt
bind-After (some r) f h ok = h r ok

from-IsSound : (r : Runtime) (ms : List Move) → IsSound r → After IsSound (run_moves r ms)
unfolding run_moves
from-IsSound r [] ok = ok
from-IsSound r (m ∷ ms) ok =
    bind-After (step r m) (λ r'. run_moves r' ms) (λ r' h. from-IsSound r' ms h)
      (step-IsSound r m ok)

-- After any steps of the threads, from no task at all, that all succeed: each task's counter is the
-- number of times it stands in lists of dependents and among the decrements still to be made; a
-- pending task's counter is above 0, a ready, complete or continued task's is 0, and the last two
-- have no dependents; a ready task is held in exactly one place (a queue, a thread that runs it, a
-- thread that cancels it), and no other task is held; and every continuation is a task.
pub run_moves-IsSound : (ms : List Move) → After IsSound (run_moves no_tasks ms)
run_moves-IsSound ms = from-IsSound no_tasks ms no_tasks-IsSound

pub reached-IsSound : (ms : List Move) (r : Runtime) → run_moves no_tasks ms ≡ some r → IsSound r
reached-IsSound ms r e = subst (λ o. After IsSound o) e (run_moves-IsSound ms)

live-le : (s : TaskState) → live s ≤ 1
live-le s_ready = ground arith
live-le s_remote_ready = ground arith
live-le _ = ground arith

-- When a thread takes a ready task, in a runtime that the threads reach, no other place holds it (so
-- it is run once), no decrement of it is due, and it is a dependent of no task.
pub starts-Free :
    (ms : List Move) (r : Runtime) (i a : ℕ) (rest : List ℕ)
    → run_moves no_tasks ms ≡ some r
    → remove_at i r.ready ≡ some (a, rest)
    → (occurrences a rest
          + occurrences a r.remote
          + occurrences a r.running
          + occurrences a r.cancelled
          + noticed a r.notices
        ≡ 0)
      × ((b : ℕ) → (if ltb b r.fresh then occurrences a (r.tasks b).dependents else 0) ≡ 0)
unfolding waits
starts-Free ms r i a rest e k =
    let (inv, once, named) = reached-IsSound ms r e in
    let less = remove_at-occurrences i r.ready a rest a k in
    let gone : Taken r (record r { ready = rest }) a =
      λ t. ground (arith, remove_at-occurrences i r.ready a rest t k) in
    let z = Taken-Idle r (record r { ready = rest }) a gone once inv in
    let none_listed : listed r.tasks a r.fresh ≡ 0 = ground (arith, (inv a).0.0) in
    (
      ground (arith, less, live-le (r.tasks a).state, (once a).0, (inv a).0.0),
      λ b. ground (arith, listed-zero r.tasks a r.fresh b none_listed),
    )
