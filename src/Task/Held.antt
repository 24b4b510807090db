-- ===== src/Task/Held.antt =====
-- Each task that is ready, and no other, is held in one place: in a queue, by a thread inside
-- `runWrapper`, or by a thread that is to cancel it.
use petabricks.Base.{
  ℕ, suc, ◌+◌, ◌<◌, ◌≡◌, ◌≢◌, ap, Bool, true, false, arith, leb, ◌==◌, if◌then◌else◌,
}
use petabricks.Task.{
  Task, TaskState, Runtime, s_new, s_pending, s_ready, s_remote_new, s_remote_ready, register,
  enqueue_state, wake, complete,
}
use petabricks.Task.Count.{occurrences}
use petabricks.Task.Invariant.{After}

abbrev pub held : Runtime → ℕ → ℕ
held r t =
    occurrences t r.ready
    + occurrences t r.remote
    + occurrences t r.running
    + occurrences t r.cancelled

abbrev pub live : TaskState → ℕ
live s_ready = 1
live s_remote_ready = 1
live _ = 0

-- The places that hold each task, and no place for those that are not created yet.
abbrev pub HeldOnce : Runtime → Type 0
HeldOnce r =
    (t : ℕ)
    → (held r t ≡ live (r.tasks t).state)
      × ((if leb r.fresh t then live (r.tasks t).state else 0) ≡ 0)

pub register-HeldOnce : (r : Runtime) (a b : ℕ) → a ≢ b → HeldOnce r → HeldOnce (register r a b)
register-HeldOnce r a b ne all t = let (once, unborn) = all t in (ground arith, ground arith)

pub enqueue_state-HeldOnce :
    (r : Runtime) (a : ℕ) (s : TaskState) (idle : Bool)
    → a < r.fresh
    → (r.tasks a).state ≡ s
    → HeldOnce r
    → After HeldOnce (enqueue_state r a (r.tasks a) s idle)
unfolding enqueue_state
enqueue_state-HeldOnce r a s_new true la e all =
    λ t. let (once, unborn) = all t in (ground arith, ground arith)
enqueue_state-HeldOnce r a s_new false la e all =
    λ t. let (once, unborn) = all t in (ground arith, ground arith)
enqueue_state-HeldOnce r a s_remote_new true la e all =
    λ t. let (once, unborn) = all t in (ground arith, ground arith)
enqueue_state-HeldOnce r a s_remote_new false la e all =
    λ t. let (once, unborn) = all t in (ground arith, ground arith)
enqueue_state-HeldOnce r a _ idle la e all = tt

pub wake-HeldOnce :
    (r : Runtime) (a n : ℕ) (s : TaskState) (last aborting : Bool)
    → a < r.fresh
    → (r.tasks a).state ≡ s
    → HeldOnce r
    → HeldOnce (wake r a (r.tasks a) n s last aborting)
unfolding wake
wake-HeldOnce r a n s_pending true false la e all t =
    let (once, unborn) = all t in (ground arith, ground arith)
wake-HeldOnce r a n _ _ _ la e all t = let (once, unborn) = all t in (ground arith, ground arith)

-- A running or cancelled task `a` becomes complete, and its place is given up.
pub complete-HeldOnce :
    (r r' : Runtime) (a : ℕ) (aborting : Bool)
    → ((t : ℕ) → held r t ≡ (if a == t then suc (held r' t) else held r' t))
    → r'.tasks ≡ r.tasks
    → r'.fresh ≡ r.fresh
    → HeldOnce r
    → HeldOnce (complete r' a aborting)
unfolding complete
complete-HeldOnce r r' a aborting gone et ef all t =
    let (once, unborn) = all t in
    let g = gone t in
    let e : r'.tasks t ≡ r.tasks t = ap (λ (f : ℕ → Task). f t) et in
    let (once_a, _) = all a in (ground (arith, e, gone a), ground (arith, e))
