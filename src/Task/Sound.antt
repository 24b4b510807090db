-- ===== src/Task/Sound.antt =====
-- What the critical sections keep: creation, dependencies, the queues and the counters.
pub mod Finish
use petabricks.Base.{
  ℕ, zero, suc, ◌+◌, ◌-◌, ◌≤◌, ◌<◌, ◌≡◌, ◌≢◌, refl, sym, subst, ap, ◌∙◌, Bool, true, false, ◌&&◌,
  false≢true, Bool-cases, ◌⊎◌, inl, inr, Option, none, some, List, [], ◌∷◌, ◌++◌, arith, ltb, leb,
  ◌==◌, if◌then◌else◌,
}
use petabricks.Task.{
  Task, TaskState, Runtime, s_new, s_pending, s_ready, s_complete, s_continued, s_remote_new,
  s_remote_pending, s_remote_ready, update, put, blank, is_unqueued, create, register, depends_on,
  depend_state, enqueue, enqueue_state, wake, decrement_predecessors, may_run, complete,
  continue_with,
}
use petabricks.Task.Count.{occurrences, noticed, listed, waits, listed-fresh, listed-zero}
use petabricks.Task.Step.{
  remove_at, remove_at-occurrences, remove_at-noticed, Move, creates, depends, enqueues, notifies,
  starts, starts_remote, finishes, continues, cancels, exists, start, start_remote, notify, finish,
  finish_with, cancel, bind, step, run_moves,
}
use petabricks.Task.Invariant.{
  After, Inv, AllOk, IsOpen, StateFits, StateOk, update-StateOk, register-Inv, enqueue-Inv,
}
use petabricks.Task.Invariant.Counters.{wake-Inv, complete-Inv, continue-Inv}
use petabricks.Task.Held.{
  held, live, HeldOnce, register-HeldOnce, enqueue_state-HeldOnce, wake-HeldOnce, complete-HeldOnce,
}

abbrev is_below : ℕ → Option ℕ → Bool
is_below n none = true
is_below n (some k) = ltb k n

abbrev pub Named : Runtime → Type 0
Named r = (t : ℕ) → is_below r.fresh (r.tasks t).continuation ≡ true

abbrev pub IsSound : Runtime → Type 0
IsSound r = Inv r × HeldOnce r × Named r

blank-StateOk : (b : Bool) (bits : ℕ) → StateOk (blank (if b then s_remote_new else s_new) bits)
blank-StateOk true bits = tt
blank-StateOk false bits = tt

create-Inv : (r : Runtime) (b : Bool) (bits : ℕ) → Inv r → Inv (create r b bits)
unfolding create waits
create-Inv r b bits all t =
    let s : TaskState = if b then s_remote_new else s_new in
    let (ok, unborn) = all t in
    (
      (
        ground (arith, listed-fresh r.tasks (blank s bits) t r.fresh refl, all r.fresh),
        update-StateOk r.tasks r.fresh (blank s bits) t (blank-StateOk b bits) ok.1,
      ),
      ground arith,
    )

create-HeldOnce : (r : Runtime) (b : Bool) (bits : ℕ) → HeldOnce r → HeldOnce (create r b bits)
unfolding create
create-HeldOnce r true bits all t =
    let (once, unborn) = all t in (ground (arith, all r.fresh), ground arith)
create-HeldOnce r false bits all t =
    let (once, unborn) = all t in (ground (arith, all r.fresh), ground arith)

is_below-suc : (n : ℕ) (o : Option ℕ) → is_below n o ≡ true → is_below (n + 1) o ≡ true
is_below-suc n none h = refl
is_below-suc n (some k) h = ground arith

create-Named : (r : Runtime) (b : Bool) (bits : ℕ) → Named r → Named (create r b bits)
unfolding create
create-Named r b bits all t = elim (Bool-cases (t == r.fresh)) [
  | inl e ↦ rw e refl
  | inr e ↦ rw e (is_below-suc r.fresh (r.tasks t).continuation (all t))
]

register-Named : (r : Runtime) (a b : ℕ) → Named r → Named (register r a b)
register-Named r a b all t = ground (arith, all a, all b, all t)

depend_state-IsSound :
    (r : Runtime) (a b : ℕ) (rest : Option Runtime) (s : TaskState)
    → a ≢ b
    → a < r.fresh
    → b < r.fresh
    → is_unqueued (r.tasks a).state ≡ true
    → (r.tasks b).state ≡ s
    → IsSound r
    → After IsSound rest
    → After IsSound (depend_state r a b rest s)
unfolding depend_state
depend_state-IsSound r a b rest s_continued ne la lb new e ok h = h
depend_state-IsSound r a b rest s_complete ne la lb new e ok h = ok
depend_state-IsSound r a b rest s ne la lb new e (inv, once, named) h = (
  register-Inv r a b ne la lb new (rw e tt) inv,
  register-HeldOnce r a b ne once,
  register-Named r a b named,
)

pub depends_on-IsSound :
    (fuel : ℕ) (r : Runtime) (a : ℕ) (b : Option ℕ)
    → a < r.fresh
    → is_below r.fresh b ≡ true
    → IsSound r
    → After IsSound (depends_on fuel r a b)
unfolding depends_on
depends_on-IsSound fuel r a none la lb ok = ok
depends_on-IsSound zero r a (some b) la lb ok = tt
depends_on-IsSound (suc fuel) r a (some b) la lb ok = elim (Bool-cases (a == b)) [
  | inl e ↦ rw e tt
  | inr e ↦ elim (Bool-cases (is_unqueued (r.tasks a).state)) [
    | inl k ↦
        rw (e, k)
          (depend_state-IsSound r a b _ (r.tasks b).state (ground arith) la (ground arith) k refl ok
            (depends_on-IsSound fuel r a (r.tasks b).continuation la (ok.2 b) ok))
    | inr k ↦ rw (e, k) tt
  ]
]

pub After-and :
    (P Q R : Runtime → Type 0) (o : Option Runtime)
    → After P o
    → After Q o
    → After R o
    → After (λ r. P r × Q r × R r) o
After-and P Q R none p q h = tt
After-and P Q R (some r) p q h = (p, q, h)

pub enqueue_state-Named :
    (r : Runtime) (a : ℕ) (s : TaskState) (idle : Bool)
    → Named r
    → After Named (enqueue_state r a (r.tasks a) s idle)
unfolding enqueue_state
enqueue_state-Named r a s_new true all = λ t. ground (arith, all t, all a)
enqueue_state-Named r a s_new false all = λ t. ground (arith, all t, all a)
enqueue_state-Named r a s_remote_new true all = λ t. ground (arith, all t, all a)
enqueue_state-Named r a s_remote_new false all = λ t. ground (arith, all t, all a)
enqueue_state-Named r a _ idle all = tt

pub enqueue-IsSound : (r : Runtime) (a : ℕ) → a < r.fresh → IsSound r → After IsSound (enqueue r a)
unfolding enqueue
enqueue-IsSound r a la (inv, once, named) =
    let t : Task = r.tasks a in
    After-and Inv HeldOnce Named _ (enqueue-Inv r a la inv)
      (enqueue_state-HeldOnce r a t.state (t.num_predecessors == 0) la refl once)
      (enqueue_state-Named r a t.state (t.num_predecessors == 0) named)

wake-Named :
    (r : Runtime) (a n : ℕ) (s : TaskState) (last aborting : Bool)
    → Named r
    → Named (wake r a (r.tasks a) n s last aborting)
unfolding wake
wake-Named r a n s_pending true false all t = ground (arith, all t, all a)
wake-Named r a n _ _ _ all t = ground (arith, all t, all a)

-- A decrement that was to come is made, and its counter is not 0.
pub notify-IsSound :
    (r : Runtime) (i a : ℕ) (b : Bool) (rest : List (ℕ × Bool))
    → remove_at i r.notices ≡ some ((a, b), rest)
    → IsSound r
    → (r' : Runtime) × (notify r ((a, b), rest) ≡ some r') × IsSound r'
unfolding notify decrement_predecessors waits
notify-IsSound r i a b rest e (inv, once, named) =
    let r₁ : Runtime = record r { notices = rest } in
    let less = λ (t : ℕ). remove_at-noticed i r.notices a b rest t e in
    let p : 0 < (r.tasks a).num_predecessors = ground (arith, less a, (inv a).0.0) in
    let k : ((r.tasks a).num_predecessors == 0) ≡ false = ground arith in
    let known : a < r.fresh = ground (arith, (inv a).1) in
    rw k (
      _,
      refl,
      (
        decremented r₁ a b r.notices less p k inv,
        wake-HeldOnce r₁ a _ (r.tasks a).state _ b known refl once,
        wake-Named r₁ a _ (r.tasks a).state _ b named,
      ),
    )
  where
    decremented :
        (q : Runtime) (c : ℕ) (d : Bool) (ns : List (ℕ × Bool))
        → ((t : ℕ)
            → noticed t ns ≡ (if c == t then suc (noticed t q.notices) else noticed t q.notices))
        → 0 < (q.tasks c).num_predecessors
        → ((q.tasks c).num_predecessors == 0) ≡ false
        → AllOk q.tasks q.fresh ns
        → Inv (
            wake q c
              (q.tasks c)
              ((q.tasks c).num_predecessors - 1)
              (q.tasks c).state
              ((q.tasks c).num_predecessors - 1 == 0)
              d)
    decremented q c d ns less p k all = wake-Inv q c ns less p all (q.tasks c).state _ d refl refl

pub complete-Named : (r : Runtime) (a : ℕ) (b : Bool) → Named r → Named (complete r a b)
unfolding complete
complete-Named r a b all t = ground (arith, all t)

pub create-IsSound : (r : Runtime) (b : Bool) (bits : ℕ) → IsSound r → IsSound (create r b bits)
create-IsSound r b bits (inv, once, named) =
    (create-Inv r b bits inv, create-HeldOnce r b bits once, create-Named r b bits named)
