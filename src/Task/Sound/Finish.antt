-- ===== src/Task/Sound/Finish.antt =====
-- What the end of a task keeps.
use petabricks.Base.{
  ℕ, suc, ◌<◌, ◌≡◌, ◌≢◌, refl, sym, ap, Bool, true, false, false≢true, Bool-cases, ◌⊎◌, inl, inr,
  none, some, List, [], ◌++◌, arith, ◌==◌, if◌then◌else◌,
}
use petabricks.Task.{
  Task, TaskState, Runtime, s_new, s_ready, s_continued, s_remote_new, s_remote_ready, put,
  is_unqueued, enqueue, enqueue_state, complete, continue_with,
}
use petabricks.Task.Invariant.{After, Inv, IsOpen, StateFits}
use petabricks.Task.Invariant.Counters.{complete-Inv, continue-Inv}
use petabricks.Task.Held.{held, live, HeldOnce, enqueue_state-HeldOnce, complete-HeldOnce}
use petabricks.Task.Sound.{Named, IsSound, After-and, enqueue_state-Named, complete-Named}

-- Taking a task that is held out of its place.
abbrev pub Taken : Runtime → Runtime → ℕ → Type 0
Taken r r' a = (t : ℕ) → held r t ≡ (if a == t then suc (held r' t) else held r' t)

pub Taken-Known : (r r' : Runtime) (a : ℕ) → Taken r r' a → HeldOnce r → a < r.fresh
Taken-Known r r' a gone once = let (here, unborn) = once a in ground (arith, gone a)

live-StateFits : (s : TaskState) (n : ℕ) (l : List ℕ) → live s ≢ 0 → StateFits s n l → n ≡ 0
live-StateFits s_ready n l h k = k
live-StateFits s_remote_ready n l h k = k
live-StateFits _ n l h k = absurd (h refl)

pub Taken-Idle :
    (r r' : Runtime) (a : ℕ) → Taken r r' a → HeldOnce r → Inv r → (r.tasks a).num_predecessors ≡ 0
Taken-Idle r r' a gone once inv =
    let (here, unborn) = once a in
    let some_place : live (r.tasks a).state ≢ 0 = ground (arith, gone a) in
    live-StateFits (r.tasks a).state _ (r.tasks a).dependents some_place (inv a).0.1

pub finished-IsSound :
    (r r' : Runtime) (a : ℕ) (b : Bool)
    → Taken r r' a
    → r'.tasks ≡ r.tasks
    → r'.fresh ≡ r.fresh
    → r'.notices ≡ r.notices
    → IsSound r
    → IsSound (complete r' a b)
finished-IsSound r r' a b gone et ef en (inv, once, named) =
    let inv' : Inv r' = rw (et, ef, en) inv in
    let la = Taken-Known r r' a gone once in
    let z = Taken-Idle r r' a gone once inv in
    (
      complete-Inv r' a b (rw ef la) (rw et z) inv',
      complete-HeldOnce r r' a b gone et ef once,
      complete-Named r' a b (rw (et, ef) named),
    )

-- The runtime in which `continue_with` enqueues `k`.
abbrev handed : Runtime → ℕ → ℕ → Runtime
handed r a k =
    let t : Task = r.tasks a in
    let r₁ = put r a (record t { dependents = []; continuation = some k; state = s_continued }) in
    let tk : Task = r₁.tasks k in
    put r₁ k (record tk { dependents = tk.dependents ++ t.dependents })

queued-none :
    (r : Runtime) (a : ℕ) (t : Task) (s : TaskState) (idle : Bool)
    → is_unqueued s ≡ false
    → enqueue_state r a t s idle ≡ none
unfolding enqueue_state
queued-none r a t s_new idle h = absurd (false≢true (sym h))
queued-none r a t s_remote_new idle h = absurd (false≢true (sym h))
queued-none r a t _ idle h = refl

is_unqueued-IsOpen : (s : TaskState) → is_unqueued s ≡ true → IsOpen s
is_unqueued-IsOpen s_new h = tt
is_unqueued-IsOpen s_remote_new h = tt
is_unqueued-IsOpen _ h = absurd (false≢true h)

-- `k` takes over the dependents of `a`, which `r'` holds no more.
pub continued-IsSound :
    (r r' : Runtime) (a k : ℕ)
    → Taken r r' a
    → r'.tasks ≡ r.tasks
    → r'.fresh ≡ r.fresh
    → r'.notices ≡ r.notices
    → k < r.fresh
    → IsSound r
    → After IsSound (continue_with r' a k)
unfolding continue_with enqueue
continued-IsSound r r' a k gone et ef en lk (inv, once, named) =
    by_state (Bool-cases (is_unqueued (r₂.tasks k).state))
  where
    r₂ : Runtime
    r₂ = handed r' a k

    idle : Bool
    idle = (r₂.tasks k).num_predecessors == 0

    open_state :
        is_unqueued (r₂.tasks k).state ≡ true → (a ≢ k) × ((r'.tasks k).state ≡ (r₂.tasks k).state)
    open_state e = (ground arith, ground arith)

    named₂ : Named r₂
    named₂ t = ground (arith, named t, ap (λ (f : ℕ → Task). f t) et)

    once₂ : a ≢ k → HeldOnce r₂
    once₂ ne t =
        let (here, unborn) = once t in
        (
          ground (arith, gone t, gone a, ap (λ (f : ℕ → Task). f t) et),
          ground (arith, ap (λ (f : ℕ → Task). f t) et),
        )

    by_state :
        (is_unqueued (r₂.tasks k).state ≡ true) ⊎ (is_unqueued (r₂.tasks k).state ≡ false)
        → After IsSound (continue_with r' a k)
    by_state (inr e) = rw (queued-none r₂ k (r₂.tasks k) (r₂.tasks k).state idle e) tt
    by_state (inl e) =
        let (ne, same) = open_state e in
        let la = Taken-Known r r' a gone once in
        let z = Taken-Idle r r' a gone once inv in
        After-and Inv HeldOnce Named _
          (continue-Inv r' a k ne (rw ef la) (rw ef lk) (rw et z)
            (is_unqueued-IsOpen (r'.tasks k).state (rw same e)) (rw (et, ef, en) inv))
          (enqueue_state-HeldOnce r₂ k (r₂.tasks k).state idle (rw ef lk) refl (once₂ ne))
          (enqueue_state-Named r₂ k (r₂.tasks k).state idle named₂)
