-- ===== src/Task/Progress.antt =====
-- While a task that has been enqueued is not done, a thread has something to do.
use petabricks.Base.{
  ℕ, zero, suc, ◌<◌, ◌≡◌, refl, ap, Bool, true, ◌||◌, false≢true, Bool-cases, ◌⊎◌, inl, inr, some,
  List, [], ◌∷◌, arith, ltb, leb, ◌==◌,
}
use petabricks.Task.{
  Task, TaskState, Runtime, s_new, s_pending, s_ready, s_complete, s_continued, s_remote_new,
  s_remote_pending, s_remote_ready, is_done, may_run,
}
use petabricks.Task.Count.{occurrences, noticed, listed, waits}
use petabricks.Task.Step.{
  remove_at, Move, notifies, starts, starts_remote, finishes, cancels, start, start_remote, finish,
  cancel, step,
}
use petabricks.Task.Invariant.{StateFits}
use petabricks.Task.Held.{held, live}
use petabricks.Task.Sound.{IsSound, notify-IsSound}
use petabricks.Task.Turns.{is_turn, is_scheduled}

-- Every task has been enqueued and has the type of its state.
abbrev pub AllScheduled : Runtime → Type 0
AllScheduled r =
    (t : ℕ) → (leb r.fresh t || is_scheduled (r.tasks t).state (r.tasks t).type_bits) ≡ true

-- The dependents of a task have a higher rank: no tasks wait for each other.
abbrev pub Ranked : (ℕ → ℕ) → Runtime → Type 0
Ranked rank r =
    (a b : ℕ)
    → (leb r.fresh b || occurrences a (r.tasks b).dependents == 0 || ltb (rank b) (rank a)) ≡ true

abbrev pub AllDone : Runtime → Type 0
AllDone r = (t : ℕ) → (leb r.fresh t || is_done (r.tasks t).state) ≡ true

pub AllScheduled-below :
    (r : Runtime) (t : ℕ)
    → AllScheduled r
    → t < r.fresh
    → is_scheduled (r.tasks t).state (r.tasks t).type_bits ≡ true
AllScheduled-below r t all lt = ground (arith, all t)

Ranked-below :
    (rank : ℕ → ℕ) (r : Runtime) (a b : ℕ)
    → Ranked rank r
    → b < r.fresh
    → 0 < occurrences a (r.tasks b).dependents
    → rank b < rank a
Ranked-below rank r a b ranked lt some_place = ground (arith, ranked a b)

abbrev pub CanTurn : Runtime → Type 0
CanTurn r = (m : Move) × (is_turn m ≡ true) × (r' : Runtime) × (step r m ≡ some r')

listed-some :
    (f : ℕ → Task) (t n : ℕ)
    → 0 < listed f t n
    → (b : ℕ) × (b < n) × (0 < occurrences t (f b).dependents)
unfolding listed
listed-some f t zero h = absurd (omega arith)
listed-some f t (suc n) h = elim (Bool-cases (occurrences t (f n).dependents == 0)) [
  | inl e ↦
      let (b, lt, some_place) = listed-some f t n (ground arith) in (b, omega arith, some_place)
  | inr e ↦ (n, omega arith, ground arith)
]

-- A task that is held passes the assertion of `runWrapper`.
held-may_run :
    (t : Task)
    → 0 < live t.state
    → StateFits t.state t.num_predecessors t.dependents
    → is_scheduled t.state t.type_bits ≡ true
    → may_run t ≡ true
unfolding may_run is_scheduled
held-may_run t h fits k = by_state t.state refl h fits k
  where
    by_state :
        (s : TaskState)
        → t.state ≡ s
        → 0 < live s
        → StateFits s t.num_predecessors t.dependents
        → is_scheduled s t.type_bits ≡ true
        → may_run t ≡ true
    by_state s_ready e h fits k = rw e (ground arith)
    by_state s_remote_ready e h fits k = rw e (ground arith)
    by_state _ e h fits k = absurd (ground arith)

-- A task that waits is not held and waits for one that is not done.
waits-done :
    (s : TaskState) (bits n : ℕ) (l : List ℕ)
    → is_scheduled s bits ≡ true
    → live s ≡ 0
    → StateFits s n l
    → (n ≡ 0)
    → is_done s ≡ true
unfolding is_scheduled is_done
waits-done s_new bits n l k h fits z = k
waits-done s_remote_new bits n l k h fits z = k
waits-done s_pending bits n l k h fits z = absurd (omega arith)
waits-done s_remote_pending bits n l k h fits z = absurd (omega arith)
waits-done s_ready bits n l k h fits z = absurd (omega arith)
waits-done s_remote_ready bits n l k h fits z = absurd (omega arith)
waits-done _ bits n l k h fits z = refl

done-dependents :
    (s : TaskState) (n t : ℕ) (l : List ℕ)
    → is_done s ≡ true
    → StateFits s n l
    → occurrences t l ≡ 0
unfolding is_done
done-dependents s_complete n t l h fits = ap (occurrences t) fits.1
done-dependents s_continued n t l h fits = ap (occurrences t) fits.1
done-dependents _ n t l h fits = absurd (false≢true h)

-- With nothing held and no decrement due, by the rank.
idle-done :
    (rank : ℕ → ℕ) (r : Runtime)
    → IsSound r
    → AllScheduled r
    → Ranked rank r
    → ((t : ℕ) → held r t ≡ 0)
    → ((t : ℕ) → noticed t r.notices ≡ 0)
    → (n t : ℕ) → rank t < n
    → t < r.fresh
    → is_done (r.tasks t).state ≡ true
unfolding waits
idle-done rank r ok all ranked idle quiet zero t lt lf = absurd (omega arith)
idle-done rank r (inv, once, named) all ranked idle quiet (suc n) t lt lf =
    let x : Task = r.tasks t in
    let not_live : live x.state ≡ 0 = ground (arith, (once t).0, idle t) in
    waits-done x.state x.type_bits x.num_predecessors x.dependents (AllScheduled-below r t all lf)
      not_live (inv t).0.1
      (elim (Bool-cases (listed r.tasks t r.fresh == 0)) [
        | inl e ↦ ground (arith, (inv t).0.0, quiet t)
        | inr e ↦
            let (b, lb, some_place) = listed-some r.tasks t r.fresh (ground arith) in
            let done =
              idle-done rank r (inv, once, named) all ranked idle quiet n b
                (omega (arith, Ranked-below rank r t b ranked lb some_place)) lb in
            let z = done-dependents (r.tasks b).state _ t (r.tasks b).dependents done (inv b).0.1 in
            absurd (omega (arith, z, some_place))
      ])

first-held-may_run :
    (r : Runtime) (a : ℕ) → IsSound r → AllScheduled r → 0 < held r a → may_run (r.tasks a) ≡ true
first-held-may_run r a (inv, once, named) all h =
    let (here, unborn) = once a in
    let known : a < r.fresh = ground arith in
    held-may_run (r.tasks a) (omega (arith, here, h)) (inv a).0.1 (AllScheduled-below r a all known)

can_take :
    (r : Runtime) (m : Move) → is_turn m ≡ true → (r' : Runtime) × (step r m ≡ some r') → CanTurn r
can_take r m h (r', e) = (m, h, r', e)

pub can-progress :
    (rank : ℕ → ℕ) (r : Runtime)
    → IsSound r
    → AllScheduled r
    → Ranked rank r
    → AllDone r ⊎ CanTurn r
unfolding step start start_remote finish cancel remove_at is_turn
can-progress rank r ok all ranked = by_notices r.notices refl
  where
    by_cancelled :
        (l : List ℕ)
        → r.cancelled ≡ l
        → r.running ≡ []
        → r.remote ≡ []
        → r.ready ≡ []
        → r.notices ≡ []
        → AllDone r ⊎ CanTurn r
    by_cancelled [] c u₀ m y n = inl (λ t. elim (Bool-cases (leb r.fresh t)) [
      | inl k ↦ rw k refl
      | inr k ↦ rw k (
          idle-done rank r ok all ranked (λ u. rw (c, u₀, m, y) refl) (λ u. rw n refl)
            (suc (rank t)) t (omega arith) (ground arith))
    ])
    by_cancelled (a ∷ l) c u m y n =
        let k = first-held-may_run r a ok all (ground (arith, c)) in
        inr (can_take r (cancels 0) refl (rw (c, k) (_, refl)))

    by_running :
        (l : List ℕ)
        → r.running ≡ l
        → r.remote ≡ []
        → r.ready ≡ []
        → r.notices ≡ []
        → AllDone r ⊎ CanTurn r
    by_running [] u m y n = by_cancelled r.cancelled refl u m y n
    by_running (a ∷ l) u m y n = inr (can_take r (finishes 0) refl (rw u (_, refl)))

    by_remote : (l : List ℕ) → r.remote ≡ l → r.ready ≡ [] → r.notices ≡ [] → AllDone r ⊎ CanTurn r
    by_remote [] m y n = by_running r.running refl m y n
    by_remote (a ∷ l) m y n =
        let k = first-held-may_run r a ok all (ground (arith, m)) in
        inr (can_take r (starts_remote 0) refl (rw (m, k) (_, refl)))

    by_ready : (l : List ℕ) → r.ready ≡ l → r.notices ≡ [] → AllDone r ⊎ CanTurn r
    by_ready [] y n = by_remote r.remote refl y n
    by_ready (a ∷ l) y n =
        let k = first-held-may_run r a ok all (ground (arith, y)) in
        inr (can_take r (starts 0) refl (rw (y, k) (_, refl)))

    by_notices : (l : List (ℕ × Bool)) → r.notices ≡ l → AllDone r ⊎ CanTurn r
    by_notices [] n = by_ready r.ready refl n
    by_notices ((a, b) ∷ l) n =
        let (r', k, _) = notify-IsSound r 0 a b l (rw n refl) ok in
        inr (can_take r (notifies 0) refl (rw n (r', k)))
