-- ===== src/Task/Turns.antt =====
-- The turns of the threads: the steps of `DynamicTask` that go on with the tasks there are, which are
-- the calls of a finished task's `decrementPredecessors` and those of `runWrapper`, where `run()` gives
-- no continuation.
use petabricks.Base.{
  ℕ, zero, suc, ◌+◌, ◌*◌, ◌≤◌, ◌<◌, ◌≡◌, refl, ap, Bool, true, false, Bool-cases, inl, inr, Option,
  none, some, List, [], ◌∷◌, length, length-append, arith, ◌==◌,
}
use petabricks.Task.{
  Task, TaskState, Runtime, s_new, s_pending, s_ready, s_complete, s_remote_new, s_remote_pending,
  s_remote_ready, type_cpu, type_opencl, update, wake, complete, notices_of,
}
use petabricks.Task.Count.{occurrences}
use petabricks.Task.Step.{
  remove_at, Move, notifies, starts, starts_remote, finishes, cancels, cancels_ready,
}

unfoldable pub is_turn : Move → Bool
is_turn (notifies i) = true
is_turn (starts i) = true
is_turn (starts_remote i) = true
is_turn (finishes i) = true
is_turn (cancels i) = true
is_turn (cancels_ready i) = true
is_turn _ = false

-- `enqueue` has been called, and the type is one that `runWrapper` takes in the states to come.
unfoldable pub is_scheduled : TaskState → ℕ → Bool
is_scheduled s_new bits = false
is_scheduled s_remote_new bits = false
is_scheduled s_pending bits = bits == type_cpu
is_scheduled s_ready bits = bits == type_cpu
is_scheduled s_remote_pending bits = bits == type_opencl
is_scheduled s_remote_ready bits = bits == type_opencl
is_scheduled _ bits = true

-- The entries in the lists of dependents of the first `n` tasks.
unfoldable entries : (ℕ → Task) → ℕ → ℕ
entries f zero = 0
entries f (suc n) = length (f n).dependents + entries f n

-- A bound on the turns to come: of each decrement, of each task to be run and of each that is running.
unfoldable pub work : Runtime → ℕ
unfolding entries
work r =
    3 * (entries r.tasks r.fresh + length r.notices)
    + 2 * (length r.ready + length r.remote)
    + (length r.running + length r.cancelled)

entries-update_ge :
    (f : ℕ → Task) (v : ℕ) (x : Task) (n : ℕ) → n ≤ v → entries (update f v x) n ≡ entries f n
unfolding entries
entries-update_ge f v x zero h = refl
entries-update_ge f v x (suc n) h = ground (arith, entries-update_ge f v x n (omega arith))

entries-update :
    (f : ℕ → Task) (v : ℕ) (x : Task) (n : ℕ)
    → v < n
    → entries (update f v x) n + length (f v).dependents ≡ entries f n + length x.dependents
unfolding entries
entries-update f v x zero h = absurd (omega arith)
entries-update f v x (suc n) h = ground (arith, entries-update f v x n, entries-update_ge f v x n)

entries-update_same :
    (f : ℕ → Task) (v : ℕ) (x : Task) (n : ℕ)
    → length x.dependents ≡ length (f v).dependents
    → entries (update f v x) n ≡ entries f n
unfolding entries
entries-update_same f v x zero e = refl
entries-update_same f v x (suc n) e = ground (arith, entries-update_same f v x n e)

length-notices_of : (l : List ℕ) (b : Bool) → length (notices_of l b) ≡ length l
length-notices_of [] b = refl
length-notices_of (x ∷ l) b = omega (arith, length-notices_of l b)

pub length-remove_at {ℓ} :
    {A : Type ℓ} (i : ℕ) (xs : List A) (x : A) (rest : List A)
    → remove_at i xs ≡ some (x, rest)
    → length xs ≡ suc (length rest)
unfolding remove_at
length-remove_at i [] x rest e = absurd (ground arith)
length-remove_at zero (y ∷ xs) x rest e = ground arith
length-remove_at {A = A} (suc i) (y ∷ xs) x rest e =
    removed (remove_at i xs) refl (length-remove_at i xs)
  where
    removed :
        (o : Option (A × List A))
        → remove_at i xs ≡ o
        → ((z : A) (zs : List A) → remove_at i xs ≡ some (z, zs) → length xs ≡ suc (length zs))
        → length (y ∷ xs) ≡ suc (length rest)
    removed none k ih = absurd (ground (arith, k))
    removed (some (z, zs)) k ih = ground (arith, k, ih z zs k)

-- What one turn does to the tasks as a whole.
pub record Turned (r r' : Runtime) : Type 0 where
  pub same_tasks : r'.fresh ≡ r.fresh
  pub fewer :
      (a b : ℕ) → occurrences a (r'.tasks b).dependents ≤ occurrences a (r.tasks b).dependents
  pub stays_scheduled :
      (t : ℕ)
      → is_scheduled (r.tasks t).state (r.tasks t).type_bits ≡ true
      → is_scheduled (r'.tasks t).state (r'.tasks t).type_bits ≡ true
  pub less : work r' < work r

pub started-Turned :
    (r r' : Runtime) → r'.tasks ≡ r.tasks → r'.fresh ≡ r.fresh → work r' < work r → Turned r r'
started-Turned r r' et ef lt = record {
  same_tasks = ef;
  fewer = λ a b. rw et (ground arith);
  stays_scheduled = λ t h. rw et h;
  less = lt;
}

complete-work :
    (r : Runtime) (a : ℕ) (aborting : Bool) → a < r.fresh → work (complete r a aborting) ≡ work r
unfolding complete work
complete-work r a aborting la =
    let t : Task = r.tasks a in
    let x : Task = record t { dependents = []; continuation = none; state = s_complete } in
    omega (
      arith,
      entries-update r.tasks a x r.fresh la,
      length-append (notices_of t.dependents aborting) r.notices,
      length-notices_of t.dependents aborting,
    )

-- A task that is complete stays scheduled, with no dependents.
pub complete-Turned :
    (r r' : Runtime) (a : ℕ) (aborting : Bool)
    → a < r.fresh
    → r'.tasks ≡ r.tasks
    → r'.fresh ≡ r.fresh
    → work r' < work r
    → Turned r (complete r' a aborting)
unfolding complete is_scheduled
complete-Turned r r' a aborting la et ef lt = record {
  same_tasks = ef;
  fewer = λ c b.
      rw et
        (elim (Bool-cases (b == a)) [ inl e ↦ rw e (ground arith) | inr e ↦ rw e (ground arith) ]);
  stays_scheduled =
      λ t h. rw et (elim (Bool-cases (t == a)) [ inl e ↦ rw e refl | inr e ↦ rw e h ]);
  less = omega (arith, complete-work r' a aborting (rw ef la), lt);
}

-- A change of one task that keeps its dependents and leaves it scheduled.
changed-Turned :
    (r r' : Runtime) (a : ℕ) (x : Task)
    → r'.tasks ≡ update r.tasks a x
    → r'.fresh ≡ r.fresh
    → x.dependents ≡ (r.tasks a).dependents
    → (is_scheduled (r.tasks a).state (r.tasks a).type_bits ≡ true
        → is_scheduled x.state x.type_bits ≡ true)
    → work r' < work r
    → Turned r r'
changed-Turned r r' a x et ef ed k lt = record {
  same_tasks = ef;
  fewer = λ c b. rw et (elim (Bool-cases (b == a)) [
    | inl e ↦ rw e (ground (arith, ap (occurrences c) ed))
    | inr e ↦ rw e (ground arith)
  ]);
  stays_scheduled = λ t h.
      rw et (elim (Bool-cases (t == a)) [ inl e ↦ rw e (k (ground arith)) | inr e ↦ rw e h ]);
  less = lt;
}

abbrev with_state : Task → TaskState → ℕ → Task
with_state t s n = record t { num_predecessors = n; state = s }

wake-work :
    (r : Runtime) (a n : ℕ) (s : TaskState) (last aborting : Bool)
    → work (wake r a (r.tasks a) n s last aborting) ≤ work r + 2
unfolding wake work
wake-work r a n _ _ _ = ground (
  arith,
  entries-update_same r.tasks a (with_state (r.tasks a) s_ready n) r.fresh refl,
  entries-update_same r.tasks a (with_state (r.tasks a) s_remote_ready n) r.fresh refl,
  entries-update_same r.tasks a (with_state (r.tasks a) (r.tasks a).state n) r.fresh refl,
)

-- A waiting task that becomes ready stays scheduled.
pub wake-Turned :
    (r r' : Runtime) (a n : ℕ) (s : TaskState) (last aborting : Bool)
    → (r.tasks a).state ≡ s
    → r'.tasks ≡ r.tasks
    → r'.fresh ≡ r.fresh
    → work r' + 2 < work r
    → Turned r (wake r' a (r'.tasks a) n s last aborting)
unfolding wake is_scheduled
wake-Turned r r' a n s last aborting e et ef lt =
    let lt' : work (wake r' a (r'.tasks a) n s last aborting) < work r =
      omega (arith, wake-work r' a n s last aborting, lt) in
    by_state s last aborting e lt'
  where
    by_state :
        (s : TaskState) (last aborting : Bool)
        → (r.tasks a).state ≡ s
        → work (wake r' a (r'.tasks a) n s last aborting) < work r
        → Turned r (wake r' a (r'.tasks a) n s last aborting)
    by_state s_pending true false e lt =
        changed-Turned r _ a (with_state (r'.tasks a) s_ready n) (rw et refl) ef (rw et refl)
          (rw et (rw e (λ h. h))) lt
    by_state s_pending true true e lt =
        changed-Turned r _ a (with_state (r'.tasks a) s_ready n) (rw et refl) ef (rw et refl)
          (rw et (rw e (λ h. h))) lt
    by_state s_remote_pending true false e lt =
        changed-Turned r _ a (with_state (r'.tasks a) s_remote_ready n) (rw et refl) ef (rw et refl)
          (rw et (rw e (λ h. h))) lt
    by_state s_remote_pending true true e lt =
        changed-Turned r _ a (with_state (r'.tasks a) s_remote_ready n) (rw et refl) ef (rw et refl)
          (rw et (rw e (λ h. h))) lt
    by_state _ _ _ e lt =
        changed-Turned r _ a (with_state (r'.tasks a) (r'.tasks a).state n) (rw et refl) ef
          (rw et refl) (rw et (λ h. h)) lt
