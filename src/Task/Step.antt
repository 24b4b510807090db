-- ===== src/Task/Step.antt =====
-- The steps that the threads make, one critical section at a time, in any order. A step that names
-- a task which does not exist, or a place that a list does not have, is `none`.
use petabricks.Base.{
  ℕ, zero, suc, Bool, true, false, ◌&&◌, ◌≡◌, refl, arith, ◌==◌, Option, none, some, List, [], ◌∷◌,
  ltb, if◌then◌else◌,
}
use petabricks.Task.Count.{occurrences, noticed}
use petabricks.Task.{
  Runtime, create, depends_on, enqueue, decrement_predecessors, may_run, complete, continue_with,
}

-- The entry at a place, and the others.
unfoldable pub remove_at {ℓ} : {A : Type ℓ} → ℕ → List A → Option (A × List A)
remove_at i [] = none
remove_at zero (x ∷ xs) = some (x, xs)
remove_at (suc i) (x ∷ xs) = elim (remove_at i xs) [ none ↦ none | some (y, ys) ↦ some (y, x ∷ ys) ]

pub data Move : Type 0 where
  creates : Bool → ℕ → Move
  depends : ℕ → ℕ → ℕ → Move
  enqueues : ℕ → Move
  -- a finished task's thread decrements the counter of a dependent
  notifies : ℕ → Move
  -- a thread takes a ready task, or another processor a remote one, and calls `runWrapper`
  starts : ℕ → Move
  starts_remote : ℕ → Move
  -- `run()` has returned null, or a continuation
  finishes : ℕ → Move
  continues : ℕ → ℕ → Move
  -- `runWrapper(true)`, of a task whose last predecessor was cancelled
  cancels : ℕ → Move
  -- `cancel()`, of a ready task that a thread that aborts has taken
  cancels_ready : ℕ → Move

abbrev pub exists : Runtime → ℕ → Bool
exists r a = ltb a r.fresh

unfoldable pub start : Runtime → ℕ × List ℕ → Option Runtime
start r (a, rest) =
    if may_run (r.tasks a) then some (record r { ready = rest; running = a ∷ r.running }) else none

unfoldable pub start_remote : Runtime → ℕ × List ℕ → Option Runtime
start_remote r (a, rest) =
    if may_run (r.tasks a) then some (record r { remote = rest; running = a ∷ r.running }) else none

unfoldable pub notify : Runtime → (ℕ × Bool) × List (ℕ × Bool) → Option Runtime
notify r ((a, is_aborting), rest) =
    decrement_predecessors (record r { notices = rest }) a is_aborting

unfoldable pub finish : Runtime → ℕ × List ℕ → Option Runtime
finish r (a, rest) = some (complete (record r { running = rest }) a false)

unfoldable pub finish_with : Runtime → ℕ → ℕ × List ℕ → Option Runtime
finish_with r k (a, rest) =
    if exists r k then continue_with (record r { running = rest }) a k else none

unfoldable pub cancel : Runtime → ℕ × List ℕ → Option Runtime
cancel r (a, rest) =
    if may_run (r.tasks a) then some (complete (record r { cancelled = rest }) a true) else none

unfoldable pub cancel_ready : Runtime → ℕ × List ℕ → Option Runtime
cancel_ready r (a, rest) =
    if may_run (r.tasks a) then some (complete (record r { ready = rest }) a true) else none

abbrev pub bind {ℓ κ} : {A : Type ℓ} {B : Type κ} → Option A → (A → Option B) → Option B
bind none f = none
bind (some a) f = f a

unfoldable pub step : Runtime → Move → Option Runtime
unfolding start start_remote notify finish finish_with cancel cancel_ready
step r (creates is_remote bits) = some (create r is_remote bits)
step r (depends fuel a b) = if exists r a && exists r b then depends_on fuel r a (some b) else none
step r (enqueues a) = if exists r a then enqueue r a else none
step r (notifies i) = bind (remove_at i r.notices) (notify r)
step r (starts i) = bind (remove_at i r.ready) (start r)
step r (starts_remote i) = bind (remove_at i r.remote) (start_remote r)
step r (finishes i) = bind (remove_at i r.running) (finish r)
step r (continues i k) = bind (remove_at i r.running) (finish_with r k)
step r (cancels i) = bind (remove_at i r.cancelled) (cancel r)
step r (cancels_ready i) = bind (remove_at i r.ready) (cancel_ready r)

unfoldable pub run_moves : Runtime → List Move → Option Runtime
run_moves r [] = some r
run_moves r (m ∷ ms) = bind (step r m) (λ r'. run_moves r' ms)

-- Every entry that `remove_at` takes out is one occurrence less.
pub remove_at-occurrences :
    (i : ℕ) (xs : List ℕ) (a : ℕ) (rest : List ℕ) (t : ℕ)
    → remove_at i xs ≡ some (a, rest)
    → occurrences t xs ≡ (if a == t then suc (occurrences t rest) else occurrences t rest)
unfolding remove_at
remove_at-occurrences i [] a rest t e = absurd (ground arith)
remove_at-occurrences zero (x ∷ xs) a rest t e = ground arith
remove_at-occurrences (suc i) (x ∷ xs) a rest t e =
    removed (remove_at i xs) refl (remove_at-occurrences i xs)
  where
    removed :
        (o : Option (ℕ × List ℕ))
        → remove_at i xs ≡ o
        → ((b : ℕ) (ys : List ℕ) (u : ℕ)
            → remove_at i xs ≡ some (b, ys)
            → occurrences u xs ≡ (if b == u then suc (occurrences u ys) else occurrences u ys))
        → occurrences t (x ∷ xs) ≡ (if a == t then suc (occurrences t rest) else occurrences t rest)
    removed none k ih = absurd (ground (arith, k))
    removed (some (y, ys)) k ih = ground (arith, k, ih y ys t k)

pub remove_at-noticed :
    (i : ℕ) (xs : List (ℕ × Bool)) (a : ℕ) (b : Bool) (rest : List (ℕ × Bool)) (t : ℕ)
    → remove_at i xs ≡ some ((a, b), rest)
    → noticed t xs ≡ (if a == t then suc (noticed t rest) else noticed t rest)
unfolding remove_at
remove_at-noticed i [] a b rest t e = absurd (ground arith)
remove_at-noticed zero ((x, c) ∷ xs) a b rest t e = ground arith
remove_at-noticed (suc i) ((x, c) ∷ xs) a b rest t e =
    removed (remove_at i xs) refl (remove_at-noticed i xs)
  where
    removed :
        (o : Option ((ℕ × Bool) × List (ℕ × Bool)))
        → remove_at i xs ≡ o
        → ((y : ℕ) (d : Bool) (ys : List (ℕ × Bool)) (u : ℕ)
            → remove_at i xs ≡ some ((y, d), ys)
            → noticed u xs ≡ (if y == u then suc (noticed u ys) else noticed u ys))
        → noticed t ((x, c) ∷ xs) ≡ (if a == t then suc (noticed t rest) else noticed t rest)
    removed none k ih = absurd (ground (arith, k))
    removed (some ((y, d), ys)) k ih = ground (arith, k, ih y d ys t k)
