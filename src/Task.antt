-- ===== src/Task.antt =====
-- runtime/dynamictask.cpp and dynamictask.h: tasks with dependencies, counters of predecessors and
-- continuations. Each function is one step: the sections of one call that hold a lock are taken as
-- one, also in `completeTaskDeps` with a continuation and in `enqueue`, whose lock is given up
-- before the hand-over. The runtime's threads are the schedule. `none` is a failed JASSERT. What
-- `run()` does is a sequence of calls of these functions by other threads and by itself, so it is
-- not part of them.
pub mod Count
pub mod Step
pub mod Invariant
pub mod Held
pub mod Sound
pub mod Safety
pub mod Turns
pub mod Progress
pub mod Liveness
mod Tests
use petabricks.Base.{
  ℕ, zero, suc, ◌+◌, ◌-◌, ◌≡◌, Bool, true, false, ◌&&◌, ◌||◌, Option, none, some, List, [], ◌∷◌,
  ◌++◌, map, ltb, leb, ◌==◌, if◌then◌else◌,
}

pub data TaskState : Type 0 where
  s_new s_pending s_ready s_complete s_continued s_remote_new s_remote_pending : TaskState
  s_remote_ready : TaskState

-- `continuation` is null or a task; a task is its number.
pub record Task : Type 0 where
  pub dependents : List ℕ
  pub continuation : Option ℕ
  pub state : TaskState
  pub num_predecessors : ℕ
  pub type_bits : ℕ

abbrev pub type_cpu : ℕ
type_cpu = 1

abbrev pub type_opencl : ℕ
type_opencl = 2

-- The tasks, and what the threads hold: tasks handed to a worker or run at once (`ready`), tasks
-- handed to another processor or host (`remote`), tasks inside `runWrapper`, the calls of
-- `decrementPredecessors` that a finished task still has to make (with `isAborting`), and tasks to
-- be cancelled.
pub record Runtime : Type 0 where
  pub tasks : ℕ → Task
  pub fresh : ℕ
  pub ready : List ℕ
  pub remote : List ℕ
  pub running : List ℕ
  pub notices : List (ℕ × Bool)
  pub cancelled : List ℕ

abbrev pub update : (ℕ → Task) → ℕ → Task → ℕ → Task
update f a x b = if b == a then x else f b

abbrev pub put : Runtime → ℕ → Task → Runtime
put r a x = record r { tasks = update r.tasks a x }

-- The constructor: `state` is `s_new`, or `s_remote_new` for a RemoteTask or a task for a GPU.
abbrev pub blank : TaskState → ℕ → Task
blank s bits = record {
  dependents = [];
  continuation = none;
  state = s;
  num_predecessors = 0;
  type_bits = bits;
}

abbrev pub is_unqueued : TaskState → Bool
is_unqueued s_new = true
is_unqueued s_remote_new = true
is_unqueued _ = false

unfoldable pub create : Runtime → Bool → ℕ → Runtime
create r is_remote bits = record r {
  tasks = update r.tasks r.fresh (blank (if is_remote then s_remote_new else s_new) bits);
  fresh = r.fresh + 1;
}

-- Registers `a` as a dependent of `b`, which is not complete.
abbrev pub register : Runtime → ℕ → ℕ → Runtime
register r a b =
    let tb : Task = r.tasks b in
    let r₁ = put r b (record tb { dependents = tb.dependents ++ a ∷ [] }) in
    let ta : Task = r₁.tasks a in
    put r₁ a (record ta { num_predecessors = ta.num_predecessors + 1 })

-- `a.dependsOn(b)`, on fuel for the chain of continuations; the assertions are repeated at each.
-- What it does by the state of `b`; `rest` is the call at the continuation.
unfoldable pub depend_state : Runtime → ℕ → ℕ → Option Runtime → TaskState → Option Runtime
depend_state r a b rest s_continued = rest
depend_state r a b rest s_complete = some r
depend_state r a b rest _ = some (register r a b)

unfoldable pub depends_on : ℕ → Runtime → ℕ → Option ℕ → Option Runtime
unfolding depend_state
depends_on fuel r a none = some r
depends_on zero r a (some b) = none
depends_on (suc fuel) r a (some b) =
    let rest = depends_on fuel r a (r.tasks b).continuation in
    if a == b
    then none
    else if is_unqueued (r.tasks a).state
    then depend_state r a b rest (r.tasks b).state
    else none

-- `enqueue`: the state under the lock, then the hand-over of a task that is ready. The last
-- argument says whether there are no predecessors.
unfoldable pub enqueue_state : Runtime → ℕ → Task → TaskState → Bool → Option Runtime
enqueue_state r a t s_new true =
    some (record (put r a (record t { state = s_ready })) { ready = a ∷ r.ready })
enqueue_state r a t s_new false = some (put r a (record t { state = s_pending }))
enqueue_state r a t s_remote_new true =
    some (record (put r a (record t { state = s_remote_ready })) { remote = a ∷ r.remote })
enqueue_state r a t s_remote_new false = some (put r a (record t { state = s_remote_pending }))
enqueue_state r a t _ idle = none

unfoldable pub enqueue : Runtime → ℕ → Option Runtime
unfolding enqueue_state
enqueue r a = let t : Task = r.tasks a in enqueue_state r a t t.state (t.num_predecessors == 0)

-- The new state of a task whose counter has been set to `n`, and its hand-over if it was waiting
-- for that; the next argument says whether `n` is 0, and the last is `isAborting`.
unfoldable pub wake : Runtime → ℕ → Task → ℕ → TaskState → Bool → Bool → Runtime
wake r a t n s_pending true false =
    record (put r a (record t { num_predecessors = n; state = s_ready })) { ready = a ∷ r.ready }
wake r a t n s_pending true true =
    record (put r a (record t { num_predecessors = n; state = s_ready })) {
      cancelled = a ∷ r.cancelled;
    }
wake r a t n s_remote_pending true false =
    record (put r a (record t { num_predecessors = n; state = s_remote_ready })) {
      remote = a ∷ r.remote;
    }
wake r a t n s_remote_pending true true =
    record (put r a (record t { num_predecessors = n; state = s_remote_ready })) {
      cancelled = a ∷ r.cancelled;
    }
wake r a t n _ _ _ = put r a (record t { num_predecessors = n })

-- `decrementPredecessors`. A counter of 0, which `long` would take to -1, is `none`.
unfoldable pub decrement_predecessors : Runtime → ℕ → Bool → Option Runtime
unfolding wake
decrement_predecessors r a is_aborting =
    let t : Task = r.tasks a in
    let n = t.num_predecessors - 1 in
    if t.num_predecessors == 0 then none else some (wake r a t n t.state (n == 0) is_aborting)

-- The assertion of `runWrapper`.
unfoldable pub may_run : Task → Bool
may_run t = elim t.state [
  | s_ready ↦ t.type_bits == type_cpu && t.num_predecessors == 0
  | s_remote_ready ↦ t.type_bits == type_opencl && t.num_predecessors == 0
  | _ ↦ false
]

-- What `waitUntilComplete` waits for.
unfoldable pub is_done : TaskState → Bool
is_done s_complete = true
is_done s_continued = true
is_done _ = false

abbrev pub notices_of : List ℕ → Bool → List (ℕ × Bool)
notices_of [] aborting = []
notices_of (a ∷ l) aborting = (a, aborting) ∷ notices_of l aborting

-- `completeTaskDeps` of a task with no continuation: the dependents are to be notified.
unfoldable pub complete : Runtime → ℕ → Bool → Runtime
complete r a is_aborting =
    let t : Task = r.tasks a in
    record (put r a (record t { dependents = []; continuation = none; state = s_complete })) {
      notices = notices_of t.dependents is_aborting ++ r.notices;
    }

-- `completeTaskDeps` of a task with the continuation `k`: its dependents go to `k`, which is
-- enqueued.
unfoldable pub continue_with : Runtime → ℕ → ℕ → Option Runtime
unfolding enqueue
continue_with r a k =
    let t : Task = r.tasks a in
    let r₁ = put r a (record t { dependents = []; continuation = some k; state = s_continued }) in
    let tk : Task = r₁.tasks k in
    enqueue (put r₁ k (record tk { dependents = tk.dependents ++ t.dependents })) k
