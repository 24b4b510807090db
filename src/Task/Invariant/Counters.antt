-- ===== src/Task/Invariant/Counters.antt =====
-- The counters at the end of a task.
use petabricks.Base.{
  ℕ, suc, ◌-◌, ◌<◌, ◌≡◌, ◌≢◌, refl, Bool, true, false, ◌&&◌, none, some, List, [], ◌++◌, arith,
  ◌==◌, if◌then◌else◌,
}
use petabricks.Task.{
  Task, TaskState, Runtime, s_new, s_pending, s_ready, s_complete, s_continued, s_remote_new,
  s_remote_pending, s_remote_ready, update, put, wake, decrement_predecessors, complete,
  continue_with,
}
use petabricks.Task.Count.{
  noticed, waits, occurrences-append, noticed-notices_of, listed-update, listed-update_same,
}
use petabricks.Task.Invariant.{
  StateFits, StateOk, AllOk, Inv, update-StateOk, IsOpen, IsOpen-StateFits, After, enqueue-Inv,
}

-- A change of one task's counter by one, with a notice less.
notice-AllOk :
    (f : ℕ → Task) (n : ℕ) (a : ℕ) (ns ns' : List (ℕ × Bool)) (x : Task)
    → ((t : ℕ) → noticed t ns ≡ (if a == t then suc (noticed t ns') else noticed t ns'))
    → x.dependents ≡ (f a).dependents
    → x.num_predecessors ≡ (f a).num_predecessors - 1
    → StateOk x
    → AllOk f n ns
    → AllOk (update f a x) n ns'
unfolding waits
notice-AllOk f n a ns ns' x less e k fits all t =
    let (ok, unborn) = all t in
    let same = listed-update_same f a x t n e in
    ((ground (arith, less t), update-StateOk f a x t fits ok.1), ground arith)

abbrev is_waiting : TaskState → Bool
is_waiting s_pending = true
is_waiting s_remote_pending = true
is_waiting _ = false

decremented-StateFits :
    (s : TaskState) (n : ℕ) (l : List ℕ)
    → 0 < n
    → is_waiting s && (n - 1 == 0) ≡ false
    → StateFits s n l
    → StateFits s (n - 1) l
decremented-StateFits s_pending n l p w h = ground arith
decremented-StateFits s_remote_pending n l p w h = ground arith
decremented-StateFits s_new n l p w h = tt
decremented-StateFits s_remote_new n l p w h = tt
decremented-StateFits _ n l p w h = absurd (omega arith)

module _ (r : Runtime) (a : ℕ) (ns : List (ℕ × Bool))
    (less : (t : ℕ)
      → noticed t ns ≡ (if a == t then suc (noticed t r.notices) else noticed t r.notices))
    (p : 0 < (r.tasks a).num_predecessors) (all : AllOk r.tasks r.fresh ns) where
  abbrev lowered : TaskState → Task
  lowered s =
      let t : Task = r.tasks a in record t { num_predecessors = t.num_predecessors - 1; state = s }

  lowered-Inv : (s : TaskState) → StateOk (lowered s) → Inv (put r a (lowered s))
  lowered-Inv s fits =
      notice-AllOk r.tasks r.fresh a ns r.notices (lowered s) less refl refl fits all

  pub wake-Inv :
      (s : TaskState) (last aborting : Bool)
      → (r.tasks a).state ≡ s
      → ((r.tasks a).num_predecessors - 1 == 0) ≡ last
      → Inv (wake r a (r.tasks a) ((r.tasks a).num_predecessors - 1) s last aborting)
  unfolding wake
  wake-Inv s_pending true false e k = lowered-Inv s_ready (ground arith)
  wake-Inv s_pending true true e k = lowered-Inv s_ready (ground arith)
  wake-Inv s_remote_pending true false e k = lowered-Inv s_remote_ready (ground arith)
  wake-Inv s_remote_pending true true e k = lowered-Inv s_remote_ready (ground arith)
  wake-Inv s last aborting e k =
      lowered-Inv (r.tasks a).state
        (decremented-StateFits (r.tasks a).state _ _ p (ground arith) (all a).0.1)

  decrement-Inv : (aborting : Bool) → After Inv (decrement_predecessors r a aborting)
  unfolding decrement_predecessors
  decrement-Inv aborting =
      let e : ((r.tasks a).num_predecessors == 0) ≡ false = ground arith in
      rw e (wake-Inv (r.tasks a).state _ aborting refl refl)

pub complete-Inv :
    (r : Runtime) (a : ℕ) (aborting : Bool)
    → a < r.fresh
    → (r.tasks a).num_predecessors ≡ 0
    → Inv r
    → Inv (complete r a aborting)
unfolding complete waits
complete-Inv r a aborting la z all t =
    let (ok, unborn) = all t in
    let ta : Task = r.tasks a in
    let x : Task = record ta { dependents = []; continuation = none; state = s_complete } in
    (
      (
        ground (
          arith,
          listed-update r.tasks a x t r.fresh la,
          noticed-notices_of t ta.dependents aborting r.notices,
        ),
        update-StateOk r.tasks a x t (z, refl) ok.1,
      ),
      ground arith,
    )

pub continue-Inv :
    (r : Runtime) (a k : ℕ)
    → a ≢ k
    → a < r.fresh
    → k < r.fresh
    → (r.tasks a).num_predecessors ≡ 0
    → IsOpen (r.tasks k).state
    → Inv r
    → After Inv (continue_with r a k)
unfolding continue_with waits
continue-Inv r a k ne la lk z still all = enqueue-Inv r₂ k lk moved
  where
    ta : Task
    ta = r.tasks a

    x : Task
    x = record ta { dependents = []; continuation = some k; state = s_continued }

    r₁ : Runtime
    r₁ = put r a x

    tk : Task
    tk = r₁.tasks k

    y : Task
    y = record tk { dependents = tk.dependents ++ ta.dependents }

    r₂ : Runtime
    r₂ = put r₁ k y

    moved : Inv r₂
    moved t =
        let (ok, unborn) = all t in
        let (okk, _) = all k in
        let same : tk ≡ r.tasks k = ground arith in
        (
          (
            ground (
              arith,
              same,
              listed-update r.tasks a x t r.fresh la,
              listed-update r₁.tasks k y t r.fresh lk,
              occurrences-append t tk.dependents ta.dependents,
            ),
            update-StateOk r₁.tasks k y t
                (IsOpen-StateFits tk.state tk.num_predecessors tk.dependents y.dependents
                  (rw same still) (rw same okk.1))
                (update-StateOk r.tasks a x t (z, refl) ok.1),
          ),
          ground (arith, same),
        )
