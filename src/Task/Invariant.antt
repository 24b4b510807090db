-- ===== src/Task/Invariant.antt =====
-- The counters count: what holds between any two critical sections.
pub mod Counters
use petabricks.Base.{
  ℕ, zero, suc, ◌+◌, ◌-◌, ◌≤◌, ◌<◌, ◌≡◌, ◌≢◌, refl, sym, ap, ◌∙◌, Bool, true, false, ◌&&◌,
  false≢true, Bool-cases, inl, inr, Option, none, some, List, [], ◌∷◌, ◌++◌, arith, ltb, leb, ◌==◌,
  if◌then◌else◌,
}
use petabricks.Task.{
  Task, TaskState, Runtime, s_new, s_pending, s_ready, s_complete, s_continued, s_remote_new,
  s_remote_pending, s_remote_ready, update, put, blank, is_unqueued, create, register, depends_on,
  enqueue, enqueue_state, wake, decrement_predecessors, complete, continue_with, notices_of,
}
use petabricks.Task.Count.{
  occurrences, noticed, listed, waits, occurrences-append, noticed-notices_of, listed-update,
  listed-fresh, listed-update_same,
}

-- What a task's state says of its counter and its dependents.
abbrev pub StateFits : TaskState → ℕ → List ℕ → Type 0
StateFits s_pending n l = 0 < n
StateFits s_remote_pending n l = 0 < n
StateFits s_ready n l = n ≡ 0
StateFits s_remote_ready n l = n ≡ 0
StateFits s_complete n l = (n ≡ 0) × (l ≡ [])
StateFits s_continued n l = (n ≡ 0) × (l ≡ [])
StateFits _ n l = Unit {0}

abbrev pub StateOk : Task → Type 0
StateOk t = StateFits t.state t.num_predecessors t.dependents

-- Task `t`: its counter is the number of decrements to come, and its state fits.
abbrev Ok : (ℕ → Task) → ℕ → List (ℕ × Bool) → ℕ → Type 0
Ok f n ns t = ((f t).num_predecessors ≡ waits f n ns t) × StateOk (f t)

-- Every task is fine, and the counters of those that are not created yet are 0.
abbrev pub AllOk : (ℕ → Task) → ℕ → List (ℕ × Bool) → Type 0
AllOk f n ns = (t : ℕ) → Ok f n ns t × ((if leb n t then (f t).num_predecessors else 0) ≡ 0)

abbrev pub Inv : Runtime → Type 0
Inv r = AllOk r.tasks r.fresh r.notices

pub update-StateOk :
    (f : ℕ → Task) (v : ℕ) (x : Task) (t : ℕ) → StateOk x → StateOk (f t) → StateOk (update f v x t)
update-StateOk f v x t hx hf = elim (Bool-cases (t == v)) [ inl e ↦ rw e hx | inr e ↦ rw e hf ]

-- A change of one task's state.
update-AllOk :
    (f : ℕ → Task) (n : ℕ) (ns : List (ℕ × Bool)) (v : ℕ) (x : Task)
    → v < n
    → x.dependents ≡ (f v).dependents
    → x.num_predecessors ≡ (f v).num_predecessors
    → StateOk x
    → AllOk f n ns
    → AllOk (update f v x) n ns
unfolding waits
update-AllOk f n ns v x lt e k fits all t =
    let (ok, unborn) = all t in
    let same = listed-update_same f v x t n e in
    let (okv, _) = all v in ((ground arith, update-StateOk f v x t fits ok.1), ground arith)

-- A task that still takes dependents.
abbrev pub IsOpen : TaskState → Type 0
IsOpen s_complete = ⊥
IsOpen s_continued = ⊥
IsOpen _ = Unit {0}

pub IsOpen-StateFits :
    (s : TaskState) (n : ℕ) (l l' : List ℕ) → IsOpen s → StateFits s n l → StateFits s n l'
IsOpen-StateFits s_pending n l l' o h = h
IsOpen-StateFits s_complete n l l' o h = absurd o
IsOpen-StateFits s_continued n l l' o h = absurd o
IsOpen-StateFits _ n l l' o h = h

is_unqueued-StateFits :
    (s : TaskState) (n : ℕ) (l : List ℕ) → is_unqueued s ≡ true → StateFits s n l
is_unqueued-StateFits s_new n l h = tt
is_unqueued-StateFits s_remote_new n l h = tt
is_unqueued-StateFits _ n l h = absurd (false≢true h)

waits-register :
    (r : Runtime) (a b t : ℕ)
    → a ≢ b
    → a < r.fresh
    → b < r.fresh
    → waits (register r a b).tasks r.fresh r.notices t ≡ (
        if a == t
        then suc (waits r.tasks r.fresh r.notices t)
        else waits r.tasks r.fresh r.notices t)
unfolding waits
waits-register r a b t ne la lb =
    let tb : Task = r.tasks b in
    let xb : Task = record tb { dependents = tb.dependents ++ a ∷ [] } in
    let f₁ = update r.tasks b xb in
    let ta : Task = f₁ a in
    ground (
      arith,
      listed-update r.tasks b xb t r.fresh lb,
      listed-update f₁ a (record ta { num_predecessors = ta.num_predecessors + 1 }) t r.fresh la,
      occurrences-append t tb.dependents (a ∷ []),
    )

pub register-Inv :
    (r : Runtime) (a b : ℕ)
    → a ≢ b
    → a < r.fresh
    → b < r.fresh
    → is_unqueued (r.tasks a).state ≡ true
    → IsOpen (r.tasks b).state
    → Inv r
    → Inv (register r a b)
register-Inv r a b ne la lb new still all t =
    let (ok, unborn) = all t in
    let (okb, _) = all b in
    let tb : Task = r.tasks b in
    let xb : Task = record tb { dependents = tb.dependents ++ a ∷ [] } in
    let f₁ = update r.tasks b xb in
    let ta : Task = f₁ a in
    let same : f₁ a ≡ r.tasks a = ground arith in
    (
      (
        ground (arith, waits-register r a b t ne la lb),
        update-StateOk f₁ a (record ta { num_predecessors = ta.num_predecessors + 1 }) t
            (is_unqueued-StateFits (f₁ a).state _ _ (rw same new))
            (update-StateOk r.tasks b xb t
              (IsOpen-StateFits tb.state tb.num_predecessors tb.dependents xb.dependents still
                okb.1)
              ok.1),
      ),
      ground arith,
    )

-- `enqueue`
abbrev pub After : (Runtime → Type 0) → Option Runtime → Type 0
After P none = Unit {0}
After P (some r) = P r

enqueue_state-Inv :
    (r : Runtime) (a : ℕ) (s : TaskState) (idle : Bool)
    → a < r.fresh
    → ((r.tasks a).num_predecessors == 0) ≡ idle
    → Inv r
    → After Inv (enqueue_state r a (r.tasks a) s idle)
unfolding enqueue_state
enqueue_state-Inv r a s_new true la e all =
    update-AllOk r.tasks r.fresh r.notices a (record (r.tasks a) { state = s_ready }) la refl refl
      (ground arith) all
enqueue_state-Inv r a s_new false la e all =
    update-AllOk r.tasks r.fresh r.notices a (record (r.tasks a) { state = s_pending }) la refl refl
      (ground arith) all
enqueue_state-Inv r a s_remote_new true la e all =
    update-AllOk r.tasks r.fresh r.notices a (record (r.tasks a) { state = s_remote_ready }) la refl
      refl (ground arith) all
enqueue_state-Inv r a s_remote_new false la e all =
    update-AllOk r.tasks r.fresh r.notices a (record (r.tasks a) { state = s_remote_pending }) la
      refl refl (ground arith) all
enqueue_state-Inv r a _ idle la e all = tt

pub enqueue-Inv : (r : Runtime) (a : ℕ) → a < r.fresh → Inv r → After Inv (enqueue r a)
unfolding enqueue
enqueue-Inv r a la all = enqueue_state-Inv r a (r.tasks a).state _ la refl all
