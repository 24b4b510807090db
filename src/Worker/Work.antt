-- ===== src/Worker/Work.antt =====
-- No operation of a worker loses or doubles a task.
use mathlib.Core.List.{Perm, perm_middle, perm_append_singleton}
use mathlib.Core.List.Perm
use petabricks.Base.{
  ◌≡◌, refl, Bool, true, false, ◌&&◌, false≢true, Option, none, some, List, [], ◌∷◌, ◌++◌,
  append_assoc,
}
use petabricks.Deque.{Deque, push_top, pop_top, pop_bottom}
use petabricks.Deque.Interleaving.Alone.{
  items, IsValid, Newest, Oldest, to_list, push_top-items, pop_top-items, pop_bottom-items,
}
use petabricks.Deque.Locking.{push_front, pop_back, pop_front, Last, pop_back-Last}
use petabricks.Worker.{
  Worker, steal, steal_deque, inject, pop_injected, pop_ondeck, pop_local, push_ondeck, push_local,
}

module _ {A : Type 0} where
  -- The tasks that a worker holds.
  abbrev pub work : Worker A → List A
  work w = to_list w.ondeck ++ (items w.deque ++ w.injected)

  -- What a worker can give to thieves.
  abbrev pub stealable : Worker A → List A
  stealable w = items w.deque ++ w.injected

  -- A task that was taken out; or NULL, and there was none to take.
  abbrev pub Taken : Option A → List A → List A → Type 0
  Taken none before after = (before ≡ []) × (after ≡ [])
  Taken (some x) before after = Perm before (x ∷ after)

  end_of_middle :
      (o b b' q : List A) (x : A) → b ≡ b' ++ x ∷ [] → Perm (o ++ (b ++ q)) (x ∷ (o ++ (b' ++ q)))
  end_of_middle o b b' q x h =
      rw (h, append_assoc)
        (Perm.trans (Perm.append_left o (perm_middle b' q)) (perm_middle o (b' ++ q)))

  start_of_middle :
      (o b b' q : List A) (x : A) → b ≡ x ∷ b' → Perm (o ++ (b ++ q)) (x ∷ (o ++ (b' ++ q)))
  start_of_middle o b b' q x h = rw h (perm_middle o (b' ++ q))

  end_of_queue : (b q q' : List A) (x : A) → q ≡ q' ++ x ∷ [] → Perm (b ++ q) (x ∷ (b ++ q'))
  end_of_queue b q q' x h =
      rw h (Perm.trans (Perm.append_left b (perm_append_singleton x q')) (perm_middle b q'))

  queue_turn :
      (w : Worker A) (d : Deque A) (r : Option A × List A)
      → items w.deque ≡ []
      → items d ≡ []
      → w.ondeck ≡ none
      → Last r.0 w.injected r.1
      → Taken r.0 (work w) (work (record w { deque = d; injected = r.1 }))
  queue_turn w d (none, q) e e' k (h, h') = (rw (e, k, h) refl, rw (e', k, h') refl)
  queue_turn w d (some x, q) e e' k h = rw (e, e', k) (end_of_queue [] w.injected q x h)

  pop_injected-Taken :
      (w : Worker A) (r : Option A × Deque A)
      → Newest r.0 (items w.deque) (items r.1)
      → w.ondeck ≡ none
      → Taken (pop_injected w r).0 (work w) (work (pop_injected w r).1)
  unfolding pop_injected
  pop_injected-Taken w (some x, d) h e =
      end_of_middle (to_list w.ondeck) (items w.deque) (items d) w.injected x h
  pop_injected-Taken w (none, d) h e =
      queue_turn w d (pop_back w.injected) h.0 h.1 e (pop_back-Last w.injected)

  pop_injected-deque : (w : Worker A) (r : Option A × Deque A) → (pop_injected w r).1.deque ≡ r.1
  unfolding pop_injected
  pop_injected-deque w (some x, d) = refl
  pop_injected-deque w (none, d) = refl

  pop_ondeck-Taken :
      (w : Worker A) (o : Option A)
      → w.ondeck ≡ o
      → IsValid w.deque
      → Taken (pop_ondeck w o).0 (work w) (work (pop_ondeck w o).1)
        × IsValid (pop_ondeck w o).1.deque
  unfolding pop_ondeck
  pop_ondeck-Taken w (some x) e v = (rw e (Perm.refl _), v)
  pop_ondeck-Taken w none e v =
      let (newest, valid) = pop_top-items w.deque v in
      (
        pop_injected-Taken w (pop_top w.deque) newest e,
        rw (pop_injected-deque w (pop_top w.deque)) valid,
      )

  -- `popLocal` takes out one of the tasks that the thread holds, or returns NULL, and then the
  -- thread holds none; and the thread's deque stays valid.
  pub pop_local-Taken :
      (w : Worker A)
      → IsValid w.deque
      → Taken (pop_local w).0 (work w) (work (pop_local w).1) × IsValid (pop_local w).1.deque
  unfolding pop_local
  pop_local-Taken w v = pop_ondeck-Taken w w.ondeck refl v

  push_ondeck-Perm :
      (w : Worker A) (x : A) (o : Option A)
      → w.ondeck ≡ o
      → IsValid w.deque
      → Perm (work (push_ondeck w x o)) (x ∷ work w) × IsValid (push_ondeck w x o).deque
  unfolding push_ondeck
  push_ondeck-Perm w x none e v = (rw e (Perm.refl _), v)
  push_ondeck-Perm w x (some y) e v =
      let (added, valid) = push_top-items w.deque x v in
      (
        end_of_middle (to_list w.ondeck) (items (push_top w.deque x)) (items w.deque) w.injected x
            added,
        valid,
      )

  -- `pushLocal` adds the task to those that the thread holds, and the thread's deque stays valid.
  push_local-Perm :
      (w : Worker A) (x : A)
      → IsValid w.deque
      → Perm (work (push_local w x)) (x ∷ work w) × IsValid (push_local w x).deque
  unfolding push_local
  push_local-Perm w x v = push_ondeck-Perm w x w.ondeck refl v

  -- `inject` adds the task to those that the thread holds, and a thief that gets the lock of the
  -- inject queue steals that task next.
  inject-steal :
      (w : Worker A) (x : A) (free : Bool)
      → Perm (work (inject w x)) (x ∷ work w) × (steal true free (inject w x) ≡ (some x, w))
  unfolding inject steal steal_deque push_front pop_front
  inject-steal w x free = (
    Perm.trans (Perm.append_left (to_list w.ondeck) (perm_middle (items w.deque) w.injected))
        (perm_middle (to_list w.ondeck) (items w.deque ++ w.injected)),
    refl,
  )

  -- What a thief gets: a task out of those that can be stolen, or NULL. Then either a lock was not
  -- free, or nothing can be stolen.
  abbrev pub Stolen : Bool → Option A → List A → List A → Type 0
  Stolen true none before after = (before ≡ []) × (after ≡ [])
  Stolen false none before after = before ≡ after
  Stolen free (some x) before after = Perm before (x ∷ after)

  deque_turn :
      (fq fd : Bool) (w : Worker A) (r : Option A × Deque A)
      → Oldest fd r.0 (items w.deque) (items r.1)
      → (fq ≡ true → w.injected ≡ [])
      → Stolen (fq && fd) r.0 (stealable w) (stealable (record w { deque = r.1 }))
  deque_turn true true w (none, d) h e = (rw (h.0, e refl) refl, rw (h.1, e refl) refl)
  deque_turn true true w (some x, d) h e = rw h (Perm.refl _)
  deque_turn true false w (none, d) h e = rw h refl
  deque_turn true false w (some x, d) h e = absurd h
  deque_turn false true w (none, d) h e = rw (h.0, h.1) refl
  deque_turn false true w (some x, d) h e = rw h (Perm.refl _)
  deque_turn false false w (none, d) h e = rw h refl
  deque_turn false false w (some x, d) h e = absurd h

  steal_turn :
      (fq fd : Bool) (w : Worker A) (q : List A)
      → w.injected ≡ q
      → IsValid w.deque
      → let r = steal_deque fd w (pop_front fq q) in
        Stolen (fq && fd) r.0 (stealable w) (stealable r.1)
        × (r.1.ondeck ≡ w.ondeck)
        × IsValid r.1.deque
  unfolding steal_deque pop_front
  steal_turn true true w (x ∷ q) e v = (rw e (perm_middle (items w.deque) q), refl, v)
  steal_turn true false w (x ∷ q) e v = (rw e (perm_middle (items w.deque) q), refl, v)
  steal_turn true fd w [] e v =
      let (oldest, valid) = pop_bottom-items fd w.deque v in
      (rw (← e) (deque_turn true fd w (pop_bottom fd w.deque) oldest (λ k. e)), refl, valid)
  steal_turn false fd w q e v =
      let (oldest, valid) = pop_bottom-items fd w.deque v in
      (
        rw (← e)
            (deque_turn false fd w (pop_bottom fd w.deque) oldest (λ k. absurd (false≢true k))),
        refl,
        valid,
      )

  -- `steal` takes out one of the tasks that can be stolen; or returns NULL, and then, if both locks
  -- were free, there is none. It leaves alone what is on deck, and the thread's deque stays valid.
  pub steal-Stolen :
      (fq fd : Bool) (w : Worker A)
      → IsValid w.deque
      → Stolen (fq && fd) (steal fq fd w).0 (stealable w) (stealable (steal fq fd w).1)
        × ((steal fq fd w).1.ondeck ≡ w.ondeck)
        × IsValid (steal fq fd w).1.deque
  unfolding steal
  steal-Stolen fq fd w v = steal_turn fq fd w w.injected refl v
