-- ===== src/Deque/Interleaving/Invariant.antt =====
-- What holds of the deque between any two memory accesses.
use petabricks.Base.{ℕ, ◌+◌, ◌-◌, ◌≤◌, ◌<◌, ◌≡◌, List, [], ◌∷◌, arith, All}
use petabricks.Deque.{Deque, init}
use petabricks.Deque.Interleaving.{
  Owner, State, Thief, Move, call_push, call_pop, owner_goes, thief_goes, owner_step, thief_step,
  start_push, start_pop, step, run,
}
use petabricks.Deque.Interleaving.Owner.{
  idle, push_store, push_bump, push_grow, pop_dec, pop_check, pop_undo, pop_wait,
}
use petabricks.Deque.Interleaving.Thief.{absent, locked, take}

-- The head, without an increment whose task is not handed out yet.
abbrev pub settled_head : Thief → ℕ → ℕ
settled_head absent h = h
settled_head locked h = h
settled_head _ h = h - 1

-- What the thief relies on, `hi` being the settled tail.
abbrev pub ThiefOk : Thief → ℕ → ℕ → Type 0
ThiefOk absent h hi = h ≤ hi
ThiefOk locked h hi = h ≤ hi
ThiefOk take h hi = (0 < h) × (h ≤ hi)
ThiefOk _ h hi = (0 < h) × (h ≤ hi + 1)

module _ {A : Type 0} where
  -- The tail, without a decrement that is not decided yet.
  abbrev pub settled_tail : Owner A → ℕ → ℕ
  settled_tail pop_check t = t + 1
  settled_tail pop_undo t = t + 1
  settled_tail _ t = t

  -- What the owner relies on: the cell that it filled, and a tail that it can decrement.
  abbrev OwnerOk : Owner A → Deque A → Type 0
  OwnerOk (push_bump x) d = d.array d.t ≡ x
  OwnerOk pop_dec d = 0 < d.t
  OwnerOk _ d = Unit {0}

  -- Every settled index, and the next one but after a push, is inside the allocated array.
  abbrev HasRoom : Owner A → Deque A → Type 0
  HasRoom push_grow d = d.t < d.size
  HasRoom o d = settled_tail o d.t + 1 < d.size

  pub record IsSound (s : State A) : Type 0 where
    pub thief_ok : ThiefOk s.thief s.deque.h (settled_tail s.owner s.deque.t)
    pub owner_ok : OwnerOk s.owner s.deque
    pub room : HasRoom s.owner s.deque

  abbrev pub at : Deque A → Owner A → Thief → State A
  at d o th = record { deque = d; owner = o; thief = th }

  thief_step-IsSound :
      (d : Deque A) (o : Owner A) (th : Thief)
      → IsSound (at d o th)
      → IsSound (thief_step (at d o th) th).0
  unfolding thief_step
  thief_step-IsSound d idle absent v = ground arith
  thief_step-IsSound d _ _ v = ground arith

  owner_step-IsSound :
      (d : Deque A) (o : Owner A) (th : Thief)
      → IsSound (at d o th)
      → IsSound (owner_step (at d o th) o).0
  unfolding owner_step
  owner_step-IsSound d idle absent v = ground arith
  owner_step-IsSound d _ _ v = ground arith

  start_push-IsSound :
      (d : Deque A) (o : Owner A) (th : Thief) (x : A)
      → IsSound (at d o th)
      → IsSound (start_push (at d o th) x o)
  unfolding start_push
  start_push-IsSound d idle th x v = ground arith
  start_push-IsSound d _ th x v = ground arith

  start_pop-IsSound :
      (d : Deque A) (o : Owner A) (th : Thief)
      → IsSound (at d o th)
      → IsSound (start_pop (at d o th) o).0
  unfolding start_pop
  start_pop-IsSound d idle absent v = ground arith
  start_pop-IsSound d _ _ v = ground arith

  pub step-IsSound : (s : State A) (m : Move A) → IsSound s → IsSound (step s m).0
  unfolding step
  step-IsSound s (call_push x) v = start_push-IsSound s.deque s.owner s.thief x v
  step-IsSound s call_pop v = start_pop-IsSound s.deque s.owner s.thief v
  step-IsSound s owner_goes v = owner_step-IsSound s.deque s.owner s.thief v
  step-IsSound s thief_goes v = thief_step-IsSound s.deque s.owner s.thief v

  -- A new deque is sound.
  pub init-IsSound : (cells : ℕ → A) → IsSound (at (init cells) idle absent)
  unfolding init
  init-IsSound cells = record { thief_ok = omega arith; owner_ok = tt; room = omega arith }

  -- The cells of the array that the next access of the owner may read or write.
  abbrev pub owner_cells : Owner A → Deque A → List ℕ
  owner_cells (push_store x) d = d.t ∷ []
  owner_cells pop_check d = d.t ∷ []
  owner_cells pop_wait d = (d.t - 1) ∷ []
  owner_cells _ d = []

  -- The cell that the next access of the thief reads.
  abbrev pub thief_cells : Thief → Deque A → List ℕ
  thief_cells take d = (d.h - 1) ∷ []
  thief_cells _ d = []

  owner_cells_in_bounds :
      (d : Deque A) (o : Owner A) (th : Thief)
      → IsSound (at d o th)
      → All (λ i. i < d.size) (owner_cells o d)
  owner_cells_in_bounds d idle th v = tt
  owner_cells_in_bounds d _ th v = omega arith

  thief_cells_in_bounds :
      (d : Deque A) (o : Owner A) (th : Thief)
      → IsSound (at d o th)
      → All (λ i. i < d.size) (thief_cells th d)
  thief_cells_in_bounds d o absent v = tt
  thief_cells_in_bounds d idle take v = omega arith
  thief_cells_in_bounds d _ take v = omega arith
  thief_cells_in_bounds d o _ v = tt

  run-IsSound : (s : State A) (ms : List (Move A)) → IsSound s → IsSound (run s ms).0
  unfolding run
  run-IsSound s [] v = v
  run-IsSound s (m ∷ ms) v = run-IsSound (step s m).0 ms (step-IsSound s m v)

  -- Whatever the schedule has been, the next accesses of the owner and of the thief stay inside
  -- the allocated array.
  pub run-accesses_in_bounds :
      (cells : ℕ → A) (ms : List (Move A))
      → let s = (run (at (init cells) idle absent) ms).0 in
        All (λ i. i < s.deque.size) (owner_cells s.owner s.deque)
        × All (λ i. i < s.deque.size) (thief_cells s.thief s.deque)
  run-accesses_in_bounds cells ms =
      let s = (run (at (init cells) idle absent) ms).0 in
      let v = run-IsSound (at (init cells) idle absent) ms (init-IsSound cells) in
      (
        owner_cells_in_bounds s.deque s.owner s.thief v,
        thief_cells_in_bounds s.deque s.owner s.thief v,
      )
