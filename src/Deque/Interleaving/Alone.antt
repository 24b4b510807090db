-- ===== src/Deque/Interleaving/Alone.antt =====
-- The operations of THEDeque when nobody interferes: their effect on the list of tasks that the
-- deque holds, oldest first, and their agreement with the interleaved model.
use petabricks.Base.{
  ◌+◌, ◌-◌, ◌≤◌, ◌<◌, ◌≡◌, Bool, true, false, Option, none, some, List, [], ◌∷◌, ◌++◌, arith,
}
use petabricks.Deque.{Deque, write, push_top, pop_top, pop_bottom}
use petabricks.Deque.Interleaving.{Move, call_push, call_pop, owner_goes, run, step}
use petabricks.Deque.Interleaving.Owner.{idle}
use petabricks.Deque.Interleaving.Thief.{absent}
use petabricks.Deque.Interleaving.Invariant.{at}
use petabricks.Deque.Interleaving.Conservation.{takes}
use petabricks.Deque.Interleaving.Window.{slice, slice-nil, slice-snoc, slice-cons, slice-write}

module _ {A : Type 0} where
  abbrev pub items : Deque A → List A
  items d = slice d.array d.h d.t

  pub record IsValid (d : Deque A) : Type 0 where
    pub ordered : d.h ≤ d.t
    pub room : d.t + 1 < d.size

  -- `push_top` on a valid deque adds the task at the end, and keeps the deque valid: there is room
  -- for one more task after it.
  pub push_top-items :
      (d : Deque A) (x : A)
      → IsValid d
      → (items (push_top d x) ≡ items d ++ x ∷ []) × IsValid (push_top d x)
  unfolding push_top
  push_top-items d x v = ground (
    arith,
    slice-nil d.array d.h d.t,
    slice-nil d.array 0 0,
    slice-snoc (write d.array d.t x) d.h d.t,
    slice-snoc (write d.array 0 x) 0 0,
    slice-write d.array d.t x d.h d.t,
    slice-write d.array 0 x 0 0,
  )

  -- NULL only from an empty deque; otherwise the newest task.
  abbrev pub Newest : Option A → List A → List A → Type 0
  Newest none before after = (before ≡ []) × (after ≡ [])
  Newest (some x) before after = before ≡ after ++ x ∷ []

  -- `pop_top` takes the newest task of a valid deque, returns NULL only if there is none, and keeps
  -- the deque valid.
  pub pop_top-items :
      (d : Deque A)
      → IsValid d
      → Newest (pop_top d).0 (items d) (items (pop_top d).1) × IsValid (pop_top d).1
  unfolding pop_top
  pop_top-items d v =
      let e : d.h < d.t → d.t - 1 + 1 ≡ d.t = λ p. omega arith in
      ground (arith, e, slice-nil d.array d.h d.t, slice-snoc d.array d.h (d.t - 1))

  -- Where the lock is taken nothing happens; otherwise NULL only from an empty deque, or the
  -- oldest task.
  abbrev pub Oldest : Bool → Option A → List A → List A → Type 0
  Oldest true none before after = (before ≡ []) × (after ≡ [])
  Oldest false none before after = before ≡ after
  Oldest true (some x) before after = before ≡ x ∷ after
  Oldest false (some x) before after = ⊥

  -- `pop_bottom` takes the oldest task of a valid deque, returns NULL only if there is none or if
  -- `trylock` fails, in which case it changes nothing, and keeps the deque valid.
  pub pop_bottom-items :
      (free : Bool) (d : Deque A)
      → IsValid d
      → Oldest free (pop_bottom free d).0 (items d) (items (pop_bottom free d).1)
        × IsValid (pop_bottom free d).1
  unfolding pop_bottom
  pop_bottom-items true d v = ground (arith, slice-nil d.array d.h d.t, slice-cons d.array d.h d.t)
  pop_bottom-items false d v = ground (arith, slice-nil d.array d.h d.t, slice-cons d.array d.h d.t)

  abbrev pub to_list : Option A → List A
  to_list none = []
  to_list (some x) = x ∷ []

  abbrev pop_moves : List (Move A)
  pop_moves = call_pop ∷ owner_goes ∷ owner_goes ∷ owner_goes ∷ owner_goes ∷ []

  -- The moves of an owner that is alone come to `pop_top`, at any indices.
  run-pop_top :
      (d : Deque A)
      → let (s, es) = run (at d idle absent) pop_moves in
        (s ≡ at (pop_top d).1 idle absent) × (takes es ≡ to_list (pop_top d).0)
  unfolding pop_top run step
  run-pop_top d = ground arith

  -- The moves of an owner that is alone come to `push_top`.
  run-push_top :
      (d : Deque A) (x : A)
      → (run
          (at d idle absent)
          (call_push x ∷ owner_goes ∷ owner_goes ∷ owner_goes ∷ owner_goes ∷ owner_goes ∷ [])).0
        ≡ at (push_top d x) idle absent
  unfolding push_top run step
  run-push_top d x = ground arith
