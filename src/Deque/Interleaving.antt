-- ===== src/Deque/Interleaving.antt =====
-- THEDeque under interleaving: its owner and the thief that holds `_lock` move one memory access at
-- a time (sequential consistency, which the fences of common/thedeque.h ask for). A thief that has
-- not yet got the lock has changed nothing, so one thief is enough; that it may take the lock
-- whatever its earlier look at `empty()` said allows for any change since that look.
pub mod Window
pub mod Invariant
pub mod Conservation
pub mod Alone
mod Tests
use petabricks.Base.{
  ℕ, ◌+◌, ◌-◌, Bool, true, false, Option, none, some, List, [], ◌∷◌, ◌++◌, ltb, leb, if◌then◌else◌,
}
use petabricks.Deque.{Deque, empty, reset, store, grow}

-- Where the owner stands in `push_top` or `pop_top`.
pub data Owner {ℓ} (A : Type ℓ) : Type ℓ where
  -- outside of both
  idle : Owner A
  -- `empty()` was true, `_h>0` is next
  push_test : A → Owner A
  -- waits for the lock to reset the indices
  push_reset : A → Owner A
  -- before `_array[_t] = task;`
  push_store : A → Owner A
  -- before `_t++;`
  push_bump : A → Owner A
  -- before `if (_t >= _size - 1)`
  push_grow : Owner A
  -- before `_t--;`
  pop_dec : Owner A
  -- before `if (_h > _t)`
  pop_check : Owner A
  -- before `_t++;`
  pop_undo : Owner A
  -- waits for the lock
  pop_wait : Owner A

-- Where the thief that holds the lock stands in `pop_bottom`.
pub data Thief : Type 0 where
  -- the lock is free
  absent : Thief
  -- before `_h++;`
  locked : Thief
  -- before `if (_h > _t)`
  raised : Thief
  -- before `_h--; _lock.unlock();`
  lower : Thief
  -- before the read of `_array[_h - 1]` and the unlock
  take : Thief

pub record State {ℓ} (A : Type ℓ) : Type ℓ where
  pub deque : Deque A
  pub owner : Owner A
  pub thief : Thief

-- What a move completes.
pub data Event {ℓ} (A : Type ℓ) : Type ℓ where
  silent : Event A
  pushed : A → Event A
  popped : A → Event A
  stolen : A → Event A
  -- `pop_top` returned NULL from its first test, or with the lock held
  found_empty : Event A
  found_empty_locked : Event A
  -- `pop_bottom` returned NULL
  steal_failed : Event A

-- The owner calls `push_top` or `pop_top` (which it does only when it is idle), or goes on;
-- or the thief goes on.
pub data Move {ℓ} (A : Type ℓ) : Type ℓ where
  call_push : A → Move A
  call_pop : Move A
  owner_goes : Move A
  thief_goes : Move A

is_free : Thief → Bool
is_free absent = true
is_free _ = false

module _ {ℓ} {A : Type ℓ} where
  abbrev owned : State A → Deque A → Owner A → State A
  owned s d o = record s { deque = d; owner = o }

  -- The next access of the owner inside a call. Where it waits for the lock it makes none.
  pub owner_step : State A → Owner A → State A × Event A
  unfolding is_free reset store grow
  owner_step s idle = (s, silent)
  owner_step s (push_test x) =
      (owned s s.deque (if ltb 0 s.deque.h then push_reset x else push_store x), silent)
  owner_step s (push_reset x) =
      (if is_free s.thief then owned s (reset s.deque) (push_store x) else s, silent)
  owner_step s (push_store x) = (owned s (store s.deque x) (push_bump x), silent)
  owner_step s (push_bump x) = (owned s (record s.deque { t = s.deque.t + 1 }) push_grow, pushed x)
  owner_step s push_grow = (
    if leb (s.deque.size - 1) s.deque.t
        then (if is_free s.thief then owned s (grow s.deque) idle else s)
        else owned s s.deque idle,
    silent,
  )
  owner_step s pop_dec = (owned s (record s.deque { t = s.deque.t - 1 }) pop_check, silent)
  owner_step s pop_check =
      if ltb s.deque.t s.deque.h
      then (owned s s.deque pop_undo, silent)
      else (owned s s.deque idle, popped (s.deque.array s.deque.t))
  owner_step s pop_undo = (owned s (record s.deque { t = s.deque.t + 1 }) pop_wait, silent)
  owner_step s pop_wait =
      if is_free s.thief
      then (if empty s.deque then (owned s s.deque idle, found_empty_locked) else (
        owned s (record s.deque { t = s.deque.t - 1 }) idle,
        popped (s.deque.array (s.deque.t - 1)),
      ))
      else (s, silent)

  abbrev robbed : State A → ℕ → Thief → State A
  robbed s h' th = record s { deque = record s.deque { h = h' }; thief = th }

  -- The next access of the thief.
  pub thief_step : State A → Thief → State A × Event A
  thief_step s absent = (robbed s s.deque.h locked, silent)
  thief_step s locked = (robbed s (s.deque.h + 1) raised, silent)
  thief_step s raised =
      (robbed s s.deque.h (if ltb s.deque.t s.deque.h then lower else take), silent)
  thief_step s lower = (robbed s (s.deque.h - 1) absent, steal_failed)
  thief_step s take = (robbed s s.deque.h absent, stolen (s.deque.array (s.deque.h - 1)))

  start_push : State A → A → Owner A → State A
  start_push s x idle = owned s s.deque (if empty s.deque then push_test x else push_store x)
  start_push s x _ = s

  start_pop : State A → Owner A → State A × Event A
  start_pop s idle = if empty s.deque then (s, found_empty) else (owned s s.deque pop_dec, silent)
  start_pop s _ = (s, silent)

  pub step : State A → Move A → State A × Event A
  unfolding start_push start_pop owner_step thief_step
  step s (call_push x) = (start_push s x s.owner, silent)
  step s call_pop = start_pop s s.owner
  step s owner_goes = owner_step s s.owner
  step s thief_goes = thief_step s s.thief

  -- A schedule, and what it completes.
  pub run : State A → List (Move A) → State A × List (Event A)
  run s [] = (s, [])
  run s (m ∷ ms) = let (s₁, e) = step s m in let (s₂, es) = run s₁ ms in (s₂, e ∷ es)
