-- ===== src/Worker.antt =====
-- runtime/workerthread.h: the tasks that one worker thread holds. WORKERTHREAD_ONDECK and
-- WORKERTHREAD_INJECT are defined, as config.h does by default. `none` is NULL.
pub mod Work
pub mod Random
mod Tests
use petabricks.Base.{ℕ, ◌+◌, Bool, true, false, Option, none, some, List, [], ◌∷◌, length}
use petabricks.Deque.{Deque, push_top, pop_top, pop_bottom, deque_size}
use petabricks.Deque.Locking.{push_front, pop_back, pop_front}

pub record Worker {ℓ} (A : Type ℓ) : Type ℓ where
  pub ondeck : Option A
  pub deque : Deque A
  pub injected : List A

module _ {ℓ} {A : Type ℓ} where
  -- The deque's turn in `steal`, if the inject queue gave nothing.
  steal_deque : Bool → Worker A → Option A × List A → Option A × Worker A
  steal_deque free w (some x, q) = (some x, record w { injected = q })
  steal_deque free w (none, q) =
      let (r, d) = pop_bottom free w.deque in (r, record w { deque = d; injected = q })

  -- `steal`. The first two arguments say whether `trylock` succeeds on the inject queue and on the
  -- deque.
  unfoldable pub steal : Bool → Bool → Worker A → Option A × Worker A
  unfolding steal_deque
  steal free_queue free_deque w = steal_deque free_deque w (pop_front free_queue w.injected)

  unfoldable pub inject : Worker A → A → Worker A
  inject w x = record w { injected = push_front w.injected x }

  -- The inject queue's turn in `popLocal`, if the deque gave nothing.
  pop_injected : Worker A → Option A × Deque A → Option A × Worker A
  pop_injected w (some x, d) = (some x, record w { deque = d })
  pop_injected w (none, d) =
      let (r, q) = pop_back w.injected in (r, record w { deque = d; injected = q })

  -- `popLocal`, by what is on deck.
  pop_ondeck : Worker A → Option A → Option A × Worker A
  unfolding pop_injected
  pop_ondeck w (some x) = (some x, record w { ondeck = none })
  pop_ondeck w none = pop_injected w (pop_top w.deque)

  unfoldable pub pop_local : Worker A → Option A × Worker A
  unfolding pop_ondeck
  pop_local w = pop_ondeck w w.ondeck

  push_ondeck : Worker A → A → Option A → Worker A
  push_ondeck w x none = record w { ondeck = some x }
  push_ondeck w x (some y) = record w { deque = push_top w.deque x }

  unfoldable pub push_local : Worker A → A → Worker A
  unfolding push_ondeck
  push_local w x = push_ondeck w x w.ondeck

  -- What is on deck does not count, since it cannot be stolen.
  unfoldable work_count : Worker A → ℕ
  work_count w = deque_size w.deque + length w.injected
