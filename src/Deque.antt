-- ===== src/Deque.antt =====
-- common/thedeque.h: the work stealing deque of a worker thread. `THEDeque` is one array with a
-- head `h` that thieves raise and a tail `t` that the owner moves. `long` indices do not wrap.
pub mod Interleaving
pub mod Locking
use petabricks.Base.{
  ℕ, ◌+◌, ◌-◌, ◌*◌, Bool, ◌&&◌, Option, none, some, ltb, leb, ◌==◌, if◌then◌else◌,
}

pub record Deque {ℓ} (A : Type ℓ) : Type ℓ where
  pub size : ℕ
  pub array : ℕ → A
  pub h : ℕ
  pub t : ℕ

module _ {ℓ} {A : Type ℓ} where
  -- `array` is what `malloc` returned: any cells.
  unfoldable pub init : (ℕ → A) → Deque A
  init cells = record { size = 1000; array = cells; h = 0; t = 0 }

  abbrev pub empty : Deque A → Bool
  empty d = leb d.t d.h

  abbrev pub write : (ℕ → A) → ℕ → A → ℕ → A
  write f i x j = if j == i then x else f j

  abbrev pub deque_size : Deque A → ℕ
  deque_size d = d.t - d.h

  -- The reset of the indices, inside the lock.
  unfoldable pub reset : Deque A → Deque A
  reset d = if empty d then record d { h = 0; t = 0 } else d

  -- `_array[_t] = task;`
  unfoldable pub store : Deque A → A → Deque A
  store d x = record d { array = write d.array d.t x }

  -- `realloc` keeps the cells.
  unfoldable pub grow : Deque A → Deque A
  grow d = if leb (d.size - 1) d.t then record d { size = d.size * 3 } else d

  unfoldable pub push_top : Deque A → A → Deque A
  unfolding reset store grow
  push_top d x =
      let d₁ = if empty d && ltb 0 d.h then reset d else d in
      let d₂ = store d₁ x in grow (record d₂ { t = d₂.t + 1 })

  -- The part of `pop_top` that runs with the lock held.
  unfoldable pop_locked : Deque A → Option A × Deque A
  pop_locked d = if empty d then (none, d) else (some (d.array (d.t - 1)), record d { t = d.t - 1 })

  unfoldable pub pop_top : Deque A → Option A × Deque A
  unfolding pop_locked
  pop_top d =
      if empty d
      then (none, d)
      else let d₁ : Deque A = record d { t = d.t - 1 } in
        if ltb d₁.t d₁.h
        then pop_locked (record d₁ { t = d₁.t + 1 })
        else (some (d₁.array d₁.t), d₁)

  -- `free` says whether `trylock` succeeds.
  unfoldable pub pop_bottom : Bool → Deque A → Option A × Deque A
  pop_bottom free d =
      if empty d
      then (none, d)
      else if free
      then (let d₁ : Deque A = record d { h = d.h + 1 } in
          if ltb d₁.t d₁.h
          then (none, record d₁ { h = d₁.h - 1 })
          else (some (d₁.array (d₁.h - 1)), d₁))
      else (none, d)
