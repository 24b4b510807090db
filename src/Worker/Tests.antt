-- ===== src/Worker/Tests.antt =====
-- The theorems about a worker thread at concrete inputs.
use petabricks.Base.{◌<◌, ◌^◌, refl, ℕ, ◌≡◌, arith, true, ◌&&◌, some, [], ◌∷◌}
use petabricks.Deque.Interleaving.Alone.{IsValid}
use petabricks.Worker.{Worker, steal, pop_local}
use petabricks.Worker.Random.{
  IsAbsolute, Seed, shift_right, next_seed, raw_random, absolute, thread_rand_int,
  thread_rand_int-range,
}
use petabricks.Worker.Work.{work, stealable, Taken, Stolen, pop_local-Taken, steal-Stolen}

abbrev numbered : ℕ → ℕ
numbered i = i

-- Task 9 on deck, tasks 2 to 4 in the deque, and task 7 injected.
abbrev busy : Worker ℕ
busy = record {
  ondeck = some 9;
  deque = record { size = 10; array = numbered; h = 2; t = 5 };
  injected = 7 ∷ [];
}

busy-IsValid : IsValid busy.deque
busy-IsValid = record { ordered = omega arith; room = omega arith }

pop_local-Taken_example :
    Taken (pop_local busy).0 (work busy) (work (pop_local busy).1)
    × IsValid (pop_local busy).1.deque
pop_local-Taken_example = pop_local-Taken busy busy-IsValid

steal-Stolen_example :
    Stolen
      (true && true)
      (steal true true busy).0
      (stealable busy)
      (stealable (steal true true busy).1)
    × ((steal true true busy).1.ondeck ≡ busy.ondeck)
    × IsValid (steal true true busy).1.deque
steal-Stolen_example = steal-Stolen true true busy busy-IsValid

abbrev first_seed : Seed
first_seed = record { z = 2; w = 2 }

thread_rand_int-range_example :
    let (r, s) = thread_rand_int first_seed in
    IsAbsolute r (raw_random s) × (s.z < 2 ^ 32) × (s.w < 2 ^ 32)
thread_rand_int-range_example = thread_rand_int-range first_seed

-- This seed gives the least `int`.
least_int : (thread_rand_int (record { z = 2 ^ 31; w = 0 })).0 ≡ 2 ^ 31
unfolding thread_rand_int next_seed raw_random absolute shift_right
least_int = refl
