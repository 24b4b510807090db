-- ===== src/Pool.antt =====
-- `WorkerThreadPool` of runtime/workerthread.cpp: the worker threads by their numbers. Each
-- operation is taken as one step.
pub mod Members
mod Tests
use petabricks.Base.{
  ℕ, zero, suc, ◌+◌, ◌-◌, ◌%◌, ◌^◌, Bool, true, false, ◌&&◌, ◌||◌, Option, none, some, List, [],
  ◌∷◌, ltb, ◌==◌, if◌then◌else◌,
}

abbrev pub max_num_workers : ℕ
max_num_workers = 512

-- `_pool` and `_count`.
pub record Pool : Type 0 where
  pub slots : ℕ → Option ℕ
  pub count : ℕ

unfoldable empty_pool : Pool
empty_pool = record { slots = λ i. none; count = 0 }

abbrev pub is_null : Option ℕ → Bool
is_null none = true
is_null (some u) = false

abbrev holds : Option ℕ → ℕ → Bool
holds none a = false
holds (some u) a = u == a

abbrev pub set_slot : (ℕ → Option ℕ) → ℕ → ℕ → ℕ → Option ℕ
set_slot f i a j = if j == i then some a else f j

-- The loop of `insert` from slot `i`, of which `n` are left; `none` is the failed JASSERT.
unfoldable pub insert_from : ℕ → ℕ → Pool → ℕ → Option Pool
insert_from zero i p a = none
insert_from (suc n) i p a =
    let rest = insert_from n (i + 1) p a in
    if is_null (p.slots i)
    then some (record {
      slots = set_slot p.slots i a;
      count = (if ltb p.count (i + 1) then i + 1 else p.count);
    })
    else rest

unfoldable pub insert : Pool → ℕ → Option Pool
insert p a = insert_from (max_num_workers - p.count) p.count p a

abbrev pub clear : Pool → ℕ → ℕ → Option ℕ
clear p a i = if ltb i p.count && holds (p.slots i) a then none else p.slots i

-- The second loop of `remove`; `none` is the read of `_pool[-1]`.
unfoldable pub shrink : (ℕ → Option ℕ) → ℕ → Option ℕ
shrink f zero = none
shrink f (suc i) = let rest = shrink f i in if is_null (f i) then rest else some (suc i)

removed : Pool → ℕ → Option ℕ → Option Pool
removed p a none = none
removed p a (some n) = some (record { slots = clear p a; count = n })

unfoldable pub remove : Pool → ℕ → Option Pool
unfolding removed
remove p a = removed p a (shrink (clear p a) p.count)

-- What `getRandom` comes to: NULL, a thread, a read before the first slot, or a loop that goes on past
-- the given random numbers.
pub data Found : Type 0 where
  null before_pool looking : Found
  thread : ℕ → Found

-- `n % _count` for an `int` of 32 bits, which is negative from 2 ^ 31 on; `none` is a negative index.
unfoldable pub slot_index : ℕ → ℕ → Option ℕ
slot_index n count =
    if ltb n (2 ^ 31)
    then some (n % count)
    else (if (2 ^ 32 - n) % count == 0 then some 0 else none)

pick_slot : Bool → Option ℕ → ℕ → Found → Found
pick_slot true found caller rest = null
pick_slot false none caller rest = rest
pick_slot false (some a) caller rest = if a == caller then rest else thread a

pick : Pool → Option ℕ → ℕ → Found → Found
unfolding pick_slot
pick p none caller rest = before_pool
pick p (some i) caller rest = pick_slot (p.count == 1) (p.slots i) caller rest

-- The loop of `getRandom`, on the numbers that `threadRandInt` returns.
unfoldable pub get_random : Pool → ℕ → List ℕ → Found
unfolding pick slot_index
get_random p caller [] = looking
get_random p caller (n ∷ ns) = pick p (slot_index n p.count) caller (get_random p caller ns)
