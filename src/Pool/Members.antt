-- ===== src/Pool/Members.antt =====
-- Who is in the pool.
use petabricks.Base.{
  ℕ, zero, suc, ◌+◌, ◌-◌, ◌≤◌, ◌<◌, ◌≡◌, ◌≢◌, refl, ap, ◌∙◌, false≢true, ◌%◌, Bool, true, false,
  ◌&&◌, Option, none, some, List, [], ◌∷◌, arith, ltb, leb, ◌==◌, if◌then◌else◌, Bool-cases, ◌⊎◌,
  inl, inr, ◌^◌, All, get_elem?,
}
use petabricks.Pool.{
  Pool, max_num_workers, is_null, set_slot, insert_from, insert, clear, shrink, removed, remove,
  Found, null, before_pool, looking, thread, slot_index, pick_slot, pick, get_random,
}

-- No thread at or above the count.
abbrev pub IsPacked : Pool → Type 0
IsPacked p = (i : ℕ) → (if leb p.count i then p.slots i else none) ≡ none

insert_from-null :
    (n i : ℕ) (p : Pool) (a : ℕ)
    → 0 < n
    → p.slots i ≡ none
    → insert_from n i p a
      ≡ some (record {
        slots = set_slot p.slots i a;
        count = (if ltb p.count (i + 1) then i + 1 else p.count);
      })
unfolding insert_from
insert_from-null zero i p a h e = absurd (omega arith)
insert_from-null (suc n) i p a h e = rw e refl

set_slot-IsPacked :
    (p : Pool) (a : ℕ)
    → IsPacked p
    → IsPacked (record {
      slots = set_slot p.slots p.count a;
      count = (if ltb p.count (p.count + 1) then p.count + 1 else p.count);
    })
set_slot-IsPacked p a packed i = ground (arith, packed i)

-- With room left, `insert` puts the thread in the first slot above the count, counts it, and leaves
-- the other slots alone; and there is still no thread above the count.
insert-IsPacked :
    (p : Pool) (a : ℕ)
    → IsPacked p
    → p.count < max_num_workers
    → (q : Pool) × (insert p a ≡ some q)
      × (q.count ≡ p.count + 1)
      × ((i : ℕ) → q.slots i ≡ (if i == p.count then some a else p.slots i))
      × IsPacked q
unfolding insert
insert-IsPacked p a packed room = (
  _,
  insert_from-null (max_num_workers - p.count) p.count p a (omega arith)
      (ground (arith, packed p.count)),
  ground arith,
  (λ i. refl),
  set_slot-IsPacked p a packed,
)

-- What the second loop of `remove` finds.
abbrev Shrunk : (ℕ → Option ℕ) → ℕ → Option ℕ → Type 0
Shrunk f n none = (i : ℕ) → (if ltb i n then f i else none) ≡ none
Shrunk f n (some m) =
    (0 < m)
    × (m ≤ n)
    × (is_null (f (m - 1)) ≡ false)
    × ((i : ℕ) → (if leb m i && ltb i n then f i else none) ≡ none)

is_null-none : (o : Option ℕ) → is_null o ≡ true → o ≡ none
is_null-none none h = refl
is_null-none (some u) h = absurd (false≢true h)

Shrunk-suc :
    (f : ℕ → Option ℕ) (n : ℕ) (o : Option ℕ) → f n ≡ none → Shrunk f n o → Shrunk f (suc n) o
Shrunk-suc f n none e h = λ i. ground (arith, h i, e)
Shrunk-suc f n (some m) e (h, k, l, v) = (h, omega arith, l, λ i. ground (arith, v i, e))

shrink-Shrunk : (f : ℕ → Option ℕ) (n : ℕ) → Shrunk f n (shrink f n)
unfolding shrink
shrink-Shrunk f zero = λ i. ground arith
shrink-Shrunk f (suc n) =
    let last : suc n - 1 ≡ n = omega arith in
    elim (Bool-cases (is_null (f n))) [
      | inl e ↦ rw e (Shrunk-suc f n (shrink f n) (is_null-none (f n) e) (shrink-Shrunk f n))
      | inr e ↦ rw e (omega arith, omega arith, rw last e, λ i. ground arith)
    ]

-- A slot with the thread is emptied; any other stays as it is.
abbrev Without : Pool → ℕ → Pool → ℕ → Type 0
Without p a q i =
    ((p.slots i ≡ some a) × (q.slots i ≡ none)) ⊎ ((p.slots i ≢ some a) × (q.slots i ≡ p.slots i))

-- What `remove` may come to.
abbrev pub Removed : Pool → ℕ → Option Pool → Type 0
Removed p a none = (i : ℕ) → (p.slots i ≡ some a) ⊎ (p.slots i ≡ none)
Removed p a (some q) =
    (0 < q.count)
    × (q.count ≤ p.count)
    × (is_null (q.slots (q.count - 1)) ≡ false)
    × ((i : ℕ) → Without p a q i)
    × IsPacked q

clear-Without :
    (p : Pool) (a count i : ℕ)
    → IsPacked p
    → Without p a (record { slots = clear p a; count = count }) i
clear-Without p a count i packed = by_slot (p.slots i) refl
  where
    by_slot :
        (o : Option ℕ) → p.slots i ≡ o → Without p a (record { slots = clear p a; count = count }) i
    by_slot none e = inr (rw e (λ q. absurd (ground (arith, q))), ground (arith, e))
    by_slot (some u) e = elim (Bool-cases (u == a)) [
      | inl k ↦ inl (ground (arith, e), ground (arith, e, packed i))
      | inr k ↦ inr (rw e (λ q. absurd (ground (arith, q))), ground (arith, e))
    ]

removed-Removed :
    (p : Pool) (a : ℕ) (o : Option ℕ)
    → IsPacked p
    → Shrunk (clear p a) p.count o
    → Removed p a (removed p a o)
unfolding removed
removed-Removed p a none packed v = λ i. elim (clear-Without p a 0 i packed) [
  | inl (e, k) ↦ inl e
  | inr (ne, k) ↦ inr (ground (arith, v i, packed i, k))
]
removed-Removed p a (some m) packed (h, k, l, v) =
    (h, k, l, (λ i. clear-Without p a m i packed), λ i. ground (arith, v i, packed i))

-- In a pool with no thread at or above the count, `remove` empties the slots of the thread and no
-- others, and brings the count down to the last slot that holds a thread; or, and only if no other
-- thread is in the pool, it goes on to read before the first slot.
pub remove-Removed : (p : Pool) (a : ℕ) → IsPacked p → Removed p a (remove p a)
unfolding remove
remove-Removed p a packed =
    removed-Removed p a (shrink (clear p a) p.count) packed (shrink-Shrunk (clear p a) p.count)

-- A random number that does not find another thread: its slot is empty or the caller's.
abbrev Misses : Pool → ℕ → ℕ → Type 0
Misses p caller n =
    (p.count ≢ 1)
    × ((i : ℕ) × (slot_index n p.count ≡ some i) × ((p.slots i ≡ none) ⊎ (p.slots i ≡ some caller)))

-- What `getRandom` may come to with these random numbers.
abbrev pub Picked : Pool → ℕ → List ℕ → Found → Type 0
Picked p caller ns null = p.count ≡ 1
Picked p caller ns (thread a) = (a ≢ caller) × ((i : ℕ) × (i < p.count) × (p.slots i ≡ some a))
Picked p caller ns before_pool =
    (n k : ℕ) × (get_elem? ns k ≡ some n) × (2 ^ 31 ≤ n) × ((2 ^ 32 - n) % p.count ≢ 0)
Picked p caller ns looking = All (Misses p caller) ns

Picked-Misses :
    (p : Pool) (caller n : ℕ) (ns : List ℕ) (rest : Found)
    → Misses p caller n
    → Picked p caller ns rest
    → Picked p caller (n ∷ ns) rest
Picked-Misses p caller n ns null h v = v
Picked-Misses p caller n ns (thread a) h v = v
Picked-Misses p caller n ns before_pool h (m, k, e, v, w) = (m, suc k, e, v, w)
Picked-Misses p caller n ns looking h v = (h, v)

pick_slot-Picked :
    (p : Pool) (caller n i : ℕ) (ns : List ℕ) (o : Option ℕ) (alone : Bool) (rest : Found)
    → i < p.count
    → slot_index n p.count ≡ some i
    → p.slots i ≡ o
    → (p.count == 1) ≡ alone
    → Picked p caller ns rest
    → Picked p caller (n ∷ ns) (pick_slot alone o caller rest)
unfolding pick_slot
pick_slot-Picked p caller n i ns o true rest h k e alone v = ground arith
pick_slot-Picked p caller n i ns none false rest h k e alone v =
    Picked-Misses p caller n ns rest (ground arith, (i, k, inl e)) v
pick_slot-Picked p caller n i ns (some a) false rest h k e alone v =
    elim (Bool-cases (a == caller)) [
      | inl c ↦
          let same : a ≡ caller = ground arith in
          rw c (Picked-Misses p caller n ns rest (ground arith, (i, k, inr (e ∙ ap some same))) v)
      | inr c ↦ rw c (ground arith, (i, h, e))
    ]

-- A slot below the count, or a negative index.
slot_index-lt : (n count i : ℕ) → 0 < count → slot_index n count ≡ some i → i < count
unfolding slot_index
slot_index-lt n count i h e = elim (Bool-cases (ltb n (2 ^ 31))) [
  | inl k ↦
      let q : n % count ≡ i = ground (arith, e) in
      let lt : n % count < count = grind arith in omega (arith, q, lt)
  | inr k ↦ ground (arith, e)
]

slot_index-none :
    (n count : ℕ) → slot_index n count ≡ none → (2 ^ 31 ≤ n) × ((2 ^ 32 - n) % count ≢ 0)
unfolding slot_index
slot_index-none n count e = (ground (arith, e), λ z. absurd (ground (arith, e, z)))

pick-Picked :
    (p : Pool) (caller n : ℕ) (ns : List ℕ) (o : Option ℕ) (rest : Found)
    → 0 < p.count
    → slot_index n p.count ≡ o
    → Picked p caller ns rest
    → Picked p caller (n ∷ ns) (pick p o caller rest)
unfolding pick
pick-Picked p caller n ns none rest h k v =
    let (a, b) = slot_index-none n p.count k in (n, 0, refl, a, b)
pick-Picked p caller n ns (some i) rest h k v =
    pick_slot-Picked p caller n i ns (p.slots i) (p.count == 1) rest (slot_index-lt n p.count i h k)
      k refl refl v

-- `getRandom` in a pool with a slot in use returns NULL only where one slot is in use, and otherwise a
-- thread in a slot below the count that is not the caller. It reads before the first slot only for a
-- random number that is negative and no multiple of the count; and it looks on for longer than the
-- given random numbers last only if more than one slot is in use and each of the numbers finds an
-- empty slot or the caller.
pub get_random-Picked :
    (p : Pool) (caller : ℕ) (ns : List ℕ)
    → 0 < p.count
    → Picked p caller ns (get_random p caller ns)
unfolding get_random
get_random-Picked p caller [] h = tt
get_random-Picked p caller (n ∷ ns) h =
    pick-Picked p caller n ns (slot_index n p.count) _ h refl (get_random-Picked p caller ns h)
