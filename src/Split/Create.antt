-- ===== src/Split/Create.antt =====
-- `createPart` in a slot that is not taken, and `allocData` when every part is there.
use petabricks.Base.{
  ℕ, zero, suc, ◌+◌, ◌-◌, ◌<◌, ◌≤◌, ◌≡◌, refl, Option, none, some, List, get_elem?, set, arith,
}
use petabricks.Split.{
  Split, Part, Holder, here, host, sizes_of_part, place_in, place_part, create_part, ensure_part,
  use_part, alloc_from, alloc_data,
}

-- Where a part goes.
abbrev holder_of : Option ℕ → Holder
holder_of none = here
holder_of (some h) = host h

abbrev pub new_part : Split → ℕ → Option ℕ → Part
new_part s i h = record { sizes = sizes_of_part s i; holder = holder_of h }

abbrev pub with_parts : Split → List (Option Part) → Split
with_parts s ps = record s { parts = ps }

pub create_part-empty :
    (s : Split) (ps : List (Option Part)) (i : ℕ) (h : Option ℕ)
    → get_elem? ps i ≡ some none
    → create_part (with_parts s ps) i h ≡ some (with_parts s (set ps i (some (new_part s i h))))
unfolding create_part place_part place_in sizes_of_part
create_part-empty s ps i none e = rw e refl
create_part-empty s ps i (some h) e = rw e refl

-- A slot has a part.
abbrev IsTaken : Option (Option Part) → Type 0
IsTaken o = (part : Part) × (o ≡ some (some part))

alloc_from-taken :
    (n i : ℕ) (s : Split)
    → ((j : ℕ) → i ≤ j → j ≤ i + n → IsTaken (get_elem? s.parts j))
    → alloc_from s n i ≡ some s
unfolding alloc_from ensure_part use_part
alloc_from-taken zero i s h = rw (h i (omega arith) (omega arith)).1 refl
alloc_from-taken (suc n) i s h =
    rw (h i (omega arith) (omega arith)).1
      (alloc_from-taken n (i + 1) s (λ j p q. h j (omega arith) (omega arith)))

pub alloc_data-taken :
    (s : Split)
    → 0 < s.num_parts
    → ((j : ℕ) → j < s.num_parts → IsTaken (get_elem? s.parts j))
    → alloc_data s ≡ some s
unfolding alloc_data
alloc_data-taken s p h = alloc_from-taken (s.num_parts - 1) 0 s (λ j q r. h j (omega arith))
