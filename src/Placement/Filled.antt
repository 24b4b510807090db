-- ===== src/Placement/Filled.antt =====
-- Parts that are created one after the other, each once.
use native.Mathlib.Decide.{ℕ_discrete}
use petabricks.Base.{
  ℕ, zero, suc, ◌+◌, ◌<◌, ◌≤◌, ◌≡◌, ◌≢◌, refl, sym, ap, subst, ◌∙◌, Bool, true, false, false≢true,
  ◌⊎◌, inl, inr, Bool-cases, Option, none, some, List, [], ◌∷◌, ltb, lt→ltb, ltb→lt, length,
  get_elem?, set, length-set, get_elem?-set_self, get_elem?-set_ne, and_then, replicate,
  length-replicate, arith,
}
use petabricks.Split.{Split, Part, init, sizes_of_part, alloc_data}
use petabricks.Split.Create.{new_part, with_parts, create_part-empty, alloc_data-taken}
use petabricks.Placement.{HostDb, num_hosts, Placing, create_parts}
use petabricks.Placement.Hosts.{alloc_host-some}

-- The parts are created in the order that `order` gives them, from `t` on, on processes that there are.
abbrev pub Follows : HostDb → (ℕ → ℕ) → ℕ → ℕ → Placing → Type 0
Follows db order n t [] = Unit {0}
Follows db order n t ((i, r) ∷ placing) =
    (i < n) × (order i ≡ t) × (r < num_hosts db) × Follows db order n (t + 1) placing

-- A slot that has a part of its size, or not.
abbrev SlotIs : ℕ → Split → ℕ → Bool → Option (Option Part) → Type 0
SlotIs n s i b none = ltb i n ≡ false
SlotIs n s i b (some none) = b ≡ false
SlotIs n s i b (some (some part)) = (b ≡ true) × (part.sizes ≡ sizes_of_part s i)

-- The parts before `t` in the order are there.
abbrev IsFilledTo : (ℕ → ℕ) → ℕ → Split → ℕ → List (Option Part) → Type 0
IsFilledTo order n s t ps = (i : ℕ) → SlotIs n s i (ltb (order i) t) (get_elem? ps i)

abbrev pub IsInjective : (ℕ → ℕ) → ℕ → Type 0
IsInjective order n = (i j : ℕ) → i < n → j < n → order i ≡ order j → i ≡ j

get_elem?-out {ℓ} : {A : Type ℓ} (xs : List A) (i : ℕ) → length xs ≤ i → get_elem? xs i ≡ none
get_elem?-out [] i h = refl
get_elem?-out (x ∷ xs) zero h = absurd (omega arith)
get_elem?-out (x ∷ xs) (suc i) h = get_elem?-out xs i (omega arith)

SlotIs-empty :
    (n : ℕ) (s : Split) (i : ℕ) (o : Option (Option Part))
    → i < n
    → SlotIs n s i false o
    → o ≡ some none
SlotIs-empty n s i none h k = absurd (false≢true (sym k ∙ lt→ltb i n h))
SlotIs-empty n s i (some none) h k = refl
SlotIs-empty n s i (some (some part)) h k = absurd (false≢true k.0)

ltb-cases : (a b : ℕ) → (a < b) ⊎ (b ≤ a)
ltb-cases a b = elim (Bool-cases (ltb a b)) [
  | inl q ↦ inl (ltb→lt a b q)
  | inr q ↦ inr (ground arith)
]

some≢none : (x : Option Part) → ◌≡◌ {A = Option (Option Part)} (some x) none → ⊥
some≢none x h = absurd (ground (arith, h))

-- A slot that is not changed.
SlotIs-later :
    (n : ℕ) (s : Split) (j k t : ℕ) (o : Option (Option Part))
    → SlotIs n s j (ltb k t) o
    → (o ≡ some none → k ≢ t)
    → SlotIs n s j (ltb k (t + 1)) o
SlotIs-later n s j k t none h ne = h
SlotIs-later n s j k t (some none) h ne = let q = ne refl in ground arith
SlotIs-later n s j k t (some (some part)) h ne = (ground (arith, h.0), h.1)

IsFilledTo-set :
    (order : ℕ → ℕ) (n : ℕ) (s : Split) (t : ℕ) (ps : List (Option Part)) (i : ℕ) (h : Option ℕ)
    → IsInjective order n
    → i < n
    → order i ≡ t
    → length ps ≡ n
    → IsFilledTo order n s t ps
    → IsFilledTo order n s (t + 1) (set ps i (some (new_part s i h)))
IsFilledTo-set order n s t ps i h inj lt e l filled j = elim (ℕ_discrete i j) [
  | yes q ↦
      subst
        (λ x. SlotIs n s x (ltb (order x) (t + 1)) (get_elem? (set ps i (some (new_part s i h))) x))
        q
        (rw
          (
            get_elem?-set_self ps i (some (new_part s i h)) (omega arith),
            lt→ltb (order i) (t + 1) (omega arith),
          )
          (refl, refl))
  | no ne ↦
      rw (get_elem?-set_ne ps (some (new_part s i h)) ne)
        (SlotIs-later n s j (order j) t (get_elem? ps j) (filled j) (apart ne))
]
  where
    apart : i ≢ j → get_elem? ps j ≡ some none → order j ≢ t
    apart ne q r = elim (ltb-cases j n) [
      | inl below ↦ ne (inj i j lt below (e ∙ sym r))
      | inr above ↦ some≢none none (sym q ∙ get_elem?-out ps j (omega arith))
    ]

-- Parts that are created in an order are all there afterwards, and no part is created twice.
create_parts-IsFilledTo :
    (db : HostDb) (order : ℕ → ℕ) (n : ℕ) (s : Split) (t : ℕ) (placing : Placing)
    (ps : List (Option Part))
    → db.alloc_host_number ≤ length db.hosts
    → IsInjective order n
    → Follows db order n t placing
    → length ps ≡ n
    → IsFilledTo order n s t ps
    → (ps' : List (Option Part)) × (create_parts db placing (with_parts s ps)
        ≡ some (with_parts s ps'))
      × (length ps' ≡ n)
      × IsFilledTo order n s (t + length placing) ps'
unfolding create_parts
create_parts-IsFilledTo db order n s t [] ps k inj f l filled =
    (ps, refl, l, subst (λ x. IsFilledTo order n s x ps) (omega arith) filled)
create_parts-IsFilledTo db order n s t ((i, r) ∷ placing) ps k inj (lt, e, rh, f) l filled =
    let (h, he) = alloc_host-some db r k rh in
    let now : ltb (order i) t ≡ false = ground (arith, e) in
    let slot =
      SlotIs-empty n s i (get_elem? ps i) lt
        (subst (λ b. SlotIs n s i b (get_elem? ps i)) now (filled i)) in
    let made = create_part-empty s ps i h slot in
    let ps1 = set ps i (some (new_part s i h)) in
    let (ps', done, l', filled') =
      create_parts-IsFilledTo db order n s (t + 1) placing ps1 k inj f
        (length-set ps i (some (new_part s i h)) ∙ l)
        (IsFilledTo-set order n s t ps i h inj lt e l filled) in
    (ps', rw (he, made) done, l', subst (λ x. IsFilledTo order n s x ps') (omega arith) filled')

IsFilledTo-none : (order : ℕ → ℕ) (n : ℕ) (s : Split) → IsFilledTo order n s 0 (replicate n none)
IsFilledTo-none order n s i = elim (ltb-cases i n) [
  | inl below ↦ rw (get_elem?-replicate n i below) (ground arith)
  | inr above ↦
      rw
        (get_elem?-out {A = Option Part} (replicate n none) i
          (omega (arith, length-replicate {A = Option Part} n none)))
        (ground arith)
]
  where
    get_elem?-replicate :
        (n i : ℕ) → i < n → get_elem? {A = Option Part} (replicate n none) i ≡ some none
    get_elem?-replicate zero i h = absurd (omega arith)
    get_elem?-replicate (suc n) zero h = refl
    get_elem?-replicate (suc n) (suc i) h = get_elem?-replicate n i (omega arith)

SlotIs-taken :
    (n : ℕ) (s : Split) (i : ℕ) (o : Option (Option Part))
    → i < n
    → SlotIs n s i true o
    → (part : Part) × (o ≡ some (some part)) × (part.sizes ≡ sizes_of_part s i)
SlotIs-taken n s i none h k = absurd (false≢true (sym k ∙ lt→ltb i n h))
SlotIs-taken n s i (some none) h k = absurd (false≢true (sym k))
SlotIs-taken n s i (some (some part)) h k = (part, refl, k.1)

-- The parts of a matrix that has none yet, created in an order of all of them, and `allocData` after
-- that: there is a part in each slot, of its size.
pub create_parts-alloc_data :
    (db : HostDb) (order : ℕ → ℕ) (size split : List ℕ) (placing : Placing) (i : ℕ)
    → let s = init size split in
      db.alloc_host_number ≤ length db.hosts
      → IsInjective order s.num_parts
      → ((j : ℕ) → j < s.num_parts → order j < s.num_parts)
      → Follows db order s.num_parts 0 placing
      → length placing ≡ s.num_parts
      → i < s.num_parts
      → (s' : Split) × (and_then (create_parts db placing s) alloc_data ≡ some s')
        × (part : Part) × (get_elem? s'.parts i ≡ some (some part))
        × (part.sizes ≡ sizes_of_part s i)
unfolding init
create_parts-alloc_data db order size split placing i k inj below f l lt =
    let s = init size split in
    let n = s.num_parts in
    let (ps, made, l', filled) =
      create_parts-IsFilledTo db order n s 0 placing s.parts k inj f
        (length-replicate {A = Option Part} n none) (IsFilledTo-none order n s) in
    let taken : (j : ℕ)
        → j < n
        → (part : Part) × (get_elem? ps j ≡ some (some part)) × (part.sizes ≡ sizes_of_part s j) =
      λ j h. SlotIs-taken n s j (get_elem? ps j) h (
        subst (λ b. SlotIs n s j b (get_elem? ps j))
          (lt→ltb (order j) (0 + length placing) (omega (arith, below j h, l))) (filled j)) in
    let (part, here, sizes) = taken i lt in
    (
      with_parts s ps,
      ap (λ o. and_then o alloc_data) made
          ∙ alloc_data-taken (with_parts s ps) (omega (arith, lt))
              (λ j h. let (p, e, _) = taken j h in (p, e)),
      part,
      here,
      sizes,
    )
